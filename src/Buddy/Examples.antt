-- ===== src/Buddy/Examples.antt =====
-- The theorems on controller/buddy.c at concrete rings and exchanges.
use upkeeper.Prelude.{
  suc, ◌≤◌, ◌<◌, ◌^◌, false, All, ◌≡◌, refl, arith, true, List, [], ◌∷◌, length, drop, take,
}
use upkeeper.Buddy.Ring.{Ring, RunState, Snapshot, init_ringbuffer, record_start}
use upkeeper.Buddy.Ring.{
  record_child, record_state, advance, zero_info, less_pending, blanks, blank, noted, fill_slots,
}
use upkeeper.Buddy.Ring.{filled, next_of}
use upkeeper.Buddy.Flush.{Writing, Reading, Line, flush_ringbuffer, positive}
use upkeeper.Buddy.Queue.{contents, IsRing}
use upkeeper.Buddy.Recording.{Recorded, record-push, init_ringbuffer-IsRing}
use upkeeper.Buddy.Flushing.{acks, Countdown, IsHeard}
use upkeeper.Buddy.Sending.{hands_over}
use upkeeper.Buddy.Stale.{forgets_unsent}
use upkeeper.Buddy.Runs.{Reaches, reached-IsRing}

abbrev at_start : Snapshot
at_start = record {
  buddy_uuid = 1 ∷ 2 ∷ [];
  proc_pid = 512;
  last_command = 4;
  desired = RunState.running;
  now = 1000;
}

abbrev fresh-IsRing : IsRing (init_ringbuffer 2)
fresh-IsRing = (init_ringbuffer-IsRing 2 (omega arith)).0

abbrev one : Ring
one = record_start at_start (init_ringbuffer 2)

one-IsRing : IsRing one
one-IsRing = (record-push at_start [] 0 0 _ fresh-IsRing).0.0

abbrev two : Ring
two = record_child at_start (17 ∷ []) 512 256 one

two-IsRing : IsRing two
two-IsRing = (record-push at_start (17 ∷ []) 512 256 one one-IsRing).1.0

abbrev online : Line
online = record { written = 0; read = 4; ack = 0; connected = true }

-- One acknowledged message, and one that is written but not answered.
abbrev half_answered : List (Writing × Reading)
half_answered = (Writing.sent 288, Reading.received 4 1) ∷ (Writing.sent 288, Reading.closed) ∷ []

two_pending : two.pending ≡ 2
unfolding record_child record_start record_state advance zero_info less_pending init_ringbuffer
    blanks blank noted fill_slots filled next_of
two_pending = refl

two_size : two.size < 2 ^ 64
unfolding record_child record_start record_state advance zero_info init_ringbuffer blanks
two_size = omega arith

heard : All IsHeard half_answered
unfolding IsHeard
heard = (tt, (tt, tt))

record-push_example : Recorded at_start (17 ∷ []) 513 0 two
record-push_example = record-push at_start (17 ∷ []) 513 0 two two-IsRing

hands_over_example :
    (contents (flush_ringbuffer half_answered 3 online two).0.slots
      ≡ drop (acks half_answered) (contents two.slots))
    × (contents (flush_ringbuffer half_answered 3 online two).2
        ≡ take (suc (acks half_answered)) (contents two.slots))
    × Countdown two.pending (flush_ringbuffer half_answered 3 online two).2
    × ((flush_ringbuffer half_answered 3 online two).1.connected ≡ false)
hands_over_example =
    hands_over half_answered 3 online two two-IsRing two_size (omega (arith, two_pending)) heard
      refl

forgets_unsent_example :
    contents (flush_ringbuffer ((Writing.sent 288, Reading.received 4 1) ∷ []) 3 online two).0.slots
    ≡ []
unfolding positive
forgets_unsent_example = forgets_unsent 288 4 3 online two refl refl refl

reached-IsRing_example : IsRing two × (length two.slots ≡ 2) × (two.pending ≤ 2)
reached-IsRing_example =
    reached-IsRing 2 two (omega arith)
      (Reaches.ended at_start (17 ∷ []) 512 256 (Reaches.started at_start Reaches.begun))
