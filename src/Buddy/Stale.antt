-- ===== src/Buddy/Stale.antt =====
-- `write_ctrl` and `read_ctrl` of controller/buddy.c keep their counts in static variables, and return
-- the count of an earlier call if `select` times out.
use upkeeper.Prelude.{ℕ, ◌≡◌, refl, ap, ◌∙◌, true, false, inl, inr, Bool-cases}
use upkeeper.Prelude.{List, [], ◌∷◌}
use upkeeper.Buddy.Ring.{Slot, Ring, blank, less_pending}
use upkeeper.Buddy.Flush.{
  Writing, Reading, Line, positive, write_ctrl, read_ctrl, answered, exchange,
}
use upkeeper.Buddy.Flush.{first_of, rest_of, behind, trying, flush_slots, ctrl_ack}
use upkeeper.Buddy.Flush.{flush_ringbuffer}
use upkeeper.Buddy.Queue.{contents}
use upkeeper.Buddy.Flushing.{reply, flush_slots-skip, flush_slots-acked}

-- The counts and the answer of an acknowledged message.
abbrev Stale : Line → Type 0
Stale l = (positive l.written ≡ true) × (answered l ≡ true)

reply_quiet : (l : Line) → Stale l → reply [] l ≡ (l, true)
unfolding first_of exchange write_ctrl read_ctrl
reply_quiet l (w, a) = rw (w, a) refl

contents-cleared : (n : ℕ) (slots : List Slot) → contents (blank n ∷ slots) ≡ contents slots
unfolding contents blank
contents-cleared n slots = refl

contents-left :
    (s : Slot) (slots : List Slot) → s.populated ≡ false → contents (s ∷ slots) ≡ contents slots
unfolding contents
contents-left s slots p = rw p refl

quiet_drops :
    (l : Line) (n : ℕ) (slots : List Slot)
    → Stale l
    → contents (flush_slots [] l n slots).slots ≡ []
unfolding rest_of behind trying
quiet_drops l n [] h = unfold flush_slots contents in refl
quiet_drops l n (s ∷ todo) h = elim (Bool-cases s.populated) [
  | inr p ↦ rw (flush_slots-skip [] l n s todo p) (contents-left s _ p ∙ quiet_drops l n todo h)
  | inl p ↦ rw (flush_slots-acked [] l n s todo p (ap (λ t. t.1) (reply_quiet l h))) (
      contents-cleared s.slot_n _
      ∙ rw (reply_quiet l h) (quiet_drops l (less_pending true n) todo h))
]

-- The line behind a message that was acknowledged.
Stale-acked :
    (n k : ℕ) (l : Line)
    → positive n ≡ true
    → positive k ≡ true
    → Stale (exchange (Writing.sent n) (Reading.received k ctrl_ack) l).0
unfolding exchange write_ctrl read_ctrl answered
Stale-acked n k l hn hk = rw hn (hn, rw hk refl)

exchange-one :
    (n k : ℕ) (l : Line)
    → positive n ≡ true
    → positive k ≡ true
    → (exchange (Writing.sent n) (Reading.received k ctrl_ack) l).1 ≡ true
unfolding exchange write_ctrl read_ctrl answered
exchange-one n k l hn hk = rw hn (rw hk refl)

one_then_quiet :
    (n k : ℕ) (l : Line) (p : ℕ) (slots : List Slot)
    → positive n ≡ true
    → positive k ≡ true
    → contents (flush_slots ((Writing.sent n, Reading.received k ctrl_ack) ∷ []) l p slots).slots
      ≡ []
unfolding rest_of first_of behind trying
one_then_quiet n k l p [] hn hk = unfold flush_slots contents in refl
one_then_quiet n k l p (s ∷ todo) hn hk =
    let e : Writing × Reading = (Writing.sent n, Reading.received k ctrl_ack) in
    elim (Bool-cases s.populated) [
      | inr q ↦
          rw (flush_slots-skip (e ∷ []) l p s todo q)
            (contents-left s _ q ∙ one_then_quiet n k l p todo hn hk)
      | inl q ↦
          rw (flush_slots-acked (e ∷ []) l p s todo q (exchange-one n k l hn hk))
            (contents-cleared s.slot_n _ ∙ quiet_drops _ _ todo (Stale-acked n k l hn hk))
    ]

-- If, over an open connection, the controller acknowledges one message and is then not heard of, the messages behind that one
-- count as written and acknowledged all the same: the ring is empty after the flush.
pub forgets_unsent :
    (n k cmnd : ℕ) (l : Line) (r : Ring)
    → positive n ≡ true
    → positive k ≡ true
    → l.connected ≡ true
    → contents
        (flush_ringbuffer ((Writing.sent n, Reading.received k ctrl_ack) ∷ []) cmnd l r).0.slots
      ≡ []
unfolding flush_ringbuffer
forgets_unsent n k cmnd l r hn hk c = rw c (one_then_quiet n k _ r.pending r.slots hn hk)
