-- ===== src/Buddy/Runs.antt =====
-- The rings that controller/buddy.c comes to: the new one, and what recordings and flushes make of it.
use upkeeper.Prelude.{ℕ, ◌≤◌, ◌≡◌, refl, ◌∙◌, arith, inl, inr, Bool-cases, List, [], ◌∷◌}
use upkeeper.Prelude.{length}
use upkeeper.Buddy.Ring.{
  Slot, Ring, Snapshot, init_ringbuffer, record_start, record_child, record_state,
}
use upkeeper.Buddy.Ring.{zero_info, advance}
use upkeeper.Buddy.Flush.{Writing, Reading, Line, flush_ringbuffer}
use upkeeper.Buddy.Queue.{length-contents, IsRing}
use upkeeper.Buddy.Recording.{record-push, init_ringbuffer-IsRing}
use upkeeper.Buddy.Flushing.{flush_slots-Shaped}

pub data Reaches (size : ℕ) : Ring → Type 0 where
  begun : Reaches size (init_ringbuffer size)
  started : {r : Ring} (snap : Snapshot) → Reaches size r → Reaches size (record_start snap r)
  ended :
      {r : Ring} (snap : Snapshot) (siginfo : List ℕ) (pid status : ℕ)
      → Reaches size r
      → Reaches size (record_child snap siginfo pid status r)
  flushed :
      {r : Ring} (env : List (Writing × Reading)) (cmnd : ℕ) (l : Line)
      → Reaches size r
      → Reaches size (flush_ringbuffer env cmnd l r).0

-- A flush keeps the ring well formed, whatever the controller does.
pub flush_ringbuffer-IsRing :
    (env : List (Writing × Reading)) (cmnd : ℕ) (l : Line) (r : Ring)
    → IsRing r
    → IsRing (flush_ringbuffer env cmnd l r).0
unfolding flush_ringbuffer
flush_ringbuffer-IsRing env cmnd l r h = elim (Bool-cases l.connected) [
  | inr c ↦ rw c h
  | inl c ↦ rw c (
      let v = flush_slots-Shaped env _ r.pending r.slots h.counted h.ordered in
      record {
        sized = v.same_length ∙ h.sized;
        some_slot = h.some_slot;
        counted = v.counted;
        ordered = v.ordered;
      })
]

zero_slots-size :
    (slots : List Slot) (c n : ℕ)
    → (zero_info (record { slots = slots; pending = c; size = n })).size ≡ n
unfolding zero_info
zero_slots-size [] c n = refl
zero_slots-size (s ∷ rest) c n = refl

zero_info-size : (r : Ring) → (zero_info r).size ≡ r.size
zero_info-size r = zero_slots-size r.slots r.pending r.size

pub record_child-size :
    (snap : Snapshot) (siginfo : List ℕ) (pid status : ℕ) (r : Ring)
    → (record_child snap siginfo pid status r).size ≡ r.size
unfolding record_child record_state advance
record_child-size snap siginfo pid status r = zero_info-size r

flush_ringbuffer-size :
    (env : List (Writing × Reading)) (cmnd : ℕ) (l : Line) (r : Ring)
    → (flush_ringbuffer env cmnd l r).0.size ≡ r.size
unfolding flush_ringbuffer
flush_ringbuffer-size env cmnd l r = elim (Bool-cases l.connected) [
  | inr c ↦ rw c refl
  | inl c ↦ rw c refl
]

Reaches-size : (size : ℕ) (r : Ring) → Reaches size r → r.size ≡ size
unfolding init_ringbuffer record_start record_state advance
Reaches-size size _ Reaches.begun = refl
Reaches-size size _ (Reaches.started {r} snap q) = zero_info-size r ∙ Reaches-size size r q
Reaches-size size _ (Reaches.ended {r} snap siginfo pid status q) =
    record_child-size snap siginfo pid status r ∙ Reaches-size size r q
Reaches-size size _ (Reaches.flushed {r} env cmnd l q) =
    flush_ringbuffer-size env cmnd l r ∙ Reaches-size size r q

Reaches-IsRing : (size : ℕ) (r : Ring) → 1 ≤ size → Reaches size r → IsRing r
Reaches-IsRing size _ h Reaches.begun = (init_ringbuffer-IsRing size h).0
Reaches-IsRing size _ h (Reaches.started {r} snap q) =
    (record-push snap [] 0 0 r (Reaches-IsRing size r h q)).0.0
Reaches-IsRing size _ h (Reaches.ended {r} snap siginfo pid status q) =
    (record-push snap siginfo pid status r (Reaches-IsRing size r h q)).1.0
Reaches-IsRing size _ h (Reaches.flushed {r} env cmnd l q) =
    flush_ringbuffer-IsRing env cmnd l r (Reaches-IsRing size r h q)

-- Every ring that recordings and flushes, in any order and with any controller, make of a new one of
-- at least one slot is well formed: its slots are as many as in the beginning, its pending count is
-- the number of its messages and at most that of its slots, and its free slots stand before the
-- messages.
pub reached-IsRing :
    (size : ℕ) (r : Ring)
    → 1 ≤ size
    → Reaches size r
    → IsRing r × (length r.slots ≡ size) × (r.pending ≤ size)
reached-IsRing size r h q =
    let v = Reaches-IsRing size r h q in
    let e = Reaches-size size r q in
    (v, v.sized ∙ e, omega (arith, v.counted, v.sized, e, length-contents r.slots))
