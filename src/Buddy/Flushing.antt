-- ===== src/Buddy/Flushing.antt =====
-- What `buddy_flush_ringbuffer` of controller/buddy.c sends, and what it keeps.
use upkeeper.Prelude.{ℕ, suc, ◌+◌, ◌-◌, ◌≡◌, refl, ap, arith}
use upkeeper.Prelude.{Bool, true, false, ◌&&◌, inl, inr, Bool-cases}
use upkeeper.Prelude.{List, [], ◌∷◌, ◌==◌, if◌then◌else◌, length}
use upkeeper.Buddy.Ring.{Slot, blank, less_pending}
use upkeeper.Buddy.Flush.{
  Writing, Reading, Line, positive, write_ctrl, read_ctrl, answered, exchange,
}
use upkeeper.Buddy.Flush.{first_of, rest_of, with_remaining, Flushed, behind, trying, flush_slots}
use upkeeper.Buddy.Flush.{ctrl_ack}
use upkeeper.Buddy.Queue.{contents, Ordered}

-- Bytes of the message were written, and UPK_CTRL_ACK was read.
unfoldable pub acked : Writing → Reading → Bool
acked (Writing.sent n) (Reading.received k cmnd) = positive n && (positive k && (cmnd == ctrl_ack))
acked w r = false

-- `select` did not time out.
unfoldable pub IsHeard : Writing × Reading → Type 0
IsHeard (Writing.quiet, r) = ⊥
IsHeard (Writing.sent n, Reading.quiet) = ⊥
IsHeard e = Unit

-- The exchanges before the first that is not an acknowledged one.
unfoldable pub acks : List (Writing × Reading) → ℕ
acks [] = 0
acks (e ∷ env) = let rest = acks env in if acked e.0 e.1 then suc rest else 0

-- The first of `n` messages says that `n - 1` follow, and so on.
unfoldable pub Countdown : ℕ → List Slot → Type 0
Countdown n [] = Unit
Countdown n (s ∷ rest) = (s.remaining + 1 ≡ n) × Countdown (n - 1) rest

pub exchange-acked :
    (w : Writing) (r : Reading) (l : Line) → IsHeard (w, r) → (exchange w r l).1 ≡ acked w r
unfolding exchange write_ctrl read_ctrl answered acked IsHeard positive
exchange-acked Writing.quiet r l h = absurd h
exchange-acked Writing.failed r l h = refl
exchange-acked Writing.closed r l h = refl
exchange-acked (Writing.sent n) Reading.quiet l h = absurd h
exchange-acked (Writing.sent n) Reading.failed l h = ground arith
exchange-acked (Writing.sent n) Reading.closed l h = ground arith
exchange-acked (Writing.sent n) (Reading.received k cmnd) l h = ground arith

-- What the first exchange makes of the line, and whether it counts as acknowledged.
abbrev pub reply : List (Writing × Reading) → Line → Line × Bool
reply env l = exchange (first_of env).0 (first_of env).1 l

module _ (env : List (Writing × Reading)) (l : Line) (pending : ℕ) (s : Slot)
    (todo : List Slot) where
  pub flush_slots-skip :
      s.populated ≡ false
      → flush_slots env l pending (s ∷ todo) ≡ behind s (flush_slots env l pending todo)
  unfolding flush_slots
  flush_slots-skip h = rw h refl

  pub flush_slots-acked :
      s.populated ≡ true
      → (reply env l).1 ≡ true
      → flush_slots env l pending (s ∷ todo)
        ≡ trying (with_remaining pending s) (
            behind
              (blank s.slot_n)
              (flush_slots (rest_of env) (reply env l).0 (less_pending true pending) todo))
  unfolding flush_slots
  flush_slots-acked h e = rw (h, e) refl

  pub flush_slots-stop :
      s.populated ≡ true
      → (reply env l).1 ≡ false
      → flush_slots env l pending (s ∷ todo) ≡ record {
        slots = with_remaining pending s ∷ todo;
        pending = pending;
        line = (reply env l).0;
        tried = with_remaining pending s ∷ [];
      }
  unfolding flush_slots
  flush_slots-stop h e = rw (h, e) refl

-- What a flush keeps of the shape of the ring.
pub record Shaped (slots : List Slot) (f : Flushed) : Type 0 where
  pub same_length : length f.slots ≡ length slots
  pub counted : f.pending ≡ length (contents f.slots)
  pub ordered : Ordered f.slots

Shaped-behind :
    (s t : Slot) (todo : List Slot) (f : Flushed)
    → t.populated ≡ false
    → Shaped todo f
    → Shaped (s ∷ todo) (behind t f)
unfolding behind contents Ordered
Shaped-behind s t todo f p v = record {
  same_length = ap suc v.same_length;
  counted = ground (arith, v.counted);
  ordered = (λ q. ground arith, v.ordered);
}

Shaped-trying :
    (m : Slot) (slots : List Slot) (f : Flushed) → Shaped slots f → Shaped slots (trying m f)
unfolding trying
Shaped-trying m slots f v = record {
  same_length = v.same_length;
  counted = v.counted;
  ordered = v.ordered;
}

Shaped-stop :
    (p : ℕ) (s : Slot) (todo : List Slot) (l : Line)
    → p ≡ length (contents (s ∷ todo))
    → Ordered (s ∷ todo)
    → Shaped (s ∷ todo) (record {
      slots = with_remaining p s ∷ todo;
      pending = p;
      line = l;
      tried = with_remaining p s ∷ [];
    })
unfolding with_remaining contents Ordered
Shaped-stop p s todo l c o = record {
  same_length = refl;
  counted = ground (arith, c);
  ordered = (o.0, o.1);
}

-- The pending count is that of the slots that are left when one of them is cleared.
pub fewer :
    (p : ℕ) (s : Slot) (todo : List Slot)
    → s.populated ≡ true
    → p ≡ length (contents (s ∷ todo))
    → less_pending true p ≡ length (contents todo)
unfolding less_pending contents
fewer p s todo h c = ground (arith, c)

pub same_count :
    (p : ℕ) (s : Slot) (todo : List Slot)
    → s.populated ≡ false
    → p ≡ length (contents (s ∷ todo))
    → p ≡ length (contents todo)
unfolding contents
same_count p s todo h c = ground (arith, c)

pub flush_slots-Shaped :
    (env : List (Writing × Reading)) (l : Line) (pending : ℕ) (slots : List Slot)
    → pending ≡ length (contents slots)
    → Ordered slots
    → Shaped slots (flush_slots env l pending slots)
unfolding Ordered
flush_slots-Shaped env l pending [] c o =
    unfold flush_slots in record { same_length = refl; counted = c; ordered = tt }
flush_slots-Shaped env l pending (s ∷ todo) c o = elim (Bool-cases s.populated) [
  | inr p ↦ rw (flush_slots-skip env l pending s todo p) (
      Shaped-behind s s todo _ p
        (flush_slots-Shaped env l pending todo (same_count pending s todo p c) o.1))
  | inl p ↦ elim (Bool-cases (reply env l).1) [
    | inl e ↦ rw (flush_slots-acked env l pending s todo p e) (
        Shaped-trying _ _ _ (
          Shaped-behind s (blank s.slot_n) todo _ (unfold blank in refl)
            (flush_slots-Shaped (rest_of env) _ _ todo (fewer pending s todo p c) o.1)))
    | inr e ↦ rw (flush_slots-stop env l pending s todo p e) (Shaped-stop pending s todo _ c o)
  ]
]
