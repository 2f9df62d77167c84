-- ===== src/Buddy/Sending.antt =====
-- What `buddy_flush_ringbuffer` of controller/buddy.c hands to a controller that is heard of.
use upkeeper.Prelude.{ℕ, zero, suc, ◌+◌, ◌-◌, ◌^◌, ◌≤◌, ◌<◌, ◌≡◌, refl, sym, ap, ◌∙◌, arith}
use upkeeper.Prelude.{true, false, inl, inr, Bool-cases}
use upkeeper.Prelude.{List, [], ◌∷◌, length, drop, take, All}
use upkeeper.Buddy.Ring.{Slot, Ring, blank, less_pending}
use upkeeper.Buddy.Flush.{
  Writing, Reading, Line, first_of, rest_of, with_remaining, Flushed, behind,
}
use upkeeper.Buddy.Flush.{trying, flush_slots, flush_ringbuffer}
use upkeeper.Buddy.Queue.{event, contents, length-contents, IsRing}
use upkeeper.Buddy.Flushing.{
  acked, IsHeard, acks, Countdown, exchange-acked, reply, flush_slots-skip,
}
use upkeeper.Buddy.Flushing.{flush_slots-acked, flush_slots-stop, same_count}

-- What a flush of `n` messages to a controller that is heard of sends and keeps.
pub record Sent (env : List (Writing × Reading)) (n : ℕ) (slots : List Slot) (f : Flushed)
    : Type 0 where
  pub kept : contents f.slots ≡ drop (acks env) (contents slots)
  pub handed_over : contents f.tried ≡ take (suc (acks env)) (contents slots)
  pub countdown : Countdown n f.tried

remaining_counts : (n : ℕ) (s : Slot) → 1 ≤ n → n < 2 ^ 64 → (with_remaining n s).remaining + 1 ≡ n
unfolding with_remaining
remaining_counts n s h b = omega arith

contents-populated :
    (s : Slot) (todo : List Slot)
    → s.populated ≡ true
    → contents (s ∷ todo) ≡ event s ∷ contents todo
unfolding contents
contents-populated s todo p = rw p refl

contents-skip :
    (s : Slot) (todo : List Slot) → s.populated ≡ false → contents (s ∷ todo) ≡ contents todo
unfolding contents
contents-skip s todo p = rw p refl

contents-with_remaining :
    (n : ℕ) (s : Slot) (todo : List Slot)
    → contents (with_remaining n s ∷ todo) ≡ contents (s ∷ todo)
unfolding contents with_remaining event
contents-with_remaining n s todo = refl

acks-acked :
    (e : Writing × Reading) (env : List (Writing × Reading))
    → acked e.0 e.1 ≡ true
    → acks (e ∷ env) ≡ suc (acks env)
unfolding acks
acks-acked e env h = rw h refl

acks-stop :
    (e : Writing × Reading) (env : List (Writing × Reading))
    → acked e.0 e.1 ≡ false
    → acks (e ∷ env) ≡ 0
unfolding acks
acks-stop e env h = rw h refl

drop-nil {ℓ} : {A : Type ℓ} (n : ℕ) → [] ≡ drop {A = A} n []
drop-nil zero = refl
drop-nil (suc n) = refl

blank-populated : (n : ℕ) → (blank n).populated ≡ false
unfolding blank
blank-populated n = refl

module _ (env : List (Writing × Reading)) (n : ℕ) (s : Slot) (todo : List Slot) (f : Flushed) where
  Sent-skip : s.populated ≡ false → Sent env n todo f → Sent env n (s ∷ todo) (behind s f)
  unfolding behind
  Sent-skip p v = record {
    kept = rw (contents-skip s todo p, contents-skip s f.slots p) v.kept;
    handed_over = rw (contents-skip s todo p) v.handed_over;
    countdown = v.countdown;
  }

  Sent-acked :
      (e : Writing × Reading)
      → s.populated ≡ true
      → acked e.0 e.1 ≡ true
      → 1 ≤ n
      → n < 2 ^ 64
      → Sent env (n - 1) todo f
      → Sent (e ∷ env) n (s ∷ todo) (trying (with_remaining n s) (behind (blank s.slot_n) f))
  unfolding trying behind Countdown
  Sent-acked e p a h b v = record {
    kept =
        rw (acks-acked e env a, contents-populated s todo p)
          (contents-skip (blank s.slot_n) f.slots (blank-populated s.slot_n) ∙ v.kept);
    handed_over = rw (acks-acked e env a) (
        contents-with_remaining n s f.tried
        ∙ contents-populated s f.tried p
        ∙ ap (λ q. event s ∷ q) v.handed_over
        ∙ ap (take (suc (suc (acks env)))) (sym (contents-populated s todo p)));
    countdown = (remaining_counts n s h b, v.countdown);
  }

  Sent-stop :
      (e : Writing × Reading) (l : Line)
      → s.populated ≡ true
      → acked e.0 e.1 ≡ false
      → 1 ≤ n
      → n < 2 ^ 64
      → Sent (e ∷ env) n (s ∷ todo) (record {
        slots = with_remaining n s ∷ todo;
        pending = n;
        line = l;
        tried = with_remaining n s ∷ [];
      })
  unfolding Countdown contents
  Sent-stop e l p a h b = record {
    kept = rw (acks-stop e env a) (contents-with_remaining n s todo);
    handed_over = rw (acks-stop e env a) (
        contents-with_remaining n s []
        ∙ contents-populated s [] p
        ∙ ap (take 1) (sym (contents-populated s todo p)));
    countdown = (remaining_counts n s h b, tt);
  }

length-populated :
    (n : ℕ) (s : Slot) (todo : List Slot)
    → s.populated ≡ true
    → n ≡ length (contents (s ∷ todo))
    → n ≡ suc (length (contents todo))
length-populated n s todo p c = c ∙ ap length (contents-populated s todo p)

reply-acked :
    (e : Writing × Reading) (env : List (Writing × Reading)) (l : Line)
    → IsHeard e
    → (reply (e ∷ env) l).1 ≡ acked e.0 e.1
unfolding first_of
reply-acked e env l h = exchange-acked e.0 e.1 l h

less_pending-populated : (n : ℕ) → less_pending true n ≡ n - 1
unfolding less_pending
less_pending-populated n = ground arith

nothing-Sent :
    (env : List (Writing × Reading)) (l : Line) (n : ℕ) → Sent env n [] (flush_slots env l n [])
unfolding flush_slots contents Countdown
nothing-Sent env l n = record { kept = drop-nil (acks env); handed_over = refl; countdown = tt }

pub flush_slots-Sent :
    (env : List (Writing × Reading)) (l : Line) (n : ℕ) (slots : List Slot)
    → n ≡ length (contents slots)
    → n < 2 ^ 64
    → n ≤ length env
    → All IsHeard env
    → Sent env n slots (flush_slots env l n slots)
unfolding rest_of
flush_slots-Sent env l n [] c b h heard = nothing-Sent env l n
flush_slots-Sent [] l n (s ∷ todo) c b h heard = elim (Bool-cases s.populated) [
  | inr p ↦
      rw (flush_slots-skip [] l n s todo p) (
        Sent-skip [] n s todo _ p
          (flush_slots-Sent [] l n todo (same_count n s todo p c) b h heard))
  | inl p ↦ absurd (omega (arith, length-populated n s todo p c))
]
flush_slots-Sent (e ∷ env) l n (s ∷ todo) c b h heard = elim (Bool-cases s.populated) [
  | inr p ↦ rw (flush_slots-skip (e ∷ env) l n s todo p) (
      Sent-skip (e ∷ env) n s todo _ p
        (flush_slots-Sent (e ∷ env) l n todo (same_count n s todo p c) b h heard))
  | inl p ↦ elim (Bool-cases (acked e.0 e.1)) [
    | inl a ↦
        rw
          (
            flush_slots-acked (e ∷ env) l n s todo p (reply-acked e env l heard.0 ∙ a),
            less_pending-populated n,
          )
          (Sent-acked env n s todo _ e p a (omega (arith, length-populated n s todo p c)) b (
            flush_slots-Sent env _ (n - 1) todo (omega (arith, length-populated n s todo p c))
              (omega arith) (omega arith) heard.1))
    | inr a ↦ rw (flush_slots-stop (e ∷ env) l n s todo p (reply-acked e env l heard.0 ∙ a)) (
        Sent-stop env n s todo (record { slots = []; pending = 0; line = l; tried = [] }) e _ p a
          (omega (arith, length-populated n s todo p c)) b)
  ]
]

pending_bound : (r : Ring) → IsRing r → r.size < 2 ^ 64 → r.pending < 2 ^ 64
pending_bound r h b = omega (arith, h.counted, h.sized, length-contents r.slots)

-- Over an open connection to a controller that is heard of at every message, a flush of a well-formed
-- ring of fewer than 2 ^ 64 slots hands over the messages, the oldest first, up to and with the first
-- that is not acknowledged, each with the number of those that follow it. The acknowledged messages
-- leave the ring, all others stay in it, and the connection is closed.
pub hands_over :
    (env : List (Writing × Reading)) (cmnd : ℕ) (l : Line) (r : Ring)
    → IsRing r
    → r.size < 2 ^ 64
    → r.pending ≤ length env
    → All IsHeard env
    → l.connected ≡ true
    → (contents (flush_ringbuffer env cmnd l r).0.slots ≡ drop (acks env) (contents r.slots))
      × (contents (flush_ringbuffer env cmnd l r).2 ≡ take (suc (acks env)) (contents r.slots))
      × Countdown r.pending (flush_ringbuffer env cmnd l r).2
      × ((flush_ringbuffer env cmnd l r).1.connected ≡ false)
unfolding flush_ringbuffer
hands_over env cmnd l r h b enough heard c = rw c (
    let v = flush_slots-Sent env _ r.pending r.slots h.counted (pending_bound r h b) enough heard in
    (v.kept, v.handed_over, v.countdown, refl))
