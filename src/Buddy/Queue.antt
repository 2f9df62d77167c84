-- ===== src/Buddy/Queue.antt =====
-- The ring buffer of controller/buddy.c as a queue, and the invariant under which it is one.
use upkeeper.Prelude.{ℕ, ◌≤◌, ◌≡◌, refl, ap, arith, true, List, [], ◌∷◌, ◌++◌}
use upkeeper.Prelude.{ltb, if◌then◌else◌, length, drop, length-append}
use upkeeper.Buddy.Ring.{Slot, Ring}

-- What a message says, without its place in the ring and in a transmission.
unfoldable pub event : Slot → Slot
event s = record {
  populated = s.populated;
  service_pid = s.service_pid;
  wait_pid = s.wait_pid;
  command = s.command;
  desired_state = s.desired_state;
  siginfo = s.siginfo;
  wait_status = s.wait_status;
  timestamp = s.timestamp;
  remaining = 0;
  uuid = s.uuid;
  slot_n = 0;
}

-- The messages of the slots, the oldest first.
unfoldable pub contents : List Slot → List Slot
contents [] = []
contents (s ∷ rest) = if s.populated then event s ∷ contents rest else contents rest

-- A queue of `size` elements that forgets its oldest element for a new one.
unfoldable pub push {ℓ} : {A : Type ℓ} → ℕ → A → List A → List A
push size x q = if ltb (length q) size then q ++ (x ∷ []) else drop 1 q ++ (x ∷ [])

-- No empty slot lies behind a populated one.
unfoldable pub Ordered : List Slot → Type 0
Ordered [] = Unit
Ordered (s ∷ rest) = ((s.populated ≡ true) → length (contents rest) ≡ length rest) × Ordered rest

-- The ring has the slots that it is said to have, at least one, the empty ones first, and counts
-- those that are populated.
pub record IsRing (r : Ring) : Type 0 where
  pub sized : length r.slots ≡ r.size
  pub some_slot : 1 ≤ r.size
  pub counted : r.pending ≡ length (contents r.slots)
  pub ordered : Ordered r.slots

pub contents-append : (xs ys : List Slot) → contents (xs ++ ys) ≡ contents xs ++ contents ys
unfolding contents
contents-append [] ys = refl
contents-append (s ∷ xs) ys = ground (arith, contents-append xs ys)

pub length-contents : (xs : List Slot) → length (contents xs) ≤ length xs
unfolding contents
length-contents [] = omega arith
length-contents (s ∷ xs) = ground (arith, length-contents xs)

pub length-contents_one : (s : Slot) → s.populated ≡ true → length (contents (s ∷ [])) ≡ 1
unfolding contents
length-contents_one s p = rw p refl

-- A populated slot may be added behind.
pub Ordered-append :
    (xs : List Slot) (s : Slot) → s.populated ≡ true → Ordered xs → Ordered (xs ++ (s ∷ []))
unfolding Ordered contents
Ordered-append [] s p o = ((λ q. refl), tt)
Ordered-append (x ∷ xs) s p (h, o) = (
  λ q. omega (
    arith,
    length-append xs (s ∷ []),
    ap length (contents-append xs (s ∷ [])),
    length-append (contents xs) (contents (s ∷ [])),
    length-contents_one s p,
    h q,
  ),
  Ordered-append xs s p o,
)
