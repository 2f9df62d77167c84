-- ===== src/Buddy/Recording.antt =====
-- What controller/buddy.c records, against the queue that forgets its oldest element.
use upkeeper.Prelude.{ℕ, zero, suc, ◌+◌, ◌-◌, ◌≤◌, ◌≡◌, refl, ap, ◌∙◌, arith, Bool, true}
use upkeeper.Prelude.{List, [], ◌∷◌, ◌++◌, leb, if◌then◌else◌, length, length-append}
use upkeeper.Buddy.Ring.{Slot, Ring, Snapshot, blank, blanks, init_ringbuffer, less_pending}
use upkeeper.Buddy.Ring.{zero_info, next_of, advance, filled, fill_slots, record_state}
use upkeeper.Buddy.Ring.{record_start, record_child, noted}
use upkeeper.Buddy.Queue.{event, contents, push, Ordered, IsRing, contents-append, length-contents}
use upkeeper.Buddy.Queue.{Ordered-append, length-contents_one}

-- The message of a child that ended.
abbrev pub child_message : Snapshot → List ℕ → ℕ → ℕ → Slot
child_message snap siginfo pid status = record {
  populated = true;
  service_pid = snap.proc_pid;
  wait_pid = pid;
  command = snap.last_command;
  desired_state = snap.desired;
  siginfo = siginfo;
  wait_status = status;
  timestamp = snap.now;
  remaining = 0;
  uuid = snap.buddy_uuid;
  slot_n = 0;
}

-- The message of a process that was started: nothing was waited for.
abbrev pub start_message : Snapshot → Slot
start_message snap = child_message snap [] 0 0

blanks-contents : (todo n : ℕ) → contents (blanks todo n) ≡ []
unfolding blanks blank contents
blanks-contents zero n = refl
blanks-contents (suc todo) n = blanks-contents todo (suc n)

length-blanks : (todo n : ℕ) → length (blanks todo n) ≡ todo
unfolding blanks
length-blanks zero n = refl
length-blanks (suc todo) n = ap suc (length-blanks todo (suc n))

blanks-Ordered : (todo n : ℕ) → Ordered (blanks todo n)
unfolding blanks blank Ordered
blanks-Ordered zero n = tt
blanks-Ordered (suc todo) n = (λ q. ground arith, blanks-Ordered todo (suc n))

-- A new ring is well formed, and holds nothing.
pub init_ringbuffer-IsRing :
    (size : ℕ)
    → 1 ≤ size
    → IsRing (init_ringbuffer size) × (contents (init_ringbuffer size).slots ≡ [])
unfolding init_ringbuffer contents Ordered blank
init_ringbuffer-IsRing size h = (
  record {
    sized = omega (arith, length-blanks (size - 1) 1);
    some_slot = h;
    counted = omega (arith, ap length (blanks-contents (size - 1) 1));
    ordered = (λ q. ground arith, blanks-Ordered (size - 1) 1);
  },
  blanks-contents (size - 1) 1,
)

-- The pending count after one more message.
abbrev counts_on : Bool → ℕ → ℕ → ℕ
counts_on populated pending size =
    let z = less_pending populated pending in if leb size z then size else z + 1

module _ (s : Slot) (rest : List Slot) (pending size : ℕ) where
  abbrev Before : Type 0
  Before = IsRing (record { slots = s ∷ rest; pending = pending; size = size })

  counts_one :
      (new : Slot)
      → new.populated ≡ true
      → length (contents (rest ++ (new ∷ []))) ≡ length (contents rest) + 1
  counts_one new p = omega (
    arith,
    ap length (contents-append rest (new ∷ [])),
    length-append (contents rest) (contents (new ∷ [])),
    length-contents_one new p,
  )

  recorded-IsRing :
      (new : Slot)
      → new.populated ≡ true
      → Before
      → IsRing (record {
        slots = rest ++ (new ∷ []);
        pending = counts_on s.populated pending size;
        size = size;
      })
  unfolding less_pending contents Ordered
  recorded-IsRing new p h = record {
    sized = omega (arith, h.sized, length-append rest (new ∷ []));
    some_slot = h.some_slot;
    counted = ground (arith, h.counted, h.sized, length-contents rest, counts_one new p);
    ordered = Ordered-append rest new p h.ordered.1;
  }

  contents_one : (new : Slot) → new.populated ≡ true → contents (new ∷ []) ≡ event new ∷ []
  unfolding contents
  contents_one new p = rw p refl

  recorded-push :
      (new : Slot)
      → new.populated ≡ true
      → Before
      → contents (rest ++ (new ∷ [])) ≡ push size (event new) (contents (s ∷ rest))
  unfolding push contents Ordered
  recorded-push new p h =
      contents-append rest (new ∷ [])
      ∙ ap (λ l. contents rest ++ l) (contents_one new p)
      ∙ ground (arith, h.sized, h.ordered, length-contents rest)

-- What the two recordings make of a ring.
abbrev pub Recorded : Snapshot → List ℕ → ℕ → ℕ → Ring → Type 0
Recorded snap siginfo pid status r =
    (IsRing (record_start snap r)
      × (contents (record_start snap r).slots
          ≡ push r.size (start_message snap) (contents r.slots)))
    × (IsRing (record_child snap siginfo pid status r)
        × (contents (record_child snap siginfo pid status r).slots
            ≡ push r.size (child_message snap siginfo pid status) (contents r.slots)))

recorded :
    (snap : Snapshot) (siginfo : List ℕ) (pid status : ℕ) (slots : List Slot) (c n : ℕ)
    → IsRing (record { slots = slots; pending = c; size = n })
    → Recorded snap siginfo pid status (record { slots = slots; pending = c; size = n })
unfolding record_start record_child record_state advance next_of fill_slots noted zero_info event
    filled blank
recorded snap siginfo pid status [] c n h = absurd (omega (arith, h.sized, h.some_slot))
recorded snap siginfo pid status (s ∷ rest) c n h = (
  (recorded-IsRing s rest c n _ refl h, recorded-push s rest c n _ refl h),
  (recorded-IsRing s rest c n _ refl h, recorded-push s rest c n _ refl h),
)

-- The process that `buddy_start_proc` starts, and the child that the signal handler waits for, are
-- each recorded in a well-formed ring as a message behind the others; if the ring is full, the oldest
-- is forgotten. The ring stays well formed.
pub record-push :
    (snap : Snapshot) (siginfo : List ℕ) (pid status : ℕ) (r : Ring)
    → IsRing r
    → Recorded snap siginfo pid status r
record-push snap siginfo pid status r h =
    recorded snap siginfo pid status r.slots r.pending r.size h
