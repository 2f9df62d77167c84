-- ===== src/Buddy/Ring.antt =====
-- controller/buddy.c: the ring buffer, and controller/ctrl_protocol.h: its slots.
--
-- The ring is the list of its slots from `info_ringbuffer` on, in the order of their `next` pointers.
-- `uuid` and `siginfo` are the bytes of those structs up to the zeros that fill them, as for arrays.
-- A pid or a status is the number of its bits.
use upkeeper.Prelude.{ℕ, zero, suc, ◌+◌, ◌-◌, Bool, true, false, List, [], ◌∷◌, ◌++◌}
use upkeeper.Prelude.{leb, if◌then◌else◌}

-- buddy_runstate_t
pub data RunState : Type 0 where
  unknown : RunState
  stopped : RunState
  running : RunState
  ran_once : RunState

-- buddy_info_t
pub record Slot : Type 0 where
  pub populated : Bool
  pub service_pid : ℕ
  pub wait_pid : ℕ
  pub command : ℕ
  pub desired_state : RunState
  pub siginfo : List ℕ
  pub wait_status : ℕ
  pub timestamp : ℕ
  pub remaining : ℕ
  pub uuid : List ℕ
  pub slot_n : ℕ

pub record Ring : Type 0 where
  pub slots : List Slot
  pub pending : ℕ
  pub size : ℕ

-- The globals that are recorded, and the time.
pub record Snapshot : Type 0 where
  pub buddy_uuid : List ℕ
  pub proc_pid : ℕ
  pub last_command : ℕ
  pub desired : RunState
  pub now : ℕ

-- The slot that `calloc` or the `memset` of `buddy_zero_info` leaves, which spares `slot_n`.
unfoldable pub blank : ℕ → Slot
blank n = record {
  populated = false;
  service_pid = 0;
  wait_pid = 0;
  command = 0;
  desired_state = RunState.unknown;
  siginfo = [];
  wait_status = 0;
  timestamp = 0;
  remaining = 0;
  uuid = [];
  slot_n = n;
}

unfoldable pub blanks : ℕ → ℕ → List Slot
blanks zero n = []
blanks (suc todo) n = blank n ∷ blanks todo (suc n)

-- The loop counts in a uint32_t up to a size_t; the size is taken to be one that it reaches, of at most
-- 2 ^ 32 - 1. It numbers the node that it leaves, so that it writes 1 over the 0 of the first one; it ends
-- on the last node, whose number stays 0, and whose `next` is the first.
unfoldable pub init_ringbuffer : ℕ → Ring
init_ringbuffer size = record { slots = blank 0 ∷ blanks (size - 1) 1; pending = 0; size = size }

-- `pending` after the slot at the cursor is cleared.
unfoldable pub less_pending : Bool → ℕ → ℕ
less_pending true pending = if leb pending 1 then 0 else pending - 1
less_pending false pending = pending

unfoldable pub zero_info : Ring → Ring
unfolding less_pending
zero_info r = elim r.slots [
  | [] ↦ r
  | s ∷ rest ↦ record {
    slots = blank s.slot_n ∷ rest;
    pending = less_pending s.populated r.pending;
    size = r.size;
  }
]

-- `info_ringbuffer = info_ringbuffer->next`
unfoldable pub next_of : List Slot → List Slot
next_of [] = []
next_of (s ∷ rest) = rest ++ (s ∷ [])

unfoldable pub advance : Ring → Ring
unfolding next_of
advance r = record { slots = next_of r.slots; pending = r.pending; size = r.size }

-- The slot that a snapshot fills.
unfoldable pub filled : Snapshot → ℕ → Slot
filled snap n = record {
  populated = true;
  service_pid = snap.proc_pid;
  wait_pid = 0;
  command = snap.last_command;
  desired_state = snap.desired;
  siginfo = [];
  wait_status = 0;
  timestamp = snap.now;
  remaining = 0;
  uuid = snap.buddy_uuid;
  slot_n = n;
}

unfoldable pub fill_slots : Snapshot → List Slot → List Slot
unfolding filled
fill_slots snap [] = []
fill_slots snap (s ∷ rest) = filled snap s.slot_n ∷ rest

unfoldable pub record_state : Snapshot → Ring → Ring
unfolding fill_slots
record_state snap r =
    let z = zero_info r in
    record {
      slots = fill_slots snap z.slots;
      pending = if leb z.size z.pending then z.size else z.pending + 1;
      size = z.size;
    }

-- What `buddy_start_proc` records of the process that it started.
unfoldable pub record_start : Snapshot → Ring → Ring
record_start snap r = advance (record_state snap r)

unfoldable pub noted : List ℕ → ℕ → ℕ → List Slot → List Slot
noted siginfo pid status [] = []
noted siginfo pid status (s ∷ rest) =
    record {
      populated = s.populated;
      service_pid = s.service_pid;
      wait_pid = pid;
      command = s.command;
      desired_state = s.desired_state;
      siginfo = siginfo;
      wait_status = status;
      timestamp = s.timestamp;
      remaining = s.remaining;
      uuid = s.uuid;
      slot_n = s.slot_n;
    }
    ∷ rest

-- What the signal handler records of a child that `waitpid` returned.
unfoldable pub record_child : Snapshot → List ℕ → ℕ → ℕ → Ring → Ring
unfolding noted
record_child snap siginfo pid status r =
    let n = record_state snap r in
    advance
      (record { slots = noted siginfo pid status n.slots; pending = n.pending; size = n.size })
