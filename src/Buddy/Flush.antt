-- ===== src/Buddy/Flush.antt =====
-- controller/buddy.c: `write_ctrl`, `read_ctrl` and `buddy_flush_ringbuffer`.
--
-- The loop begins and ends with `info_ringbuffer` at `thisp`, on every way out of it; the model walks
-- the slots from there. What the controller does is a list of pairs, one for each populated slot that
-- is tried; behind its end `select` reports nothing.
use upkeeper.Prelude.{ℕ, ◌+◌, ◌-◌, ◌%◌, ◌^◌, Bool, true, false, ◌&&◌, List, [], ◌∷◌}
use upkeeper.Prelude.{ltb, ◌==◌, if◌then◌else◌}
use upkeeper.Buddy.Ring.{Slot, Ring, blank, less_pending}

-- UPK_CTRL_ACK
abbrev pub ctrl_ack : ℕ
ctrl_ack = 1

-- What `select` and one `write` do: time out, fail with -1, report the end, or write bytes.
pub data Writing : Type 0 where
  quiet : Writing
  failed : Writing
  closed : Writing
  sent : ℕ → Writing

-- What `select` and one `read` do, and what stands in the buffer after bytes were read.
pub data Reading : Type 0 where
  quiet : Reading
  failed : Reading
  closed : Reading
  received : ℕ → ℕ → Reading

-- The static variables of the three functions, and whether `buddy_ctrlfd` is open.
pub record Line : Type 0 where
  pub written : ℕ
  pub read : ℕ
  pub ack : ℕ
  pub connected : Bool

-- -1 as a size_t
abbrev pub minus_one : ℕ
minus_one = 2 ^ 64 - 1

-- `> 0` of a size_t that is returned as an int32_t
unfoldable pub positive : ℕ → Bool
positive n = ltb 0 (n % 2 ^ 32) && ltb (n % 2 ^ 32) (2 ^ 31)

-- The count is kept if `select` times out. Only 0 disconnects: -1 is a large size_t.
unfoldable pub write_ctrl : Writing → Line → Line
write_ctrl Writing.quiet l = l
write_ctrl Writing.failed l = record {
  written = minus_one;
  read = l.read;
  ack = l.ack;
  connected = l.connected;
}
write_ctrl Writing.closed l = record { written = 0; read = l.read; ack = l.ack; connected = false }
write_ctrl (Writing.sent n) l = record {
  written = n;
  read = l.read;
  ack = l.ack;
  connected = l.connected;
}

unfoldable pub read_ctrl : Reading → Line → Line
read_ctrl Reading.quiet l = l
read_ctrl Reading.failed l = record {
  written = l.written;
  read = minus_one;
  ack = l.ack;
  connected = l.connected;
}
read_ctrl Reading.closed l = record {
  written = l.written;
  read = 0;
  ack = l.ack;
  connected = false;
}
read_ctrl (Reading.received n cmnd) l = record {
  written = l.written;
  read = n;
  ack = cmnd;
  connected = l.connected;
}

unfoldable pub answered : Line → Bool
answered l = positive l.read && (l.ack == ctrl_ack)

-- One slot: the line afterwards, and whether the message counts as acknowledged.
unfoldable pub exchange : Writing → Reading → Line → Line × Bool
exchange w r l =
    let l1 = write_ctrl w l in
    let l2 = read_ctrl r l1 in if positive l1.written then (l2, answered l2) else (l1, false)

unfoldable pub first_of : List (Writing × Reading) → Writing × Reading
first_of [] = (Writing.quiet, Reading.quiet)
first_of (e ∷ env) = e

unfoldable pub rest_of : List (Writing × Reading) → List (Writing × Reading)
rest_of [] = []
rest_of (e ∷ env) = env

-- `remaining` is a size_t
unfoldable pub with_remaining : ℕ → Slot → Slot
with_remaining pending s = record {
  populated = s.populated;
  service_pid = s.service_pid;
  wait_pid = s.wait_pid;
  command = s.command;
  desired_state = s.desired_state;
  siginfo = s.siginfo;
  wait_status = s.wait_status;
  timestamp = s.timestamp;
  remaining = (pending + minus_one) % 2 ^ 64;
  uuid = s.uuid;
  slot_n = s.slot_n;
}

-- The state of the loop: the slots from `thisp` on, the pending count, the line, and the messages
-- that were handed to `write_ctrl`, in their order.
pub record Flushed : Type 0 where
  pub slots : List Slot
  pub pending : ℕ
  pub line : Line
  pub tried : List Slot

unfoldable pub behind : Slot → Flushed → Flushed
behind s f = record { slots = s ∷ f.slots; pending = f.pending; line = f.line; tried = f.tried }

unfoldable pub trying : Slot → Flushed → Flushed
trying s f = record { slots = f.slots; pending = f.pending; line = f.line; tried = s ∷ f.tried }

unfoldable pub flush_slots : List (Writing × Reading) → Line → ℕ → List Slot → Flushed
flush_slots env l pending [] = record { slots = []; pending = pending; line = l; tried = [] }
flush_slots env l pending (s ∷ todo) =
    let e = first_of env in
    let x = exchange e.0 e.1 l in
    let m = with_remaining pending s in
    let skipped = flush_slots env l pending todo in
    let rest = flush_slots (rest_of env) x.0 (less_pending true pending) todo in
    if s.populated
    then (if x.1
        then trying m (behind (blank s.slot_n) rest)
        else record { slots = m ∷ todo; pending = pending; line = x.0; tried = m ∷ [] })
    else behind s skipped

-- `l` is the line that `phone_home_if_appropriate` leaves. It is closed at the end. `this_command` is what `ack` begins with.
unfoldable pub flush_ringbuffer :
    List (Writing × Reading) → ℕ → Line → Ring → Ring × Line × List Slot
flush_ringbuffer env this_command l r =
    let f =
      flush_slots env
        (record { written = l.written; read = l.read; ack = this_command; connected = l.connected })
        r.pending r.slots in
    if l.connected
    then (
      record { slots = f.slots; pending = f.pending; size = r.size },
      record { written = f.line.written; read = f.line.read; ack = f.line.ack; connected = false },
      f.tried,
    )
    else (r, l, [])
