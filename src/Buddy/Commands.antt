-- ===== src/Buddy/Commands.antt =====
-- controller/buddy.c: `buddy_stop_proc`, `buddy_reload_proc`, `buddy_cust_action` and
-- `buddy_handle_command`.
--
-- The static counter of naps and the signals that were sent with `kill` are kept with the state. What
-- ends during a nap is an argument: the children that the handler finds, by the counter. Logging and
-- the length of a nap are left out.
use upkeeper.Prelude.{ℕ, zero, suc, ◌+◌, ◌-◌, ◌%◌, ◌^◌, Bool, ◌&&◌, List, [], ◌∷◌, ◌++◌}
use upkeeper.Prelude.{ltb, leb, ◌==◌, if◌then◌else◌}
use upkeeper.Buddy.Ring.{RunState}
use upkeeper.Buddy.Process.{Config, State, Script, Times, on_chld, exec_action, start_proc}

-- The state, the static `n` of buddy_stop_proc (a uint8_t), and what `kill` was called with, in order.
pub record Buddy : Type 0 where
  pub state : State
  pub naps : ℕ
  pub killed : List (ℕ × ℕ)

abbrev pub sighup : ℕ
sighup = 1

abbrev pub sigkill : ℕ
sigkill = 9

abbrev pub sigterm : ℕ
sigterm = 15

-- The children that end during the nap at which the counter has a value.
abbrev pub Ending : Type 0
Ending = ℕ → List (ℕ × ℕ × ℕ)

-- `kill`
unfoldable pub kill : ℕ → ℕ → Buddy → Buddy
kill pid signal b = record b { killed = b.killed ++ ((pid, signal) ∷ []) }

-- `nanosleep`, in which the handler runs unless SIGCHLD is blocked
unfoldable pub nap : List ℕ → List (ℕ × ℕ × ℕ) → Buddy → Buddy
nap siginfo children b =
    if b.state.chld_blocked then b else record b { state = on_chld siginfo children b.state }

-- `while(proc_pid && n++ < limit) nanosleep()`, in at most so many rounds
unfoldable pub wait : List ℕ → Ending → ℕ → ℕ → Buddy → Buddy
unfolding nap
wait siginfo ending limit zero b = b
wait siginfo ending limit (suc rounds) b =
    let counted = record b { naps = (b.naps + 1) % 2 ^ 8 } in
    let again = wait siginfo ending limit rounds (nap siginfo (ending b.naps) counted) in
    if b.state.proc_pid == 0 then b else (if ltb b.naps limit then again else counted)

-- `if(proc_pid) kill(proc_pid, signal)`
unfoldable pub kill_if_there : ℕ → Buddy → Buddy
unfolding kill
kill_if_there signal b = if b.state.proc_pid == 0 then b else kill b.state.proc_pid signal b

-- An action script whose pid is not used
unfoldable pub run_script : Script → Buddy → Buddy
run_script script b = record b { state = (exec_action script b.state).0 }

-- buddy_stop_proc. No loop has more than its limit of rounds, and the test that ends it.
unfoldable pub stop_proc : Bool → List ℕ → Ending → Script → Buddy → Buddy
unfolding wait kill_if_there run_script
stop_proc has_kill_timeout siginfo ending script b =
    let waited = wait siginfo ending 10 11 (run_script script b) in
    let insisted =
      kill_if_there sigkill (wait siginfo ending 20 21 (kill_if_there sigterm waited)) in
    if b.state.proc_pid == 0 then b else (if has_kill_timeout then insisted else waited)

-- buddy_reload_proc
unfoldable pub reload_proc : Script → Buddy → Buddy
unfolding run_script
reload_proc script b = if b.state.proc_pid == 0 then b else run_script script b

-- buddy_cust_action
unfoldable pub cust_action : Script → Buddy → Buddy
unfolding run_script
cust_action script b = run_script script b

-- buddy_cmnd_t
abbrev pub ctrl_shutdown : ℕ
ctrl_shutdown = 2

abbrev pub ctrl_status_req : ℕ
ctrl_status_req = 3

abbrev pub ctrl_action_start : ℕ
ctrl_action_start = 4

abbrev pub ctrl_action_stop : ℕ
ctrl_action_stop = 5

abbrev pub ctrl_action_reload : ℕ
ctrl_action_reload = 6

abbrev pub ctrl_action_runonce : ℕ
ctrl_action_runonce = 7

abbrev pub ctrl_custom_action_00 : ℕ
ctrl_custom_action_00 = 8

abbrev pub ctrl_custom_action_31 : ℕ
ctrl_custom_action_31 = 39

abbrev pub ctrl_signal_01 : ℕ
ctrl_signal_01 = 40

abbrev pub ctrl_signal_32 : ℕ
ctrl_signal_32 = 71

-- What the system does during a command.
pub record Events : Type 0 where
  pub times : Times
  pub script : Script
  pub siginfo : List ℕ
  pub ending : Ending

-- `last_command = this_command`
unfoldable pub noted_command : ℕ → Buddy → Buddy
noted_command command b = record b { state = record b.state { last_command = command } }

abbrev pub desiring : RunState → Buddy → Buddy
desiring r b = record b { state = record b.state { desired = r } }

abbrev pub shutting_down : Buddy → Buddy
shutting_down b = record b { state = record b.state { shutdown = sighup } }

-- buddy_start_proc as a command calls it
unfoldable pub started : Config → Events → Buddy → Buddy
started c e b = record b { state = (start_proc c e.times e.script b.state).0 }

unfoldable pub handle_command : Config → Bool → Events → ℕ → Buddy → Buddy
unfolding stop_proc reload_proc cust_action noted_command started kill
handle_command c has_kill_timeout e command b =
    let b' = noted_command command b in
    if command == ctrl_shutdown
    then shutting_down (desiring RunState.stopped b')
    else if command == ctrl_status_req
    then b'
    else if command == ctrl_action_start
    then started c e (desiring RunState.running b')
    else if command == ctrl_action_stop
    then stop_proc has_kill_timeout e.siginfo e.ending e.script (desiring RunState.stopped b')
    else if command == ctrl_action_reload
    then reload_proc e.script b'
    else if command == ctrl_action_runonce
    then shutting_down (started c e (desiring RunState.ran_once b'))
    else if leb ctrl_custom_action_00 command && leb command ctrl_custom_action_31
    then cust_action e.script b'
    else if leb ctrl_signal_01 command && leb command ctrl_signal_32
    then kill b'.state.proc_pid (command - ctrl_signal_01 + 1) b'
    else b
