-- ===== src/Buddy/Process.antt =====
-- controller/buddy.c: the process that the buddy keeps running, `sa_sigaction_func`,
-- `buddy_exec_action`, `buddy_start_proc` and `buddy_handle_flags`.
--
-- Each answer of the system is an argument: the times that `time` gives, what `stat` and `fork`
-- make of an action script, what `rand` adds, and the children that `waitpid` returns. A time is a
-- number that does not overflow a time_t; a pid is the number of its 32 bits. The child that
-- `fork` leaves behind, which runs the script, is not modelled, nor is logging.
use upkeeper.Prelude.{ℕ, ◌+◌, ◌%◌, ◌^◌, Bool, true, false, not, ◌&&◌, List, [], ◌∷◌}
use upkeeper.Prelude.{ltb, ◌==◌, if◌then◌else◌}
use upkeeper.Buddy.Ring.{Ring, RunState, Snapshot, record_start, record_child}

-- The configuration, all of it uint32_t or bool.
pub record Config : Type 0 where
  pub runaway_ratelimit : ℕ
  pub user_ratelimit : ℕ
  pub randomize_ratelimit : Bool
  pub user_max_restarts : ℕ
  pub user_restart_window : ℕ

-- The static variables, with the signal mask of the process in the last two fields.
pub record State : Type 0 where
  pub ring : Ring
  pub buddy_uuid : List ℕ
  pub proc_pid : ℕ
  pub chld_terminated : Bool
  pub last_command : ℕ
  pub shutdown : ℕ
  pub desired : RunState
  pub respawn_timestamp : ℕ
  pub rapid_respawn_count : ℕ
  pub force_ratelimit : Bool
  pub jitter : ℕ
  pub chld_blocked : Bool
  pub others_blocked : Bool

-- What `stat` says of the script, and what `fork` returns.
pub data Script : Type 0 where
  not_regular : Script
  not_executable : Script
  forked : ℕ → Script

unfoldable pub snapshot : ℕ → State → Snapshot
snapshot now s = record {
  buddy_uuid = s.buddy_uuid;
  proc_pid = s.proc_pid;
  last_command = s.last_command;
  desired = s.desired;
  now = now;
}

-- One child that `waitpid` returns: its pid, its status and the time.
unfoldable pub reap : List ℕ → ℕ → ℕ → ℕ → State → State
unfolding snapshot
reap siginfo pid status now s =
    let seen = if pid == s.proc_pid then record s { chld_terminated = true; proc_pid = 0 } else s in
    record seen { ring = record_child (snapshot now seen) siginfo pid status seen.ring }

-- The handler on SIGCHLD, for the children in the order in which `waitpid` returns them.
unfoldable pub on_chld : List ℕ → List (ℕ × ℕ × ℕ) → State → State
on_chld siginfo [] s = s
on_chld siginfo (c ∷ children) s = on_chld siginfo children (reap siginfo c.0 c.1 c.2 s)

-- The pid, 0 if nothing was run. Both early returns leave every signal blocked.
unfoldable pub exec_action : Script → State → State × ℕ
exec_action Script.not_regular s = (record s { chld_blocked = true; others_blocked = true }, 0)
exec_action Script.not_executable s = (record s { chld_blocked = true; others_blocked = true }, 0)
exec_action (Script.forked pid) s = (s, pid)

-- The three times are those of the window, of `respawn_timestamp` and of the record.
pub record Times : Type 0 where
  pub checked : ℕ
  pub respawned : ℕ
  pub recorded : ℕ

unfoldable pub count_respawn : Config → ℕ → State → ℕ
count_respawn c now s =
    if ltb now (s.respawn_timestamp + c.user_restart_window)
    then (s.rapid_respawn_count + 1) % 2 ^ 32
    else 0

unfoldable pub start_proc : Config → Times → Script → State → State × Bool
unfolding count_respawn snapshot
start_proc c t script s =
    let n = count_respawn c t.checked s in
    let blocked = record s { chld_blocked = true; rapid_respawn_count = n } in
    let x = exec_action script blocked in
    let run = record x.0 { proc_pid = x.1; respawn_timestamp = t.respawned } in
    if s.proc_pid == 0
    then (if ltb c.user_max_restarts n
        then (record blocked { force_ratelimit = true }, false)
        else (
          record run {
            ring = record_start (snapshot t.recorded run) run.ring;
            chld_blocked = s.chld_blocked;
            others_blocked = s.others_blocked;
          },
          true,
        ))
    else (s, true)

unfoldable pub is_running : RunState → Bool
is_running RunState.running = true
is_running r = false

-- What `rand` adds is a number below half of the limit, or 0.
unfoldable pub new_jitter : Config → ℕ → State → ℕ
new_jitter c random s =
    if not (c.user_ratelimit == 0) && c.randomize_ratelimit
    then (c.user_ratelimit + random) % 2 ^ 32
    else s.jitter

-- `now_user` and `now_runaway` are the times of the two comparisons.
unfoldable pub user_limited : Config → ℕ → ℕ → State → Bool
unfolding new_jitter
user_limited c random now_user s =
    not (c.user_ratelimit == 0)
    && ltb now_user (s.respawn_timestamp + c.user_ratelimit + new_jitter c random s)

unfoldable pub runaway_limited : Config → ℕ → State → Bool
runaway_limited c now_runaway s =
    s.force_ratelimit && ltb now_runaway (s.respawn_timestamp + c.runaway_ratelimit)

-- The restart, when no limit holds it.
unfoldable pub restart : Config → Times → Script → State → State
restart c t script s =
    let x = start_proc c t script (record s { force_ratelimit = false }) in
    if x.1 then record x.0 { chld_terminated = false } else x.0

unfoldable pub handle_flags : Config → ℕ → ℕ → ℕ → Times → Script → State → State × Bool
unfolding is_running user_limited runaway_limited new_jitter
handle_flags c random now_user now_runaway t script s =
    let j = record s { jitter = new_jitter c random s } in
    let restarted = restart c t script j in
    if ltb 0 s.shutdown
    then (s, true)
    else (if s.chld_terminated && is_running s.desired
        then (if user_limited c random now_user s
            then (j, false)
            else (if runaway_limited c now_runaway s then (j, false) else (restarted, false)))
        else (s, false))
