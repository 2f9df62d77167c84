-- ===== src/Buddy/Restarts.antt =====
-- When `buddy_handle_flags` of controller/buddy.c starts the process again, and what is left of the
-- signal mask by a start that the rate limit refuses.
use upkeeper.Prelude.{ℕ, ◌+◌, ◌≤◌, ◌<◌, ◌≡◌, ◌≢◌, ◌⊎◌, refl, arith}
use upkeeper.Prelude.{le→ltb_false, lt→ltb, true, false, []}
use upkeeper.Buddy.Ring.{record_start}
use upkeeper.Buddy.Queue.{contents, push, IsRing}
use upkeeper.Buddy.Recording.{start_message, record-push}
use upkeeper.Buddy.Process.{Config, State, Script, snapshot, exec_action, Times, count_respawn}
use upkeeper.Buddy.Process.{
  start_proc, is_running, new_jitter, user_limited, runaway_limited, restart,
}
use upkeeper.Buddy.Process.{handle_flags}

-- Nothing holds a restart.
pub record MayRestart (c : Config) (random now_user now_runaway checked : ℕ) (s : State)
    : Type 0 where
  pub no_shutdown : s.shutdown ≡ 0
  pub terminated : s.chld_terminated ≡ true
  pub desired : is_running s.desired ≡ true
  pub no_process : s.proc_pid ≡ 0
  pub user_limit :
      (c.user_ratelimit ≡ 0)
      ⊎ (s.respawn_timestamp + c.user_ratelimit + new_jitter c random s ≤ now_user)
  pub runaway_limit :
      (s.force_ratelimit ≡ false) ⊎ (s.respawn_timestamp + c.runaway_ratelimit ≤ now_runaway)
  pub restarts : count_respawn c checked s ≤ c.user_max_restarts

-- `buddy_handle_flags` starts a process, that is, changes `proc_pid`, only if nothing holds a restart:
-- the buddy goes on, the process ended, is no longer there and should run, and the limits are kept.
pub restarts_only :
    (c : Config) (random now_user now_runaway : ℕ) (t : Times) (script : Script) (s : State)
    → (handle_flags c random now_user now_runaway t script s).0.proc_pid ≢ s.proc_pid
    → MayRestart c random now_user now_runaway t.checked s
unfolding handle_flags restart start_proc user_limited runaway_limited count_respawn
restarts_only c random now_user now_runaway t script s h = record {
  no_shutdown = ground arith;
  terminated = ground arith;
  desired = ground arith;
  no_process = ground arith;
  user_limit = ground arith;
  runaway_limit = ground arith;
  restarts = ground arith;
}

user_passes :
    (c : Config) (random now : ℕ) (s : State)
    → (c.user_ratelimit ≡ 0)
      ⊎ (s.respawn_timestamp + c.user_ratelimit + new_jitter c random s ≤ now)
    → user_limited c random now s ≡ false
unfolding user_limited
user_passes c random now s h = ground arith

runaway_passes :
    (c : Config) (now : ℕ) (s : State)
    → (s.force_ratelimit ≡ false) ⊎ (s.respawn_timestamp + c.runaway_ratelimit ≤ now)
    → runaway_limited c now s ≡ false
unfolding runaway_limited
runaway_passes c now s h = ground arith

-- The state after a process was started.
abbrev started : Times → ℕ → ℕ → State → State
started t pid count s =
    let run = record s {
      proc_pid = pid;
      respawn_timestamp = t.respawned;
      rapid_respawn_count = count;
    } in
    record run { ring = record_start (snapshot t.recorded run) run.ring }

start_proc-started :
    (c : Config) (t : Times) (pid : ℕ) (s : State)
    → s.proc_pid ≡ 0
    → count_respawn c t.checked s ≤ c.user_max_restarts
    → start_proc c t (Script.forked pid) s ≡ (started t pid (count_respawn c t.checked s) s, true)
unfolding start_proc exec_action snapshot
start_proc-started c t pid s e h =
    rw (e, le→ltb_false (count_respawn c t.checked s) c.user_max_restarts h) refl

handle_flags-restart :
    (c : Config) (random now_user now_runaway : ℕ) (t : Times) (script : Script) (s : State)
    → MayRestart c random now_user now_runaway t.checked s
    → handle_flags c random now_user now_runaway t script s
      ≡ (restart c t script (record s { jitter = new_jitter c random s }), false)
unfolding handle_flags
handle_flags-restart c random now_user now_runaway t script s m =
    rw
      (
        m.no_shutdown,
        m.terminated,
        m.desired,
        user_passes c random now_user s m.user_limit,
        runaway_passes c now_runaway s m.runaway_limit,
      )
      refl

restart-started :
    (c : Config) (t : Times) (pid : ℕ) (s : State)
    → s.proc_pid ≡ 0
    → count_respawn c t.checked s ≤ c.user_max_restarts
    → restart c t (Script.forked pid) s ≡ record (started t pid (count_respawn c t.checked s) s) {
      force_ratelimit = false;
      chld_terminated = false;
    }
unfolding restart count_respawn snapshot
restart-started c t pid s e h =
    rw (start_proc-started c t pid (record s { force_ratelimit = false }) e h) refl

-- If the ring is well formed, nothing holds a restart (the buddy goes on, the process ended, is no
-- longer there and should run, and the two rate limits and that on the count of respawns are kept),
-- and `fork` gives a pid, `buddy_handle_flags` goes on with the new process, notes its time, takes
-- back the flag of the one that ended, records it behind the other messages, and leaves the signal
-- mask as it was.
pub restarts :
    (c : Config) (random now_user now_runaway pid : ℕ) (t : Times) (s : State)
    → IsRing s.ring
    → MayRestart c random now_user now_runaway t.checked s
    → ((handle_flags c random now_user now_runaway t (Script.forked pid) s).1 ≡ false)
      × ((handle_flags c random now_user now_runaway t (Script.forked pid) s).0.proc_pid ≡ pid)
      × ((handle_flags c random now_user now_runaway t (Script.forked pid) s).0.respawn_timestamp
          ≡ t.respawned)
      × ((handle_flags c random now_user now_runaway t (Script.forked pid) s).0.chld_terminated
          ≡ false)
      × (contents (handle_flags c random now_user now_runaway t (Script.forked pid) s).0.ring.slots
          ≡ push s.ring.size
              (start_message (snapshot t.recorded (record s { proc_pid = pid })))
              (contents s.ring.slots))
      × ((handle_flags c random now_user now_runaway t (Script.forked pid) s).0.chld_blocked
          ≡ s.chld_blocked)
      × ((handle_flags c random now_user now_runaway t (Script.forked pid) s).0.others_blocked
          ≡ s.others_blocked)
unfolding snapshot count_respawn
restarts c random now_user now_runaway pid t s h m =
    rw
      (
        handle_flags-restart c random now_user now_runaway t (Script.forked pid) s m,
        restart-started c t pid (record s { jitter = new_jitter c random s }) m.no_process
            m.restarts,
      )
      (refl, refl, refl, refl, (record-push _ [] 0 0 s.ring h).0.1, refl, refl)

-- What `buddy_handle_flags` and the action scripts may make of a state.
pub data After (c : Config) (s : State) : State → Type 0 where
  here : After c s s
  flagged :
      {u : State} (random now_user now_runaway : ℕ) (t : Times) (script : Script)
      → After c s u
      → After c s (handle_flags c random now_user now_runaway t script u).0
  acted : {u : State} (script : Script) → After c s u → After c s (exec_action script u).0

exec_action-blocked :
    (script : Script) (s : State)
    → s.chld_blocked ≡ true
    → (exec_action script s).0.chld_blocked ≡ true
unfolding exec_action
exec_action-blocked Script.not_regular s h = refl
exec_action-blocked Script.not_executable s h = refl
exec_action-blocked (Script.forked pid) s h = h

handle_flags-blocked :
    (c : Config) (random now_user now_runaway : ℕ) (t : Times) (script : Script) (s : State)
    → s.chld_blocked ≡ true
    → (handle_flags c random now_user now_runaway t script s).0.chld_blocked ≡ true
unfolding handle_flags restart start_proc
handle_flags-blocked c random now_user now_runaway t script s h = ground arith

stays_blocked :
    (c : Config) (s u : State) → s.chld_blocked ≡ true → After c s u → u.chld_blocked ≡ true
stays_blocked c s _ h After.here = h
stays_blocked c s _ h (After.flagged {u} random now_user now_runaway t script a) =
    handle_flags-blocked c random now_user now_runaway t script u (stays_blocked c s u h a)
stays_blocked c s _ h (After.acted {u} script a) =
    exec_action-blocked script u (stays_blocked c s u h a)

refused_start-blocked :
    (c : Config) (t : Times) (script : Script) (s : State)
    → s.proc_pid ≡ 0
    → c.user_max_restarts < count_respawn c t.checked s
    → (start_proc c t script s).0.chld_blocked ≡ true
unfolding start_proc
refused_start-blocked c t script s e h = rw (e, lt→ltb _ _ h) refl

-- When no process is there and the count of respawns is above the limit, `buddy_start_proc` starts
-- nothing and returns with SIGCHLD blocked; it stays so in every state that `buddy_handle_flags` and
-- action scripts make of that one, also when the process is started again.
pub refused_start_blocks :
    (c : Config) (t : Times) (script : Script) (s u : State)
    → s.proc_pid ≡ 0
    → c.user_max_restarts < count_respawn c t.checked s
    → After c (start_proc c t script s).0 u
    → u.chld_blocked ≡ true
refused_start_blocks c t script s u e h a =
    stays_blocked c _ u (refused_start-blocked c t script s e h) a
