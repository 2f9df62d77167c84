-- ===== src/Buddy/RestartExamples.antt =====
-- The theorems on the process of controller/buddy.c at a concrete buddy, whose process ended.
use upkeeper.Prelude.{
  ℕ, ◌≡◌, ◌≢◌, ◌<◌, refl, inl, arith, true, false, ◌||◌, List, [], ◌∷◌, if◌then◌else◌,
}
use upkeeper.Buddy.Ring.{RunState, init_ringbuffer}
use upkeeper.Buddy.Queue.{contents, push, IsRing}
use upkeeper.Buddy.Recording.{start_message, init_ringbuffer-IsRing}
use upkeeper.Buddy.Process.{
  Config, State, Script, snapshot, Times, start_proc, handle_flags, on_chld,
}
use upkeeper.Buddy.Process.{restart, count_respawn, user_limited, runaway_limited, is_running}
use upkeeper.Buddy.Process.{exec_action, new_jitter}
use upkeeper.Buddy.Restarts.{MayRestart, restarts_only, restarts}
use upkeeper.Buddy.Reaping.{ended, messages, push_all, on_chld-push}

-- The values that the source gives.
abbrev defaults : Config
defaults = record {
  runaway_ratelimit = 300;
  user_ratelimit = 0;
  randomize_ratelimit = false;
  user_max_restarts = 10;
  user_restart_window = 5;
}

abbrev fallen : State
fallen = record {
  ring = init_ringbuffer 4;
  buddy_uuid = 1 ∷ 2 ∷ [];
  proc_pid = 0;
  chld_terminated = true;
  last_command = 4;
  shutdown = 0;
  desired = RunState.running;
  respawn_timestamp = 1000;
  rapid_respawn_count = 10;
  force_ratelimit = false;
  jitter = 0;
  chld_blocked = false;
  others_blocked = false;
}

abbrev later : Times
later = record { checked = 1010; respawned = 1010; recorded = 1011 }

abbrev at_once : Times
at_once = record { checked = 1001; respawned = 1001; recorded = 1001 }

fallen-IsRing : IsRing (init_ringbuffer 4)
fallen-IsRing = (init_ringbuffer-IsRing 4 (omega arith)).0

fallen_may : MayRestart defaults 0 1010 1010 1010 fallen
unfolding is_running count_respawn
fallen_may = record {
  no_shutdown = refl;
  terminated = refl;
  desired = refl;
  no_process = refl;
  user_limit = inl refl;
  runaway_limit = inl refl;
  restarts = omega arith;
}

restarted : (handle_flags defaults 0 1010 1010 later (Script.forked 77) fallen).0.proc_pid ≢ 0
unfolding handle_flags restart start_proc exec_action user_limited runaway_limited count_respawn
    is_running new_jitter
restarted h = absurd (omega (arith, h))

restarts_only_example : MayRestart defaults 0 1010 1010 1010 fallen
restarts_only_example = restarts_only defaults 0 1010 1010 later (Script.forked 77) fallen restarted

restarts_example :
    ((handle_flags defaults 0 1010 1010 later (Script.forked 77) fallen).1 ≡ false)
    × ((handle_flags defaults 0 1010 1010 later (Script.forked 77) fallen).0.proc_pid ≡ 77)
    × ((handle_flags defaults 0 1010 1010 later (Script.forked 77) fallen).0.respawn_timestamp
        ≡ 1010)
    × ((handle_flags defaults 0 1010 1010 later (Script.forked 77) fallen).0.chld_terminated
        ≡ false)
    × (contents (handle_flags defaults 0 1010 1010 later (Script.forked 77) fallen).0.ring.slots
        ≡ push
            (init_ringbuffer 4).size
            (start_message (snapshot 1011 (record fallen { proc_pid = 77 })))
            (contents (init_ringbuffer 4).slots))
    × ((handle_flags defaults 0 1010 1010 later (Script.forked 77) fallen).0.chld_blocked ≡ false)
    × ((handle_flags defaults 0 1010 1010 later (Script.forked 77) fallen).0.others_blocked ≡ false)
restarts_example = restarts defaults 0 1010 1010 77 later fallen fallen-IsRing fallen_may

too_fast : 10 < count_respawn defaults 1001 fallen
unfolding count_respawn
too_fast = omega arith

abbrev running : State
running = record fallen { proc_pid = 77; chld_terminated = false }

-- A script that ended, and the process.
abbrev two_children : List (ℕ × ℕ × ℕ)
two_children = (80, 0, 1020) ∷ (77, 256, 1020) ∷ []

on_chld-push_example :
    IsRing (on_chld (17 ∷ []) two_children running).ring
    × (contents (on_chld (17 ∷ []) two_children running).ring.slots
        ≡ push_all
            (init_ringbuffer 4).size
            (messages (17 ∷ []) two_children (snapshot 0 running))
            (contents (init_ringbuffer 4).slots))
    × ((on_chld (17 ∷ []) two_children running).chld_terminated ≡ (ended 77 two_children || false))
    × ((on_chld (17 ∷ []) two_children running).proc_pid
        ≡ (if ended 77 two_children then 0 else 77))
on_chld-push_example = on_chld-push (17 ∷ []) two_children 0 running fallen-IsRing
