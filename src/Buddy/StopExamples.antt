-- ===== src/Buddy/StopExamples.antt =====
-- The theorems on stops and commands of controller/buddy.c at a concrete buddy with a process.
use upkeeper.Prelude.{ℕ, ◌≡◌, refl, arith, true, false, [], ◌∷◌, ◌==◌, if◌then◌else◌}
use upkeeper.Buddy.Ring.{RunState, init_ringbuffer}
use upkeeper.Buddy.Process.{Config, Script}
use upkeeper.Buddy.Reaping.{ended}
use upkeeper.Buddy.Commands.{Buddy, Ending, Events, stop_proc, handle_command}
use upkeeper.Buddy.Stops.{stop_proc-ended}
use upkeeper.Buddy.Orders.{handle_command_lem}

abbrev buddy : Buddy
buddy = record {
  state = record {
    ring = init_ringbuffer 4;
    buddy_uuid = 1 ∷ 2 ∷ [];
    proc_pid = 77;
    chld_terminated = false;
    last_command = 4;
    shutdown = 0;
    desired = RunState.running;
    respawn_timestamp = 1000;
    rapid_respawn_count = 0;
    force_ratelimit = false;
    jitter = 0;
    chld_blocked = false;
    others_blocked = false;
  };
  naps = 0;
  killed = [];
}

-- The process ends in every nap from the fourth on, and in none.
abbrev fourth : Ending
fourth n = if n == 3 then (77, 0, 1020) ∷ [] else []

abbrev never : Ending
never n = []

ended-fourth : ended 77 (fourth 3) ≡ true
unfolding ended
ended-fourth = refl

ended-never : (k : ℕ) → ended 77 (never k) ≡ false
unfolding ended
ended-never k = refl

stop_proc-ended_example :
    ((stop_proc true (17 ∷ []) fourth (Script.forked 80) buddy).state.proc_pid ≡ 0)
    × ((stop_proc true (17 ∷ []) fourth (Script.forked 80) buddy).killed ≡ [])
stop_proc-ended_example =
    stop_proc-ended true (17 ∷ []) fourth 80 3 buddy (λ h. omega (arith, h)) refl (omega arith)
      (omega arith) ended-fourth

-- The buddy with a new process after it stopped one that did not end.
abbrev next_buddy : Buddy
next_buddy = record buddy { naps = (stop_proc true (17 ∷ []) never (Script.forked 80) buddy).naps }

abbrev defaults : Config
defaults = record {
  runaway_ratelimit = 300;
  user_ratelimit = 0;
  randomize_ratelimit = false;
  user_max_restarts = 10;
  user_restart_window = 5;
}

abbrev events : Events
events = record {
  times = record { checked = 1010; respawned = 1010; recorded = 1011 };
  script = Script.forked 80;
  siginfo = 17 ∷ [];
  ending = fourth;
}

handle_command_lem_example :
    ((handle_command defaults true events 5 buddy).state.last_command ≡ 5)
    × ((handle_command defaults true events 5 buddy).state.desired ≡ RunState.stopped)
    × ((handle_command defaults true events 5 buddy).state.shutdown ≡ 0)
handle_command_lem_example = handle_command_lem defaults true events 5 buddy
