-- ===== src/Buddy/Kept.antt =====
-- What stops, starts and scripts of controller/buddy.c leave as it is.
use upkeeper.Prelude.{ℕ, zero, suc, ◌+◌, ◌%◌, ◌^◌, ◌≡◌, refl, ◌∙◌, arith}
use upkeeper.Prelude.{Bool, true, false, List, [], ◌∷◌, ltb, ◌==◌, if◌then◌else◌}
use upkeeper.Buddy.Process.{State, Config, Times, Script, on_chld, reap, exec_action, start_proc}
use upkeeper.Buddy.Commands.{
  Buddy, Ending, sigkill, sigterm, kill, nap, wait, kill_if_there, run_script, stop_proc,
}
use upkeeper.Buddy.Commands.{reload_proc}

-- The last command, the shutdown flag and the desired state are the same.
pub record Kept (s t : State) : Type 0 where
  pub command : t.last_command ≡ s.last_command
  pub shutdown : t.shutdown ≡ s.shutdown
  pub desired : t.desired ≡ s.desired

kept : {s : State} → Kept s s
kept = record { command = refl; shutdown = refl; desired = refl }

and_then : {s t u : State} → Kept s t → Kept t u → Kept s u
and_then h k = record {
  command = k.command ∙ h.command;
  shutdown = k.shutdown ∙ h.shutdown;
  desired = k.desired ∙ h.desired;
}

either :
    {s : State} (t : Bool) (x y : Buddy)
    → Kept s x.state
    → Kept s y.state
    → Kept s (if t then x else y).state
either true x y h k = h
either false x y h k = k

reap-Kept :
    (siginfo : List ℕ) (pid status now : ℕ) (s : State) → Kept s (reap siginfo pid status now s)
unfolding reap
reap-Kept siginfo pid status now s = record {
  command = ground arith;
  shutdown = ground arith;
  desired = ground arith;
}

on_chld-Kept :
    (siginfo : List ℕ) (children : List (ℕ × ℕ × ℕ)) (s : State)
    → Kept s (on_chld siginfo children s)
unfolding on_chld
on_chld-Kept siginfo [] s = kept
on_chld-Kept siginfo (c ∷ children) s =
    and_then (reap-Kept siginfo c.0 c.1 c.2 s)
      (on_chld-Kept siginfo children (reap siginfo c.0 c.1 c.2 s))

nap-Kept :
    (siginfo : List ℕ) (children : List (ℕ × ℕ × ℕ)) (b : Buddy)
    → Kept b.state (nap siginfo children b).state
unfolding nap
nap-Kept siginfo children b =
    either b.state.chld_blocked b (record b { state = on_chld siginfo children b.state }) kept
      (on_chld-Kept siginfo children b.state)

wait-Kept :
    (siginfo : List ℕ) (ending : Ending) (limit rounds : ℕ) (b : Buddy)
    → Kept b.state (wait siginfo ending limit rounds b).state
unfolding wait
wait-Kept siginfo ending limit zero b = kept
wait-Kept siginfo ending limit (suc rounds) b =
    let counted = record b { naps = (b.naps + 1) % 2 ^ 8 } in
    let again = wait siginfo ending limit rounds (nap siginfo (ending b.naps) counted) in
    let rest : Kept b.state again.state =
      and_then (nap-Kept siginfo (ending b.naps) counted)
        (wait-Kept siginfo ending limit rounds (nap siginfo (ending b.naps) counted)) in
    either (b.state.proc_pid == 0) b (if ltb b.naps limit then again else counted) kept
      (either (ltb b.naps limit) again counted rest kept)

kill_if_there-Kept : (signal : ℕ) (b : Buddy) → Kept b.state (kill_if_there signal b).state
unfolding kill_if_there kill
kill_if_there-Kept signal b =
    either (b.state.proc_pid == 0) b (kill b.state.proc_pid signal b) kept kept

pub run_script-Kept : (script : Script) (b : Buddy) → Kept b.state (run_script script b).state
unfolding run_script exec_action
run_script-Kept Script.not_regular b = record { command = refl; shutdown = refl; desired = refl }
run_script-Kept Script.not_executable b = record { command = refl; shutdown = refl; desired = refl }
run_script-Kept (Script.forked pid) b = kept

pub stop_proc-Kept :
    (has_kill_timeout : Bool) (siginfo : List ℕ) (ending : Ending) (script : Script) (b : Buddy)
    → Kept b.state (stop_proc has_kill_timeout siginfo ending script b).state
unfolding stop_proc
stop_proc-Kept has_kill_timeout siginfo ending script b =
    let r = run_script script b in
    let w = wait siginfo ending 10 11 r in
    let told = kill_if_there sigterm w in
    let x = wait siginfo ending 20 21 told in
    let waited : Kept b.state w.state =
      and_then (run_script-Kept script b) (wait-Kept siginfo ending 10 11 r) in
    let insisted : Kept b.state (kill_if_there sigkill x).state =
      and_then (and_then waited (kill_if_there-Kept sigterm w))
        (and_then (wait-Kept siginfo ending 20 21 told) (kill_if_there-Kept sigkill x)) in
    either (b.state.proc_pid == 0) b (if has_kill_timeout then kill_if_there sigkill x else w) kept
      (either has_kill_timeout (kill_if_there sigkill x) w insisted waited)

pub start_proc-Kept :
    (c : Config) (t : Times) (script : Script) (s : State) → Kept s (start_proc c t script s).0
unfolding start_proc exec_action
start_proc-Kept c t Script.not_regular s = record {
  command = ground arith;
  shutdown = ground arith;
  desired = ground arith;
}
start_proc-Kept c t Script.not_executable s = record {
  command = ground arith;
  shutdown = ground arith;
  desired = ground arith;
}
start_proc-Kept c t (Script.forked pid) s = record {
  command = ground arith;
  shutdown = ground arith;
  desired = ground arith;
}

pub reload_proc-Kept : (script : Script) (b : Buddy) → Kept b.state (reload_proc script b).state
unfolding reload_proc
reload_proc-Kept script b =
    either (b.state.proc_pid == 0) b (run_script script b) kept (run_script-Kept script b)
