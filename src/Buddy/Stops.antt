-- ===== src/Buddy/Stops.antt =====
-- What `buddy_stop_proc` of controller/buddy.c does to a process that ends, and to one that does not.
use upkeeper.Prelude.{ℕ, ◌≤◌, ◌<◌, ◌≡◌, ◌≢◌, inr, refl, sym, ap, ◌∙◌, arith}
use upkeeper.Prelude.{
  Bool, true, false, List, [], ◌∷◌, ◌++◌, append_assoc, ne→==_false, if◌then◌else◌,
}
use upkeeper.Buddy.Process.{Script, exec_action}
use upkeeper.Buddy.Reaping.{ended}
use upkeeper.Buddy.Commands.{
  Buddy, Ending, sigkill, sigterm, wait, kill_if_there, run_script, stop_proc,
}
use upkeeper.Buddy.Stopping.{
  counted, wait-gone, wait-over, wait-Ends, wait_outlived, kill-gone, kill-there,
}

-- What `buddy_stop_proc` does after the waits for a process that is told to end.
abbrev insisting : List ℕ → Ending → Buddy → Buddy
insisting siginfo ending b =
    kill_if_there sigkill (wait siginfo ending 20 21 (kill_if_there sigterm b))

stop_proc_lem :
    (has_kill_timeout : Bool) (siginfo : List ℕ) (ending : Ending) (script : Script) (b : Buddy)
    → b.state.proc_pid ≢ 0
    → stop_proc has_kill_timeout siginfo ending script b ≡ (
        if has_kill_timeout
        then insisting siginfo ending (wait siginfo ending 10 11 (run_script script b))
        else wait siginfo ending 10 11 (run_script script b))
unfolding stop_proc
stop_proc_lem has_kill_timeout siginfo ending script b h =
    rw (ne→==_false b.state.proc_pid 0 h) refl

run_script-forked : (pid : ℕ) (b : Buddy) → run_script (Script.forked pid) b ≡ b
unfolding run_script exec_action
run_script-forked pid b = refl

run_script-proc_pid :
    (script : Script) (b : Buddy)
    → ((run_script script b).state.proc_pid ≡ b.state.proc_pid)
      × ((run_script script b).naps ≡ b.naps)
      × ((run_script script b).killed ≡ b.killed)
unfolding run_script exec_action
run_script-proc_pid Script.not_regular b = (refl, refl, refl)
run_script-proc_pid Script.not_executable b = (refl, refl, refl)
run_script-proc_pid (Script.forked pid) b = (refl, refl, refl)

-- A process that is gone is told nothing.
insisting-gone :
    (siginfo : List ℕ) (ending : Ending) (b : Buddy)
    → b.state.proc_pid ≡ 0
    → insisting siginfo ending b ≡ b
insisting-gone siginfo ending b h =
    ap (λ x. kill_if_there sigkill (wait siginfo ending 20 21 x)) (kill-gone sigterm b h)
    ∙ ap (kill_if_there sigkill) (wait-gone siginfo ending 20 21 b h)
    ∙ kill-gone sigkill b h

same_result :
    {ks : List (ℕ × ℕ)} (t : Bool) (x : Buddy)
    → (x.state.proc_pid ≡ 0) × (x.killed ≡ ks)
    → ((if t then x else x).state.proc_pid ≡ 0) × ((if t then x else x).killed ≡ ks)
same_result true x d = d
same_result false x d = d

-- If SIGCHLD is not blocked, the stop script runs, and the process ends in one of the naps that the
-- counter leaves before the tenth, `buddy_stop_proc` returns with the process noted as gone, and no
-- signal was sent.
pub stop_proc-ended :
    (has_kill_timeout : Bool) (siginfo : List ℕ) (ending : Ending) (pid k : ℕ) (b : Buddy)
    → b.state.proc_pid ≢ 0
    → b.state.chld_blocked ≡ false
    → b.naps ≤ k
    → k < 10
    → ended b.state.proc_pid (ending k) ≡ true
    → ((stop_proc has_kill_timeout siginfo ending (Script.forked pid) b).state.proc_pid ≡ 0)
      × ((stop_proc has_kill_timeout siginfo ending (Script.forked pid) b).killed ≡ b.killed)
stop_proc-ended has_kill_timeout siginfo ending pid k b h c l m e =
    let w = wait siginfo ending 10 11 b in
    let done = wait-Ends siginfo ending 10 11 k b c (omega arith) m (omega arith) (inr (e, l)) in
    rw
      (
        stop_proc_lem has_kill_timeout siginfo ending (Script.forked pid) b h,
        run_script-forked pid b,
        insisting-gone siginfo ending w done.0,
      )
      (same_result has_kill_timeout w done)

-- A process that outlives the waits.
outlived :
    (siginfo : List ℕ) (ending : Ending) (b : Buddy)
    → b.state.proc_pid ≢ 0
    → b.state.chld_blocked ≡ false
    → b.naps ≤ 10
    → ((k : ℕ) → ended b.state.proc_pid (ending k) ≡ false)
    → ((insisting siginfo ending (wait siginfo ending 10 11 b)).killed
        ≡ b.killed ++ ((b.state.proc_pid, sigterm) ∷ (b.state.proc_pid, sigkill) ∷ []))
      × ((insisting siginfo ending (wait siginfo ending 10 11 b)).naps ≡ 21)
outlived siginfo ending b h c l e =
    let p = b.state.proc_pid in
    let w = wait siginfo ending 10 11 b in
    let (wp, wc, wk, wn) =
      wait_outlived siginfo ending 10 11 p b c (omega arith) l (omega arith) refl h e in
    let told = record w { killed = w.killed ++ ((w.state.proc_pid, sigterm) ∷ []) } in
    let x = wait siginfo ending 20 21 told in
    let (xp, xc, xk, xn) =
      wait_outlived siginfo ending 20 21 p told wc (omega arith) (omega (arith, wn))
        (omega (arith, wn)) wp h e in
    rw (kill-there sigterm w (λ q. h (sym wp ∙ q)), kill-there sigkill x (λ q. h (sym xp ∙ q)))
      (rw (xk, xp, wk, wp) (append_assoc b.killed ((p, sigterm) ∷ []) ((p, sigkill) ∷ [])), xn)

-- A process for which no nap is left.
at_once :
    (siginfo : List ℕ) (ending : Ending) (script : Script) (b : Buddy)
    → b.state.proc_pid ≢ 0
    → b.naps ≡ 21
    → (stop_proc true siginfo ending script b).killed
      ≡ b.killed ++ ((b.state.proc_pid, sigterm) ∷ (b.state.proc_pid, sigkill) ∷ [])
at_once siginfo ending script b h n =
    let (p, m, k) = run_script-proc_pid script b in
    let r = run_script script b in
    let there : r.state.proc_pid ≢ 0 = λ q. h (sym p ∙ q) in
    let told = record (counted r) { killed = r.killed ++ ((r.state.proc_pid, sigterm) ∷ []) } in
    rw
      (
        stop_proc_lem true siginfo ending script b h,
        wait-over siginfo ending 10 10 r there (omega (arith, m, n)),
        kill-there sigterm (counted r) there,
        wait-over siginfo ending 20 20 told there (omega (arith, m, n)),
        kill-there sigkill (counted told) there,
      )
      (rw (k, p)
        (append_assoc b.killed ((b.state.proc_pid, sigterm) ∷ [])
          ((b.state.proc_pid, sigkill) ∷ [])))

-- The counter of naps is never set back. If SIGCHLD is not blocked, the stop script runs, a kill
-- timeout is set, the counter is at most 10, and the process outlives all naps, `buddy_stop_proc`
-- sends it SIGTERM and SIGKILL; and when it is called with the counter that this leaves, it sends both
-- to a process that is there, at whatever nap that process would have ended.
pub stop_proc-twice :
    (siginfo : List ℕ) (ending sooner : Ending) (pid : ℕ) (script : Script) (b next : Buddy)
    → b.state.proc_pid ≢ 0
    → b.state.chld_blocked ≡ false
    → b.naps ≤ 10
    → ((k : ℕ) → ended b.state.proc_pid (ending k) ≡ false)
    → next.naps ≡ (stop_proc true siginfo ending (Script.forked pid) b).naps
    → next.state.proc_pid ≢ 0
    → ((stop_proc true siginfo ending (Script.forked pid) b).killed
        ≡ b.killed ++ ((b.state.proc_pid, sigterm) ∷ (b.state.proc_pid, sigkill) ∷ []))
      × ((stop_proc true siginfo sooner script next).killed
          ≡ next.killed ++ ((next.state.proc_pid, sigterm) ∷ (next.state.proc_pid, sigkill) ∷ []))
stop_proc-twice siginfo ending sooner pid script b next h c l e m q =
    let (k, n) = outlived siginfo ending b h c l e in
    let step : stop_proc true siginfo ending (Script.forked pid) b
        ≡ insisting siginfo ending (wait siginfo ending 10 11 b) =
      stop_proc_lem true siginfo ending (Script.forked pid) b h
      ∙ ap (λ x. insisting siginfo ending (wait siginfo ending 10 11 x))
          (run_script-forked pid b) in
    (
      ap (λ (x : Buddy). x.killed) step ∙ k,
      at_once siginfo sooner script next q (m ∙ ap (λ (x : Buddy). x.naps) step ∙ n),
    )
