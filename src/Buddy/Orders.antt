-- ===== src/Buddy/Orders.antt =====
-- What each command of the controller changes in the state of controller/buddy.c.
use upkeeper.Prelude.{ℕ, ◌+◌, ◌-◌, ◌≡◌, refl, ◌∙◌, arith}
use upkeeper.Prelude.{Bool, true, false, ◌&&◌, ◌||◌, leb, ◌==◌, if◌then◌else◌}
use upkeeper.Buddy.Ring.{RunState}
use upkeeper.Buddy.Process.{Config}
use upkeeper.Buddy.Commands.{Buddy, Events, sighup, kill, stop_proc}
use upkeeper.Buddy.Commands.{
  reload_proc, cust_action, noted_command, started, handle_command, desiring, shutting_down,
}
use upkeeper.Buddy.Kept.{run_script-Kept, stop_proc-Kept, start_proc-Kept, reload_proc-Kept}

-- The branches of `buddy_handle_command`.
abbrev branch : {A : Type 0} → ℕ → A → A → A → A → A → A → A → A → A → A
branch command a b c d e f g h z =
    if command == 2
    then a
    else if command == 3
    then b
    else if command == 4
    then c
    else if command == 5
    then d
    else if command == 6
    then e
    else if command == 7
    then f
    else if leb 8 command && leb command 39
    then g
    else if leb 40 command && leb command 71
    then h
    else z

push_if :
    {A : Type 0} (k : Buddy → A) (t : Bool) (x y : Buddy) (v w : A)
    → k x ≡ v
    → k y ≡ w
    → k (if t then x else y) ≡ (if t then v else w)
push_if k true x y v w p q = p
push_if k false x y v w p q = q

-- The desired state after a command.
abbrev desired_after : ℕ → RunState → RunState
desired_after command old =
    if command == 4
    then RunState.running
    else if command == 7
    then RunState.ran_once
    else if command == 2 || command == 5
    then RunState.stopped
    else old

noted_lem :
    (command old : ℕ)
    → branch command command command command command command command command command old
      ≡ (if leb 2 command && leb command 71 then command else old)
noted_lem command old = ground arith

desired_lem :
    (command : ℕ) (old : RunState)
    → branch command RunState.stopped old RunState.running RunState.stopped old RunState.ran_once
        old old old
      ≡ desired_after command old
desired_lem command old = ground arith

shutdown_lem :
    (command old : ℕ)
    → branch command sighup old old old old sighup old old old
      ≡ (if command == 2 || command == 7 then sighup else old)
shutdown_lem command old = ground arith

module _ {A : Type 0} (k : Buddy → A) (c : Config) (has_kill_timeout : Bool) (e : Events)
    (command : ℕ) (b : Buddy) where
  abbrev n : Buddy
  n = noted_command command b

  pushed :
      (x3 x4 x5 x6 x7 x8 x9 x10 x11 : A)
      → k (shutting_down (desiring RunState.stopped n)) ≡ x3
      → k n ≡ x4
      → k (started c e (desiring RunState.running n)) ≡ x5
      → k (stop_proc has_kill_timeout e.siginfo e.ending e.script (desiring RunState.stopped n))
        ≡ x6
      → k (reload_proc e.script n) ≡ x7
      → k (shutting_down (started c e (desiring RunState.ran_once n))) ≡ x8
      → k (cust_action e.script n) ≡ x9
      → k (kill n.state.proc_pid (command - 40 + 1) n) ≡ x10
      → k b ≡ x11
      → k (handle_command c has_kill_timeout e command b)
        ≡ branch command x3 x4 x5 x6 x7 x8 x9 x10 x11
  unfolding handle_command
  pushed x3 x4 x5 x6 x7 x8 x9 x10 x11 p3 p4 p5 p6 p7 p8 p9 p10 p11 =
      push_if k (command == 2) _ _ x3 _ p3 (
        push_if k (command == 3) _ _ x4 _ p4 (
          push_if k (command == 4) _ _ x5 _ p5 (
            push_if k (command == 5) _ _ x6 _ p6 (
              push_if k (command == 6) _ _ x7 _ p7 (
                push_if k (command == 7) _ _ x8 _ p8 (
                  push_if k (leb 8 command && leb command 39) _ _ x9 _ p9
                    (push_if k (leb 40 command && leb command 71) _ _ x10 x11 p10 p11)))))))

-- The commands from shutdown to the last signal are noted as the last command, and no other is; starts,
-- stops, shutdowns and single runs set the desired state to theirs, and no other command changes it;
-- and a shutdown and a single run set the shutdown flag to SIGHUP, and nothing else does.
pub handle_command_lem :
    (c : Config) (has_kill_timeout : Bool) (e : Events) (command : ℕ) (b : Buddy)
    → ((handle_command c has_kill_timeout e command b).state.last_command
        ≡ (if leb 2 command && leb command 71 then command else b.state.last_command))
      × ((handle_command c has_kill_timeout e command b).state.desired
          ≡ desired_after command b.state.desired)
      × ((handle_command c has_kill_timeout e command b).state.shutdown
          ≡ (if command == 2 || command == 7 then sighup else b.state.shutdown))
unfolding noted_command started kill cust_action
handle_command_lem c has_kill_timeout e command b =
    let n = noted_command command b in
    let s = desiring RunState.stopped n in
    let stops = stop_proc-Kept has_kill_timeout e.siginfo e.ending e.script s in
    let starts = start_proc-Kept c e.times e.script (desiring RunState.running n).state in
    let once = start_proc-Kept c e.times e.script (desiring RunState.ran_once n).state in
    let reloads = reload_proc-Kept e.script n in
    let runs = run_script-Kept e.script n in
    (
      pushed (λ x. x.state.last_command) c has_kill_timeout e command b _ _ _ _ _ _ _ _ _ refl refl
            starts.command stops.command reloads.command once.command runs.command refl refl
          ∙ noted_lem command b.state.last_command,
      pushed (λ x. x.state.desired) c has_kill_timeout e command b _ _ _ _ _ _ _ _ _ refl refl
            starts.desired stops.desired reloads.desired once.desired runs.desired refl refl
          ∙ desired_lem command b.state.desired,
      pushed (λ x. x.state.shutdown) c has_kill_timeout e command b _ _ _ _ _ _ _ _ _ refl refl
            starts.shutdown stops.shutdown reloads.shutdown refl runs.shutdown refl refl
          ∙ shutdown_lem command b.state.shutdown,
    )
