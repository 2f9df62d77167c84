-- ===== src/Buddy/Reaping.antt =====
-- What the handler on SIGCHLD of controller/buddy.c makes of the children that ended.
use upkeeper.Prelude.{ℕ, ◌≡◌, ◌∙◌, refl, arith, Bool, true, false, ◌||◌, inl, inr, Bool-cases}
use upkeeper.Prelude.{List, [], ◌∷◌, ◌==◌, if◌then◌else◌}
use upkeeper.Buddy.Ring.{Slot, Snapshot}
use upkeeper.Buddy.Queue.{contents, push, IsRing}
use upkeeper.Buddy.Recording.{child_message, record-push}
use upkeeper.Buddy.Runs.{record_child-size}
use upkeeper.Buddy.Process.{State, snapshot, reap, on_chld}

-- One of the children is the process.
unfoldable pub ended : ℕ → List (ℕ × ℕ × ℕ) → Bool
ended pid [] = false
ended pid (c ∷ children) = let rest = ended pid children in if c.0 == pid then true else rest

-- The messages of the children that ended: those before the process are recorded with its pid, it and
-- those behind it with 0.
unfoldable pub messages : List ℕ → List (ℕ × ℕ × ℕ) → Snapshot → List Slot
messages siginfo [] snap = []
messages siginfo (c ∷ children) snap =
    let now = record snap {
      proc_pid = if c.0 == snap.proc_pid then 0 else snap.proc_pid;
      now = c.2;
    } in
    child_message now siginfo c.0 c.1 ∷ messages siginfo children now

unfoldable pub push_all {ℓ} : {A : Type ℓ} → ℕ → List A → List A → List A
push_all size [] q = q
push_all size (x ∷ xs) q = push_all size xs (push size x q)

reap-IsRing :
    (siginfo : List ℕ) (pid status now : ℕ) (s : State)
    → IsRing s.ring
    → IsRing (reap siginfo pid status now s).ring
unfolding reap
reap-IsRing siginfo pid status now s h = elim (Bool-cases (pid == s.proc_pid)) [
  | inl e ↦ rw e (record-push _ siginfo pid status s.ring h).1.0
  | inr e ↦ rw e (record-push _ siginfo pid status s.ring h).1.0
]

reap-size :
    (siginfo : List ℕ) (pid status now : ℕ) (s : State)
    → (reap siginfo pid status now s).ring.size ≡ s.ring.size
unfolding reap
reap-size siginfo pid status now s = elim (Bool-cases (pid == s.proc_pid)) [
  | inl e ↦ rw e (record_child-size _ siginfo pid status s.ring)
  | inr e ↦ rw e (record_child-size _ siginfo pid status s.ring)
]

reap-push :
    (siginfo : List ℕ) (pid status now old : ℕ) (s : State)
    → IsRing s.ring
    → contents (reap siginfo pid status now s).ring.slots
      ≡ push s.ring.size
          (child_message
            (record (snapshot old s) {
              proc_pid = if pid == s.proc_pid then 0 else s.proc_pid;
              now = now;
            })
            siginfo
            pid
            status)
          (contents s.ring.slots)
unfolding reap snapshot
reap-push siginfo pid status now old s h = elim (Bool-cases (pid == s.proc_pid)) [
  | inl e ↦ rw e (record-push _ siginfo pid status s.ring h).1.1
  | inr e ↦ rw e (record-push _ siginfo pid status s.ring h).1.1
]

reap-snapshot :
    (siginfo : List ℕ) (pid status now old : ℕ) (s : State)
    → snapshot now (reap siginfo pid status now s) ≡ record (snapshot old s) {
      proc_pid = if pid == s.proc_pid then 0 else s.proc_pid;
      now = now;
    }
unfolding reap snapshot
reap-snapshot siginfo pid status now old s = elim (Bool-cases (pid == s.proc_pid)) [
  | inl e ↦ rw e refl
  | inr e ↦ rw e refl
]

recorded-IsRing :
    (siginfo : List ℕ) (children : List (ℕ × ℕ × ℕ)) (s : State)
    → IsRing s.ring
    → IsRing (on_chld siginfo children s).ring
unfolding on_chld
recorded-IsRing siginfo [] s h = h
recorded-IsRing siginfo (c ∷ children) s h =
    recorded-IsRing siginfo children _ (reap-IsRing siginfo c.0 c.1 c.2 s h)

recorded-contents :
    (siginfo : List ℕ) (children : List (ℕ × ℕ × ℕ)) (old : ℕ) (s : State)
    → IsRing s.ring
    → contents (on_chld siginfo children s).ring.slots
      ≡ push_all s.ring.size (messages siginfo children (snapshot old s)) (contents s.ring.slots)
unfolding on_chld messages push_all
recorded-contents siginfo [] old s h = refl
recorded-contents siginfo (c ∷ children) old s h =
    recorded-contents siginfo children c.2 (reap siginfo c.0 c.1 c.2 s)
      (reap-IsRing siginfo c.0 c.1 c.2 s h)
    ∙ rw
        (
          reap-snapshot siginfo c.0 c.1 c.2 old s,
          reap-size siginfo c.0 c.1 c.2 s,
          reap-push siginfo c.0 c.1 c.2 old s h,
        )
        (unfold snapshot in refl)

on_chld-chld_terminated :
    (siginfo : List ℕ) (children : List (ℕ × ℕ × ℕ)) (s : State)
    → (on_chld siginfo children s).chld_terminated
      ≡ (ended s.proc_pid children || s.chld_terminated)
unfolding on_chld reap ended
on_chld-chld_terminated siginfo [] s = refl
on_chld-chld_terminated siginfo (c ∷ children) s =
    ground (arith, on_chld-chld_terminated siginfo children (reap siginfo c.0 c.1 c.2 s))

pub on_chld-proc_pid :
    (siginfo : List ℕ) (children : List (ℕ × ℕ × ℕ)) (s : State)
    → (on_chld siginfo children s).proc_pid ≡ (if ended s.proc_pid children then 0 else s.proc_pid)
unfolding on_chld reap ended
on_chld-proc_pid siginfo [] s = refl
on_chld-proc_pid siginfo (c ∷ children) s =
    ground (arith, on_chld-proc_pid siginfo children (reap siginfo c.0 c.1 c.2 s))

-- In a well-formed ring, every child that `waitpid` returns is recorded in its order, with the status
-- that it ended with, behind the other messages, of which the oldest are forgotten if the ring is
-- full. The ring stays well formed, and the process counts as ended, and as no longer there, if it
-- was one of the children.
pub on_chld-push :
    (siginfo : List ℕ) (children : List (ℕ × ℕ × ℕ)) (old : ℕ) (s : State)
    → IsRing s.ring
    → IsRing (on_chld siginfo children s).ring
      × (contents (on_chld siginfo children s).ring.slots
          ≡ push_all s.ring.size
              (messages siginfo children (snapshot old s))
              (contents s.ring.slots))
      × ((on_chld siginfo children s).chld_terminated
          ≡ (ended s.proc_pid children || s.chld_terminated))
      × ((on_chld siginfo children s).proc_pid
          ≡ (if ended s.proc_pid children then 0 else s.proc_pid))
on_chld-push siginfo children old s h = (
  recorded-IsRing siginfo children s h,
  recorded-contents siginfo children old s h,
  on_chld-chld_terminated siginfo children s,
  on_chld-proc_pid siginfo children s,
)
