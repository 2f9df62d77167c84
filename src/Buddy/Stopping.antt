-- ===== src/Buddy/Stopping.antt =====
-- The loops of `buddy_stop_proc` of controller/buddy.c, for a process that ends and one that does not.
use upkeeper.Prelude.{
  ℕ, zero, suc, ◌+◌, ◌%◌, ◌^◌, ◌≤◌, ◌<◌, ◌≡◌, ◌≢◌, ◌⊎◌, inl, inr, refl, sym, ap, ◌∙◌, arith,
}
use upkeeper.Prelude.{Bool, true, false, Bool-cases, List, [], ◌∷◌, ◌++◌, eq→==, ne→==_false}
use upkeeper.Prelude.{ltb, lt→ltb, le→ltb_false, if◌then◌else◌}
use upkeeper.Buddy.Process.{State, on_chld, reap}
use upkeeper.Buddy.Reaping.{ended, on_chld-proc_pid}
use upkeeper.Buddy.Commands.{Buddy, Ending, kill, nap, wait, kill_if_there}

on_chld-chld_blocked :
    (siginfo : List ℕ) (children : List (ℕ × ℕ × ℕ)) (s : State)
    → (on_chld siginfo children s).chld_blocked ≡ s.chld_blocked
unfolding on_chld reap
on_chld-chld_blocked siginfo [] s = refl
on_chld-chld_blocked siginfo (c ∷ children) s =
    on_chld-chld_blocked siginfo children (reap siginfo c.0 c.1 c.2 s) ∙ ground arith

awake :
    (siginfo : List ℕ) (children : List (ℕ × ℕ × ℕ)) (b : Buddy)
    → b.state.chld_blocked ≡ false
    → nap siginfo children b ≡ record b { state = on_chld siginfo children b.state }
unfolding nap
awake siginfo children b h = simp h refl

-- A nap in which the handler can run.
nap_lem :
    (siginfo : List ℕ) (children : List (ℕ × ℕ × ℕ)) (b : Buddy)
    → b.state.chld_blocked ≡ false
    → ((nap siginfo children b).state.proc_pid
        ≡ (if ended b.state.proc_pid children then 0 else b.state.proc_pid))
      × ((nap siginfo children b).state.chld_blocked ≡ false)
      × ((nap siginfo children b).naps ≡ b.naps)
      × ((nap siginfo children b).killed ≡ b.killed)
nap_lem siginfo children b h = rw (awake siginfo children b h) (
  on_chld-proc_pid siginfo children b.state,
  on_chld-chld_blocked siginfo children b.state ∙ h,
  refl,
  refl,
)

pub wait-gone :
    (siginfo : List ℕ) (ending : Ending) (limit rounds : ℕ) (b : Buddy)
    → b.state.proc_pid ≡ 0
    → wait siginfo ending limit rounds b ≡ b
unfolding wait
wait-gone siginfo ending limit zero b h = refl
wait-gone siginfo ending limit (suc rounds) b h = rw (eq→== b.state.proc_pid 0 h) refl

abbrev pub counted : Buddy → Buddy
counted b = record b { naps = (b.naps + 1) % 2 ^ 8 }

pub wait-over :
    (siginfo : List ℕ) (ending : Ending) (limit rounds : ℕ) (b : Buddy)
    → b.state.proc_pid ≢ 0
    → limit ≤ b.naps
    → wait siginfo ending limit (suc rounds) b ≡ counted b
unfolding wait
wait-over siginfo ending limit rounds b h k =
    rw (ne→==_false b.state.proc_pid 0 h, le→ltb_false limit b.naps k) refl

wait-nap :
    (siginfo : List ℕ) (ending : Ending) (limit rounds : ℕ) (b : Buddy)
    → b.state.proc_pid ≢ 0
    → b.naps < limit
    → wait siginfo ending limit (suc rounds) b
      ≡ wait siginfo ending limit rounds (nap siginfo (ending b.naps) (counted b))
unfolding wait
wait-nap siginfo ending limit rounds b h k =
    rw (ne→==_false b.state.proc_pid 0 h, lt→ltb b.naps limit k) refl

Nat-cases : (n : ℕ) → (n ≡ 0) ⊎ (n ≢ 0)
Nat-cases zero = inl refl
Nat-cases (suc n) = inr (λ h. omega (arith, h))

clash : (t : Bool) → t ≡ false → t ≡ true → ⊥
clash t h k = ground (arith, h, k)

-- The process is gone, or will be at the nap `k`.
abbrev pub Ends : Ending → ℕ → Buddy → Type 0
Ends ending k b =
    (b.state.proc_pid ≡ 0) ⊎ ((ended b.state.proc_pid (ending k) ≡ true) × (b.naps ≤ k))

after_nap :
    (siginfo : List ℕ) (ending : Ending) (k : ℕ) (b : Buddy)
    → b.state.chld_blocked ≡ false
    → b.naps < 255
    → ended b.state.proc_pid (ending k) ≡ true
    → b.naps ≤ k
    → Ends ending k (nap siginfo (ending b.naps) (counted b))
after_nap siginfo ending k b h n e l =
    let (p, _, c, _) = nap_lem siginfo (ending b.naps) (counted b) h in
    elim (Bool-cases (ended b.state.proc_pid (ending b.naps))) [
      | inl t ↦ inl (p ∙ rw t refl)
      | inr t ↦
          let same : (nap siginfo (ending b.naps) (counted b)).state.proc_pid ≡ b.state.proc_pid =
            p ∙ rw t refl in
          inr (ap (λ (q : ℕ). ended q (ending k)) same ∙ e, later t c)
    ]
  where
    later :
        ended b.state.proc_pid (ending b.naps) ≡ false
        → (nap siginfo (ending b.naps) (counted b)).naps ≡ (b.naps + 1) % 2 ^ 8
        → (nap siginfo (ending b.naps) (counted b)).naps ≤ k
    later t c =
        let apart : b.naps ≢ k =
          λ q. clash _ (sym (ap (λ n. ended b.state.proc_pid (ending n)) q) ∙ t) e in
        omega (arith, c, apart)

pub wait-Ends :
    (siginfo : List ℕ) (ending : Ending) (limit rounds k : ℕ) (b : Buddy)
    → b.state.chld_blocked ≡ false
    → limit < 255
    → k < limit
    → limit ≤ b.naps + rounds
    → Ends ending k b
    → ((wait siginfo ending limit rounds b).state.proc_pid ≡ 0)
      × ((wait siginfo ending limit rounds b).killed ≡ b.killed)
wait-Ends siginfo ending limit rounds k b h l m n (inl z) =
    rw (wait-gone siginfo ending limit rounds b z) (z, refl)
wait-Ends siginfo ending limit zero k b h l m n (inr (e, f)) = absurd (omega arith)
wait-Ends siginfo ending limit (suc rounds) k b h l m n (inr (e, f)) =
    elim (Nat-cases b.state.proc_pid) [
      | inl z ↦ rw (wait-gone siginfo ending limit (suc rounds) b z) (z, refl)
      | inr z ↦
          let (_, o, c, u) = nap_lem siginfo (ending b.naps) (counted b) h in
          let rec =
            wait-Ends siginfo ending limit rounds k (nap siginfo (ending b.naps) (counted b)) o l m
              (omega (arith, c, n, f, m)) (after_nap siginfo ending k b h (omega arith) e f) in
          rw (wait-nap siginfo ending limit rounds b z (omega arith)) (rec.0, rec.1 ∙ u)
    ]

-- The process is there after as many naps as there may be.
pub wait_outlived :
    (siginfo : List ℕ) (ending : Ending) (limit rounds p : ℕ) (b : Buddy)
    → b.state.chld_blocked ≡ false
    → limit < 255
    → b.naps ≤ limit
    → limit < b.naps + rounds
    → b.state.proc_pid ≡ p
    → p ≢ 0
    → ((k : ℕ) → ended p (ending k) ≡ false)
    → ((wait siginfo ending limit rounds b).state.proc_pid ≡ p)
      × ((wait siginfo ending limit rounds b).state.chld_blocked ≡ false)
      × ((wait siginfo ending limit rounds b).killed ≡ b.killed)
      × ((wait siginfo ending limit rounds b).naps ≡ limit + 1)
wait_outlived siginfo ending limit zero p b h l m n e z f = absurd (omega arith)
wait_outlived siginfo ending limit (suc rounds) p b h l m n e z f =
    let there : b.state.proc_pid ≢ 0 = λ q. z (sym e ∙ q) in
    elim (Bool-cases (ltb b.naps limit)) [
      | inl t ↦
          let (q, o, c, u) = nap_lem siginfo (ending b.naps) (counted b) h in
          let stays : (nap siginfo (ending b.naps) (counted b)).state.proc_pid ≡ p =
            q ∙ rw (e, f b.naps) refl in
          let rec =
            wait_outlived siginfo ending limit rounds p (nap siginfo (ending b.naps) (counted b)) o
              l (ground (arith, t, c)) (ground (arith, t, c, n)) stays z f in
          rw (wait-nap siginfo ending limit rounds b there (ground (arith, t)))
            (rec.0, rec.1, rec.2 ∙ u, rec.3)
      | inr t ↦
          rw (wait-over siginfo ending limit rounds b there (ground (arith, t)))
            (e, h, refl, ground (arith, t, m))
    ]

pub kill-gone : (signal : ℕ) (b : Buddy) → b.state.proc_pid ≡ 0 → kill_if_there signal b ≡ b
unfolding kill_if_there
kill-gone signal b h = rw (eq→== b.state.proc_pid 0 h) refl

pub kill-there :
    (signal : ℕ) (b : Buddy)
    → b.state.proc_pid ≢ 0
    → kill_if_there signal b ≡ record b { killed = b.killed ++ ((b.state.proc_pid, signal) ∷ []) }
unfolding kill_if_there kill
kill-there signal b h = rw (ne→==_false b.state.proc_pid 0 h) refl
