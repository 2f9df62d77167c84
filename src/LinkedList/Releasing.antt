-- ===== src/LinkedList/Releasing.antt =====
-- UPKLIST_FOREACH of upk_types.h with a body that frees what a node has, and unlinks it.
use upkeeper.Prelude.{ℕ, zero, suc, ◌^◌, ◌<◌, ◌≡◌, ◌≢◌, inl, inr, refl, sym, ◌∙◌, arith}
use upkeeper.Prelude.{Bool, true, false, Bool-cases, ne→==_false, append_assoc}
use upkeeper.Prelude.{
  ◌==◌, fun_ext, Option, none, some, ap, List, [], ◌∷◌, ◌++◌, if◌then◌else◌, length, length-append,
}
use upkeeper.LinkedList.Macros.{Ptr, null, UpkList, value_of, unlink, foreach_init, ◌>>=◌}
use upkeeper.LinkedList.Macros.{foreach_continue}
use upkeeper.LinkedList.Chain.{IsList, Chain-back, last-append}
use upkeeper.LinkedList.Removal.{AtCursor, unlink-IsList}
use upkeeper.LinkedList.Walk.{
  Between, Ready, Apart, keep, moved, foreach_init-moved, foreach_continue-moved, value_of-node,
  Between-moved, Apart-rest, Ready-unlinked, Ready-behind,
}

-- UPKLIST_FOREACH from the loop's test on, with a body that works on the list and on other memory.
unfoldable pub foreach_with {ℓ κ} :
    {A : Type ℓ} {W : Type κ}
    → ℕ
    → (W → UpkList A → Option (W × UpkList A))
    → W
    → UpkList A
    → Option (W × UpkList A)
foreach_with zero body w l = none
foreach_with (suc fuel) body w l =
    let again = body w l >>= λ r. foreach_continue r.1 >>= λ t. foreach_with fuel body r.0 t in
    if l.thisp == null then some (w, l) else again

-- The memory, if there was no fault, with the list.
abbrev pub paired {ℓ κ} : {A : Type ℓ} {W : Type κ} → UpkList A → Option W → Option (W × UpkList A)
paired k none = none
paired k (some w) = some (w, k)

-- The memory that a fallible step leaves, and an unlink of the cursor's node after it.
abbrev pub then_unlink {ℓ κ} :
    {A : Type ℓ} {W : Type κ} → UpkList A → Option W → Option (W × UpkList A)
then_unlink l none = none
then_unlink l (some u) = unlink l >>= λ k. some (u, k)

module _ {ℓ κ} {A : Type ℓ} {W : Type κ} (p : A → Bool) (release : A → W → Option W)
    (body : W → UpkList A → Option (W × UpkList A)) where
  -- What becomes of the other memory.
  abbrev pub released : List (Ptr × A) → W → Option W
  released [] w = some w
  released (e ∷ xs) w = if p e.1 then release e.1 w >>= released xs else released xs w

  -- The body leaves a node that does not pass the test, and else releases what it has, and unlinks it.
  pub record Unlinks : Type (ℓ ⊔ κ) where
    pub keeps :
        (w : W) (l : UpkList A) (v : A) → value_of l ≡ some v → p v ≡ false → body w l ≡ some (w, l)
    pub drops :
        (w : W) (l : UpkList A) (v : A)
        → value_of l ≡ some v
        → p v ≡ true
        → body w l ≡ then_unlink l (release v w)

  paired-bind :
      (r : Option W) (f : W → Option W) (k : UpkList A)
      → (r >>= λ u. paired k (f u)) ≡ paired k (r >>= f)
  paired-bind none f k = refl
  paired-bind (some u) f k = refl

  released-cons :
      (e : Ptr × A) (todo : List (Ptr × A)) (w : W) (k : UpkList A)
      → p e.1 ≡ true
      → (release e.1 w >>= λ u. paired k (released todo u)) ≡ paired k (released (e ∷ todo) w)
  released-cons e todo w k t = rw t (paired-bind (release e.1 w) (released todo) k)

  then_unlink-paired :
      (l k : UpkList A) (r : Option W) → unlink l ≡ some k → then_unlink l r ≡ paired k r
  then_unlink-paired l k none h = refl
  then_unlink-paired l k (some u) h = rw h refl

  foreach_with-end :
      (fuel : ℕ) (w : W) (l : UpkList A)
      → l.thisp ≡ null
      → foreach_with (suc fuel) body w l ≡ some (w, l)
  unfolding foreach_with
  foreach_with-end fuel w l n = rw n refl

  foreach_with-step :
      (fuel : ℕ) (w : W) (l k t : UpkList A) (r : Option W)
      → l.thisp ≢ null
      → body w l ≡ paired k r
      → foreach_continue k ≡ some t
      → foreach_with (suc fuel) body w l ≡ (r >>= λ u. foreach_with fuel body u t)
  unfolding foreach_with
  foreach_with-step fuel w l k t none n b c = rw (ne→==_false l.thisp 0 n, b) refl
  foreach_with-step fuel w l k t (some u) n b c = rw (ne→==_false l.thisp 0 n, b, c) refl

  walk_loop :
      (fuel : ℕ) (l : UpkList A) (done todo : List (Ptr × A))
      → Unlinks
      → length todo < fuel
      → Between p l done todo
      → Ready p l.prevp done todo
      → Apart p todo
      → length (done ++ todo) < 2 ^ 32
      → (k : UpkList A) × (((w : W) → foreach_with fuel body w l ≡ paired k (released todo w))
          × IsList k (done ++ keep p todo)
          × (k.thisp ≡ null)
          × (k.nextp ≡ null))
  walk_loop zero l done todo s h v r a b = absurd (omega arith)
  walk_loop (suc fuel) l done [] s h v r a b =
      (l, ((λ w. foreach_with-end fuel w l v.this), v.list, v.this, v.next))
  walk_loop (suc fuel) l done (e ∷ todo) s h v r a b =
      let here = Chain-back l.cells null done (e ∷ todo) v.list.chain in
      let value = value_of-node p l e todo v.this here in
      elim (Bool-cases (p e.1)) [
        | inl t ↦
            let at : AtCursor l done e todo = record {
              list = v.list;
              this = v.this;
              next = v.next;
              prev = r t;
            } in
            let (k, u) = unlink-IsList l done e todo at b in
            let rec =
              walk_loop fuel (moved k k.thisp todo) done todo s (omega arith)
                (Between-moved p k k.thisp done todo u.1) (Ready-unlinked p _ done e todo t a)
                (Apart-rest p e todo a)
                (omega (arith, length-append done (e ∷ todo), length-append done todo)) in
            (
              rec.0,
              (
                (λ w.
                    foreach_with-step fuel w l k (moved k k.thisp todo) (release e.1 w)
                      (λ q. here.1 (sym v.this ∙ q))
                      (s.drops w l e.1 value t ∙ then_unlink-paired l k (release e.1 w) u.0)
                      (foreach_continue-moved k todo (u.3 ∙ v.next)
                        (Chain-back k.cells null done todo u.1.chain))
                    ∙ ap (λ f. release e.1 w >>= f) (fun_ext rec.1.0)
                    ∙ released-cons e todo w rec.0 t),
                rw t rec.1.1,
                rec.1.2,
                rec.1.3,
              ),
            )
        | inr t ↦
            let shift = append_assoc done (e ∷ []) todo in
            let rec =
              walk_loop fuel (moved l l.thisp todo) (done ++ (e ∷ [])) todo s (omega arith)
                (Between-moved p l l.thisp (done ++ (e ∷ [])) todo (rw shift v.list))
                (Ready-behind p _ (done ++ (e ∷ [])) todo (v.this ∙ sym (last-append null done e)))
                (Apart-rest p e todo a) (rw shift b) in
            (
              rec.0,
              (
                (λ w.
                    foreach_with-step fuel w l l (moved l l.thisp todo) (some w)
                      (λ q. here.1 (sym v.this ∙ q)) (s.keeps w l e.1 value t)
                      (foreach_continue-moved l todo v.next here.2)
                    ∙ rec.1.0 w
                    ∙ rw t refl),
                rw (t, ← append_assoc done (e ∷ []) (keep p todo)) rec.1.1,
                rec.1.2,
                rec.1.3,
              ),
            )
      ]

  -- A loop with such a body over a list of fewer than 2 ^ 32 nodes, of which no two in a row pass the
  -- test, releases what the nodes have that do, in their order. If that is no fault it ends with the other
  -- nodes in the list, and with `thisp` and `nextp` null.
  pub walk-IsList :
      (fuel : ℕ) (l : UpkList A) (xs : List (Ptr × A))
      → Unlinks
      → length xs < fuel
      → IsList l xs
      → Apart p xs
      → length xs < 2 ^ 32
      → (k : UpkList A) × (((w : W)
            → (foreach_init l >>= foreach_with fuel body w) ≡ paired k (released xs w))
          × IsList k (keep p xs)
          × (k.thisp ≡ null)
          × (k.nextp ≡ null))
  walk-IsList fuel l xs s h v a b = rw (foreach_init-moved l xs v.head v.chain) (
      walk_loop fuel (moved l null xs) [] xs s h (Between-moved p l null [] xs v)
        (Ready-behind p null [] xs refl) a b)
