-- ===== src/LinkedList/Cursor.antt =====
-- What the pointers that the macros of upk_types.h keep between calls lead to when they are stale.
use upkeeper.Prelude.{
  ℕ, ◌+◌, ◌-◌, ◌%◌, ◌^◌, ◌<◌, ◌≡◌, ◌≢◌, refl, sym, ap, ◌∙◌, arith, Bool, true, false,
}
use upkeeper.Prelude.{Option, if◌then◌else◌, some, none, List, [], ◌∷◌, length, ne→==_false, eq→==}
use upkeeper.LinkedList.Macros.{
  Ptr, null, UpkList, update, prepend, prepend_this, append, append_this,
}
use upkeeper.LinkedList.Macros.{link, foreach, foreach_init, value_of, unlink, ◌>>=◌}
use upkeeper.LinkedList.Chain.{node, Chain, IsList}
use upkeeper.LinkedList.Stack.{IsStack}
use upkeeper.LinkedList.Unlink.{unlink-first}
use upkeeper.LinkedList.Removal.{AtCursor, unlink-IsList}
use upkeeper.LinkedList.Walk.{moved, foreach_init-moved, foreach_continue-moved, foreach-step}
use upkeeper.LinkedList.Walk.{foreach-end, value_of-node}
use upkeeper.LinkedList.Walk.{IsList-moved}

module _ {ℓ} {A : Type ℓ} (p : A → Bool) where
  -- `if(p(thisp)) UPKLIST_UNLINK`
  abbrev pub drop_if : UpkList A → Option (UpkList A)
  drop_if l = value_of l >>= λ v. if p v then unlink l else some l

  -- A loop over a list with this body.
  abbrev pub prune : ℕ → UpkList A → Option (UpkList A)
  prune fuel l = foreach_init l >>= foreach fuel drop_if

  drop_if-unlink : (l : UpkList A) (v : A) → value_of l ≡ some v → p v ≡ true → drop_if l ≡ unlink l
  drop_if-unlink l v h t = rw (h, t) refl

  drop_if-keep : (l : UpkList A) (v : A) → value_of l ≡ some v → p v ≡ false → drop_if l ≡ some l
  drop_if-keep l v h t = rw (h, t) refl

module _ {ℓ} {A : Type ℓ} where
  not_null : {l : UpkList A} {xs : List (Ptr × A)} → IsStack l xs → l.brk ≢ null
  not_null v = omega (arith, v.not_null)

  -- UPKLIST_PREPEND sets `tail` to the new first node, whatever stands behind it, so that an
  -- UPKLIST_APPEND afterwards cuts off all older nodes: the list has two nodes, and counts all.
  pub prepend-append :
      (zeroed : A) (l : UpkList A) (xs : List (Ptr × A))
      → IsStack l xs
      → l.nextp ≡ null
      → length xs + 2 < 2 ^ 32
      → (k : UpkList A) × ((prepend zeroed l >>= append zeroed) ≡ some k)
        × (k.head ≡ l.brk)
        × Chain k.cells null ((l.brk, zeroed) ∷ (l.brk + 1, zeroed) ∷ [])
        × (k.count ≡ length xs + 2)
  unfolding prepend prepend_this append append_this link
  prepend-append zeroed l xs v n b = (
    record l {
      head = l.brk;
      tail = l.brk + 1;
      prevp = null;
      tempp = l.brk + 1;
      thisp = l.brk + 1;
      count = ((l.count + 1) % 2 ^ 32 + 1) % 2 ^ 32;
      cells =
          update (update (update l.cells l.brk (node l.head zeroed)) (l.brk + 1) (node null zeroed))
            l.brk (node (l.brk + 1) zeroed);
      brk = l.brk + 1 + 1;
    },
    rw
        (
          n,
          ne→==_false l.brk 0 (not_null v),
          ne→==_false l.brk (l.brk + 1) (omega arith),
          eq→== l.brk l.brk refl,
        )
        refl,
    refl,
    (ground arith, not_null v, (ground arith, ground arith, tt)),
    omega (arith, v.count),
  )

  -- A loop that unlinks two nodes in a row loses the nodes before them: they are neither in the list
  -- nor freed.
  pub prune_adjacent :
      (p : A → Bool) (l : UpkList A) (e f g : Ptr × A)
      → IsList l (e ∷ f ∷ g ∷ [])
      → p e.1 ≡ false
      → p f.1 ≡ true
      → p g.1 ≡ true
      → (k : UpkList A) × (prune p 4 l ≡ some k)
        × (k.head ≡ null)
        × (k.cells e.0 ≡ node g.0 e.1)
        × (k.count ≡ 1)
  prune_adjacent p l e f g v pe pf pg =
      let c = v.chain in
      let s1 = moved l null (e ∷ f ∷ g ∷ []) in
      let s2 = moved s1 e.0 (f ∷ g ∷ []) in
      let at : AtCursor s2 (e ∷ []) f (g ∷ []) = record {
        list =
            IsList-moved p s1 e.0 (f ∷ g ∷ []) _
              (IsList-moved p l null (e ∷ f ∷ g ∷ []) (e ∷ f ∷ g ∷ []) v);
        this = refl;
        next = refl;
        prev = refl;
      } in
      let (k, u) = unlink-IsList s2 (e ∷ []) f (g ∷ []) at (omega arith) in
      let s3 = moved k k.thisp (g ∷ []) in
      let d = u.1.chain in
      let s4 = record s3 {
        head = null;
        tail = null;
        prevp = null;
        thisp = null;
        cells = update k.cells g.0 none;
        count = (k.count + 2 ^ 32 - 1) % 2 ^ 32;
      } in
      (
        moved s4 null [],
        (ap (λ t. t >>= foreach 4 (drop_if p)) (foreach_init-moved l (e ∷ f ∷ g ∷ []) v.head c)
            ∙ foreach-step 3 (drop_if p) s1 s1 s2 c.1
                (drop_if-keep p s1 e.1 (value_of-node p s1 e (f ∷ g ∷ []) refl c) pe)
                (foreach_continue-moved s1 (f ∷ g ∷ []) refl c.2)
            ∙ foreach-step 2 (drop_if p) s2 k s3 c.2.1
                (drop_if-unlink p s2 f.1 (value_of-node p s2 f (g ∷ []) refl c.2) pf ∙ u.0)
                (foreach_continue-moved k (g ∷ []) u.3 d.2)
            ∙ foreach-step 1 (drop_if p) s3 s4 (moved s4 null []) d.2.1
                (drop_if-unlink p s3 g.1 (value_of-node p s3 g [] refl d.2) pg
                  ∙ unlink-first s3 (record { next = null; value = g.1 }) u.2 d.2.1 d.2.0)
                (foreach_continue-moved s4 [] refl tt)
            ∙ foreach-end 0 (drop_if p) (moved s4 null []) refl),
        refl,
        rw (ne→==_false e.0 g.0 (λ q. u.1.distinct.0.0 (sym q))) d.0,
        omega (arith, u.1.count),
      )
