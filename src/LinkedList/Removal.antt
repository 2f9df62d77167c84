-- ===== src/LinkedList/Removal.antt =====
-- UPKLIST_UNLINK of upk_types.h takes the node at the cursor out of a list.
use upkeeper.Prelude.{suc, ◌+◌, ◌-◌, ◌%◌, ◌^◌, ◌<◌, ◌≡◌, ◌≢◌, inl, inr, refl, sym, ap, ◌∙◌, arith}
use upkeeper.Prelude.{Option, some, none, List, [], ◌∷◌, ◌++◌, ◌==◌, if◌then◌else◌, length, All}
use upkeeper.Prelude.{append-nil, ne→==_false}
use upkeeper.LinkedList.Macros.{Ptr, null, Node, UpkList, update, unlink}
use upkeeper.LinkedList.Chain.{first, last, Chain, Avoids, Distinct, Chain-update, IsList}
use upkeeper.LinkedList.Chain.{Chain-append, Chain-front, Chain-back, All-front, All-back}
use upkeeper.LinkedList.Chain.{
  Distinct-Avoids, Distinct-front, Distinct-back, last-cases, last-append,
}
use upkeeper.LinkedList.Chain.{first-one_more}
use upkeeper.LinkedList.Unlink.{unlink-first, unlink-behind}

module _ {ℓ} {A : Type ℓ} where
  All-remove :
      (P : Ptr × A → Type 0) (xs : List (Ptr × A)) (e : Ptr × A) (ys : List (Ptr × A))
      → All P (xs ++ (e ∷ ys))
      → All P (xs ++ ys)
  All-remove P [] e ys h = h.1
  All-remove P (f ∷ xs) e ys h = (h.0, All-remove P xs e ys h.1)

  Distinct-remove :
      (xs : List (Ptr × A)) (e : Ptr × A) (ys : List (Ptr × A))
      → Distinct (xs ++ (e ∷ ys))
      → Distinct (xs ++ ys)
  Distinct-remove [] e ys h = h.1
  Distinct-remove (f ∷ xs) e ys h = (All-remove _ xs e ys h.0, Distinct-remove xs e ys h.1)

  length-remove :
      (xs : List (Ptr × A)) (e : Ptr × A) (ys : List (Ptr × A))
      → length (xs ++ (e ∷ ys)) ≡ suc (length (xs ++ ys))
  length-remove [] e ys = refl
  length-remove (f ∷ xs) e ys = ap suc (length-remove xs e ys)

  pub last-back :
      (before : Ptr) (xs : List (Ptr × A)) (e : Ptr × A) (ys : List (Ptr × A))
      → last before (xs ++ (e ∷ ys)) ≡ last e.0 ys
  last-back before [] e ys = refl
  last-back before (f ∷ xs) e ys = last-back f.0 xs e ys

  -- The last node when the one before `ys` is gone.
  tail-remove :
      (prev tail : Ptr) (xs : List (Ptr × A)) (e : Ptr × A) (ys : List (Ptr × A))
      → prev ≡ last null xs
      → All (λ f. f.0 ≢ null) ys
      → tail ≡ last null (xs ++ (e ∷ ys))
      → (if first null ys == null then prev else tail) ≡ last null (xs ++ ys)
  tail-remove prev tail xs e [] p h t = p ∙ ap (last null) (sym (append-nil xs))
  tail-remove prev tail xs e (f ∷ ys) p h t =
      rw (ne→==_false f.0 0 h.0) (t ∙ last-back null xs e (f ∷ ys) ∙ sym (last-back null xs f ys))

  pub Chain-not_null :
      (cells : Ptr → Option (Node A)) (stop : Ptr) (xs : List (Ptr × A))
      → Chain cells stop xs
      → All (λ e. e.0 ≢ null) xs
  Chain-not_null cells stop [] h = tt
  Chain-not_null cells stop (e ∷ xs) h = (h.1, Chain-not_null cells stop xs h.2)

  Avoids-later :
      (ds : List (Ptr × A)) (d : Ptr × A) (ys : List (Ptr × A))
      → Distinct ((ds ++ (d ∷ [])) ++ ys)
      → Avoids d.0 ys
  Avoids-later [] d ys h = h.0
  Avoids-later (f ∷ ds) d ys h = Avoids-later ds d ys h.1

-- The cursor stands at `e`, between `done` and `todo`.
pub record AtCursor {ℓ} {A : Type ℓ} (l : UpkList A) (done : List (Ptr × A)) (e : Ptr × A)
    (todo : List (Ptr × A)) : Type ℓ where
  pub list : IsList l (done ++ (e ∷ todo))
  pub this : l.thisp ≡ e.0
  pub next : l.nextp ≡ first null todo
  pub prev : l.prevp ≡ last null done

module _ {ℓ} {A : Type ℓ} (l : UpkList A) where
  -- What an unlink leaves.
  abbrev pub Unlinked : List (Ptr × A) → Ptr × A → List (Ptr × A) → UpkList A → Type ℓ
  Unlinked done e todo k =
      (unlink l ≡ some k)
      × IsList k (done ++ todo)
      × (k.thisp ≡ null)
      × (k.nextp ≡ l.nextp)
      × (k.cells e.0 ≡ none)

  unlink_first-IsList :
      (e : Ptr × A) (todo : List (Ptr × A))
      → AtCursor l [] e todo
      → length (e ∷ todo) < 2 ^ 32
      → (k : UpkList A) × Unlinked [] e todo k
  unlink_first-IsList e todo v b = (
    record l {
      head = l.nextp;
      tail = if l.nextp == null then null else l.tail;
      prevp = null;
      thisp = null;
      cells = update l.cells l.thisp none;
      count = (l.count + 2 ^ 32 - 1) % 2 ^ 32;
    },
    (
      unlink-first l (record { next = first null todo; value = e.1 }) v.prev
          (λ q. v.list.chain.1 (sym v.this ∙ q)) (ap l.cells v.this ∙ v.list.chain.0),
      record {
        chain =
            rw v.this (Chain-update l.cells null e.0 none todo v.list.distinct.0 v.list.chain.2);
        head = v.next;
        tail = rw v.next (
            tail-remove null l.tail [] e todo refl (Chain-not_null _ null todo v.list.chain.2)
              v.list.tail);
        count = omega (arith, v.list.count);
        below = v.list.below.1;
        distinct = v.list.distinct.1;
        not_null = v.list.not_null;
      },
      refl,
      refl,
      ground (arith, v.this),
    ),
  )

  unlink_behind-IsList :
      (ds : List (Ptr × A)) (d e : Ptr × A) (todo : List (Ptr × A))
      → AtCursor l (ds ++ (d ∷ [])) e todo
      → length ((ds ++ (d ∷ [])) ++ (e ∷ todo)) < 2 ^ 32
      → (k : UpkList A) × Unlinked (ds ++ (d ∷ [])) e todo k
  unlink_behind-IsList ds d e todo v b =
      let done = ds ++ (d ∷ []) in
      let behind : l.prevp ≡ d.0 = v.prev ∙ last-append null ds d in
      let apart : Avoids e.0 done = Distinct-Avoids done e todo v.list.distinct in
      let front = Chain-front l.cells null done (e ∷ todo) v.list.chain in
      let at_d = Chain-back l.cells e.0 ds (d ∷ []) front in
      let at_e = Chain-back l.cells null done (e ∷ todo) v.list.chain in
      let e_d : e.0 ≢ d.0 = λ q. (All-back _ ds (d ∷ []) apart).0 (sym q) in
      (
        record l {
          tail = if l.nextp == null then l.prevp else l.tail;
          thisp = null;
          cells =
              update (update l.cells l.prevp (some (record { next = l.nextp; value = d.1 })))
                l.thisp none;
          count = (l.count + 2 ^ 32 - 1) % 2 ^ 32;
        },
        (
          unlink-behind l (record { next = first null todo; value = e.1 })
              (record { next = e.0; value = d.1 }) (λ q. at_d.1 (sym behind ∙ q))
              (λ q. at_e.1 (sym v.this ∙ q)) (λ q. e_d (sym v.this ∙ q ∙ behind))
              (ap l.cells behind ∙ at_d.0) (ap l.cells v.this ∙ at_e.0),
          record {
            chain =
                rw (v.this, behind, v.next)
                  (Chain-append _ null done todo
                    (Chain-append _ (first null todo) ds (d ∷ [])
                      (Chain-update _ d.0 e.0 none ds (All-front _ ds (d ∷ []) apart) (
                        Chain-update _ d.0 d.0 _ ds
                          (Distinct-Avoids ds d [] (Distinct-front done (e ∷ todo) v.list.distinct))
                          (Chain-front l.cells e.0 ds (d ∷ []) front)))
                      (ground arith, at_d.1, tt))
                    (Chain-update _ null e.0 none todo
                      (Distinct-back done (e ∷ todo) v.list.distinct).0
                      (Chain-update _ null d.0 _ todo
                        (Avoids-later ds d (e ∷ todo) v.list.distinct).1 at_e.2)));
            head = v.list.head ∙ first-one_more ds d (e ∷ todo) ∙ sym (first-one_more ds d todo);
            tail =
                rw (v.next, behind)
                  (tail-remove d.0 l.tail done e todo (sym (last-append null ds d))
                    (Chain-not_null _ null todo at_e.2) v.list.tail);
            count = omega (arith, v.list.count, length-remove done e todo);
            below = All-remove _ done e todo v.list.below;
            distinct = Distinct-remove done e todo v.list.distinct;
            not_null = v.list.not_null;
          },
          refl,
          refl,
          ground (arith, v.this),
        ),
      )

  -- In a list of fewer than 2 ^ 32 nodes, an unlink at the cursor frees its node, takes it out of
  -- the list, and leaves `nextp` as it is.
  pub unlink-IsList :
      (done : List (Ptr × A)) (e : Ptr × A) (todo : List (Ptr × A))
      → AtCursor l done e todo
      → length (done ++ (e ∷ todo)) < 2 ^ 32
      → (k : UpkList A) × Unlinked done e todo k
  unlink-IsList done e todo v b = elim (last-cases done) [
    | inl h ↦ rw h (unlink_first-IsList e todo (rw h at v) (rw h at b))
    | inr (ds, d, h) ↦ rw h (unlink_behind-IsList ds d e todo (rw h at v) (rw h at b))
  ]
