-- ===== src/LinkedList/Queue.antt =====
-- UPKLIST_APPEND of upk_types.h keeps a queue.
use upkeeper.Prelude.{ℕ, ◌+◌, ◌%◌, ◌^◌, ◌<◌, ◌≡◌, ◌≢◌, inl, inr, refl, sym, ◌∙◌, arith}
use upkeeper.Prelude.{
  and-false, Option, some, List, [], ◌∷◌, ◌++◌, length, length-append, ne→==_false,
}
use upkeeper.LinkedList.Macros.{Ptr, null, Node, UpkList, update, append, append_this, link}
use upkeeper.LinkedList.Chain.{node, Avoids, Chain-update}
use upkeeper.LinkedList.Chain.{
  Chain-append, Chain-front, Chain-back, All-append, All-front, Below-Avoids,
}
use upkeeper.LinkedList.Chain.{
  Below-suc, Distinct-append_one, Distinct-Avoids, All-back, last-append,
}
use upkeeper.LinkedList.Chain.{first-one_more, last-cases, IsList, IsIdle}

module _ {ℓ} {A : Type ℓ} (xs : List (Ptr × A)) (e : Ptr × A) where
  nonempty : (n : ℕ) → n ≡ length (xs ++ (e ∷ [])) → n ≢ 0
  nonempty n h = omega (arith, length-append xs (e ∷ []))

module _ {ℓ} {A : Type ℓ} (zeroed : A) (l : UpkList A) where
  -- The list after an append: the new node is the last one, and `thisp`.
  abbrev pub appended : Ptr → (Ptr → Option (Node A)) → UpkList A
  appended head cells = record l {
    head = head;
    tail = l.brk;
    prevp = null;
    tempp = l.brk;
    thisp = l.brk;
    count = (l.count + 1) % 2 ^ 32;
    cells = cells;
    brk = l.brk + 1;
  }

  append-empty :
      l.tail ≡ null
      → l.head ≡ null
      → l.count ≡ 0
      → IsIdle l
      → append zeroed l ≡ some (appended l.brk (update l.cells l.brk (node null zeroed)))
  unfolding append append_this link
  append-empty t h c i = rw (t, h, c, i.0, i.1) refl

  append-after :
      (a : Ptr) (v : A)
      → l.tail ≡ a
      → a ≢ null
      → a ≢ l.brk
      → l.cells a ≡ node null v
      → (l.count ≢ 0)
      → l.nextp ≡ null
      → append zeroed l
        ≡ some (appended l.head (update (update l.cells l.brk (node null zeroed)) a (node l.brk v)))
  unfolding append append_this link
  append-after a v t n b c k i =
      rw (t, i, ne→==_false a 0 n, ne→==_false l.count 0 k, ne→==_false a l.brk b, c)
        (rw and-false refl)

  append-empty-IsList :
      IsList l []
      → IsIdle l
      → (k : UpkList A) × (append zeroed l ≡ some k)
        × IsList k ((l.brk, zeroed) ∷ [])
        × IsIdle k
        × (k.thisp ≡ l.brk)
  append-empty-IsList v i = (
    appended l.brk (update l.cells l.brk (node null zeroed)),
    append-empty v.tail v.head v.count i,
    record {
      chain = (ground arith, ground (arith, v.not_null), tt);
      head = refl;
      tail = refl;
      count = ground (arith, v.count);
      below = (omega arith, tt);
      distinct = (tt, tt);
      not_null = omega arith;
    },
    (refl, i.1),
    refl,
  )

  append-after-IsList :
      (xs : List (Ptr × A)) (e : Ptr × A)
      → IsList l (xs ++ (e ∷ []))
      → IsIdle l
      → length (xs ++ (e ∷ [])) + 1 < 2 ^ 32
      → (k : UpkList A) × (append zeroed l ≡ some k)
        × IsList k ((xs ++ (e ∷ [])) ++ ((l.brk, zeroed) ∷ []))
        × IsIdle k
        × (k.thisp ≡ l.brk)
  append-after-IsList xs e v i b =
      let apart : Avoids e.0 xs = Distinct-Avoids xs e [] v.distinct in
      let fresh : Avoids l.brk (xs ++ (e ∷ [])) = Below-Avoids l.brk _ v.below in
      let end = Chain-back l.cells null xs (e ∷ []) v.chain in
      let old : e.0 ≢ l.brk = (All-back _ xs (e ∷ []) fresh).0 in
      let at_end : l.tail ≡ e.0 = v.tail ∙ last-append null xs e in
      (
        appended l.head (update (update l.cells l.brk (node null zeroed)) e.0 (node l.brk e.1)),
        append-after e.0 e.1 at_end end.1 old end.0 (nonempty xs e l.count v.count) i.1,
        record {
          chain =
              Chain-append _ null (xs ++ (e ∷ [])) ((l.brk, zeroed) ∷ [])
                (Chain-append _ l.brk xs (e ∷ [])
                  (Chain-update _ e.0 e.0 _ xs apart (
                    Chain-update _ e.0 l.brk _ xs (All-front _ xs (e ∷ []) fresh)
                      (Chain-front l.cells null xs (e ∷ []) v.chain)))
                  (ground arith, end.1, tt))
                (ground arith, ground (arith, v.not_null), tt);
          head = v.head ∙ sym (first-one_more xs e ((l.brk, zeroed) ∷ []));
          tail = sym (last-append null (xs ++ (e ∷ [])) (l.brk, zeroed));
          count = omega (arith, v.count, length-append (xs ++ (e ∷ [])) ((l.brk, zeroed) ∷ []));
          below =
              All-append _ (xs ++ (e ∷ [])) ((l.brk, zeroed) ∷ []) (Below-suc l.brk _ v.below)
                (omega arith, tt);
          distinct = Distinct-append_one (xs ++ (e ∷ [])) (l.brk, zeroed) v.distinct fresh;
          not_null = omega arith;
        },
        (refl, i.1),
        refl,
      )

  -- An append to an idle list of fewer than 2 ^ 32 - 1 nodes adds a zeroed node at its end, leaves the
  -- list idle, and sets `thisp` to the new node.
  pub append-IsList :
      (xs : List (Ptr × A))
      → IsList l xs
      → IsIdle l
      → length xs + 1 < 2 ^ 32
      → (k : UpkList A) × (append zeroed l ≡ some k)
        × IsList k (xs ++ ((l.brk, zeroed) ∷ []))
        × IsIdle k
        × (k.thisp ≡ l.brk)
  append-IsList xs v i b = elim (last-cases xs) [
    | inl h ↦ rw h (append-empty-IsList (rw h at v) i)
    | inr (ys, e, h) ↦ rw h (append-after-IsList ys e (rw h at v) i (rw h at b))
  ]
