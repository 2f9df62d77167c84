-- ===== src/LinkedList/Clear.antt =====
-- UPKLIST_FREE of upk_types.h: the loop that frees every node.
use upkeeper.Prelude.{ℕ, zero, suc, ◌+◌, ◌-◌, ◌%◌, ◌^◌, ◌<◌, ◌≡◌, refl, sym, ap, ◌∙◌, arith}
use upkeeper.Prelude.{Option, some, none, List, [], ◌∷◌, length, All, ◌==◌, if◌then◌else◌}
use upkeeper.LinkedList.Macros.{Ptr, null, UpkList, Node, update, unlink, foreach, clear, ◌>>=◌}
use upkeeper.LinkedList.Chain.{first, Chain, Chain-update, Distinct, IsList}
use upkeeper.LinkedList.Unlink.{unlink-first}
use upkeeper.LinkedList.Stack.{IsStack}
use upkeeper.LinkedList.Walk.{moved, foreach_init-moved, foreach_continue-moved, foreach-step}
use upkeeper.LinkedList.Walk.{foreach-end, rest_of}

module _ {ℓ} {A : Type ℓ} where
  -- The cursor stands at the first of the nodes that are left; those of `gone` are freed.
  record Clearing (l : UpkList A) (gone todo : List (Ptr × A)) : Type ℓ where
    this : l.thisp ≡ first null todo
    next : l.nextp ≡ first null (rest_of todo)
    prev : l.prevp ≡ null
    head : l.head ≡ first null todo
    chain : Chain l.cells null todo
    distinct : Distinct todo
    count : l.count ≡ length todo
    freed : All (λ e. l.cells e.0 ≡ none) gone

  freed-update :
      (cells : Ptr → Option (Node A)) (p : Ptr) (gone : List (Ptr × A))
      → All (λ e. cells e.0 ≡ none) gone
      → All (λ e. update cells p none e.0 ≡ none) gone
  freed-update cells p [] h = tt
  freed-update cells p (e ∷ gone) h = (ground arith, freed-update cells p gone h.1)

  -- The list after the unlink of its first node `e`, and after the step to the next one.
  abbrev unlinked : UpkList A → Ptr × A → List (Ptr × A) → UpkList A
  unlinked l e todo = record l {
    head = l.nextp;
    tail = if l.nextp == null then null else l.tail;
    prevp = null;
    thisp = null;
    cells = update l.cells l.thisp none;
    count = (l.count + 2 ^ 32 - 1) % 2 ^ 32;
  }

  clear_loop :
      (fuel : ℕ) (l : UpkList A) (gone todo : List (Ptr × A))
      → length todo < fuel
      → Clearing l gone todo
      → length todo < 2 ^ 32
      → (k : UpkList A) × ((foreach fuel unlink l ≡ some k)
          × (k.head ≡ null)
          × (k.count ≡ 0)
          × All (λ e. k.cells e.0 ≡ none) todo
          × All (λ e. k.cells e.0 ≡ none) gone)
  clear_loop zero l gone todo h v b = absurd (omega arith)
  clear_loop (suc fuel) l gone [] h v b =
      (l, (foreach-end fuel unlink l v.this, v.head, v.count, tt, v.freed))
  clear_loop (suc fuel) l gone (e ∷ todo) h v b =
      let k = unlinked l e todo in
      let t = moved k null todo in
      let kept : Chain k.cells null todo =
        rw v.this (Chain-update l.cells null e.0 none todo v.distinct.0 v.chain.2) in
      let rec =
        clear_loop fuel t (e ∷ gone) todo (omega arith)
          (record {
            this = refl;
            next = refl;
            prev = refl;
            head = v.next;
            chain = kept;
            distinct = v.distinct.1;
            count = omega (arith, v.count);
            freed = (ground (arith, v.this), freed-update l.cells l.thisp gone v.freed);
          })
          (omega arith) in
      (
        rec.0,
        (
          foreach-step fuel unlink l k t (λ q. v.chain.1 (sym v.this ∙ q))
                (unlink-first l (record { next = first null todo; value = e.1 }) v.prev
                  (λ q. v.chain.1 (sym v.this ∙ q)) (ap l.cells v.this ∙ v.chain.0))
                (foreach_continue-moved k todo v.next kept)
              ∙ rec.1.0,
          rec.1.1,
          rec.1.2,
          (rec.1.4.0, rec.1.3),
          rec.1.4.1,
        ),
      )

  -- The same for a stack, of whose `tail` nothing is known.
  pub clear_stack :
      (fuel : ℕ) (l : UpkList A) (xs : List (Ptr × A))
      → length xs < fuel
      → IsStack l xs
      → length xs < 2 ^ 32
      → (k : UpkList A) × ((clear fuel l ≡ some k)
          × (k.head ≡ null)
          × (k.count ≡ 0)
          × All (λ e. k.cells e.0 ≡ none) xs)
  unfolding clear
  clear_stack fuel l xs h v b =
      let rec =
        clear_loop fuel (moved l null xs) [] xs h
          (record {
            this = refl;
            next = refl;
            prev = refl;
            head = v.head;
            chain = v.chain;
            distinct = v.distinct;
            count = v.count;
            freed = tt;
          })
          b in
      (
        rec.0,
        (
          ap (λ t. t >>= foreach fuel unlink) (foreach_init-moved l xs v.head v.chain) ∙ rec.1.0,
          rec.1.1,
          rec.1.2,
          rec.1.3,
        ),
      )

  -- The loop of UPKLIST_FREE over a list of fewer than 2 ^ 32 nodes ends, frees each node once, and leaves
  -- an empty list.
  pub clear-freed :
      (fuel : ℕ) (l : UpkList A) (xs : List (Ptr × A))
      → length xs < fuel
      → IsList l xs
      → length xs < 2 ^ 32
      → (k : UpkList A) × ((clear fuel l ≡ some k)
          × (k.head ≡ null)
          × (k.count ≡ 0)
          × All (λ e. k.cells e.0 ≡ none) xs)
  clear-freed fuel l xs h v b =
      clear_stack fuel l xs h
        (record {
          chain = v.chain;
          head = v.head;
          count = v.count;
          below = v.below;
          distinct = v.distinct;
          not_null = v.not_null;
        })
        b
