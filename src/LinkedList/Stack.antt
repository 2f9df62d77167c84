-- ===== src/LinkedList/Stack.antt =====
-- UPKLIST_PREPEND, UPKLIST_HEAD and UPKLIST_UNLINK of upk_types.h keep a stack, and
-- UPKLIST_PREPEND spoils `tail`.
use upkeeper.Prelude.{◌+◌, ◌-◌, ◌%◌, ◌^◌, ◌<◌, ◌≡◌, refl, arith, some, none, List, ◌∷◌}
use upkeeper.Prelude.{Option, ◌==◌, if◌then◌else◌, length, ne→==_false}
use upkeeper.LinkedList.Macros.{Ptr, null, UpkList, update, prepend, prepend_this}
use upkeeper.LinkedList.Macros.{list_head, foreach_init, next_node, unlink, ◌>>=◌}
use upkeeper.LinkedList.Chain.{node, first, Chain, Distinct, Below, Chain-update, Below-Avoids}
use upkeeper.LinkedList.Chain.{Below-suc}
use upkeeper.LinkedList.Unlink.{unlink-first}

module _ {ℓ} {A : Type ℓ} where
  -- The nodes `xs` from `head` on. Nothing is said of `tail`.
  pub record IsStack (l : UpkList A) (xs : List (Ptr × A)) : Type ℓ where
    pub chain : Chain l.cells null xs
    pub head : l.head ≡ first null xs
    pub count : l.count ≡ length xs
    pub below : Below l.brk xs
    pub distinct : Distinct xs
    pub not_null : 0 < l.brk

  -- A prepend puts a zeroed node on a stack of fewer than 2 ^ 32 - 1 nodes, and sets `thisp` to it.
  pub prepend-IsStack :
      (zeroed : A) (l : UpkList A) (xs : List (Ptr × A))
      → IsStack l xs
      → length xs + 1 < 2 ^ 32
      → (k : UpkList A) × (prepend zeroed l ≡ some k)
        × IsStack k ((l.brk, zeroed) ∷ xs)
        × (k.thisp ≡ l.brk)
  unfolding prepend prepend_this
  prepend-IsStack zeroed l xs v b = (
    record l {
      prevp = null;
      thisp = l.brk;
      tempp = l.brk;
      tail = if l.nextp == null then l.brk else l.tail;
      head = l.brk;
      count = (l.count + 1) % 2 ^ 32;
      cells = update l.cells l.brk (node l.head zeroed);
      brk = l.brk + 1;
    },
    refl,
    record {
      chain = (
        ground (arith, v.head),
        ground (arith, v.not_null),
        Chain-update l.cells null l.brk _ xs (Below-Avoids l.brk xs v.below) v.chain,
      );
      head = refl;
      count = omega (arith, v.count);
      below = (omega arith, Below-suc l.brk xs v.below);
      distinct = (Below-Avoids l.brk xs v.below, v.distinct);
      not_null = omega arith;
    },
    refl,
  )

  -- To take the first node off.
  unfoldable pub pop : UpkList A → Option (UpkList A)
  pop l = list_head l >>= unlink

  pub pop-IsStack :
      (l : UpkList A) (e : Ptr × A) (xs : List (Ptr × A))
      → IsStack l (e ∷ xs)
      → length xs < 2 ^ 32
      → (k : UpkList A) × (pop l ≡ some k) × IsStack k xs × (k.cells e.0 ≡ none)
  unfolding pop list_head foreach_init next_node
  pop-IsStack l e xs v b = (
    record l {
      prevp = null;
      nextp = first null xs;
      thisp = null;
      tempp = null;
      tail = if first null xs == null then null else l.tail;
      head = first null xs;
      count = (l.count + 2 ^ 32 - 1) % 2 ^ 32;
      cells = update l.cells e.0 none;
    },
    rw (v.head, ne→==_false e.0 0 v.chain.1, v.chain.0)
        (unlink-first _ (record { next = first null xs; value = e.1 }) refl v.chain.1 v.chain.0),
    record {
      chain = Chain-update l.cells null e.0 none xs v.distinct.0 v.chain.2;
      head = refl;
      count = omega (arith, v.count);
      below = v.below.1;
      distinct = v.distinct.1;
      not_null = v.not_null;
    },
    ground arith,
  )
