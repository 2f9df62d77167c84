-- ===== src/LinkedList/Macros.antt =====
-- upk_types.h: the macros UPKLIST_, on a metanode and the heap of its nodes.
--
-- A pointer is a number, NULL is 0. `calloc` gives the address `brk`, which no node has had. A read or
-- write through a pointer to no node is `none`. `zero` is the value that `calloc` leaves in a node.
use upkeeper.Prelude.{ℕ, zero, suc, ◌+◌, ◌-◌, ◌%◌, ◌^◌, ◌&&◌, Option, none}
use upkeeper.Prelude.{some, ◌==◌, if◌then◌else◌}

abbrev pub Ptr : Type 0
Ptr = ℕ

abbrev pub null : Ptr
null = 0

pub record Node {ℓ} (A : Type ℓ) : Type ℓ where
  pub next : Ptr
  pub value : A

-- UPKLIST_METANODE, and the heap.
pub record UpkList {ℓ} (A : Type ℓ) : Type ℓ where
  pub head : Ptr
  pub tail : Ptr
  pub prevp : Ptr
  pub nextp : Ptr
  pub tempp : Ptr
  pub thisp : Ptr
  pub count : ℕ
  pub cells : Ptr → Option (Node A)
  pub brk : Ptr

infixl 5 ◌>>=◌
abbrev pub ◌>>=◌ {ℓ κ} : {A : Type ℓ} {B : Type κ} → Option A → (A → Option B) → Option B
none >>= f = none
some a >>= f = f a

module _ {ℓ} {A : Type ℓ} where
  abbrev pub update : (Ptr → Option (Node A)) → Ptr → Option (Node A) → Ptr → Option (Node A)
  update cells p c q = if q == p then c else cells q

  -- `p->next = q`
  unfoldable pub set_next : Ptr → Ptr → UpkList A → Option (UpkList A)
  set_next p q l = do
    n ← l.cells p
    some (record l { cells = update l.cells p (some (record n { next = q })) })

  -- `thisp`'s value
  unfoldable pub value_of : UpkList A → Option A
  value_of l = do n ← l.cells l.thisp; some n.value

  unfoldable pub set_value : A → UpkList A → Option (UpkList A)
  set_value v l = do
    n ← l.cells l.thisp
    some (record l { cells = update l.cells l.thisp (some (record n { value = v })) })

  -- _UPKLIST_NEWNODE, with the `next` that it is given first
  unfoldable pub new_node : A → Ptr → UpkList A → UpkList A
  new_node zeroed q l = record l {
    tempp = l.brk;
    cells = update l.cells l.brk (some (record { next = q; value = zeroed }));
    brk = l.brk + 1;
  }

  -- `if(p) p->next = q`
  unfoldable pub link : Ptr → Ptr → UpkList A → Option (UpkList A)
  unfolding set_next
  link p q l = if p == null then some l else set_next p q l

  -- UPKLIST_APPEND_THIS
  unfoldable pub append_this : A → UpkList A → Option (UpkList A)
  unfolding new_node
  append_this zeroed l =
      let n = new_node zeroed l.nextp l in
      let t = record n { tail = if l.nextp == null then n.tempp else l.tail } in
      let h = record t { head = if l.prevp == null && l.count == 0 then n.tempp else l.head } in
      do
        k ← link l.thisp n.tempp h
        some (record k { count = (l.count + 1) % 2 ^ 32; thisp = n.tempp })

  -- UPKLIST_APPEND
  unfoldable pub append : A → UpkList A → Option (UpkList A)
  append zeroed l = do
    k ←
        append_this zeroed
          (record l { thisp = l.tail; prevp = if l.prevp == null then l.head else l.prevp })
    some (record k { prevp = null })

  -- UPKLIST_PREPEND_THIS
  unfoldable pub prepend_this : A → UpkList A → Option (UpkList A)
  unfolding new_node set_next
  prepend_this zeroed l =
      let n = new_node zeroed l.thisp l in
      let t = record n { tail = if l.nextp == null then n.tempp else l.tail } in
      do
        k ←
            (if l.prevp == null
              then some (record t { head = n.tempp })
              else set_next l.prevp n.tempp t)
        some (record k { count = (l.count + 1) % 2 ^ 32; thisp = n.tempp })

  -- UPKLIST_PREPEND
  unfoldable pub prepend : A → UpkList A → Option (UpkList A)
  prepend zeroed l = prepend_this zeroed (record l { prevp = null; thisp = l.head })

  -- _UPKLIST_NEXTNODE
  unfoldable pub next_node : UpkList A → Option Ptr
  next_node l = if l.thisp == null then some null else do n ← l.cells l.thisp; some n.next

  -- _UPKLIST_FOREACH_INIT
  unfoldable pub foreach_init : UpkList A → Option (UpkList A)
  unfolding next_node
  foreach_init l =
      let k = record l { tempp = null; prevp = null; thisp = l.head } in
      do q ← next_node k; some (record k { nextp = q })

  -- _UPKLIST_FOREACH_CONTINUE
  unfoldable pub foreach_continue : UpkList A → Option (UpkList A)
  unfolding next_node
  foreach_continue l =
      let k = record l { tempp = null; prevp = l.thisp; thisp = l.nextp } in
      do q ← next_node k; some (record k { nextp = q })

  -- UPKLIST_HEAD: a loop that breaks in its first round
  unfoldable pub list_head : UpkList A → Option (UpkList A)
  list_head l = foreach_init l

  -- UPKLIST_UNLINK. A second `free` of the node would be `none`.
  unfoldable pub unlink : UpkList A → Option (UpkList A)
  unfolding set_next
  unlink l =
      let without = do
        k ←
            (if l.prevp == null
              then some (record l { head = l.nextp })
              else set_next l.prevp l.nextp l)
        let t = record k { tail = if l.nextp == null then l.prevp else k.tail }
        gone ← t.cells l.thisp
        some (record t {
          cells = update t.cells l.thisp none;
          thisp = null;
          count = (l.count + 2 ^ 32 - 1) % 2 ^ 32;
        })
      in if l.thisp == null then some l else without

  -- UPKLIST_FOREACH from the loop's test on, with a body that works on the list. `none` also if the
  -- fuel runs out.
  unfoldable pub foreach : ℕ → (UpkList A → Option (UpkList A)) → UpkList A → Option (UpkList A)
  foreach zero body l = none
  foreach (suc fuel) body l =
      let again = body l >>= λ k. foreach_continue k >>= λ t. foreach fuel body t in
      if l.thisp == null then some l else again

  -- The loop of UPKLIST_FREE, without what the macro frees after it
  unfoldable pub clear : ℕ → UpkList A → Option (UpkList A)
  clear fuel l = foreach_init l >>= foreach fuel unlink
