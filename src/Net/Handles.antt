-- ===== src/Net/Handles.antt =====
-- upk_network.c: the stack of callbacks of a connection.
use upkeeper.Prelude.{◌+◌, ◌-◌, ◌%◌, ◌^◌, ◌<◌, ◌≡◌, refl, ap, ◌∙◌, arith, ◌≢◌}
use upkeeper.Prelude.{Option, none, some, List, length, ne→==_false, ◌==◌, if◌then◌else◌}
use upkeeper.LinkedList.Macros.{Ptr, null, Node, UpkList, update, prepend, list_head}
use upkeeper.LinkedList.Macros.{foreach_init, next_node, ◌>>=◌}
use upkeeper.LinkedList.Stack.{IsStack, prepend-IsStack, pop}
use upkeeper.LinkedList.Unlink.{unlink-first}
use upkeeper.Net.Types.{CallbackStack}

-- `*thisp = *state`, which copies the field `next` too
unfoldable pub assign_this {ℓ} : {A : Type ℓ} → Node A → UpkList A → Option (UpkList A)
assign_this state l = do
  old ← l.cells l.thisp
  some (record l { cells = update l.cells l.thisp (some state) })

module _ {C : Type 0} where
  -- The node that `calloc` gives.
  abbrev pub zeroed_callbacks : CallbackStack C
  zeroed_callbacks = record {
    msg_handlers = λ i. none;
    net_dispatch_pre = none;
    net_dispatch_foreach = none;
    net_dispatch_post = none;
  }

  unfoldable pub callback_stack_push :
      Node (CallbackStack C) → UpkList (CallbackStack C) → Option (UpkList (CallbackStack C))
  unfolding assign_this
  callback_stack_push state l = prepend zeroed_callbacks l >>= assign_this state

  unfoldable pub callback_stack_pop : UpkList (CallbackStack C) → Option (UpkList (CallbackStack C))
  callback_stack_pop l = pop l

  assign_this_lem :
      (state : Node (CallbackStack C)) (l : UpkList (CallbackStack C)) (a : Ptr)
      (n : Node (CallbackStack C))
      → l.thisp ≡ a
      → l.cells a ≡ some n
      → assign_this state l ≡ some (record l { cells = update l.cells a (some state) })
  unfolding assign_this
  assign_this_lem state l a n t c = rw (t, c) refl

  callback_stack_pop-head :
      (l : UpkList (CallbackStack C)) (a : Ptr) (n : Node (CallbackStack C))
      → l.head ≡ a
      → a ≢ null
      → l.cells a ≡ some n
      → (k : UpkList (CallbackStack C)) × (callback_stack_pop l ≡ some k)
        × (k.head ≡ n.next)
        × (k.count ≡ (l.count + 2 ^ 32 - 1) % 2 ^ 32)
  unfolding callback_stack_pop pop list_head foreach_init next_node
  callback_stack_pop-head l a n h z c = (
    record l {
      prevp = null;
      nextp = n.next;
      thisp = null;
      tempp = null;
      tail = if n.next == null then null else l.tail;
      head = n.next;
      count = (l.count + 2 ^ 32 - 1) % 2 ^ 32;
      cells = update l.cells a none;
    },
    rw (h, ne→==_false a 0 z, c) (unlink-first _ n refl z c),
    refl,
    refl,
  )

  -- A push on a stack of fewer than 2 ^ 32 - 1 callbacks puts the given state on top, with its own
  -- `next`, so that what was in the stack is lost: after a pop, what that `next` leads to is the stack,
  -- though `count` is what it was.
  pub pop-push :
      (state : Node (CallbackStack C)) (l : UpkList (CallbackStack C))
      (xs : List (Ptr × CallbackStack C))
      → IsStack l xs
      → length xs + 1 < 2 ^ 32
      → (k d : UpkList (CallbackStack C)) × (callback_stack_push state l ≡ some k)
        × (k.cells k.head ≡ some state)
        × (callback_stack_pop k ≡ some d)
        × (d.head ≡ state.next)
        × (d.count ≡ length xs)
  unfolding callback_stack_push
  pop-push state l xs v b =
      let (q, p, s, t) = prepend-IsStack zeroed_callbacks l xs v b in
      let k = record q { cells = update q.cells l.brk (some state) } in
      let top : k.cells l.brk ≡ some state = ground arith in
      let (d, g, h, c) = callback_stack_pop-head k l.brk state s.head s.chain.1 top in
      (
        k,
        d,
        ap (λ r. r >>= assign_this state) p ∙ assign_this_lem state q l.brk _ t s.chain.0,
        ap k.cells s.head ∙ top,
        g,
        h,
        omega (arith, c, s.count),
      )
