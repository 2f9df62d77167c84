-- ===== src/Net/ClosingExamples.antt =====
-- The theorem on `upk_net_flush_closed_sockets` at three connections, the outer two closed.
use upkeeper.Prelude.{
  ℕ, ◌≡◌, ◌<◌, refl, arith, none, some, List, [], ◌∷◌, ◌==◌, ◌||◌, Option, if◌then◌else◌,
}
use upkeeper.LinkedList.Macros.{Ptr, null, UpkList, update}
use upkeeper.LinkedList.Chain.{node, IsList}
use upkeeper.LinkedList.Stack.{IsStack}
use upkeeper.LinkedList.Walk.{keep}
use upkeeper.Net.Types.{CallbackStack, is_open}
use upkeeper.Net.Closing.{Handle, Memory, flush_closed_sockets}
use upkeeper.Net.Owned.{is_closed, closed, owned, without, HasState}
use upkeeper.Net.Closed.{flush_closed_sockets_lem}

abbrev a_handle : Option ℕ → Ptr → Ptr → Handle ℕ
a_handle fd userdata state = record {
  fd = fd;
  userdata = userdata;
  userdata_free_func = none;
  state = state;
}

abbrev first_closed : Handle ℕ
first_closed = a_handle none 7 21

abbrev second_open : Handle ℕ
second_open = a_handle (some 4) 7 22

abbrev third_closed : Handle ℕ
third_closed = a_handle none 8 23

abbrev handles : List (Ptr × Handle ℕ)
handles = (1, first_closed) ∷ (2, second_open) ∷ (3, third_closed) ∷ []

abbrev handle_list : UpkList (Handle ℕ)
handle_list = record {
  head = 1;
  tail = 3;
  prevp = null;
  nextp = null;
  tempp = 3;
  thisp = 3;
  count = 3;
  cells =
      update (update (update (λ p. none) 1 (node 2 first_closed)) 2 (node 3 second_open)) 3
        (node null third_closed);
  brk = 4;
}

handle_list-IsList : IsList handle_list handles
handle_list-IsList = record {
  chain = (
    refl,
    λ h. omega (arith, h),
    (refl, λ h. omega (arith, h), (refl, λ h. omega (arith, h), tt)),
  );
  head = refl;
  tail = refl;
  count = refl;
  below = omega arith;
  distinct = omega arith;
  not_null = omega arith;
}

abbrev no_callbacks : CallbackStack ℕ
no_callbacks = record {
  msg_handlers = λ i. none;
  net_dispatch_pre = none;
  net_dispatch_foreach = none;
  net_dispatch_post = none;
}

-- A stack of one callback, at 1
abbrev one_callback : UpkList (CallbackStack ℕ)
one_callback = record {
  head = 1;
  tail = 1;
  prevp = null;
  nextp = null;
  tempp = 1;
  thisp = 1;
  count = 1;
  cells = update (λ p. none) 1 (node null no_callbacks);
  brk = 2;
}

one_callback-IsStack : IsStack one_callback ((1, no_callbacks) ∷ [])
one_callback-IsStack = record {
  chain = (refl, λ h. omega (arith, h), tt);
  head = refl;
  count = refl;
  below = omega arith;
  distinct = omega arith;
  not_null = omega arith;
}

-- The user data at 7 and 8, and the states from 21 to 23
abbrev memory : Memory ℕ
memory = record {
  userdata = λ p. p == 7 || p == 8;
  states = λ p. if p == 21 || (p == 22 || p == 23) then some one_callback else none;
}

closed_state :
    (h : Handle ℕ)
    → 0 < h.state
    → memory.states h.state ≡ some one_callback
    → HasState 4 memory.states h
closed_state h n e = record {
  not_null = λ z. omega (arith, n, z);
  stack = one_callback;
  callbacks = (1, no_callbacks) ∷ [];
  here = e;
  is_stack = one_callback-IsStack;
  short = omega arith;
  enough = omega arith;
}

flush_closed_sockets_example :
    (k : UpkList (Handle ℕ)) × ((flush_closed_sockets (λ f q m. none) 4 memory handle_list ≡ (
        if owned memory.userdata (closed handles)
        then some (without memory (closed handles), k)
        else none))
      × IsList k (keep is_closed handles))
unfolding is_open
flush_closed_sockets_example =
    flush_closed_sockets_lem (λ f q m. none) 4 memory handle_list handles (omega arith)
      handle_list-IsList (refl, (refl, tt)) (omega arith)
      (
        closed_state first_closed (omega arith) refl,
        refl,
        (λ h. omega (arith, h), tt),
        (closed_state third_closed (omega arith) refl, refl, tt, tt),
      )
