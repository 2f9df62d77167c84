-- ===== src/Json/Balance.antt =====
-- upk_json.c: the stack of handlers, as upk_json_stack_push and upk_json_stack_pop keep it.
use upkeeper.Prelude.{◌+◌, ◌^◌, ◌<◌, ◌≡◌, refl, ap, ◌∙◌, fun_ext, inl, inr, ◌==◌, arith}
use upkeeper.Prelude.{some, List, ◌∷◌, length}
use upkeeper.Prelude.{if◌then◌else◌, Bool-cases}
use upkeeper.Wire.Outcome.{ok, there}
use upkeeper.LinkedList.Macros.{Ptr, null, UpkList, update, set_value, list_head, unlink, ◌>>=◌}
use upkeeper.LinkedList.Chain.{first, Chain-update}
use upkeeper.LinkedList.Stack.{IsStack, prepend-IsStack, pop, pop-IsStack}
use upkeeper.Json.Types.{StackNode, zeroed_node}
use upkeeper.Json.Walking.{stack_push, stack_pop, head_node}

module _ {C : Type 0} where
  pub head_node-IsStack :
      (m : UpkList (StackNode C)) (e : Ptr × StackNode C) (xs : List (Ptr × StackNode C))
      → IsStack m (e ∷ xs)
      → head_node m ≡ ok e.1
  unfolding head_node
  head_node-IsStack m e xs v = rw (v.head, v.chain.0) refl

  pub stack_push-IsStack :
      (node : StackNode C) (m : UpkList (StackNode C)) (xs : List (Ptr × StackNode C))
      → IsStack m xs
      → length xs + 1 < 2 ^ 32
      → (k : UpkList (StackNode C)) × (stack_push node m ≡ ok k) × IsStack k ((m.brk, node) ∷ xs)
  unfolding stack_push set_value
  stack_push-IsStack node m xs v b =
      let (k, e, s, t) = prepend-IsStack zeroed_node m xs v b in
      (
        record k {
          cells = update k.cells m.brk (some (record { next = first null xs; value = node }));
        },
        rw (e, t, s.chain.0) refl,
        record {
          chain = (
            ground arith,
            s.chain.1,
            Chain-update k.cells null m.brk _ xs s.distinct.0 s.chain.2,
          );
          head = s.head;
          count = s.count;
          below = s.below;
          distinct = s.distinct;
          not_null = s.not_null;
        },
      )

  tests : (k : UpkList (StackNode C)) → (if k.thisp == null then some k else unlink k) ≡ unlink k
  unfolding unlink
  tests k = elim (Bool-cases (k.thisp == null)) [ inl h ↦ rw h refl | inr h ↦ rw h refl ]

  pub stack_pop-IsStack :
      (m : UpkList (StackNode C)) (e : Ptr × StackNode C) (xs : List (Ptr × StackNode C))
      → IsStack m (e ∷ xs)
      → length xs < 2 ^ 32
      → (k : UpkList (StackNode C)) × (stack_pop m ≡ ok k) × IsStack k xs
  unfolding stack_pop pop
  stack_pop-IsStack m e xs v b =
      let (k, p, s, gone) = pop-IsStack m e xs v b in
      (k, ap (λ f. there (list_head m >>= f)) (fun_ext tests) ∙ ap there p, s)
