-- ===== src/Json/Unpushed.antt =====
-- upk_json.c: an object that the handlers of the head do not take.
use upkeeper.Prelude.{ℕ, ◌+◌, ◌^◌, ◌<◌, ◌≡◌, refl, ap, arith, Option, none, List, ◌∷◌, length}
use upkeeper.Wire.Outcome.{Outcome, ok, bind_then}
use upkeeper.LinkedList.Macros.{Ptr, UpkList}
use upkeeper.LinkedList.Stack.{IsStack}
use upkeeper.Json.Types.{Key, Val, Handlers, StackNode, Walk, Formats, object, end}
use upkeeper.Json.Walking.{json_value, handle, call_handler, after_pop, parse_node}
use upkeeper.Json.Balance.{head_node-IsStack, stack_pop-IsStack}

module _ {C S : Type 0} (formats : Formats)
    (run : C → ℕ → Key → Val → Walk C S → Outcome (Walk C S)) where
  -- Without the handler nothing happens.
  handle-none :
      (which : Handlers C → Option C) (key : Key) (v : Val) (w : Walk C S) (e : Ptr × StackNode C)
      (xs : List (Ptr × StackNode C))
      → IsStack w.meta (e ∷ xs)
      → which e.1.handlers ≡ none
      → handle formats run which key v w ≡ ok w
  unfolding handle
  handle-none which key v w e xs s h =
      bind_then _ (head_node-IsStack w.meta e xs s)
        (ap (λ t. call_handler formats run t e.1.data_ptr key v w) h)

  -- An empty object for which the head has no handler is not skipped: the walk pops the head, and what
  -- follows goes to the node below, which is given the end of the object as its own.
  pub object-unhandled :
      (key : Key) (w : Walk C S) (e f : Ptr × StackNode C) (xs : List (Ptr × StackNode C))
      → IsStack w.meta (e ∷ f ∷ xs)
      → length xs + 1 < 2 ^ 32
      → e.1.handlers.json_object ≡ none
      → (k : UpkList (StackNode C)) × IsStack k (f ∷ xs)
        × (parse_node formats run key (object end) w
            ≡ call_handler formats run f.1.handlers.after_json_obj_pop f.1.data_ptr key
                (Val.obj (object end))
                (record w { meta = k }))
  unfolding parse_node json_value after_pop handle
  object-unhandled key w e f xs s b h =
      let (k, p, t) = stack_pop-IsStack w.meta e (f ∷ xs) s (omega arith) in
      (
        k,
        t,
        bind_then _ (handle-none _ key _ w e (f ∷ xs) s h)
            (bind_then _ p (bind_then _ (head_node-IsStack k f xs t) refl)),
      )
