-- ===== src/Json/Walking.antt =====
-- upk_json.c: the stack of handlers, and the walk over a value that calls them.
--
-- A handler is a code `C`; `run` says what it does, given the pointer `data` of its node, the key and
-- the value. A use of the stack's head where there is none is a fault.
use upkeeper.Prelude.{ℕ, Option, none, some, List, [], ◌∷◌, ◌==◌, if◌then◌else◌}
use upkeeper.Wire.Outcome.{Outcome, ok, bind, there}
use upkeeper.LinkedList.Macros.{UpkList, prepend, set_value, list_head, unlink, null, ◌>>=◌}
use upkeeper.Json.Types.{
  Key, Value, Fields, Items, Val, zeroed, bl, dbl, i, str, obj, Handlers, StackNode, zeroed_node,
  Walk, Formats, boolean, double, int, string, object, array, end, field, nil, item,
}

-- upk_json_unescape_forwardslash. What the loop reads lies at or behind what it writes, so that it reads
-- the text that it was given.
unfoldable pub unescape_forwardslash : List ℕ → List ℕ
unescape_forwardslash [] = []
unescape_forwardslash (c ∷ []) = c ∷ []
unescape_forwardslash (c ∷ d ∷ cs) =
    let rest = unescape_forwardslash (d ∷ cs) in
    let skipped = d ∷ unescape_forwardslash cs in
    if c == 0x5C then (if d == 0x2F then skipped else c ∷ rest) else c ∷ rest

module _ {C : Type 0} where
  -- UPKLIST_FOREACH whose body unlinks and breaks
  unfoldable pub stack_pop : UpkList (StackNode C) → Outcome (UpkList (StackNode C))
  stack_pop meta = there (list_head meta >>= λ k. if k.thisp == null then some k else unlink k)

  unfoldable pub stack_push : StackNode C → UpkList (StackNode C) → Outcome (UpkList (StackNode C))
  stack_push node meta = there (prepend zeroed_node meta >>= set_value node)

  -- `*meta->head`
  unfoldable pub head_node : UpkList (StackNode C) → Outcome (StackNode C)
  head_node meta = there (meta.cells meta.head >>= λ n. some n.value)

  module _ {S : Type 0} (formats : Formats)
      (run : C → ℕ → Key → Val → Walk C S → Outcome (Walk C S)) where
    -- The handler, if there is one.
    abbrev pub call_handler : Option C → ℕ → Key → Val → Walk C S → Outcome (Walk C S)
    call_handler none p key v w = ok w
    call_handler (some c) p key v w = run c p key v w

    -- `if(meta->head->handlers.h) meta->head->handlers.h(meta, meta->head->data, key, v)`
    unfoldable pub handle : (Handlers C → Option C) → Key → Val → Walk C S → Outcome (Walk C S)
    unfolding head_node
    handle which key v w =
        bind (head_node w.meta) λ n. call_handler (which n.handlers) n.data_ptr key v w

    -- upk_json_value
    unfoldable pub json_value : Key → Value → Walk C S → Outcome (Walk C S)
    unfolding handle unescape_forwardslash
    json_value key Value.null w = handle (λ h. h.json_null) key zeroed w
    json_value key (boolean b) w = handle (λ h. h.json_bool) key (bl b) w
    json_value key (double d) w = handle (λ h. h.json_double) key (dbl d) w
    json_value key (int n) w = handle (λ h. h.json_int) key (i n) w
    json_value key (string s) w =
        handle (λ h. h.json_string) key (str s (unescape_forwardslash (formats.json_text s))) w
    json_value key (object fs) w = handle (λ h. h.json_object) key (obj (object fs)) w
    json_value key (array xs) w = handle (λ h. h.json_array) key (obj (array xs)) w

    -- The pop, and the handler of the node that is then the head.
    unfoldable pub after_pop : (Handlers C → Option C) → Key → Val → Walk C S → Outcome (Walk C S)
    unfolding handle stack_pop
    after_pop which key v w =
        bind (stack_pop w.meta) λ m. handle which key v (record w { meta = m })

    -- _upk_json_parse_node, upk_json_parse_obj and upk_json_parse_array
    unfoldable mutual
      unfolding json_value after_pop

      pub parse_node : Key → Value → Walk C S → Outcome (Walk C S)
      parse_node key Value.null w = json_value key Value.null w
      parse_node key (boolean b) w = json_value key (boolean b) w
      parse_node key (double d) w = json_value key (double d) w
      parse_node key (int n) w = json_value key (int n) w
      parse_node key (string s) w = json_value key (string s) w
      parse_node key (object fs) w = bind (json_value key (object fs) w) λ t.
          bind (parse_obj fs t) λ u. after_pop (λ h. h.after_json_obj_pop) key (obj (object fs)) u
      parse_node key (array xs) w = bind (json_value key (array xs) w) λ t.
          bind (parse_array xs t)
            λ u. after_pop (λ h. h.after_json_array_pop) key (obj (array xs)) u

      pub parse_obj : Fields → Walk C S → Outcome (Walk C S)
      parse_obj end w = ok w
      parse_obj (field k v fs) w = bind (parse_node (some k) v w) λ t. parse_obj fs t

      pub parse_array : Items → Walk C S → Outcome (Walk C S)
      parse_array nil w = ok w
      parse_array (item v xs) w = bind (parse_node none v w) λ t. parse_array xs t
