-- ===== src/Json/Output.antt =====
-- upk_json.c: the handlers that print a value, and the serializer.
--
-- All nodes of the stack share one `data`, whose address is `output_ptr`.
use upkeeper.Prelude.{ℕ, suc, zero, ◌+◌, ◌-◌, Bool, Option, none, some, List, [], ◌∷◌, ◌++◌}
use upkeeper.Prelude.{ltb, ◌==◌, if◌then◌else◌}
use upkeeper.Wire.Outcome.{Outcome, ok, fault, overread, dangling, bind, there, max_string_len}
use upkeeper.LinkedList.Macros.{Ptr, null, UpkList, clear}
use upkeeper.Json.Types.{Key, Value, Val, bl, dbl, i, str, StackNode, Walk, Formats}
use upkeeper.Json.Walking.{stack_push, head_node, parse_node}
use upkeeper.Json.Text.{
  OutputOpts, OutputData, Dest, stream, string, strnlen, output_json_string, expanded,
}

-- The functions that print: upk_json_output_ and the name.
pub data Printer : Type 0 where
  null_handler bool_handler double_handler int_handler string_handler : Printer
  array_handler object_handler after_json_obj_pop_handler after_json_array_pop_handler : Printer

abbrev pub Printing : Type 0
Printing = Walk Printer OutputData

abbrev pub output_ptr : Ptr
output_ptr = 1

-- `"%s"%s:%s`
abbrev pub key_text : List ℕ → List ℕ → List ℕ → List ℕ
key_text key pad after = (0x22 ∷ key) ++ ((0x22 ∷ pad) ++ ((0x3A ∷ []) ++ after))

abbrev pub null_text : List ℕ
null_text = 0x4E ∷ 0x75 ∷ 0x6C ∷ 0x6C ∷ []

abbrev pub bool_text : Bool → List ℕ
bool_text b = if b then 0x74 ∷ 0x72 ∷ 0x75 ∷ 0x65 ∷ [] else 0x66 ∷ 0x61 ∷ 0x6C ∷ 0x73 ∷ 0x65 ∷ []

-- `%s,%s`
abbrev pub ended_text : List ℕ → List ℕ → List ℕ
ended_text text sep = text ++ (0x2C ∷ sep)

-- A call of upk_output_json_string on the shared data.
unfoldable pub output : List ℕ → Printing → Outcome Printing
unfolding output_json_string
output text w = bind (output_json_string text w.world) λ d. ok (record w { world = d })

-- The loop of upk_json_print_indent, with the rounds that are left.
unfoldable pub indent_loop : ℕ → Printing → Outcome Printing
unfolding output expanded
indent_loop zero w = ok w
indent_loop (suc n) w =
    bind (expanded w.world.opts.indent) λ text. bind (output text w) λ t. indent_loop n t

unfoldable pub print_indent : Printing → Outcome Printing
unfolding indent_loop
print_indent w = indent_loop (w.meta.count - 1) w

-- `if(key)`, and the key
unfoldable pub print_key : Key → Printing → Outcome Printing
unfolding output
print_key none w = ok w
print_key (some key) w = output (key_text key w.world.opts.pad w.world.opts.pad) w

-- What the handlers of the values that hold no others have in common.
unfoldable pub print_leaf : Key → List ℕ → Printing → Outcome Printing
unfolding print_indent print_key output
print_leaf key text w =
    bind (print_indent w)
      λ t. bind (print_key key t) λ u. output (ended_text text u.world.opts.sep) u

-- `if(key && strnlen(key, UPK_MAX_STRING_LEN) > 0)`, and the key on a line of its own
unfoldable pub print_name : Key → Printing → Outcome Printing
unfolding output print_indent
print_name none w = ok w
print_name (some key) w =
    if ltb 0 (strnlen key max_string_len)
    then bind (output (key_text key w.world.opts.pad w.world.opts.sep) w) print_indent
    else ok w

-- What the handlers of arrays and objects have in common: the bracket, and one more node that is like
-- the head.
unfoldable pub print_open : Key → ℕ → Printing → Outcome Printing
unfolding print_indent print_name output head_node stack_push
print_open key bracket w = bind (print_indent w) λ t. bind (print_name key t) λ u.
    bind (output (bracket ∷ u.world.opts.sep) u)
      λ o. bind (head_node o.meta) λ n. bind (stack_push n o.meta) λ m. ok (record o { meta = m })

unfoldable pub print_close : ℕ → Printing → Outcome Printing
unfolding print_indent output
print_close bracket w = bind (print_indent w) λ t. output (bracket ∷ 0x2C ∷ t.world.opts.sep) t

-- A member of the union. Another one than the last written would read what lies there.
abbrev member_bl : Val → Outcome Bool
member_bl (bl b) = ok b
member_bl _ = fault overread

abbrev member_dbl : Val → Outcome ℕ
member_dbl (dbl d) = ok d
member_dbl _ = fault overread

abbrev member_i : Val → Outcome ℕ
member_i (i n) = ok n
member_i _ = fault overread

abbrev member_esc_str : Val → Outcome (List ℕ)
member_esc_str (str s e) = ok e
member_esc_str _ = fault overread

unfoldable pub null_output : Key → Printing → Outcome Printing
unfolding print_leaf
null_output key w = if w.world.opts.suppress_null_values then ok w else print_leaf key null_text w

abbrev pub initial_node : StackNode Printer
initial_node = record {
  data_ptr = output_ptr;
  handlers = record {
    json_null = some null_handler;
    json_bool = some bool_handler;
    json_double = some double_handler;
    json_int = some int_handler;
    json_string = some string_handler;
    json_array = some array_handler;
    json_object = some object_handler;
    after_json_obj_pop = some after_json_obj_pop_handler;
    after_json_array_pop = some after_json_array_pop_handler;
  };
}

-- The metanode that `calloc` gives, on an empty heap.
abbrev pub no_nodes : UpkList (StackNode Printer)
no_nodes = record {
  head = null;
  tail = null;
  prevp = null;
  nextp = null;
  tempp = null;
  thisp = null;
  count = 0;
  cells = λ p. none;
  brk = 1;
}

-- The text; an output that is not a string has no `str.p`.
abbrev pub held_text : Dest → Outcome (Option (List ℕ))
held_text (string s) = ok s.p
held_text (stream out) = fault overread

abbrev pub streamed : Dest → Outcome (List ℕ)
streamed (string s) = fault overread
streamed (stream out) = ok out

module _ (formats : Formats) where
  -- The handlers upk_json_output_..., by their codes
  unfoldable pub print : Printer → ℕ → Key → Val → Printing → Outcome Printing
  unfolding null_output print_leaf print_open print_close
  print h p key v w =
      if p == output_ptr
      then elim h [
        | null_handler ↦ null_output key w
        | bool_handler ↦ bind (member_bl v) λ b. print_leaf key (bool_text b) w
        | double_handler ↦ bind (member_dbl v) λ d. print_leaf key (formats.double_text d) w
        | int_handler ↦ bind (member_i v) λ n. print_leaf key (formats.int_text n) w
        | string_handler ↦ bind (member_esc_str v) λ text. print_leaf key text w
        | array_handler ↦ print_open key 0x5B w
        | object_handler ↦ print_open key 0x7B w
        | after_json_obj_pop_handler ↦ print_close 0x7D w
        | after_json_array_pop_handler ↦ print_close 0x5D w
      ]
      else fault dangling

  -- The data afterwards. UPKLIST_FREE has one round for each node.
  unfoldable pub obj_serializer : Value → OutputData → Outcome OutputData
  unfolding stack_push print
  obj_serializer v d = bind (stack_push initial_node no_nodes) λ m.
      bind (parse_node formats print none v (record { meta = m; world = d }))
        λ w. bind (there (clear (w.meta.count + 1) w.meta)) λ gone. ok w.world

  unfoldable pub obj_to_string : Value → OutputOpts → Outcome (Option (List ℕ))
  unfolding obj_serializer
  obj_to_string v opts =
      bind
        (obj_serializer v
          (record { d = string (record { p = none; allocated = 0; len = 0 }); opts = opts }))
        λ d. held_text d.d

  -- What the stream has afterwards, of which `out` had been written.
  unfoldable pub obj_to_stream : Value → List ℕ → OutputOpts → Outcome (List ℕ)
  unfolding obj_serializer
  obj_to_stream v out opts =
      bind (obj_serializer v (record { d = stream out; opts = opts })) λ d. streamed d.d
