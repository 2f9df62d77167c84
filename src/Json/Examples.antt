-- ===== src/Json/Examples.antt =====
-- The json theorems at concrete inputs.
use upkeeper.Prelude.{ℕ, ◌+◌, ◌-◌, ◌%◌, ◌^◌, ◌≡◌, ◌≢◌, refl, arith, true, none, List, [], ◌∷◌, ◌++◌}
use upkeeper.Prelude.{All, length, ◌==◌, if◌then◌else◌}
use upkeeper.Wire.Outcome.{Outcome, ok}
use upkeeper.LinkedList.Macros.{
  UpkList, prepend, prepend_this, set_value, list_head, foreach_init, unlink, clear, foreach,
  foreach_continue,
}
use upkeeper.LinkedList.Chain.{node}
use upkeeper.LinkedList.Stack.{IsStack}
use upkeeper.Json.Types.{
  Key, Value, int, string, object, array, end, field, nil, item, Formats, Val, StackNode, Walk,
  zeroed_node,
}
use upkeeper.Json.Text.{OutputOpts, expanded}
use upkeeper.Json.Walking.{unescape_forwardslash, parse_node, call_handler}
use upkeeper.Json.Output.{obj_to_stream, obj_to_string}
use upkeeper.Json.Reference.{pieces, depth}
use upkeeper.Json.Whole.{concat, string_of, obj_to_stream_lem, obj_to_string_lem}
use upkeeper.Json.Escapes.{written_with, escaped_slash, unescape-escaped}
use upkeeper.Json.Parsing.{parse_error, stopped_after, newlines, parse_error-position}
use upkeeper.Json.Unpushed.{object-unhandled}

-- A printed number is one digit, and json-c's text of a string is the string between quotes.
abbrev formats : Formats
formats = record {
  json_text = λ s. 0x22 ∷ (s ++ (0x22 ∷ []));
  int_text = λ n. (0x30 + n) ∷ [];
  double_text = λ n. (0x30 + n) ∷ 0x2E ∷ 0x30 ∷ [];
}

-- Two spaces of indentation, a newline behind each value.
abbrev opts : OutputOpts
opts = record {
  pad = 0x20 ∷ [];
  indent = 0x20 ∷ 0x20 ∷ [];
  sep = 0x0A ∷ [];
  suppress_null_values = true;
}

-- {"a": [1, null, "/"], "b": {}}
abbrev config : Value
config = object (
    field (0x61 ∷ [])
      (array (item (int 1) (item Value.null (item (string (0x5C ∷ 0x2F ∷ [])) nil))))
      (field (0x62 ∷ []) (object end) end))

obj_to_stream_example :
    obj_to_stream formats config (0x3E ∷ []) opts
    ≡ ok ((0x3E ∷ []) ++ concat (pieces formats opts (0x20 ∷ 0x20 ∷ []) 0 none config))
unfolding expanded depth
obj_to_stream_example =
    obj_to_stream_lem formats (0x20 ∷ 0x20 ∷ []) config (0x3E ∷ []) opts refl (omega arith)

obj_to_string_example :
    obj_to_string formats config opts
    ≡ ok (string_of (pieces formats opts (0x20 ∷ 0x20 ∷ []) 0 none config))
unfolding expanded depth
obj_to_string_example = obj_to_string_lem formats (0x20 ∷ 0x20 ∷ []) config opts refl (omega arith)

-- The two serializers run.
printed_text :
    obj_to_stream formats (array (item (int 7) nil)) [] opts
    ≡ ok (0x5B ∷ 0x0A ∷ 0x20 ∷ 0x20 ∷ 0x37 ∷ 0x2C ∷ 0x0A ∷ 0x5D ∷ 0x2C ∷ 0x0A ∷ [])
unfolding obj_to_stream prepend prepend_this set_value parse_node list_head foreach_init unlink
    clear foreach foreach_continue
printed_text = refl

nothing_printed : obj_to_string formats Value.null opts ≡ ok none
unfolding obj_to_string prepend prepend_this set_value parse_node clear foreach_init foreach unlink
    foreach_continue
nothing_printed = refl

-- json's escape of a backslash, and any other character as it is
abbrev write : ℕ → List ℕ
write c = if c == 0x5C then 0x5C ∷ 0x5C ∷ [] else (if c == 0x2F then [] else c ∷ [])

write-plain : (c : ℕ) → All (λ d. d ≢ 0x2F) (write c)
write-plain c = ground arith

unescape_example :
    unescape_forwardslash
      (0x22 ∷ (written_with write escaped_slash (0x5C ∷ 0x2F ∷ 0x61 ∷ []) ++ (0x22 ∷ [])))
    ≡ 0x22 ∷ (written_with write (0x2F ∷ []) (0x5C ∷ 0x2F ∷ 0x61 ∷ []) ++ (0x22 ∷ []))
unescape_example = unescape-escaped write write-plain (0x5C ∷ 0x2F ∷ 0x61 ∷ [])

-- `x`, a newline, `yz`
abbrev top_line : List ℕ
top_line = 0x78 ∷ []

abbrev next_line : List ℕ
next_line = 0x79 ∷ 0x7A ∷ []

parse_error_example :
    (let e =
        parse_error
          ((top_line ++ (0x0A ∷ next_line)) ++ top_line)
          (stopped_after Value.null 3 (length (top_line ++ (0x0A ∷ next_line)))) in
      (e.line ≡ newlines top_line + 2) × (e.column ≡ length next_line))
    × (let e =
          parse_error (next_line ++ top_line) (stopped_after Value.null 3 (length next_line)) in
        (e.line ≡ 1) × (e.column ≡ (length next_line + 2 ^ 32 - 1) % 2 ^ 32))
parse_error_example =
    parse_error-position Value.null 3 top_line next_line top_line (ground arith, (ground arith, tt))
      (omega arith) (omega arith)

-- Two nodes without handlers.
abbrev two_nodes : UpkList (StackNode ℕ)
two_nodes = record {
  head = 2;
  tail = 0;
  prevp = 0;
  nextp = 0;
  tempp = 2;
  thisp = 2;
  count = 2;
  cells = λ p. if p == 2 then node 1 zeroed_node else (if p == 1 then node 0 zeroed_node else none);
  brk = 3;
}

abbrev nothing_run : ℕ → ℕ → Key → Val → Walk ℕ ℕ → Outcome (Walk ℕ ℕ)
nothing_run c p key v w = ok w

two_nodes-IsStack : IsStack two_nodes ((2, zeroed_node) ∷ (1, zeroed_node) ∷ [])
two_nodes-IsStack = record {
  chain = (refl, λ e. omega arith, (refl, λ e. omega arith, tt));
  head = refl;
  count = refl;
  below = (omega arith, (omega arith, tt));
  distinct = ((λ e. omega arith, tt), (tt, tt));
  not_null = omega arith;
}

object-unhandled_example :
    (k : UpkList (StackNode ℕ)) × IsStack k ((1, zeroed_node) ∷ [])
    × (parse_node formats nothing_run none (object end) (record { meta = two_nodes; world = 0 })
        ≡ call_handler formats nothing_run none 0 none
            (Val.obj (object end))
            (record { meta = k; world = 0 }))
object-unhandled_example =
    object-unhandled formats nothing_run none (record { meta = two_nodes; world = 0 })
      (2, zeroed_node) (1, zeroed_node) [] two_nodes-IsStack (omega arith) refl
