-- ===== src/Json/Whole.antt =====
-- upk_json.c: what `upk_json_obj_to_stream` and `upk_json_obj_to_string` return.
use upkeeper.Prelude.{
  ℕ, ◌+◌, ◌^◌, ◌<◌, ◌≡◌, refl, sym, ap, ◌∙◌, arith, Option, none, some, List, [],
}
use upkeeper.Prelude.{◌∷◌, ◌++◌, append_assoc, append-nil}
use upkeeper.Wire.Outcome.{ok, bind_then, there}
use upkeeper.LinkedList.Stack.{IsStack}
use upkeeper.LinkedList.Clear.{clear_stack}
use upkeeper.Json.Types.{Value, Formats}
use upkeeper.Json.Text.{OutputOpts, OutputData, stream, string, expanded, first_allocation}
use upkeeper.Json.Output.{
  initial_node, no_nodes, obj_serializer, obj_to_string, obj_to_stream, held_text, streamed,
}
use upkeeper.Json.Reference.{Pieces, pieces, depth, emitted, IsWhole, cut, held}
use upkeeper.Json.Balance.{stack_push-IsStack}
use upkeeper.Json.Serializing.{prints}

abbrev pub concat : Pieces → List ℕ
concat [] = []
concat (t ∷ ts) = t ++ concat ts

-- Every piece cut to 2046 characters
abbrev pub concat_cut : Pieces → List ℕ
concat_cut [] = []
concat_cut (t ∷ ts) = cut t ++ concat_cut ts

-- NULL if nothing is printed
abbrev pub string_of : Pieces → Option (List ℕ)
string_of [] = none
string_of (t ∷ ts) = some (concat_cut (t ∷ ts))

no_nodes-IsStack : IsStack no_nodes []
no_nodes-IsStack = record {
  chain = tt;
  head = refl;
  count = refl;
  below = tt;
  distinct = tt;
  not_null = omega arith;
}

emitted-stream : (ts : Pieces) (out : List ℕ) → emitted ts (stream out) ≡ stream (out ++ concat ts)
emitted-stream [] out = ap stream (sym (append-nil out))
emitted-stream (t ∷ ts) out =
    emitted-stream ts (out ++ t) ∙ ap stream (append_assoc out t (concat ts))

emitted-held :
    (ts : Pieces) (s : List ℕ) → emitted ts (string (held s)) ≡ string (held (s ++ concat_cut ts))
emitted-held [] s = ap (λ t. string (held t)) (sym (append-nil s))
emitted-held (t ∷ ts) s =
    emitted-held ts (s ++ cut t)
    ∙ ap (λ u. string (held u)) (append_assoc s (cut t) (concat_cut ts))

module _ (formats : Formats) (ind : List ℕ) where
  -- The whole serializer, on an output that is whole.
  obj_serializer_lem :
      (v : Value) (d : OutputData)
      → expanded d.opts.indent ≡ ok ind
      → depth v + 1 < 2 ^ 32
      → IsWhole d.d
      → obj_serializer formats v d
        ≡ ok (record d { d = emitted (pieces formats d.opts ind 0 none v) d.d })
  unfolding obj_serializer
  obj_serializer_lem v d x b h =
      let (m, e, s) = stack_push-IsStack initial_node no_nodes [] no_nodes-IsStack (omega arith) in
      let (k, p, t) =
        prints formats ind v none (record { meta = m; world = d }) _ []
          (record { stack = s; indents = x; whole = h }) (omega arith) in
      let (gone, q) = clear_stack (k.count + 1) k _ (omega (arith, t.count)) t (omega arith) in
      bind_then _ e (bind_then _ p (bind_then _ (ap there q.0) refl))

  -- If the indentation prints as `ind` and the value is less than 2 ^ 32 - 1 deep,
  -- `upk_json_obj_to_stream` returns, and writes the reference text of the value behind what was there.
  pub obj_to_stream_lem :
      (v : Value) (out : List ℕ) (opts : OutputOpts)
      → expanded opts.indent ≡ ok ind
      → depth v + 1 < 2 ^ 32
      → obj_to_stream formats v out opts ≡ ok (out ++ concat (pieces formats opts ind 0 none v))
  unfolding obj_to_stream IsWhole
  obj_to_stream_lem v out opts x b =
      bind_then _ (obj_serializer_lem v _ x b tt)
        (ap streamed (emitted-stream (pieces formats opts ind 0 none v) out))

  -- Under the same conditions `upk_json_obj_to_string` returns without a write past what it allocated;
  -- the text is that of the reference with every piece cut to 2046 characters, or NULL if there is no
  -- piece.
  pub obj_to_string_lem :
      (v : Value) (opts : OutputOpts)
      → expanded opts.indent ≡ ok ind
      → depth v + 1 < 2 ^ 32
      → obj_to_string formats v opts ≡ ok (string_of (pieces formats opts ind 0 none v))
  unfolding obj_to_string IsWhole first_allocation
  obj_to_string_lem v opts x b =
      bind_then _ (obj_serializer_lem v _ x b refl) (texts (pieces formats opts ind 0 none v))
    where
      texts :
          (ts : Pieces)
          → held_text (emitted ts (string (record { p = none; allocated = 0; len = 0 })))
            ≡ ok (string_of ts)
      texts [] = refl
      texts (t ∷ ts) = ap held_text (emitted-held ts (cut t))
