-- ===== src/Json/Printing.antt =====
-- upk_json.c: what the printing functions add to an output that is whole.
use upkeeper.Prelude.{ℕ, suc, zero, ◌+◌, ◌≤◌, ◌≡◌, refl, ap, ◌∙◌, inl, inr, arith}
use upkeeper.Prelude.{none, some, List, [], ◌∷◌, ◌++◌, append_assoc, length, length-append}
use upkeeper.Prelude.{ltb, lt→ltb, replicate, Bool-cases, take_long, length-take_at_most}
use upkeeper.Wire.Outcome.{Outcome, ok, bind, max_string_len, bind_then}
use upkeeper.Json.Types.{Key}
use upkeeper.Json.Text.{
  Str, output_to, Dest, stream, string, strcat, append_string, output_json_string, expanded,
  strnlen, first_allocation,
}
use upkeeper.Json.Output.{
  Printing, key_text, output, indent_loop, print_indent, print_key, print_leaf, print_name,
  print_close,
}
use upkeeper.Json.Reference.{
  Pieces, key_pieces, leaf_pieces, name_pieces, open_pieces, close_pieces, text_at, cut, held,
  extended, emitted, IsWhole, extended-IsWhole, emitted-IsWhole, emitted-append,
}

-- `append_string` of a text of at most 2048 characters needs just the bytes that it allocates.
append_string-fits :
    (t : List ℕ) (s : Str)
    → first_allocation s ≡ held (text_at s.p)
    → length t ≤ max_string_len
    → append_string t s ≡ ok (held (text_at s.p ++ t))
unfolding append_string strcat
append_string-fits t s h b =
    let e : length (text_at s.p) + 1 + length t ≡ length (text_at s.p ++ t) + 1 =
      omega (arith, length-append (text_at s.p) t) in
    rw
      (
        h,
        take_long max_string_len t b,
        lt→ltb (length (text_at s.p) + length t) (length (text_at s.p) + 1 + length t)
            (omega arith),
      )
      (λ i. ok (record { p = some (text_at s.p ++ t); allocated = e i; len = e i }))

output_to_lem : (t : List ℕ) (d : Dest) → IsWhole d → output_to t d ≡ ok (extended t d)
unfolding output_to IsWhole
output_to_lem t (stream out) h = refl
output_to_lem t (string s) h =
    rw (append_string-fits (cut t) s h (omega (arith, length-take_at_most 2046 t))) refl

-- What a printer has printed.
abbrev pub printed : Pieces → Printing → Printing
printed ts w = record w { world = record w.world { d = emitted ts w.world.d } }

output_lem : (t : List ℕ) (w : Printing) → IsWhole w.world.d → output t w ≡ ok (printed (t ∷ []) w)
unfolding output output_json_string
output_lem t w h = rw (output_to_lem t w.world.d h) refl

pub printed-printed :
    (xs ys : Pieces) (w : Printing) → printed ys (printed xs w) ≡ printed (xs ++ ys) w
printed-printed xs ys w =
    ap (λ (d : Dest). record w { world = record w.world { d = d } })
      (emitted-append xs ys w.world.d)

module _ (ind : List ℕ) where
  -- The format of the indentation prints as `ind`.
  abbrev pub Indents : Printing → Type 0
  Indents w = expanded w.world.opts.indent ≡ ok ind

  indent_loop_lem :
      (n : ℕ) (w : Printing)
      → Indents w
      → IsWhole w.world.d
      → indent_loop n w ≡ ok (printed (replicate n ind) w)
  unfolding indent_loop
  indent_loop_lem zero w x h = refl
  indent_loop_lem (suc n) w x h =
      rw (x, output_lem ind w h)
        (indent_loop_lem n (printed (ind ∷ []) w) x (extended-IsWhole ind w.world.d))

  print_indent_lem :
      (n : ℕ) (w : Printing)
      → Indents w
      → IsWhole w.world.d
      → w.meta.count ≡ suc n
      → print_indent w ≡ ok (printed (replicate n ind) w)
  unfolding print_indent
  print_indent_lem n w x h c =
      ap (λ (m : ℕ). indent_loop m w) (omega (arith, c)) ∙ indent_loop_lem n w x h

  -- A printing, and another after it.
  and_then :
      (ts us : Pieces) (w : Printing) (g : Printing → Outcome Printing) {x : Outcome Printing}
      → x ≡ ok (printed ts w)
      → g (printed ts w) ≡ ok (printed us (printed ts w))
      → bind x g ≡ ok (printed (ts ++ us) w)
  and_then ts us w g p q = bind_then g p (q ∙ ap ok (printed-printed ts us w))

  print_key_lem :
      (key : Key) (w : Printing)
      → IsWhole w.world.d
      → print_key key w ≡ ok (printed (key_pieces w.world.opts ind key) w)
  unfolding print_key
  print_key_lem none w h = refl
  print_key_lem (some key) w h = output_lem _ w h

  pub print_leaf_lem :
      (n : ℕ) (key : Key) (text : List ℕ) (w : Printing)
      → Indents w
      → IsWhole w.world.d
      → w.meta.count ≡ suc n
      → print_leaf key text w ≡ ok (printed (leaf_pieces w.world.opts ind n key text) w)
  unfolding print_leaf
  print_leaf_lem n key text w x h c =
      let spaced = printed (replicate n ind) w in
      let keyed = printed (key_pieces w.world.opts ind key) spaced in
      let h1 = emitted-IsWhole (replicate n ind) w.world.d h in
      let h2 = emitted-IsWhole (key_pieces w.world.opts ind key) spaced.world.d h1 in
      and_then (replicate n ind) _ w _ (print_indent_lem n w x h c) (
        and_then (key_pieces w.world.opts ind key) _ spaced _ (print_key_lem key spaced h1)
          (output_lem _ keyed h2))

  print_name_lem :
      (n : ℕ) (key : Key) (w : Printing)
      → Indents w
      → IsWhole w.world.d
      → w.meta.count ≡ suc n
      → print_name key w ≡ ok (printed (name_pieces w.world.opts ind n key) w)
  unfolding print_name
  print_name_lem n none w x h c = refl
  print_name_lem n (some key) w x h c = elim (Bool-cases (ltb 0 (strnlen key max_string_len))) [
    | inl e ↦ rw e (
        and_then (key_text key w.world.opts.pad w.world.opts.sep ∷ []) (replicate n ind) w _
          (output_lem _ w h)
          (print_indent_lem n (printed (key_text key w.world.opts.pad w.world.opts.sep ∷ []) w) x
            (extended-IsWhole _ w.world.d) c))
    | inr e ↦ rw e refl
  ]

  -- The text in front of the elements of an object or an array, and what is done then.
  pub print_open_lem :
      (n : ℕ) (key : Key) (bracket : ℕ) (w : Printing) (f : Printing → Outcome Printing)
      → Indents w
      → IsWhole w.world.d
      → w.meta.count ≡ suc n
      → bind
          (print_indent w)
          (λ t. bind (print_name key t) λ u. bind (output (bracket ∷ u.world.opts.sep) u) f)
        ≡ f (printed (open_pieces w.world.opts ind n key bracket) w)
  print_open_lem n key bracket w f x h c =
      let spaced = printed (replicate n ind) w in
      let named = printed (name_pieces w.world.opts ind n key) spaced in
      let h1 = emitted-IsWhole (replicate n ind) w.world.d h in
      let h2 = emitted-IsWhole (name_pieces w.world.opts ind n key) spaced.world.d h1 in
      bind_then _ (print_indent_lem n w x h c) (
        bind_then _ (print_name_lem n key spaced x h1 c) (
          bind_then _ (output_lem (bracket ∷ w.world.opts.sep) named h2) (
            ap f (
              ap (λ (v : Printing). printed ((bracket ∷ w.world.opts.sep) ∷ []) v)
                (printed-printed (replicate n ind) (name_pieces w.world.opts ind n key) w)
              ∙ printed-printed (replicate n ind ++ name_pieces w.world.opts ind n key)
                  ((bracket ∷ w.world.opts.sep) ∷ []) w
              ∙ ap (λ ts. printed ts w)
                  (append_assoc (replicate n ind) (name_pieces w.world.opts ind n key)
                    ((bracket ∷ w.world.opts.sep) ∷ []))))))

  pub print_close_lem :
      (n bracket : ℕ) (w : Printing)
      → Indents w
      → IsWhole w.world.d
      → w.meta.count ≡ suc n
      → print_close bracket w ≡ ok (printed (close_pieces w.world.opts ind n bracket) w)
  unfolding print_close
  print_close_lem n bracket w x h c =
      and_then (replicate n ind) _ w _ (print_indent_lem n w x h c)
        (output_lem _ (printed (replicate n ind) w) (emitted-IsWhole (replicate n ind) w.world.d h))
