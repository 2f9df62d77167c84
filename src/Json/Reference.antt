-- ===== src/Json/Reference.antt =====
-- The json text of a value, by recursion on the value alone: the pieces of text, one for each call of
-- upk_output_json_string, and what an output holds after them.
use upkeeper.Prelude.{ℕ, suc, ◌+◌, ◌-◌, ◌≡◌, refl, Option, none, some, List, [], ◌∷◌, ◌++◌}
use upkeeper.Prelude.{ltb, if◌then◌else◌, length, take, replicate, max}
use upkeeper.Wire.Outcome.{max_string_len}
use upkeeper.Json.Types.{
  Key, Value, Fields, Items, boolean, double, int, object, array, end, field, nil, item, Formats,
}
use upkeeper.Json.Walking.{unescape_forwardslash}
use upkeeper.Json.Text.{OutputOpts, Dest, stream, string, Str, strnlen, first_allocation}
use upkeeper.Json.Output.{key_text, null_text, bool_text, ended_text}

abbrev pub Pieces : Type 0
Pieces = List (List ℕ)

module _ (opts : OutputOpts) (ind : List ℕ) where
  abbrev pub key_pieces : Key → Pieces
  key_pieces none = []
  key_pieces (some key) = key_text key opts.pad opts.pad ∷ []

  abbrev pub leaf_pieces : ℕ → Key → List ℕ → Pieces
  leaf_pieces n key text = replicate n ind ++ (key_pieces key ++ (ended_text text opts.sep ∷ []))

  abbrev pub name_pieces : ℕ → Key → Pieces
  name_pieces n none = []
  name_pieces n (some key) =
      if ltb 0 (strnlen key max_string_len)
      then key_text key opts.pad opts.sep ∷ replicate n ind
      else []

  abbrev pub open_pieces : ℕ → Key → ℕ → Pieces
  open_pieces n key bracket = replicate n ind ++ (name_pieces n key ++ ((bracket ∷ opts.sep) ∷ []))

  abbrev pub close_pieces : ℕ → ℕ → Pieces
  close_pieces n bracket = replicate n ind ++ ((bracket ∷ 0x2C ∷ opts.sep) ∷ [])

module _ (formats : Formats) (opts : OutputOpts) (ind : List ℕ) where
  -- At `n` indents.
  unfoldable mutual
    unfolding unescape_forwardslash

    pub pieces : ℕ → Key → Value → Pieces
    pieces n key Value.null =
        if opts.suppress_null_values then [] else leaf_pieces opts ind n key null_text
    pieces n key (boolean b) = leaf_pieces opts ind n key (bool_text b)
    pieces n key (double d) = leaf_pieces opts ind n key (formats.double_text d)
    pieces n key (int k) = leaf_pieces opts ind n key (formats.int_text k)
    pieces n key (Value.string s) =
        leaf_pieces opts ind n key (unescape_forwardslash (formats.json_text s))
    pieces n key (object fs) =
        open_pieces opts ind n key 0x7B ++ (field_pieces (suc n) fs ++ close_pieces opts ind n 0x7D)
    pieces n key (array xs) =
        open_pieces opts ind n key 0x5B ++ (item_pieces (suc n) xs ++ close_pieces opts ind n 0x5D)

    pub field_pieces : ℕ → Fields → Pieces
    field_pieces n end = []
    field_pieces n (field k v fs) = pieces n (some k) v ++ field_pieces n fs

    pub item_pieces : ℕ → Items → Pieces
    item_pieces n nil = []
    item_pieces n (item v xs) = pieces n none v ++ item_pieces n xs

-- How many nodes a value puts on the stack.
unfoldable mutual
  pub depth : Value → ℕ
  depth (object fs) = suc (depth_fields fs)
  depth (array xs) = suc (depth_items xs)
  depth _ = 0

  pub depth_fields : Fields → ℕ
  depth_fields end = 0
  depth_fields (field k v fs) = max (depth v) (depth_fields fs)

  pub depth_items : Items → ℕ
  depth_items nil = 0
  depth_items (item v xs) = max (depth v) (depth_items xs)

abbrev pub text_at : Option (List ℕ) → List ℕ
text_at none = []
text_at (some s) = s

-- The first 2046 characters of a piece
abbrev pub cut : List ℕ → List ℕ
cut piece = take (max_string_len - 1 - 1) piece

-- A string that is held in exactly as many bytes as it needs.
abbrev pub held : List ℕ → Str
held s = record { p = some s; allocated = length s + 1; len = length s + 1 }

-- What an output holds after a piece, and after some.
abbrev pub extended : List ℕ → Dest → Dest
extended piece (stream out) = stream (out ++ piece)
extended piece (string s) = string (held (text_at s.p ++ cut piece))

abbrev pub emitted : Pieces → Dest → Dest
emitted [] d = d
emitted (t ∷ ts) d = emitted ts (extended t d)

-- A string that is not yet allocated, or held in exactly the bytes that it needs.
unfoldable pub IsWhole : Dest → Type 0
unfolding first_allocation
IsWhole (stream out) = Unit
IsWhole (string s) = first_allocation s ≡ held (text_at s.p)

pub extended-IsWhole : (t : List ℕ) (d : Dest) → IsWhole (extended t d)
unfolding IsWhole first_allocation
extended-IsWhole t (stream out) = tt
extended-IsWhole t (string s) = refl

pub emitted-IsWhole : (ts : Pieces) (d : Dest) → IsWhole d → IsWhole (emitted ts d)
emitted-IsWhole [] d h = h
emitted-IsWhole (t ∷ ts) d h = emitted-IsWhole ts (extended t d) (extended-IsWhole t d)

pub emitted-append : (xs ys : Pieces) (d : Dest) → emitted ys (emitted xs d) ≡ emitted (xs ++ ys) d
emitted-append [] ys d = refl
emitted-append (x ∷ xs) ys d = emitted-append xs ys (extended x d)
