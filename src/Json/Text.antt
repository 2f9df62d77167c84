-- ===== src/Json/Text.antt =====
-- upk_json.c: the data of an output, and the pieces of text that go to it.
use upkeeper.Prelude.{ℕ, ◌+◌, ◌-◌, Bool, true, false, Option, none, some, List, [], ◌∷◌, ◌++◌}
use upkeeper.Prelude.{ltb, ◌==◌, ◌&&◌, if◌then◌else◌, length, take}
use upkeeper.Wire.Outcome.{Outcome, ok, fault, overrun, overread, bind, max_string_len}

-- upk_json_data_output_opts_t
pub record OutputOpts : Type 0 where
  pub pad : List ℕ
  pub indent : List ℕ
  pub sep : List ℕ
  pub suppress_null_values : Bool

-- The `str` of upk_stream_string_t: the text at `p`, if that is not NULL, how many bytes are allocated
-- there, and `len`.
pub record Str : Type 0 where
  pub p : Option (List ℕ)
  pub allocated : ℕ
  pub len : ℕ

-- upk_json_output_type_t with the member of upk_stream_string_t that it selects; of a stream, what was
-- written to it
pub data Dest : Type 0 where
  stream : List ℕ → Dest
  string : Str → Dest

-- upk_json_output_data_t
pub record OutputData : Type 0 where
  pub d : Dest
  pub opts : OutputOpts

-- `strnlen`
abbrev pub strnlen : List ℕ → ℕ → ℕ
strnlen s n = length (take n s)

abbrev is_null : Option (List ℕ) → Bool
is_null none = true
is_null (some s) = false

-- The first allocation, of the empty text.
unfoldable pub first_allocation : Str → Str
first_allocation s =
    if is_null s.p && (s.len == 0)
    then record { p = some []; allocated = 1; len = s.len + 1 }
    else s

-- `strcat` to the `n` bytes at a pointer
unfoldable pub strcat : Option (List ℕ) → ℕ → List ℕ → Outcome (List ℕ)
strcat none n text = fault overread
strcat (some s) n text = if ltb (length s + length text) n then ok (s ++ text) else fault overrun

-- `len` is that of memory that was allocated, so that it does not wrap round.
unfoldable pub append_string : List ℕ → Str → Outcome Str
unfolding first_allocation strcat
append_string text s =
    let t = first_allocation s in
    let n = t.len + strnlen text max_string_len in
    bind (strcat t.p n text) λ joined. ok (record { p = some joined; allocated = n; len = n })

-- upk_output_json_string, given the text that the format prints. `vsnprintf` leaves room for the
-- terminator in the 2047 bytes that it is told of.
unfoldable pub output_to : List ℕ → Dest → Outcome Dest
unfolding append_string
output_to text (stream out) = ok (stream (out ++ text))
output_to text (string s) =
    bind (append_string (take (max_string_len - 1 - 1) text) s) λ t. ok (string t)

unfoldable pub output_json_string : List ℕ → OutputData → Outcome OutputData
unfolding output_to
output_json_string text data_ = bind (output_to text data_.d) λ d. ok (record data_ { d = d })

-- A format that is printed without arguments. A conversion reads an argument that there is not.
unfoldable pub expanded : List ℕ → Outcome (List ℕ)
expanded [] = ok []
expanded (c ∷ []) = if c == 0x25 then fault overread else ok (c ∷ [])
expanded (c ∷ d ∷ cs) =
    let rest = expanded (d ∷ cs) in
    let escaped = expanded cs in
    if c == 0x25
    then (if d == 0x25 then bind escaped (λ t. ok (d ∷ t)) else fault overread)
    else bind rest (λ t. ok (c ∷ t))
