-- ===== src/Wire/Write.antt =====
-- The macros of upk_protocol.h that fill a buffer.
use upkeeper.Prelude.{ℕ, zero, suc, ◌-◌, ◌/◌, ◌%◌, ◌^◌, Bool, true, false}
use upkeeper.Prelude.{List, [], ◌∷◌, ◌++◌, leb, ◌==◌, if◌then◌else◌, length, take, replicate}
use upkeeper.Wire.Outcome.{Outcome, ok, fault, overrun, overread, bind, max_string_len}

-- A buffer that is being filled: the bytes before the write pointer, and the room behind it.
pub record Out : Type 0 where
  pub written : List ℕ
  pub room : ℕ

abbrev pub Writer : Type 0
Writer = Out → Outcome Out

infixl 5 ◌>>◌
abbrev pub ◌>>◌ : Writer → Writer → Writer
◌>>◌ v w o = bind (v o) w

-- htonl, as the four bytes that are copied
unfoldable pub be32 : ℕ → List ℕ
be32 v = v / 2 ^ 24 % 2 ^ 8 ∷ v / 2 ^ 16 % 2 ^ 8 ∷ v / 2 ^ 8 % 2 ^ 8 ∷ v % 2 ^ 8 ∷ []

unfoldable pub bool_byte : Bool → ℕ
bool_byte true = 1
bool_byte false = 0

-- strnlen on an array: the bytes before the first zero, `n` at most.
unfoldable pub strnlen : List ℕ → ℕ → ℕ
strnlen [] n = 0
strnlen (c ∷ s) zero = 0
strnlen (c ∷ s) (suc n) = let rest = strnlen s n in if c == 0 then 0 else suc rest

-- The first `n` bytes of an array, the zeros that fill it included.
unfoldable pub front : ℕ → List ℕ → List ℕ
front zero s = []
front (suc n) [] = 0 ∷ front n []
front (suc n) (c ∷ s) = c ∷ front n s

-- memcpy to the write pointer
unfoldable pub put_bytes : List ℕ → Writer
put_bytes bs o =
    if leb (length bs) o.room
    then ok (record { written = o.written ++ bs; room = o.room - length bs })
    else fault overrun

-- UPK_PUT_UINT32, UPK_PUT_ENUM
unfoldable pub put_uint32 : ℕ → Writer
put_uint32 v = put_bytes (be32 v)

-- UPK_PUT_BOOL
unfoldable pub put_bool : Bool → Writer
put_bool b = put_bytes (bool_byte b ∷ [])

-- UPK_PUT_STRING
unfoldable pub put_string : List ℕ → Writer
put_string s = put_bytes (front (strnlen s max_string_len) s)

-- UPK_PUT_ARRAY from an array of UPK_MAX_STRING_LEN bytes
unfoldable pub put_array : List ℕ → ℕ → Writer
put_array s n o = if leb n max_string_len then put_bytes (front n s) o else fault overread

-- UPK_PUT_DATA_FROM_BUF
unfoldable pub put_data_from_buf : List ℕ → ℕ → Writer
put_data_from_buf data_buf n o =
    if leb n (length data_buf) then put_bytes (take n data_buf) o else fault overread

-- `calloc(1, len)`, what `w` writes, and the zeros behind it.
unfoldable pub finished : Outcome Out → Outcome (List ℕ)
finished r = bind r (λ o. ok (o.written ++ replicate o.room 0))

unfoldable pub run_writer : Writer → ℕ → Outcome (List ℕ)
unfolding finished
run_writer w len = finished (w (record { written = []; room = len }))
