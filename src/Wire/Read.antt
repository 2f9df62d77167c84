-- ===== src/Wire/Read.antt =====
-- The macros of upk_protocol.h that read a buffer.
use upkeeper.Prelude.{ℕ, ◌+◌, ◌*◌, ◌^◌, Bool, not}
use upkeeper.Prelude.{List, [], ◌∷◌, leb, ◌==◌, if◌then◌else◌, length, take, drop}
use upkeeper.Wire.Outcome.{Outcome, ok, fault, overrun, overread, bind, max_string_len}

-- Reading: the list is what lies behind the read pointer.
abbrev pub Reader : Type 0 → Type 0
Reader A = List ℕ → Outcome (A × List ℕ)

infixl 5 ◌>>=◌ ◌>>◌
abbrev pub ◌>>=◌ : {A B : Type 0} → Reader A → (A → Reader B) → Reader B
◌>>=◌ r f bs = bind (r bs) (λ p. f p.0 p.1)

abbrev pub ◌>>◌ : {B : Type 0} → Reader (Unit {0}) → Reader B → Reader B
◌>>◌ r k bs = bind (r bs) (λ p. k p.1)

abbrev pub pure : {A : Type 0} → A → Reader A
pure a bs = ok (a, bs)

abbrev pub lift : {A : Type 0} → Outcome A → Reader A
lift m bs = bind m (λ a. ok (a, bs))

-- ntohl
unfoldable pub from_be32 : ℕ → ℕ → ℕ → ℕ → ℕ
from_be32 a b c d = a * 2 ^ 24 + b * 2 ^ 16 + c * 2 ^ 8 + d

-- UPK_FETCH_UINT32, UPK_FETCH_ENUM
unfoldable pub fetch_uint32 : Reader ℕ
fetch_uint32 (a ∷ b ∷ c ∷ d ∷ rest) = ok (from_be32 a b c d, rest)
fetch_uint32 _ = fault overread

-- UPK_FETCH_BOOL
unfoldable pub fetch_bool : Reader Bool
fetch_bool [] = fault overread
fetch_bool (b ∷ rest) = ok (not (b == 0), rest)

-- UPK_FETCH_DATA_TO_BUF: the new buffer has `n` bytes.
unfoldable pub fetch_data : ℕ → Reader (List ℕ)
fetch_data n bs = if leb n (length bs) then ok (take n bs, drop n bs) else fault overread

-- UPK_FETCH_STRING and UPK_FETCH_ARRAY, into an array of UPK_MAX_STRING_LEN bytes
unfoldable pub fetch_string : ℕ → Reader (List ℕ)
fetch_string n bs = if leb n max_string_len then fetch_data n bs else fault overrun
