-- ===== src/Wire/Bytes.antt =====
-- The byte forms of numbers, flags and strings.
use upkeeper.Prelude.{ℕ, zero, suc, ◌/◌, ◌%◌, ◌^◌, ◌≤◌, ◌<◌, arith}
use upkeeper.Prelude.{◌≡◌, refl, ap, List, [], ◌∷◌, length, All}
use upkeeper.Wire.Outcome.{max_string_len}
use upkeeper.Wire.Write.{be32, strnlen, front}
use upkeeper.Wire.Read.{from_be32}

pub from_be32-be32 :
    (v : ℕ)
    → v < 2 ^ 32
    → from_be32 (v / 2 ^ 24 % 2 ^ 8) (v / 2 ^ 16 % 2 ^ 8) (v / 2 ^ 8 % 2 ^ 8) (v % 2 ^ 8) ≡ v
unfolding from_be32
from_be32-be32 v h = omega arith

pub be32_bytes : (v : ℕ) → All (λ b. b < 2 ^ 8) (be32 v)
unfolding be32
be32_bytes v = omega arith

-- The text of a `char[UPK_MAX_STRING_LEN]` that holds no zero byte before its end.
pub record IsText (s : List ℕ) : Type 0 where
  pub chars : All (λ c. (0 < c) × (c < 2 ^ 8)) s
  pub fits : length s ≤ max_string_len

pub strnlen-text :
    (s : List ℕ) (n : ℕ)
    → All (λ c. (0 < c) × (c < 2 ^ 8)) s
    → length s ≤ n
    → strnlen s n ≡ length s
unfolding strnlen
strnlen-text [] n h le = refl
strnlen-text (c ∷ s) zero h le = absurd (omega arith)
strnlen-text (c ∷ s) (suc n) ((p, q), h) le = ground (arith, strnlen-text s n h (omega arith))

pub front-length : (s : List ℕ) → front (length s) s ≡ s
unfolding front
front-length [] = refl
front-length (c ∷ s) = ap (λ t. c ∷ t) (front-length s)

pub length-front : (n : ℕ) (s : List ℕ) → length (front n s) ≡ n
unfolding front
length-front zero s = refl
length-front (suc n) [] = ap suc (length-front n [])
length-front (suc n) (c ∷ s) = ap suc (length-front n s)
