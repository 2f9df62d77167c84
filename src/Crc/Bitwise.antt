-- ===== src/Crc/Bitwise.antt =====
-- The table of `upk_crc32` against the loop of `upk_create_crc32_table`, and against a checksum
-- that takes one bit at a time.
use upkeeper.Prelude.{ℕ, zero, suc, ◌+◌, ◌*◌, ◌/◌, ◌%◌, ◌^◌, ◌<◌, bit_xor, arith}
use native.Mathlib.Nat.{pow-suc}
use upkeeper.Prelude.{◌⊎◌, inl, inr, ◌++◌}
use upkeeper.Prelude.{◌≡◌, refl, sym, ap, ◌∙◌, List, [], ◌∷◌, append-nil, get_or, length, All, some}
use upkeeper.Prelude.Bits.{bit_xor-div_two, bit_xor-mod_two, bit_xor-zero, bit_xor_self}
use upkeeper.Prelude.Bits.{bit_xor_comm, bit_xor_assoc, bit_xor_middle, bit_xor_bound}
use upkeeper.Prelude.Bits.{bit_xor-div_pow, bit_xor_fields}
use upkeeper.Crc.{magic, crc_table, crc_round, crc_rounds, table_from, create_crc32_table}
use upkeeper.Crc.{crc_step, crc_loop, finish, crc32}

pub table_lem : crc_table ≡ create_crc32_table
unfolding crc_table create_crc32_table
table_lem = refl

get_or-table_from : (n i j : ℕ) → j < n → get_or (table_from n i) j 0 ≡ crc_rounds 8 (i + j)
unfolding table_from
get_or-table_from zero i j h = absurd (omega arith)
get_or-table_from (suc n) i zero h = ap (crc_rounds 8) (omega arith)
get_or-table_from (suc n) i (suc j) h =
    get_or-table_from n (i + 1) j (omega arith) ∙ ap (crc_rounds 8) (omega arith)

pub get_or-crc_table : (j : ℕ) → j < 256 → get_or crc_table j 0 ≡ crc_rounds 8 j
unfolding create_crc32_table
get_or-crc_table j h =
    ap (λ t. get_or t j 0) table_lem ∙ get_or-table_from 256 0 j h ∙ ap (crc_rounds 8) (omega arith)

pub round_even : (a : ℕ) → a % 2 ≡ 0 → crc_round a ≡ a / 2
unfolding crc_round
round_even a h = ground arith

pub round_odd : (a : ℕ) → a % 2 ≡ 1 → crc_round a ≡ bit_xor (a / 2) magic
unfolding crc_round
round_odd a h = ground arith

pub parity : (n : ℕ) → (n % 2 ≡ 0) ⊎ (n % 2 ≡ 1)
parity n = omega arith

-- A turn treats a sum without carries digit by digit.
round-bit_xor : (a b : ℕ) → crc_round (bit_xor a b) ≡ bit_xor (crc_round a) (crc_round b)
round-bit_xor a b = elim (parity a) [
  | inl p ↦ elim (parity b) [
    | inl q ↦
        round_even _ (omega (arith, bit_xor-mod_two a b))
        ∙ bit_xor-div_two a b
        ∙ rw (round_even a p, round_even b q) refl
    | inr q ↦
        round_odd _ (omega (arith, bit_xor-mod_two a b))
        ∙ rw (bit_xor-div_two a b, round_even a p, round_odd b q) (bit_xor_assoc _ _ _)
  ]
  | inr p ↦ elim (parity b) [
    | inl q ↦
        round_odd _ (omega (arith, bit_xor-mod_two a b))
        ∙ rw (bit_xor-div_two a b, round_odd a p, round_even b q)
            (bit_xor_assoc _ _ _
              ∙ ap (bit_xor (a / 2)) (bit_xor_comm (b / 2) magic)
              ∙ sym (bit_xor_assoc (a / 2) magic (b / 2)))
    | inr q ↦
        round_even _ (omega (arith, bit_xor-mod_two a b))
        ∙ rw (bit_xor-div_two a b, round_odd a p, round_odd b q)
            (sym (bit_xor-zero _)
              ∙ ap (bit_xor (bit_xor (a / 2) (b / 2))) (sym (bit_xor_self magic))
              ∙ bit_xor_middle (a / 2) (b / 2) magic magic)
  ]
]

rounds-bit_xor :
    (k a b : ℕ) → crc_rounds k (bit_xor a b) ≡ bit_xor (crc_rounds k a) (crc_rounds k b)
unfolding crc_rounds
rounds-bit_xor zero a b = refl
rounds-bit_xor (suc k) a b =
    ap (crc_rounds k) (round-bit_xor a b) ∙ rounds-bit_xor k (crc_round a) (crc_round b)

-- `k` turns only shift a number whose `k` low digits are 0.
rounds_shift : (k h : ℕ) → crc_rounds k (h * 2 ^ k) ≡ h
unfolding crc_rounds
rounds_shift zero h = omega arith
rounds_shift (suc k) h =
    ap (crc_rounds k) (round_even (h * 2 ^ suc k) (omega (arith, double)) ∙ omega (arith, double))
    ∙ rounds_shift k h
  where
    double : h * 2 ^ suc k ≡ 2 * (h * 2 ^ k)
    double = omega (arith, ap (λ (t : ℕ). h * t) (pow-suc 2 k))

-- Eight turns shift out the low byte and add what it leaves behind.
rounds_byte : (x : ℕ) → crc_rounds 8 x ≡ bit_xor (x / 2 ^ 8) (crc_rounds 8 (x % 2 ^ 8))
rounds_byte x =
    ap (crc_rounds 8) split
    ∙ rounds-bit_xor 8 (x / 2 ^ 8 * 2 ^ 8) (x % 2 ^ 8)
    ∙ ap (λ (t : ℕ). bit_xor t (crc_rounds 8 (x % 2 ^ 8))) (rounds_shift 8 (x / 2 ^ 8))
  where
    split : x ≡ bit_xor (x / 2 ^ 8 * 2 ^ 8) (x % 2 ^ 8)
    split = omega (arith, bit_xor_fields 8 (x / 2 ^ 8) (x % 2 ^ 8) (omega arith))

high_byte : (c b : ℕ) → b < 2 ^ 8 → bit_xor c b / 2 ^ 8 ≡ c / 2 ^ 8
high_byte c b h =
    bit_xor-div_pow 8 c b
    ∙ ap (bit_xor (c / 2 ^ 8)) (let e : b / 2 ^ 8 ≡ 0 = omega arith in e)
    ∙ bit_xor-zero (c / 2 ^ 8)

-- A step of the loop of `upk_crc32` is eight turns of the bitwise loop.
pub crc_step-rounds : (c b : ℕ) → c < 2 ^ 32 → b < 2 ^ 8 → crc_step c b ≡ crc_rounds 8 (bit_xor c b)
unfolding crc_step
crc_step-rounds c b hc hb =
    ap (λ (t : ℕ). bit_xor t (get_or crc_table (bit_xor c b % 2 ^ 8) 0)) low
    ∙ ap (bit_xor (bit_xor c b / 2 ^ 8)) (get_or-crc_table (bit_xor c b % 2 ^ 8) (omega arith))
    ∙ sym (rounds_byte (bit_xor c b))
  where
    low : c / 2 ^ 8 % 2 ^ 24 ≡ bit_xor c b / 2 ^ 8
    low = omega (arith, high_byte c b hb)

pub round_bound : (a : ℕ) → a < 2 ^ 32 → crc_round a < 2 ^ 32
round_bound a h = elim (parity a) [
  | inl p ↦ rw (round_even a p) (omega arith)
  | inr p ↦ rw (round_odd a p) (bit_xor_bound 32 (a / 2) magic (omega arith) (omega arith))
]

pub rounds_bound : (k a : ℕ) → a < 2 ^ 32 → crc_rounds k a < 2 ^ 32
unfolding crc_rounds
rounds_bound zero a h = h
rounds_bound (suc k) a h = rounds_bound k (crc_round a) (round_bound a h)

pub crc_step_bound : (c b : ℕ) → c < 2 ^ 32 → b < 2 ^ 8 → crc_step c b < 2 ^ 32
crc_step_bound c b hc hb =
    rw (crc_step-rounds c b hc hb)
      (rounds_bound 8 (bit_xor c b) (bit_xor_bound 32 c b hc (omega arith)))

abbrev pub IsByte : ℕ → Type 0
IsByte b = b < 2 ^ 8

-- The checksum one bit at a time, with no table.
abbrev pub crc_bitwise : List ℕ → ℕ → ℕ
crc_bitwise [] crc = crc
crc_bitwise (b ∷ block) crc = crc_bitwise block (crc_rounds 8 (bit_xor crc b))

crc_loop-bitwise :
    (block rest : List ℕ) (c : ℕ)
    → c < 2 ^ 32
    → All IsByte block
    → crc_loop (length block) (block ++ rest) c ≡ some (crc_bitwise block c)
unfolding crc_loop
crc_loop-bitwise [] rest c hc hb = refl
crc_loop-bitwise (b ∷ block) rest c hc (h, hb) =
    crc_loop-bitwise block rest (crc_step c b) (crc_step_bound c b hc h) hb
    ∙ ap (λ (t : ℕ). some (crc_bitwise block t)) (crc_step-rounds c b hc h)

-- `upk_crc32` on a block of bytes, whatever lies behind it, is the table-free checksum
-- with its digits flipped; the entries of `crc_table` are those of `upk_create_crc32_table`.
pub crc32-bitwise :
    (block rest : List ℕ)
    → All IsByte block
    → (crc32 (block ++ rest) (length block) ≡ some (bit_xor (crc_bitwise block 0) 0xFFFFFFFF))
      × (crc_table ≡ create_crc32_table)
unfolding crc32
crc32-bitwise block rest h = (ap finish (crc_loop-bitwise block rest 0 (omega arith) h), table_lem)

-- The checksum of a whole block of bytes.
abbrev pub checksum : List ℕ → ℕ
checksum block = bit_xor (crc_bitwise block 0) 0xFFFFFFFF

pub crc32_whole :
    (block : List ℕ) → All IsByte block → crc32 block (length block) ≡ some (checksum block)
crc32_whole block h = rw (append-nil block) at (crc32-bitwise block [] h).0

bitwise_bound :
    (block : List ℕ) (c : ℕ) → c < 2 ^ 32 → All IsByte block → crc_bitwise block c < 2 ^ 32
bitwise_bound [] c hc h = hc
bitwise_bound (b ∷ block) c hc (hb, h) =
    bitwise_bound block _ (rounds_bound 8 (bit_xor c b) (bit_xor_bound 32 c b hc (omega arith))) h

pub checksum_bound : (block : List ℕ) → All IsByte block → checksum block < 2 ^ 32
checksum_bound block h =
    bit_xor_bound 32 (crc_bitwise block 0) 0xFFFFFFFF (bitwise_bound block 0 (omega arith) h)
      (omega arith)
