-- ===== src/Prelude/Bits.antt =====
-- Laws of `bit_xor` at variables, from the equation for the lowest digit.
use Prim.Native.Nat.{ℕ, zero, suc, ◌+◌, ◌-◌, ◌*◌, ◌/◌, ◌%◌, ◌^◌, ◌≤◌, ◌<◌, bit_xor}
use Prim.Native.Nat.{digits, differ, bit_xor-bitwise}
use mathlib.Core.Path.{◌≡◌, refl, sym, ap, ◌∙◌}
use native.Mathlib.Nat.{pow-suc, le_refl, mul_comm, div-div-eq-div-mul}
use native.Mathlib.Omega.{arith}

abbrev xor_digits : ℕ → ℕ → ℕ → ℕ
xor_digits n a b = digits (λ y. y) differ n a b

one_more : (n a b : ℕ) → a ≤ n → xor_digits (suc n) a b ≡ xor_digits n a b
one_more zero zero b h = refl
one_more zero (suc a) b h = absurd (omega arith)
one_more (suc n) zero b h = refl
one_more (suc n) (suc a) b h = rw (one_more n (suc a / 2) (b / 2) (omega arith))

some_more : (extra n a b : ℕ) → n ≡ extra + a → xor_digits n a b ≡ xor_digits a a b
some_more zero n a b e = ap (λ (t : ℕ). xor_digits t a b) (omega arith)
some_more (suc extra) n a b e =
    let split : n ≡ suc (extra + a) = omega arith in
    ap (λ (t : ℕ). xor_digits t a b) split
    ∙ one_more (extra + a) a b (omega arith)
    ∙ some_more extra (extra + a) a b refl

-- Fuel beyond the first number changes nothing.
enough_digits : (n a b : ℕ) → a ≤ n → xor_digits n a b ≡ xor_digits a a b
enough_digits n a b h = some_more (n - a) n a b (omega arith)

differ_digits : (x y : ℕ) → x < 2 → y < 2 → differ x y ≡ (x + y) % 2
differ_digits zero y p q = omega arith
differ_digits (suc zero) zero p q = refl
differ_digits (suc zero) (suc zero) p q = refl
differ_digits (suc zero) (suc (suc y)) p q = absurd (omega arith)
differ_digits (suc (suc x)) y p q = absurd (omega arith)

zero-bit_xor : (b : ℕ) → bit_xor 0 b ≡ b
zero-bit_xor b = bit_xor-bitwise 0 b

-- The lowest digit of `a ^ b`, and the rest.
pub bit_xor_step : (a b : ℕ) → bit_xor a b ≡ bit_xor (a / 2) (b / 2) * 2 + (a + b) % 2
bit_xor_step zero b = omega (arith, zero-bit_xor b, zero-bit_xor (b / 2))
bit_xor_step (suc a) b = omega (
  arith,
  bit_xor-bitwise (suc a) b,
  bit_xor-bitwise (suc a / 2) (b / 2),
  differ_digits (suc a % 2) (b % 2),
  enough_digits a (suc a / 2) (b / 2) (omega arith),
)

pub bit_xor-div_two : (a b : ℕ) → bit_xor a b / 2 ≡ bit_xor (a / 2) (b / 2)
bit_xor-div_two a b = omega (arith, bit_xor_step a b)

pub bit_xor-mod_two : (a b : ℕ) → bit_xor a b % 2 ≡ (a + b) % 2
bit_xor-mod_two a b = omega (arith, bit_xor_step a b)

comm_fuel : (n a b : ℕ) → a ≤ n → b ≤ n → bit_xor a b ≡ bit_xor b a
comm_fuel zero zero zero p q = refl
comm_fuel zero (suc a) b p q = absurd (omega arith)
comm_fuel zero zero (suc b) p q = absurd (omega arith)
comm_fuel (suc n) a b p q = omega (
  arith,
  bit_xor_step a b,
  bit_xor_step b a,
  comm_fuel n (a / 2) (b / 2) (omega arith) (omega arith),
)

pub bit_xor_comm : (a b : ℕ) → bit_xor a b ≡ bit_xor b a
bit_xor_comm a b = comm_fuel (a + b) a b (omega arith) (omega arith)

pub bit_xor-zero : (a : ℕ) → bit_xor a 0 ≡ a
bit_xor-zero a = bit_xor_comm a 0 ∙ zero-bit_xor a

self_fuel : (n a : ℕ) → a ≤ n → bit_xor a a ≡ 0
self_fuel n zero p = zero-bit_xor 0
self_fuel zero (suc a) p = absurd (omega arith)
self_fuel (suc n) (suc a) p =
    omega (arith, bit_xor_step (suc a) (suc a), self_fuel n (suc a / 2) (omega arith))

pub bit_xor_self : (a : ℕ) → bit_xor a a ≡ 0
bit_xor_self a = self_fuel a a (le_refl a)

assoc_fuel :
    (n a b c : ℕ) → a ≤ n → b ≤ n → c ≤ n → bit_xor (bit_xor a b) c ≡ bit_xor a (bit_xor b c)
assoc_fuel zero zero b c p q r = rw zero-bit_xor (rw zero-bit_xor refl)
assoc_fuel zero (suc a) b c p q r = absurd (omega arith)
assoc_fuel (suc n) a b c p q r = omega (
  arith,
  bit_xor_step (bit_xor a b) c,
  bit_xor_step a (bit_xor b c),
  ap (λ (t : ℕ). bit_xor t (c / 2)) (bit_xor-div_two a b),
  ap (λ (t : ℕ). bit_xor (a / 2) t) (bit_xor-div_two b c),
  bit_xor-mod_two a b,
  bit_xor-mod_two b c,
  assoc_fuel n (a / 2) (b / 2) (c / 2) (omega arith) (omega arith) (omega arith),
)

pub bit_xor_assoc : (a b c : ℕ) → bit_xor (bit_xor a b) c ≡ bit_xor a (bit_xor b c)
bit_xor_assoc a b c = assoc_fuel (a + b + c) a b c (omega arith) (omega arith) (omega arith)

-- `x ^ c` loses nothing of `x`.
pub bit_xor_undo : (a c : ℕ) → bit_xor (bit_xor a c) c ≡ a
bit_xor_undo a c = bit_xor_assoc a c c ∙ rw bit_xor_self (bit_xor-zero a)

pub bit_xor_cancel : (a b c : ℕ) → bit_xor a c ≡ bit_xor b c → a ≡ b
bit_xor_cancel a b c h = sym (bit_xor_undo a c) ∙ ap (λ (t : ℕ). bit_xor t c) h ∙ bit_xor_undo b c

pub bit_xor_cancel_left : (a b c : ℕ) → bit_xor c a ≡ bit_xor c b → a ≡ b
bit_xor_cancel_left a b c h = bit_xor_cancel a b c (bit_xor_comm a c ∙ h ∙ bit_xor_comm c b)

pub bit_xor_middle :
    (a b c d : ℕ) → bit_xor (bit_xor a b) (bit_xor c d) ≡ bit_xor (bit_xor a c) (bit_xor b d)
bit_xor_middle a b c d =
    bit_xor_assoc a b (bit_xor c d)
    ∙ ap (λ (t : ℕ). bit_xor a t)
        (sym (bit_xor_assoc b c d)
          ∙ ap (λ (t : ℕ). bit_xor t d) (bit_xor_comm b c)
          ∙ bit_xor_assoc c b d)
    ∙ sym (bit_xor_assoc a c (bit_xor b d))

pub bit_xor_bound : (n a b : ℕ) → a < 2 ^ n → b < 2 ^ n → bit_xor a b < 2 ^ n
bit_xor_bound zero a b p q =
    let p' : a ≡ 0 = omega arith in
    let q' : b ≡ 0 = omega arith in rw (p', q') (omega (arith, zero-bit_xor 0))
bit_xor_bound (suc n) a b p q = omega (
  arith,
  pow-suc 2 n,
  bit_xor_step a b,
  bit_xor_bound n (a / 2) (b / 2) (omega (arith, pow-suc 2 n)) (omega (arith, pow-suc 2 n)),
)

div_one : (n : ℕ) → n / 1 ≡ n
div_one n = omega arith

div_halves : (n m : ℕ) → n / (m * 2) ≡ n / 2 / m
div_halves n m = rw mul_comm (sym (div-div-eq-div-mul n 2 m))

pub bit_xor-div_pow : (k a b : ℕ) → bit_xor a b / 2 ^ k ≡ bit_xor (a / 2 ^ k) (b / 2 ^ k)
bit_xor-div_pow zero a b = simp (div_one) refl
bit_xor-div_pow (suc k) a b =
    simp (pow-suc, div_halves) (rw bit_xor-div_two (bit_xor-div_pow k (a / 2) (b / 2)))

double_shift : (k h : ℕ) → h * 2 ^ suc k ≡ h * 2 ^ k * 2
double_shift k h = omega (arith, pow-suc 2 k, ap (λ (t : ℕ). h * t) (pow-suc 2 k))

double_half : (n : ℕ) → n * 2 / 2 ≡ n
double_half n = omega arith

low_xor_high : (k l h : ℕ) → l < 2 ^ k → bit_xor l (h * 2 ^ k) ≡ l + h * 2 ^ k
low_xor_high zero l h p =
    let none_low : l ≡ 0 = omega arith in rw none_low (omega (arith, zero-bit_xor (h * 2 ^ 0)))
low_xor_high (suc k) l h p = rw (double_shift k h) (
    omega (
      arith,
      bit_xor_step l (h * 2 ^ k * 2),
      low_xor_high k (l / 2) h (omega (arith, pow-suc 2 k)),
      ap (bit_xor (l / 2)) (double_half (h * 2 ^ k)),
    ))

-- A number whose `k` low digits are 0 and one of `k` digits have no digit in common.
pub bit_xor_fields : (k h l : ℕ) → l < 2 ^ k → bit_xor (h * 2 ^ k) l ≡ h * 2 ^ k + l
bit_xor_fields k h l p = omega (arith, bit_xor_comm (h * 2 ^ k) l, low_xor_high k l h p)
