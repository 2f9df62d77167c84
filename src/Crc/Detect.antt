-- ===== src/Crc/Detect.antt =====
-- What the checksum of upk_crc32.c detects.
use upkeeper.Prelude.{ℕ, zero, suc, ◌/◌, ◌^◌, ◌<◌, bit_xor, arith, inl, inr, ◌≢◌}
use upkeeper.Prelude.{◌≡◌, sym, ap, ◌∙◌, List, [], ◌∷◌, ◌++◌, length, All}
use upkeeper.Prelude.{length-append, some, false, ne→==_false}
use upkeeper.Prelude.Bits.{bit_xor_cancel, bit_xor_cancel_left, bit_xor_bound}
use upkeeper.Prelude.Bits.{bit_xor-div_pow}
use upkeeper.Crc.{magic, crc_rounds, crc_round, crc32, verify_crc32}
use upkeeper.Crc.Bitwise.{parity, round_even, round_odd, round_bound, rounds_bound}
use upkeeper.Crc.Bitwise.{IsByte, crc_bitwise, checksum, crc32_whole}

-- The top digit of the polynomial is set, so that an odd turn ends with a high number.
odd_high : (a : ℕ) → a < 2 ^ 32 → bit_xor (a / 2) magic / 2 ^ 31 ≡ 1
odd_high a h =
    bit_xor-div_pow 31 (a / 2) magic
    ∙ ap (λ (t : ℕ). bit_xor t 1) (let e : a / 2 / 2 ^ 31 ≡ 0 = omega arith in e)

-- No two numbers of 32 digits come out of a turn the same.
round_injective : (a b : ℕ) → a < 2 ^ 32 → b < 2 ^ 32 → crc_round a ≡ crc_round b → a ≡ b
round_injective a b ha hb e = elim (parity a) [
  | inl p ↦ elim (parity b) [
    | inl q ↦ omega (arith, round_even a p, round_even b q)
    | inr q ↦ absurd (omega (arith, round_even a p, round_odd b q, odd_high b hb))
  ]
  | inr p ↦ elim (parity b) [
    | inl q ↦ absurd (omega (arith, round_odd a p, round_even b q, odd_high a ha))
    | inr q ↦
        omega
          (arith, bit_xor_cancel (a / 2) (b / 2) magic (sym (round_odd a p) ∙ e ∙ round_odd b q))
  ]
]

rounds_injective : (k a b : ℕ) → a < 2 ^ 32 → b < 2 ^ 32 → crc_rounds k a ≡ crc_rounds k b → a ≡ b
unfolding crc_rounds
rounds_injective zero a b ha hb e = e
rounds_injective (suc k) a b ha hb e =
    round_injective a b ha hb
      (rounds_injective k (crc_round a) (crc_round b) (round_bound a ha) (round_bound b hb) e)

byte_bound : (c x : ℕ) → c < 2 ^ 32 → IsByte x → bit_xor c x < 2 ^ 32
byte_bound c x hc hx = bit_xor_bound 32 c x hc (omega arith)

step_bound : (c x : ℕ) → c < 2 ^ 32 → IsByte x → crc_rounds 8 (bit_xor c x) < 2 ^ 32
step_bound c x hc hx = rounds_bound 8 (bit_xor c x) (byte_bound c x hc hx)

-- Once two checksums differ, no bytes that follow make them the same again.
bitwise_injective :
    (block : List ℕ) (c d : ℕ)
    → c < 2 ^ 32
    → d < 2 ^ 32
    → All IsByte block
    → crc_bitwise block c ≡ crc_bitwise block d
    → c ≡ d
bitwise_injective [] c d hc hd hb e = e
bitwise_injective (x ∷ block) c d hc hd (hx, hb) e = bit_xor_cancel c d x (
    rounds_injective 8 (bit_xor c x) (bit_xor d x) (byte_bound c x hc hx) (byte_bound d x hd hx)
      (bitwise_injective block _ _ (step_bound c x hc hx) (step_bound d x hd hx) hb e))

-- One byte that differs shows, wherever it stands.
bitwise_one_byte :
    (front back : List ℕ) (c x y : ℕ)
    → c < 2 ^ 32
    → All IsByte (front ++ (x ∷ back))
    → IsByte y
    → crc_bitwise (front ++ (x ∷ back)) c ≡ crc_bitwise (front ++ (y ∷ back)) c
    → x ≡ y
bitwise_one_byte [] back c x y hc (hx, hb) hy e = bit_xor_cancel_left x y c (
    rounds_injective 8 (bit_xor c x) (bit_xor c y) (byte_bound c x hc hx) (byte_bound c y hc hy)
      (bitwise_injective back _ _ (step_bound c x hc hx) (step_bound c y hc hy) hb e))
bitwise_one_byte (z ∷ front) back c x y hc (hz, hb) hy e =
    bitwise_one_byte front back _ x y (step_bound c z hc hz) hb hy e

All-replace :
    (front back : List ℕ) (x y : ℕ)
    → All IsByte (front ++ (x ∷ back))
    → IsByte y
    → All IsByte (front ++ (y ∷ back))
All-replace [] back x y (hx, hb) hy = (hy, hb)
All-replace (z ∷ front) back x y (hz, hb) hy = (hz, All-replace front back x y hb hy)

pub length_replace :
    (front back : List ℕ) (x y : ℕ) → length (front ++ (x ∷ back)) ≡ length (front ++ (y ∷ back))
length_replace front back x y =
    omega (arith, length-append front (x ∷ back), length-append front (y ∷ back))

-- A block of bytes of which one was changed is refused under the checksum of the original.
pub verify-one_byte :
    (front back : List ℕ) (x y c : ℕ)
    → All IsByte (front ++ (x ∷ back))
    → IsByte y
    → x ≢ y
    → crc32 (front ++ (x ∷ back)) (length (front ++ (x ∷ back))) ≡ some c
    → verify_crc32 (front ++ (y ∷ back)) c (length (front ++ (y ∷ back))) ≡ some false
unfolding verify_crc32
verify-one_byte front back x y c h hy ne e =
    rw (crc32_whole (front ++ (y ∷ back)) (All-replace front back x y h hy))
      (ap some (ne→==_false _ c differ))
  where
    differ : checksum (front ++ (y ∷ back)) ≢ c
    differ p = ne (
        bitwise_one_byte front back 0 x y (omega arith) h hy
          (bit_xor_cancel _ _ 0xFFFFFFFF (cc (crc32_whole (front ++ (x ∷ back)) h))))
