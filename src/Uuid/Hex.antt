-- ===== src/Uuid/Hex.antt =====
-- Hexadecimal digits, as uuid.c uses them of the C library.
use upkeeper.Prelude.{ℕ, zero, suc, ◌+◌, ◌-◌, ◌*◌, ◌/◌, ◌%◌, ◌<◌, ◌≡◌, ap, ◌∙◌, arith}
use upkeeper.Prelude.{
  Bool, true, false, ◌&&◌, Option, none, some, List, [], ◌∷◌, ◌++◌, append_assoc,
}
use upkeeper.Prelude.{ltb, leb, if◌then◌else◌}

-- A digit of `%X`
unfoldable pub hex_digit : ℕ → ℕ
hex_digit d = if ltb d 10 then 0x30 + d else 0x37 + d

-- `%08X` with its width, of a number that has no more digits than that
unfoldable pub hex : ℕ → ℕ → List ℕ
hex zero v = []
hex (suc w) v = hex w (v / 16) ++ (hex_digit (v % 16) ∷ [])

-- The value of a digit
unfoldable pub digit_of : ℕ → Option ℕ
digit_of c =
    if leb 0x30 c && leb c 0x39
    then some (c - 0x30)
    else (if leb 0x41 c && leb c 0x46
        then some (c - 0x37)
        else (if leb 0x61 c && leb c 0x66 then some (c - 0x57) else none))

abbrev is_some : Option ℕ → Bool
is_some none = false
is_some (some d) = true

-- c_isxdigit
unfoldable pub is_xdigit : ℕ → Bool
unfolding digit_of
is_xdigit c = is_some (digit_of c)

abbrev pub next_digit : Option ℕ → ℕ → (ℕ → ℕ) → ℕ
next_digit none acc f = acc
next_digit (some d) acc f = f (acc * 16 + d)

-- `strtoul` to the base 16, of digits, with the value of those before
unfoldable pub strtoul : List ℕ → ℕ → ℕ
unfolding digit_of
strtoul [] acc = acc
strtoul (c ∷ cs) acc = next_digit (digit_of c) acc (λ a. strtoul cs a)

pub digit_of-hex_digit : (d : ℕ) → d < 16 → digit_of (hex_digit d) ≡ some d
unfolding digit_of hex_digit
digit_of-hex_digit d h = ground arith

pub is_xdigit-hex_digit : (v : ℕ) → is_xdigit (hex_digit (v % 16)) ≡ true
unfolding is_xdigit
is_xdigit-hex_digit v = ap is_some (digit_of-hex_digit (v % 16) (omega arith))

-- No digit is left of so many.
abbrev pub Fits : ℕ → ℕ → Type 0
Fits zero v = v ≡ 0
Fits (suc w) v = Fits w (v / 16)

strtoul-digit :
    (d : ℕ) (cs : List ℕ) (acc : ℕ)
    → d < 16
    → strtoul (hex_digit d ∷ cs) acc ≡ strtoul cs (acc * 16 + d)
unfolding strtoul
strtoul-digit d cs acc h = ap (λ o. next_digit o acc (λ a. strtoul cs a)) (digit_of-hex_digit d h)

-- What is printed is read back, up to what follows.
pub strtoul-hex : (w v : ℕ) (cs : List ℕ) → Fits w v → strtoul (hex w v ++ cs) 0 ≡ strtoul cs v
unfolding hex
strtoul-hex zero v cs h = ap (strtoul cs) (omega arith)
strtoul-hex (suc w) v cs h =
    ap (λ (xs : List ℕ). strtoul xs 0) (append_assoc (hex w (v / 16)) (hex_digit (v % 16) ∷ []) cs)
    ∙ strtoul-hex w (v / 16) (hex_digit (v % 16) ∷ cs) h
    ∙ strtoul-digit (v % 16) cs (v / 16) (omega arith)
    ∙ ap (strtoul cs) (omega arith)
