-- ===== src/Json/Parsing.antt =====
-- upk_json.c: `upk_json_parse_string`, and where it says that a text is wrong.
use upkeeper.Prelude.{
  ℕ, suc, ◌+◌, ◌-◌, ◌%◌, ◌^◌, ◌<◌, ◌≡◌, ◌≢◌, refl, ap, ◌∙◌, arith, Option, none, some,
}
use upkeeper.Prelude.{
  Bool-cases, true, false, inl, inr, ap₂, List, [], ◌∷◌, ◌++◌, All, length, take, take-append, drop,
  ◌==◌, if◌then◌else◌, ne→==_false,
}
use upkeeper.Json.Types.{Value}

-- What json-c's tokener leaves: the value parsed so far, `err` (0 is json_tokener_success), and how many
-- bytes it read.
pub record Tokener : Type 0 where
  pub parsed : Value
  pub err : ℕ
  pub char_offset : ℕ

-- The arguments of the error message.
pub record ParseError : Type 0 where
  pub code : ℕ
  pub near : List ℕ
  pub line : ℕ
  pub column : ℕ
  pub byte_offset : ℕ

-- The loop over what was read: `nline` and `ncol` at the end.
unfoldable pub position : List ℕ → ℕ → ℕ → ℕ × ℕ
position [] nline ncol = (nline, ncol)
position (c ∷ cs) nline ncol =
    let newline = position cs ((nline + 1) % 2 ^ 32) 1 in
    let same = position cs nline ((ncol + 1) % 2 ^ 32) in if c == 0x0A then newline else same

-- A text up to its first newline
unfoldable pub first_line : List ℕ → List ℕ
first_line [] = []
first_line (c ∷ cs) = let rest = first_line cs in if c == 0x0A then [] else c ∷ rest

unfoldable pub parse_error : List ℕ → Tokener → ParseError
unfolding position first_line
parse_error text t =
    let at = position (take t.char_offset text) 1 0 in
    record {
      code = t.err;
      near = first_line (take 31 (drop t.char_offset text));
      line = at.0;
      column = (at.1 + 2 ^ 32 - 1) % 2 ^ 32;
      byte_offset = t.char_offset;
    }

-- The value, NULL after an error; and the error.
unfoldable pub parse_string : (List ℕ → Tokener) → List ℕ → Value × Option ParseError
unfolding parse_error
parse_string tokener text =
    let t = tokener text in
    if t.err == 0 then (t.parsed, none) else (Value.null, some (parse_error text t))

abbrev pub IsLine : List ℕ → Type 0
IsLine cs = All (λ c. c ≢ 0x0A) cs

abbrev pub newlines : List ℕ → ℕ
newlines [] = 0
newlines (c ∷ cs) = if c == 0x0A then suc (newlines cs) else newlines cs

position-IsLine :
    (cs : List ℕ) (nline ncol : ℕ)
    → IsLine cs
    → ncol + length cs < 2 ^ 32
    → position cs nline ncol ≡ (nline, ncol + length cs)
unfolding position
position-IsLine [] nline ncol h b = ap (λ (n : ℕ). (nline, n)) (omega arith)
position-IsLine (c ∷ cs) nline ncol h b = rw (ne→==_false c 0x0A h.0) (
    ap (λ (n : ℕ). position cs nline n) (omega arith)
    ∙ position-IsLine cs nline (ncol + 1) h.1 (omega arith)
    ∙ ap (λ (n : ℕ). (nline, n)) (omega arith))

newlines-newline :
    (c : ℕ) (cs : List ℕ) → (c == 0x0A) ≡ true → newlines (c ∷ cs) ≡ suc (newlines cs)
newlines-newline c cs e = rw e refl

newlines-other : (c : ℕ) (cs : List ℕ) → (c == 0x0A) ≡ false → newlines (c ∷ cs) ≡ newlines cs
newlines-other c cs e = rw e refl

-- The last line starts behind a newline.
position-append :
    (text cs : List ℕ) (nline ncol : ℕ)
    → IsLine cs
    → nline + newlines text + 1 < 2 ^ 32
    → length cs + 1 < 2 ^ 32
    → position (text ++ (0x0A ∷ cs)) nline ncol ≡ (nline + newlines text + 1, length cs + 1)
unfolding position
position-append [] cs nline ncol h b k =
    position-IsLine cs ((nline + 1) % 2 ^ 32) 1 h (omega arith)
    ∙ ap₂ (λ (m n : ℕ). (m, n)) (omega arith) (omega arith)
position-append (c ∷ text) cs nline ncol h b k = elim (Bool-cases (c == 0x0A)) [
  | inl e ↦ rw e (
      position-append text cs ((nline + 1) % 2 ^ 32) 1 h (omega (arith, newlines-newline c text e))
        k
      ∙ ap (λ (m : ℕ). (m, length cs + 1)) (omega (arith, b, newlines-newline c text e)))
  | inr e ↦ rw e (
      position-append text cs nline ((ncol + 1) % 2 ^ 32) h (omega (arith, newlines-other c text e))
        k)
]

-- The tokener that stopped after `n` bytes.
abbrev pub stopped_after : Value → ℕ → ℕ → Tokener
stopped_after v code n = record { parsed = v; err = code; char_offset = n }

-- If the tokener stops behind a line `cs` that follows a newline, the error names that line, counted from
-- 1, and `length cs` as the column. On the first line of a text the column is one less, which wraps round
-- where the tokener read nothing. Both hold for fewer than 2 ^ 32 - 2 lines, and lines of fewer than
-- 2 ^ 32 - 1 bytes.
pub parse_error-position :
    (v : Value) (code : ℕ) (text cs rest : List ℕ)
    → IsLine cs
    → newlines text + 2 < 2 ^ 32
    → length cs + 1 < 2 ^ 32
    → (let e =
          parse_error
            ((text ++ (0x0A ∷ cs)) ++ rest)
            (stopped_after v code (length (text ++ (0x0A ∷ cs)))) in
        (e.line ≡ newlines text + 2) × (e.column ≡ length cs))
      × (let e = parse_error (cs ++ rest) (stopped_after v code (length cs)) in
          (e.line ≡ 1) × (e.column ≡ (length cs + 2 ^ 32 - 1) % 2 ^ 32))
unfolding parse_error
parse_error-position v code text cs rest h b k =
    let below = position-append text cs 1 0 h (omega arith) k in
    let top = position-IsLine cs 1 0 h (omega arith) in
    (
      rw (take-append (text ++ (0x0A ∷ cs)) rest, below) (omega arith, omega arith),
      rw (take-append cs rest, top) (refl, ap (λ (n : ℕ). (n + 2 ^ 32 - 1) % 2 ^ 32) (omega arith)),
    )
