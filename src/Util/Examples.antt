-- ===== src/Util/Examples.antt =====
-- The theorems on the replacement of a text at concrete inputs.
use upkeeper.Prelude.{ℕ, ◌≡◌, refl, arith, List, [], ◌∷◌, ◌++◌}
use upkeeper.Wire.Outcome.{ok}
use upkeeper.Util.Replace.{replace_string, strstr, starts_with}
use upkeeper.Util.Replacing.{replace_string_lem, replace_string-one_short}

-- `e %(X)`, with `%(X)` to be replaced
abbrev front : List ℕ
front = 0x65 ∷ 0x20 ∷ []

abbrev needle : List ℕ
needle = 0x25 ∷ 0x28 ∷ 0x58 ∷ 0x29 ∷ []

abbrev back : List ℕ
back = 0x3B ∷ []

replace_string_example :
    replace_string 0 (front ++ (needle ++ back)) needle (0x61 ∷ 0x62 ∷ [])
    ≡ ok (front ++ ((0x61 ∷ 0x62 ∷ []) ++ (back ++ (0 ∷ []))))
unfolding strstr starts_with
replace_string_example =
    replace_string_lem 0 front needle back (0x61 ∷ 0x62 ∷ []) refl (omega arith)
      (λ e. omega (arith, e))

replace_string-one_short_example :
    replace_string 0 (front ++ (needle ++ back)) needle (0x61 ∷ 0x62 ∷ 0x63 ∷ [])
    ≡ ok (front ++ ((0x61 ∷ 0x62 ∷ 0x63 ∷ []) ++ (0x29 ∷ (back ++ (0 ∷ [])))))
unfolding strstr starts_with
replace_string-one_short_example =
    replace_string-one_short 0 front needle back (0x61 ∷ 0x62 ∷ 0x63 ∷ []) (0x25 ∷ 0x28 ∷ 0x58 ∷ [])
      0x29 refl (omega arith) refl refl
