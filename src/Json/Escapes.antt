-- ===== src/Json/Escapes.antt =====
-- upk_json.c: `upk_json_unescape_forwardslash`, on a text in which json-c escapes every slash.
use upkeeper.Prelude.{ℕ, ◌≡◌, ◌≢◌, refl, ap, ◌∙◌, arith, List, [], ◌∷◌, ◌++◌, append_assoc, All}
use upkeeper.Prelude.{Bool-cases, inl, inr, ◌==◌, if◌then◌else◌, ne→==_false}
use upkeeper.Json.Walking.{unescape_forwardslash}

-- A text whose first character is no slash.
abbrev StartsPlain : List ℕ → Type 0
StartsPlain [] = Unit
StartsPlain (c ∷ cs) = c ≢ 0x2F

-- What json-c writes for a slash.
abbrev pub escaped_slash : List ℕ
escaped_slash = 0x5C ∷ 0x2F ∷ []

-- A string's characters one by one, `write` for each but a slash, which becomes `slash`.
abbrev pub written_with : (ℕ → List ℕ) → List ℕ → List ℕ → List ℕ
written_with write slash [] = []
written_with write slash (c ∷ cs) =
    (if c == 0x2F then slash else write c) ++ written_with write slash cs

-- A character that is not followed by a slash stays.
plain_step :
    (c : ℕ) (cs : List ℕ)
    → StartsPlain cs
    → unescape_forwardslash (c ∷ cs) ≡ c ∷ unescape_forwardslash cs
unfolding unescape_forwardslash
plain_step c [] h = refl
plain_step c (d ∷ cs) h = elim (Bool-cases (c == 0x5C)) [
  | inl e ↦ rw (e, ne→==_false d 0x2F h) refl
  | inr e ↦ rw e refl
]

unescape-append :
    (xs cs : List ℕ)
    → All (λ c. c ≢ 0x2F) xs
    → StartsPlain cs
    → unescape_forwardslash (xs ++ cs) ≡ xs ++ unescape_forwardslash cs
unescape-append [] cs h k = refl
unescape-append (x ∷ []) cs h k = plain_step x cs k
unescape-append (x ∷ y ∷ xs) cs h k =
    plain_step x (y ∷ (xs ++ cs)) h.1.0
    ∙ ap (λ (t : List ℕ). x ∷ t) (unescape-append (y ∷ xs) cs h.1 k)

StartsPlain-append :
    (xs cs : List ℕ) → All (λ c. c ≢ 0x2F) xs → StartsPlain cs → StartsPlain (xs ++ cs)
StartsPlain-append [] cs h k = k
StartsPlain-append (x ∷ xs) cs h k = h.0

module _ (write : ℕ → List ℕ) (plain : (c : ℕ) → All (λ d. d ≢ 0x2F) (write c)) where
  written-StartsPlain :
      (s : List ℕ) → StartsPlain (written_with write escaped_slash s ++ (0x22 ∷ []))
  written-StartsPlain [] = λ e. omega arith
  written-StartsPlain (c ∷ cs) = elim (Bool-cases (c == 0x2F)) [
    | inl e ↦ rw e (λ q. omega arith)
    | inr e ↦
        rw (e, append_assoc (write c) (written_with write escaped_slash cs) (0x22 ∷ []))
          (StartsPlain-append (write c) _ (plain c) (written-StartsPlain cs))
  ]

  unescape-written :
      (s : List ℕ)
      → unescape_forwardslash (written_with write escaped_slash s ++ (0x22 ∷ []))
        ≡ written_with write (0x2F ∷ []) s ++ (0x22 ∷ [])
  unfolding unescape_forwardslash
  unescape-written [] = refl
  unescape-written (c ∷ cs) = elim (Bool-cases (c == 0x2F)) [
    | inl e ↦ rw e (ap (λ (t : List ℕ). 0x2F ∷ t) (unescape-written cs))
    | inr e ↦
        rw
          (
            e,
            append_assoc (write c) (written_with write escaped_slash cs) (0x22 ∷ []),
            append_assoc (write c) (written_with write (0x2F ∷ []) cs) (0x22 ∷ []),
          )
          (unescape-append (write c) _ (plain c) (written-StartsPlain cs)
            ∙ ap (λ (t : List ℕ). write c ++ t) (unescape-written cs))
  ]

  -- If what is written for a character other than a slash has no slash, the backslash of every escaped
  -- slash is taken away and nothing else, whatever backslashes the other characters are written with.
  pub unescape-escaped :
      (s : List ℕ)
      → unescape_forwardslash (0x22 ∷ (written_with write escaped_slash s ++ (0x22 ∷ [])))
        ≡ 0x22 ∷ (written_with write (0x2F ∷ []) s ++ (0x22 ∷ []))
  unescape-escaped s =
      plain_step 0x22 _ (written-StartsPlain s) ∙ ap (λ (t : List ℕ). 0x22 ∷ t) (unescape-written s)
