-- ===== src/Util/Substitute.antt =====
-- upk_util.c: `upk_replace_string` on any text, as the substitution of the first place where the needle
-- stands.
use upkeeper.Prelude.{
  ℕ, zero, suc, ◌+◌, ◌<◌, ◌^◌, ◌≡◌, ◌≢◌, refl, sym, ap, ◌∙◌, arith, ap₂, Bool, true, false, not,
  ◌&&◌, Bool-cases, inl, inr, Option, none, some, List, [], ◌∷◌, ◌++◌, append_assoc, append-nil,
  length, drop, drop-append, ◌==◌, if◌then◌else◌, ==→eq,
}
use mathlib.Core.Bool.{false≢true}
use upkeeper.Wire.Outcome.{ok}
use upkeeper.Util.Replace.{starts_with, strstr, one_more, replaced, replace_string}
use upkeeper.Util.Replacing.{replace_string_lem}

-- The text with `repl` in the place of the first `needle`, if there is one.
unfoldable pub substituted : List ℕ → List ℕ → List ℕ → List ℕ
unfolding starts_with
substituted needle repl [] = if starts_with needle [] then repl else []
substituted needle repl (c ∷ cs) =
    let later = substituted needle repl cs in
    if starts_with needle (c ∷ cs) then repl ++ drop (length needle) (c ∷ cs) else c ∷ later

both : (a b : Bool) → (a && b) ≡ true → (a ≡ true) × (b ≡ true)
both true b h = (refl, h)
both false b h = absurd (false≢true h)

starts_with-split :
    (needle s : List ℕ) → starts_with needle s ≡ true → (after : List ℕ) × (s ≡ needle ++ after)
unfolding starts_with
starts_with-split [] s h = (s, refl)
starts_with-split (p ∷ ps) [] h = absurd (false≢true h)
starts_with-split (p ∷ ps) (c ∷ cs) h =
    let (e, t) = both (p == c) (starts_with ps cs) h in
    let (after, q) = starts_with-split ps cs t in
    (after, ap₂ (λ (x : ℕ) (xs : List ℕ). x ∷ xs) (sym (==→eq p c e)) q)

-- Where `strstr` finds nothing nothing is substituted, and otherwise what stands there.
record Found (needle repl s : List ℕ) (i : ℕ) : Type 0 where
  before : List ℕ
  after : List ℕ
  place : s ≡ before ++ (needle ++ after)
  offset : i ≡ length before
  result : substituted needle repl s ≡ before ++ (repl ++ after)

IsSearched : List ℕ → List ℕ → List ℕ → Option ℕ → Type 0
IsSearched needle repl s none = substituted needle repl s ≡ s
IsSearched needle repl s (some i) = Found needle repl s i

here :
    (needle repl s : List ℕ)
    → starts_with needle s ≡ true
    → substituted needle repl s ≡ repl ++ drop (length needle) s
    → Found needle repl s 0
here needle repl s h e =
    let (after, q) = starts_with-split needle s h in
    record {
      before = [];
      after = after;
      place = q;
      offset = refl;
      result =
          e
          ∙ ap (λ (t : List ℕ). repl ++ drop (length needle) t) q
          ∙ ap (λ (t : List ℕ). repl ++ t) (drop-append needle after);
    }

further :
    (needle repl : List ℕ) (c : ℕ) (cs : List ℕ) (o : Option ℕ)
    → substituted needle repl (c ∷ cs) ≡ c ∷ substituted needle repl cs
    → IsSearched needle repl cs o
    → IsSearched needle repl (c ∷ cs) (one_more o)
unfolding IsSearched
further needle repl c cs none e h = e ∙ ap (λ (t : List ℕ). c ∷ t) h
further needle repl c cs (some i) e h = record {
  before = c ∷ h.before;
  after = h.after;
  place = ap (λ (t : List ℕ). c ∷ t) h.place;
  offset = ap suc h.offset;
  result = e ∙ ap (λ (t : List ℕ). c ∷ t) h.result;
}

strstr-IsSearched : (needle repl s : List ℕ) → IsSearched needle repl s (strstr needle s)
unfolding IsSearched strstr substituted
strstr-IsSearched [] repl [] = record {
  before = [];
  after = [];
  place = refl;
  offset = refl;
  result = sym (append-nil repl);
}
strstr-IsSearched (p ∷ ps) repl [] = refl
strstr-IsSearched needle repl (c ∷ cs) = elim (Bool-cases (starts_with needle (c ∷ cs))) [
  | inl e ↦ rw e (here needle repl (c ∷ cs) e (rw e refl))
  | inr e ↦
      rw e
        (further needle repl c cs (strstr needle cs) (rw e refl) (strstr-IsSearched needle repl cs))
]

searched :
    (junk : ℕ) (haystack needle repl : List ℕ) (o : Option ℕ)
    → strstr needle haystack ≡ o
    → IsSearched needle repl haystack o
    → length haystack + length repl < 2 ^ 63
    → length repl + 1 ≢ length needle
    → replace_string junk haystack needle repl ≡ ok (substituted needle repl haystack ++ (0 ∷ []))
unfolding replace_string IsSearched
searched junk haystack needle repl none s h b n =
    ap (λ o. replaced junk o haystack needle repl) s
    ∙ ap (λ (t : List ℕ). ok (t ++ (0 ∷ []))) (sym h)
searched junk haystack needle repl (some i) s h b n =
    let at : strstr needle (h.before ++ (needle ++ h.after)) ≡ some (length h.before) =
      ap (strstr needle) (sym h.place) ∙ s ∙ ap some h.offset in
    let same : length haystack ≡ length (h.before ++ (needle ++ h.after)) = ap length h.place in
    ap (λ (t : List ℕ). replace_string junk t needle repl) h.place
    ∙ replace_string_lem junk h.before needle h.after repl at (omega (arith, same, b)) n
    ∙ ap ok (
        ap (λ (t : List ℕ). h.before ++ t) (sym (append_assoc repl h.after (0 ∷ [])))
        ∙ sym (append_assoc h.before (repl ++ h.after) (0 ∷ []))
        ∙ ap (λ (t : List ℕ). t ++ (0 ∷ [])) (sym h.result))

pub replace_string-substituted :
    (junk : ℕ) (haystack needle repl : List ℕ)
    → length haystack + length repl < 2 ^ 63
    → length repl + 1 ≢ length needle
    → replace_string junk haystack needle repl ≡ ok (substituted needle repl haystack ++ (0 ∷ []))
replace_string-substituted junk haystack needle repl b n =
    searched junk haystack needle repl (strstr needle haystack) refl
      (strstr-IsSearched needle repl haystack) b n

not-true : (b : Bool) → not b ≡ true → b ≡ false
not-true true h = absurd (false≢true h)
not-true false h = refl

-- No character of the text is the terminator.
abbrev pub no_zeros : List ℕ → Bool
no_zeros [] = true
no_zeros (c ∷ cs) = not (c == 0) && no_zeros cs

pub no_zeros-cons :
    (x : ℕ) (xs : List ℕ) → no_zeros (x ∷ xs) ≡ true → ((x == 0) ≡ false) × (no_zeros xs ≡ true)
no_zeros-cons x xs h = let (e, t) = both (not (x == 0)) (no_zeros xs) h in (not-true (x == 0) e, t)

no_zeros-append :
    (xs ys : List ℕ) → no_zeros xs ≡ true → no_zeros ys ≡ true → no_zeros (xs ++ ys) ≡ true
no_zeros-append [] ys h k = k
no_zeros-append (x ∷ xs) ys h k =
    let (e, t) = both (not (x == 0)) (no_zeros xs) h in rw e (no_zeros-append xs ys t k)

no_zeros-drop : (n : ℕ) (xs : List ℕ) → no_zeros xs ≡ true → no_zeros (drop n xs) ≡ true
no_zeros-drop zero xs h = h
no_zeros-drop (suc n) [] h = refl
no_zeros-drop (suc n) (x ∷ xs) h = no_zeros-drop n xs (both (not (x == 0)) (no_zeros xs) h).1

pub no_zeros-substituted :
    (needle repl s : List ℕ)
    → no_zeros repl ≡ true
    → no_zeros s ≡ true
    → no_zeros (substituted needle repl s) ≡ true
unfolding substituted
no_zeros-substituted needle repl [] h k = elim (Bool-cases (starts_with needle [])) [
  | inl e ↦ rw e h
  | inr e ↦ rw e refl
]
no_zeros-substituted needle repl (c ∷ cs) h k =
    let (z, t) = both (not (c == 0)) (no_zeros cs) k in
    elim (Bool-cases (starts_with needle (c ∷ cs))) [
      | inl e ↦ rw e (no_zeros-append repl _ h (no_zeros-drop (length needle) (c ∷ cs) k))
      | inr e ↦ rw (e, z) (no_zeros-substituted needle repl cs h t)
    ]
