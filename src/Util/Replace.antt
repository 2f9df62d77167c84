-- ===== src/Util/Replace.antt =====
-- upk_util.c: `upk_replace_string`.
--
-- A text in memory is the list of the bytes that are allocated for it, with the terminator. A pointer
-- into it is an index.
use upkeeper.Prelude.{
  ℕ, zero, suc, ◌+◌, ◌-◌, ◌%◌, ◌^◌, Bool, true, false, ◌&&◌, Option, none, some, List, [], ◌∷◌,
  ◌++◌,
}
use upkeeper.Prelude.{ltb, ◌==◌, if◌then◌else◌, length}
use upkeeper.Wire.Outcome.{Outcome, ok, fault, overrun, overread, bind}

unfoldable pub get_at : ℕ → List ℕ → Outcome ℕ
get_at i [] = fault overread
get_at zero (x ∷ xs) = ok x
get_at (suc i) (x ∷ xs) = get_at i xs

unfoldable pub set_at : ℕ → ℕ → List ℕ → Outcome (List ℕ)
set_at i v [] = fault overrun
set_at zero v (x ∷ xs) = ok (v ∷ xs)
set_at (suc i) v (x ∷ xs) = bind (set_at i v xs) λ t. ok (x ∷ t)

-- `*dst = *src`
unfoldable pub move : ℕ → ℕ → List ℕ → Outcome (List ℕ)
unfolding get_at set_at
move dst src buf = bind (get_at src buf) λ c. set_at dst c buf

-- The first loop: `seek` goes down to `base`, and there are so many bytes left to move.
unfoldable pub shift_right : ℕ → ℕ → ℕ → List ℕ → Outcome (List ℕ)
unfolding move
shift_right zero base d buf = ok buf
shift_right (suc k) base d buf = bind (move (base + k + d) (base + k) buf) (shift_right k base d)

-- The second loop, with the terminator behind it: `seek` goes up.
unfoldable pub shift_left : ℕ → ℕ → ℕ → List ℕ → Outcome (List ℕ)
unfolding move
shift_left zero seek d buf = set_at seek 0 buf
shift_left (suc k) seek d buf = bind (move seek (seek + d) buf) (shift_left k (seek + 1) d)

unfoldable pub memcpy : ℕ → List ℕ → List ℕ → Outcome (List ℕ)
unfolding set_at
memcpy i [] buf = ok buf
memcpy i (c ∷ cs) buf = bind (set_at i c buf) (memcpy (i + 1) cs)

-- `realloc`; the bytes that are new hold anything, as `junk`.
unfoldable pub realloc : ℕ → ℕ → List ℕ → List ℕ
realloc junk zero buf = []
realloc junk (suc n) [] = junk ∷ realloc junk n []
realloc junk (suc n) (x ∷ xs) = x ∷ realloc junk n xs

unfoldable pub starts_with : List ℕ → List ℕ → Bool
starts_with [] s = true
starts_with (p ∷ ps) [] = false
starts_with (p ∷ ps) (c ∷ cs) = (p == c) && starts_with ps cs

abbrev pub one_more : Option ℕ → Option ℕ
one_more none = none
one_more (some i) = some (suc i)

unfoldable pub strstr : List ℕ → List ℕ → Option ℕ
unfolding starts_with
strstr needle [] = if starts_with needle [] then some 0 else none
strstr needle (c ∷ cs) =
    let later = strstr needle cs in if starts_with needle (c ∷ cs) then some 0 else one_more later

module _ (junk : ℕ) where
  -- The bytes when the replacement is to be copied, for one at `offset`.
  unfoldable pub shifted : ℕ → ℕ → ℕ → ℕ → List ℕ → Outcome (List ℕ)
  unfolding shift_right shift_left realloc
  shifted len nlen rlen offset buf =
      let newsize = (len + rlen + 2 ^ 64 - nlen + 1) % 2 ^ 64 in
      let longer =
        shift_right (len + 1 - (offset + nlen)) (offset + nlen) (rlen - nlen)
          (realloc junk newsize buf) in
      let shorter =
        bind (shift_left (len - (offset + nlen)) (offset + rlen) (nlen - rlen) buf)
          λ b. ok (realloc junk newsize b) in
      if ltb len newsize then longer else (if ltb newsize len then shorter else ok buf)

  -- What follows when the needle is looked for.
  unfoldable pub replaced : Option ℕ → List ℕ → List ℕ → List ℕ → Outcome (List ℕ)
  unfolding shifted memcpy
  replaced none haystack needle repl = ok (haystack ++ (0 ∷ []))
  replaced (some offset) haystack needle repl =
      bind (shifted (length haystack) (length needle) (length repl) offset (haystack ++ (0 ∷ [])))
        (memcpy offset repl)

  -- The haystack is a text that fills its memory.
  unfoldable pub replace_string : List ℕ → List ℕ → List ℕ → Outcome (List ℕ)
  unfolding replaced strstr
  replace_string haystack needle repl = replaced (strstr needle haystack) haystack needle repl
