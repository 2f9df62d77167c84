-- ===== src/Util/Replacing.antt =====
-- upk_util.c: `upk_replace_string` puts the replacement in the place of the needle, or fails to.
use upkeeper.Prelude.{
  ℕ, zero, suc, ◌+◌, ◌-◌, ◌%◌, ◌^◌, ◌≤◌, ◌<◌, ◌≡◌, ◌≢◌, inl, inr, refl, sym, ap, ◌∙◌, arith,
}
use upkeeper.Prelude.{
  some, List, [], ◌∷◌, ◌++◌, append_assoc, append-nil, length, length-append, replicate,
  length-replicate,
}
use upkeeper.Prelude.{lt-cases, lt→ltb, le→ltb_false}
use upkeeper.Wire.Outcome.{ok, bind_then}
use upkeeper.Util.Replace.{
  shift_right, shift_left, memcpy, realloc, strstr, shifted, replaced, replace_string,
}
use upkeeper.Util.Moving.{
  shift_right-over, shift_left-over, memcpy-over, realloc-longer, realloc-shorter,
}

split_at :
    (n : ℕ) (xs : List ℕ) → n ≤ length xs → (ys zs : List ℕ) × (xs ≡ ys ++ zs) × (length ys ≡ n)
split_at zero xs h = ([], xs, refl, refl)
split_at (suc n) [] h = absurd (omega arith)
split_at (suc n) (x ∷ xs) h =
    let (ys, zs, e, k) = split_at n xs (omega arith) in
    (x ∷ ys, zs, ap (λ (t : List ℕ). x ∷ t) e, omega (arith, k))

module _ (junk : ℕ) (before needle after : List ℕ) where
  abbrev haystack : List ℕ
  haystack = before ++ (needle ++ after)

  abbrev ended : List ℕ
  ended = after ++ (0 ∷ [])

  -- The lengths, and the size that is computed.
  total : length haystack ≡ length before + length needle + length after
  total = omega (arith, length-append before (needle ++ after), length-append needle after)

  abbrev newsize : ℕ → ℕ
  newsize r = (length haystack + r + 2 ^ 64 - length needle + 1) % 2 ^ 64

  newsize_lem :
      (r : ℕ) → length haystack + r < 2 ^ 63 → newsize r ≡ length before + r + length after + 1
  newsize_lem r b = omega (arith, total, b)

  apart : haystack ++ (0 ∷ []) ≡ (before ++ needle) ++ ended
  apart =
      ap (λ (t : List ℕ). t ++ (0 ∷ [])) (sym (append_assoc before needle after))
      ∙ append_assoc (before ++ needle) after (0 ∷ [])

  shifted-longer :
      (r : ℕ)
      → length needle ≤ r
      → length haystack + r < 2 ^ 63
      → (old : List ℕ) × (shifted junk
            (length haystack)
            (length needle)
            r
            (length before)
            (haystack ++ (0 ∷ []))
          ≡ ok (before ++ (old ++ ended)))
        × (length old ≡ r)
  unfolding shifted
  shifted-longer r h b =
      let d : ℕ = r - length needle in
      let gap : List ℕ = replicate d junk in
      let front : length (before ++ needle) ≡ length before + length needle =
        length-append before needle in
      let size : length ended ≡ length after + 1 = length-append after (0 ∷ []) in
      let (left, e, k) =
        shift_right-over (length haystack + 1 - (length before + length needle))
          (length before + length needle) d (before ++ needle) ended gap [] (sym front)
          (omega (arith, total, size)) (length-replicate d junk) in
      let grown : realloc junk (newsize r) (haystack ++ (0 ∷ []))
          ≡ (before ++ needle) ++ (ended ++ (gap ++ [])) =
        realloc-longer junk (newsize r) (haystack ++ (0 ∷ [])) d
          (omega (arith, newsize_lem r b, total, h, length-append haystack (0 ∷ [])))
        ∙ ap (λ (t : List ℕ). t ++ gap) apart
        ∙ append_assoc (before ++ needle) ended gap
        ∙ ap (λ (t : List ℕ). (before ++ needle) ++ (ended ++ t)) (sym (append-nil gap)) in
      (
        needle ++ left,
        rw (lt→ltb (length haystack) (newsize r) (omega (arith, newsize_lem r b, total, h))) (
            ap
              (shift_right (length haystack + 1 - (length before + length needle))
                (length before + length needle) d)
              grown
            ∙ e
            ∙ ap ok (
                ap (λ (t : List ℕ). (before ++ needle) ++ (left ++ t)) (append-nil ended)
                ∙ append_assoc before needle (left ++ ended)
                ∙ ap (λ (t : List ℕ). before ++ t) (sym (append_assoc needle left ended)))),
        omega (arith, k, h, length-append needle left),
      )

  shifted-shorter :
      (r : ℕ)
      → r + 1 < length needle
      → length haystack + r < 2 ^ 63
      → (old : List ℕ) × (shifted junk
            (length haystack)
            (length needle)
            r
            (length before)
            (haystack ++ (0 ∷ []))
          ≡ ok (before ++ (old ++ ended)))
        × (length old ≡ r)
  unfolding shifted
  shifted-shorter r h b =
      let d : ℕ = length needle - r in
      let (kept, gap, e, k) = split_at r needle (omega arith) in
      let parts : length needle ≡ r + length gap =
        ap length e ∙ omega (arith, k, length-append kept gap) in
      let front : length before + r ≡ length (before ++ kept) =
        omega (arith, k, length-append before kept) in
      let (rest, p) =
        shift_left-over d (before ++ kept) gap after (length before + r) front
          (omega (arith, parts)) (omega (arith, h)) in
      let place : haystack ++ (0 ∷ []) ≡ (before ++ kept) ++ (gap ++ ended) =
        apart
        ∙ ap (λ (t : List ℕ). (before ++ t) ++ ended) e
        ∙ ap (λ (t : List ℕ). t ++ ended) (sym (append_assoc before kept gap))
        ∙ append_assoc (before ++ kept) gap ended in
      let rounds : length haystack - (length before + length needle) ≡ length after =
        omega (arith, total) in
      let size : length ((before ++ kept) ++ ended) ≡ length before + r + length after + 1 =
        omega (arith, front, length-append (before ++ kept) ended, length-append after (0 ∷ [])) in
      (
        kept,
        rw
            (
              le→ltb_false (newsize r) (length haystack) (omega (arith, newsize_lem r b, total, h)),
              lt→ltb (newsize r) (length haystack) (omega (arith, newsize_lem r b, total, h)),
            )
            (bind_then _
              (ap (λ (n : ℕ). shift_left n (length before + r) d (haystack ++ (0 ∷ []))) rounds
                ∙ ap (shift_left (length after) (length before + r) d) place
                ∙ p)
              (ap ok (
                realloc-shorter junk (newsize r) ((before ++ kept) ++ ended) rest
                  (newsize_lem r b ∙ sym size)
                ∙ append_assoc before kept ended))),
        k,
      )

  -- The bytes when the replacement is copied, if it has not just one byte less than the needle.
  shifted-fits :
      (r : ℕ)
      → r + 1 ≢ length needle
      → length haystack + r < 2 ^ 63
      → (old : List ℕ) × (shifted junk
            (length haystack)
            (length needle)
            r
            (length before)
            (haystack ++ (0 ∷ []))
          ≡ ok (before ++ (old ++ ended)))
        × (length old ≡ r)
  shifted-fits r n b = elim (lt-cases r (length needle)) [
    | inl h ↦ shifted-shorter r (omega (arith, h, n)) b
    | inr h ↦ shifted-longer r h b
  ]

  -- If the needle first stands behind `before`, and the texts have fewer than 2 ^ 63 bytes, a replacement
  -- that is not just one byte shorter than the needle takes its place; no byte outside the memory is read
  -- or written, and the memory is as large as the new text.
  pub replace_string_lem :
      (repl : List ℕ)
      → strstr needle haystack ≡ some (length before)
      → length haystack + length repl < 2 ^ 63
      → length repl + 1 ≢ length needle
      → replace_string junk haystack needle repl ≡ ok (before ++ (repl ++ ended))
  unfolding replace_string
  replace_string_lem repl s b n =
      let (old, e, k) = shifted-fits (length repl) n b in
      ap (λ o. replaced junk o haystack needle repl) s
      ∙ bind_then _ e (memcpy-over (length before) before old repl ended refl k)

  -- Under the same conditions, a replacement that is one byte shorter than the needle is followed by the
  -- needle's last byte, as nothing is moved.
  pub replace_string-one_short :
      (repl kept : List ℕ) (c : ℕ)
      → strstr needle haystack ≡ some (length before)
      → length haystack + length repl < 2 ^ 63
      → needle ≡ kept ++ (c ∷ [])
      → length kept ≡ length repl
      → replace_string junk haystack needle repl ≡ ok (before ++ (repl ++ (c ∷ ended)))
  unfolding replace_string shifted
  replace_string-one_short repl kept c s b e k =
      let short : length needle ≡ length repl + 1 =
        ap length e ∙ omega (arith, k, length-append kept (c ∷ [])) in
      let size = newsize_lem (length repl) b in
      let place : haystack ++ (0 ∷ []) ≡ before ++ (kept ++ (c ∷ ended)) =
        apart
        ∙ append_assoc before needle ended
        ∙ ap (λ (t : List ℕ). before ++ (t ++ ended)) e
        ∙ ap (λ (t : List ℕ). before ++ t) (append_assoc kept (c ∷ []) ended) in
      ap (λ o. replaced junk o haystack needle repl) s
      ∙ rw
          (
            le→ltb_false (newsize (length repl)) (length haystack)
                (omega (arith, size, total, short)),
            le→ltb_false (length haystack) (newsize (length repl))
                (omega (arith, size, total, short)),
          )
          (ap (memcpy (length before) repl) place
            ∙ memcpy-over (length before) before kept repl (c ∷ ended) refl k)
