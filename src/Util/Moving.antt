-- ===== src/Util/Moving.antt =====
-- upk_util.c: what the loops of `upk_replace_string` do to the bytes.
use upkeeper.Prelude.{ℕ, zero, suc, ◌+◌, ◌<◌, ◌≡◌, refl, sym, ap, ◌∙◌, arith}
use upkeeper.Prelude.{List, [], ◌∷◌, ◌++◌, append_assoc, length, length-append, replicate}
use upkeeper.Wire.Outcome.{ok, bind_then}
use upkeeper.Util.Replace.{get_at, set_at, move, shift_right, shift_left, memcpy, realloc}

get_at-append :
    (i : ℕ) (xs : List ℕ) (y : ℕ) (ys : List ℕ) → i ≡ length xs → get_at i (xs ++ (y ∷ ys)) ≡ ok y
unfolding get_at
get_at-append zero [] y ys h = refl
get_at-append (suc i) [] y ys h = absurd (omega arith)
get_at-append zero (x ∷ xs) y ys h = absurd (omega arith)
get_at-append (suc i) (x ∷ xs) y ys h = get_at-append i xs y ys (omega arith)

set_at-append :
    (i v : ℕ) (xs : List ℕ) (y : ℕ) (ys : List ℕ)
    → i ≡ length xs
    → set_at i v (xs ++ (y ∷ ys)) ≡ ok (xs ++ (v ∷ ys))
unfolding set_at
set_at-append zero v [] y ys h = refl
set_at-append (suc i) v [] y ys h = absurd (omega arith)
set_at-append zero v (x ∷ xs) y ys h = absurd (omega arith)
set_at-append (suc i) v (x ∷ xs) y ys h = bind_then _ (set_at-append i v xs y ys (omega arith)) refl

-- A list that is not empty has a last element.
last-cases :
    (n : ℕ) (x : ℕ) (xs : List ℕ)
    → length xs ≡ n
    → (ys : List ℕ) × (y : ℕ) × (x ∷ xs ≡ ys ++ (y ∷ [])) × (length ys ≡ n)
last-cases n x [] h = ([], x, refl, h)
last-cases zero x (y ∷ xs) h = absurd (omega arith)
last-cases (suc n) x (y ∷ xs) h =
    let (ys, z, e, k) = last-cases n y xs (omega arith) in
    (x ∷ ys, z, ap (λ (t : List ℕ). x ∷ t) e, omega (arith, k))

-- The bytes `xs` move over a gap of `d` bytes behind them.
pub shift_right-over :
    (k base d : ℕ) (front xs gap done : List ℕ)
    → base ≡ length front
    → length xs ≡ k
    → length gap ≡ d
    → (left : List ℕ) × (shift_right k base d (front ++ (xs ++ (gap ++ done)))
        ≡ ok (front ++ (left ++ (xs ++ done))))
      × (length left ≡ d)
unfolding shift_right move
shift_right-over zero base d front [] gap done h k g = (gap, refl, g)
shift_right-over zero base d front (x ∷ xs) gap done h k g = absurd (omega arith)
shift_right-over (suc n) base d front [] gap done h k g = absurd (omega arith)
shift_right-over (suc n) base d front (x ∷ xs) gap done h k g =
    let (ys, y, e, l) = last-cases n x xs (omega arith) in
    let (gap1, z, f, m) = last-cases d y gap g in
    let (left, r, s) = shift_right-over n base d front ys gap1 (y ∷ done) h l m in
    let place : front ++ ((x ∷ xs) ++ (gap ++ done)) ≡ (front ++ ys) ++ (y ∷ (gap ++ done)) =
      ap (λ (t : List ℕ). front ++ (t ++ (gap ++ done))) e
      ∙ ap (λ (t : List ℕ). front ++ t) (append_assoc ys (y ∷ []) (gap ++ done))
      ∙ sym (append_assoc front ys (y ∷ (gap ++ done))) in
    let target : front ++ ((x ∷ xs) ++ (gap ++ done)) ≡ ((front ++ ys) ++ gap1) ++ (z ∷ done) =
      place
      ∙ ap (λ (t : List ℕ). (front ++ ys) ++ (t ++ done)) f
      ∙ ap (λ (t : List ℕ). (front ++ ys) ++ t) (append_assoc gap1 (z ∷ []) done)
      ∙ sym (append_assoc (front ++ ys) gap1 (z ∷ done)) in
    let back : ((front ++ ys) ++ gap1) ++ (y ∷ done) ≡ front ++ (ys ++ (gap1 ++ (y ∷ done))) =
      append_assoc (front ++ ys) gap1 (y ∷ done) ∙ append_assoc front ys (gap1 ++ (y ∷ done)) in
    let here : base + n ≡ length (front ++ ys) = omega (arith, h, l, length-append front ys) in
    let there : base + n + d ≡ length ((front ++ ys) ++ gap1) =
      omega (arith, here, m, length-append (front ++ ys) gap1) in
    (
      left,
      bind_then _
          (bind_then _
            (ap (get_at (base + n)) place ∙ get_at-append (base + n) (front ++ ys) y _ here)
            (ap (set_at (base + n + d) y) target
              ∙ set_at-append (base + n + d) y ((front ++ ys) ++ gap1) z done there
              ∙ ap ok back))
          (r
            ∙ ap (λ (t : List ℕ). ok (front ++ (left ++ t)))
                (sym (append_assoc ys (y ∷ []) done) ∙ ap (λ (t : List ℕ). t ++ done) (sym e))),
      s,
    )

-- The bytes `xs` and the terminator move to the front of a gap that is not empty.
pub shift_left-over :
    (d : ℕ) (front gap xs : List ℕ) (seek : ℕ)
    → seek ≡ length front
    → length gap ≡ d
    → 0 < d
    → (rest : List ℕ) × (shift_left (length xs) seek d (front ++ (gap ++ (xs ++ (0 ∷ []))))
        ≡ ok ((front ++ (xs ++ (0 ∷ []))) ++ rest))
unfolding shift_left move
shift_left-over d front [] xs seek h g p = absurd (omega arith)
shift_left-over d front (z ∷ gap) [] seek h g p = (
  gap ++ (0 ∷ []),
  set_at-append seek 0 front z (gap ++ (0 ∷ [])) h
      ∙ ap ok (sym (append_assoc front (0 ∷ []) (gap ++ (0 ∷ [])))),
)
shift_left-over d front (z ∷ gap) (x ∷ xs) seek h g p =
    let tail : List ℕ = xs ++ (0 ∷ []) in
    let (rest, r) =
      shift_left-over d (front ++ (x ∷ [])) (gap ++ (x ∷ [])) xs (seek + 1)
        (omega (arith, h, length-append front (x ∷ [])))
        (omega (arith, g, length-append gap (x ∷ []))) p in
    let source : seek + d ≡ length (front ++ (z ∷ gap)) =
      omega (arith, h, g, length-append front (z ∷ gap)) in
    (
      rest,
      bind_then _
          (bind_then _
            (ap (get_at (seek + d)) (sym (append_assoc front (z ∷ gap) (x ∷ tail)))
              ∙ get_at-append (seek + d) (front ++ (z ∷ gap)) x tail source)
            (set_at-append seek x front z (gap ++ (x ∷ tail)) h
              ∙ ap ok (
                  sym (append_assoc front (x ∷ []) (gap ++ (x ∷ tail)))
                  ∙ ap (λ (t : List ℕ). (front ++ (x ∷ [])) ++ t)
                      (sym (append_assoc gap (x ∷ []) tail)))))
          (r ∙ ap (λ (t : List ℕ). ok (t ++ rest)) (append_assoc front (x ∷ []) tail)),
    )

pub memcpy-over :
    (i : ℕ) (front old new rest : List ℕ)
    → i ≡ length front
    → length old ≡ length new
    → memcpy i new (front ++ (old ++ rest)) ≡ ok (front ++ (new ++ rest))
unfolding memcpy
memcpy-over i front [] [] rest h k = refl
memcpy-over i front [] (c ∷ new) rest h k = absurd (omega arith)
memcpy-over i front (x ∷ old) [] rest h k = absurd (omega arith)
memcpy-over i front (x ∷ old) (c ∷ new) rest h k =
    bind_then _
      (set_at-append i c front x (old ++ rest) h
        ∙ ap ok (sym (append_assoc front (c ∷ []) (old ++ rest))))
      (memcpy-over (i + 1) (front ++ (c ∷ [])) old new rest
          (omega (arith, h, length-append front (c ∷ []))) (omega arith)
        ∙ ap ok (append_assoc front (c ∷ []) (new ++ rest)))

pub realloc-longer :
    (junk n : ℕ) (xs : List ℕ) (d : ℕ)
    → n ≡ length xs + d
    → realloc junk n xs ≡ xs ++ replicate d junk
unfolding realloc
realloc-longer junk zero [] zero h = refl
realloc-longer junk zero [] (suc d) h = absurd (omega arith)
realloc-longer junk (suc n) [] zero h = absurd (omega arith)
realloc-longer junk (suc n) [] (suc d) h =
    ap (λ (t : List ℕ). junk ∷ t) (realloc-longer junk n [] d (omega arith))
realloc-longer junk zero (x ∷ xs) d h = absurd (omega arith)
realloc-longer junk (suc n) (x ∷ xs) d h =
    ap (λ (t : List ℕ). x ∷ t) (realloc-longer junk n xs d (omega arith))

pub realloc-shorter : (junk n : ℕ) (xs ys : List ℕ) → n ≡ length xs → realloc junk n (xs ++ ys) ≡ xs
unfolding realloc
realloc-shorter junk zero [] ys h = refl
realloc-shorter junk (suc n) [] ys h = absurd (omega arith)
realloc-shorter junk zero (x ∷ xs) ys h = absurd (omega arith)
realloc-shorter junk (suc n) (x ∷ xs) ys h =
    ap (λ (t : List ℕ). x ∷ t) (realloc-shorter junk n xs ys (omega arith))
