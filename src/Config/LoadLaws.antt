-- ===== src/Config/LoadLaws.antt =====
-- upk_config.c: when `upk_config_loadfile` keeps within what it allocated.
use upkeeper.Prelude.{
  lt-cases, ℕ, ◌+◌, ◌*◌, ◌%◌, ◌^◌, ◌≤◌, ◌<◌, ◌≡◌, ◌≢◌, ◌⊎◌, inl, inr, refl, sym, ap, ◌∙◌, arith,
}
use upkeeper.Prelude.{
  subst, Bool, List, [], ◌∷◌, ◌++◌, append_assoc, append-nil, ltb, lt→ltb, le→ltb_false,
  if◌then◌else◌, length, length-append, All,
}
use upkeeper.Wire.Outcome.{ok, fault, overrun, bind_then}
use upkeeper.Config.Loading.{Loading, grow, add_piece, add_pieces, config_loadfile}

abbrev pub joined : List (List ℕ) → List ℕ
joined [] = []
joined (buf ∷ bufs) = buf ++ joined bufs

-- No piece ends at the 64th byte, after `n` bytes.
abbrev pub Misses64 : ℕ → List (List ℕ) → Type 0
Misses64 n [] = Unit
Misses64 n (buf ∷ bufs) = (n + length buf ≢ 64) × Misses64 (n + length buf) bufs

-- The text has room: the first 64 bytes, or those of the last `realloc`.
record HasRoom (l : Loading) : Type 0 where
  len : l.len ≡ length l.text
  fits : length l.text ≤ l.size
  large : 64 ≤ l.size
  room : ((l.allocated ≡ 64) × (l.size ≡ 64) × (length l.text < 64)) ⊎ (l.allocated ≡ l.size + 1)

-- After `grow` the memory takes the text of `len` bytes that is to be there.
grow-room :
    (m : Loading) (old : ℕ)
    → 64 ≤ m.size
    → old ≤ m.size
    → m.len ≤ old + 64
    → m.len < 2 ^ 62
    → m.len ≢ 64
    → ((m.allocated ≡ 64) × (m.size ≡ 64) × (old < 64)) ⊎ (m.allocated ≡ m.size + 1)
    → (k : Loading) × (grow m ≡ k)
      × (k.text ≡ m.text)
      × (k.len ≡ m.len)
      × (m.len ≤ k.size)
      × (64 ≤ k.size)
      × (m.len < k.allocated)
      × (((k.allocated ≡ 64) × (k.size ≡ 64) × (m.len < 64)) ⊎ (k.allocated ≡ k.size + 1))
unfolding grow
grow-room m old a b c d e r = elim (lt-cases m.size m.len) [
  | inl h ↦ (
    record m { size = m.size * 2; allocated = m.size * 2 + 1 },
    rw (lt→ltb m.size m.len h) (λ i.
        let twice : (m.size * 2) % 2 ^ 64 ≡ m.size * 2 = omega (arith, h, d) in
        let more : ((m.size * 2) % 2 ^ 64 + 1) % 2 ^ 64 ≡ m.size * 2 + 1 = omega (arith, h, d) in
        record { text = m.text; len = m.len; size = twice i; allocated = more i }),
    refl,
    refl,
    omega (arith, b, c, a),
    omega (arith, a),
    omega (arith, b, c, a),
    inr refl,
  )
  | inr h ↦ elim r [
    | inl (p, q, t) ↦
        let small : m.len < 64 = omega (arith, h, q, e) in
        (
          m,
          rw (le→ltb_false m.len m.size h) refl,
          refl,
          refl,
          h,
          a,
          omega (arith, p, small),
          inl (p, q, small),
        )
    | inr p ↦
        (m, rw (le→ltb_false m.len m.size h) refl, refl, refl, h, a, omega (arith, p, h), inr p)
  ]
]

add_piece-HasRoom :
    (buf : List ℕ) (l : Loading)
    → HasRoom l
    → length buf ≤ 64
    → length l.text + length buf ≢ 64
    → length l.text + length buf < 2 ^ 62
    → (k : Loading) × (add_piece buf l ≡ ok k) × (k.text ≡ l.text ++ buf) × HasRoom k
unfolding add_piece
add_piece-HasRoom buf l v b m t =
    let n : ℕ = (l.len + length buf) % 2 ^ 64 in
    let now : n ≡ length l.text + length buf = omega (arith, v.len, t) in
    let whole : length (l.text ++ buf) ≡ n = length-append l.text buf ∙ sym now in
    let (k, e, text, len, fits, large, free, room) =
      grow-room (record l { len = n }) (length l.text) v.large v.fits (omega (arith, now, b))
        (omega (arith, now, t)) (λ q. m (sym now ∙ q)) v.room in
    (
      record k { text = l.text ++ buf },
      ap
            (λ (g : Loading).
              if ltb (length (l.text ++ buf)) g.allocated
              then ok (record g { text = l.text ++ buf })
              else fault overrun)
            e
          ∙ ap (λ (t : Bool). if t then ok (record k { text = l.text ++ buf }) else fault overrun)
              (lt→ltb (length (l.text ++ buf)) k.allocated (omega (arith, whole, free))),
      refl,
      record {
        len = len ∙ sym whole;
        fits = omega (arith, whole, fits);
        large = large;
        room =
            subst
              (λ x. ((k.allocated ≡ 64) × (k.size ≡ 64) × (x < 64)) ⊎ (k.allocated ≡ k.size + 1))
              (sym whole) room;
      },
    )

add_pieces-joined :
    (bufs : List (List ℕ)) (l : Loading)
    → HasRoom l
    → All (λ buf. length buf ≤ 64) bufs
    → Misses64 (length l.text) bufs
    → length l.text + length (joined bufs) < 2 ^ 62
    → (k : Loading) × (add_pieces bufs l ≡ ok k) × (k.text ≡ l.text ++ joined bufs)
unfolding add_pieces
add_pieces-joined [] l v b m t = (l, refl, sym (append-nil l.text))
add_pieces-joined (buf ∷ bufs) l v b m t =
    let total = length-append buf (joined bufs) in
    let (k, e, p, w) = add_piece-HasRoom buf l v b.0 m.0 (omega (arith, total)) in
    let here : length k.text ≡ length l.text + length buf =
      ap length p ∙ length-append l.text buf in
    let (d, f, q) =
      add_pieces-joined bufs k w b.1 (subst (λ n. Misses64 n bufs) (sym here) m.1)
        (omega (arith, total, here)) in
    (
      d,
      bind_then _ e f,
      q ∙ ap (λ (x : List ℕ). x ++ joined bufs) p ∙ append_assoc l.text buf (joined bufs),
    )

-- A file of fewer than 2 ^ 62 bytes whose lines have at most 64 bytes each is read whole, if no line ends
-- at the file's 64th byte.
pub config_loadfile-joined :
    (bufs : List (List ℕ))
    → All (λ buf. length buf ≤ 64) bufs
    → Misses64 0 bufs
    → length (joined bufs) < 2 ^ 62
    → config_loadfile bufs ≡ ok (joined bufs)
unfolding config_loadfile
config_loadfile-joined bufs b m t =
    let (k, e, p) =
      add_pieces-joined bufs (record { text = []; allocated = 64; len = 0; size = 64 })
        (record {
          len = refl;
          fits = omega arith;
          large = omega arith;
          room = inl (refl, refl, omega arith);
        })
        b m (omega (arith, t)) in
    bind_then _ e (ap ok p)

-- A file whose first line has more than 128 bytes, and as many as a line can have, is written behind the
-- memory allocated for it; so is one whose first line has just 64.
pub config_loadfile-overrun :
    (buf : List ℕ) (bufs : List (List ℕ))
    → ((128 < length buf) × (length buf < 2048)) ⊎ (length buf ≡ 64)
    → config_loadfile (buf ∷ bufs) ≡ fault overrun
unfolding config_loadfile add_pieces add_piece grow
config_loadfile-overrun buf bufs (inl (h, k)) =
    rw
      (
        lt→ltb 64 ((0 + length buf) % 2 ^ 64) (omega (arith, h, k)),
        le→ltb_false 129 (length buf) (omega (arith, h)),
      )
      refl
config_loadfile-overrun buf bufs (inr e) =
    rw
      (
        le→ltb_false ((0 + length buf) % 2 ^ 64) 64 (omega (arith, e)),
        le→ltb_false 64 (length buf) (omega (arith, e)),
      )
      refl
