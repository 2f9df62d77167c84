-- ===== src/Config/Naming.antt =====
-- upk_config.c: which names of services `upk_concat_svcid` puts together and the parsers take apart.
use upkeeper.Prelude.{ℕ, ◌+◌, ◌-◌, ◌≤◌, ◌<◌, ◌≡◌, ◌≢◌, ◌⊎◌, inl, inr, refl, ap, ◌∙◌, ap₂, arith}
use upkeeper.Prelude.{
  Bool, false, ◌&&◌, some, List, [], ◌∷◌, ◌++◌, append_assoc, ◌==◌, if◌then◌else◌,
}
use upkeeper.Prelude.{
  All, lt→ltb, le→ltb_false, length, length-append, take, take_long, ne→==_false, and-false,
  length-take_le,
}
use upkeeper.Wire.Outcome.{ok, fault, overrun, bind_then, max_string_len}
use upkeeper.Config.Desc.{SvcId, SvcDesc}
use upkeeper.Config.Names.{
  colons, strncat, less, concat_svcid, svc_id, before_colon, strstr_colons, named, parse_svc_id,
  index_colon, svcid_of, svcid_array_appender,
}

-- A text in which no colon follows another, and that does not end in one.
abbrev pub HasNoColons : List ℕ → Type 0
HasNoColons [] = Unit
HasNoColons (c ∷ []) = c ≢ 0x3A
HasNoColons (c ∷ d ∷ cs) = ((c ≢ 0x3A) ⊎ (d ≢ 0x3A)) × HasNoColons (d ∷ cs)

apart : (c d : ℕ) → (c ≢ 0x3A) ⊎ (d ≢ 0x3A) → ((c == 0x3A) && (d == 0x3A)) ≡ false
apart c d (inl h) = rw (ne→==_false c 0x3A h) refl
apart c d (inr h) = rw (ne→==_false d 0x3A h) (and-false (c == 0x3A))

strstr_colons-append :
    (pkg name : List ℕ)
    → HasNoColons pkg
    → strstr_colons (pkg ++ (colons ++ name)) ≡ some (pkg, name)
unfolding strstr_colons
strstr_colons-append [] name h = refl
strstr_colons-append (c ∷ []) name h = rw (apart c 0x3A (inl h)) refl
strstr_colons-append (c ∷ d ∷ cs) name h =
    rw (apart c d h.0) (ap (before_colon c) (strstr_colons-append (d ∷ cs) name h.1))

-- What is put together where it fits.
fitting : List ℕ → List ℕ → List ℕ
fitting [] name = name
fitting (c ∷ cs) name = (c ∷ cs) ++ (colons ++ name)

strncat-fits :
    (dest src : List ℕ) (n : ℕ)
    → length src ≤ n
    → length dest + length src < max_string_len
    → strncat dest src n ≡ ok (dest ++ src)
unfolding strncat
strncat-fits dest src n h b =
    rw
      (
        take_long n src h,
        lt→ltb (length (dest ++ src)) max_string_len (omega (arith, length-append dest src)),
      )
      refl

concat_svcid-fitting :
    (pkg name : List ℕ)
    → length pkg + length name + 2 < max_string_len
    → concat_svcid pkg name ≡ ok (fitting pkg name)
unfolding concat_svcid fitting
concat_svcid-fitting [] name b =
    strncat-fits [] name (max_string_len - 1) (omega arith) (omega arith)
concat_svcid-fitting (c ∷ cs) name b =
    let pkg : List ℕ = c ∷ cs in
    let r : ℕ = less (max_string_len - 1) (length pkg) in
    let left : r ≡ 2047 - length pkg = omega (arith, b) in
    let after : less r 2 ≡ 2045 - length pkg = omega (arith, left, b) in
    let mid : length (pkg ++ colons) ≡ length pkg + 2 = length-append pkg colons in
    bind_then _
      (ap (λ (t : List ℕ). strncat t colons r)
          (take_long (max_string_len - 1) pkg (omega (arith, b)))
        ∙ strncat-fits pkg colons r (omega (arith, left, b)) (omega (arith, b)))
      (strncat-fits (pkg ++ colons) name (less r 2) (omega (arith, after, b))
          (omega (arith, mid, b))
        ∙ ap ok (append_assoc pkg colons name))

parse_svc_id-fitting :
    (pkg name : List ℕ) (other : SvcDesc)
    → HasNoColons pkg
    → 0 < length pkg
    → length pkg + length name + 2 < max_string_len
    → parse_svc_id (fitting pkg name) other
      ≡ (pkg, record other { package_name = pkg; name = name })
unfolding parse_svc_id fitting
parse_svc_id-fitting [] name other h n b = absurd (omega arith)
parse_svc_id-fitting (c ∷ cs) name other h n b =
    let pkg : List ℕ = c ∷ cs in
    ap (λ r. named r (pkg ++ (colons ++ name)) other) (strstr_colons-append pkg name h)
    ∙ ap₂ (λ (p q : List ℕ). (pkg, record other { package_name = p; name = q }))
        (take_long 2047 pkg (omega (arith, b))) (take_long 2047 name (omega (arith, b)))

-- A package that is not empty, with no `::` in it and no `:` at its end, and a name are got back by
-- `upk_parse_svc_id` from what `upk_svc_id` makes of them, if they fit in 2045 characters together.
pub parse_svc_id-svc_id :
    (svc other : SvcDesc)
    → HasNoColons svc.package_name
    → 0 < length svc.package_name
    → length svc.package_name + length svc.name + 2 < max_string_len
    → (key : List ℕ) × (svc_id svc ≡ ok key)
      × (parse_svc_id key other
          ≡ (svc.package_name, record other { package_name = svc.package_name; name = svc.name }))
unfolding svc_id parse_svc_id
parse_svc_id-svc_id svc other h n b = (
  fitting svc.package_name svc.name,
  concat_svcid-fitting svc.package_name svc.name b,
  parse_svc_id-fitting svc.package_name svc.name other h n b,
)

strncat-overrun :
    (dest src : List ℕ) (n : ℕ)
    → length src ≤ n
    → 2047 < length dest + length src
    → strncat dest src n ≡ fault overrun
unfolding strncat
strncat-overrun dest src n h b =
    rw
      (
        take_long n src h,
        le→ltb_false max_string_len (length (dest ++ src)) (omega (arith, length-append dest src)),
      )
      refl

-- To put a package of at least 2046 characters, or of as many as its array holds, in front of a name that
-- is not empty writes behind the array, as the room left wraps round below 0.
pub concat_svcid-overrun :
    (pkg : List ℕ) (c : ℕ) (cs : List ℕ)
    → 2046 ≤ length pkg
    → length pkg < max_string_len
    → length (c ∷ cs) < max_string_len
    → concat_svcid pkg (c ∷ cs) ≡ fault overrun
unfolding concat_svcid strncat
concat_svcid-overrun [] c cs h k b = absurd (omega arith)
concat_svcid-overrun (p ∷ ps) c cs h k b =
    let pkg : List ℕ = p ∷ ps in
    let r : ℕ = less (max_string_len - 1) (length pkg) in
    let left : r ≡ 2047 - length pkg = omega (arith, h, k) in
    let after : 2048 < less r 2 = omega (arith, left, h, k) in
    let full : length (pkg ++ take r colons) ≡ 2047 = omega (
      arith,
      left,
      h,
      k,
      length-append pkg (take r colons),
      length-take_le r colons (omega (arith, left, h, k)),
    ) in
    bind_then _
      (ap (λ (t : List ℕ). strncat t colons r)
          (take_long (max_string_len - 1) pkg (omega (arith, k)))
        ∙ ap (λ (t : Bool). if t then ok (pkg ++ take r colons) else fault overrun)
            (lt→ltb (length (pkg ++ take r colons)) max_string_len (omega (arith, full))))
      (strncat-overrun (pkg ++ take r colons) (c ∷ cs) (less r 2) (omega (arith, after, b))
        (omega (arith, full)))

index_colon-append :
    (pkg name : List ℕ)
    → All (λ c. c ≢ 0x3A) pkg
    → index_colon (pkg ++ (0x3A ∷ name)) ≡ some (pkg, name)
unfolding index_colon
index_colon-append [] name h = refl
index_colon-append (c ∷ cs) name h =
    rw (ne→==_false c 0x3A h.0) (ap (before_colon c) (index_colon-append cs name h.1))

-- A package that is not empty and has no `:`, and a name, put together by `upk_concat_svcid`, are taken
-- apart one `:` too early where they stand in an array as `Provides`: the name is entered with a `:` in
-- front.
pub svcid_array_appender-concat_svcid :
    (d : List SvcId) (pkg name : List ℕ)
    → All (λ c. c ≢ 0x3A) pkg
    → 0 < length pkg
    → length pkg + length name + 2 < max_string_len
    → (key : List ℕ) × (concat_svcid pkg name ≡ ok key)
      × (svcid_array_appender d key ≡ d ++ (record { pkg = pkg; name = 0x3A ∷ name } ∷ []))
unfolding svcid_array_appender fitting
svcid_array_appender-concat_svcid d [] name h n b = absurd (omega arith)
svcid_array_appender-concat_svcid d (c ∷ cs) name h n b = (
  fitting (c ∷ cs) name,
  concat_svcid-fitting (c ∷ cs) name b,
  ap (λ r. d ++ (svcid_of r ((c ∷ cs) ++ (colons ++ name)) ∷ []))
        (index_colon-append (c ∷ cs) (0x3A ∷ name) h)
      ∙ ap (λ r. d ++ (r ∷ [])) (entered (c ∷ cs) name n b),
)
  where
    entered :
        (pkg name : List ℕ)
        → 0 < length pkg
        → length pkg + length name + 2 < max_string_len
        → svcid_of (some (pkg, 0x3A ∷ name)) (pkg ++ (colons ++ name))
          ≡ record { pkg = pkg; name = 0x3A ∷ name }
    entered pkg name n b =
        rw
          (
            lt→ltb (length pkg) max_string_len (omega arith),
            take_long 2047 (0x3A ∷ name) (omega arith),
          )
          refl
