-- ===== src/Uuid/RoundTrip.antt =====
-- uuid.c: the text of an identifier is read back as that identifier.
use upkeeper.Prelude.{ℕ, ◌%◌, ◌^◌, ◌<◌, ◌≡◌, refl, sym, ap, ◌∙◌, arith}
use upkeeper.Prelude.{true, List, [], ◌++◌, append-nil, drop}
use upkeeper.Uuid.Hex.{hex, Fits, digit_of, strtoul, strtoul-hex, is_xdigit-hex_digit}
use upkeeper.Uuid.Fields.{
  Uuid, uuid_to_string, is_allowed, is_valid_from, is_valid_uuid_string, octet_at, string_to_uuid,
  dash,
}

-- The fields are numbers of their types.
pub record IsUuid (u : Uuid) : Type 0 where
  pub time_low : u.time_low < 2 ^ 32
  pub time_mid : u.time_mid < 2 ^ 16
  pub time_high : u.time_high_and_version < 2 ^ 16
  pub seq_high : u.clk_seq_high < 2 ^ 8
  pub seq_low : u.clk_seq_low < 2 ^ 8
  pub node :
      (u.node.0 < 2 ^ 8)
      × (u.node.1 < 2 ^ 8)
      × (u.node.2 < 2 ^ 8)
      × (u.node.3 < 2 ^ 8)
      × (u.node.4 < 2 ^ 8)
      × (u.node.5 < 2 ^ 8)

strtoul-dash : (s : List ℕ) (acc : ℕ) → strtoul (dash s) acc ≡ acc
unfolding strtoul digit_of
strtoul-dash s acc = refl

-- A field in front of a dash.
field : (w v : ℕ) (s : List ℕ) → Fits w v → strtoul (hex w v ++ dash s) 0 ≡ v
field w v s h = strtoul-hex w v (dash s) h ∙ strtoul-dash s v

-- An octet on its own.
octet : (v : ℕ) → v < 2 ^ 8 → strtoul (hex 2 v) 0 % 2 ^ 8 ≡ v
unfolding strtoul
octet v h =
    let e : strtoul (hex 2 v) 0 ≡ v =
      ap (λ (s : List ℕ). strtoul s 0) (sym (append-nil (hex 2 v)))
      ∙ strtoul-hex 2 v [] (omega arith) in
    omega (arith, e)

is_valid-to_string : (u : Uuid) → is_valid_uuid_string (uuid_to_string u) ≡ true
unfolding is_valid_uuid_string is_valid_from is_allowed uuid_to_string hex
is_valid-to_string u = simp is_xdigit-hex_digit refl

time_low_lem : (u : Uuid) → IsUuid u → strtoul (uuid_to_string u) 0 % 2 ^ 32 ≡ u.time_low
unfolding uuid_to_string
time_low_lem u v =
    let e : strtoul (uuid_to_string u) 0 ≡ u.time_low =
      field 8 u.time_low _ (omega (arith, v.time_low)) in
    omega (arith, e, v.time_low)

time_mid_lem : (u : Uuid) → IsUuid u → strtoul (drop 9 (uuid_to_string u)) 0 % 2 ^ 16 ≡ u.time_mid
unfolding uuid_to_string hex
time_mid_lem u v =
    let e : strtoul (drop 9 (uuid_to_string u)) 0 ≡ u.time_mid =
      field 4 u.time_mid _ (omega (arith, v.time_mid)) in
    omega (arith, e, v.time_mid)

time_high_lem :
    (u : Uuid)
    → IsUuid u
    → strtoul (drop 14 (uuid_to_string u)) 0 % 2 ^ 16 ≡ u.time_high_and_version
unfolding uuid_to_string hex
time_high_lem u v =
    let e : strtoul (drop 14 (uuid_to_string u)) 0 ≡ u.time_high_and_version =
      field 4 u.time_high_and_version _ (omega (arith, v.time_high)) in
    omega (arith, e, v.time_high)

octets_lem :
    (u : Uuid)
    → IsUuid u
    → (octet_at 19 (uuid_to_string u) ≡ u.clk_seq_high)
      × (octet_at 21 (uuid_to_string u) ≡ u.clk_seq_low)
      × (octet_at 24 (uuid_to_string u) ≡ u.node.0)
      × (octet_at 26 (uuid_to_string u) ≡ u.node.1)
      × (octet_at 28 (uuid_to_string u) ≡ u.node.2)
      × (octet_at 30 (uuid_to_string u) ≡ u.node.3)
      × (octet_at 32 (uuid_to_string u) ≡ u.node.4)
      × (octet_at 34 (uuid_to_string u) ≡ u.node.5)
unfolding uuid_to_string hex octet_at
octets_lem u v = (
  octet u.clk_seq_high v.seq_high,
  octet u.clk_seq_low v.seq_low,
  octet u.node.0 v.node.0,
  octet u.node.1 v.node.1,
  octet u.node.2 v.node.2,
  octet u.node.3 v.node.3,
  octet u.node.4 v.node.4,
  octet u.node.5 v.node.5,
)

-- The text of an identifier is valid, and `upk_string_to_uuid` makes of it that identifier, whatever
-- was there before.
pub string_to_uuid-to_string :
    (u old : Uuid)
    → IsUuid u
    → (is_valid_uuid_string (uuid_to_string u) ≡ true) × (string_to_uuid old (uuid_to_string u) ≡ u)
unfolding string_to_uuid
string_to_uuid-to_string u old v =
    let (g, h, i, j, k, l, m, n) = octets_lem u v in
    (
      is_valid-to_string u,
      rw
          (
            is_valid-to_string u,
            time_low_lem u v,
            time_mid_lem u v,
            time_high_lem u v,
            g,
            h,
            i,
            j,
            k,
            l,
            m,
            n,
          )
          refl,
    )
