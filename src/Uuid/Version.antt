-- ===== src/Uuid/Version.antt =====
-- uuid.c: the identifiers that `upk_gen_uuid_bytes` makes are of version 4.
use upkeeper.Prelude.{ℕ, ◌+◌, ◌/◌, ◌%◌, ◌^◌, ◌≤◌, ◌<◌, ◌≡◌, ◌⊎◌, refl, arith, get_or}
use upkeeper.Uuid.Hex.{hex, hex_digit}
use upkeeper.Uuid.Fields.{Uuid, gen_uuid_bytes, uuid_to_string}
use upkeeper.Uuid.RoundTrip.{IsUuid}

gen-IsUuid : (u : Uuid) → IsUuid u → IsUuid (gen_uuid_bytes u)
unfolding gen_uuid_bytes
gen-IsUuid u v = record {
  time_low = v.time_low;
  time_mid = v.time_mid;
  time_high = omega arith;
  seq_high = omega arith;
  seq_low = v.seq_low;
  node = v.node;
}

four : (d : ℕ) → d ≡ 4 → hex_digit d ≡ 0x34
unfolding hex_digit
four d h = rw h refl

variant :
    (d : ℕ)
    → 8 ≤ d
    → d < 12
    → (hex_digit d ≡ 0x38) ⊎ (hex_digit d ≡ 0x39) ⊎ (hex_digit d ≡ 0x41) ⊎ (hex_digit d ≡ 0x42)
unfolding hex_digit
variant d a b = ground arith

-- What `upk_gen_uuid_bytes` makes of random bytes are fields of their types, and in the text of it the
-- character at 14 is `4`, and that at 19 is `8`, `9`, `A` or `B`.
pub gen_uuid_bytes-version :
    (u : Uuid)
    → IsUuid u
    → IsUuid (gen_uuid_bytes u)
      × (get_or (uuid_to_string (gen_uuid_bytes u)) 14 0 ≡ 0x34)
      × ((get_or (uuid_to_string (gen_uuid_bytes u)) 19 0 ≡ 0x38)
          ⊎ (get_or (uuid_to_string (gen_uuid_bytes u)) 19 0 ≡ 0x39)
          ⊎ (get_or (uuid_to_string (gen_uuid_bytes u)) 19 0 ≡ 0x41)
          ⊎ (get_or (uuid_to_string (gen_uuid_bytes u)) 19 0 ≡ 0x42))
unfolding gen_uuid_bytes uuid_to_string hex
gen_uuid_bytes-version u v = (
  gen-IsUuid u v,
  four _ (omega arith),
  variant ((u.clk_seq_high % 2 ^ 6 + 2 ^ 7) / 16 % 16) (omega arith) (omega arith),
)
