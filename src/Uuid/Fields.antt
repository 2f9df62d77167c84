-- ===== src/Uuid/Fields.antt =====
-- uuid.c: identifiers and their text.
use upkeeper.Prelude.{ℕ, zero, suc, ◌+◌, ◌%◌, ◌^◌, Bool, true, false, ◌||◌, List, [], ◌∷◌, ◌++◌}
use upkeeper.Prelude.{◌==◌, if◌then◌else◌, take, drop}
use upkeeper.Uuid.Hex.{hex, is_xdigit, strtoul}

-- uint8_t node[6]
abbrev pub Octets : Type 0
Octets = ℕ × ℕ × ℕ × ℕ × ℕ × ℕ

-- upk_uuid_t
pub record Uuid : Type 0 where
  pub time_low : ℕ
  pub time_mid : ℕ
  pub time_high_and_version : ℕ
  pub clk_seq_high : ℕ
  pub clk_seq_low : ℕ
  pub node : Octets

-- UPK_UUID_STRING_LEN
abbrev pub uuid_string_len : ℕ
uuid_string_len = 36

-- upk_gen_uuid_bytes, after the bytes are random
unfoldable pub gen_uuid_bytes : Uuid → Uuid
gen_uuid_bytes buf = record buf {
  time_high_and_version = buf.time_high_and_version % 2 ^ 12 + 2 ^ 14;
  clk_seq_high = buf.clk_seq_high % 2 ^ 6 + 2 ^ 7;
}

-- `-` and what follows
abbrev pub dash : List ℕ → List ℕ
dash s = 0x2D ∷ s

abbrev node_text : Octets → List ℕ
node_text (a, b, c, d, e, f) =
    hex 2 a ++ (hex 2 b ++ (hex 2 c ++ (hex 2 d ++ (hex 2 e ++ hex 2 f))))

-- upk_uuid_to_string. The text has as many characters as the buffer takes.
unfoldable pub uuid_to_string : Uuid → List ℕ
uuid_to_string u =
    hex 8 u.time_low
    ++ dash (
        hex 4 u.time_mid
        ++ dash (
            hex 4 u.time_high_and_version
            ++ dash (hex 2 u.clk_seq_high ++ (hex 2 u.clk_seq_low ++ dash (node_text u.node)))))

-- The test on the character at a place
unfoldable pub is_allowed : ℕ → ℕ → Bool
is_allowed i c = if i == 8 || i == 13 || i == 18 || i == 23 then c == 0x2D else is_xdigit c

-- The loop over the characters that are left, from the place `i` on. A string that ends has a zero
-- there, which no place allows.
unfoldable pub is_valid_from : ℕ → ℕ → List ℕ → Bool
unfolding is_allowed
is_valid_from zero i [] = true
is_valid_from zero i (c ∷ cs) = false
is_valid_from (suc left) i [] = false
is_valid_from (suc left) i (c ∷ cs) =
    let rest = is_valid_from left (i + 1) cs in if is_allowed i c then rest else false

-- is_valid_upk_uuid_string
unfoldable pub is_valid_uuid_string : List ℕ → Bool
unfolding is_valid_from
is_valid_uuid_string s = is_valid_from uuid_string_len 0 s

-- Two characters of the text, in a buffer of their own, as an octet
unfoldable pub octet_at : ℕ → List ℕ → ℕ
octet_at i s = strtoul (take 2 (drop i s)) 0 % 2 ^ 8

-- upk_string_to_uuid
unfoldable pub string_to_uuid : Uuid → List ℕ → Uuid
unfolding is_valid_uuid_string octet_at
string_to_uuid uuid s =
    let fields : Uuid = record {
      time_low = strtoul s 0 % 2 ^ 32;
      time_mid = strtoul (drop 9 s) 0 % 2 ^ 16;
      time_high_and_version = strtoul (drop 14 s) 0 % 2 ^ 16;
      clk_seq_high = octet_at 19 s;
      clk_seq_low = octet_at 21 s;
      node = (
        octet_at 24 s,
        octet_at 26 s,
        octet_at 28 s,
        octet_at 30 s,
        octet_at 32 s,
        octet_at 34 s,
      );
    } in
    if is_valid_uuid_string s then fields else uuid
