-- ===== src/Uuid/Examples.antt =====
-- The theorems on uuid.c at one identifier.
use upkeeper.Prelude.{◌≡◌, arith, true}
use upkeeper.Uuid.Fields.{Uuid, uuid_to_string, is_valid_uuid_string, string_to_uuid}
use upkeeper.Uuid.RoundTrip.{IsUuid, string_to_uuid-to_string}

abbrev id : Uuid
id = record {
  time_low = 0x1234ABCD;
  time_mid = 0x0F;
  time_high_and_version = 0xFFFF;
  clk_seq_high = 0x7E;
  clk_seq_low = 0;
  node = (1, 2, 3, 0xFF, 0x10, 0x9A);
}

abbrev zeros : Uuid
zeros = record {
  time_low = 0;
  time_mid = 0;
  time_high_and_version = 0;
  clk_seq_high = 0;
  clk_seq_low = 0;
  node = (0, 0, 0, 0, 0, 0);
}

id-IsUuid : IsUuid id
id-IsUuid = record {
  time_low = omega arith;
  time_mid = omega arith;
  time_high = omega arith;
  seq_high = omega arith;
  seq_low = omega arith;
  node = (omega arith, omega arith, omega arith, omega arith, omega arith, omega arith);
}

string_to_uuid-to_string_example :
    (is_valid_uuid_string (uuid_to_string id) ≡ true)
    × (string_to_uuid zeros (uuid_to_string id) ≡ id)
string_to_uuid-to_string_example = string_to_uuid-to_string id zeros id-IsUuid
