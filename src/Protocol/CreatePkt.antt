-- ===== src/Protocol/CreatePkt.antt =====
-- The macros of upk_v0_protocol.c and `upk_create_pkt` of upk_protocol.c.
use upkeeper.Prelude.{ℕ, ◌+◌, List, leb, if◌then◌else◌, some}
use upkeeper.Wire.Outcome.{Outcome, ok, fault, overrun, bind, max_string_len}
use upkeeper.Wire.Write.{strnlen, front}
use upkeeper.Protocol.Structs.{Payload}
use upkeeper.Protocol.PacketFields.{Packet}

infixl 5 ◌>>=◌
abbrev pub ◌>>=◌ : {A B : Type 0} → Outcome A → (A → Outcome B) → Outcome B
m >>= f = bind m f

-- `upk_create_pkt`: the checksum is filled in by `upk_serialize_packet`.
unfoldable pub create_pkt : Payload → ℕ → ℕ → ℕ → Packet
create_pkt payload payload_len pkttype proto_ver = record {
  payload_len = payload_len;
  version_id = proto_ver;
  seq_num = 0;
  pkttype = pkttype;
  payload = some payload;
  crc32 = 0;
}

-- UPK_HELPER_ANSISTRING and the `strncpy` of `upk_create_req_preamble`: `strnlen + 1` bytes are copied
-- to an array of UPK_MAX_STRING_LEN bytes. The argument is the list of the characters before its end.
-- The result is the array, and UPK_STRING_LENGTH.
unfoldable pub helper_string : List ℕ → Outcome (List ℕ × ℕ)
helper_string s =
    let n = strnlen s max_string_len in
    if leb (n + 1) max_string_len then ok (front n s, n) else fault overrun
