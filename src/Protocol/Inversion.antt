-- ===== src/Protocol/Inversion.antt =====
-- What `upk_deserialize_packet` has checked of a packet that it returns.
use upkeeper.Prelude.{ℕ, ◌≤◌, ◌<◌, arith, true, ◌≡◌, ◌≢◌, none, some, List, take, drop}
use upkeeper.Wire.Outcome.{ok}
use upkeeper.Wire.Read.{fetch_uint32, fetch_data}
use upkeeper.Crc.{verify_crc32}
use upkeeper.Protocol.Dispatch.{v0_deserialize_payload}
use upkeeper.Protocol.PacketFields.{Packet}
use upkeeper.Protocol.Packet.{deserialize_payload, deserialize_packet, checked, func_assert}

accepted_header :
    (b : List ℕ) (p : Packet)
    → deserialize_packet b ≡ ok p
    → (p.payload_len ≤ 65536)
      × (p.version_id ≡ 0)
      × (0 < p.pkttype)
      × (p.pkttype < 4)
      × (p.payload ≢ none)
unfolding deserialize_packet func_assert deserialize_payload v0_deserialize_payload
accepted_header b p h = ground arith

accepted_checksum :
    (b : List ℕ) (p : Packet)
    → deserialize_packet b ≡ ok p
    → verify_crc32 (take p.payload_len (drop 16 b)) p.crc32 p.payload_len ≡ some true
unfolding deserialize_packet func_assert checked fetch_uint32 fetch_data
accepted_checksum b p h = ground arith

-- A packet that `upk_deserialize_packet` returns has a length in range, version 0, a type from 1 to 3
-- and a payload that is not null, and the bytes behind its header have the checksum that it gives.
pub accepted :
    (b : List ℕ) (p : Packet)
    → deserialize_packet b ≡ ok p
    → (p.payload_len ≤ 65536)
      × (p.version_id ≡ 0)
      × (0 < p.pkttype)
      × (p.pkttype < 4)
      × (p.payload ≢ none)
      × (verify_crc32 (take p.payload_len (drop 16 b)) p.crc32 p.payload_len ≡ some true)
accepted b p h =
    let (l, v, t, u, n) = accepted_header b p h in (l, v, t, u, n, accepted_checksum b p h)
