-- ===== src/Protocol/Packet.antt =====
-- upk_protocol_serializer.c: packets, with version switch, bounds and checksum.
-- Sizes are those of an LP64 platform: `sizeof(upk_packet_t)` is 32, and 8 for the pointer in it.
use upkeeper.Prelude.{ℕ, ◌+◌, ◌-◌, Bool, true, false, ◌&&◌, Option, none, some, List, [], ◌∷◌}
use upkeeper.Prelude.{leb, ltb, ◌==◌, if◌then◌else◌, get_or}
use upkeeper.Wire.Outcome.{Outcome, ok, err, fault, overread, bind, Errno, unsup, invalid_pkt}
use upkeeper.Wire.Write.{run_writer}
use upkeeper.Protocol.PacketFields.{Packet, packet_writer}
use upkeeper.Wire.Read.{Reader, ◌>>=◌, ◌>>◌, pure, lift, fetch_uint32, fetch_data}
use upkeeper.Crc.{crc32 as upk_crc32, verify_crc32}
use upkeeper.Protocol.Codes.{pkt_v0_proto_limit}
use upkeeper.Protocol.Structs.{Payload}
use upkeeper.Protocol.Dispatch.{v0_deserialize_payload, v0_serialize_payload}

-- UPK_MAX_PACKET_SIZE, UPK_MIN_SUPPORTED_PROTO and UPK_MAX_SUPPORTED_PROTO
abbrev pub max_packet_size : ℕ
max_packet_size = 65536

abbrev pub min_supported_proto : ℕ
min_supported_proto = 0

abbrev pub max_supported_proto : ℕ
max_supported_proto = 0

-- upk_pkt_proto_limit
abbrev pub pkt_proto_limit : List ℕ
pkt_proto_limit = pkt_v0_proto_limit ∷ []

unfoldable pub deserialize_payload : List ℕ → ℕ → ℕ → Outcome (Option Payload)
deserialize_payload payload_buf pkttype version_id =
    if version_id == 0
    then bind (v0_deserialize_payload payload_buf pkttype) (λ m. ok (some m))
    else ok none

unfoldable pub v0_serialize_packet_payload : Packet → Outcome (List ℕ)
v0_serialize_packet_payload p = elim p.payload [
  | none ↦ fault overread
  | some m ↦ v0_serialize_payload p.pkttype m p.payload_len
]

unfoldable pub serialize_payload : Packet → Outcome (Option (List ℕ))
unfolding v0_serialize_packet_payload
serialize_payload p =
    if p.version_id == 0 then bind (v0_serialize_packet_payload p) (λ b. ok (some b)) else ok none

-- UPK_FUNC_ASSERT. The error path frees the packet that has been read so far, and returns the pointer
-- to it; the error number is what distinguishes it.
unfoldable pub func_assert : Bool → Errno → Reader (Unit {0})
func_assert true e b = ok (tt, b)
func_assert false e b = err e

-- What the checksum reads behind the end of its block is a fault.
unfoldable pub checked {ℓ} : {A : Type ℓ} → Option A → Outcome A
checked none = fault overread
checked (some a) = ok a

unfoldable pub packet_reader : Reader Packet
packet_reader = do
  payload_len ← fetch_uint32
  func_assert (leb payload_len max_packet_size) invalid_pkt
  version_id ← fetch_uint32
  func_assert (leb min_supported_proto version_id && leb version_id max_supported_proto) unsup
  seq_num ← fetch_uint32
  pkttype ← fetch_uint32
  func_assert (ltb pkttype (get_or pkt_proto_limit version_id 0)) invalid_pkt
  payload_buf ← fetch_data payload_len
  crc ← fetch_uint32
  good ← lift (checked (verify_crc32 payload_buf crc payload_len))
  func_assert good invalid_pkt
  payload ← lift (deserialize_payload payload_buf pkttype version_id)
  pure (record {
    payload_len = payload_len;
    version_id = version_id;
    seq_num = seq_num;
    pkttype = pkttype;
    payload = payload;
    crc32 = crc;
  })

unfoldable pub deserialize_packet : List ℕ → Outcome Packet
unfolding packet_reader
deserialize_packet b = bind (packet_reader b) (λ r. ok r.0)

-- A null buffer has no byte to read.
unfoldable pub block_of : Option (List ℕ) → List ℕ
block_of none = []
block_of (some b) = b

unfoldable pub serialize_packet : Packet → Outcome (List ℕ)
unfolding block_of
serialize_packet p = bind (serialize_payload p) (λ payload_buf.
    bind (checked (upk_crc32 (block_of payload_buf) p.payload_len))
      (λ crc. run_writer (packet_writer p (block_of payload_buf) crc) (32 + p.payload_len - 8)))
