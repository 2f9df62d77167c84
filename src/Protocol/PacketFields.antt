-- ===== src/Protocol/PacketFields.antt =====
-- The packet of upk_protocol.h, and the fields that `upk_serialize_packet` puts in its buffer.
use upkeeper.Prelude.{ℕ, Option, List}
use upkeeper.Wire.Write.{Writer, ◌>>◌, put_uint32, put_data_from_buf}
use upkeeper.Protocol.Structs.{Payload}

-- upk_packet_t; `none` is a null payload.
pub record Packet : Type 0 where
  pub payload_len : ℕ
  pub version_id : ℕ
  pub seq_num : ℕ
  pub pkttype : ℕ
  pub payload : Option Payload
  pub crc32 : ℕ

unfoldable pub packet_writer : Packet → List ℕ → ℕ → Writer
packet_writer p payload_buf crc = do
  put_uint32 p.payload_len
  put_uint32 p.version_id
  put_uint32 p.seq_num
  put_uint32 p.pkttype
  put_data_from_buf payload_buf p.payload_len
  put_uint32 crc
