-- ===== src/Protocol/Examples.antt =====
-- Runs of the client protocol, and its theorems at concrete messages.
use upkeeper.Prelude.{◌≡◌, ◌≢◌, refl, ℕ, ◌<◌, ◌≤◌, arith, List, [], ◌∷◌, ◌++◌, true}
use upkeeper.Prelude.{some, none, length, replicate}
use upkeeper.Wire.Outcome.{ok, err, invalid_pkt}
use upkeeper.Wire.Write.{be32}
use upkeeper.Wire.Read.{fetch_uint32, fetch_data, from_be32}
use upkeeper.Crc.{crc_table, crc_step, crc_loop, crc32, verify_crc32}
use upkeeper.Crc.Bitwise.{checksum}
use upkeeper.Protocol.Structs.{Payload, ReqAction}
use upkeeper.Protocol.Layout.{payload_bytes}
use upkeeper.Protocol.DeserialReq.{deserial_req_list}
use upkeeper.Protocol.Dispatch.{v0_deserialize_payload, deserialize_req_payload}
use upkeeper.Protocol.PacketFields.{Packet}
use upkeeper.Protocol.Packet.{
  serialize_packet, deserialize_packet, deserialize_payload, checked, func_assert,
}
use upkeeper.Protocol.Calls.{Call, create}
use upkeeper.Protocol.CallLaws.{packet_of, create-message}
use upkeeper.Protocol.RoundTrip.{IsPacket, packet_bytes, deserialize-serialize}
use upkeeper.Protocol.Refusal.{refuses_damaged}
use upkeeper.Protocol.Inversion.{accepted}
use upkeeper.Protocol.EndToEnd.{send_receive}

-- `upk_create_req_action(handle, "a", "go")`
abbrev go : Call
go = Call.req_action (0x61 ∷ []) (0x67 ∷ 0x6f ∷ [])

abbrev go_action : ReqAction
go_action = record { svc_id_len = 1; svc_id = 0x61 ∷ []; action_len = 2; action = 0x67 ∷ 0x6f ∷ [] }

abbrev list_packet : Packet
list_packet = record {
  payload_len = 4;
  version_id = 0;
  seq_num = 0;
  pkttype = 1;
  payload = some Payload.req_list;
  crc32 = 0;
}

-- The listing request, as it is sent.
abbrev list_buffer : List ℕ
list_buffer =
    0 ∷ 0 ∷ 0 ∷ 4 ∷ 0 ∷ 0 ∷ 0 ∷ 0 ∷ 0 ∷ 0 ∷ 0 ∷ 0 ∷ 0 ∷ 0 ∷ 0 ∷ 1 ∷ 0 ∷ 0 ∷ 0 ∷ 6 ∷ 22 ∷ 156 ∷ 90
    ∷ 202 ∷ 0 ∷ 0 ∷ 0 ∷ 0 ∷ []

list_read : deserialize_packet list_buffer ≡ ok (record list_packet { crc32 = 379345610 })
unfolding deserialize_packet fetch_uint32 fetch_data from_be32 func_assert checked verify_crc32
    crc32 crc_loop crc_step crc_table deserialize_payload v0_deserialize_payload
    deserialize_req_payload deserial_req_list
list_read = refl

list_IsPacket : IsPacket list_packet Payload.req_list
unfolding payload_bytes be32
list_IsPacket = record {
  message = tt;
  carries = refl;
  typed = refl;
  version = refl;
  counted = refl;
  sequence = omega arith;
}

list_bytes : payload_bytes Payload.req_list ≡ (0 ∷ 0 ∷ 0 ∷ []) ++ (6 ∷ [])
unfolding payload_bytes be32
list_bytes = refl

send_receive_example :
    (p : Packet) × (b : List ℕ) × (q : Packet) × (create 0 go ≡ ok (some p))
    × (serialize_packet p ≡ ok b)
    × (deserialize_packet b ≡ ok q)
    × (q.pkttype ≡ 1)
    × (q.payload ≡ some (Payload.req_action go_action))
send_receive_example = send_receive go (omega arith)

create-message_example :
    (create 0 go ≡ ok (some (packet_of (Payload.req_action go_action))))
    × IsPacket (packet_of (Payload.req_action go_action)) (Payload.req_action go_action)
create-message_example = create-message go (omega arith)

deserialize-serialize_example :
    (b : List ℕ) × (serialize_packet list_packet ≡ ok b)
    × (length b ≡ 28)
    × (deserialize_packet b
        ≡ ok (record list_packet { crc32 = checksum (payload_bytes Payload.req_list) }))
deserialize-serialize_example = deserialize-serialize Payload.req_list list_IsPacket

refuses_damaged_example :
    (crc : ℕ) × (serialize_packet list_packet
      ≡ ok (packet_bytes 4 0 0 1 (0 ∷ 0 ∷ 0 ∷ 6 ∷ []) crc ++ replicate 4 0))
    × (deserialize_packet (packet_bytes 4 0 0 1 (0 ∷ 0 ∷ 0 ∷ 7 ∷ []) crc ++ replicate 4 0)
        ≡ err invalid_pkt)
refuses_damaged_example =
    refuses_damaged Payload.req_list (0 ∷ 0 ∷ 0 ∷ []) [] 6 7 list_IsPacket list_bytes (omega arith)
      (omega arith)

accepted_example :
    (4 ≤ 65536)
    × (◌≡◌ {A = ℕ} 0 0)
    × (0 < 1)
    × (1 < 4)
    × (some Payload.req_list ≢ none)
    × (verify_crc32 (0 ∷ 0 ∷ 0 ∷ 6 ∷ []) 379345610 4 ≡ some true)
accepted_example = accepted list_buffer (record list_packet { crc32 = 379345610 }) list_read

-- 2048 characters
abbrev long_name : List ℕ
long_name = replicate 2048 0x61
