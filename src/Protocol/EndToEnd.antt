-- ===== src/Protocol/EndToEnd.antt =====
-- From a call of the library on one side to the message on the other.
use upkeeper.Prelude.{◌≡◌, refl, List, ℕ, some}
use upkeeper.Wire.Outcome.{ok}
use upkeeper.Protocol.Codes.{pkttype_of}
use upkeeper.Protocol.PacketFields.{Packet}
use upkeeper.Protocol.Packet.{serialize_packet, deserialize_packet}
use upkeeper.Protocol.RoundTrip.{deserialize-serialize}
use upkeeper.Protocol.Calls.{Call, create, message, IsCall}
use upkeeper.Protocol.CallLaws.{packet_of, create-message}

-- Each call with short strings and numbers that fit creates a packet, the packet is serialized within
-- its buffer, and what is serialized is read back as a packet of the right type with the message of
-- the call.
pub send_receive :
    (c : Call)
    → IsCall c
    → (p : Packet) × (b : List ℕ) × (q : Packet) × (create 0 c ≡ ok (some p))
      × (serialize_packet p ≡ ok b)
      × (deserialize_packet b ≡ ok q)
      × (q.pkttype ≡ pkttype_of (message c))
      × (q.payload ≡ some (message c))
send_receive c h =
    let (made, valid) = create-message c h in
    let (b, written, size, back) = deserialize-serialize (message c) valid in
    (packet_of (message c), b, _, made, written, back, valid.typed, refl)
