-- ===== src/Net/Delivery.antt =====
-- upk_network.c: what `upk_read_packets` makes of a packet that arrives.
use upkeeper.Prelude.{ℕ, ◌+◌, ◌≡◌, refl, sym, ap, ◌∙◌, arith}
use upkeeper.Prelude.{Option, some, List, ◌++◌, append_assoc, length, drop, true}
use upkeeper.Prelude.{length-drop, drop-append}
use upkeeper.Wire.Outcome.{Outcome, ok, bind}
use upkeeper.Crc.Bitwise.{checksum}
use upkeeper.Protocol.Codes.{msgtype}
use upkeeper.Protocol.Structs.{Payload}
use upkeeper.Protocol.Layout.{payload_bytes}
use upkeeper.Protocol.PacketFields.{Packet}
use upkeeper.Protocol.Packet.{deserialize_packet}
use upkeeper.Protocol.RoundTrip.{IsPacket, Reads-packet}
use upkeeper.Net.Types.{Conn, Runs, is_open}
use upkeeper.Net.Writing.{called}
use upkeeper.Net.Reading.{Arrival, arrived, next, zeroed_readbuf}
use upkeeper.Net.Reading.{read_header, check_header, handler_of}
use upkeeper.Net.Reading.{read_body, read_packets}
use upkeeper.Net.Buffer.{packet_bytes-split, length-header_bytes}
use upkeeper.Net.Buffer.{length-body_bytes, fetch-header_bytes}
use upkeeper.Net.Outgoing.{bytes_of, short}
use upkeeper.Net.Arriving.{
  header_of, body_of, message_in, IsWaiting, with_header, with_length, header_arrives,
  header_passes, body_arrives, received,
}

in_front :
    {p : Packet} {m : Payload}
    → IsPacket p m
    → (tail : List ℕ)
    → deserialize_packet (header_of p ++ (body_of m ++ tail))
      ≡ ok (record p { payload = some m; crc32 = checksum (payload_bytes m) })
unfolding deserialize_packet
in_front {p} {m} v tail =
    ap deserialize_packet (
      sym (append_assoc (header_of p) (body_of m) tail)
      ∙ ap (λ (xs : List ℕ). xs ++ tail)
          (sym (
            packet_bytes-split p.payload_len p.version_id p.seq_num p.pkttype (payload_bytes m)
              (checksum (payload_bytes m)))))
    ∙ ap (λ r. bind r (λ q. ok q.0)) ((Reads-packet v).reads tail)

abbrev whole : Packet → Payload → List ℕ
whole p m = header_of p ++ body_of m

length-body_of : {p : Packet} {m : Payload} → IsPacket p m → length (body_of m) ≡ p.payload_len + 4
length-body_of {p} {m} v =
    omega (arith, v.counted, length-body_bytes (payload_bytes m) (checksum (payload_bytes m)))

behind : (xs ys : List ℕ) → length xs ≡ 16 → drop 16 (xs ++ ys) ≡ ys
behind xs ys h = ap (λ (n : ℕ). drop n (xs ++ ys)) (sym h) ∙ drop-append xs ys

module _ {C : Type 0} where
  same_handler :
      (c d : Conn C) (type : ℕ) (h : Outcome (Option C))
      → handler_of type c ≡ h
      → handler_of type (record d { callback_stack = c.callback_stack }) ≡ h
  unfolding handler_of
  same_handler c d type h q = q

  -- The connection in which the handler is called.
  abbrev pub at_handler : Conn C → Packet → Payload → Conn C
  at_handler c p m = record c {
    readbuf = header_of p ++ (body_of m ++ drop (length (body_of m)) (drop 16 c.readbuf));
    n_hdr_bytes_read = 0;
    n_remaining_read = 0;
    last_pkt_data = message_in m;
  }

  module _ (run : Runs C) where
    pub stages :
        (header body : Arrival) (c d e : Conn C)
        → is_open c.fd ≡ true
        → read_header header c ≡ ok (next d)
        → check_header d ≡ ok (next e)
        → read_packets run header body c ≡ read_body run body e
    unfolding read_packets
    stages header body c d e o h k = rw (o, h, k) refl

    -- On a waiting connection, when the bytes of a packet arrive and then those behind its header,
    -- whatever comes after them, `upk_read_packets` calls the handler of the stack's top for the type of
    -- the message, if it has one, with the message, and then zeroes the buffer.
    pub read_packets-packet :
        {p : Packet} {m : Payload} (c : Conn C) (handler : Option C) (rest more : List ℕ)
        → IsPacket p m
        → IsWaiting c
        → handler_of (msgtype m) c ≡ ok handler
        → read_packets run
            (arrived (bytes_of p m ++ rest))
            (arrived (drop 16 (bytes_of p m) ++ more))
            c
          ≡ ok (record (called run handler (some (message_in m)) (at_handler c p m)) {
            readbuf = zeroed_readbuf;
          })
    read_packets-packet {p} {m} c handler rest more v w h =
        let hd = header_of p in
        let sixteen = length-header_bytes p.payload_len p.version_id p.seq_num p.pkttype in
        let d = with_header c hd in
        let e = with_length d p.payload_len in
        let f = record e {
          readbuf = hd ++ (body_of m ++ drop (length (body_of m)) (drop 16 c.readbuf));
          n_remaining_read = 0;
        } in
        let (after, q, r, t) =
          fetch-header_bytes p.payload_len p.version_id p.seq_num p.pkttype (drop 16 c.readbuf)
            (omega (arith, short v)) (omega (arith, v.version)) in
        let room = length-drop 16 c.readbuf (omega (arith, w.size)) in
        ap
          (λ (xs : List ℕ).
            read_packets run (arrived (xs ++ rest)) (arrived (drop 16 xs ++ more)) c)
          (packet_bytes-split p.payload_len p.version_id p.seq_num p.pkttype (payload_bytes m)
            (checksum (payload_bytes m)))
        ∙ ap
            (λ (xs : List ℕ).
              read_packets run (arrived xs) (arrived (drop 16 (whole p m) ++ more)) c)
            (append_assoc hd (body_of m) rest)
        ∙ ap
            (λ (xs : List ℕ).
              read_packets run (arrived (hd ++ (body_of m ++ rest))) (arrived (xs ++ more)) c)
            (behind hd (body_of m) sixteen)
        ∙ stages (arrived (hd ++ (body_of m ++ rest))) (arrived (body_of m ++ more)) c d e w.opened
            (header_arrives c hd (body_of m ++ rest) w sixteen)
            (header_passes d p.payload_len p.version_id after r w.no_body refl q t v.version
              (omega (arith, short v)))
        ∙ body_arrives run e hd (body_of m) (drop 16 c.readbuf) more refl sixteen
            (omega (arith, length-body_of v, short v, room, w.size)) (sym (length-body_of v))
            (omega (arith, length-body_of v))
        ∙ received run f p m (checksum (payload_bytes m)) handler
            (in_front v (drop (length (body_of m)) (drop 16 c.readbuf)))
            (same_handler c f (msgtype m) (ok handler) h)
