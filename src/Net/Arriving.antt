-- ===== src/Net/Arriving.antt =====
-- upk_network.c: the steps of `upk_read_packets`.
use upkeeper.Prelude.{ℕ, ◌+◌, ◌-◌, ◌%◌, ◌^◌, ◌≤◌, ◌<◌, ◌≡◌, refl, sym, ap, ◌∙◌, arith}
use upkeeper.Prelude.{Option, some, List, [], ◌++◌, length, drop, true}
use upkeeper.Prelude.{lt→ltb, le→ltb_false}
use upkeeper.Wire.Outcome.{ok, bind}
use upkeeper.Wire.Read.{fetch_uint32}
use upkeeper.Crc.Bitwise.{checksum}
use upkeeper.Protocol.Codes.{msgtype}
use upkeeper.Protocol.Structs.{Payload}
use upkeeper.Protocol.Layout.{payload_bytes}
use upkeeper.Protocol.PacketFields.{Packet}
use upkeeper.Protocol.Packet.{deserialize_packet, max_packet_size}
use upkeeper.Protocol.MsgSize.{get_msgtype}
use upkeeper.Net.Types.{Conn, Runs, is_open, Message}
use upkeeper.Net.Writing.{called}
use upkeeper.Net.Reading.{arrived, next, zeroed_readbuf, after_header_read}
use upkeeper.Net.Reading.{
  read_header, header_checked, check_header, handler_of, call_received_packet_callbacks,
}
use upkeeper.Net.Reading.{deserialized, receive_packet, body_read, after_body_read, read_body}
use upkeeper.Net.Buffer.{header_bytes, body_bytes}
use upkeeper.Net.Buffer.{overwrite-behind, take-asked}

abbrev pub header_of : Packet → List ℕ
header_of p = header_bytes p.payload_len p.version_id p.seq_num p.pkttype

-- What the handler gets.
abbrev pub message_in : Payload → Message
message_in m = record { type = msgtype m; payload = some m }

abbrev pub body_of : Payload → List ℕ
body_of m = body_bytes (payload_bytes m) (checksum (payload_bytes m))

module _ {C : Type 0} where
  -- The connection waits for a packet.
  pub record IsWaiting (c : Conn C) : Type 0 where
    pub opened : is_open c.fd ≡ true
    pub no_header : c.n_hdr_bytes_read ≡ 0
    pub no_body : c.n_remaining_read ≡ 0
    pub size : length c.readbuf ≡ max_packet_size

  abbrev pub with_header : Conn C → List ℕ → Conn C
  with_header c hd = record c { readbuf = hd ++ drop 16 c.readbuf; n_hdr_bytes_read = 16 }

  abbrev pub with_length : Conn C → ℕ → Conn C
  with_length c len = record c { n_hdr_bytes_read = 0; n_remaining_read = len + 4 }

  pub header_arrives :
      (c : Conn C) (hd rest : List ℕ)
      → IsWaiting c
      → length hd ≡ 16
      → read_header (arrived (hd ++ rest)) c ≡ ok (next (with_header c hd))
  unfolding read_header after_header_read
  header_arrives c hd rest v h =
      rw
        (
          v.no_body,
          v.no_header,
          take-asked 16 hd rest (sym h),
          overwrite-behind [] hd c.readbuf 0 refl (omega (arith, v.size)),
          h,
        )
        refl

  pub header_passes :
      (c : Conn C) (len version : ℕ) (after r : List ℕ)
      → c.n_remaining_read ≡ 0
      → c.n_hdr_bytes_read ≡ 16
      → fetch_uint32 c.readbuf ≡ ok (len, after)
      → fetch_uint32 after ≡ ok (version, r)
      → version ≡ 0
      → len ≤ max_packet_size
      → check_header c ≡ ok (next (with_length c len))
  unfolding check_header header_checked
  header_passes c len version after r a b f g v h =
      let fits : (len + 4) % 2 ^ 32 ≡ len + 4 = omega arith in
      rw (a, b, f, g, v, le→ltb_false len max_packet_size h, fits) refl

  module _ (run : Runs C) where
    pub body_arrives :
        (c : Conn C) (hd body tail rest : List ℕ)
        → c.readbuf ≡ hd ++ tail
        → length hd ≡ 16
        → length body ≤ length tail
        → c.n_remaining_read ≡ length body
        → 0 < length body
        → read_body run (arrived (body ++ rest)) c
          ≡ receive_packet run
              (record c { readbuf = hd ++ (body ++ drop (length body) tail); n_remaining_read = 0 })
    unfolding read_body after_body_read body_read
    body_arrives c hd body tail rest e h fits n b =
        let none_left : length body - length body ≡ 0 = omega arith in
        rw
          (
            n,
            lt→ltb 0 (length body) b,
            take-asked (length body) body rest refl,
            e,
            overwrite-behind hd body tail 16 (sym h) fits,
            none_left,
          )
          refl

    pub received :
        (c : Conn C) (p : Packet) (m : Payload) (k : ℕ) (handler : Option C)
        → deserialize_packet c.readbuf ≡ ok (record p { payload = some m; crc32 = k })
        → handler_of (msgtype m) c ≡ ok handler
        → receive_packet run c
          ≡ ok
              (record (called run handler
                (some (message_in m))
                (record c { last_pkt_data = message_in m })) { readbuf = zeroed_readbuf })
    unfolding receive_packet deserialized call_received_packet_callbacks get_msgtype handler_of
    received c p m k handler d h =
        let msg : Message = message_in m in
        ap (λ r. deserialized run r c) d
        ∙ ap
            (λ t.
              bind (bind t (λ g. ok (called run g (some msg) (record c { last_pkt_data = msg }))))
                (λ (d : Conn C). ok (record d { readbuf = zeroed_readbuf })))
            h
