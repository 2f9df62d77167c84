-- ===== src/Net/Reading.antt =====
-- upk_network.c: `upk_read_packets` and `upk_call_received_packet_callbacks`.
use upkeeper.Prelude.{ℕ, ◌+◌, ◌-◌, ◌%◌, ◌^◌, Bool, not, ◌&&◌, Option, none, some}
use upkeeper.Prelude.{List, ◌++◌, ltb, leb, ◌==◌, if◌then◌else◌, length, take, drop, replicate}
use upkeeper.Wire.Outcome.{Outcome, ok, err, fault, overrun, dangling, bind}
use upkeeper.Wire.Read.{fetch_uint32}
use upkeeper.LinkedList.Macros.{null}
use upkeeper.Protocol.PacketFields.{Packet}
use upkeeper.Protocol.Packet.{max_packet_size, min_supported_proto, max_supported_proto}
use upkeeper.Protocol.Packet.{deserialize_packet}
use upkeeper.Protocol.MsgSize.{msgtype_idx, get_msgtype}
use upkeeper.Net.Types.{Message, Conn, Runs, is_open, disconnect_handle}
use upkeeper.Wire.Outcome.{there}
use upkeeper.Net.Writing.{packet_header_len, packet_footer_len, minus_one, called}

-- What `read` finds: it fails; or the peer closed the connection, while errno holds an error that
-- passes, or not; or these bytes have arrived, one at least.
pub data Arrival : Type 0 where
  failed : Arrival
  closed : Bool → Arrival
  arrived : List ℕ → Arrival

-- What the code does next.
pub data Stage (C : Type 0) : Type 0 where
  done : Conn C → Stage C
  next : Conn C → Stage C

-- The bytes `bs` written over those of a buffer from an offset on.
unfoldable pub overwrite : ℕ → List ℕ → List ℕ → Outcome (List ℕ)
overwrite off bs buf =
    if leb (off + length bs) (length buf)
    then ok (take off buf ++ (bs ++ drop (off + length bs) buf))
    else fault overrun

-- The buffer after its `memset`
unfoldable pub zeroed_readbuf : List ℕ
zeroed_readbuf = replicate max_packet_size 0

module _ {C : Type 0} where
  abbrev pub then_if_next : Outcome (Stage C) → (Conn C → Outcome (Conn C)) → Outcome (Conn C)
  then_if_next (ok (done c)) f = ok c
  then_if_next (ok (next c)) f = f c
  then_if_next (err e) f = err e
  then_if_next (fault x) f = fault x

  -- The read of the header. errno is 0 before it, so that no bytes is the end. `n_hdr_bytes_read` is a
  -- uint8_t.
  unfoldable pub after_header_read : Arrival → Conn C → Outcome (Stage C)
  unfolding overwrite
  after_header_read failed c =
      ok (next (record c { n_hdr_bytes_read = (c.n_hdr_bytes_read + minus_one) % 2 ^ 8 }))
  after_header_read (closed passes) c = ok (done (disconnect_handle c))
  after_header_read (arrived available) c =
      let bs = take (packet_header_len - c.n_hdr_bytes_read) available in
      bind (overwrite 0 bs c.readbuf) λ buf. ok (
        next
          (record c { readbuf = buf; n_hdr_bytes_read = (c.n_hdr_bytes_read + length bs) % 2 ^ 8 }))

  unfoldable pub read_header : Arrival → Conn C → Outcome (Stage C)
  unfolding after_header_read
  read_header a c =
      if c.n_remaining_read == 0 && ltb c.n_hdr_bytes_read packet_header_len
      then after_header_read a c
      else ok (next c)

  -- The check of a whole header, given its first two fields.
  unfoldable pub header_checked : ℕ → ℕ → Conn C → Stage C
  header_checked payload_len version_id c =
      let d = record c { n_hdr_bytes_read = 0 } in
      if not (leb min_supported_proto version_id && leb version_id max_supported_proto)
      then done (disconnect_handle d)
      else (if ltb max_packet_size payload_len
          then done (disconnect_handle d)
          else next (record d { n_remaining_read = (payload_len + packet_footer_len) % 2 ^ 32 }))

  unfoldable pub check_header : Conn C → Outcome (Stage C)
  unfolding header_checked
  check_header c =
      if c.n_remaining_read == 0 && c.n_hdr_bytes_read == packet_header_len
      then bind (fetch_uint32 c.readbuf)
          (λ r. bind (fetch_uint32 r.1) (λ s. ok (header_checked r.0 s.0 c)))
      else ok (next c)

  -- The handler of the stack's top for a type, if there is one.
  unfoldable pub handler_of : ℕ → Conn C → Outcome (Option C)
  handler_of type c =
      if c.callback_stack.head == null
      then ok none
      else bind (there (c.callback_stack.cells c.callback_stack.head))
          (λ n. ok (n.value.msg_handlers (msgtype_idx type)))

  module _ (run : Runs C) where
    -- upk_call_received_packet_callbacks
    unfoldable pub call_received_packet_callbacks : Packet → Conn C → Outcome (Conn C)
    unfolding handler_of
    call_received_packet_callbacks pkt c = bind (get_msgtype pkt) λ type.
        let msg : Message = record { type = type; payload = pkt.payload } in
        let d = record c { last_pkt_data = msg } in
        bind (handler_of type d) λ handler. ok (called run handler (some msg) d)

    -- What follows `upk_deserialize_packet`. For a packet that it refuses it returns memory that it has
    -- freed, not NULL, and the callbacks read it.
    unfoldable pub deserialized : Outcome Packet → Conn C → Outcome (Conn C)
    unfolding call_received_packet_callbacks zeroed_readbuf
    deserialized (ok pkt) c =
        bind (call_received_packet_callbacks pkt c) λ d. ok (record d { readbuf = zeroed_readbuf })
    deserialized (err e) c = fault dangling
    deserialized (fault x) c = fault x

    -- The whole packet is in the buffer.
    unfoldable pub receive_packet : Conn C → Outcome (Conn C)
    unfolding deserialized
    receive_packet c = deserialized (deserialize_packet c.readbuf) c

    -- What follows a read of the body, with what is then left of it.
    unfoldable pub body_read : ℕ → Conn C → Outcome (Conn C)
    unfolding receive_packet
    body_read left c =
        let d = record c { n_remaining_read = left } in if left == 0 then receive_packet d else ok d

    unfoldable pub after_body_read : Arrival → Conn C → Outcome (Conn C)
    unfolding body_read
    after_body_read failed c = body_read ((c.n_remaining_read + 2 ^ 64 - minus_one) % 2 ^ 64) c
    after_body_read (closed passes) c =
        if passes then body_read c.n_remaining_read c else ok (disconnect_handle c)
    after_body_read (arrived available) c =
        let bs = take c.n_remaining_read available in
        bind (overwrite packet_header_len bs c.readbuf)
          λ buf. body_read (c.n_remaining_read - length bs) (record c { readbuf = buf })

    unfoldable pub read_body : Arrival → Conn C → Outcome (Conn C)
    unfolding after_body_read
    read_body a c = if ltb 0 c.n_remaining_read then after_body_read a c else ok c

    -- upk_read_packets, with what its two calls of `read` find.
    unfoldable pub read_packets : Arrival → Arrival → Conn C → Outcome (Conn C)
    unfolding read_header check_header read_body is_open
    read_packets header body c =
        if is_open c.fd
        then then_if_next (read_header header c)
            (λ d. then_if_next (check_header d) (read_body body))
        else ok c
