-- ===== src/Net/Examples.antt =====
-- The theorems on upk_network.c at two connections, with a listing request.
use upkeeper.Prelude.{ℕ, ◌≡◌, refl, arith, inl, true}
use upkeeper.Prelude.{none, some, List, [], ◌∷◌, ◌++◌, drop, if◌then◌else◌, ◌==◌}
use upkeeper.Wire.Outcome.{ok, bind}
use upkeeper.Wire.Write.{be32}
use upkeeper.LinkedList.Macros.{null, Node, UpkList, update}
use upkeeper.LinkedList.Chain.{node, IsList, IsIdle}
use upkeeper.Protocol.Structs.{Payload}
use upkeeper.Protocol.Layout.{payload_bytes}
use upkeeper.Protocol.PacketFields.{Packet}
use upkeeper.Protocol.MsgSize.{msgtype_idx}
use upkeeper.Protocol.RoundTrip.{IsPacket}
use upkeeper.Net.Types.{QueuedMsg, CallbackStack, Conn, Runs, is_open}
use upkeeper.Net.Writing.{Sending, sent, queue_packet, write_packets, minus_one}
use upkeeper.Net.Writing as Writing
use upkeeper.Net.Sent.{IsSending}
use upkeeper.Net.Pieces.{write_pieces}
use upkeeper.Net.Outgoing.{bytes_of, queue-write_pieces}
use upkeeper.Net.Overtaking.{queue-queue}
use upkeeper.Net.Reading.{
  Arrival, arrived, next, zeroed_readbuf, handler_of, read_header, read_packets,
}
use upkeeper.Net.Reading as Reading
use upkeeper.Net.Buffer.{header_bytes, length-zeroed_readbuf}
use upkeeper.Net.Arriving.{IsWaiting}
use upkeeper.Net.Delivery.{at_handler, read_packets-packet}
use upkeeper.Net.EndToEnd.{write-read}
use upkeeper.Net.Damage.{read_packets-header}

abbrev request : Packet
request = record {
  payload_len = 4;
  version_id = 0;
  seq_num = 0;
  pkttype = 1;
  payload = some Payload.req_list;
  crc32 = 0;
}

request-IsPacket : IsPacket request Payload.req_list
unfolding payload_bytes be32
request-IsPacket = record {
  message = tt;
  carries = refl;
  typed = refl;
  version = refl;
  counted = refl;
  sequence = omega arith;
}

abbrev no_list {ℓ} : {A : Type ℓ} → UpkList A
no_list = record {
  head = null;
  tail = null;
  prevp = null;
  nextp = null;
  tempp = null;
  thisp = null;
  count = 0;
  cells = λ p. none;
  brk = 1;
}

-- Handler 7 for the listing request.
abbrev handlers : Node (CallbackStack ℕ)
handlers = record {
  next = null;
  value = record {
    msg_handlers = λ i. if i == 5 then some 7 else none;
    net_dispatch_pre = none;
    net_dispatch_foreach = none;
    net_dispatch_post = none;
  };
}

abbrev handler_list : UpkList (CallbackStack ℕ)
handler_list = record no_list {
  head = 1;
  tail = 1;
  thisp = 1;
  count = 1;
  cells = update (λ p. none) 1 (some handlers);
  brk = 2;
}

abbrev conn : Conn ℕ
conn = record {
  fd = some 5;
  readbuf = zeroed_readbuf;
  n_hdr_bytes_read = 0;
  n_remaining_read = 0;
  writeq = no_list;
  last_pkt_data = record { type = 0; payload = none };
  callback_stack = handler_list;
  pending_writeq = 0;
}

-- A callback closes the connection.
abbrev closes : Runs ℕ
closes f m c = record c { fd = none }

no_list-IsList : IsList (no_list {A = QueuedMsg ℕ}) []
no_list-IsList = record {
  chain = tt;
  head = refl;
  tail = refl;
  count = refl;
  below = tt;
  distinct = tt;
  not_null = omega arith;
}

conn_opened : is_open conn.fd ≡ true
unfolding is_open
conn_opened = refl

conn-IsWaiting : IsWaiting conn
conn-IsWaiting = record {
  opened = conn_opened;
  no_header = refl;
  no_body = refl;
  size = length-zeroed_readbuf;
}

queue-write_pieces_example :
    (d : Conn ℕ) × (bind (queue_packet request none conn) (write_pieces closes (10 ∷ 14 ∷ []))
      ≡ ok (d, bytes_of request Payload.req_list))
    × IsList d.writeq []
    × IsIdle d.writeq
    × (d.pending_writeq ≡ 0)
queue-write_pieces_example =
    queue-write_pieces closes conn (10 ∷ 14 ∷ []) request-IsPacket conn_opened no_list-IsList
      (refl, refl) (omega arith) (omega arith) refl

queue-queue_example :
    (d : Conn ℕ) × (bind
        (queue_packet request none conn)
        (λ s. bind (queue_packet request none s) (write_packets closes (sent 24)))
      ≡ ok (d, bytes_of request Payload.req_list))
    × ((w : Sending) → write_packets closes w d ≡ ok (d, []))
    × (d.writeq.count ≡ 1)
    × (d.pending_writeq ≡ 1)
queue-queue_example =
    queue-queue closes conn request-IsPacket request-IsPacket conn_opened no_list-IsList
      (refl, refl) (omega arith)

-- Two bytes to write.
abbrev two_bytes : QueuedMsg ℕ
two_bytes = record {
  msg = 8 ∷ 9 ∷ [];
  msg_len = 2;
  n_bytes_written = 0;
  after_write_callback = none;
}

abbrev sending : Conn ℕ
sending = record conn {
  writeq = record no_list {
    head = 1;
    tail = 1;
    thisp = 1;
    count = 1;
    cells = update (λ p. none) 1 (node null two_bytes);
    brk = 2;
  };
  pending_writeq = 1;
}

sending-IsSending : IsSending sending 1 two_bytes
sending-IsSending = record {
  opened = conn_opened;
  queue = record {
    chain = (refl, λ h. omega (arith, h), tt);
    head = refl;
    tail = refl;
    count = refl;
    below = omega arith;
    distinct = omega arith;
    not_null = omega arith;
  };
  idle = (refl, refl);
  this = refl;
  whole = refl;
  bounded = omega arith;
  unfinished = omega arith;
  no_callback = refl;
}

handler_of-request : handler_of 6 conn ≡ ok (some 7)
unfolding handler_of msgtype_idx
handler_of-request = refl

read_packets-packet_example :
    read_packets closes
      (arrived (bytes_of request Payload.req_list ++ (1 ∷ [])))
      (arrived (drop 16 (bytes_of request Payload.req_list) ++ []))
      conn
    ≡ ok (record (at_handler conn request Payload.req_list) { fd = none; readbuf = zeroed_readbuf })
unfolding Writing.called
read_packets-packet_example =
    read_packets-packet closes conn (some 7) (1 ∷ []) [] request-IsPacket conn-IsWaiting
      handler_of-request

write-read_example :
    (d : Conn ℕ) × (out : List ℕ) × (bind
        (queue_packet request none conn)
        (write_pieces closes (24 ∷ []))
      ≡ ok (d, out))
    × (read_packets closes (arrived out) (arrived (drop 16 out)) conn
        ≡ ok (record (at_handler conn request Payload.req_list) {
          fd = none;
          readbuf = zeroed_readbuf;
        }))
unfolding Writing.called
write-read_example =
    write-read closes conn conn (some 7) (24 ∷ []) request-IsPacket conn_opened no_list-IsList
      (refl, refl) (omega arith) (omega arith) refl conn-IsWaiting handler_of-request

read_packets-header_example :
    read_packets closes (arrived (header_bytes 4 1 0 1 ++ [])) Reading.failed conn
    ≡ ok (record conn {
      readbuf = header_bytes 4 1 0 1 ++ drop 16 zeroed_readbuf;
      n_hdr_bytes_read = 0;
      fd = none;
    })
read_packets-header_example =
    read_packets-header closes conn 4 1 0 1 [] Reading.failed conn-IsWaiting (omega arith)
      (omega arith) (inl (omega arith))
