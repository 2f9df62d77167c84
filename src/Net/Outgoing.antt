-- ===== src/Net/Outgoing.antt =====
-- upk_network.c: what becomes of a packet that is queued.
use upkeeper.Prelude.{ℕ, ◌+◌, ◌%◌, ◌^◌, ◌≤◌, ◌<◌, ◌≡◌, refl, ap, ◌∙◌, arith}
use upkeeper.Prelude.{Option, none, some, List, [], ◌++◌, All, length}
use upkeeper.Prelude.{le→leb, true, take-append, length-append, replicate}
use upkeeper.Wire.Outcome.{ok, bind}
use upkeeper.LinkedList.Macros.{UpkList, append, set_value}
use upkeeper.LinkedList.Chain.{IsList, IsIdle}
use upkeeper.LinkedList.Queue.{append-IsList}
use upkeeper.Crc.Bitwise.{checksum}
use upkeeper.Protocol.Structs.{Payload}
use upkeeper.Protocol.Layout.{payload_bytes}
use upkeeper.Protocol.Sizes.{payload_bytes_fit}
use upkeeper.Protocol.PacketFields.{Packet}
use upkeeper.Protocol.Packet.{max_packet_size}
use upkeeper.Protocol.RoundTrip.{IsPacket, packet_bytes, length-packet_bytes, serialize_packet_lem}
use upkeeper.Net.Types.{QueuedMsg, Conn, Runs, is_open}
use upkeeper.Net.Writing.{copied, wire_len, queue_packet, zeroed_msg}
use upkeeper.Net.Sent.{IsSending, holding, holding-IsList, set_value-this}
use upkeeper.Net.Pieces.{write_pieces, pieces_written, sum}

-- The bytes of a packet that carries `m`.
abbrev pub bytes_of : Packet → Payload → List ℕ
bytes_of p m =
    packet_bytes p.payload_len p.version_id p.seq_num p.pkttype (payload_bytes m)
      (checksum (payload_bytes m))

pub length-bytes_of :
    {p : Packet} {m : Payload} → IsPacket p m → length (bytes_of p m) ≡ 20 + p.payload_len
length-bytes_of {p} {m} v = omega (
  arith,
  v.counted,
  length-packet_bytes p.payload_len p.version_id p.seq_num p.pkttype (payload_bytes m)
      (checksum (payload_bytes m)),
)

pub short : {p : Packet} {m : Payload} → IsPacket p m → p.payload_len ≤ 8192
short {p} {m} v = omega (arith, v.counted, payload_bytes_fit m v.message)

pub wire_len-length : {p : Packet} {m : Payload} → IsPacket p m → wire_len p ≡ length (bytes_of p m)
unfolding wire_len
wire_len-length v = omega (arith, short v, length-bytes_of v)

copied-front :
    (xs ys : List ℕ) → length xs ≤ max_packet_size → copied (xs ++ ys) (length xs) ≡ ok xs
unfolding copied
copied-front xs ys h =
    rw
      (
        le→leb (length xs) (length (xs ++ ys)) (omega (arith, length-append xs ys)),
        le→leb (length xs) max_packet_size h,
        take-append xs ys,
      )
      refl

copied-packet :
    {p : Packet} {m : Payload}
    → IsPacket p m
    → copied (bytes_of p m ++ replicate 4 0) (wire_len p) ≡ ok (bytes_of p m)
copied-packet {p} {m} v =
    ap (copied (bytes_of p m ++ replicate 4 0)) (wire_len-length v)
    ∙ copied-front (bytes_of p m) (replicate 4 0) (omega (arith, length-bytes_of v, short v))

module _ {C : Type 0} where
  -- The message that stands in the queue for a packet.
  abbrev pub message_of : Packet → Payload → Option C → QueuedMsg C
  message_of p m callback = record {
    msg = bytes_of p m;
    msg_len = wire_len p;
    n_bytes_written = 0;
    after_write_callback = callback;
  }

  pub queue_packet-filled :
      {p : Packet} {m : Payload} (callback : Option C) (c : Conn C)
      → IsPacket p m
      → (q k : UpkList (QueuedMsg C)) → append zeroed_msg c.writeq ≡ some q
      → set_value (message_of p m callback) q ≡ some k
      → queue_packet p callback c
        ≡ ok (record c { writeq = k; pending_writeq = (c.pending_writeq + 1) % 2 ^ 64 })
  unfolding queue_packet
  queue_packet-filled {p} {m} callback c v q k a s =
      rw (a, serialize_packet_lem v, copied-packet v, s) refl

  -- The connection when a packet was queued on an idle one.
  pub queue_packet-IsSending :
      {p : Packet} {m : Payload} (c : Conn C)
      → IsPacket p m
      → is_open c.fd ≡ true
      → IsList c.writeq []
      → IsIdle c.writeq
      → (d : Conn C) × (queue_packet p none c ≡ ok d)
        × IsSending d c.writeq.brk (message_of p m none)
        × (d.pending_writeq ≡ (c.pending_writeq + 1) % 2 ^ 64)
        × (d.fd ≡ c.fd)
  queue_packet-IsSending {p} {m} c v o e i =
      let (q, a, l, j, t) = append-IsList zeroed_msg c.writeq [] e i (omega arith) in
      let k = holding q c.writeq.brk (message_of p m none) in
      (
        record c { writeq = k; pending_writeq = (c.pending_writeq + 1) % 2 ^ 64 },
        queue_packet-filled none c v q k a (set_value-this q c.writeq.brk zeroed_msg _ l t),
        record {
          opened = o;
          queue = holding-IsList q c.writeq.brk zeroed_msg _ l;
          idle = j;
          this = t;
          whole = wire_len-length v;
          bounded = omega (arith, wire_len-length v, length-bytes_of v, short v);
          unfinished = omega (arith, wire_len-length v, length-bytes_of v);
          no_callback = refl;
        },
        refl,
        refl,
      )

  -- A well-formed packet that is queued without a callback on an open connection with an empty,
  -- idle queue goes out as exactly its bytes, in whatever pieces the calls of `write` take it, if
  -- each takes some and together they take all. The queue is then empty and idle, and
  -- `pending_writeq` what it was.
  pub queue-write_pieces :
      (run : Runs C) {p : Packet} {m : Payload} (c : Conn C) (ns : List ℕ)
      → IsPacket p m
      → is_open c.fd ≡ true
      → IsList c.writeq []
      → IsIdle c.writeq
      → c.pending_writeq < 2 ^ 64
      → All (λ n. 0 < n) ns
      → sum ns ≡ p.payload_len + 20
      → (d : Conn C) × (bind (queue_packet p none c) (write_pieces run ns) ≡ ok (d, bytes_of p m))
        × IsList d.writeq []
        × IsIdle d.writeq
        × (d.pending_writeq ≡ c.pending_writeq)
  queue-write_pieces run {p} {m} c ns v o e i b h s =
      let (q, w, l, n, f) = queue_packet-IsSending c v o e i in
      let (d, g, t) =
        pieces_written run ns q c.writeq.brk (message_of p m none) l h
          (omega (arith, s, wire_len-length v, length-bytes_of v)) in
      (
        d,
        ap (λ r. bind r (write_pieces run ns)) w ∙ g,
        t.empty,
        t.idle,
        omega (arith, t.counted, n, b),
      )
