-- ===== src/Net/Overtaking.antt =====
-- upk_network.c: two packets in the queue at once.
use upkeeper.Prelude.{ℕ, ◌+◌, ◌-◌, ◌%◌, ◌^◌, ◌≤◌, ◌<◌, ◌≡◌, ◌≢◌, refl, sym, ap, ◌∙◌, arith}
use upkeeper.Prelude.{none, some, List, [], ◌∷◌, length, take, true, eq→==, ne→==_false}
use upkeeper.Prelude.{le→ltb_false, take_all}
use upkeeper.Wire.Outcome.{ok, bind}
use upkeeper.LinkedList.Macros.{Ptr, null, UpkList, set_value, value_of, unlink}
use upkeeper.LinkedList.Chain.{node, IsList, IsIdle}
use upkeeper.LinkedList.Unlink.{unlink-first}
use upkeeper.LinkedList.Queue.{append-IsList}
use upkeeper.Protocol.Structs.{Payload}
use upkeeper.Protocol.PacketFields.{Packet}
use upkeeper.Protocol.RoundTrip.{IsPacket}
use upkeeper.Net.Types.{QueuedMsg, Conn, Runs, is_open}
use upkeeper.Net.Writing.{
  Sending, sent, wire_len, queue_packet, write_packets, zeroed_msg, advance_write,
}
use upkeeper.Net.Sent.{IsSending, written_out-quiet, holding, emptied}
use upkeeper.Net.Outgoing.{
  bytes_of, message_of, queue_packet-filled, queue_packet-IsSending, wire_len-length,
  length-bytes_of, short,
}

module _ {C : Type 0} where
  -- `thisp` is the last message, `k` at `b`, of which nothing is written.
  record IsLatest (c : Conn C) (b : Ptr) (k : QueuedMsg C) : Type 0 where
    opened : is_open c.fd ≡ true
    last : c.writeq.cells b ≡ node null k
    not_null : b ≢ null
    idle : IsIdle c.writeq
    this : c.writeq.thisp ≡ b
    count : 1 ≤ c.writeq.count
    bounded : k.msg_len < 2 ^ 64
    unwritten : k.n_bytes_written ≡ 0
    some_bytes : 0 < k.msg_len
    no_callback : k.after_write_callback ≡ none

  value_of-latest :
      (c : Conn C) (b : Ptr) (k : QueuedMsg C) → IsLatest c b k → value_of c.writeq ≡ some k
  unfolding value_of
  value_of-latest c b k v = rw (v.this, v.last) refl

  set_value-latest :
      (c : Conn C) (b : Ptr) (k h : QueuedMsg C)
      → IsLatest c b k
      → set_value h c.writeq ≡ some (holding c.writeq b h)
  unfolding set_value
  set_value-latest c b k h v = rw (v.this, v.last) refl

  unlink-latest :
      (c : Conn C) (b : Ptr) (k h : QueuedMsg C)
      → IsLatest c b k
      → unlink (holding c.writeq b h) ≡ some (emptied (holding c.writeq b h) b)
  unlink-latest c b k h v =
      unlink-first (holding c.writeq b h) (record { next = null; value = h }) v.idle.0
        (λ e. v.not_null (sym v.this ∙ e)) (ground (arith, v.this))

  abbrev all_written : QueuedMsg C → QueuedMsg C
  all_written k = record k { n_bytes_written = k.msg_len }

  abbrev without_latest : Conn C → Ptr → QueuedMsg C → Conn C
  without_latest c b k = record c {
    writeq = emptied (holding c.writeq b (all_written k)) b;
    pending_writeq = (c.pending_writeq + 2 ^ 64 - 1) % 2 ^ 64;
  }

  module _ (run : Runs C) where
    latest_written :
        (c : Conn C) (b : Ptr) (k : QueuedMsg C)
        → IsLatest c b k
        → write_packets run (sent k.msg_len) c ≡ ok (without_latest c b k, take k.msg_len k.msg)
    unfolding write_packets advance_write
    latest_written c b k v =
        let h = all_written k in
        let fits : (k.n_bytes_written + k.msg_len) % 2 ^ 64 ≡ k.msg_len =
          omega (arith, v.bounded, v.unwritten) in
        rw
          (
            value_of-latest c b k v,
            v.opened,
            le→ltb_false 1 c.writeq.count v.count,
            ne→==_false c.writeq.thisp 0 (λ e. v.not_null (sym v.this ∙ e)),
            ne→==_false k.msg_len k.n_bytes_written (omega (arith, v.some_bytes, v.unwritten)),
            le→ltb_false k.n_bytes_written k.msg_len (omega (arith, v.unwritten)),
            fits,
            set_value-latest c b k h v,
            eq→== k.msg_len k.msg_len refl,
            written_out-quiet run h (record c { writeq = holding c.writeq b h }) v.no_callback,
            unlink-latest c b k h v,
            v.unwritten,
          )
          refl

    -- No message is `thisp`.
    none_written :
        (w : Sending) (c : Conn C) → c.writeq.thisp ≡ null → write_packets run w c ≡ ok (c, [])
    unfolding write_packets
    none_written w c h = rw h (ground arith)

  set_value-second :
      (q : UpkList (QueuedMsg C)) (a b : Ptr) (m z k : QueuedMsg C)
      → IsList q ((a, m) ∷ (b, z) ∷ [])
      → q.thisp ≡ b
      → set_value k q ≡ some (holding q b k)
  unfolding set_value
  set_value-second q a b m z k l t = rw (t, l.chain.2.0) refl

  queue_packet-IsLatest :
      {p : Packet} {r : Payload} (c : Conn C) (a : Ptr) (m : QueuedMsg C)
      → IsPacket p r
      → IsSending c a m
      → (d : Conn C) × (b : Ptr) × (queue_packet p none c ≡ ok d)
        × IsLatest d b (message_of p r none)
        × (d.writeq.count ≡ 2)
        × (d.pending_writeq ≡ (c.pending_writeq + 1) % 2 ^ 64)
  queue_packet-IsLatest {p} {r} c a m v s =
      let (q, f, l, i, t) =
        append-IsList zeroed_msg c.writeq ((a, m) ∷ []) s.queue s.idle (omega arith) in
      let b = c.writeq.brk in
      let size : wire_len p ≡ length (bytes_of p r) = wire_len-length v in
      (
        record c {
          writeq = holding q b (message_of p r none);
          pending_writeq = (c.pending_writeq + 1) % 2 ^ 64;
        },
        b,
        queue_packet-filled none c v q _ f (set_value-second q a b m zeroed_msg _ l t),
        record {
          opened = s.opened;
          last = ground arith;
          not_null = l.chain.2.1;
          idle = i;
          this = t;
          count = omega (arith, l.count);
          bounded = omega (arith, size, length-bytes_of v, short v);
          unwritten = refl;
          some_bytes = omega (arith, size, length-bytes_of v);
          no_callback = refl;
        },
        l.count,
        refl,
      )

  -- Of two well-formed packets without callbacks that are queued on an open connection with an
  -- empty, idle queue, before anything is written, the second goes out first; when `write` took it
  -- whole, no later call of `upk_write_packets` writes anything or changes the connection,
  -- whatever `write` would return, though `count` and `pending_writeq` still count the first.
  pub queue-queue :
      (run : Runs C) {p q : Packet} {m r : Payload} (c : Conn C)
      → IsPacket p m
      → IsPacket q r
      → is_open c.fd ≡ true
      → IsList c.writeq []
      → IsIdle c.writeq
      → c.pending_writeq + 2 < 2 ^ 64
      → (d : Conn C) × (bind
            (queue_packet p none c)
            (λ s. bind (queue_packet q none s) (write_packets run (sent (q.payload_len + 20))))
          ≡ ok (d, bytes_of q r))
        × ((w : Sending) → write_packets run w d ≡ ok (d, []))
        × (d.writeq.count ≡ 1)
        × (d.pending_writeq ≡ c.pending_writeq + 1)
  queue-queue run {p} {q} {m} {r} c v w o e i b =
      let (s, f, l, n, _) = queue_packet-IsSending c v o e i in
      let (t, a, g, k, two, h) = queue_packet-IsLatest s c.writeq.brk (message_of p m none) w l in
      let new = message_of q r none in
      let size : q.payload_len + 20 ≡ new.msg_len =
        omega (arith, wire_len-length w, length-bytes_of w) in
      let whole : take new.msg_len (bytes_of q r) ≡ bytes_of q r =
        ap (λ (x : ℕ). take x (bytes_of q r)) (wire_len-length w) ∙ take_all (bytes_of q r) in
      (
        without_latest t a new,
        ap
              (λ u.
                bind u (λ s.
                  bind (queue_packet q none s) (write_packets run (sent (q.payload_len + 20)))))
              f
            ∙ ap (λ u. bind u (write_packets run (sent (q.payload_len + 20)))) g
            ∙ ap (λ (x : ℕ). write_packets run (sent x) t) size
            ∙ latest_written run t a new k
            ∙ ap (λ (x : List ℕ). ok (without_latest t a new, x)) whole,
        λ u. none_written run u (without_latest t a new) refl,
        omega (arith, two),
        omega (arith, h, n, b),
      )
