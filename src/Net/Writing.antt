-- ===== src/Net/Writing.antt =====
-- upk_network.c: `upk_queue_packet` and `upk_write_packets`.
use upkeeper.Prelude.{ℕ, ◌+◌, ◌-◌, ◌%◌, ◌^◌, Bool, ◌||◌, Option, none, some, List, []}
use upkeeper.Prelude.{ltb, leb, ◌==◌, if◌then◌else◌, length, take, drop}
use upkeeper.Wire.Outcome.{Outcome, ok, fault, overrun, overread, bind, there}
use upkeeper.LinkedList.Macros.{null, append, unlink, value_of, set_value}
use upkeeper.Protocol.PacketFields.{Packet}
use upkeeper.Protocol.Packet.{serialize_packet, max_packet_size}
use upkeeper.Net.Types.{QueuedMsg, Conn, Message, Runs, is_open, disconnect_handle}

-- UPK_PACKET_HEADER_LEN, UPK_PACKET_FOOTER_LEN
abbrev pub packet_header_len : ℕ
packet_header_len = 16

abbrev pub packet_footer_len : ℕ
packet_footer_len = 4

-- -1 as a size_t
abbrev pub minus_one : ℕ
minus_one = 2 ^ 64 - 1

-- What `write` did: it failed, it wrote nothing while errno held an error that passes (or one that
-- does not), or it took so many bytes.
pub data Sending : Type 0 where
  failed : Sending
  nothing : Bool → Sending
  sent : ℕ → Sending

-- `msg_len`: the sum is one of uint32_t
unfoldable pub wire_len : Packet → ℕ
wire_len p = (packet_header_len + p.payload_len + packet_footer_len) % 2 ^ 32

-- `memcpy` of `n` bytes of the buffer to the array `msg`
unfoldable pub copied : List ℕ → ℕ → Outcome (List ℕ)
copied b n =
    if leb n (length b)
    then (if leb n max_packet_size then ok (take n b) else fault overrun)
    else fault overread

module _ {C : Type 0} where
  -- The node that `calloc` gives.
  abbrev pub zeroed_msg : QueuedMsg C
  zeroed_msg = record { msg = []; msg_len = 0; n_bytes_written = 0; after_write_callback = none }

  unfoldable pub queue_packet : Packet → Option C → Conn C → Outcome (Conn C)
  unfolding wire_len copied
  queue_packet p callback c = bind (there (append zeroed_msg c.writeq)) λ q.
      bind (serialize_packet p) λ b. bind (copied b (wire_len p)) λ bytes.
        bind
          (there (
            set_value
              (record {
                msg = bytes;
                msg_len = wire_len p;
                n_bytes_written = 0;
                after_write_callback = callback;
              })
              q))
          λ filled.
            ok (record c { writeq = filled; pending_writeq = (c.pending_writeq + 1) % 2 ^ 64 })

  module _ (run : Runs C) where
    -- The callback, if there is one.
    unfoldable pub called : Option C → Option Message → Conn C → Conn C
    called none m c = c
    called (some f) m c = run f m c

    -- What follows when a message was written whole.
    unfoldable pub written_out : QueuedMsg C → Conn C → Outcome (Conn C)
    unfolding called
    written_out m c =
        let after = called m.after_write_callback none c in
        bind (there (unlink after.writeq)) λ q. ok (record after {
          writeq = q;
          pending_writeq = (after.pending_writeq + 2 ^ 64 - 1) % 2 ^ 64;
        })

    -- `n_bytes_written += n_write`, and what follows, with the bytes that went out.
    unfoldable pub advance_write : QueuedMsg C → ℕ → Conn C → Outcome (Conn C × List ℕ)
    unfolding written_out
    advance_write m n c =
        let total = (m.n_bytes_written + n) % 2 ^ 64 in
        let grown = record m { n_bytes_written = total } in
        bind (there (set_value grown c.writeq)) λ q.
          bind
            (if total == m.msg_len
              then written_out grown (record c { writeq = q })
              else ok (record c { writeq = q }))
            λ d. ok (d, take n (drop m.n_bytes_written m.msg))

    -- What `write` returns. -1 is a large size_t, so that it is no reason to disconnect.
    unfoldable pub after_write : Sending → QueuedMsg C → Conn C → Outcome (Conn C × List ℕ)
    unfolding advance_write
    after_write failed m c = bind (advance_write m minus_one c) (λ r. ok (r.0, []))
    after_write (nothing passes) m c =
        if passes then advance_write m 0 c else ok (disconnect_handle c, [])
    after_write (sent n) m c = advance_write m n c

    -- The connection afterwards, and the bytes that went out. A count above `msg_len` is one that wrapped
    -- round: `write` would read in front of the array.
    unfoldable pub write_packets : Sending → Conn C → Outcome (Conn C × List ℕ)
    unfolding after_write is_open
    write_packets w c =
        let go = bind (there (value_of c.writeq)) λ m.
          if m.msg_len == m.n_bytes_written
          then ok (c, [])
          else (if ltb m.msg_len m.n_bytes_written then fault overread else after_write w m c) in
        if is_open c.fd
        then (if ltb c.writeq.count 1 || c.writeq.thisp == null then ok (c, []) else go)
        else ok (c, [])
