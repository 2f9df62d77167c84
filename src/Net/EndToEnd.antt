-- ===== src/Net/EndToEnd.antt =====
-- upk_network.c: from the queue of one connection to the handler of another.
use upkeeper.Prelude.{ℕ, ◌+◌, ◌^◌, ◌<◌, ◌≡◌, sym, ap, ◌∙◌, true, Option, none, some, List, [], ◌++◌}
use upkeeper.Prelude.{append-nil, All, drop}
use upkeeper.Wire.Outcome.{ok, bind}
use upkeeper.LinkedList.Chain.{IsList, IsIdle}
use upkeeper.Protocol.Codes.{msgtype}
use upkeeper.Protocol.Structs.{Payload}
use upkeeper.Protocol.PacketFields.{Packet}
use upkeeper.Protocol.RoundTrip.{IsPacket}
use upkeeper.Net.Types.{Conn, Runs, is_open}
use upkeeper.Net.Writing.{queue_packet, called}
use upkeeper.Net.Pieces.{write_pieces, sum}
use upkeeper.Net.Outgoing.{bytes_of, queue-write_pieces}
use upkeeper.Net.Reading.{arrived, zeroed_readbuf, handler_of, read_packets}
use upkeeper.Net.Arriving.{IsWaiting, message_in}
use upkeeper.Net.Delivery.{at_handler, read_packets-packet}

module _ {C : Type 0} (run : Runs C) where
  -- A well-formed packet that is queued without a callback on an open connection `c` with an
  -- empty, idle queue, and written in pieces that are not empty and together have its length, is
  -- what makes a waiting connection `s`, when all its bytes have arrived, call its handler for the
  -- type of the message, if there is one, with the message, and zero its buffer.
  pub write-read :
      {p : Packet} {m : Payload} (c s : Conn C) (handler : Option C) (ns : List ℕ)
      → IsPacket p m
      → is_open c.fd ≡ true
      → IsList c.writeq []
      → IsIdle c.writeq
      → c.pending_writeq < 2 ^ 64
      → All (λ n. 0 < n) ns
      → sum ns ≡ p.payload_len + 20
      → IsWaiting s
      → handler_of (msgtype m) s ≡ ok handler
      → (d : Conn C) × (out : List ℕ) × (bind (queue_packet p none c) (write_pieces run ns)
          ≡ ok (d, out))
        × (read_packets run (arrived out) (arrived (drop 16 out)) s
            ≡ ok (record (called run handler (some (message_in m)) (at_handler s p m)) {
              readbuf = zeroed_readbuf;
            }))
  write-read {p} {m} c s handler ns v o e i b h t w g =
      let (d, q, _, _, _) = queue-write_pieces run c ns v o e i b h t in
      (
        d,
        bytes_of p m,
        q,
        ap (λ (xs : List ℕ). read_packets run (arrived xs) (arrived (drop 16 (bytes_of p m))) s)
              (sym (append-nil (bytes_of p m)))
            ∙ ap (λ (xs : List ℕ). read_packets run (arrived (bytes_of p m ++ [])) (arrived xs) s)
                (sym (append-nil (drop 16 (bytes_of p m))))
            ∙ read_packets-packet run s handler [] [] v w g,
      )
