-- ===== src/Net/Damage.antt =====
-- upk_network.c: what `upk_read_packets` does with a header that is not right, or does not come at once.
use upkeeper.Prelude.{ℕ, ◌^◌, ◌<◌, ◌≡◌, ◌⊎◌, refl, arith}
use upkeeper.Prelude.{none, List, ◌++◌, drop, true}
use upkeeper.Wire.Outcome.{ok}
use upkeeper.Wire.Read.{fetch_uint32}
use upkeeper.Protocol.Packet.{max_packet_size}
use upkeeper.Net.Types.{Conn, Runs, is_open, disconnect_handle}
use upkeeper.Net.Reading.{Arrival, arrived, next, done}
use upkeeper.Net.Reading.{read_header, header_checked, check_header, read_packets}
use upkeeper.Net.Buffer.{header_bytes, length-header_bytes, fetch-header_bytes}
use upkeeper.Net.Arriving.{IsWaiting, with_header, header_arrives}

module _ {C : Type 0} where
  header_fails :
      (c : Conn C) (len version : ℕ) (after r : List ℕ)
      → c.n_remaining_read ≡ 0
      → c.n_hdr_bytes_read ≡ 16
      → fetch_uint32 c.readbuf ≡ ok (len, after)
      → fetch_uint32 after ≡ ok (version, r)
      → (0 < version) ⊎ (max_packet_size < len)
      → check_header c ≡ ok (done (record c { n_hdr_bytes_read = 0; fd = none }))
  unfolding check_header header_checked disconnect_handle
  header_fails c len version after r a b f g h = rw (a, b, f, g) (ground arith)

  module _ (run : Runs C) where
    stopped :
        (header body : Arrival) (c d e : Conn C)
        → is_open c.fd ≡ true
        → read_header header c ≡ ok (next d)
        → check_header d ≡ ok (done e)
        → read_packets run header body c ≡ ok e
    unfolding read_packets
    stopped header body c d e o h k = rw (o, h, k) refl

    -- When a header arrives that has another version than 0, or a length above UPK_MAX_PACKET_SIZE, a
    -- waiting connection is closed; nothing behind the header is read, and no callback runs.
    pub read_packets-header :
        (c : Conn C) (len version seq type : ℕ) (rest : List ℕ) (body : Arrival)
        → IsWaiting c
        → len < 2 ^ 32
        → version < 2 ^ 32
        → (0 < version) ⊎ (max_packet_size < len)
        → read_packets run (arrived (header_bytes len version seq type ++ rest)) body c
          ≡ ok (record c {
            readbuf = header_bytes len version seq type ++ drop 16 c.readbuf;
            n_hdr_bytes_read = 0;
            fd = none;
          })
    read_packets-header c len version seq type rest body w a b h =
        let hd = header_bytes len version seq type in
        let d = with_header c hd in
        let (after, q, r, t) = fetch-header_bytes len version seq type (drop 16 c.readbuf) a b in
        stopped (arrived (hd ++ rest)) body c d (record d { n_hdr_bytes_read = 0; fd = none })
          w.opened (header_arrives c hd rest w (length-header_bytes len version seq type))
          (header_fails d len version after r w.no_body refl q t h)
