-- ===== src/Net/Nibbles.antt =====
-- upk_network.c: a header that does not come at once, and a packet that is too long.
use upkeeper.Prelude.{ℕ, ◌+◌, ◌-◌, ◌%◌, ◌^◌, ◌≤◌, ◌<◌, ◌≡◌, ◌≢◌, refl, ◌∙◌, arith}
use upkeeper.Prelude.{List, [], ◌++◌, length, take, drop, true}
use upkeeper.Prelude.{
  length-append, length-drop, take-append, take_long, length-take_le, ne→==_false, lt→ltb,
  lt→leb_false, le→ltb_false,
}
use upkeeper.Wire.Outcome.{ok, fault, overrun}
use upkeeper.Protocol.Packet.{max_packet_size}
use upkeeper.Net.Types.{Conn, Runs, is_open}
use upkeeper.Net.Writing.{minus_one}
use upkeeper.Net.Reading.{Arrival, arrived, failed, next, overwrite, after_header_read}
use upkeeper.Net.Reading.{read_header, check_header, after_body_read, read_body, read_packets}
use upkeeper.Net.Buffer.{header_bytes, length-header_bytes, fetch-header_bytes, overwrite-behind}
use upkeeper.Net.Arriving.{IsWaiting, with_header, with_length, header_arrives, header_passes}
use upkeeper.Net.Delivery.{stages}

module _ {C : Type 0} where
  -- A header that is not whole.
  check_header-later : (c : Conn C) → c.n_hdr_bytes_read ≢ 16 → check_header c ≡ ok (next c)
  unfolding check_header
  check_header-later c h = rw (ne→==_false c.n_hdr_bytes_read 16 h) (ground arith)

  -- The connection when `bs` were read as the start of a header, or behind it.
  abbrev with_nibble : Conn C → List ℕ → Conn C
  with_nibble c bs = record c {
    readbuf = bs ++ drop (length bs) c.readbuf;
    n_hdr_bytes_read = c.n_hdr_bytes_read + length bs;
  }

  nibble :
      (c : Conn C) (bs : List ℕ)
      → c.n_remaining_read ≡ 0
      → c.n_hdr_bytes_read < 16
      → c.n_hdr_bytes_read + length bs ≤ 16
      → 16 ≤ length c.readbuf
      → read_header (arrived bs) c ≡ ok (next (with_nibble c bs))
  unfolding read_header after_header_read
  nibble c bs z h b size =
      let fits : (c.n_hdr_bytes_read + length bs) % 2 ^ 8 ≡ c.n_hdr_bytes_read + length bs =
        omega arith in
      rw
        (
          z,
          lt→ltb c.n_hdr_bytes_read 16 h,
          take_long (16 - c.n_hdr_bytes_read) bs (omega arith),
          overwrite-behind [] bs c.readbuf 0 refl (omega arith),
          fits,
        )
        refl

  skips :
      (header : Arrival) (c : Conn C) → 16 < c.n_hdr_bytes_read → read_header header c ≡ ok (next c)
  unfolding read_header
  skips header c h = rw (le→ltb_false 16 c.n_hdr_bytes_read (omega arith)) (ground arith)

  failed_lem :
      (c : Conn C)
      → IsWaiting c
      → read_header failed c
        ≡ ok (next (record c { n_hdr_bytes_read = (c.n_hdr_bytes_read + minus_one) % 2 ^ 8 }))
  unfolding read_header after_header_read
  failed_lem c w = rw (w.no_body, w.no_header) refl

  module _ (run : Runs C) where
    read_body-later :
        (body : Arrival) (d : Conn C) → d.n_remaining_read ≡ 0 → read_body run body d ≡ ok d
    unfolding read_body
    read_body-later body d z = rw z refl

    waits_on :
        (header body : Arrival) (c d : Conn C)
        → is_open c.fd ≡ true
        → read_header header c ≡ ok (next d)
        → d.n_hdr_bytes_read ≢ 16
        → d.n_remaining_read ≡ 0
        → read_packets run header body c ≡ ok d
    waits_on header body c d o h n z =
        stages run header body c d d o h (check_header-later d n) ∙ read_body-later body d z

    -- When less than a header arrives on a waiting connection, and then, at a later call, more of it, the
    -- second part is put over the first: it is at the start of the buffer, though `n_hdr_bytes_read`
    -- counts both.
    pub read_packets-nibbles :
        (c : Conn C) (xs ys : List ℕ) (body : Arrival)
        → IsWaiting c
        → length xs < 16
        → length xs + length ys ≤ 16
        → (d e : Conn C) × (read_packets run (arrived xs) body c ≡ ok d)
          × (read_header (arrived ys) d ≡ ok (next e))
          × (e.n_hdr_bytes_read ≡ length xs + length ys)
          × (take (length ys) e.readbuf ≡ ys)
    read_packets-nibbles c xs ys body w h b =
        let d = with_nibble c xs in
        let room = length-drop (length xs) c.readbuf (omega (arith, w.size)) in
        (
          d,
          with_nibble d ys,
          waits_on (arrived xs) body c d w.opened
              (nibble c xs w.no_body (omega (arith, w.no_header)) (omega (arith, w.no_header))
                (omega (arith, w.size)))
              (λ q. omega (arith, q, w.no_header)) w.no_body,
          nibble d ys w.no_body (omega (arith, w.no_header)) (omega (arith, w.no_header))
              (omega (arith, w.size, room, length-append xs (drop (length xs) c.readbuf))),
          omega (arith, w.no_header),
          take-append ys (drop (length ys) d.readbuf),
        )

    stuck :
        (header body : Arrival) (d : Conn C)
        → is_open d.fd ≡ true
        → d.n_remaining_read ≡ 0
        → 16 < d.n_hdr_bytes_read
        → read_packets run header body d ≡ ok d
    stuck header body d o z h =
        waits_on header body d d o (skips header d h) (λ q. omega (arith, h, q)) z

    -- A `read` of the header that fails does not close a waiting connection: `n_hdr_bytes_read` wraps
    -- round to 255, and from then on `upk_read_packets` does nothing, whatever arrives.
    pub read_packets-failed :
        (c : Conn C) (body : Arrival)
        → IsWaiting c
        → (d : Conn C) × (read_packets run failed body c ≡ ok d)
          × (d.fd ≡ c.fd)
          × (d.n_hdr_bytes_read ≡ 255)
          × ((x y : Arrival) → read_packets run x y d ≡ ok d)
    read_packets-failed c body w =
        let d = record c { n_hdr_bytes_read = (c.n_hdr_bytes_read + minus_one) % 2 ^ 8 } in
        let full : d.n_hdr_bytes_read ≡ 255 = omega (arith, w.no_header) in
        (
          d,
          waits_on failed body c d w.opened (failed_lem c w) (λ q. omega (arith, full, q))
              w.no_body,
          refl,
          full,
          λ x y. stuck x y d w.opened w.no_body (omega (arith, full)),
        )

    overruns :
        (c : Conn C) (more : List ℕ)
        → 0 < c.n_remaining_read
        → c.n_remaining_read ≤ length more
        → length c.readbuf < 16 + c.n_remaining_read
        → read_body run (arrived more) c ≡ fault overrun
    unfolding read_body after_body_read overwrite
    overruns c more h k b =
        rw
          (
            lt→ltb 0 c.n_remaining_read h,
            length-take_le c.n_remaining_read more k,
            lt→leb_false (16 + c.n_remaining_read) (length c.readbuf) b,
          )
          refl

    -- A header that promises more than 65516 bytes and at most UPK_MAX_PACKET_SIZE is let through by a
    -- waiting connection, and when all of the rest has arrived, the read of it writes past the end of the
    -- buffer.
    pub read_packets-overrun :
        (c : Conn C) (len seq type : ℕ) (rest more : List ℕ)
        → IsWaiting c
        → 65516 < len
        → len ≤ max_packet_size
        → len + 4 ≤ length more
        → read_packets run (arrived (header_bytes len 0 seq type ++ rest)) (arrived more) c
          ≡ fault overrun
    read_packets-overrun c len seq type rest more w a b h =
        let hd = header_bytes len 0 seq type in
        let sixteen = length-header_bytes len 0 seq type in
        let d = with_header c hd in
        let e = with_length d len in
        let (after, q, r, t) =
          fetch-header_bytes len 0 seq type (drop 16 c.readbuf) (omega arith) (omega arith) in
        let room = length-drop 16 c.readbuf (omega (arith, w.size)) in
        stages run (arrived (hd ++ rest)) (arrived more) c d e w.opened
          (header_arrives c hd rest w sixteen)
          (header_passes d len 0 after r w.no_body refl q t refl b)
        ∙ overruns e more (omega arith) h
            (omega (arith, room, w.size, sixteen, length-append hd (drop 16 c.readbuf)))
