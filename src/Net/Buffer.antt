-- ===== src/Net/Buffer.antt =====
-- upk_network.c: the read buffer, and the parts of a packet in it.
use upkeeper.Prelude.{ℕ, ◌+◌, ◌^◌, ◌≤◌, ◌<◌, ◌≡◌, refl, ap, ◌∙◌, arith}
use upkeeper.Prelude.{List, ◌++◌, append_assoc, length, take, drop, le→leb}
use upkeeper.Prelude.{length-append, take-append, drop-append_more, length-replicate}
use upkeeper.Wire.Outcome.{ok}
use upkeeper.Wire.Write.{be32}
use upkeeper.Wire.Read.{fetch_uint32}
use upkeeper.Wire.Laws.{Reads-uint32}
use upkeeper.Protocol.RoundTrip.{packet_bytes}
use upkeeper.Protocol.Packet.{max_packet_size}
use upkeeper.Net.Reading.{overwrite, zeroed_readbuf}

-- The sixteen bytes in front of the payload, and those from it on.
unfoldable pub header_bytes : ℕ → ℕ → ℕ → ℕ → List ℕ
header_bytes len version seq type = be32 len ++ (be32 version ++ (be32 seq ++ be32 type))

abbrev pub body_bytes : List ℕ → ℕ → List ℕ
body_bytes block crc = block ++ be32 crc

pub packet_bytes-split :
    (len version seq type : ℕ) (block : List ℕ) (crc : ℕ)
    → packet_bytes len version seq type block crc
      ≡ header_bytes len version seq type ++ body_bytes block crc
unfolding packet_bytes header_bytes be32
packet_bytes-split len version seq type block crc = refl

pub length-header_bytes :
    (len version seq type : ℕ) → length (header_bytes len version seq type) ≡ 16
unfolding header_bytes be32
length-header_bytes len version seq type = refl

pub length-body_bytes :
    (block : List ℕ) (crc : ℕ) → length (body_bytes block crc) ≡ length block + 4
unfolding be32
length-body_bytes block crc = length-append block (be32 crc)

-- The first two fields of a header, and what is behind them.
pub fetch-header_bytes :
    (len version seq type : ℕ) (rest : List ℕ)
    → len < 2 ^ 32
    → version < 2 ^ 32
    → (after : List ℕ) × (fetch_uint32 (header_bytes len version seq type ++ rest)
        ≡ ok (len, after))
      × (r : List ℕ) × (fetch_uint32 after ≡ ok (version, r))
unfolding header_bytes
fetch-header_bytes len version seq type rest h k =
    let more = be32 seq ++ be32 type in
    (
      (be32 version ++ more) ++ rest,
      ap fetch_uint32 (append_assoc (be32 len) (be32 version ++ more) rest)
          ∙ (Reads-uint32 h).reads ((be32 version ++ more) ++ rest),
      more ++ rest,
      ap fetch_uint32 (append_assoc (be32 version) more rest)
          ∙ (Reads-uint32 k).reads (more ++ rest),
    )

-- What is written behind `front` stands behind it.
pub overwrite-behind :
    (front bs buf : List ℕ) (n : ℕ)
    → n ≡ length front
    → length bs ≤ length buf
    → overwrite n bs (front ++ buf) ≡ ok (front ++ (bs ++ drop (length bs) buf))
unfolding overwrite
overwrite-behind front bs buf n e h =
    rw
      (
        e,
        le→leb (length front + length bs) (length (front ++ buf))
            (omega (arith, length-append front buf)),
        take-append front buf,
        drop-append_more front (length bs) buf,
      )
      refl

-- Of what has arrived, the front that was asked for.
pub take-asked : (n : ℕ) (xs rest : List ℕ) → n ≡ length xs → take n (xs ++ rest) ≡ xs
take-asked n xs rest e = ap (λ (k : ℕ). take k (xs ++ rest)) e ∙ take-append xs rest

pub length-zeroed_readbuf : length zeroed_readbuf ≡ max_packet_size
unfolding zeroed_readbuf
length-zeroed_readbuf = length-replicate {A = ℕ} max_packet_size 0
