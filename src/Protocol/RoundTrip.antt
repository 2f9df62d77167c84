-- ===== src/Protocol/RoundTrip.antt =====
-- A packet that is serialized is read back as it was sent, and one that was damaged is refused.
use upkeeper.Prelude.{ℕ, ◌+◌, ◌-◌, ◌^◌, ◌<◌, arith, Bool, true, ◌≡◌, refl, ap, ◌∙◌}
use upkeeper.Prelude.{some, List, [], ◌++◌, length, length-append, replicate}
use upkeeper.Prelude.{le→leb, eq→==}
use upkeeper.Wire.Outcome.{ok, bind, Errno, unsup, invalid_pkt}
use upkeeper.Wire.Write.{be32, run_writer}
use upkeeper.Wire.Read.{Reader}
use upkeeper.Wire.Laws.{Emits, Emits-seq, Emits-uint32, Emits-data_from_buf, run-Emits_exact}
use upkeeper.Wire.Laws.{Reads, Reads-bind, Reads-last, Reads-uint32, Reads-data, Reads-lift}
use upkeeper.Wire.Laws.{run-Emits_slack}
use upkeeper.Crc.{crc32, verify_crc32}
use upkeeper.Crc.Bitwise.{checksum, crc32_whole, checksum_bound}
use upkeeper.Protocol.Codes.{pkttype_of}
use upkeeper.Protocol.Structs.{Payload}
use upkeeper.Protocol.Layout.{payload_bytes}
use upkeeper.Protocol.Valid.{IsValid}
use upkeeper.Protocol.Sizes.{payload_bytes_fit}
use upkeeper.Protocol.Octets.{payload_IsByte}
use upkeeper.Protocol.Dispatch.{v0_serialize_payload, v0_deserialize_payload}
use upkeeper.Protocol.DispatchLaws.{Emits-payload, deserialize-payload_bytes}
use upkeeper.Protocol.PacketFields.{Packet, packet_writer}
use upkeeper.Protocol.Packet.{serialize_payload, deserialize_payload, serialize_packet}
use upkeeper.Protocol.Packet.{packet_reader, deserialize_packet, checked, func_assert, block_of}

-- A packet of version 0 around the message `m`, with the length of its layout.
pub record IsPacket (p : Packet) (m : Payload) : Type 0 where
  pub message : IsValid m
  pub carries : p.payload ≡ some m
  pub typed : p.pkttype ≡ pkttype_of m
  pub version : p.version_id ≡ 0
  pub counted : p.payload_len ≡ length (payload_bytes m)
  pub sequence : p.seq_num < 2 ^ 32

-- |----|----|----|----|<payload ...>|----|
unfoldable pub packet_bytes : ℕ → ℕ → ℕ → ℕ → List ℕ → ℕ → List ℕ
packet_bytes len version seq type block crc =
    be32 len ++ (be32 version ++ (be32 seq ++ (be32 type ++ (block ++ be32 crc))))

pub pkttype_bounds : (m : Payload) → (0 < pkttype_of m) × (pkttype_of m < 4)
pkttype_bounds m = ground arith

serialized :
    {p : Packet} {m : Payload}
    → IsPacket p m
    → v0_serialize_payload p.pkttype m p.payload_len ≡ ok (payload_bytes m)
unfolding v0_serialize_payload
serialized {p} {m} v =
    ap (λ (t : ℕ). v0_serialize_payload t m p.payload_len) v.typed
    ∙ run-Emits_exact (Emits-payload m v.message) v.counted

payload_lem :
    {p : Packet} {m : Payload} → IsPacket p m → serialize_payload p ≡ ok (some (payload_bytes m))
unfolding serialize_payload
payload_lem {p} {m} v = ground (arith, serialized v)

crc_lem :
    {p : Packet} {m : Payload}
    → IsPacket p m
    → crc32 (payload_bytes m) p.payload_len ≡ some (checksum (payload_bytes m))
crc_lem {p} {m} v =
    ap (crc32 (payload_bytes m)) v.counted
    ∙ crc32_whole (payload_bytes m) (payload_IsByte m v.message)

Emits-packet :
    (p : Packet) (block : List ℕ) (crc : ℕ)
    → p.payload_len ≡ length block
    → Emits
        (packet_writer p block crc)
        (packet_bytes p.payload_len p.version_id p.seq_num p.pkttype block crc)
unfolding packet_writer packet_bytes
Emits-packet p block crc e = Emits-seq (Emits-uint32 _) (
    Emits-seq (Emits-uint32 _) (
      Emits-seq (Emits-uint32 _)
        (Emits-seq (Emits-uint32 _) (Emits-seq (Emits-data_from_buf e) (Emits-uint32 _)))))

pub length-packet_bytes :
    (len version seq type : ℕ) (block : List ℕ) (crc : ℕ)
    → length (packet_bytes len version seq type block crc) ≡ 20 + length block
unfolding packet_bytes be32
length-packet_bytes len version seq type block crc = simp length-append (omega arith)

-- The buffer is the layout of the packet, with four zeros behind it.
pub serialize_packet_lem :
    {p : Packet} {m : Payload}
    → IsPacket p m
    → serialize_packet p
      ≡ ok (
          packet_bytes p.payload_len p.version_id p.seq_num p.pkttype
            (payload_bytes m)
            (checksum (payload_bytes m))
          ++ replicate 4 0)
unfolding serialize_packet checked
serialize_packet_lem {p} {m} v =
    ap
      (λ r. bind r (λ b.
        bind (checked (crc32 (block_of b) p.payload_len))
          (λ crc. run_writer (packet_writer p (block_of b) crc) (32 + p.payload_len - 8))))
      (payload_lem v)
    ∙ ap
        (λ r.
          bind (checked r)
            (λ crc. run_writer (packet_writer p (payload_bytes m) crc) (32 + p.payload_len - 8)))
        (crc_lem v)
    ∙ run-Emits_slack 4 (Emits-packet p (payload_bytes m) (checksum (payload_bytes m)) v.counted)
        (omega (arith, v.counted, size))
  where
    size :
        length (
          packet_bytes p.payload_len p.version_id p.seq_num p.pkttype
            (payload_bytes m)
            (checksum (payload_bytes m)))
        ≡ 20 + length (payload_bytes m)
    size = length-packet_bytes _ _ _ _ _ _

Reads-assert :
    {A : Type 0} {c : Bool} (e : Errno) {k : Reader A} {bs : List ℕ} {a : A}
    → c ≡ true
    → Reads k bs a
    → Reads (λ l. bind (func_assert c e l) (λ q. k q.1)) bs a
unfolding func_assert
Reads-assert e h r = record { reads = λ rest. rw h (r.reads rest) }

pub verified :
    (block : List ℕ) (c len : ℕ) → crc32 block len ≡ some c → verify_crc32 block c len ≡ some true
unfolding verify_crc32
verified block c len e = rw e (ap some (eq→== c c refl))

unpacked :
    {p : Packet} {m : Payload}
    → IsPacket p m
    → deserialize_payload (payload_bytes m) p.pkttype p.version_id ≡ ok (some m)
unfolding deserialize_payload
unpacked {p} {m} v = ground (arith, read)
  where
    read : v0_deserialize_payload (payload_bytes m) p.pkttype ≡ ok m
    read =
        ap (v0_deserialize_payload (payload_bytes m)) v.typed
        ∙ deserialize-payload_bytes m v.message

pub Reads-packet :
    {p : Packet} {m : Payload}
    → IsPacket p m
    → Reads packet_reader
        (packet_bytes p.payload_len p.version_id p.seq_num p.pkttype
          (payload_bytes m)
          (checksum (payload_bytes m)))
        (record p { payload = some m; crc32 = checksum (payload_bytes m) })
unfolding packet_reader packet_bytes be32 checked
Reads-packet {p} {m} v =
    Reads-bind _ (Reads-uint32 (omega (arith, payload_bytes_fit m v.message))) (
      Reads-assert invalid_pkt (le→leb _ _ (omega (arith, payload_bytes_fit m v.message))) (
        Reads-bind _ (Reads-uint32 (omega arith)) (
          Reads-assert unsup (ground (arith, v.version)) (
            Reads-bind _ (Reads-uint32 v.sequence) (
              Reads-bind _ (Reads-uint32 (omega (arith, pkttype_bounds m))) (
                Reads-assert invalid_pkt (ground (arith, v.version, v.typed, pkttype_bounds m)) (
                  Reads-bind _ (Reads-data v.counted) (
                    Reads-bind _ {ys = []}
                      (Reads-uint32 (checksum_bound _ (payload_IsByte m v.message)))
                      (Reads-bind _ {xs = []} (Reads-lift (ap checked (verified _ _ _ (crc_lem v))))
                        (Reads-assert invalid_pkt refl
                          (Reads-last _ (Reads-lift (unpacked v)))))))))))))

-- What `upk_serialize_packet` makes of a packet that carries a message, `upk_deserialize_packet`
-- reads back as that packet with its checksum filled in.
pub deserialize-serialize :
    {p : Packet} (m : Payload)
    → IsPacket p m
    → (b : List ℕ) × (serialize_packet p ≡ ok b)
      × (length b ≡ p.payload_len + 24)
      × (deserialize_packet b
          ≡ ok (record p { payload = some m; crc32 = checksum (payload_bytes m) }))
unfolding deserialize_packet
deserialize-serialize {p} m v = (
  packet_bytes p.payload_len p.version_id p.seq_num p.pkttype (payload_bytes m)
        (checksum (payload_bytes m))
      ++ replicate 4 0,
  serialize_packet_lem v,
  omega (
    arith,
    length-append
        (packet_bytes p.payload_len p.version_id p.seq_num p.pkttype (payload_bytes m)
          (checksum (payload_bytes m)))
        (replicate 4 0),
    length-packet_bytes p.payload_len p.version_id p.seq_num p.pkttype (payload_bytes m)
        (checksum (payload_bytes m)),
    v.counted,
  ),
  ap (λ r. bind r (λ q. ok q.0)) ((Reads-packet v).reads (replicate 4 0)),
)
