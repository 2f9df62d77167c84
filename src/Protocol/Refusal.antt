-- ===== src/Protocol/Refusal.antt =====
-- The packets that `upk_deserialize_packet` does not accept.
use upkeeper.Prelude.{ℕ, ◌^◌, ◌≤◌, ◌<◌, arith, Bool, true, false, ◌≡◌, ◌≢◌, refl, ap, ◌∙◌}
use upkeeper.Prelude.{some, List, [], ◌∷◌, ◌++◌, length, le→leb, lt→leb_false, All, replicate}
use upkeeper.Prelude.{◌⊎◌, ltb, leb, lt→ltb, ◌&&◌, if◌then◌else◌}
use native.Mathlib.Decide.{dec_lt}
use upkeeper.Wire.Outcome.{ok, err, fault, bind, Errno, unsup, invalid_pkt, null_call}
use upkeeper.Wire.Write.{be32}
use upkeeper.Wire.Read.{Reader, ◌>>=◌, ◌>>◌, pure, lift}
use upkeeper.Wire.Laws.{Reads-uint32, Reads-data}
use upkeeper.Wire.Stops.{Stop, error, failure, stop, Stops, Stops-bind, bind-stop}
use upkeeper.Crc.{crc32, verify_crc32}
use upkeeper.Crc.Bitwise.{IsByte, checksum, crc32_whole, checksum_bound}
use upkeeper.Crc.Detect.{verify-one_byte, length_replace}
use upkeeper.Protocol.Structs.{Payload}
use upkeeper.Protocol.Layout.{payload_bytes}
use upkeeper.Protocol.Sizes.{payload_bytes_fit}
use upkeeper.Protocol.Octets.{payload_IsByte}
use upkeeper.Protocol.Dispatch.{v0_deserialize_payload}
use upkeeper.Protocol.PacketFields.{Packet}
use upkeeper.Protocol.Packet.{deserialize_payload, serialize_packet, packet_reader}
use upkeeper.Protocol.Packet.{deserialize_packet, checked, func_assert}
use upkeeper.Protocol.RoundTrip.{
  IsPacket, packet_bytes, serialize_packet_lem, pkttype_bounds, verified,
}

Stops-passed :
    {A : Type 0} {c : Bool} (e : Errno) {k : Reader A} {bs : List ℕ} {s : Stop}
    → c ≡ true
    → Stops k bs s
    → Stops (λ l. bind (func_assert c e l) (λ q. k q.1)) bs s
unfolding func_assert
Stops-passed e h r = record { stops = λ rest. rw h (r.stops rest) }

Stops-failed :
    {A : Type 0} {c : Bool} (e : Errno) (k : Reader A) (bs : List ℕ)
    → c ≡ false
    → Stops (λ l. bind (func_assert c e l) (λ q. k q.1)) bs (error e)
unfolding func_assert
Stops-failed e k bs h = record { stops = λ rest. rw h refl }

-- What `upk_deserialize_packet` does behind the last field.
after_header : ℕ → ℕ → ℕ → List ℕ → ℕ → Reader Packet
after_header len seq type block crc = do
  good ← lift (checked (verify_crc32 block crc len))
  func_assert good invalid_pkt
  payload ← lift (deserialize_payload block type 0)
  pure (record {
    payload_len = len;
    version_id = 0;
    seq_num = seq;
    pkttype = type;
    payload = payload;
    crc32 = crc;
  })

refused :
    {bs : List ℕ} {s : Stop}
    → Stops packet_reader bs s
    → (rest : List ℕ) → deserialize_packet (bs ++ rest) ≡ stop s
unfolding deserialize_packet
refused {bs} {s} p rest = ap (λ r. bind r (λ q. ok q.0)) (p.stops rest) ∙ bind-stop s _

refuses_long :
    (len : ℕ) (rest : List ℕ)
    → 65536 < len
    → len < 2 ^ 32
    → deserialize_packet (be32 len ++ rest) ≡ err invalid_pkt
unfolding packet_reader be32
refuses_long len rest h fits =
    refused
      (Stops-bind _ {ys = []} (Reads-uint32 fits)
        (Stops-failed invalid_pkt _ [] (lt→leb_false _ _ h)))
      rest

refuses_version :
    (len version : ℕ) (rest : List ℕ)
    → len ≤ 65536
    → 0 < version
    → version < 2 ^ 32
    → deserialize_packet (be32 len ++ (be32 version ++ rest)) ≡ err unsup
unfolding packet_reader be32
refuses_version len version rest short h fits =
    refused
      (Stops-bind _ (Reads-uint32 {v = len} (omega arith)) (
        Stops-passed invalid_pkt (le→leb _ _ short)
          (Stops-bind _ {ys = []} (Reads-uint32 fits) (Stops-failed unsup _ [] (ground arith)))))
      rest

refuses_type :
    (len seq type : ℕ) (rest : List ℕ)
    → len ≤ 65536
    → seq < 2 ^ 32
    → 4 ≤ type
    → type < 2 ^ 32
    → deserialize_packet (be32 len ++ (be32 0 ++ (be32 seq ++ (be32 type ++ rest))))
      ≡ err invalid_pkt
unfolding packet_reader be32
refuses_type len seq type rest short hs h fits =
    refused
      (Stops-bind _ (Reads-uint32 {v = len} (omega arith)) (
        Stops-passed invalid_pkt (le→leb _ _ short) (
          Stops-bind _ (Reads-uint32 {v = 0} (omega arith)) (
            Stops-passed unsup refl (
              Stops-bind _ (Reads-uint32 hs) (
                Stops-bind _ {ys = []} (Reads-uint32 fits)
                  (Stops-failed invalid_pkt _ [] (ground arith))))))))
      rest

-- `upk_deserialize_packet` refuses a header with a payload length above UPK_MAX_PACKET_SIZE, a version
-- other than 0 or a packet type of 4 or more, whatever bytes follow: with UPK_ERR_UNSUP if the length
-- is in range and the version is not 0, else with UPK_ERR_INVALID_PKT.
pub refuses_header :
    (len version seq type : ℕ) (rest : List ℕ)
    → len < 2 ^ 32
    → version < 2 ^ 32
    → seq < 2 ^ 32
    → type < 2 ^ 32
    → (65536 < len) ⊎ (0 < version) ⊎ (4 ≤ type)
    → deserialize_packet (be32 len ++ (be32 version ++ (be32 seq ++ (be32 type ++ rest))))
      ≡ (if leb len 65536 && ltb 0 version then err unsup else err invalid_pkt)
refuses_header len version seq type rest hl hv hs ht bad = elim (dec_lt 65536 len) [
  | yes long ↦
      rw (lt→leb_false len 65536 long)
        (refuses_long len (be32 version ++ (be32 seq ++ (be32 type ++ rest))) long hl)
  | no short ↦ elim (dec_lt 0 version) [
    | yes other ↦
        rw (le→leb len 65536 (omega arith), lt→ltb 0 version other)
          (refuses_version len version (be32 seq ++ (be32 type ++ rest)) (omega arith) other hv)
    | no same ↦
        let e : version ≡ 0 = omega arith in
        rw (e, le→leb len 65536 (omega arith))
          (refuses_type len seq type rest (omega arith) hs (omega arith) ht)
  ]
]

-- The header of a packet that the checks let pass, and what is read behind it.
reads_header :
    (len seq type crc : ℕ) (block : List ℕ) {s : Stop}
    → len ≤ 65536
    → seq < 2 ^ 32
    → type < 4
    → len ≡ length block
    → crc < 2 ^ 32
    → Stops (after_header len seq type block crc) [] s
    → Stops packet_reader (packet_bytes len 0 seq type block crc) s
unfolding packet_reader packet_bytes be32 after_header
reads_header len seq type crc block short hs ht counted hc p =
    Stops-bind _ (Reads-uint32 {v = len} (omega arith)) (
      Stops-passed invalid_pkt (le→leb _ _ short) (
        Stops-bind _ (Reads-uint32 {v = 0} (omega arith)) (
          Stops-passed unsup refl (
            Stops-bind _ (Reads-uint32 hs) (
              Stops-bind _ (Reads-uint32 {v = type} (omega arith)) (
                Stops-passed invalid_pkt (ground arith) (
                  Stops-bind _ (Reads-data counted)
                    (Stops-bind _ {ys = []} (Reads-uint32 hc) p))))))))

refused_check :
    (len seq type crc : ℕ) (block : List ℕ)
    → verify_crc32 block crc len ≡ some false
    → Stops (after_header len seq type block crc) [] (error invalid_pkt)
unfolding after_header checked
refused_check len seq type crc block e = record {
  stops = λ rest. rw e (unfold func_assert in refl);
}

-- A packet of which one byte of the payload was changed on the way is refused with
-- UPK_ERR_INVALID_PKT, where the packet that was sent is what `upk_serialize_packet` wrote.
pub refuses_damaged :
    {p : Packet} (m : Payload) (front back : List ℕ) (x y : ℕ)
    → IsPacket p m
    → payload_bytes m ≡ front ++ (x ∷ back)
    → IsByte y
    → x ≢ y
    → (crc : ℕ) × (serialize_packet p
        ≡ ok (
            packet_bytes p.payload_len 0 p.seq_num p.pkttype (front ++ (x ∷ back)) crc
            ++ replicate 4 0))
      × (deserialize_packet (
            packet_bytes p.payload_len 0 p.seq_num p.pkttype (front ++ (y ∷ back)) crc
            ++ replicate 4 0)
          ≡ err invalid_pkt)
refuses_damaged {p} m front back x y v e hy ne = (
  checksum (payload_bytes m),
  rw (← e) (
      serialize_packet_lem v
      ∙ ap
          (λ (n : ℕ). ok (
            packet_bytes p.payload_len n p.seq_num p.pkttype (payload_bytes m)
              (checksum (payload_bytes m))
            ++ replicate 4 0))
          v.version),
  refused
      (reads_header p.payload_len p.seq_num p.pkttype (checksum (payload_bytes m))
        (front ++ (y ∷ back)) (omega (arith, v.counted, payload_bytes_fit m v.message)) v.sequence
        (omega (arith, v.typed, pkttype_bounds m)) len
        (checksum_bound _ (payload_IsByte m v.message))
        (refused_check _ _ _ _ _ (
          rw (← len) at
            (verify-one_byte front back x y (checksum (payload_bytes m)) octets hy ne sent))))
      (replicate 4 0),
)
  where
    octets : All IsByte (front ++ (x ∷ back))
    octets = rw e at (payload_IsByte m v.message)

    sent :
        crc32 (front ++ (x ∷ back)) (length (front ++ (x ∷ back)))
        ≡ some (checksum (payload_bytes m))
    sent = rw e (crc32_whole (front ++ (x ∷ back)) octets)

    len : p.payload_len ≡ length (front ++ (y ∷ back))
    len = v.counted ∙ ap (λ (l : List ℕ). length l) e ∙ length_replace front back x y

no_type :
    (len seq crc : ℕ) (block : List ℕ)
    → verify_crc32 block crc len ≡ some true
    → Stops (after_header len seq 0 block crc) [] (failure null_call)
unfolding after_header checked deserialize_payload v0_deserialize_payload
no_type len seq crc block e = record { stops = λ rest. rw e (unfold func_assert in refl) }

-- A packet whose type is 0 passes every check if its checksum is right, and is then handed to the
-- entry of the dispatch table that is not there.
pub type_zero_call :
    (seq : ℕ) (block rest : List ℕ)
    → seq < 2 ^ 32
    → length block ≤ 65536
    → All IsByte block
    → deserialize_packet (packet_bytes (length block) 0 seq 0 block (checksum block) ++ rest)
      ≡ fault null_call
type_zero_call seq block rest hs short octets =
    refused
      (reads_header (length block) seq 0 (checksum block) block short hs (omega arith) refl
        (checksum_bound block octets) (no_type _ _ _ _ (verified _ _ _ (crc32_whole block octets))))
      rest
