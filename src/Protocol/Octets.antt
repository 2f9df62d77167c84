-- ===== src/Protocol/Octets.antt =====
-- Every layout is made of bytes.
use upkeeper.Prelude.{ℕ, ◌<◌, ◌^◌, List, [], ◌∷◌, ◌++◌, All, Bool, true, false, arith}
use upkeeper.Wire.Write.{be32, bool_byte}
use upkeeper.Wire.Bytes.{be32_bytes, IsText}
use upkeeper.Crc.Bitwise.{IsByte}
use upkeeper.Protocol.Structs.{SvcInfo, Payload}
use upkeeper.Protocol.Valid.{IsValid, IsSvcInfo}
use upkeeper.Protocol.Layout.{
  svcinfo_bytes, payload_bytes, req_preamble_bytes, req_seq_start_bytes, req_seq_end_bytes,
  req_action_bytes, req_signal_bytes, req_status_bytes, req_subscribe_bytes, req_unsub_bytes,
  repl_preamble_bytes, repl_seq_start_bytes, repl_seq_end_bytes, repl_result_bytes,
  repl_listing_bytes, repl_svcinfo_bytes, repl_err_bytes,
}

-- As a record, so that the list can be read off.
record Octets (bs : List ℕ) : Type 0 where
  bytes : All IsByte bs

append_bytes : (xs ys : List ℕ) → All IsByte xs → All IsByte ys → All IsByte (xs ++ ys)
append_bytes [] ys p q = q
append_bytes (x ∷ xs) ys (h, p) q = (h, append_bytes xs ys p q)

join : {xs ys : List ℕ} → Octets xs → Octets ys → Octets (xs ++ ys)
join {xs} {ys} p q = record { bytes = append_bytes xs ys p.bytes q.bytes }

word : (v : ℕ) → Octets (be32 v)
word v = record { bytes = be32_bytes v }

flag : (b : Bool) → Octets (bool_byte b ∷ [])
unfolding bool_byte
flag true = record { bytes = omega arith }
flag false = record { bytes = omega arith }

char_bytes : (s : List ℕ) → All (λ c. (0 < c) × (c < 2 ^ 8)) s → All IsByte s
char_bytes [] h = tt
char_bytes (c ∷ s) ((p, q), h) = (q, char_bytes s h)

text : {s : List ℕ} → IsText s → Octets s
text {s} t = record { bytes = char_bytes s t.chars }

svcinfo-Octets : {d : SvcInfo} → IsSvcInfo d → Octets (svcinfo_bytes d)
unfolding svcinfo_bytes
svcinfo-Octets v = join (word _) (
    join (word _) (
      join (word _) (
        join (text v.last_action_name_text) (
          join (word _) (
            join (word _) (
              join (word _)
                (join (word _) (join (word _) (join (word _) (join (word _) (word _)))))))))))

payload-Octets : (m : Payload) → IsValid m → Octets (payload_bytes m)
unfolding payload_bytes req_preamble_bytes req_seq_start_bytes req_seq_end_bytes req_action_bytes
    req_signal_bytes req_status_bytes req_subscribe_bytes req_unsub_bytes repl_preamble_bytes
    repl_seq_start_bytes repl_seq_end_bytes repl_result_bytes repl_listing_bytes repl_svcinfo_bytes
    repl_err_bytes
payload-Octets (Payload.req_preamble d) v =
    join (word _) (join (word _) (join (word _) (join (word _) (text v.client_name_text))))
payload-Octets (Payload.req_seq_start d) v = join (word _) (join (word _) (word _))
payload-Octets (Payload.req_seq_end d) v = join (word _) (flag _)
payload-Octets (Payload.req_action d) v =
    join (word _) (join (word _) (join (text v.svc_id_text) (join (word _) (text v.action_text))))
payload-Octets (Payload.req_signal d) v =
    join (word _)
      (join (word _) (join (flag _) (join (flag _) (join (word _) (text v.svc_id_text)))))
payload-Octets Payload.req_list v = word _
payload-Octets (Payload.req_status d) v =
    join (word _) (join (word _) (join (text v.svc_id_text) (word _)))
payload-Octets (Payload.req_subscribe d) v =
    join (word _) (join (flag _) (join (word _) (text v.svc_id_text)))
payload-Octets (Payload.req_unsubscribe d) v =
    join (word _) (join (flag _) (join (word _) (text v.svc_id_text)))
payload-Octets Payload.req_disconnect v = word _
payload-Octets (Payload.repl_preamble d) v = join (word _) (word _)
payload-Octets (Payload.repl_seq_start d) v = join (word _) (join (word _) (word _))
payload-Octets (Payload.repl_seq_end d) v = join (word _) (flag _)
payload-Octets (Payload.repl_result d) v =
    join (word _) (join (flag _) (join (word _) (text v.msg_text)))
payload-Octets (Payload.repl_listing d) v = join (word _) (join (word _) (text v.svc_id_text))
payload-Octets (Payload.repl_svcinfo d) v =
    join (word _)
      (join (word _) (join (svcinfo-Octets v.svcinfo_valid) (join (word _) (text v.svc_id_text))))
payload-Octets Payload.repl_ack v = word _
payload-Octets (Payload.repl_error d) v = join (word _) (
    join (word _)
      (join (word _) (join (word _) (join (text v.msg_text) (join (word _) (text v.svc_id_text))))))
payload-Octets Payload.pub_publication v = word _
payload-Octets Payload.pub_cancelation v = word _

pub payload_IsByte : (m : Payload) → IsValid m → All IsByte (payload_bytes m)
payload_IsByte m v = (payload-Octets m v).bytes
