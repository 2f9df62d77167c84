-- ===== src/Protocol/CreateRepl.antt =====
-- upk_v0_protocol.c and upk_protocol.c: building each reply and publication, with the length of its layout.
use upkeeper.Prelude.{ℕ, ◌+◌, ◌-◌, Bool, List}
use upkeeper.Wire.Outcome.{Outcome, ok, max_string_len}
use upkeeper.Wire.Write.{strnlen}
use upkeeper.Protocol.Codes.{pkt_reply, pkt_pubmsg}
use upkeeper.Protocol.Structs.{Payload, SvcInfo}
use upkeeper.Protocol.PacketFields.{Packet}
use upkeeper.Protocol.CreatePkt.{◌>>=◌, create_pkt, helper_string}

-- `sizeof(v0_svcinfo_t)` is 2092: eleven fields of four bytes, and the name.
unfoldable pub get_svcinfo_len : SvcInfo → ℕ
get_svcinfo_len s =
    44 + max_string_len + s.last_action_name_len - max_string_len + (4 - 4) + (4 - 4)

-- The caller's struct is changed: the length of the name is counted anew.
unfoldable pub counted_svcinfo : SvcInfo → SvcInfo
counted_svcinfo s = record s { last_action_name_len = strnlen s.last_action_name max_string_len }

unfoldable pub create_repl_preamble : ℕ → Outcome Packet
create_repl_preamble best_version = ok (
    create_pkt (Payload.repl_preamble (record { best_version = best_version })) (4 + 4) pkt_reply 0)

unfoldable pub v0_create_repl_seq_start : ℕ → ℕ → Outcome Packet
v0_create_repl_seq_start msg_seq_type msg_seq_count = ok (
    create_pkt
      (Payload.repl_seq_start
        (record { msg_seq_type = msg_seq_type; msg_seq_count = msg_seq_count }))
      (4 + 4 + 4) pkt_reply 0)

unfoldable pub v0_create_repl_seq_end : Bool → Outcome Packet
v0_create_repl_seq_end commit =
    ok (create_pkt (Payload.repl_seq_end (record { commit = commit })) (4 + 1) pkt_reply 0)

unfoldable pub v0_create_repl_result : List ℕ → Bool → Outcome Packet
v0_create_repl_result msg successful = do
  (msg_chars, msg_n) ← helper_string msg
  ok (
      create_pkt
        (Payload.repl_result (record { successful = successful; msg_len = msg_n; msg = msg_chars }))
        (4 + 1 + (msg_n + 1 - 1) + 4) pkt_reply 0)

unfoldable pub v0_create_repl_listing : List ℕ → Outcome Packet
v0_create_repl_listing svc_id = do
  (svc_id_chars, svc_id_n) ← helper_string svc_id
  ok (
      create_pkt (Payload.repl_listing (record { svc_id_len = svc_id_n; svc_id = svc_id_chars }))
        (4 + (svc_id_n + 1 - 1) + 4) pkt_reply 0)

unfoldable pub v0_create_repl_svcinfo : List ℕ → SvcInfo → Outcome Packet
v0_create_repl_svcinfo svc_id svcinfo = do
  (svc_id_chars, svc_id_n) ← helper_string svc_id
  ok (
      create_pkt
        (Payload.repl_svcinfo (record {
          svcinfo_len = get_svcinfo_len (counted_svcinfo svcinfo);
          svcinfo = counted_svcinfo svcinfo;
          svc_id_len = svc_id_n;
          svc_id = svc_id_chars;
        }))
        (4 + 4 + get_svcinfo_len (counted_svcinfo svcinfo) + (svc_id_n + 1 - 1) + 4) pkt_reply 0)

unfoldable pub v0_create_repl_ack : Outcome Packet
v0_create_repl_ack = ok (create_pkt Payload.repl_ack (4) pkt_reply 0)

unfoldable pub v0_create_repl_error : List ℕ → ℕ → List ℕ → ℕ → Outcome Packet
v0_create_repl_error svc_id uerrno msg errlevel = do
  (msg_chars, msg_n) ← helper_string msg
  (svc_id_chars, svc_id_n) ← helper_string svc_id
  ok (
      create_pkt
        (Payload.repl_error (record {
          errlevel = errlevel;
          uerrno = uerrno;
          msg_len = msg_n;
          msg = msg_chars;
          svc_id_len = svc_id_n;
          svc_id = svc_id_chars;
        }))
        (4 + 4 + 4 + (msg_n + 1 - 1) + 4 + (svc_id_n + 1 - 1) + 4) pkt_reply 0)

unfoldable pub v0_create_pub_publication : Outcome Packet
v0_create_pub_publication = ok (create_pkt Payload.pub_publication (4) pkt_pubmsg 0)

unfoldable pub v0_create_pub_cancelation : Outcome Packet
v0_create_pub_cancelation = ok (create_pkt Payload.pub_cancelation (4) pkt_pubmsg 0)
