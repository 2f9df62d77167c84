-- ===== src/Protocol/CreateReq.antt =====
-- upk_v0_protocol.c and upk_protocol.c: building each request, with the length of its layout.
use upkeeper.Prelude.{ℕ, ◌+◌, ◌-◌, Bool, List}
use upkeeper.Wire.Outcome.{Outcome, ok, max_string_len}
use upkeeper.Protocol.Codes.{pkt_request}
use upkeeper.Protocol.Structs.{Payload}
use upkeeper.Protocol.PacketFields.{Packet}
use upkeeper.Protocol.CreatePkt.{◌>>=◌, create_pkt, helper_string}

unfoldable pub create_req_preamble : List ℕ → Outcome Packet
create_req_preamble client_name = do
  (s, n) ← helper_string client_name
  ok (
      create_pkt
        (Payload.req_preamble (record {
          min_supported_ver = 0;
          max_supported_ver = 0;
          client_name_len = n;
          client_name = s;
        }))
        (16 + max_string_len - max_string_len + n) pkt_request 0)

unfoldable pub v0_create_req_seq_start : ℕ → ℕ → Outcome Packet
v0_create_req_seq_start msg_seq_type msg_seq_count = ok (
    create_pkt
      (Payload.req_seq_start
        (record { msg_seq_type = msg_seq_type; msg_seq_count = msg_seq_count }))
      (4 + 4 + 4) pkt_request 0)

unfoldable pub v0_create_req_seq_end : Bool → Outcome Packet
v0_create_req_seq_end commit =
    ok (create_pkt (Payload.req_seq_end (record { commit = commit })) (4 + 1) pkt_request 0)

unfoldable pub v0_create_req_action : List ℕ → List ℕ → Outcome Packet
v0_create_req_action svc_id action = do
  (svc_id_chars, svc_id_n) ← helper_string svc_id
  (action_chars, action_n) ← helper_string action
  ok (
      create_pkt
        (Payload.req_action (record {
          svc_id_len = svc_id_n;
          svc_id = svc_id_chars;
          action_len = action_n;
          action = action_chars;
        }))
        (4 + (svc_id_n + 1 - 1) + 4 + (action_n + 1 - 1) + 4) pkt_request 0)

unfoldable pub v0_create_req_signal : List ℕ → ℕ → Bool → Bool → Outcome Packet
v0_create_req_signal svc_id signal signal_sid signal_pgrp = do
  (svc_id_chars, svc_id_n) ← helper_string svc_id
  ok (
      create_pkt
        (Payload.req_signal (record {
          signal = signal;
          signal_sid = signal_sid;
          signal_pgrp = signal_pgrp;
          svc_id_len = svc_id_n;
          svc_id = svc_id_chars;
        }))
        (4 + 4 + 1 + 1 + (svc_id_n + 1 - 1) + 4) pkt_request 0)

unfoldable pub v0_create_req_list : Outcome Packet
v0_create_req_list = ok (create_pkt Payload.req_list (4) pkt_request 0)

unfoldable pub v0_create_req_status : List ℕ → ℕ → Outcome Packet
v0_create_req_status svc_id restart_window_seconds = do
  (svc_id_chars, svc_id_n) ← helper_string svc_id
  ok (
      create_pkt
        (Payload.req_status (record {
          svc_id_len = svc_id_n;
          svc_id = svc_id_chars;
          restart_window_seconds = restart_window_seconds;
        }))
        (4 + (svc_id_n + 1 - 1) + 4 + 4) pkt_request 0)

unfoldable pub v0_create_req_subscribe : List ℕ → Bool → Outcome Packet
v0_create_req_subscribe svc_id all_svcs = do
  (svc_id_chars, svc_id_n) ← helper_string svc_id
  ok (
      create_pkt
        (Payload.req_subscribe
          (record { all_svcs = all_svcs; svc_id_len = svc_id_n; svc_id = svc_id_chars }))
        (4 + 1 + (svc_id_n + 1 - 1) + 4) pkt_request 0)

unfoldable pub v0_create_req_unsubscribe : List ℕ → Bool → Outcome Packet
v0_create_req_unsubscribe svc_id all_svcs = do
  (svc_id_chars, svc_id_n) ← helper_string svc_id
  ok (
      create_pkt
        (Payload.req_unsubscribe
          (record { all_svcs = all_svcs; svc_id_len = svc_id_n; svc_id = svc_id_chars }))
        (4 + 1 + (svc_id_n + 1 - 1) + 4) pkt_request 0)

unfoldable pub v0_create_req_disconnect : Outcome Packet
v0_create_req_disconnect = ok (create_pkt Payload.req_disconnect (4) pkt_request 0)
