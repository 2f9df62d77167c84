-- ===== src/Protocol/DeserialReq.antt =====
-- upk_v0_protocol_serializer.c and upk_protocol_serializer.c: reading each request.
-- Each fetches `msgtype` first, as UPK_INIT_DESERIALIZE_MSG does.

use upkeeper.Wire.Read.{Reader, ◌>>=◌, pure, fetch_uint32, fetch_bool, fetch_string}
use upkeeper.Protocol.Structs.{Payload}

unfoldable pub deserialize_req_preamble : Reader Payload
deserialize_req_preamble = do
  _ ← fetch_uint32
  min_supported_ver ← fetch_uint32
  max_supported_ver ← fetch_uint32
  client_name_len ← fetch_uint32
  client_name ← fetch_string client_name_len
  pure (
      Payload.req_preamble (record {
        min_supported_ver = min_supported_ver;
        max_supported_ver = max_supported_ver;
        client_name_len = client_name_len;
        client_name = client_name;
      }))

unfoldable pub deserial_req_seq_start : Reader Payload
deserial_req_seq_start = do
  _ ← fetch_uint32
  msg_seq_type ← fetch_uint32
  msg_seq_count ← fetch_uint32
  pure (
      Payload.req_seq_start (record { msg_seq_type = msg_seq_type; msg_seq_count = msg_seq_count }))

unfoldable pub deserial_req_seq_end : Reader Payload
deserial_req_seq_end = do
  _ ← fetch_uint32
  commit ← fetch_bool
  pure (Payload.req_seq_end (record { commit = commit }))

unfoldable pub deserial_req_action : Reader Payload
deserial_req_action = do
  _ ← fetch_uint32
  svc_id_len ← fetch_uint32
  svc_id ← fetch_string svc_id_len
  action_len ← fetch_uint32
  action ← fetch_string action_len
  pure (
      Payload.req_action (record {
        svc_id_len = svc_id_len;
        svc_id = svc_id;
        action_len = action_len;
        action = action;
      }))

unfoldable pub deserial_req_signal : Reader Payload
deserial_req_signal = do
  _ ← fetch_uint32
  signal ← fetch_uint32
  signal_sid ← fetch_bool
  signal_pgrp ← fetch_bool
  svc_id_len ← fetch_uint32
  svc_id ← fetch_string svc_id_len
  pure (
      Payload.req_signal (record {
        signal = signal;
        signal_sid = signal_sid;
        signal_pgrp = signal_pgrp;
        svc_id_len = svc_id_len;
        svc_id = svc_id;
      }))

unfoldable pub deserial_req_list : Reader Payload
deserial_req_list = do _ ← fetch_uint32; pure Payload.req_list

unfoldable pub deserial_req_status : Reader Payload
deserial_req_status = do
  _ ← fetch_uint32
  svc_id_len ← fetch_uint32
  svc_id ← fetch_string svc_id_len
  restart_window_seconds ← fetch_uint32
  pure (
      Payload.req_status (record {
        svc_id_len = svc_id_len;
        svc_id = svc_id;
        restart_window_seconds = restart_window_seconds;
      }))

unfoldable pub deserial_req_subscribe : Reader Payload
deserial_req_subscribe = do
  _ ← fetch_uint32
  all_svcs ← fetch_bool
  svc_id_len ← fetch_uint32
  svc_id ← fetch_string svc_id_len
  pure (
      Payload.req_subscribe
        (record { all_svcs = all_svcs; svc_id_len = svc_id_len; svc_id = svc_id }))

unfoldable pub deserial_req_unsub : Reader Payload
deserial_req_unsub = do
  _ ← fetch_uint32
  all_svcs ← fetch_bool
  svc_id_len ← fetch_uint32
  svc_id ← fetch_string svc_id_len
  pure (
      Payload.req_unsubscribe
        (record { all_svcs = all_svcs; svc_id_len = svc_id_len; svc_id = svc_id }))

unfoldable pub deserial_req_disconnect : Reader Payload
deserial_req_disconnect = do _ ← fetch_uint32; pure Payload.req_disconnect
