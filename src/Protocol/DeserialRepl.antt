-- ===== src/Protocol/DeserialRepl.antt =====
-- upk_v0_protocol_serializer.c and upk_protocol_serializer.c: reading each reply and publication.
-- Each fetches `msgtype` first, as UPK_INIT_DESERIALIZE_MSG does.
use upkeeper.Prelude.{List, ℕ}
use upkeeper.Wire.Outcome.{Outcome, bind, ok}
use upkeeper.Wire.Read.{
  Reader, ◌>>=◌, pure, fetch_uint32, fetch_bool, fetch_string, fetch_data, lift,
}
use upkeeper.Protocol.Structs.{Payload, SvcInfo}

unfoldable pub deserialize_repl_preamble : Reader Payload
deserialize_repl_preamble = do
  _ ← fetch_uint32
  best_version ← fetch_uint32
  pure (Payload.repl_preamble (record { best_version = best_version }))

unfoldable pub deserial_repl_seq_start : Reader Payload
deserial_repl_seq_start = do
  _ ← fetch_uint32
  msg_seq_type ← fetch_uint32
  msg_seq_count ← fetch_uint32
  pure (
      Payload.repl_seq_start
        (record { msg_seq_type = msg_seq_type; msg_seq_count = msg_seq_count }))

unfoldable pub deserial_repl_seq_end : Reader Payload
deserial_repl_seq_end = do
  _ ← fetch_uint32
  commit ← fetch_bool
  pure (Payload.repl_seq_end (record { commit = commit }))

unfoldable pub deserial_repl_result : Reader Payload
deserial_repl_result = do
  _ ← fetch_uint32
  successful ← fetch_bool
  msg_len ← fetch_uint32
  msg ← fetch_string msg_len
  pure (Payload.repl_result (record { successful = successful; msg_len = msg_len; msg = msg }))

unfoldable pub deserial_repl_listing : Reader Payload
deserial_repl_listing = do
  _ ← fetch_uint32
  svc_id_len ← fetch_uint32
  svc_id ← fetch_string svc_id_len
  pure (Payload.repl_listing (record { svc_id_len = svc_id_len; svc_id = svc_id }))

unfoldable pub svcinfo_fields : Reader SvcInfo
svcinfo_fields = do
  last_action_time ← fetch_uint32
  last_action_status ← fetch_uint32
  last_action_name_len ← fetch_uint32
  last_action_name ← fetch_string last_action_name_len
  last_signal_time ← fetch_uint32
  last_signal_status ← fetch_uint32
  last_signal_name ← fetch_uint32
  buddy_pid ← fetch_uint32
  proc_pid ← fetch_uint32
  current_state ← fetch_uint32
  prior_state ← fetch_uint32
  n_recorded_restarts ← fetch_uint32
  pure (record {
    last_action_time = last_action_time;
    last_action_status = last_action_status;
    last_action_name_len = last_action_name_len;
    last_action_name = last_action_name;
    last_signal_time = last_signal_time;
    last_signal_status = last_signal_status;
    last_signal_name = last_signal_name;
    buddy_pid = buddy_pid;
    proc_pid = proc_pid;
    current_state = current_state;
    prior_state = prior_state;
    n_recorded_restarts = n_recorded_restarts;
  })

-- What the struct leaves of its buffer is freed unread.
unfoldable pub deserial_svcinfo_data : List ℕ → Outcome SvcInfo
deserial_svcinfo_data b = bind (svcinfo_fields b) (λ p. ok p.0)

unfoldable pub deserial_repl_svcinfo : Reader Payload
deserial_repl_svcinfo = do
  _ ← fetch_uint32
  svcinfo_len ← fetch_uint32
  b ← fetch_data svcinfo_len
  svcinfo ← lift (deserial_svcinfo_data b)
  svc_id_len ← fetch_uint32
  svc_id ← fetch_string svc_id_len
  pure (
      Payload.repl_svcinfo (record {
        svcinfo_len = svcinfo_len;
        svcinfo = svcinfo;
        svc_id_len = svc_id_len;
        svc_id = svc_id;
      }))

unfoldable pub deserial_repl_ack : Reader Payload
deserial_repl_ack = do _ ← fetch_uint32; pure Payload.repl_ack

unfoldable pub deserial_repl_err : Reader Payload
deserial_repl_err = do
  _ ← fetch_uint32
  errlevel ← fetch_uint32
  uerrno ← fetch_uint32
  msg_len ← fetch_uint32
  msg ← fetch_string msg_len
  svc_id_len ← fetch_uint32
  svc_id ← fetch_string svc_id_len
  pure (
      Payload.repl_error (record {
        errlevel = errlevel;
        uerrno = uerrno;
        msg_len = msg_len;
        msg = msg;
        svc_id_len = svc_id_len;
        svc_id = svc_id;
      }))

unfoldable pub deserial_pub_pub : Reader Payload
deserial_pub_pub = do _ ← fetch_uint32; pure Payload.pub_publication

unfoldable pub deserial_pub_cancel : Reader Payload
deserial_pub_cancel = do _ ← fetch_uint32; pure Payload.pub_cancelation
