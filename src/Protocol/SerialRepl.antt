-- ===== src/Protocol/SerialRepl.antt =====
-- upk_v0_protocol_serializer.c and upk_protocol_serializer.c: the fields of each reply and publication.
-- The buffer is allocated by `run_writer`, where `serialize_payload` calls these.
use upkeeper.Prelude.{ℕ, ◌+◌, List}
use upkeeper.Wire.Outcome.{bind, Outcome}
use upkeeper.Wire.Write.{
  Writer, ◌>>◌, put_uint32, put_bool, put_string, put_array, put_data_from_buf, run_writer,
}
use upkeeper.Protocol.Codes.{pub_origin, repl_origin}
use upkeeper.Protocol.Structs.{
  SvcInfo, ReplPreamble, ReplSeqStart, ReplSeqEnd, ReplResult, ReplListing, ReplSvcInfo, ReplError,
}

unfoldable pub serialize_repl_preamble : ReplPreamble → Writer
serialize_repl_preamble d = do put_uint32 repl_origin; put_uint32 d.best_version

unfoldable pub serial_repl_seq_start : ReplSeqStart → Writer
serial_repl_seq_start d = do
  put_uint32 (repl_origin + 1)
  put_uint32 d.msg_seq_type
  put_uint32 d.msg_seq_count

unfoldable pub serial_repl_seq_end : ReplSeqEnd → Writer
serial_repl_seq_end d = do put_uint32 (repl_origin + 2); put_bool d.commit

unfoldable pub serial_repl_result : ReplResult → Writer
serial_repl_result d = do
  put_uint32 (repl_origin + 3)
  put_bool d.successful
  put_uint32 d.msg_len
  put_string d.msg

unfoldable pub serial_repl_listing : ReplListing → Writer
serial_repl_listing d = do
  put_uint32 (repl_origin + 4)
  put_uint32 d.svc_id_len
  put_string d.svc_id

unfoldable pub svcinfo_writer : SvcInfo → Writer
svcinfo_writer d = do
  put_uint32 d.last_action_time
  put_uint32 d.last_action_status
  put_uint32 d.last_action_name_len
  put_array d.last_action_name d.last_action_name_len
  put_uint32 d.last_signal_time
  put_uint32 d.last_signal_status
  put_uint32 d.last_signal_name
  put_uint32 d.buddy_pid
  put_uint32 d.proc_pid
  put_uint32 d.current_state
  put_uint32 d.prior_state
  put_uint32 d.n_recorded_restarts

unfoldable pub serial_svcinfo_data : SvcInfo → ℕ → Outcome (List ℕ)
serial_svcinfo_data d len = run_writer (svcinfo_writer d) len

-- The struct is serialized to a buffer of its own, which is copied and freed.
unfoldable pub put_svcinfo : ReplSvcInfo → Writer
put_svcinfo d o =
    bind (serial_svcinfo_data d.svcinfo d.svcinfo_len) (λ b. put_data_from_buf b d.svcinfo_len o)

unfoldable pub serial_repl_svcinfo : ReplSvcInfo → Writer
serial_repl_svcinfo d = do
  put_uint32 (repl_origin + 5)
  put_uint32 d.svcinfo_len
  put_svcinfo d
  put_uint32 d.svc_id_len
  put_string d.svc_id

unfoldable pub serial_repl_ack : Writer
serial_repl_ack = put_uint32 (repl_origin + 6)

unfoldable pub serial_repl_err : ReplError → Writer
serial_repl_err d = do
  put_uint32 (repl_origin + 7)
  put_uint32 d.errlevel
  put_uint32 d.uerrno
  put_uint32 d.msg_len
  put_string d.msg
  put_uint32 d.svc_id_len
  put_string d.svc_id

unfoldable pub serial_pub_pub : Writer
serial_pub_pub = put_uint32 pub_origin

unfoldable pub serial_pub_cancel : Writer
serial_pub_cancel = put_uint32 (pub_origin + 1)
