-- ===== src/Protocol/Layout.antt =====
-- The byte form of each message: the fields of its struct in upk_v0_protocol_structs.h in their order,
-- as the code writes them. The drawings in the comments of that file differ, for a status
-- request, the service information, its reply and an error reply by whole fields.
use upkeeper.Prelude.{ℕ, ◌+◌, List, [], ◌∷◌, ◌++◌}
use upkeeper.Wire.Write.{be32, bool_byte}
use upkeeper.Protocol.Codes.{req_origin, repl_origin, pub_origin}
use upkeeper.Protocol.Structs.{
  SvcInfo, Payload, ReqPreamble, ReqSeqStart, ReqSeqEnd, ReqAction, ReqSignal, ReqStatus,
  ReqSubscribe, ReqUnsubscribe, ReplPreamble, ReplSeqStart, ReplSeqEnd, ReplResult, ReplListing,
  ReplSvcInfo, ReplError,
}

-- UPK_V0_SVCINFO_T_FIELDS
unfoldable pub svcinfo_bytes : SvcInfo → List ℕ
svcinfo_bytes d =
    be32 d.last_action_time
    ++ (be32 d.last_action_status
        ++ (be32 d.last_action_name_len
            ++ (d.last_action_name
                ++ (be32 d.last_signal_time
                    ++ (be32 d.last_signal_status
                        ++ (be32 d.last_signal_name
                            ++ (be32 d.buddy_pid
                                ++ (be32 d.proc_pid
                                    ++ (be32 d.current_state
                                        ++ (be32 d.prior_state
                                            ++ be32 d.n_recorded_restarts))))))))))

unfoldable pub req_preamble_bytes : ReqPreamble → List ℕ
req_preamble_bytes d =
    be32 req_origin
    ++ (be32 d.min_supported_ver
        ++ (be32 d.max_supported_ver ++ (be32 d.client_name_len ++ d.client_name)))

unfoldable pub req_seq_start_bytes : ReqSeqStart → List ℕ
req_seq_start_bytes d = be32 (req_origin + 1) ++ (be32 d.msg_seq_type ++ be32 d.msg_seq_count)

unfoldable pub req_seq_end_bytes : ReqSeqEnd → List ℕ
req_seq_end_bytes d = be32 (req_origin + 2) ++ (bool_byte d.commit ∷ [])

unfoldable pub req_action_bytes : ReqAction → List ℕ
req_action_bytes d =
    be32 (req_origin + 3) ++ (be32 d.svc_id_len ++ (d.svc_id ++ (be32 d.action_len ++ d.action)))

unfoldable pub req_signal_bytes : ReqSignal → List ℕ
req_signal_bytes d =
    be32 (req_origin + 4)
    ++ (be32 d.signal
        ++ ((bool_byte d.signal_sid ∷ [])
            ++ ((bool_byte d.signal_pgrp ∷ []) ++ (be32 d.svc_id_len ++ d.svc_id))))

unfoldable pub req_status_bytes : ReqStatus → List ℕ
req_status_bytes d =
    be32 (req_origin + 6) ++ (be32 d.svc_id_len ++ (d.svc_id ++ be32 d.restart_window_seconds))

unfoldable pub req_subscribe_bytes : ReqSubscribe → List ℕ
req_subscribe_bytes d =
    be32 (req_origin + 7) ++ ((bool_byte d.all_svcs ∷ []) ++ (be32 d.svc_id_len ++ d.svc_id))

unfoldable pub req_unsub_bytes : ReqUnsubscribe → List ℕ
req_unsub_bytes d =
    be32 (req_origin + 8) ++ ((bool_byte d.all_svcs ∷ []) ++ (be32 d.svc_id_len ++ d.svc_id))

unfoldable pub repl_preamble_bytes : ReplPreamble → List ℕ
repl_preamble_bytes d = be32 repl_origin ++ be32 d.best_version

unfoldable pub repl_seq_start_bytes : ReplSeqStart → List ℕ
repl_seq_start_bytes d = be32 (repl_origin + 1) ++ (be32 d.msg_seq_type ++ be32 d.msg_seq_count)

unfoldable pub repl_seq_end_bytes : ReplSeqEnd → List ℕ
repl_seq_end_bytes d = be32 (repl_origin + 2) ++ (bool_byte d.commit ∷ [])

unfoldable pub repl_result_bytes : ReplResult → List ℕ
repl_result_bytes d =
    be32 (repl_origin + 3) ++ ((bool_byte d.successful ∷ []) ++ (be32 d.msg_len ++ d.msg))

unfoldable pub repl_listing_bytes : ReplListing → List ℕ
repl_listing_bytes d = be32 (repl_origin + 4) ++ (be32 d.svc_id_len ++ d.svc_id)

unfoldable pub repl_svcinfo_bytes : ReplSvcInfo → List ℕ
repl_svcinfo_bytes d =
    be32 (repl_origin + 5)
    ++ (be32 d.svcinfo_len ++ (svcinfo_bytes d.svcinfo ++ (be32 d.svc_id_len ++ d.svc_id)))

unfoldable pub repl_err_bytes : ReplError → List ℕ
repl_err_bytes d =
    be32 (repl_origin + 7)
    ++ (be32 d.errlevel
        ++ (be32 d.uerrno ++ (be32 d.msg_len ++ (d.msg ++ (be32 d.svc_id_len ++ d.svc_id)))))

unfoldable pub payload_bytes : Payload → List ℕ
payload_bytes (Payload.req_preamble d) = req_preamble_bytes d
payload_bytes (Payload.req_seq_start d) = req_seq_start_bytes d
payload_bytes (Payload.req_seq_end d) = req_seq_end_bytes d
payload_bytes (Payload.req_action d) = req_action_bytes d
payload_bytes (Payload.req_signal d) = req_signal_bytes d
payload_bytes Payload.req_list = be32 (req_origin + 5)
payload_bytes (Payload.req_status d) = req_status_bytes d
payload_bytes (Payload.req_subscribe d) = req_subscribe_bytes d
payload_bytes (Payload.req_unsubscribe d) = req_unsub_bytes d
payload_bytes Payload.req_disconnect = be32 (req_origin + 9)
payload_bytes (Payload.repl_preamble d) = repl_preamble_bytes d
payload_bytes (Payload.repl_seq_start d) = repl_seq_start_bytes d
payload_bytes (Payload.repl_seq_end d) = repl_seq_end_bytes d
payload_bytes (Payload.repl_result d) = repl_result_bytes d
payload_bytes (Payload.repl_listing d) = repl_listing_bytes d
payload_bytes (Payload.repl_svcinfo d) = repl_svcinfo_bytes d
payload_bytes Payload.repl_ack = be32 (repl_origin + 6)
payload_bytes (Payload.repl_error d) = repl_err_bytes d
payload_bytes Payload.pub_publication = be32 pub_origin
payload_bytes Payload.pub_cancelation = be32 (pub_origin + 1)
