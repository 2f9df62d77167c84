-- ===== src/Protocol/Sizes.antt =====
-- How many bytes each message takes: at most UPK_MAX_PACKET_SIZE.
use upkeeper.Prelude.{◌+◌, ◌≤◌, ◌≡◌, length, length-append, arith}
use upkeeper.Wire.Write.{be32}
use upkeeper.Protocol.Structs.{
  SvcInfo, Payload, ReqPreamble, ReqSeqStart, ReqSeqEnd, ReqAction, ReqSignal, ReqStatus,
  ReqSubscribe, ReqUnsubscribe, ReplPreamble, ReplSeqStart, ReplSeqEnd, ReplResult, ReplListing,
  ReplSvcInfo, ReplError,
}
use upkeeper.Protocol.Layout.{
  svcinfo_bytes, payload_bytes, req_preamble_bytes, req_seq_start_bytes, req_seq_end_bytes,
  req_action_bytes, req_signal_bytes, req_status_bytes, req_subscribe_bytes, req_unsub_bytes,
  repl_preamble_bytes, repl_seq_start_bytes, repl_seq_end_bytes, repl_result_bytes,
  repl_listing_bytes, repl_svcinfo_bytes, repl_err_bytes,
}
use upkeeper.Protocol.Valid.{IsValid}

pub length-svcinfo_bytes : (d : SvcInfo) → length (svcinfo_bytes d) ≡ 44 + length d.last_action_name
unfolding svcinfo_bytes be32
length-svcinfo_bytes d = simp length-append (omega arith)

pub length-req_preamble_bytes :
    (d : ReqPreamble) → length (req_preamble_bytes d) ≡ 16 + length d.client_name
unfolding req_preamble_bytes be32
length-req_preamble_bytes d = simp length-append (omega arith)

pub length-req_seq_start_bytes : (d : ReqSeqStart) → length (req_seq_start_bytes d) ≡ 12
unfolding req_seq_start_bytes be32
length-req_seq_start_bytes d = omega arith

pub length-req_seq_end_bytes : (d : ReqSeqEnd) → length (req_seq_end_bytes d) ≡ 5
unfolding req_seq_end_bytes be32
length-req_seq_end_bytes d = omega arith

pub length-req_action_bytes :
    (d : ReqAction) → length (req_action_bytes d) ≡ 12 + length d.svc_id + length d.action
unfolding req_action_bytes be32
length-req_action_bytes d = simp length-append (omega arith)

pub length-req_signal_bytes : (d : ReqSignal) → length (req_signal_bytes d) ≡ 14 + length d.svc_id
unfolding req_signal_bytes be32
length-req_signal_bytes d = simp length-append (omega arith)

pub length-req_status_bytes : (d : ReqStatus) → length (req_status_bytes d) ≡ 12 + length d.svc_id
unfolding req_status_bytes be32
length-req_status_bytes d = simp length-append (omega arith)

pub length-req_subscribe_bytes :
    (d : ReqSubscribe) → length (req_subscribe_bytes d) ≡ 9 + length d.svc_id
unfolding req_subscribe_bytes be32
length-req_subscribe_bytes d = simp length-append (omega arith)

pub length-req_unsub_bytes : (d : ReqUnsubscribe) → length (req_unsub_bytes d) ≡ 9 + length d.svc_id
unfolding req_unsub_bytes be32
length-req_unsub_bytes d = simp length-append (omega arith)

pub length-repl_preamble_bytes : (d : ReplPreamble) → length (repl_preamble_bytes d) ≡ 8
unfolding repl_preamble_bytes be32
length-repl_preamble_bytes d = omega arith

pub length-repl_seq_start_bytes : (d : ReplSeqStart) → length (repl_seq_start_bytes d) ≡ 12
unfolding repl_seq_start_bytes be32
length-repl_seq_start_bytes d = omega arith

pub length-repl_seq_end_bytes : (d : ReplSeqEnd) → length (repl_seq_end_bytes d) ≡ 5
unfolding repl_seq_end_bytes be32
length-repl_seq_end_bytes d = omega arith

pub length-repl_result_bytes : (d : ReplResult) → length (repl_result_bytes d) ≡ 9 + length d.msg
unfolding repl_result_bytes be32
length-repl_result_bytes d = simp length-append (omega arith)

pub length-repl_listing_bytes :
    (d : ReplListing) → length (repl_listing_bytes d) ≡ 8 + length d.svc_id
unfolding repl_listing_bytes be32
length-repl_listing_bytes d = simp length-append (omega arith)

pub length-repl_svcinfo_bytes :
    (d : ReplSvcInfo)
    → length (repl_svcinfo_bytes d) ≡ 12 + length (svcinfo_bytes d.svcinfo) + length d.svc_id
unfolding repl_svcinfo_bytes be32
length-repl_svcinfo_bytes d = simp length-append (omega arith)

pub length-repl_err_bytes :
    (d : ReplError) → length (repl_err_bytes d) ≡ 20 + length d.msg + length d.svc_id
unfolding repl_err_bytes be32
length-repl_err_bytes d = simp length-append (omega arith)

-- Of a message that can be read back the layout fits a packet, with room to spare.
pub payload_bytes_fit : (m : Payload) → IsValid m → length (payload_bytes m) ≤ 8192
unfolding payload_bytes be32
payload_bytes_fit (Payload.req_preamble d) v = omega (arith, length-req_preamble_bytes d)
payload_bytes_fit (Payload.req_seq_start d) v = omega (arith, length-req_seq_start_bytes d)
payload_bytes_fit (Payload.req_seq_end d) v = omega (arith, length-req_seq_end_bytes d)
payload_bytes_fit (Payload.req_action d) v = omega (arith, length-req_action_bytes d)
payload_bytes_fit (Payload.req_signal d) v = omega (arith, length-req_signal_bytes d)
payload_bytes_fit Payload.req_list v = omega arith
payload_bytes_fit (Payload.req_status d) v = omega (arith, length-req_status_bytes d)
payload_bytes_fit (Payload.req_subscribe d) v = omega (arith, length-req_subscribe_bytes d)
payload_bytes_fit (Payload.req_unsubscribe d) v = omega (arith, length-req_unsub_bytes d)
payload_bytes_fit Payload.req_disconnect v = omega arith
payload_bytes_fit (Payload.repl_preamble d) v = omega (arith, length-repl_preamble_bytes d)
payload_bytes_fit (Payload.repl_seq_start d) v = omega (arith, length-repl_seq_start_bytes d)
payload_bytes_fit (Payload.repl_seq_end d) v = omega (arith, length-repl_seq_end_bytes d)
payload_bytes_fit (Payload.repl_result d) v = omega (arith, length-repl_result_bytes d)
payload_bytes_fit (Payload.repl_listing d) v = omega (arith, length-repl_listing_bytes d)
payload_bytes_fit (Payload.repl_svcinfo d) v =
    omega (arith, length-repl_svcinfo_bytes d, length-svcinfo_bytes d.svcinfo)
payload_bytes_fit Payload.repl_ack v = omega arith
payload_bytes_fit (Payload.repl_error d) v = omega (arith, length-repl_err_bytes d)
payload_bytes_fit Payload.pub_publication v = omega arith
payload_bytes_fit Payload.pub_cancelation v = omega arith
