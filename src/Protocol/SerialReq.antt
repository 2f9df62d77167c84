-- ===== src/Protocol/SerialReq.antt =====
-- upk_v0_protocol_serializer.c and upk_protocol_serializer.c: the fields of each request.
-- The buffer is allocated by `run_writer`, where `serialize_payload` calls these.
use upkeeper.Prelude.{◌+◌}
use upkeeper.Wire.Write.{Writer, ◌>>◌, put_uint32, put_bool, put_string}
use upkeeper.Protocol.Codes.{req_origin}
use upkeeper.Protocol.Structs.{
  ReqPreamble, ReqSeqStart, ReqSeqEnd, ReqAction, ReqSignal, ReqStatus, ReqSubscribe,
  ReqUnsubscribe,
}

unfoldable pub serialize_req_preamble : ReqPreamble → Writer
serialize_req_preamble d = do
  put_uint32 req_origin
  put_uint32 d.min_supported_ver
  put_uint32 d.max_supported_ver
  put_uint32 d.client_name_len
  put_string d.client_name

unfoldable pub serial_req_seq_start : ReqSeqStart → Writer
serial_req_seq_start d = do
  put_uint32 (req_origin + 1)
  put_uint32 d.msg_seq_type
  put_uint32 d.msg_seq_count

unfoldable pub serial_req_seq_end : ReqSeqEnd → Writer
serial_req_seq_end d = do put_uint32 (req_origin + 2); put_bool d.commit

unfoldable pub serial_req_action : ReqAction → Writer
serial_req_action d = do
  put_uint32 (req_origin + 3)
  put_uint32 d.svc_id_len
  put_string d.svc_id
  put_uint32 d.action_len
  put_string d.action

unfoldable pub serial_req_signal : ReqSignal → Writer
serial_req_signal d = do
  put_uint32 (req_origin + 4)
  put_uint32 d.signal
  put_bool d.signal_sid
  put_bool d.signal_pgrp
  put_uint32 d.svc_id_len
  put_string d.svc_id

unfoldable pub serial_req_list : Writer
serial_req_list = put_uint32 (req_origin + 5)

unfoldable pub serial_req_status : ReqStatus → Writer
serial_req_status d = do
  put_uint32 (req_origin + 6)
  put_uint32 d.svc_id_len
  put_string d.svc_id
  put_uint32 d.restart_window_seconds

unfoldable pub serial_req_subscribe : ReqSubscribe → Writer
serial_req_subscribe d = do
  put_uint32 (req_origin + 7)
  put_bool d.all_svcs
  put_uint32 d.svc_id_len
  put_string d.svc_id

unfoldable pub serial_req_unsub : ReqUnsubscribe → Writer
serial_req_unsub d = do
  put_uint32 (req_origin + 8)
  put_bool d.all_svcs
  put_uint32 d.svc_id_len
  put_string d.svc_id

unfoldable pub serial_req_disconnect : Writer
serial_req_disconnect = put_uint32 (req_origin + 9)
