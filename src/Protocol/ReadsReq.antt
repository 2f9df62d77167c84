-- ===== src/Protocol/ReadsReq.antt =====
-- What each deserializer of a request makes of the layout of a message.
use upkeeper.Prelude.{arith, ◌+◌}
use upkeeper.Wire.Write.{be32}
use upkeeper.Wire.Laws.{Reads, Reads-bind, Reads-last, Reads-uint32, Reads-bool, Reads-string}
use upkeeper.Protocol.Structs.{
  Payload, ReqPreamble, ReqSeqStart, ReqSeqEnd, ReqAction, ReqSignal, ReqStatus, ReqSubscribe,
  ReqUnsubscribe,
}
use upkeeper.Protocol.Layout.{
  req_preamble_bytes, req_seq_start_bytes, req_seq_end_bytes, req_action_bytes, req_signal_bytes,
  req_status_bytes, req_subscribe_bytes, req_unsub_bytes,
}
use upkeeper.Protocol.Codes.{req_origin}
use upkeeper.Protocol.Valid.{
  IsReqPreamble, IsReqSeqStart, IsReqAction, IsReqSignal, IsReqStatus, IsReqSubscribe,
  IsReqUnsubscribe,
}
use upkeeper.Protocol.DeserialReq.{
  deserialize_req_preamble, deserial_req_seq_start, deserial_req_seq_end, deserial_req_action,
  deserial_req_signal, deserial_req_list, deserial_req_status, deserial_req_subscribe,
  deserial_req_unsub, deserial_req_disconnect,
}

pub Reads-req_preamble :
    {d : ReqPreamble}
    → IsReqPreamble d
    → Reads deserialize_req_preamble (req_preamble_bytes d) (Payload.req_preamble d)
unfolding deserialize_req_preamble req_preamble_bytes
Reads-req_preamble v = Reads-bind _ (Reads-uint32 (omega arith)) (
    Reads-bind _ (Reads-uint32 v.min_supported_ver_fits) (
      Reads-bind _ (Reads-uint32 v.max_supported_ver_fits) (
        Reads-bind _ (Reads-uint32 (omega arith))
          (Reads-last _ (Reads-string v.client_name_len_counted v.client_name_text)))))

pub Reads-req_seq_start :
    {d : ReqSeqStart}
    → IsReqSeqStart d
    → Reads deserial_req_seq_start (req_seq_start_bytes d) (Payload.req_seq_start d)
unfolding deserial_req_seq_start req_seq_start_bytes
Reads-req_seq_start v = Reads-bind _ (Reads-uint32 (omega arith)) (
    Reads-bind _ (Reads-uint32 v.msg_seq_type_fits)
      (Reads-last _ (Reads-uint32 v.msg_seq_count_fits)))

pub Reads-req_seq_end :
    (d : ReqSeqEnd) → Reads deserial_req_seq_end (req_seq_end_bytes d) (Payload.req_seq_end d)
unfolding deserial_req_seq_end req_seq_end_bytes
Reads-req_seq_end d = Reads-bind _ (Reads-uint32 (omega arith)) (Reads-last _ (Reads-bool _))

pub Reads-req_action :
    {d : ReqAction}
    → IsReqAction d
    → Reads deserial_req_action (req_action_bytes d) (Payload.req_action d)
unfolding deserial_req_action req_action_bytes
Reads-req_action v = Reads-bind _ (Reads-uint32 (omega arith)) (
    Reads-bind _ (Reads-uint32 (omega arith)) (
      Reads-bind _ (Reads-string v.svc_id_len_counted v.svc_id_text) (
        Reads-bind _ (Reads-uint32 (omega arith))
          (Reads-last _ (Reads-string v.action_len_counted v.action_text)))))

pub Reads-req_signal :
    {d : ReqSignal}
    → IsReqSignal d
    → Reads deserial_req_signal (req_signal_bytes d) (Payload.req_signal d)
unfolding deserial_req_signal req_signal_bytes
Reads-req_signal v = Reads-bind _ (Reads-uint32 (omega arith)) (
    Reads-bind _ (Reads-uint32 v.signal_fits) (
      Reads-bind _ (Reads-bool _) (
        Reads-bind _ (Reads-bool _) (
          Reads-bind _ (Reads-uint32 (omega arith))
            (Reads-last _ (Reads-string v.svc_id_len_counted v.svc_id_text))))))

pub Reads-req_list : Reads deserial_req_list (be32 (req_origin + 5)) Payload.req_list
unfolding deserial_req_list
Reads-req_list = Reads-last _ (Reads-uint32 (omega arith))

pub Reads-req_status :
    {d : ReqStatus}
    → IsReqStatus d
    → Reads deserial_req_status (req_status_bytes d) (Payload.req_status d)
unfolding deserial_req_status req_status_bytes
Reads-req_status v = Reads-bind _ (Reads-uint32 (omega arith)) (
    Reads-bind _ (Reads-uint32 (omega arith)) (
      Reads-bind _ (Reads-string v.svc_id_len_counted v.svc_id_text)
        (Reads-last _ (Reads-uint32 v.restart_window_seconds_fits))))

pub Reads-req_subscribe :
    {d : ReqSubscribe}
    → IsReqSubscribe d
    → Reads deserial_req_subscribe (req_subscribe_bytes d) (Payload.req_subscribe d)
unfolding deserial_req_subscribe req_subscribe_bytes
Reads-req_subscribe v = Reads-bind _ (Reads-uint32 (omega arith)) (
    Reads-bind _ (Reads-bool _) (
      Reads-bind _ (Reads-uint32 (omega arith))
        (Reads-last _ (Reads-string v.svc_id_len_counted v.svc_id_text))))

pub Reads-req_unsub :
    {d : ReqUnsubscribe}
    → IsReqUnsubscribe d
    → Reads deserial_req_unsub (req_unsub_bytes d) (Payload.req_unsubscribe d)
unfolding deserial_req_unsub req_unsub_bytes
Reads-req_unsub v = Reads-bind _ (Reads-uint32 (omega arith)) (
    Reads-bind _ (Reads-bool _) (
      Reads-bind _ (Reads-uint32 (omega arith))
        (Reads-last _ (Reads-string v.svc_id_len_counted v.svc_id_text))))

pub Reads-req_disconnect :
    Reads deserial_req_disconnect (be32 (req_origin + 9)) Payload.req_disconnect
unfolding deserial_req_disconnect
Reads-req_disconnect = Reads-last _ (Reads-uint32 (omega arith))
