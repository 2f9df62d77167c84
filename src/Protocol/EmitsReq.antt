-- ===== src/Protocol/EmitsReq.antt =====
-- What each serializer of a request writes is the layout of the message.
use upkeeper.Wire.Laws.{Emits, Emits-seq, Emits-uint32, Emits-bool, Emits-string}
use upkeeper.Protocol.Structs.{
  ReqPreamble, ReqSeqStart, ReqSeqEnd, ReqAction, ReqSignal, ReqStatus, ReqSubscribe,
  ReqUnsubscribe,
}
use upkeeper.Protocol.Layout.{
  req_preamble_bytes, req_seq_start_bytes, req_seq_end_bytes, req_action_bytes, req_signal_bytes,
  req_status_bytes, req_subscribe_bytes, req_unsub_bytes,
}
use upkeeper.Protocol.Valid.{
  IsReqPreamble, IsReqSeqStart, IsReqAction, IsReqSignal, IsReqStatus, IsReqSubscribe,
  IsReqUnsubscribe,
}
use upkeeper.Protocol.SerialReq.{
  serialize_req_preamble, serial_req_seq_start, serial_req_seq_end, serial_req_action,
  serial_req_signal, serial_req_status, serial_req_subscribe, serial_req_unsub,
}

pub Emits-req_preamble :
    {d : ReqPreamble} → IsReqPreamble d → Emits (serialize_req_preamble d) (req_preamble_bytes d)
unfolding serialize_req_preamble req_preamble_bytes
Emits-req_preamble v = Emits-seq (Emits-uint32 _) (
    Emits-seq (Emits-uint32 _)
      (Emits-seq (Emits-uint32 _) (Emits-seq (Emits-uint32 _) (Emits-string v.client_name_text))))

pub Emits-req_seq_start :
    {d : ReqSeqStart} → IsReqSeqStart d → Emits (serial_req_seq_start d) (req_seq_start_bytes d)
unfolding serial_req_seq_start req_seq_start_bytes
Emits-req_seq_start v = Emits-seq (Emits-uint32 _) (Emits-seq (Emits-uint32 _) (Emits-uint32 _))

pub Emits-req_seq_end : (d : ReqSeqEnd) → Emits (serial_req_seq_end d) (req_seq_end_bytes d)
unfolding serial_req_seq_end req_seq_end_bytes
Emits-req_seq_end d = Emits-seq (Emits-uint32 _) (Emits-bool _)

pub Emits-req_action :
    {d : ReqAction} → IsReqAction d → Emits (serial_req_action d) (req_action_bytes d)
unfolding serial_req_action req_action_bytes
Emits-req_action v = Emits-seq (Emits-uint32 _) (
    Emits-seq (Emits-uint32 _) (
      Emits-seq (Emits-string v.svc_id_text)
        (Emits-seq (Emits-uint32 _) (Emits-string v.action_text))))

pub Emits-req_signal :
    {d : ReqSignal} → IsReqSignal d → Emits (serial_req_signal d) (req_signal_bytes d)
unfolding serial_req_signal req_signal_bytes
Emits-req_signal v = Emits-seq (Emits-uint32 _) (
    Emits-seq (Emits-uint32 _) (
      Emits-seq (Emits-bool _)
        (Emits-seq (Emits-bool _) (Emits-seq (Emits-uint32 _) (Emits-string v.svc_id_text)))))

pub Emits-req_status :
    {d : ReqStatus} → IsReqStatus d → Emits (serial_req_status d) (req_status_bytes d)
unfolding serial_req_status req_status_bytes
Emits-req_status v =
    Emits-seq (Emits-uint32 _)
      (Emits-seq (Emits-uint32 _) (Emits-seq (Emits-string v.svc_id_text) (Emits-uint32 _)))

pub Emits-req_subscribe :
    {d : ReqSubscribe} → IsReqSubscribe d → Emits (serial_req_subscribe d) (req_subscribe_bytes d)
unfolding serial_req_subscribe req_subscribe_bytes
Emits-req_subscribe v =
    Emits-seq (Emits-uint32 _)
      (Emits-seq (Emits-bool _) (Emits-seq (Emits-uint32 _) (Emits-string v.svc_id_text)))

pub Emits-req_unsub :
    {d : ReqUnsubscribe} → IsReqUnsubscribe d → Emits (serial_req_unsub d) (req_unsub_bytes d)
unfolding serial_req_unsub req_unsub_bytes
Emits-req_unsub v =
    Emits-seq (Emits-uint32 _)
      (Emits-seq (Emits-bool _) (Emits-seq (Emits-uint32 _) (Emits-string v.svc_id_text)))
