-- ===== src/Protocol/DispatchLaws.antt =====
-- Through the dispatch tables: each message meets its serializer and its deserializer.
use upkeeper.Prelude.{ℕ, ◌≡◌, List, get_or, append-nil, ap, ◌∙◌, sym, []}
use upkeeper.Prelude.{ℕ}
use upkeeper.Wire.Outcome.{ok, bind}
use upkeeper.Wire.Write.{be32}
use upkeeper.Wire.Read.{Reader, fetch_uint32, from_be32}
use upkeeper.Wire.Laws.{Emits, Emits-uint32, Reads}
use upkeeper.Protocol.Codes.{pkttype_of}
use upkeeper.Protocol.Structs.{Payload}
use upkeeper.Protocol.Valid.{IsValid}
use upkeeper.Protocol.Layout.{
  payload_bytes, req_preamble_bytes, req_seq_start_bytes, req_seq_end_bytes, req_action_bytes,
  req_signal_bytes, req_status_bytes, req_subscribe_bytes, req_unsub_bytes, repl_preamble_bytes,
  repl_seq_start_bytes, repl_seq_end_bytes, repl_result_bytes, repl_listing_bytes,
  repl_svcinfo_bytes, repl_err_bytes,
}
use upkeeper.Protocol.Dispatch.{no_writer, serial_pkt_dispatch, v0_deserialize_payload}
use upkeeper.Protocol.Dispatch.{
  serialize_req_payload, serialize_repl_payload, serialize_pub_payload,
}
use upkeeper.Protocol.Dispatch.{
  deserialize_req_payload, deserialize_repl_payload, deserialize_pub_payload,
}
use upkeeper.Protocol.SerialReq.{serial_req_list, serial_req_disconnect}
use upkeeper.Protocol.SerialRepl.{serial_repl_ack, serial_pub_pub, serial_pub_cancel}
use upkeeper.Protocol.EmitsReq.{
  Emits-req_preamble, Emits-req_seq_start, Emits-req_seq_end, Emits-req_action, Emits-req_signal,
  Emits-req_status, Emits-req_subscribe, Emits-req_unsub,
}
use upkeeper.Protocol.EmitsRepl.{
  Emits-repl_preamble, Emits-repl_seq_start, Emits-repl_seq_end, Emits-repl_result,
  Emits-repl_listing, Emits-repl_svcinfo, Emits-repl_err,
}
use upkeeper.Protocol.ReadsReq.{
  Reads-req_preamble, Reads-req_seq_start, Reads-req_seq_end, Reads-req_action, Reads-req_signal,
  Reads-req_list, Reads-req_status, Reads-req_subscribe, Reads-req_unsub, Reads-req_disconnect,
}
use upkeeper.Protocol.ReadsRepl.{
  Reads-repl_preamble, Reads-repl_seq_start, Reads-repl_seq_end, Reads-repl_result,
  Reads-repl_listing, Reads-repl_svcinfo, Reads-repl_ack, Reads-repl_err, Reads-pub_pub,
  Reads-pub_cancel,
}

pub Emits-payload :
    (m : Payload)
    → IsValid m
    → Emits (get_or serial_pkt_dispatch (pkttype_of m) no_writer m) (payload_bytes m)
unfolding serial_pkt_dispatch serialize_req_payload serialize_repl_payload serialize_pub_payload
    payload_bytes serial_req_list serial_req_disconnect serial_repl_ack serial_pub_pub
    serial_pub_cancel
Emits-payload (Payload.req_preamble d) v = Emits-req_preamble v
Emits-payload (Payload.req_seq_start d) v = Emits-req_seq_start v
Emits-payload (Payload.req_seq_end d) v = Emits-req_seq_end d
Emits-payload (Payload.req_action d) v = Emits-req_action v
Emits-payload (Payload.req_signal d) v = Emits-req_signal v
Emits-payload Payload.req_list v = Emits-uint32 _
Emits-payload (Payload.req_status d) v = Emits-req_status v
Emits-payload (Payload.req_subscribe d) v = Emits-req_subscribe v
Emits-payload (Payload.req_unsubscribe d) v = Emits-req_unsub v
Emits-payload Payload.req_disconnect v = Emits-uint32 _
Emits-payload (Payload.repl_preamble d) v = Emits-repl_preamble v
Emits-payload (Payload.repl_seq_start d) v = Emits-repl_seq_start v
Emits-payload (Payload.repl_seq_end d) v = Emits-repl_seq_end d
Emits-payload (Payload.repl_result d) v = Emits-repl_result v
Emits-payload (Payload.repl_listing d) v = Emits-repl_listing v
Emits-payload (Payload.repl_svcinfo d) v = Emits-repl_svcinfo v
Emits-payload Payload.repl_ack v = Emits-uint32 _
Emits-payload (Payload.repl_error d) v = Emits-repl_err v
Emits-payload Payload.pub_publication v = Emits-uint32 _
Emits-payload Payload.pub_cancelation v = Emits-uint32 _

whole :
    {r : Reader Payload} {b : List ℕ} {m : Payload} → Reads r b m → bind (r b) (λ q. ok q.0) ≡ ok m
whole {r} {b} p =
    ap (λ l. bind (r l) (λ q. ok q.0)) (sym (append-nil b))
    ∙ ap (λ t. bind t (λ q. ok q.0)) (p.reads [])

pub deserialize-payload_bytes :
    (m : Payload) → IsValid m → v0_deserialize_payload (payload_bytes m) (pkttype_of m) ≡ ok m
unfolding v0_deserialize_payload deserialize_req_payload deserialize_repl_payload
    deserialize_pub_payload fetch_uint32 from_be32 be32 payload_bytes req_preamble_bytes
    req_seq_start_bytes req_seq_end_bytes req_action_bytes req_signal_bytes req_status_bytes
    req_subscribe_bytes req_unsub_bytes repl_preamble_bytes repl_seq_start_bytes repl_seq_end_bytes
    repl_result_bytes repl_listing_bytes repl_svcinfo_bytes repl_err_bytes
deserialize-payload_bytes (Payload.req_preamble d) v = whole (Reads-req_preamble v)
deserialize-payload_bytes (Payload.req_seq_start d) v = whole (Reads-req_seq_start v)
deserialize-payload_bytes (Payload.req_seq_end d) v = whole (Reads-req_seq_end d)
deserialize-payload_bytes (Payload.req_action d) v = whole (Reads-req_action v)
deserialize-payload_bytes (Payload.req_signal d) v = whole (Reads-req_signal v)
deserialize-payload_bytes Payload.req_list v = whole Reads-req_list
deserialize-payload_bytes (Payload.req_status d) v = whole (Reads-req_status v)
deserialize-payload_bytes (Payload.req_subscribe d) v = whole (Reads-req_subscribe v)
deserialize-payload_bytes (Payload.req_unsubscribe d) v = whole (Reads-req_unsub v)
deserialize-payload_bytes Payload.req_disconnect v = whole Reads-req_disconnect
deserialize-payload_bytes (Payload.repl_preamble d) v = whole (Reads-repl_preamble v)
deserialize-payload_bytes (Payload.repl_seq_start d) v = whole (Reads-repl_seq_start v)
deserialize-payload_bytes (Payload.repl_seq_end d) v = whole (Reads-repl_seq_end d)
deserialize-payload_bytes (Payload.repl_result d) v = whole (Reads-repl_result v)
deserialize-payload_bytes (Payload.repl_listing d) v = whole (Reads-repl_listing v)
deserialize-payload_bytes (Payload.repl_svcinfo d) v = whole (Reads-repl_svcinfo v)
deserialize-payload_bytes Payload.repl_ack v = whole Reads-repl_ack
deserialize-payload_bytes (Payload.repl_error d) v = whole (Reads-repl_err v)
deserialize-payload_bytes Payload.pub_publication v = whole Reads-pub_pub
deserialize-payload_bytes Payload.pub_cancelation v = whole Reads-pub_cancel
