-- ===== src/Protocol/Dispatch.antt =====
-- The dispatch tables of upk_v0_protocol_serializer.c, and the functions that look entries up.
-- An entry that a table lacks, the gap at index 0 of a packet table included, is a call to nowhere.
use upkeeper.Prelude.{ℕ, ◌+◌, ◌-◌, ◌%◌, ◌^◌, List, [], ◌∷◌, ltb, if◌then◌else◌, length, get_or}
use upkeeper.Wire.Outcome.{Outcome, ok, fault, null_call, aborted, bind}
use upkeeper.Wire.Write.{Writer, run_writer}
use upkeeper.Wire.Read.{Reader, fetch_uint32}
use upkeeper.Protocol.Codes.{req_origin, repl_origin, pub_origin}
use upkeeper.Protocol.Structs.{Payload}
use upkeeper.Protocol.SerialReq.{
  serialize_req_preamble, serial_req_seq_start, serial_req_seq_end, serial_req_action,
  serial_req_signal, serial_req_list, serial_req_status, serial_req_subscribe, serial_req_unsub,
  serial_req_disconnect,
}
use upkeeper.Protocol.SerialRepl.{
  serialize_repl_preamble, serial_repl_seq_start, serial_repl_seq_end, serial_repl_result,
  serial_repl_listing, serial_repl_svcinfo, serial_repl_ack, serial_repl_err, serial_pub_pub,
  serial_pub_cancel,
}
use upkeeper.Protocol.DeserialReq.{
  deserialize_req_preamble, deserial_req_seq_start, deserial_req_seq_end, deserial_req_action,
  deserial_req_signal, deserial_req_list, deserial_req_status, deserial_req_subscribe,
  deserial_req_unsub, deserial_req_disconnect,
}
use upkeeper.Protocol.DeserialRepl.{
  deserialize_repl_preamble, deserial_repl_seq_start, deserial_repl_seq_end, deserial_repl_result,
  deserial_repl_listing, deserial_repl_svcinfo, deserial_repl_ack, deserial_repl_err,
  deserial_pub_pub, deserial_pub_cancel,
}

-- Unsigned 32-bit subtraction.
abbrev pub sub32 : ℕ → ℕ → ℕ
sub32 a b = (a + 2 ^ 32 - b) % 2 ^ 32

abbrev pub no_reader : Reader Payload
no_reader b = fault null_call

unfoldable pub deserial_req_dispatch : List (Reader Payload)
deserial_req_dispatch =
    deserialize_req_preamble ∷ deserial_req_seq_start ∷ deserial_req_seq_end ∷ deserial_req_action
    ∷ deserial_req_signal ∷ deserial_req_list ∷ deserial_req_status ∷ deserial_req_subscribe
    ∷ deserial_req_unsub ∷ deserial_req_disconnect ∷ []

unfoldable pub deserial_repl_dispatch : List (Reader Payload)
deserial_repl_dispatch =
    deserialize_repl_preamble ∷ deserial_repl_seq_start ∷ deserial_repl_seq_end
    ∷ deserial_repl_result ∷ deserial_repl_listing ∷ deserial_repl_svcinfo ∷ deserial_repl_ack
    ∷ deserial_repl_err ∷ []

unfoldable pub deserial_pub_dispatch : List (Reader Payload)
deserial_pub_dispatch = deserial_pub_pub ∷ deserial_pub_cancel ∷ []

-- The common body of `deserialize_req_payload`, `deserialize_repl_payload` and
-- `deserialize_pub_payload`: the message type picks the entry, under an `assert` on the index.
unfoldable pub deserialize_by : ℕ → List (Reader Payload) → List ℕ → Outcome Payload
deserialize_by origin table b = bind (fetch_uint32 b) (λ p.
    let i = sub32 p.0 origin in
    if ltb i (length table) then bind (get_or table i no_reader b) (λ q. ok q.0) else fault aborted)

unfoldable pub deserialize_req_payload : List ℕ → Outcome Payload
unfolding deserialize_by deserial_req_dispatch
deserialize_req_payload = deserialize_by req_origin deserial_req_dispatch

unfoldable pub deserialize_repl_payload : List ℕ → Outcome Payload
unfolding deserialize_by deserial_repl_dispatch
deserialize_repl_payload = deserialize_by repl_origin deserial_repl_dispatch

unfoldable pub deserialize_pub_payload : List ℕ → Outcome Payload
unfolding deserialize_by deserial_pub_dispatch
deserialize_pub_payload = deserialize_by pub_origin deserial_pub_dispatch

abbrev pub no_entry : List ℕ → Outcome Payload
no_entry b = fault null_call

unfoldable pub deserial_pkt_dispatch : List (List ℕ → Outcome Payload)
deserial_pkt_dispatch =
    no_entry ∷ deserialize_req_payload ∷ deserialize_repl_payload ∷ deserialize_pub_payload ∷ []

unfoldable pub v0_deserialize_payload : List ℕ → ℕ → Outcome Payload
unfolding deserial_pkt_dispatch
v0_deserialize_payload b pkttype = get_or deserial_pkt_dispatch pkttype no_entry b

-- The tables of serializers are looked up by the `msgtype` of the struct: by its constructor.
abbrev pub no_writer : Payload → Writer
no_writer m o = fault null_call

unfoldable pub serialize_req_payload : Payload → Writer
serialize_req_payload (Payload.req_preamble d) = serialize_req_preamble d
serialize_req_payload (Payload.req_seq_start d) = serial_req_seq_start d
serialize_req_payload (Payload.req_seq_end d) = serial_req_seq_end d
serialize_req_payload (Payload.req_action d) = serial_req_action d
serialize_req_payload (Payload.req_signal d) = serial_req_signal d
serialize_req_payload Payload.req_list = serial_req_list
serialize_req_payload (Payload.req_status d) = serial_req_status d
serialize_req_payload (Payload.req_subscribe d) = serial_req_subscribe d
serialize_req_payload (Payload.req_unsubscribe d) = serial_req_unsub d
serialize_req_payload Payload.req_disconnect = serial_req_disconnect
serialize_req_payload m = no_writer m

unfoldable pub serialize_repl_payload : Payload → Writer
serialize_repl_payload (Payload.repl_preamble d) = serialize_repl_preamble d
serialize_repl_payload (Payload.repl_seq_start d) = serial_repl_seq_start d
serialize_repl_payload (Payload.repl_seq_end d) = serial_repl_seq_end d
serialize_repl_payload (Payload.repl_result d) = serial_repl_result d
serialize_repl_payload (Payload.repl_listing d) = serial_repl_listing d
serialize_repl_payload (Payload.repl_svcinfo d) = serial_repl_svcinfo d
serialize_repl_payload Payload.repl_ack = serial_repl_ack
serialize_repl_payload (Payload.repl_error d) = serial_repl_err d
serialize_repl_payload m = no_writer m

unfoldable pub serialize_pub_payload : Payload → Writer
serialize_pub_payload Payload.pub_publication = serial_pub_pub
serialize_pub_payload Payload.pub_cancelation = serial_pub_cancel
serialize_pub_payload m = no_writer m

unfoldable pub serial_pkt_dispatch : List (Payload → Writer)
serial_pkt_dispatch =
    no_writer ∷ serialize_req_payload ∷ serialize_repl_payload ∷ serialize_pub_payload ∷ []

unfoldable pub v0_serialize_payload : ℕ → Payload → ℕ → Outcome (List ℕ)
unfolding serial_pkt_dispatch
v0_serialize_payload pkttype m len = run_writer (get_or serial_pkt_dispatch pkttype no_writer m) len
