-- ===== src/Protocol/Codes.antt =====
-- The enums `upk_pkttype_t` and `upk_msgtype_t` of upk_protocol.h.
use upkeeper.Prelude.{ℕ, ◌+◌}
use upkeeper.Protocol.Structs.{Payload}

abbrev pub pkt_request : ℕ
pkt_request = 1

abbrev pub pkt_reply : ℕ
pkt_reply = 2

abbrev pub pkt_pubmsg : ℕ
pkt_pubmsg = 3

-- PKT_V0_PROTO_LIMIT
abbrev pub pkt_v0_proto_limit : ℕ
pkt_v0_proto_limit = 4

abbrev pub req_origin : ℕ
req_origin = 1

abbrev pub repl_origin : ℕ
repl_origin = 4096

abbrev pub pub_origin : ℕ
pub_origin = 8192

-- The `msgtype` that the code stores for each message.
abbrev pub msgtype : Payload → ℕ
msgtype (Payload.req_preamble d) = req_origin
msgtype (Payload.req_seq_start d) = req_origin + 1
msgtype (Payload.req_seq_end d) = req_origin + 2
msgtype (Payload.req_action d) = req_origin + 3
msgtype (Payload.req_signal d) = req_origin + 4
msgtype Payload.req_list = req_origin + 5
msgtype (Payload.req_status d) = req_origin + 6
msgtype (Payload.req_subscribe d) = req_origin + 7
msgtype (Payload.req_unsubscribe d) = req_origin + 8
msgtype Payload.req_disconnect = req_origin + 9
msgtype (Payload.repl_preamble d) = repl_origin
msgtype (Payload.repl_seq_start d) = repl_origin + 1
msgtype (Payload.repl_seq_end d) = repl_origin + 2
msgtype (Payload.repl_result d) = repl_origin + 3
msgtype (Payload.repl_listing d) = repl_origin + 4
msgtype (Payload.repl_svcinfo d) = repl_origin + 5
msgtype Payload.repl_ack = repl_origin + 6
msgtype (Payload.repl_error d) = repl_origin + 7
msgtype Payload.pub_publication = pub_origin
msgtype Payload.pub_cancelation = pub_origin + 1

-- The packet type that carries a message.
abbrev pub pkttype_of : Payload → ℕ
pkttype_of (Payload.req_preamble d) = pkt_request
pkttype_of (Payload.req_seq_start d) = pkt_request
pkttype_of (Payload.req_seq_end d) = pkt_request
pkttype_of (Payload.req_action d) = pkt_request
pkttype_of (Payload.req_signal d) = pkt_request
pkttype_of Payload.req_list = pkt_request
pkttype_of (Payload.req_status d) = pkt_request
pkttype_of (Payload.req_subscribe d) = pkt_request
pkttype_of (Payload.req_unsubscribe d) = pkt_request
pkttype_of Payload.req_disconnect = pkt_request
pkttype_of (Payload.repl_preamble d) = pkt_reply
pkttype_of (Payload.repl_seq_start d) = pkt_reply
pkttype_of (Payload.repl_seq_end d) = pkt_reply
pkttype_of (Payload.repl_result d) = pkt_reply
pkttype_of (Payload.repl_listing d) = pkt_reply
pkttype_of (Payload.repl_svcinfo d) = pkt_reply
pkttype_of Payload.repl_ack = pkt_reply
pkttype_of (Payload.repl_error d) = pkt_reply
pkttype_of Payload.pub_publication = pkt_pubmsg
pkttype_of Payload.pub_cancelation = pkt_pubmsg
