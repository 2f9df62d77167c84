-- ===== src/Protocol/CallLaws.antt =====
-- What a call creates is a packet whose payload is the message of the call, counted right.
use upkeeper.Prelude.{ℕ, ◌+◌, arith, ◌≡◌, refl, sym, ap, ◌∙◌, List, length, some, le→leb}
use mathlib.Core.Path.{ap₂}
use upkeeper.Wire.Outcome.{ok, max_string_len}
use upkeeper.Wire.Write.{be32}
use upkeeper.Wire.Bytes.{IsText, strnlen-text, front-length}
use upkeeper.Protocol.Codes.{pkttype_of}
use upkeeper.Protocol.Structs.{Payload, SvcInfo}
use upkeeper.Protocol.Layout.{payload_bytes}
use upkeeper.Protocol.Valid.{IsValid, IsSvcInfo}
use upkeeper.Protocol.Sizes.{length-svcinfo_bytes}
use upkeeper.Protocol.Sizes.{
  length-req_preamble_bytes, length-req_seq_start_bytes, length-req_seq_end_bytes,
  length-req_action_bytes, length-req_signal_bytes, length-req_status_bytes,
  length-req_subscribe_bytes, length-req_unsub_bytes, length-repl_preamble_bytes,
  length-repl_seq_start_bytes, length-repl_seq_end_bytes, length-repl_result_bytes,
  length-repl_listing_bytes, length-repl_svcinfo_bytes, length-repl_err_bytes,
}
use upkeeper.Protocol.PacketFields.{Packet}
use upkeeper.Protocol.CreatePkt.{create_pkt, helper_string}
use upkeeper.Protocol.CreateReq.{
  create_req_preamble, v0_create_req_seq_start, v0_create_req_seq_end, v0_create_req_action,
  v0_create_req_signal, v0_create_req_list, v0_create_req_status, v0_create_req_subscribe,
  v0_create_req_unsubscribe, v0_create_req_disconnect,
}
use upkeeper.Protocol.CreateRepl.{get_svcinfo_len, counted_svcinfo}
use upkeeper.Protocol.CreateRepl.{
  create_repl_preamble, v0_create_repl_seq_start, v0_create_repl_seq_end, v0_create_repl_result,
  v0_create_repl_listing, v0_create_repl_svcinfo, v0_create_repl_ack, v0_create_repl_error,
  v0_create_pub_publication, v0_create_pub_cancelation,
}
use upkeeper.Protocol.Api.{
  upk_create_req_seq_start, upk_create_req_seq_end, upk_create_req_action, upk_create_req_signal,
  upk_create_req_list, upk_create_req_status, upk_create_req_subscribe, upk_create_req_unsubscribe,
  upk_create_req_disconnect, upk_create_repl_seq_start, upk_create_repl_seq_end,
  upk_create_repl_result, upk_create_repl_listing, upk_create_repl_svcinfo, upk_create_repl_ack,
  upk_create_repl_error, upk_create_pub_publication, upk_create_pub_cancelation,
}
use upkeeper.Protocol.Calls.{Call, create, message, IsArg, IsCall}
use upkeeper.Protocol.RoundTrip.{IsPacket}

pub helper_string_lem : {s : List ℕ} → IsArg s → helper_string s ≡ ok (s, length s)
unfolding helper_string
helper_string_lem {s} a =
    rw
      (
        strnlen-text s max_string_len a.chars (omega arith),
        le→leb (length s + 1) max_string_len (omega arith),
      )
      (ap (λ (t : List ℕ). ok (t, length s)) (front-length s))

IsText-of : {s : List ℕ} → IsArg s → IsText s
IsText-of a = record { chars = a.chars; fits = omega arith }

counted : {d : SvcInfo} → IsSvcInfo d → counted_svcinfo d ≡ d
unfolding counted_svcinfo
counted {d} v =
    ap (λ (n : ℕ). record d { last_action_name_len = n })
      (strnlen-text d.last_action_name max_string_len v.last_action_name_text.chars
          v.last_action_name_text.fits
        ∙ sym v.last_action_name_len_counted)

-- The packet that holds a message, with the length of its layout.
abbrev pub packet_of : Payload → Packet
packet_of m = create_pkt m (length (payload_bytes m)) (pkttype_of m) 0

message-IsValid : (c : Call) → IsCall c → IsValid (message c)
message-IsValid (Call.req_preamble client_name) h_client_name = record {
  min_supported_ver_fits = omega arith;
  max_supported_ver_fits = omega arith;
  client_name_len_counted = refl;
  client_name_text = IsText-of h_client_name;
}
message-IsValid (Call.req_seq_start msg_seq_type msg_seq_count) (h_msg_seq_type, h_msg_seq_count) =
    record { msg_seq_type_fits = h_msg_seq_type; msg_seq_count_fits = h_msg_seq_count }
message-IsValid (Call.req_seq_end commit) h = tt
message-IsValid (Call.req_action svc_id action) (h_svc_id, h_action) = record {
  svc_id_len_counted = refl;
  svc_id_text = IsText-of h_svc_id;
  action_len_counted = refl;
  action_text = IsText-of h_action;
}
message-IsValid (Call.req_signal svc_id signal signal_sid signal_pgrp) (h_svc_id, h_signal) =
    record { signal_fits = h_signal; svc_id_len_counted = refl; svc_id_text = IsText-of h_svc_id }
message-IsValid Call.req_list h = tt
message-IsValid (Call.req_status svc_id restart_window_seconds)
      (h_svc_id, h_restart_window_seconds) =
    record {
      svc_id_len_counted = refl;
      svc_id_text = IsText-of h_svc_id;
      restart_window_seconds_fits = h_restart_window_seconds;
    }
message-IsValid (Call.req_subscribe svc_id all_svcs) h_svc_id = record {
  svc_id_len_counted = refl;
  svc_id_text = IsText-of h_svc_id;
}
message-IsValid (Call.req_unsubscribe svc_id all_svcs) h_svc_id = record {
  svc_id_len_counted = refl;
  svc_id_text = IsText-of h_svc_id;
}
message-IsValid Call.req_disconnect h = tt
message-IsValid (Call.repl_preamble best_version) h_best_version = record {
  best_version_fits = h_best_version;
}
message-IsValid (Call.repl_seq_start msg_seq_type msg_seq_count) (h_msg_seq_type, h_msg_seq_count) =
    record { msg_seq_type_fits = h_msg_seq_type; msg_seq_count_fits = h_msg_seq_count }
message-IsValid (Call.repl_seq_end commit) h = tt
message-IsValid (Call.repl_result msg successful) h_msg = record {
  msg_len_counted = refl;
  msg_text = IsText-of h_msg;
}
message-IsValid (Call.repl_listing svc_id) h_svc_id = record {
  svc_id_len_counted = refl;
  svc_id_text = IsText-of h_svc_id;
}
message-IsValid (Call.repl_svcinfo svc_id svcinfo) (h_svc_id, h_svcinfo) = record {
  svcinfo_counted = omega (arith, length-svcinfo_bytes svcinfo);
  svcinfo_valid = h_svcinfo;
  svc_id_len_counted = refl;
  svc_id_text = IsText-of h_svc_id;
}
message-IsValid Call.repl_ack h = tt
message-IsValid (Call.repl_error svc_id uerrno msg errlevel)
      (h_svc_id, h_uerrno, h_msg, h_errlevel) =
    record {
      errlevel_fits = h_errlevel;
      uerrno_fits = h_uerrno;
      msg_len_counted = refl;
      msg_text = IsText-of h_msg;
      svc_id_len_counted = refl;
      svc_id_text = IsText-of h_svc_id;
    }
message-IsValid Call.pub_publication h = tt
message-IsValid Call.pub_cancelation h = tt

created : (c : Call) → IsCall c → create 0 c ≡ ok (some (packet_of (message c)))
unfolding create payload_bytes be32 get_svcinfo_len upk_create_req_seq_start upk_create_req_seq_end
    upk_create_req_action upk_create_req_signal upk_create_req_list upk_create_req_status
    upk_create_req_subscribe upk_create_req_unsubscribe upk_create_req_disconnect
    upk_create_repl_seq_start upk_create_repl_seq_end upk_create_repl_result upk_create_repl_listing
    upk_create_repl_svcinfo upk_create_repl_ack upk_create_repl_error upk_create_pub_publication
    upk_create_pub_cancelation create_req_preamble v0_create_req_seq_start v0_create_req_seq_end
    v0_create_req_action v0_create_req_signal v0_create_req_list v0_create_req_status
    v0_create_req_subscribe v0_create_req_unsubscribe v0_create_req_disconnect create_repl_preamble
    v0_create_repl_seq_start v0_create_repl_seq_end v0_create_repl_result v0_create_repl_listing
    v0_create_repl_svcinfo v0_create_repl_ack v0_create_repl_error v0_create_pub_publication
    v0_create_pub_cancelation
created (Call.req_preamble client_name) h_client_name = rw (helper_string_lem h_client_name) (
    ap (λ (t : ℕ). ok (some (create_pkt (message (Call.req_preamble client_name)) t 1 0)))
      (omega (arith, length-req_preamble_bytes _)))
created (Call.req_seq_start msg_seq_type msg_seq_count) (h_msg_seq_type, h_msg_seq_count) =
    ap
      (λ (t : ℕ).
        ok (some (create_pkt (message (Call.req_seq_start msg_seq_type msg_seq_count)) t 1 0)))
      (omega (arith, length-req_seq_start_bytes _))
created (Call.req_seq_end commit) h =
    ap (λ (t : ℕ). ok (some (create_pkt (message (Call.req_seq_end commit)) t 1 0)))
      (omega (arith, length-req_seq_end_bytes _))
created (Call.req_action svc_id action) (h_svc_id, h_action) =
    rw (helper_string_lem h_svc_id, helper_string_lem h_action)
      (ap (λ (t : ℕ). ok (some (create_pkt (message (Call.req_action svc_id action)) t 1 0)))
        (omega (arith, length-req_action_bytes _)))
created (Call.req_signal svc_id signal signal_sid signal_pgrp) (h_svc_id, h_signal) =
    rw (helper_string_lem h_svc_id) (
      ap
        (λ (t : ℕ). ok (
          some (create_pkt (message (Call.req_signal svc_id signal signal_sid signal_pgrp)) t 1 0)))
        (omega (arith, length-req_signal_bytes _)))
created Call.req_list h = refl
created (Call.req_status svc_id restart_window_seconds) (h_svc_id, h_restart_window_seconds) =
    rw (helper_string_lem h_svc_id) (
      ap
        (λ (t : ℕ).
          ok (some (create_pkt (message (Call.req_status svc_id restart_window_seconds)) t 1 0)))
        (omega (arith, length-req_status_bytes _)))
created (Call.req_subscribe svc_id all_svcs) h_svc_id = rw (helper_string_lem h_svc_id) (
    ap (λ (t : ℕ). ok (some (create_pkt (message (Call.req_subscribe svc_id all_svcs)) t 1 0)))
      (omega (arith, length-req_subscribe_bytes _)))
created (Call.req_unsubscribe svc_id all_svcs) h_svc_id = rw (helper_string_lem h_svc_id) (
    ap (λ (t : ℕ). ok (some (create_pkt (message (Call.req_unsubscribe svc_id all_svcs)) t 1 0)))
      (omega (arith, length-req_unsub_bytes _)))
created Call.req_disconnect h = refl
created (Call.repl_preamble best_version) h_best_version =
    ap (λ (t : ℕ). ok (some (create_pkt (message (Call.repl_preamble best_version)) t 2 0)))
      (omega (arith, length-repl_preamble_bytes _))
created (Call.repl_seq_start msg_seq_type msg_seq_count) (h_msg_seq_type, h_msg_seq_count) =
    ap
      (λ (t : ℕ).
        ok (some (create_pkt (message (Call.repl_seq_start msg_seq_type msg_seq_count)) t 2 0)))
      (omega (arith, length-repl_seq_start_bytes _))
created (Call.repl_seq_end commit) h =
    ap (λ (t : ℕ). ok (some (create_pkt (message (Call.repl_seq_end commit)) t 2 0)))
      (omega (arith, length-repl_seq_end_bytes _))
created (Call.repl_result msg successful) h_msg = rw (helper_string_lem h_msg) (
    ap (λ (t : ℕ). ok (some (create_pkt (message (Call.repl_result msg successful)) t 2 0)))
      (omega (arith, length-repl_result_bytes _)))
created (Call.repl_listing svc_id) h_svc_id = rw (helper_string_lem h_svc_id) (
    ap (λ (t : ℕ). ok (some (create_pkt (message (Call.repl_listing svc_id)) t 2 0)))
      (omega (arith, length-repl_listing_bytes _)))
created (Call.repl_svcinfo svc_id svcinfo) (h_svc_id, h_svcinfo) =
    rw (helper_string_lem h_svc_id, counted h_svcinfo)
      (ap₂
        (λ (k t : ℕ). ok (
          some (
            create_pkt
              (Payload.repl_svcinfo (record {
                svcinfo_len = k;
                svcinfo = svcinfo;
                svc_id_len = length svc_id;
                svc_id = svc_id;
              }))
              t 2 0)))
        (omega arith) (omega (arith, length-repl_svcinfo_bytes, length-svcinfo_bytes svcinfo)))
created Call.repl_ack h = refl
created (Call.repl_error svc_id uerrno msg errlevel) (h_svc_id, h_uerrno, h_msg, h_errlevel) =
    rw (helper_string_lem h_svc_id, helper_string_lem h_msg)
      (ap
        (λ (t : ℕ).
          ok (some (create_pkt (message (Call.repl_error svc_id uerrno msg errlevel)) t 2 0)))
        (omega (arith, length-repl_err_bytes _)))
created Call.pub_publication h = refl
created Call.pub_cancelation h = refl

-- A call with short strings and numbers that fit succeeds, and the packet that it creates carries
-- the message of the call with the length that its serializer fills.
pub create-message :
    (c : Call)
    → IsCall c
    → (create 0 c ≡ ok (some (packet_of (message c))))
      × IsPacket (packet_of (message c)) (message c)
unfolding create_pkt
create-message c h = (
  created c h,
  record {
    message = message-IsValid c h;
    carries = refl;
    typed = refl;
    version = refl;
    counted = refl;
    sequence = omega arith;
  },
)
