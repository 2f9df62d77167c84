-- ===== src/Protocol/Calls.antt =====
-- A call of the functions that create packets, as data, and the message that it asks for.
use upkeeper.Prelude.{ℕ, ◌+◌, ◌^◌, ◌<◌, Bool, List, length, All, Option, some}
use upkeeper.Wire.Outcome.{Outcome, ok, bind, max_string_len}
use upkeeper.Protocol.Structs.{SvcInfo, Payload}
use upkeeper.Protocol.Valid.{IsSvcInfo}
use upkeeper.Protocol.PacketFields.{Packet}
use upkeeper.Protocol.CreateReq.{create_req_preamble}
use upkeeper.Protocol.CreateRepl.{create_repl_preamble}
use upkeeper.Protocol.Api.{
  upk_create_req_seq_start, upk_create_req_seq_end, upk_create_req_action, upk_create_req_signal,
  upk_create_req_list, upk_create_req_status, upk_create_req_subscribe, upk_create_req_unsubscribe,
  upk_create_req_disconnect, upk_create_repl_seq_start, upk_create_repl_seq_end,
  upk_create_repl_result, upk_create_repl_listing, upk_create_repl_svcinfo, upk_create_repl_ack,
  upk_create_repl_error, upk_create_pub_publication, upk_create_pub_cancelation,
}

pub data Call : Type 0 where
  req_preamble : List ℕ → Call
  req_seq_start : ℕ → ℕ → Call
  req_seq_end : Bool → Call
  req_action : List ℕ → List ℕ → Call
  req_signal : List ℕ → ℕ → Bool → Bool → Call
  req_list : Call
  req_status : List ℕ → ℕ → Call
  req_subscribe : List ℕ → Bool → Call
  req_unsubscribe : List ℕ → Bool → Call
  req_disconnect : Call
  repl_preamble : ℕ → Call
  repl_seq_start : ℕ → ℕ → Call
  repl_seq_end : Bool → Call
  repl_result : List ℕ → Bool → Call
  repl_listing : List ℕ → Call
  repl_svcinfo : List ℕ → SvcInfo → Call
  repl_ack : Call
  repl_error : List ℕ → ℕ → List ℕ → ℕ → Call
  pub_publication : Call
  pub_cancelation : Call

-- The call, with the version of the handle.
unfoldable pub create : ℕ → Call → Outcome (Option Packet)
create version_id (Call.req_preamble client_name) =
    bind (create_req_preamble client_name) (λ p. ok (some p))
create version_id (Call.req_seq_start msg_seq_type msg_seq_count) =
    upk_create_req_seq_start version_id msg_seq_type msg_seq_count
create version_id (Call.req_seq_end commit) = upk_create_req_seq_end version_id commit
create version_id (Call.req_action svc_id action) = upk_create_req_action version_id svc_id action
create version_id (Call.req_signal svc_id signal signal_sid signal_pgrp) =
    upk_create_req_signal version_id svc_id signal signal_sid signal_pgrp
create version_id Call.req_list = upk_create_req_list version_id
create version_id (Call.req_status svc_id restart_window_seconds) =
    upk_create_req_status version_id svc_id restart_window_seconds
create version_id (Call.req_subscribe svc_id all_svcs) =
    upk_create_req_subscribe version_id svc_id all_svcs
create version_id (Call.req_unsubscribe svc_id all_svcs) =
    upk_create_req_unsubscribe version_id svc_id all_svcs
create version_id Call.req_disconnect = upk_create_req_disconnect version_id
create version_id (Call.repl_preamble best_version) =
    bind (create_repl_preamble best_version) (λ p. ok (some p))
create version_id (Call.repl_seq_start msg_seq_type msg_seq_count) =
    upk_create_repl_seq_start version_id msg_seq_type msg_seq_count
create version_id (Call.repl_seq_end commit) = upk_create_repl_seq_end version_id commit
create version_id (Call.repl_result msg successful) =
    upk_create_repl_result version_id msg successful
create version_id (Call.repl_listing svc_id) = upk_create_repl_listing version_id svc_id
create version_id (Call.repl_svcinfo svc_id svcinfo) =
    upk_create_repl_svcinfo version_id svc_id svcinfo
create version_id Call.repl_ack = upk_create_repl_ack version_id
create version_id (Call.repl_error svc_id uerrno msg errlevel) =
    upk_create_repl_error version_id svc_id uerrno msg errlevel
create version_id Call.pub_publication = upk_create_pub_publication version_id
create version_id Call.pub_cancelation = upk_create_pub_cancelation version_id

-- What the peer should read.
abbrev pub message : Call → Payload
message (Call.req_preamble client_name) = Payload.req_preamble (record {
  min_supported_ver = 0;
  max_supported_ver = 0;
  client_name_len = length client_name;
  client_name = client_name;
})
message (Call.req_seq_start msg_seq_type msg_seq_count) =
    Payload.req_seq_start (record { msg_seq_type = msg_seq_type; msg_seq_count = msg_seq_count })
message (Call.req_seq_end commit) = Payload.req_seq_end (record { commit = commit })
message (Call.req_action svc_id action) = Payload.req_action (record {
  svc_id_len = length svc_id;
  svc_id = svc_id;
  action_len = length action;
  action = action;
})
message (Call.req_signal svc_id signal signal_sid signal_pgrp) = Payload.req_signal (record {
  signal = signal;
  signal_sid = signal_sid;
  signal_pgrp = signal_pgrp;
  svc_id_len = length svc_id;
  svc_id = svc_id;
})
message Call.req_list = Payload.req_list
message (Call.req_status svc_id restart_window_seconds) = Payload.req_status (record {
  svc_id_len = length svc_id;
  svc_id = svc_id;
  restart_window_seconds = restart_window_seconds;
})
message (Call.req_subscribe svc_id all_svcs) =
    Payload.req_subscribe
      (record { all_svcs = all_svcs; svc_id_len = length svc_id; svc_id = svc_id })
message (Call.req_unsubscribe svc_id all_svcs) =
    Payload.req_unsubscribe
      (record { all_svcs = all_svcs; svc_id_len = length svc_id; svc_id = svc_id })
message Call.req_disconnect = Payload.req_disconnect
message (Call.repl_preamble best_version) =
    Payload.repl_preamble (record { best_version = best_version })
message (Call.repl_seq_start msg_seq_type msg_seq_count) =
    Payload.repl_seq_start (record { msg_seq_type = msg_seq_type; msg_seq_count = msg_seq_count })
message (Call.repl_seq_end commit) = Payload.repl_seq_end (record { commit = commit })
message (Call.repl_result msg successful) =
    Payload.repl_result (record { successful = successful; msg_len = length msg; msg = msg })
message (Call.repl_listing svc_id) =
    Payload.repl_listing (record { svc_id_len = length svc_id; svc_id = svc_id })
message (Call.repl_svcinfo svc_id svcinfo) = Payload.repl_svcinfo (record {
  svcinfo_len = 44 + length svcinfo.last_action_name;
  svcinfo = svcinfo;
  svc_id_len = length svc_id;
  svc_id = svc_id;
})
message Call.repl_ack = Payload.repl_ack
message (Call.repl_error svc_id uerrno msg errlevel) = Payload.repl_error (record {
  errlevel = errlevel;
  uerrno = uerrno;
  msg_len = length msg;
  msg = msg;
  svc_id_len = length svc_id;
  svc_id = svc_id;
})
message Call.pub_publication = Payload.pub_publication
message Call.pub_cancelation = Payload.pub_cancelation

-- A string argument of at most UPK_MAX_STRING_LEN - 1 characters.
pub record IsArg (s : List ℕ) : Type 0 where
  pub chars : All (λ c. (0 < c) × (c < 2 ^ 8)) s
  pub short : length s < max_string_len

-- Arguments that the functions can take: short strings, and numbers that fit a uint32_t.
abbrev pub IsCall : Call → Type 0
IsCall (Call.req_preamble client_name) = IsArg client_name
IsCall (Call.req_seq_start msg_seq_type msg_seq_count) =
    (msg_seq_type < 2 ^ 32) × (msg_seq_count < 2 ^ 32)
IsCall (Call.req_seq_end commit) = Unit
IsCall (Call.req_action svc_id action) = IsArg svc_id × IsArg action
IsCall (Call.req_signal svc_id signal signal_sid signal_pgrp) = IsArg svc_id × (signal < 2 ^ 32)
IsCall Call.req_list = Unit
IsCall (Call.req_status svc_id restart_window_seconds) =
    IsArg svc_id × (restart_window_seconds < 2 ^ 32)
IsCall (Call.req_subscribe svc_id all_svcs) = IsArg svc_id
IsCall (Call.req_unsubscribe svc_id all_svcs) = IsArg svc_id
IsCall Call.req_disconnect = Unit
IsCall (Call.repl_preamble best_version) = (best_version < 2 ^ 32)
IsCall (Call.repl_seq_start msg_seq_type msg_seq_count) =
    (msg_seq_type < 2 ^ 32) × (msg_seq_count < 2 ^ 32)
IsCall (Call.repl_seq_end commit) = Unit
IsCall (Call.repl_result msg successful) = IsArg msg
IsCall (Call.repl_listing svc_id) = IsArg svc_id
IsCall (Call.repl_svcinfo svc_id svcinfo) = IsArg svc_id × IsSvcInfo svcinfo
IsCall Call.repl_ack = Unit
IsCall (Call.repl_error svc_id uerrno msg errlevel) =
    IsArg svc_id × (uerrno < 2 ^ 32) × IsArg msg × (errlevel < 2 ^ 32)
IsCall Call.pub_publication = Unit
IsCall Call.pub_cancelation = Unit
