-- ===== src/Protocol/Api.antt =====
-- The wrappers of upk_protocol.c: `switch(handle->version_id)`, with `none` for a null pointer.
use upkeeper.Prelude.{ℕ, Bool, List, Option, none, some, ◌==◌, if◌then◌else◌}
use upkeeper.Wire.Outcome.{Outcome, ok, bind}
use upkeeper.Protocol.Structs.{SvcInfo}
use upkeeper.Protocol.PacketFields.{Packet}
use upkeeper.Protocol.CreateReq.{
  v0_create_req_seq_start, v0_create_req_seq_end, v0_create_req_action, v0_create_req_signal,
  v0_create_req_list, v0_create_req_status, v0_create_req_subscribe, v0_create_req_unsubscribe,
  v0_create_req_disconnect,
}
use upkeeper.Protocol.CreateRepl.{
  v0_create_repl_seq_start, v0_create_repl_seq_end, v0_create_repl_result, v0_create_repl_listing,
  v0_create_repl_svcinfo, v0_create_repl_ack, v0_create_repl_error, v0_create_pub_publication,
  v0_create_pub_cancelation,
}

-- The only version that has functions is 0.
abbrev pub by_version : ℕ → Outcome Packet → Outcome (Option Packet)
by_version version_id created = if version_id == 0 then bind created (λ p. ok (some p)) else ok none

unfoldable pub upk_create_req_seq_start : ℕ → ℕ → ℕ → Outcome (Option Packet)
upk_create_req_seq_start version_id msg_seq_type msg_seq_count =
    by_version version_id (v0_create_req_seq_start msg_seq_type msg_seq_count)

unfoldable pub upk_create_req_seq_end : ℕ → Bool → Outcome (Option Packet)
upk_create_req_seq_end version_id commit = by_version version_id (v0_create_req_seq_end commit)

unfoldable pub upk_create_req_action : ℕ → List ℕ → List ℕ → Outcome (Option Packet)
upk_create_req_action version_id svc_id action =
    by_version version_id (v0_create_req_action svc_id action)

unfoldable pub upk_create_req_signal : ℕ → List ℕ → ℕ → Bool → Bool → Outcome (Option Packet)
upk_create_req_signal version_id svc_id signal signal_sid signal_pgrp =
    by_version version_id (v0_create_req_signal svc_id signal signal_sid signal_pgrp)

unfoldable pub upk_create_req_list : ℕ → Outcome (Option Packet)
upk_create_req_list version_id = by_version version_id v0_create_req_list

unfoldable pub upk_create_req_status : ℕ → List ℕ → ℕ → Outcome (Option Packet)
upk_create_req_status version_id svc_id restart_window_seconds =
    by_version version_id (v0_create_req_status svc_id restart_window_seconds)

unfoldable pub upk_create_req_subscribe : ℕ → List ℕ → Bool → Outcome (Option Packet)
upk_create_req_subscribe version_id svc_id all_svcs =
    by_version version_id (v0_create_req_subscribe svc_id all_svcs)

unfoldable pub upk_create_req_unsubscribe : ℕ → List ℕ → Bool → Outcome (Option Packet)
upk_create_req_unsubscribe version_id svc_id all_svcs =
    by_version version_id (v0_create_req_unsubscribe svc_id all_svcs)

unfoldable pub upk_create_req_disconnect : ℕ → Outcome (Option Packet)
upk_create_req_disconnect version_id = by_version version_id v0_create_req_disconnect

unfoldable pub upk_create_repl_seq_start : ℕ → ℕ → ℕ → Outcome (Option Packet)
upk_create_repl_seq_start version_id msg_seq_type msg_seq_count =
    by_version version_id (v0_create_repl_seq_start msg_seq_type msg_seq_count)

unfoldable pub upk_create_repl_seq_end : ℕ → Bool → Outcome (Option Packet)
upk_create_repl_seq_end version_id commit = by_version version_id (v0_create_repl_seq_end commit)

unfoldable pub upk_create_repl_result : ℕ → List ℕ → Bool → Outcome (Option Packet)
upk_create_repl_result version_id msg successful =
    by_version version_id (v0_create_repl_result msg successful)

unfoldable pub upk_create_repl_listing : ℕ → List ℕ → Outcome (Option Packet)
upk_create_repl_listing version_id svc_id = by_version version_id (v0_create_repl_listing svc_id)

unfoldable pub upk_create_repl_svcinfo : ℕ → List ℕ → SvcInfo → Outcome (Option Packet)
upk_create_repl_svcinfo version_id svc_id svcinfo =
    by_version version_id (v0_create_repl_svcinfo svc_id svcinfo)

unfoldable pub upk_create_repl_ack : ℕ → Outcome (Option Packet)
upk_create_repl_ack version_id = by_version version_id v0_create_repl_ack

unfoldable pub upk_create_repl_error : ℕ → List ℕ → ℕ → List ℕ → ℕ → Outcome (Option Packet)
upk_create_repl_error version_id svc_id uerrno msg errlevel =
    by_version version_id (v0_create_repl_error svc_id uerrno msg errlevel)

unfoldable pub upk_create_pub_publication : ℕ → Outcome (Option Packet)
upk_create_pub_publication version_id = by_version version_id v0_create_pub_publication

unfoldable pub upk_create_pub_cancelation : ℕ → Outcome (Option Packet)
upk_create_pub_cancelation version_id = by_version version_id v0_create_pub_cancelation
