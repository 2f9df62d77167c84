-- ===== src/Protocol/Structs.antt =====
-- The message structs of upk_v0_protocol_structs.h and upk_protocol.h. The first field of each,
-- `msgtype`, is the constructor of `Payload`; an enum is a number that fits a uint32_t.
use upkeeper.Prelude.{ℕ, Bool, List}

-- upk_svcinfo_t
pub record SvcInfo : Type 0 where
  pub last_action_time : ℕ
  pub last_action_status : ℕ
  pub last_action_name_len : ℕ
  pub last_action_name : List ℕ
  pub last_signal_time : ℕ
  pub last_signal_status : ℕ
  pub last_signal_name : ℕ
  pub buddy_pid : ℕ
  pub proc_pid : ℕ
  pub current_state : ℕ
  pub prior_state : ℕ
  pub n_recorded_restarts : ℕ

pub record ReqPreamble : Type 0 where
  pub min_supported_ver : ℕ
  pub max_supported_ver : ℕ
  pub client_name_len : ℕ
  pub client_name : List ℕ

pub record ReqSeqStart : Type 0 where
  pub msg_seq_type : ℕ
  pub msg_seq_count : ℕ

pub record ReqSeqEnd : Type 0 where
  pub commit : Bool

pub record ReqAction : Type 0 where
  pub svc_id_len : ℕ
  pub svc_id : List ℕ
  pub action_len : ℕ
  pub action : List ℕ

pub record ReqSignal : Type 0 where
  pub signal : ℕ
  pub signal_sid : Bool
  pub signal_pgrp : Bool
  pub svc_id_len : ℕ
  pub svc_id : List ℕ

pub record ReqStatus : Type 0 where
  pub svc_id_len : ℕ
  pub svc_id : List ℕ
  pub restart_window_seconds : ℕ

pub record ReqSubscribe : Type 0 where
  pub all_svcs : Bool
  pub svc_id_len : ℕ
  pub svc_id : List ℕ

pub record ReqUnsubscribe : Type 0 where
  pub all_svcs : Bool
  pub svc_id_len : ℕ
  pub svc_id : List ℕ

pub record ReplPreamble : Type 0 where
  pub best_version : ℕ

pub record ReplSeqStart : Type 0 where
  pub msg_seq_type : ℕ
  pub msg_seq_count : ℕ

pub record ReplSeqEnd : Type 0 where
  pub commit : Bool

pub record ReplResult : Type 0 where
  pub successful : Bool
  pub msg_len : ℕ
  pub msg : List ℕ

pub record ReplListing : Type 0 where
  pub svc_id_len : ℕ
  pub svc_id : List ℕ

pub record ReplSvcInfo : Type 0 where
  pub svcinfo_len : ℕ
  pub svcinfo : SvcInfo
  pub svc_id_len : ℕ
  pub svc_id : List ℕ

pub record ReplError : Type 0 where
  pub errlevel : ℕ
  pub uerrno : ℕ
  pub msg_len : ℕ
  pub msg : List ℕ
  pub svc_id_len : ℕ
  pub svc_id : List ℕ

-- `upk_payload_types_u` with its tag. Of some messages the tag is all there is.
pub data Payload : Type 0 where
  req_preamble : ReqPreamble → Payload
  req_seq_start : ReqSeqStart → Payload
  req_seq_end : ReqSeqEnd → Payload
  req_action : ReqAction → Payload
  req_signal : ReqSignal → Payload
  req_list : Payload
  req_status : ReqStatus → Payload
  req_subscribe : ReqSubscribe → Payload
  req_unsubscribe : ReqUnsubscribe → Payload
  req_disconnect : Payload
  repl_preamble : ReplPreamble → Payload
  repl_seq_start : ReplSeqStart → Payload
  repl_seq_end : ReplSeqEnd → Payload
  repl_result : ReplResult → Payload
  repl_listing : ReplListing → Payload
  repl_svcinfo : ReplSvcInfo → Payload
  repl_ack : Payload
  repl_error : ReplError → Payload
  pub_publication : Payload
  pub_cancelation : Payload
