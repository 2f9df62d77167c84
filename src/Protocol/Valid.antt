-- ===== src/Protocol/Valid.antt =====
-- The messages that are read back as they were sent: every string is a text with its length beside
-- it, and every number fits its field.
use upkeeper.Prelude.{◌^◌, ◌<◌, ◌≡◌, length}
use upkeeper.Wire.Bytes.{IsText}
use upkeeper.Protocol.Layout.{svcinfo_bytes}
use upkeeper.Protocol.Structs.{
  SvcInfo, Payload, ReqPreamble, ReqSeqStart, ReqAction, ReqSignal, ReqStatus, ReqSubscribe,
  ReqUnsubscribe, ReplPreamble, ReplSeqStart, ReplResult, ReplListing, ReplSvcInfo, ReplError,
}

pub record IsSvcInfo (d : SvcInfo) : Type 0 where
  pub last_action_time_fits : d.last_action_time < 2 ^ 32
  pub last_action_status_fits : d.last_action_status < 2 ^ 32
  pub last_action_name_len_counted : d.last_action_name_len ≡ length d.last_action_name
  pub last_action_name_text : IsText d.last_action_name
  pub last_signal_time_fits : d.last_signal_time < 2 ^ 32
  pub last_signal_status_fits : d.last_signal_status < 2 ^ 32
  pub last_signal_name_fits : d.last_signal_name < 2 ^ 32
  pub buddy_pid_fits : d.buddy_pid < 2 ^ 32
  pub proc_pid_fits : d.proc_pid < 2 ^ 32
  pub current_state_fits : d.current_state < 2 ^ 32
  pub prior_state_fits : d.prior_state < 2 ^ 32
  pub n_recorded_restarts_fits : d.n_recorded_restarts < 2 ^ 32

pub record IsReqPreamble (d : ReqPreamble) : Type 0 where
  pub min_supported_ver_fits : d.min_supported_ver < 2 ^ 32
  pub max_supported_ver_fits : d.max_supported_ver < 2 ^ 32
  pub client_name_len_counted : d.client_name_len ≡ length d.client_name
  pub client_name_text : IsText d.client_name

pub record IsReqSeqStart (d : ReqSeqStart) : Type 0 where
  pub msg_seq_type_fits : d.msg_seq_type < 2 ^ 32
  pub msg_seq_count_fits : d.msg_seq_count < 2 ^ 32

pub record IsReqAction (d : ReqAction) : Type 0 where
  pub svc_id_len_counted : d.svc_id_len ≡ length d.svc_id
  pub svc_id_text : IsText d.svc_id
  pub action_len_counted : d.action_len ≡ length d.action
  pub action_text : IsText d.action

pub record IsReqSignal (d : ReqSignal) : Type 0 where
  pub signal_fits : d.signal < 2 ^ 32
  pub svc_id_len_counted : d.svc_id_len ≡ length d.svc_id
  pub svc_id_text : IsText d.svc_id

pub record IsReqStatus (d : ReqStatus) : Type 0 where
  pub svc_id_len_counted : d.svc_id_len ≡ length d.svc_id
  pub svc_id_text : IsText d.svc_id
  pub restart_window_seconds_fits : d.restart_window_seconds < 2 ^ 32

pub record IsReqSubscribe (d : ReqSubscribe) : Type 0 where
  pub svc_id_len_counted : d.svc_id_len ≡ length d.svc_id
  pub svc_id_text : IsText d.svc_id

pub record IsReqUnsubscribe (d : ReqUnsubscribe) : Type 0 where
  pub svc_id_len_counted : d.svc_id_len ≡ length d.svc_id
  pub svc_id_text : IsText d.svc_id

pub record IsReplPreamble (d : ReplPreamble) : Type 0 where
  pub best_version_fits : d.best_version < 2 ^ 32

pub record IsReplSeqStart (d : ReplSeqStart) : Type 0 where
  pub msg_seq_type_fits : d.msg_seq_type < 2 ^ 32
  pub msg_seq_count_fits : d.msg_seq_count < 2 ^ 32

pub record IsReplResult (d : ReplResult) : Type 0 where
  pub msg_len_counted : d.msg_len ≡ length d.msg
  pub msg_text : IsText d.msg

pub record IsReplListing (d : ReplListing) : Type 0 where
  pub svc_id_len_counted : d.svc_id_len ≡ length d.svc_id
  pub svc_id_text : IsText d.svc_id

pub record IsReplSvcInfo (d : ReplSvcInfo) : Type 0 where
  pub svcinfo_counted : d.svcinfo_len ≡ length (svcinfo_bytes d.svcinfo)
  pub svcinfo_valid : IsSvcInfo d.svcinfo
  pub svc_id_len_counted : d.svc_id_len ≡ length d.svc_id
  pub svc_id_text : IsText d.svc_id

pub record IsReplError (d : ReplError) : Type 0 where
  pub errlevel_fits : d.errlevel < 2 ^ 32
  pub uerrno_fits : d.uerrno < 2 ^ 32
  pub msg_len_counted : d.msg_len ≡ length d.msg
  pub msg_text : IsText d.msg
  pub svc_id_len_counted : d.svc_id_len ≡ length d.svc_id
  pub svc_id_text : IsText d.svc_id

abbrev pub IsValid : Payload → Type 0
IsValid (Payload.req_preamble d) = IsReqPreamble d
IsValid (Payload.req_seq_start d) = IsReqSeqStart d
IsValid (Payload.req_seq_end d) = Unit
IsValid (Payload.req_action d) = IsReqAction d
IsValid (Payload.req_signal d) = IsReqSignal d
IsValid Payload.req_list = Unit
IsValid (Payload.req_status d) = IsReqStatus d
IsValid (Payload.req_subscribe d) = IsReqSubscribe d
IsValid (Payload.req_unsubscribe d) = IsReqUnsubscribe d
IsValid Payload.req_disconnect = Unit
IsValid (Payload.repl_preamble d) = IsReplPreamble d
IsValid (Payload.repl_seq_start d) = IsReplSeqStart d
IsValid (Payload.repl_seq_end d) = Unit
IsValid (Payload.repl_result d) = IsReplResult d
IsValid (Payload.repl_listing d) = IsReplListing d
IsValid (Payload.repl_svcinfo d) = IsReplSvcInfo d
IsValid Payload.repl_ack = Unit
IsValid (Payload.repl_error d) = IsReplError d
IsValid Payload.pub_publication = Unit
IsValid Payload.pub_cancelation = Unit
