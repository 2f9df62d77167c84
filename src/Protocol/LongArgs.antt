-- ===== src/Protocol/LongArgs.antt =====
-- Strings that are too long for the arrays of the messages, on both sides.
use upkeeper.Prelude.{
  ℕ, zero, suc, ◌^◌, ◌<◌, ◌≤◌, arith, ◌≡◌, refl, ◌⊎◌, List, [], ◌∷◌, length, All,
}
use native.Mathlib.Decide.{dec_lt}
use upkeeper.Wire.Outcome.{fault, overrun, max_string_len}
use upkeeper.Wire.Write.{strnlen}
use upkeeper.Protocol.CreatePkt.{helper_string}
use upkeeper.Protocol.CreateReq.{
  create_req_preamble, v0_create_req_action, v0_create_req_signal, v0_create_req_status,
  v0_create_req_subscribe, v0_create_req_unsubscribe,
}
use upkeeper.Protocol.CreateRepl.{
  v0_create_repl_result, v0_create_repl_listing, v0_create_repl_svcinfo, v0_create_repl_error,
}
use upkeeper.Protocol.Api.{
  upk_create_req_action, upk_create_req_signal, upk_create_req_status, upk_create_req_subscribe,
  upk_create_req_unsubscribe, upk_create_repl_result, upk_create_repl_listing,
  upk_create_repl_svcinfo, upk_create_repl_error,
}
use upkeeper.Protocol.Calls.{Call, create}
use upkeeper.Protocol.CallLaws.{helper_string_lem}

-- The characters of a string, before the zero that ends it.
abbrev pub IsChars : List ℕ → Type 0
IsChars s = All (λ c. (0 < c) × (c < 2 ^ 8)) s

strnlen_long : (s : List ℕ) (n : ℕ) → IsChars s → n ≤ length s → strnlen s n ≡ n
unfolding strnlen
strnlen_long [] zero h le = refl
strnlen_long [] (suc n) h le = absurd (omega arith)
strnlen_long (c ∷ s) zero h le = refl
strnlen_long (c ∷ s) (suc n) ((p, q), h) le = ground (arith, strnlen_long s n h (omega arith))

too_long : (s : List ℕ) → IsChars s → max_string_len ≤ length s → helper_string s ≡ fault overrun
unfolding helper_string
too_long s h le = rw (strnlen_long s max_string_len h le) refl

-- A call with a string of UPK_MAX_STRING_LEN characters or more.
abbrev pub IsTooLong : Call → Type 0
IsTooLong (Call.req_preamble client_name) =
    IsChars client_name × (max_string_len ≤ length client_name)
IsTooLong (Call.req_seq_start msg_seq_type msg_seq_count) = ⊥
IsTooLong (Call.req_seq_end commit) = ⊥
IsTooLong (Call.req_action svc_id action) =
    IsChars svc_id
    × IsChars action
    × ((max_string_len ≤ length svc_id) ⊎ (max_string_len ≤ length action))
IsTooLong (Call.req_signal svc_id signal signal_sid signal_pgrp) =
    IsChars svc_id × (max_string_len ≤ length svc_id)
IsTooLong Call.req_list = ⊥
IsTooLong (Call.req_status svc_id restart_window_seconds) =
    IsChars svc_id × (max_string_len ≤ length svc_id)
IsTooLong (Call.req_subscribe svc_id all_svcs) = IsChars svc_id × (max_string_len ≤ length svc_id)
IsTooLong (Call.req_unsubscribe svc_id all_svcs) = IsChars svc_id × (max_string_len ≤ length svc_id)
IsTooLong Call.req_disconnect = ⊥
IsTooLong (Call.repl_preamble best_version) = ⊥
IsTooLong (Call.repl_seq_start msg_seq_type msg_seq_count) = ⊥
IsTooLong (Call.repl_seq_end commit) = ⊥
IsTooLong (Call.repl_result msg successful) = IsChars msg × (max_string_len ≤ length msg)
IsTooLong (Call.repl_listing svc_id) = IsChars svc_id × (max_string_len ≤ length svc_id)
IsTooLong (Call.repl_svcinfo svc_id svcinfo) = IsChars svc_id × (max_string_len ≤ length svc_id)
IsTooLong Call.repl_ack = ⊥
IsTooLong (Call.repl_error svc_id uerrno msg errlevel) =
    IsChars svc_id
    × IsChars msg
    × ((max_string_len ≤ length svc_id) ⊎ (max_string_len ≤ length msg))
IsTooLong Call.pub_publication = ⊥
IsTooLong Call.pub_cancelation = ⊥

-- One character more than the array holds is copied, the zero at the end of the string: a call with a
-- string of UPK_MAX_STRING_LEN characters or more writes past the end of an array.
pub create-too_long : (c : Call) → IsTooLong c → create 0 c ≡ fault overrun
unfolding create upk_create_req_action upk_create_req_signal upk_create_req_status
    upk_create_req_subscribe upk_create_req_unsubscribe upk_create_repl_result
    upk_create_repl_listing upk_create_repl_svcinfo upk_create_repl_error create_req_preamble
    v0_create_req_action v0_create_req_signal v0_create_req_status v0_create_req_subscribe
    v0_create_req_unsubscribe v0_create_repl_result v0_create_repl_listing v0_create_repl_svcinfo
    v0_create_repl_error
create-too_long (Call.req_preamble client_name) (h, le) = rw (too_long client_name h le)
create-too_long (Call.req_seq_start msg_seq_type msg_seq_count) h = elim h [ ]
create-too_long (Call.req_seq_end commit) h = elim h [ ]
create-too_long (Call.req_action svc_id action) (h, k, long) =
    elim (dec_lt (length svc_id) max_string_len) [
      | yes short ↦ rw (
        helper_string_lem (record { chars = h; short = short }),
        too_long action k (ground arith),
      )
      | no le ↦ rw (too_long svc_id h (omega arith))
    ]
create-too_long (Call.req_signal svc_id signal signal_sid signal_pgrp) (h, le) =
    rw (too_long svc_id h le)
create-too_long Call.req_list h = elim h [ ]
create-too_long (Call.req_status svc_id restart_window_seconds) (h, le) = rw (too_long svc_id h le)
create-too_long (Call.req_subscribe svc_id all_svcs) (h, le) = rw (too_long svc_id h le)
create-too_long (Call.req_unsubscribe svc_id all_svcs) (h, le) = rw (too_long svc_id h le)
create-too_long Call.req_disconnect h = elim h [ ]
create-too_long (Call.repl_preamble best_version) h = elim h [ ]
create-too_long (Call.repl_seq_start msg_seq_type msg_seq_count) h = elim h [ ]
create-too_long (Call.repl_seq_end commit) h = elim h [ ]
create-too_long (Call.repl_result msg successful) (h, le) = rw (too_long msg h le)
create-too_long (Call.repl_listing svc_id) (h, le) = rw (too_long svc_id h le)
create-too_long (Call.repl_svcinfo svc_id svcinfo) (h, le) = rw (too_long svc_id h le)
create-too_long Call.repl_ack h = elim h [ ]
create-too_long (Call.repl_error svc_id uerrno msg errlevel) (h, k, long) =
    elim (dec_lt (length msg) max_string_len) [
      | yes short ↦ rw (
        helper_string_lem (record { chars = k; short = short }),
        too_long svc_id h (ground arith),
      )
      | no le ↦ rw (too_long msg k (omega arith))
    ]
create-too_long Call.pub_publication h = elim h [ ]
create-too_long Call.pub_cancelation h = elim h [ ]
