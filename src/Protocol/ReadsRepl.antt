-- ===== src/Protocol/ReadsRepl.antt =====
-- What each deserializer of a reply makes of the layout of a message.
use upkeeper.Prelude.{arith, ◌+◌}
use upkeeper.Wire.Write.{be32}
use upkeeper.Wire.Laws.{
  Reads, Reads-bind, Reads-last, Reads-uint32, Reads-bool, Reads-string, Reads-data, Reads-lift,
}
use upkeeper.Wire.Outcome.{ok, bind}
use upkeeper.Prelude.{◌≡◌, ap, ◌∙◌, sym, append-nil, []}
use upkeeper.Protocol.Structs.{
  Payload, SvcInfo, ReplPreamble, ReplSeqStart, ReplSeqEnd, ReplResult, ReplListing, ReplSvcInfo,
  ReplError,
}
use upkeeper.Protocol.Layout.{
  svcinfo_bytes, repl_preamble_bytes, repl_seq_start_bytes, repl_seq_end_bytes, repl_result_bytes,
  repl_listing_bytes, repl_svcinfo_bytes, repl_err_bytes,
}
use upkeeper.Protocol.Sizes.{length-svcinfo_bytes}
use upkeeper.Protocol.Codes.{repl_origin, pub_origin}
use upkeeper.Protocol.Valid.{
  IsSvcInfo, IsReplPreamble, IsReplSeqStart, IsReplResult, IsReplListing, IsReplSvcInfo,
  IsReplError,
}
use upkeeper.Protocol.DeserialRepl.{
  svcinfo_fields, deserial_svcinfo_data, deserialize_repl_preamble, deserial_repl_seq_start,
  deserial_repl_seq_end, deserial_repl_result, deserial_repl_listing, deserial_repl_svcinfo,
  deserial_repl_ack, deserial_repl_err, deserial_pub_pub, deserial_pub_cancel,
}

pub Reads-svcinfo : {d : SvcInfo} → IsSvcInfo d → Reads svcinfo_fields (svcinfo_bytes d) d
unfolding svcinfo_fields svcinfo_bytes
Reads-svcinfo v = Reads-bind _ (Reads-uint32 v.last_action_time_fits) (
    Reads-bind _ (Reads-uint32 v.last_action_status_fits) (
      Reads-bind _ (Reads-uint32 (omega arith)) (
        Reads-bind _ (Reads-string v.last_action_name_len_counted v.last_action_name_text) (
          Reads-bind _ (Reads-uint32 v.last_signal_time_fits) (
            Reads-bind _ (Reads-uint32 v.last_signal_status_fits) (
              Reads-bind _ (Reads-uint32 v.last_signal_name_fits) (
                Reads-bind _ (Reads-uint32 v.buddy_pid_fits) (
                  Reads-bind _ (Reads-uint32 v.proc_pid_fits) (
                    Reads-bind _ (Reads-uint32 v.current_state_fits) (
                      Reads-bind _ (Reads-uint32 v.prior_state_fits)
                        (Reads-last _ (Reads-uint32 v.n_recorded_restarts_fits))))))))))))

svcinfo_read : {d : SvcInfo} → IsSvcInfo d → deserial_svcinfo_data (svcinfo_bytes d) ≡ ok d
unfolding deserial_svcinfo_data
svcinfo_read {d} v =
    ap (λ l. bind (svcinfo_fields l) (λ p. ok p.0)) (sym (append-nil (svcinfo_bytes d)))
    ∙ ap (λ r. bind r (λ p. ok p.0)) ((Reads-svcinfo v).reads [])

pub Reads-repl_preamble :
    {d : ReplPreamble}
    → IsReplPreamble d
    → Reads deserialize_repl_preamble (repl_preamble_bytes d) (Payload.repl_preamble d)
unfolding deserialize_repl_preamble repl_preamble_bytes
Reads-repl_preamble v =
    Reads-bind _ (Reads-uint32 (omega arith)) (Reads-last _ (Reads-uint32 v.best_version_fits))

pub Reads-repl_seq_start :
    {d : ReplSeqStart}
    → IsReplSeqStart d
    → Reads deserial_repl_seq_start (repl_seq_start_bytes d) (Payload.repl_seq_start d)
unfolding deserial_repl_seq_start repl_seq_start_bytes
Reads-repl_seq_start v = Reads-bind _ (Reads-uint32 (omega arith)) (
    Reads-bind _ (Reads-uint32 v.msg_seq_type_fits)
      (Reads-last _ (Reads-uint32 v.msg_seq_count_fits)))

pub Reads-repl_seq_end :
    (d : ReplSeqEnd) → Reads deserial_repl_seq_end (repl_seq_end_bytes d) (Payload.repl_seq_end d)
unfolding deserial_repl_seq_end repl_seq_end_bytes
Reads-repl_seq_end d = Reads-bind _ (Reads-uint32 (omega arith)) (Reads-last _ (Reads-bool _))

pub Reads-repl_result :
    {d : ReplResult}
    → IsReplResult d
    → Reads deserial_repl_result (repl_result_bytes d) (Payload.repl_result d)
unfolding deserial_repl_result repl_result_bytes
Reads-repl_result v = Reads-bind _ (Reads-uint32 (omega arith)) (
    Reads-bind _ (Reads-bool _) (
      Reads-bind _ (Reads-uint32 (omega arith))
        (Reads-last _ (Reads-string v.msg_len_counted v.msg_text))))

pub Reads-repl_listing :
    {d : ReplListing}
    → IsReplListing d
    → Reads deserial_repl_listing (repl_listing_bytes d) (Payload.repl_listing d)
unfolding deserial_repl_listing repl_listing_bytes
Reads-repl_listing v = Reads-bind _ (Reads-uint32 (omega arith)) (
    Reads-bind _ (Reads-uint32 (omega arith))
      (Reads-last _ (Reads-string v.svc_id_len_counted v.svc_id_text)))

pub Reads-repl_svcinfo :
    {d : ReplSvcInfo}
    → IsReplSvcInfo d
    → Reads deserial_repl_svcinfo (repl_svcinfo_bytes d) (Payload.repl_svcinfo d)
unfolding deserial_repl_svcinfo repl_svcinfo_bytes
Reads-repl_svcinfo {d} v = Reads-bind _ (Reads-uint32 (omega arith)) (
    Reads-bind _ (Reads-uint32 (omega (arith, length-svcinfo_bytes d.svcinfo))) (
      Reads-bind _ (Reads-data v.svcinfo_counted) (
        Reads-bind _ {xs = []} (Reads-lift (svcinfo_read v.svcinfo_valid)) (
          Reads-bind _ (Reads-uint32 (omega arith))
            (Reads-last _ (Reads-string v.svc_id_len_counted v.svc_id_text))))))

pub Reads-repl_ack : Reads deserial_repl_ack (be32 (repl_origin + 6)) Payload.repl_ack
unfolding deserial_repl_ack
Reads-repl_ack = Reads-last _ (Reads-uint32 (omega arith))

pub Reads-repl_err :
    {d : ReplError}
    → IsReplError d
    → Reads deserial_repl_err (repl_err_bytes d) (Payload.repl_error d)
unfolding deserial_repl_err repl_err_bytes
Reads-repl_err v = Reads-bind _ (Reads-uint32 (omega arith)) (
    Reads-bind _ (Reads-uint32 v.errlevel_fits) (
      Reads-bind _ (Reads-uint32 v.uerrno_fits) (
        Reads-bind _ (Reads-uint32 (omega arith)) (
          Reads-bind _ (Reads-string v.msg_len_counted v.msg_text) (
            Reads-bind _ (Reads-uint32 (omega arith))
              (Reads-last _ (Reads-string v.svc_id_len_counted v.svc_id_text)))))))

pub Reads-pub_pub : Reads deserial_pub_pub (be32 pub_origin) Payload.pub_publication
unfolding deserial_pub_pub
Reads-pub_pub = Reads-last _ (Reads-uint32 (omega arith))

pub Reads-pub_cancel : Reads deserial_pub_cancel (be32 (pub_origin + 1)) Payload.pub_cancelation
unfolding deserial_pub_cancel
Reads-pub_cancel = Reads-last _ (Reads-uint32 (omega arith))
