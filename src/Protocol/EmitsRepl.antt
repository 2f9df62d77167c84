-- ===== src/Protocol/EmitsRepl.antt =====
-- What each serializer of a reply writes is the layout of the message.
use upkeeper.Prelude.{ap, ◌∙◌}
use upkeeper.Wire.Outcome.{bind}
use upkeeper.Wire.Write.{put_data_from_buf}
use upkeeper.Wire.Laws.{Emits, Emits-seq, Emits-uint32, Emits-bool, Emits-string, Emits-array}
use upkeeper.Wire.Laws.{run-Emits_exact, Emits-data_from_buf}
use upkeeper.Protocol.Structs.{
  SvcInfo, ReplPreamble, ReplSeqStart, ReplSeqEnd, ReplResult, ReplListing, ReplSvcInfo, ReplError,
}
use upkeeper.Protocol.Layout.{
  svcinfo_bytes, repl_preamble_bytes, repl_seq_start_bytes, repl_seq_end_bytes, repl_result_bytes,
  repl_listing_bytes, repl_svcinfo_bytes, repl_err_bytes,
}
use upkeeper.Protocol.Valid.{
  IsSvcInfo, IsReplPreamble, IsReplSeqStart, IsReplResult, IsReplListing, IsReplSvcInfo,
  IsReplError,
}
use upkeeper.Protocol.SerialRepl.{
  svcinfo_writer, serial_svcinfo_data, put_svcinfo, serialize_repl_preamble, serial_repl_seq_start,
  serial_repl_seq_end, serial_repl_result, serial_repl_listing, serial_repl_svcinfo,
  serial_repl_err,
}

pub Emits-svcinfo_writer : {d : SvcInfo} → IsSvcInfo d → Emits (svcinfo_writer d) (svcinfo_bytes d)
unfolding svcinfo_writer svcinfo_bytes
Emits-svcinfo_writer v = Emits-seq (Emits-uint32 _) (
    Emits-seq (Emits-uint32 _) (
      Emits-seq (Emits-uint32 _) (
        Emits-seq (Emits-array v.last_action_name_text v.last_action_name_len_counted) (
          Emits-seq (Emits-uint32 _) (
            Emits-seq (Emits-uint32 _) (
              Emits-seq (Emits-uint32 _) (
                Emits-seq (Emits-uint32 _) (
                  Emits-seq (Emits-uint32 _) (
                    Emits-seq (Emits-uint32 _)
                      (Emits-seq (Emits-uint32 _) (Emits-uint32 _)))))))))))

-- The struct of its own is written whole, and copied whole.
Emits-svcinfo :
    {d : ReplSvcInfo} → IsReplSvcInfo d → Emits (put_svcinfo d) (svcinfo_bytes d.svcinfo)
unfolding put_svcinfo serial_svcinfo_data
Emits-svcinfo {d} v = record {
  emits = λ o.
      ap (λ r. bind r (λ b. put_data_from_buf b d.svcinfo_len o))
        (run-Emits_exact (Emits-svcinfo_writer v.svcinfo_valid) v.svcinfo_counted)
      ∙ (Emits-data_from_buf v.svcinfo_counted).emits o;
}

pub Emits-repl_preamble :
    {d : ReplPreamble}
    → IsReplPreamble d
    → Emits (serialize_repl_preamble d) (repl_preamble_bytes d)
unfolding serialize_repl_preamble repl_preamble_bytes
Emits-repl_preamble v = Emits-seq (Emits-uint32 _) (Emits-uint32 _)

pub Emits-repl_seq_start :
    {d : ReplSeqStart} → IsReplSeqStart d → Emits (serial_repl_seq_start d) (repl_seq_start_bytes d)
unfolding serial_repl_seq_start repl_seq_start_bytes
Emits-repl_seq_start v = Emits-seq (Emits-uint32 _) (Emits-seq (Emits-uint32 _) (Emits-uint32 _))

pub Emits-repl_seq_end : (d : ReplSeqEnd) → Emits (serial_repl_seq_end d) (repl_seq_end_bytes d)
unfolding serial_repl_seq_end repl_seq_end_bytes
Emits-repl_seq_end d = Emits-seq (Emits-uint32 _) (Emits-bool _)

pub Emits-repl_result :
    {d : ReplResult} → IsReplResult d → Emits (serial_repl_result d) (repl_result_bytes d)
unfolding serial_repl_result repl_result_bytes
Emits-repl_result v =
    Emits-seq (Emits-uint32 _)
      (Emits-seq (Emits-bool _) (Emits-seq (Emits-uint32 _) (Emits-string v.msg_text)))

pub Emits-repl_listing :
    {d : ReplListing} → IsReplListing d → Emits (serial_repl_listing d) (repl_listing_bytes d)
unfolding serial_repl_listing repl_listing_bytes
Emits-repl_listing v =
    Emits-seq (Emits-uint32 _) (Emits-seq (Emits-uint32 _) (Emits-string v.svc_id_text))

pub Emits-repl_svcinfo :
    {d : ReplSvcInfo} → IsReplSvcInfo d → Emits (serial_repl_svcinfo d) (repl_svcinfo_bytes d)
unfolding serial_repl_svcinfo repl_svcinfo_bytes
Emits-repl_svcinfo v = Emits-seq (Emits-uint32 _) (
    Emits-seq (Emits-uint32 _)
      (Emits-seq (Emits-svcinfo v) (Emits-seq (Emits-uint32 _) (Emits-string v.svc_id_text))))

pub Emits-repl_err : {d : ReplError} → IsReplError d → Emits (serial_repl_err d) (repl_err_bytes d)
unfolding serial_repl_err repl_err_bytes
Emits-repl_err v = Emits-seq (Emits-uint32 _) (
    Emits-seq (Emits-uint32 _) (
      Emits-seq (Emits-uint32 _) (
        Emits-seq (Emits-uint32 _) (
          Emits-seq (Emits-string v.msg_text)
            (Emits-seq (Emits-uint32 _) (Emits-string v.svc_id_text))))))
