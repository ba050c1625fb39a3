-- ===== src/Server/Labels.antt =====
-- The rows of `run_audit` over the real audits, by what they say they are about.
use routeros_inspector_mcp.Base.{String, ◌≡◌, refl, ap, ◌∙◌, inl, inr, Option, List, [], ◌∷◌}
use routeros_inspector_mcp.Errors.{ok}
use routeros_inspector_mcp.Service.{Service}
use routeros_inspector_mcp.Audit.Backup.{Clock}
use routeros_inspector_mcp.Server.{
  AuditRow, result, error, run_audit, requested_audits, requested_devices,
}
use routeros_inspector_mcp.Server.Audits.{audit_registry, audit_registry-IsNamed}
use routeros_inspector_mcp.Server.Answers.{pairs, Answers, AnswerAll}
use routeros_inspector_mcp.Server.Fanout.{run_audit-IsFanout}

-- The device and the audit that a row names.
abbrev pub row_label : AuditRow → String × String
row_label (result r) = (r.device_id, r.audit_name)
row_label (error audit_name device_id label) = (device_id, audit_name)

abbrev pub row_labels : List AuditRow → List (String × String)
row_labels [] = []
row_labels (row ∷ rows) = row_label row ∷ row_labels rows

module _ (clock : Clock) (s : Service) where
  Answers-row_label :
      (dev_id audit_name : String) (row : AuditRow)
      → Answers (audit_registry clock) s dev_id audit_name row
      → ◌≡◌ {A = String × String} (row_label row) (dev_id, audit_name)
  Answers-row_label dev_id audit_name row h = elim h.shown [
    | inl (r, returned, shown) ↦
        let named =
          audit_registry-IsNamed clock audit_name h.audit_fn s dev_id r h.registered returned in
        ap row_label shown ∙ cc (named.named, named.about)
    | inr (e, raised, shown, safe) ↦ ap row_label shown
  ]

  AnswerAll-row_labels :
      (ps : List (String × String)) (rows : List AuditRow)
      → AnswerAll (audit_registry clock) s ps rows
      → row_labels rows ≡ ps
  AnswerAll-row_labels [] [] h = refl
  AnswerAll-row_labels [] (row ∷ rows) h = absurd h
  AnswerAll-row_labels (p ∷ ps) [] h = absurd h
  AnswerAll-row_labels ((d, a) ∷ ps) (row ∷ rows) (h, hs) =
      cc (Answers-row_label d a row h, AnswerAll-row_labels ps rows hs)

  -- Over the real audits each row says which device and audit it is about, also where the audit raised,
  -- and the rows name exactly the devices and audits that were asked for, device by device, in order.
  pub run_audit-row_labels :
      (audits device_ids : Option (List String)) (rows : List AuditRow)
      → run_audit (audit_registry clock) s audits device_ids ≡ ok rows
      → row_labels rows
        ≡ pairs
            (requested_devices (audit_registry clock) s device_ids)
            (requested_audits (audit_registry clock) s audits)
  run_audit-row_labels audits device_ids rows h =
      AnswerAll-row_labels _ rows
        (run_audit-IsFanout (audit_registry clock) s audits device_ids rows h).each
