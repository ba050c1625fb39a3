-- ===== src/Server/Tools/Recorded.antt =====
-- Which calls of a tool leave an entry in the audit log.
use routeros_inspector_mcp.Base.{
  ℕ, String, ◌≡◌, refl, sym, ◌∙◌, ap, ◌⊎◌, inl, inr, Bool, true, false, not, Option, none, some,
  List, [], ◌∷◌, Dict, if◌then◌else◌, length, ◌*◌, ◌<>◌, any, contains, keys, ltb, string_eq, all,
  any-not,
}
use routeros_inspector_mcp.Errors.{Exn, value_error, Result, ok, err}
use routeros_inspector_mcp.Text.{show_nat}
use routeros_inspector_mcp.Service.{Service}
use routeros_inspector_mcp.Service.Collectors.{get_recent_logs}
use routeros_inspector_mcp.Service.Fleet.{list_devices}
use routeros_inspector_mcp.AuditLog.{LogFile, Ticket, track, entry_for}
use routeros_inspector_mcp.AuditLog.Journal.{appended, err-ne-ok, track_returned}
use routeros_inspector_mcp.Server.{
  max_audit_fanout, AuditFn, AuditRow, checked, run_on_devices, requested_audits, requested_devices,
  run_audit,
}
use routeros_inspector_mcp.Server.Guards.{three_guards, ok-ne-err}
use routeros_inspector_mcp.Server.Answers.{run_on_devices-AnswerAll}
use routeros_inspector_mcp.Server.Tools.{
  ToolCall, capabilities, devices, device, recent_logs, all_audits, run, Answer, rows_answer,
  devices_answer, value_answer, answer, collect, run_audit_tool, call_tool, tool_name,
}

abbrev too_many : ℕ → String
too_many fanout =
    "Audit fan-out " <> show_nat fanout <> " exceeds limit " <> show_nat max_audit_fanout

-- Splits a call on its three tests.
guards-cases :
    (a b c : Bool) (x y z : Exn)
    → ((e : Exn) × ((A : Type 0) (refuse : Exn → A) (go : A)
          → (if a then refuse x else if b then refuse y else if c then refuse z else go)
            ≡ refuse e))
      ⊎ ((A : Type 0) (refuse : Exn → A) (go : A)
          → (if a then refuse x else if b then refuse y else if c then refuse z else go) ≡ go)
guards-cases true b c x y z = inl (x, λ A refuse go. refl)
guards-cases false true c x y z = inl (y, λ A refuse go. refl)
guards-cases false false true x y z = inl (z, λ A refuse go. refl)
guards-cases false false false x y z = inr λ A refuse go. refl

module _ (registry : Dict AuditFn) (s : Service) where
  checked-cases :
      (audits device_ids : Option (List String))
      → ((e : Exn) × ((A : Type 0) (refuse : Exn → A) (go : List String → List String → A)
            → checked registry s audits device_ids refuse go ≡ refuse e))
        ⊎ ((A : Type 0) (refuse : Exn → A) (go : List String → List String → A)
            → checked registry s audits device_ids refuse go
              ≡ go (requested_devices registry s device_ids) (requested_audits registry s audits))
  checked-cases audits device_ids =
      let names = requested_audits registry s audits in
      let targets = requested_devices registry s device_ids in
      let fanout = length names * length targets in
      elim (guards-cases (any (λ name. not (contains (keys registry) name)) names)
        (any (λ d. not (contains (keys s.inventory.devices) d)) targets)
        (ltb max_audit_fanout fanout) (value_error "Unknown audit requested")
        (value_error "Unknown device requested") (value_error (too_many fanout))) [
          | inl (e, refused) ↦ inl (e, λ A refuse go. refused A refuse (go targets names))
          | inr passed ↦ inr λ A refuse go. passed A refuse (go targets names)
        ]

  abbrev tracked_run : Ticket → LogFile → List String → List String → Result Answer × LogFile
  tracked_run ticket file targets names =
      track ticket "run_audit" (some targets)
        (answer rows_answer (run_on_devices registry s targets names)) file

  -- The two answers of `run_audit_tool`.
  pub run-cases :
      (ticket : Ticket) (audits device_ids : Option (List String)) (file : LogFile)
      → ((e : Exn) × (run_audit registry s audits device_ids ≡ err e)
          × (run_audit_tool registry s ticket audits device_ids file ≡ (err e, file)))
        ⊎ (run_audit_tool registry s ticket audits device_ids file
            ≡ track ticket "run_audit"
                (some (requested_devices registry s device_ids))
                (answer rows_answer (run_audit registry s audits device_ids))
                file)
  unfolding run_audit run_audit_tool
  run-cases ticket audits device_ids file =
      let ids = requested_devices registry s device_ids in
      elim (checked-cases audits device_ids) [
        | inl (e, refused) ↦ inl (
          e,
          refused (Result (List AuditRow)) err (run_on_devices registry s),
          refused (Result Answer × LogFile) (λ x. (err x, file)) (tracked_run ticket file),
        )
        | inr passed ↦ inr (
            passed (Result Answer × LogFile) (λ x. (err x, file)) (tracked_run ticket file)
            ∙ ap (λ r. track ticket "run_audit" (some ids) (answer rows_answer r) file)
                (sym (passed (Result (List AuditRow)) err (run_on_devices registry s))))
      ]

  -- The name and the devices under which a call is recorded; `none` for a call that is not.
  abbrev pub operation_of : ToolCall → Option (String × Option (List String))
  operation_of capabilities = none
  operation_of all_audits = none
  operation_of devices = some ("list_devices", none)
  operation_of (device tool dev_id) = some (tool_name tool, some (dev_id ∷ []))
  operation_of (recent_logs dev_id minutes topics) = some ("get_recent_logs", some (dev_id ∷ []))
  operation_of (run audits device_ids) =
      some ("run_audit", some (requested_devices registry s device_ids))

  -- What an answered call has done to the log: nothing, or its entry is written behind the lines that
  -- were there.
  abbrev pub IsLogged :
      Option (String × Option (List String)) → Ticket → Answer → LogFile → LogFile → Type 0
  IsLogged none ticket answered file file' = file' ≡ file
  IsLogged (some (operation, device_ids)) ticket answered file file' =
      (file.writable ≡ true)
      × (file' ≡ appended (entry_for ticket operation device_ids (ok answered)) file)

  -- A call that is answered has written its entry, with the tool's name and devices and the status
  -- `success`, behind all lines that were there, whatever they hold; the two tools that list
  -- capabilities and audits have left the log as it was. So nothing about a device is answered where
  -- the log cannot be written.
  pub call_tool-IsLogged :
      (ticket : Ticket) (call : ToolCall) (answered : Answer) (file file' : LogFile)
      → call_tool registry s ticket call file ≡ (ok answered, file')
      → IsLogged (operation_of call) ticket answered file file'
  unfolding call_tool
  call_tool-IsLogged ticket capabilities answered file file' h =
      sym (ap (λ (r : Result Answer × LogFile). r.1) h)
  call_tool-IsLogged ticket all_audits answered file file' h =
      sym (ap (λ (r : Result Answer × LogFile). r.1) h)
  call_tool-IsLogged ticket devices answered file file' h =
      track_returned ticket "list_devices" none (ok (devices_answer (list_devices s))) file h
  call_tool-IsLogged ticket (device tool dev_id) answered file file' h =
      track_returned ticket (tool_name tool) (some (dev_id ∷ []))
        (answer value_answer (collect tool s dev_id)) file h
  call_tool-IsLogged ticket (recent_logs dev_id minutes topics) answered file file' h =
      track_returned ticket "get_recent_logs" (some (dev_id ∷ []))
        (answer value_answer (get_recent_logs s dev_id minutes topics)) file h
  call_tool-IsLogged ticket (run audits ids) answered file file' h =
      elim (run-cases ticket audits ids file) [
        | inl (e, _, refused) ↦ absurd (err-ne-ok e (sym refused ∙ h))
        | inr tracked ↦
            track_returned ticket "run_audit" (some (requested_devices registry s ids))
              (answer rows_answer (run_audit registry s audits ids)) file (sym tracked ∙ h)
      ]

  checked_named :
      (audits device_ids : Option (List String))
      → ◌≡◌ {A = Result (List AuditRow)}
          (checked registry s audits device_ids err (λ _ _. ok []))
          (ok [])
      → all (contains (keys registry)) (requested_audits registry s audits) ≡ true
  checked_named audits device_ids h =
      let names = requested_audits registry s audits in
      let targets = requested_devices registry s device_ids in
      (three_guards (all (contains (keys registry)) names)
        (all (contains (keys s.inventory.devices)) targets) (length names * length targets) _ _ _ _
        (rw
          (
            any-not (contains (keys registry)) names,
            any-not (contains (keys s.inventory.devices)) targets,
          )
          at h)).0

  -- A call of `run_audit` that is refused, which only its three checks do, leaves no entry: the log is
  -- as it was.
  pub call_tool-refused_run :
      (ticket : Ticket) (audits device_ids : Option (List String)) (file : LogFile) (e : Exn)
      → run_audit registry s audits device_ids ≡ err e
      → call_tool registry s ticket (run audits device_ids) file ≡ (err e, file)
  unfolding call_tool run_audit run_audit_tool
  call_tool-refused_run ticket audits device_ids file e h = elim (checked-cases audits device_ids) [
    | inl (x, refused) ↦
        let same = sym (refused (Result (List AuditRow)) err (run_on_devices registry s)) ∙ h in
        refused (Result Answer × LogFile) (λ y. (err y, file)) (tracked_run ticket file)
        ∙ ap (λ (r : Result (List AuditRow)). (answer rows_answer r, file)) same
    | inr passed ↦
        let named =
          checked_named audits device_ids (passed (Result (List AuditRow)) err (λ _ _. ok [])) in
        let (rows, p, _) =
          run_on_devices-AnswerAll registry s (requested_devices registry s device_ids)
            (requested_audits registry s audits) named in
        absurd (
          ok-ne-err rows _ e p
            (sym (passed (Result (List AuditRow)) err (run_on_devices registry s)) ∙ h))
  ]
