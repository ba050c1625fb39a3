-- ===== src/Cli/Rows.antt =====
-- Which findings a report lists under a device.
use routeros_inspector_mcp.Base.{
  String, ◌≡◌, refl, sym, ap, ◌∙◌, inl, inr, Bool, true, false, ◌||◌, List, [], ◌∷◌, ◌++◌, Dict,
  lookup, insert, lookup-insert, str_eq, if◌then◌else◌, Bool-cases, eq_iff,
}
use mathlib.Core.List.{append-nil, append_assoc}
use routeros_inspector_mcp.Audit.{Finding, AuditResult}
use routeros_inspector_mcp.Cli.{
  is_actionable, FindingRow, finding_row, DeviceReport, no_report, add_finding, add_findings,
  entry_of, clear_devices, add_results, baseline_report,
}

-- The rows of the findings of a result that are kept, in order.
abbrev pub kept : Bool → AuditResult → List Finding → List FindingRow
kept include_pass r [] = []
kept include_pass r (f ∷ fs) =
    let rest = kept include_pass r fs in
    if include_pass || is_actionable f.status then finding_row r f ∷ rest else rest

-- The rows of the results about a device, in order.
abbrev pub rows_about : Bool → String → List AuditResult → List FindingRow
rows_about include_pass device_id [] = []
rows_about include_pass device_id (r ∷ results) =
    let rest = rows_about include_pass device_id results in
    if str_eq r.device_id device_id then kept include_pass r r.findings ++ rest else rest

findings-add_findings :
    (include_pass : Bool) (r : AuditResult) (fs : List Finding) (e : DeviceReport)
    → (add_findings include_pass r fs e).findings ≡ e.findings ++ kept include_pass r fs
findings-add_findings include_pass r [] e = sym (append-nil e.findings)
findings-add_findings include_pass r (f ∷ fs) e =
    elim (Bool-cases (include_pass || is_actionable f.status)) [
      | inl shown ↦
          findings-add_findings include_pass r fs (add_finding include_pass r f e)
          ∙ rw (shown, if◌then◌else◌)
              (append_assoc e.findings (finding_row r f ∷ []) (kept include_pass r fs))
      | inr hidden ↦
          findings-add_findings include_pass r fs (add_finding include_pass r f e)
          ∙ rw (hidden, if◌then◌else◌) refl
    ]

entry_of-insert :
    (j k : String) (e : DeviceReport) (d : Dict DeviceReport)
    → entry_of j (insert k e d) ≡ (if str_eq k j then e else entry_of j d)
entry_of-insert j k e d = elim (Bool-cases (str_eq k j)) [
  | inl same ↦ rw (lookup-insert j k e d, entry_of) (rw (same, if◌then◌else◌) refl)
  | inr other ↦ rw (lookup-insert j k e d, entry_of) (rw (other, if◌then◌else◌) refl)
]

-- One result, at one device.
findings-insert :
    (include_pass : Bool) (device_id : String) (r : AuditResult) (d : Dict DeviceReport)
    (rest : List FindingRow)
    → (entry_of device_id (
          insert r.device_id
            (add_findings include_pass r r.findings (entry_of r.device_id d))
            d)).findings
        ++ rest
      ≡ (entry_of device_id d).findings
        ++ (if str_eq r.device_id device_id then kept include_pass r r.findings ++ rest else rest)
findings-insert include_pass device_id r d rest =
    let e = entry_of r.device_id d in
    let e' = add_findings include_pass r r.findings e in
    elim (Bool-cases (str_eq r.device_id device_id)) [
      | inl same ↦ rw (entry_of-insert device_id r.device_id e' d) (
          rw (same, if◌then◌else◌)
            (ap (λ fs. fs ++ rest) (findings-add_findings include_pass r r.findings e)
              ∙ append_assoc e.findings (kept include_pass r r.findings) rest
              ∙ ap (λ k. (entry_of k d).findings ++ (kept include_pass r r.findings ++ rest))
                  ((eq_iff r.device_id device_id).0 same)))
      | inr other ↦ rw (entry_of-insert device_id r.device_id e' d) (rw (other, if◌then◌else◌) refl)
    ]

findings-add_results :
    (include_pass : Bool) (device_id : String) (results : List AuditResult) (d : Dict DeviceReport)
    → (entry_of device_id (add_results include_pass results d)).findings
      ≡ (entry_of device_id d).findings ++ rows_about include_pass device_id results
unfolding add_results
findings-add_results include_pass device_id [] d = sym (append-nil _)
findings-add_results include_pass device_id (r ∷ results) d =
    findings-add_results include_pass device_id results
      (insert r.device_id (add_findings include_pass r r.findings (entry_of r.device_id d)) d)
    ∙ findings-insert include_pass device_id r d (rows_about include_pass device_id results)

cleared :
    (b : Bool) (e : DeviceReport) → e.findings ≡ [] → (if b then no_report else e).findings ≡ []
cleared true e h = refl
cleared false e h = h

empty-clear_devices :
    (device_id : String) (devices : List String) (d : Dict DeviceReport)
    → (entry_of device_id d).findings ≡ []
    → (entry_of device_id (clear_devices devices d)).findings ≡ []
unfolding clear_devices
empty-clear_devices device_id [] d h = h
empty-clear_devices device_id (k ∷ devices) d h =
    empty-clear_devices device_id devices (insert k no_report d) (
      rw (entry_of-insert device_id k no_report d)
        (cleared (str_eq k device_id) (entry_of device_id d) h))

-- Under each device the report lists the findings of the results about that device, in the order of the
-- runs: all of them where passes are included, else those that warn, fail or are unknown, and no other.
pub baseline_report-rows_about :
    (results : List AuditResult) (devices names : List String) (include_pass : Bool)
    (device_id : String)
    → (entry_of device_id (baseline_report results devices names include_pass).by_device).findings
      ≡ rows_about include_pass device_id results
unfolding baseline_report lookup
baseline_report-rows_about results devices names include_pass device_id =
    findings-add_results include_pass device_id results (clear_devices devices [])
    ∙ ap (λ fs. fs ++ rows_about include_pass device_id results)
        (empty-clear_devices device_id devices [] refl)
