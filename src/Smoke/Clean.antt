-- ===== src/Smoke/Clean.antt =====
-- What a check that ends well has seen.
use mathlib.Core.Path.{subst}
use routeros_inspector_mcp.Base.{
  String, ◌≡◌, refl, ◌∙◌, sym, ap, Bool, true, false, not, ◌||◌, Option, none, some, List, [], ◌∷◌,
  Dict, difference, difference-eq-nil, subset, is_empty, any, any-append, all, map, sorted,
  string_eq, if◌then◌else◌, Bool-cases, inl, inr, arith,
}
use routeros_inspector_mcp.Errors.{Exn, other_error, Result, ok, err, ok-injective}
use routeros_inspector_mcp.Audit.{Status, Finding}
use routeros_inspector_mcp.Service.{Service}
use routeros_inspector_mcp.Service.Fleet.{DeviceRow, list_devices}
use routeros_inspector_mcp.AuditLog.{Ticket, LogFile}
use routeros_inspector_mcp.AuditLog.Journal.{track-IsRecorded}
use routeros_inspector_mcp.Server.{AuditFn, AuditRow, run_audit, requested_devices}
use routeros_inspector_mcp.Server.Tools.{
  devices, run, Answer, devices_answer, rows_answer, answer, list_audits, call_tool,
}
use routeros_inspector_mcp.Server.Tools.Recorded.{run-cases}
use routeros_inspector_mcp.Smoke.{
  Step, continue, require, device_ids_of, findings_of, statuses, statuses_of, is_trouble,
  refuse_trouble, passed_on, ask, smoke_run, Summary, expected_devices, expected_audits,
}

-- What a step that goes on has returned.
continue-eq-ok {ℓ κ} :
    {A : Type ℓ} {B : Type κ} (m : Result A × LogFile) (next : A → Step B) {b : B} {file' : LogFile}
    → continue m next ≡ (ok b, file')
    → (a : A) × (file : LogFile) × (m ≡ (ok a, file)) × (next a file ≡ (ok b, file'))
continue-eq-ok (ok a, file) next h = (a, file, refl, h)
continue-eq-ok {A} {B} (err exc, file) next {b} h =
    let e : ◌≡◌ {A = Result B} (err exc) (ok b) = ap (λ (r : Result B × LogFile). r.0) h in cc

-- No finding of a row warns or fails.
abbrev pub is_clean : AuditRow → Bool
is_clean row = not (any (λ (f : Finding). is_trouble f.status) (findings_of row))

any-map :
    (p : Status → Bool) (fs : List Finding)
    → any p (map (λ (f : Finding). f.status) fs) ≡ any (λ (f : Finding). p f.status) fs
any-map p [] = refl
any-map p (f ∷ fs) = ap (λ b. p f.status || b) (any-map p fs)

no_trouble :
    (rows : List AuditRow) → any is_trouble (statuses rows) ≡ false → all is_clean rows ≡ true
no_trouble [] h = refl
no_trouble (row ∷ rows) h = ground (
  arith,
  any-append is_trouble (map (λ (f : Finding). f.status) (findings_of row)) (statuses rows),
  any-map is_trouble (findings_of row),
  no_trouble rows,
)

-- A test that lets a step go on has passed.
passes_test :
    (b : Bool) (exc : Exn) (file : LogFile) {u : Unit {0}} {file' : LogFile}
    → ◌≡◌ {A = Result (Unit {0}) × LogFile}
        (if b then (ok tt, file) else (err exc, file))
        (ok u, file')
    → b ≡ true
passes_test true exc file h = refl
passes_test false exc file {u} h =
    let e : ◌≡◌ {A = Result (Unit {0})} (err exc) (ok u) =
      ap (λ (r : Result (Unit {0}) × LogFile). r.0) h in
    cc

require-subset :
    (wanted found : List String) (file : LogFile) {u : Unit {0}} {file' : LogFile}
    → require wanted found file ≡ (ok u, file')
    → subset wanted found ≡ true
require-subset wanted found file h =
    sym (difference-eq-nil wanted found) ∙ passes_test (is_empty (difference wanted found)) _ file h

calm :
    (found : List Status) (file : LogFile) {u : Unit {0}} {file' : LogFile}
    → refuse_trouble found file ≡ (ok u, file')
    → any is_trouble found ≡ false
calm found file {u} h = elim (Bool-cases (any is_trouble found)) [
  | inl trouble ↦
      let e : ◌≡◌ {A = Result (Unit {0})} (err (other_error "RuntimeError")) (ok u) =
        ap (λ (r : Result (Unit {0}) × LogFile). r.0) (rw (trouble, if◌then◌else◌) at h) in
      cc
  | inr none_found ↦ none_found
]

rows_of_answer :
    (r : Result (List AuditRow)) (a : Answer)
    → answer rows_answer r ≡ ok a
    → (rows : List AuditRow) × (r ≡ ok rows) × (a ≡ rows_answer rows)
rows_of_answer (ok rows) a h = (rows, refl, sym (ok-injective h))
rows_of_answer (err e) a h = cc

passed_on-eq-ok :
    (m : Result Answer × LogFile) {a : Answer} {file : LogFile}
    → passed_on m ≡ (ok a, file)
    → m ≡ (ok a, file)
passed_on-eq-ok (ok a, file) h = h
passed_on-eq-ok (err exc, file) {a} h =
    let e : ◌≡◌ {A = Result Answer} (err (other_error "ToolError")) (ok a) =
      ap (λ (r : Result Answer × LogFile). r.0) h in
    cc

module _ (registry : Dict AuditFn) (s : Service) where
  -- The tool `run_audit` answers with the rows of `run_audit`.
  ran_audits :
      (ticket : Ticket) (audits device_ids : Option (List String)) (file : LogFile) {a : Answer}
      {file' : LogFile}
      → call_tool registry s ticket (run audits device_ids) file ≡ (ok a, file')
      → (rows : List AuditRow) × (run_audit registry s audits device_ids ≡ ok rows)
        × (a ≡ rows_answer rows)
  unfolding call_tool
  ran_audits ticket audits device_ids file {a} h =
      elim (run-cases registry s ticket audits device_ids file) [
        | inl (exc, _, refused) ↦
            let e : ◌≡◌ {A = Result Answer} (err exc) (ok a) =
              ap (λ (r : Result Answer × LogFile). r.0) (sym refused ∙ h) in
            cc
        | inr tracked ↦
            rows_of_answer (run_audit registry s audits device_ids) a
              (track-IsRecorded ticket "run_audit" (some (requested_devices registry s device_ids))
                (answer rows_answer (run_audit registry s audits device_ids)) (sym tracked ∙ h)).0
      ]

  listed_devices :
      (ticket : Ticket) (file : LogFile) {a : Answer} {file' : LogFile}
      → call_tool registry s ticket devices file ≡ (ok a, file')
      → devices_answer (list_devices s) ≡ a
  unfolding call_tool
  listed_devices ticket file h =
      ok-injective
        (track-IsRecorded ticket "list_devices" none (ok (devices_answer (list_devices s))) h).0

  -- A check that ends well has found the devices and the audits that it expects, and has run the audits
  -- on the devices: no finding of the rows that this answers fails or warns.
  pub smoke_run-IsClean :
      (first second third : Ticket) (file file' : LogFile) (summary : Summary)
      → smoke_run registry s first second third file ≡ (ok summary, file')
      → (subset expected_devices (map (λ (r : DeviceRow). r.device_id) (list_devices s)) ≡ true)
        × (subset expected_audits (list_audits registry s) ≡ true)
        × (rows : List AuditRow) × (run_audit registry s
              (some (sorted expected_audits))
              (some expected_devices)
            ≡ ok rows)
        × (all is_clean rows ≡ true)
  unfolding smoke_run
  smoke_run-IsClean first second third file file' summary h =
      let (listed, f₂, p, h₂) = continue-eq-ok (ask registry s first devices file) _ h in
      let (_, f₃, q, h₃) =
        continue-eq-ok (require expected_devices (device_ids_of listed) f₂) _ h₂ in
      let (_, f₅, t, h₅) =
        continue-eq-ok (require expected_audits (list_audits registry s) f₃) _ h₃ in
      let (answered, f₆, u, h₆) =
        continue-eq-ok
          (ask registry s third (run (some (sorted expected_audits)) (some expected_devices)) f₅) _
          h₅ in
      let (_, f₇, v, _) = continue-eq-ok (refuse_trouble (statuses_of answered) f₆) _ h₆ in
      let (rows, ran, shown) =
        ran_audits third (some (sorted expected_audits)) (some expected_devices) f₅
          (passed_on-eq-ok _ u) in
      (
        subst (λ a. subset expected_devices (device_ids_of a) ≡ true)
            (sym (listed_devices first file (passed_on-eq-ok _ p)))
            (require-subset expected_devices (device_ids_of listed) f₂ q),
        require-subset expected_audits (list_audits registry s) f₃ t,
        rows,
        ran,
        no_trouble rows (
            subst (λ a. any is_trouble (statuses_of a) ≡ false) shown
              (calm (statuses_of answered) f₆ v)),
      )
