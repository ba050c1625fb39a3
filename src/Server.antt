-- ===== src/Server.antt =====
-- server.py: the tool `run_audit`, over a registry of audits that is a parameter; the registry itself is
-- in Server/Audits, the other tools in Server/Tools.
pub mod Audits
pub mod Tools
pub mod Launch
pub mod Labels
pub mod Guards
pub mod Answers
pub mod Fanout
use routeros_inspector_mcp.Base.{
  ℕ, String, ◌<>◌, Bool, true, false, not, Option, none, some, List, [], ◌∷◌, ◌++◌, length,
  is_empty, any, ltb, ◌*◌, contains, unique_from, string_eq, Dict, lookup, keys, if◌then◌else◌,
}
use routeros_inspector_mcp.Errors.{Exn, Result, ok, err, value_error, other_error, ◌>>=◌}
use routeros_inspector_mcp.Text.{show_nat}
use routeros_inspector_mcp.Redaction.{safe_error_label}
use routeros_inspector_mcp.Service.{Service}
use routeros_inspector_mcp.Service.Fleet.{or_all}
use routeros_inspector_mcp.Audit.{AuditResult}

abbrev pub max_audit_fanout : ℕ
max_audit_fanout = 128

-- A value of `AUDIT_REGISTRY`.
abbrev pub AuditFn : Type 0
AuditFn = Service → String → Result AuditResult

-- A row of the answer: an audit's result, or the label of what it raised.
pub data AuditRow : Type 0 where
  result : AuditResult → AuditRow
  error : (audit_name device_id label : String) → AuditRow

unfoldable pub run_one : Service → String → String → AuditFn → AuditRow
unfolding safe_error_label
run_one s dev_id audit_name audit_fn = elim (audit_fn s dev_id) [
  | ok r ↦ result r
  | err exc ↦ error audit_name dev_id (safe_error_label exc)
]

module _ (registry : Dict AuditFn) (s : Service) where
  unfoldable pub run_on_device : String → List String → Result (List AuditRow)
  unfolding lookup
  run_on_device dev_id [] = ok []
  run_on_device dev_id (audit_name ∷ audit_names) = elim (lookup audit_name registry) [
    | none ↦ err (other_error "KeyError")
    | some audit_fn ↦ (do
      rest ← run_on_device dev_id audit_names
      ok (run_one s dev_id audit_name audit_fn ∷ rest))
  ]

  unfoldable pub run_on_devices : List String → List String → Result (List AuditRow)
  run_on_devices [] audit_names = ok []
  run_on_devices (dev_id ∷ targets) audit_names = do
    rows ← run_on_device dev_id audit_names
    rest ← run_on_devices targets audit_names
    ok (rows ++ rest)

  -- The audits and the devices that a call asks for, the first mention of each.
  abbrev pub requested_audits : Option (List String) → List String
  requested_audits audits = unique_from [] (or_all audits (keys registry))

  abbrev pub requested_devices : Option (List String) → List String
  requested_devices device_ids = unique_from [] (or_all device_ids (keys s.inventory.devices))

  -- The checks of `run_audit`: the call is refused, or goes on with its devices and audits.
  abbrev pub checked {ℓ} :
      {A : Type ℓ}
      → Option (List String)
      → Option (List String)
      → (Exn → A)
      → (List String → List String → A)
      → A
  checked audits device_ids refuse go =
      let audit_names = requested_audits audits in
      let targets = requested_devices device_ids in
      let fanout = length audit_names * length targets in
      if any (λ audit_name. not (contains (keys registry) audit_name)) audit_names
      then refuse (value_error "Unknown audit requested")
      else if any (λ device_id. not (contains (keys s.inventory.devices) device_id)) targets
      then refuse (value_error "Unknown device requested")
      else if ltb max_audit_fanout fanout
      then refuse (
          value_error
            ("Audit fan-out " <> show_nat fanout <> " exceeds limit " <> show_nat max_audit_fanout))
      else go targets audit_names

  unfoldable pub run_audit : Option (List String) → Option (List String) → Result (List AuditRow)
  unfolding show_nat
  run_audit audits device_ids = checked audits device_ids err run_on_devices
