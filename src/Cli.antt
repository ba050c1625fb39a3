-- ===== src/Cli.antt =====
-- cli.py: the devices and audits that a command names, the runs, the report and the exit status. The
-- service and the registry of audits are parameters; the arguments are those that argparse makes.
pub mod Tally
pub mod Rows
pub mod Commands
use routeros_inspector_mcp.Base.{
  ℕ, zero, suc, String, Bool, true, false, not, ◌&&◌, ◌||◌, Option, none, some, List, [], ◌∷◌, ◌++◌,
  ◌<>◌, is_empty, select, contains, string_eq, Dict, lookup, insert, keys, if◌then◌else◌, nat_eq,
  map,
}
use routeros_inspector_mcp.Errors.{Result, ok, err, value_error, other_error, ◌>>=◌}
use routeros_inspector_mcp.Text.{strip, split_on, join}
use routeros_inspector_mcp.Service.{Service}
use routeros_inspector_mcp.Service.Fleet.{or_all}
use routeros_inspector_mcp.Audit.{
  Status, pass, warn, fail, unknown, skip, Severity, Message, Finding, AuditResult, strip_all,
}
use routeros_inspector_mcp.Server.{AuditFn}

abbrev pub baseline_audits : List String
baseline_audits =
    "vlan_consistency" ∷ "trunk_vlan_sanity" ∷ "default_route_sanity" ∷ "wan_failover_state"
    ∷ "snmp_scope" ∷ "encrypted_dns" ∷ "firmware_drift" ∷ "dead_mangle_rules" ∷ "dscp_policy" ∷ []

abbrev pub is_actionable : Status → Bool
is_actionable warn = true
is_actionable fail = true
is_actionable unknown = true
is_actionable _ = false

unfoldable pub split_names : Option String → Option (List String)
unfolding strip split_on
split_names none = none
split_names (some value) = some (strip_all (split_on b',' value))

-- `dict.fromkeys(STATUS_ORDER, 0)`, and `counts[status] += 1`.
pub record Counts : Type 0 where
  pub passes : ℕ
  pub warns : ℕ
  pub fails : ℕ
  pub unknowns : ℕ
  pub skips : ℕ

abbrev pub no_counts : Counts
no_counts = record { passes = 0; warns = 0; fails = 0; unknowns = 0; skips = 0 }

abbrev pub count_of : Status → Counts → ℕ
count_of pass c = c.passes
count_of warn c = c.warns
count_of fail c = c.fails
count_of unknown c = c.unknowns
count_of skip c = c.skips

abbrev pub bump : Status → Counts → Counts
bump pass c = record c { passes = suc c.passes }
bump warn c = record c { warns = suc c.warns }
bump fail c = record c { fails = suc c.fails }
bump unknown c = record c { unknowns = suc c.unknowns }
bump skip c = record c { skips = suc c.skips }

-- A result comes from `to_dict`, so that its findings have one of the five statuses.
abbrev pub count_findings : List Finding → Counts → Counts
count_findings [] counts = counts
count_findings (f ∷ fs) counts = count_findings fs (bump f.status counts)

pub record SummaryRow : Type 0 where
  pub device_id : String
  pub audit_name : String
  pub statuses : List Status

abbrev pub statuses_of : List Finding → List Status
statuses_of [] = []
statuses_of (f ∷ fs) = f.status ∷ statuses_of fs

unfoldable pub summarize : List AuditResult → Counts → Counts × List SummaryRow
summarize [] counts = (counts, [])
summarize (r ∷ results) counts =
    let (total, rows) = summarize results (count_findings r.findings counts) in
    (
      total,
      record {
        device_id = r.device_id;
        audit_name = r.audit_name;
        statuses = statuses_of r.findings;
      }
          ∷ rows,
    )

pub record FindingRow : Type 0 where
  pub audit_name : String
  pub status : Status
  pub severity : Severity
  pub finding : Message
  pub evidence : List Message
  pub recommendation : Message

abbrev pub finding_row : AuditResult → Finding → FindingRow
finding_row r f = record {
  audit_name = r.audit_name;
  status = f.status;
  severity = f.severity;
  finding = f.finding;
  evidence = f.evidence;
  recommendation = f.recommendation;
}

pub record DeviceReport : Type 0 where
  pub counts : Counts
  pub findings : List FindingRow

abbrev pub no_report : DeviceReport
no_report = record { counts = no_counts; findings = [] }

abbrev pub add_finding : Bool → AuditResult → Finding → DeviceReport → DeviceReport
add_finding include_pass r f entry = record {
  counts = bump f.status entry.counts;
  findings =
      if include_pass || is_actionable f.status
      then entry.findings ++ (finding_row r f ∷ [])
      else entry.findings;
}

abbrev pub add_findings : Bool → AuditResult → List Finding → DeviceReport → DeviceReport
add_findings include_pass r [] entry = entry
add_findings include_pass r (f ∷ fs) entry =
    add_findings include_pass r fs (add_finding include_pass r f entry)

abbrev pub entry_of : String → Dict DeviceReport → DeviceReport
entry_of device_id by_device = elim (lookup device_id by_device) [
  | none ↦ no_report
  | some entry ↦ entry
]

unfoldable pub clear_devices : List String → Dict DeviceReport → Dict DeviceReport
unfolding insert
clear_devices [] by_device = by_device
clear_devices (d ∷ devices) by_device = clear_devices devices (insert d no_report by_device)

unfoldable pub add_results : Bool → List AuditResult → Dict DeviceReport → Dict DeviceReport
unfolding insert lookup
add_results include_pass [] by_device = by_device
add_results include_pass (r ∷ results) by_device = add_results include_pass results (
    insert r.device_id (add_findings include_pass r r.findings (entry_of r.device_id by_device))
      by_device)

pub record BaselineReport : Type 0 where
  pub devices : List String
  pub audits : List String
  pub counts : Counts
  pub by_device : Dict DeviceReport

unfoldable pub baseline_report :
    List AuditResult → List String → List String → Bool → BaselineReport
unfolding summarize clear_devices add_results
baseline_report results devices audit_names include_pass = record {
  devices = devices;
  audits = audit_names;
  counts = (summarize results no_counts).0;
  by_device = add_results include_pass results (clear_devices devices []);
}

-- Exit status 1: `fail_on_warn` with a warning or a failure, or `fail_on_fail` with a failure.
unfoldable pub exit_code : Bool → Bool → Counts → ℕ
exit_code fail_on_warn fail_on_fail counts =
    if fail_on_warn && not (nat_eq counts.warns 0 && nat_eq counts.fails 0)
    then 1
    else if fail_on_fail && not (nat_eq counts.fails 0)
    then 1
    else 0

module _ (registry : Dict AuditFn) (s : Service) where
  unfoldable pub device_ids : Option (List String) → Result (List String)
  unfolding keys
  device_ids requested =
      let targets = or_all requested (keys s.inventory.devices) in
      let missing = select (λ d. not (contains (keys s.inventory.devices) d)) targets in
      if is_empty missing
      then ok targets
      else err (value_error ("Unknown device ID(s): " <> join ", " missing))

  -- `names` are those that the command falls back to.
  unfoldable pub audit_names : Option (List String) → List String → Result (List String)
  unfolding keys
  audit_names requested names =
      let chosen = or_all requested names in
      let missing = select (λ a. not (contains (keys registry) a)) chosen in
      if is_empty missing
      then ok chosen
      else err (value_error ("Unknown audit(s): " <> join ", " missing))

  unfoldable pub run_on_device : String → List String → Result (List AuditResult)
  unfolding lookup
  run_on_device device_id [] = ok []
  run_on_device device_id (name ∷ names) = elim (lookup name registry) [
    | none ↦ err (other_error "KeyError")
    | some audit_fn ↦ (do
      r ← audit_fn s device_id
      rest ← run_on_device device_id names
      ok (r ∷ rest))
  ]

  unfoldable pub run_audits : List String → List String → Result (List AuditResult)
  run_audits [] names = ok []
  run_audits (d ∷ targets) names = do
    rows ← run_on_device d names
    rest ← run_audits targets names
    ok (rows ++ rest)

  -- `cmd_baseline`, and `cmd_report` with its `include_pass`: the report that is written, and the exit
  -- status.
  unfoldable pub cmd_report :
      Option String → Option String → Bool → Bool → Bool → Result (BaselineReport × ℕ)
  unfolding split_names baseline_report exit_code
  cmd_report devices audits include_pass fail_on_warn fail_on_fail = do
    targets ← device_ids (split_names devices)
    names ← audit_names (split_names audits) baseline_audits
    results ← run_audits targets names
    let report = baseline_report results targets names include_pass
    ok (report, exit_code fail_on_warn fail_on_fail report.counts)
