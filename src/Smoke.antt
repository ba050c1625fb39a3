-- ===== src/Smoke.antt =====
-- scripts/smoke_mcp_fixture.py: the check of a server over fixtures, call by call. What the client of
-- the MCP library does is to pass a call on and to raise where the tool raises.
pub mod Clean
use routeros_inspector_mcp.Base.{
  ℕ, String, Bool, true, false, Option, none, some, List, [], ◌∷◌, ◌++◌, Dict, difference, is_empty,
  any, length, map, select, sorted, string_eq, if◌then◌else◌, contains,
}
use routeros_inspector_mcp.Errors.{Result, ok, err, other_error}
use routeros_inspector_mcp.Audit.{Status, pass, warn, fail, unknown, skip, Finding}
use routeros_inspector_mcp.Service.{Service}
use routeros_inspector_mcp.Service.Fleet.{DeviceRow}
use routeros_inspector_mcp.AuditLog.{Ticket, LogFile}
use routeros_inspector_mcp.Server.{AuditFn, AuditRow, result, error}
use routeros_inspector_mcp.Server.Tools.{
  DeviceTool, ToolCall, devices, all_audits, run, Answer, devices_answer, audits_answer,
  rows_answer, collectors, call_tool,
}
use routeros_inspector_mcp.Cli.Tally.{same_status}

-- The tools of the server.
abbrev pub tool_names : List String
tool_names = "get_capabilities" ∷ "list_devices" ∷ collectors ++ ("list_audits" ∷ "run_audit" ∷ [])

-- `REQUIRED_TOOLS`
abbrev pub required_tools : List String
required_tools = "list_devices" ∷ "list_audits" ∷ "run_audit" ∷ []

abbrev pub expected_devices : List String
expected_devices = "edge-router" ∷ "core-switch" ∷ "branch-switch" ∷ "access-switch" ∷ []

abbrev pub expected_audits : List String
expected_audits =
    "default_route_sanity" ∷ "encrypted_dns" ∷ "snmp_scope" ∷ "trunk_vlan_sanity"
    ∷ "vlan_consistency" ∷ "wan_failover_state" ∷ []

-- A step of the check, with the audit log that it leaves.
abbrev pub Step {ℓ} : Type ℓ → Type ℓ
Step A = LogFile → Result A × LogFile

abbrev pub continue {ℓ κ} :
    {A : Type ℓ} {B : Type κ} → Result A × LogFile → (A → Step B) → Result B × LogFile
continue (ok a, file) next = next a file
continue (err exc, file) next = (err exc, file)

infixl 5 ◌>>=◌
abbrev pub ◌>>=◌ {ℓ κ} : {A : Type ℓ} {B : Type κ} → Step A → (A → Step B) → Step B
(m >>= next) file = continue (m file) next

-- A set of names that must be there.
abbrev pub require : List String → List String → Step (Unit {0})
require wanted found file =
    if is_empty (difference wanted found)
    then (ok tt, file)
    else (err (other_error "RuntimeError"), file)

abbrev pub device_ids_of : Answer → List String
device_ids_of (devices_answer rows) = map (λ (r : DeviceRow). r.device_id) rows
device_ids_of _ = []

abbrev pub audits_of : Answer → List String
audits_of (audits_answer names) = names
audits_of _ = []

-- The findings of a row; a row of an audit that raised has none.
abbrev pub findings_of : AuditRow → List Finding
findings_of (result r) = r.findings
findings_of (error audit_name device_id label) = []

abbrev pub statuses : List AuditRow → List Status
statuses [] = []
statuses (row ∷ rows) = map (λ (f : Finding). f.status) (findings_of row) ++ statuses rows

abbrev pub statuses_of : Answer → List Status
statuses_of (rows_answer rows) = statuses rows
statuses_of _ = []

abbrev pub is_trouble : Status → Bool
is_trouble fail = true
is_trouble warn = true
is_trouble _ = false

abbrev pub refuse_trouble : List Status → Step (Unit {0})
refuse_trouble found file =
    if any is_trouble found then (err (other_error "RuntimeError"), file) else (ok tt, file)

abbrev named_statuses : Dict Status
named_statuses =
    ("fail", fail) ∷ ("pass", pass) ∷ ("skip", skip) ∷ ("unknown", unknown) ∷ ("warn", warn) ∷ []

-- The statuses that occur, by their names, with how often they do.
unfoldable pub count_statuses : Dict Status → List Status → Dict ℕ
count_statuses [] found = []
count_statuses ((name, st) ∷ names) found =
    let rest = count_statuses names found in
    if any (same_status st) found
    then (name, length (select (same_status st) found)) ∷ rest
    else rest

pub record Summary : Type 0 where
  pub tool_count : ℕ
  pub required_tools : List String
  pub device_count : ℕ
  pub audit_count : ℕ
  pub status_counts : Dict ℕ

-- `client.call_tool`
abbrev pub passed_on : Result Answer × LogFile → Result Answer × LogFile
passed_on (ok a, file) = (ok a, file)
passed_on (err exc, file) = (err (other_error "ToolError"), file)

module _ (registry : Dict AuditFn) (s : Service) where
  abbrev pub ask : Ticket → ToolCall → Step Answer
  ask ticket call file = passed_on (call_tool registry s ticket call file)

  -- `_run`; each call of a tool takes a ticket of its own.
  unfoldable pub smoke_run : Ticket → Ticket → Ticket → Step Summary
  unfolding sorted count_statuses call_tool
  smoke_run first second third = do
    _ ← require required_tools tool_names
    listed ← ask first devices
    _ ← require expected_devices (device_ids_of listed)
    named ← ask second all_audits
    _ ← require expected_audits (audits_of named)
    answered ← ask third (run (some (sorted expected_audits)) (some expected_devices))
    _ ← refuse_trouble (statuses_of answered)
    λ file. (
      ok (record {
        tool_count = length tool_names;
        required_tools = sorted required_tools;
        device_count = length (device_ids_of listed);
        audit_count = length (audits_of named);
        status_counts = count_statuses named_statuses (statuses_of answered);
      }),
      file,
    )
