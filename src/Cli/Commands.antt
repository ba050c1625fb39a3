-- ===== src/Cli/Commands.antt =====
-- cli.py: the four commands, what they print, and `main`. Reading the arguments is argparse's; printing
-- JSON is the value that is printed.
pub mod Exit
use Prim.Native.String.{[] as stop, ◌∷◌ as ◌◂◌}
use routeros_inspector_mcp.Base.{
  ℕ, String, ◌<>◌, Char, code, Bool, true, false, not, ◌&&◌, ◌||◌, Option, none, some, List, [],
  ◌∷◌, ◌++◌, Dict, keys, lookup, sorted, length, any, is_empty, str_eq, if◌then◌else◌,
}
use routeros_inspector_mcp.Errors.{Exn, Result, ok, err, ◌>>=◌}
use routeros_inspector_mcp.Value.{str}
use routeros_inspector_mcp.Value.Show.{py_str}
use routeros_inspector_mcp.Config.{DeviceInventory, PolicyBaseline}
use routeros_inspector_mcp.Backend.{Backend}
use routeros_inspector_mcp.Service.{Service}
use routeros_inspector_mcp.Service.Fleet.{DeviceRow, list_devices}
use routeros_inspector_mcp.Audit.{
  Status, pass, warn, fail, unknown, skip, Part, lit, val, repr_val, num, sorted_strs, sorted_ints,
  sorted_values, set_of, list_of, Message, text, AuditResult,
}
use routeros_inspector_mcp.Server.{AuditFn}
use routeros_inspector_mcp.Cli.{
  Counts, no_counts, SummaryRow, summarize, FindingRow, DeviceReport, BaselineReport, split_names,
  device_ids, audit_names, run_audits, cmd_report, entry_of,
}

-- `_build_service`, on what the loaders return.
unfoldable pub build_service : DeviceInventory → Backend → Option PolicyBaseline → Service
build_service inventory fixture policy = record {
  inventory = inventory;
  backends = ("fixture", fixture) ∷ [];
  policy = policy;
  transport_override = some "fixture";
}

-- `bool(s)` of a formatted text.
abbrev is_shown : Part → Bool
is_shown (lit s) = not (str_eq s "")
is_shown (val v) = not (str_eq (py_str v) "")
is_shown _ = true

abbrev pub upper_status : Status → String
upper_status pass = "PASS"
upper_status warn = "WARN"
upper_status fail = "FAIL"
upper_status unknown = "UNKNOWN"
upper_status skip = "SKIP"

unfoldable pub finding_lines : FindingRow → List Message
unfolding py_str
finding_lines row =
    text ("  " <> (upper_status row.status <> (" " <> row.audit_name)))
    ∷ ((if any is_shown row.finding then (lit "    " ∷ row.finding) ∷ [] else [])
        ++ (if any is_shown row.recommendation
            then (lit "    recommendation: " ∷ row.recommendation) ∷ []
            else []))

abbrev all_lines : List FindingRow → List Message
all_lines [] = []
all_lines (row ∷ rows) = finding_lines row ++ all_lines rows

abbrev device_lines : String → List FindingRow → List Message
device_lines device_id rows =
    if is_empty rows then [] else text "" ∷ text device_id ∷ all_lines rows

abbrev devices_lines : Dict DeviceReport → List String → List Message
devices_lines by_device [] = []
devices_lines by_device (d ∷ devices) =
    device_lines d (entry_of d by_device).findings ++ devices_lines by_device devices

-- `_format_operator_report`, line by line.
unfoldable pub format_operator_report : BaselineReport → List Message
unfolding finding_lines lookup
format_operator_report report =
    text "MikroTik fixture baseline"
    ∷ (lit "devices: "
        ∷ num (length report.devices)
        ∷ lit "  audits: "
        ∷ num (length report.audits)
        ∷ [])
    ∷ (lit "pass: "
        ∷ num report.counts.passes
        ∷ lit "  warn: "
        ∷ num report.counts.warns
        ∷ lit "  fail: "
        ∷ num report.counts.fails
        ∷ lit "  unknown: "
        ∷ num report.counts.unknowns
        ∷ lit "  skip: "
        ∷ num report.counts.skips
        ∷ [])
    ∷ devices_lines report.by_device report.devices

-- What a command prints.
pub data Output : Type 0 where
  device_table : List Message → Output
  devices_json : List DeviceRow → Output
  results_json : List AuditResult → Output
  summary_json : Counts → List SummaryRow → Output
  report_json : BaselineReport → Output
  report_text : List Message → Output

pub data Command : Type 0 where
  list_devices_command : (summary : Bool) → Command
  audit_command : (devices audits : Option String) (summary : Bool) → Command
  baseline_command : (devices audits : Option String) (fail_on_warn fail_on_fail : Bool) → Command
  report_command :
      (devices audits : Option String) (all json fail_on_warn fail_on_fail : Bool) → Command

abbrev table_line : DeviceRow → Message
table_line row = text (
    row.device_id
    <> ("\trole=" <> (row.role <> ("\trisk=" <> (row.risk <> ("\ttransport=" <> row.transport))))))

abbrev table_lines : List DeviceRow → List Message
table_lines [] = []
table_lines (row ∷ rows) = table_line row ∷ table_lines rows

abbrev pub with_status : (BaselineReport → Output) → BaselineReport × ℕ → Result (Output × ℕ)
with_status show (report, status) = ok (show report, status)

abbrev pub in_form : Bool → BaselineReport → Output
in_form json report =
    if json then report_json report else report_text (format_operator_report report)

module _ (registry : Dict AuditFn) (s : Service) where
  unfoldable pub cmd_list_devices : Bool → Output
  unfolding list_devices
  cmd_list_devices summary =
      let rows = list_devices s in
      if summary then device_table (table_lines rows) else devices_json rows

  abbrev summary_of : Counts × List SummaryRow → Output
  summary_of (counts, rows) = summary_json counts rows

  unfoldable pub cmd_audit : Option String → Option String → Bool → Result Output
  unfolding split_names device_ids audit_names run_audits summarize sorted keys
  cmd_audit devices audits summary = do
    targets ← device_ids registry s (split_names devices)
    names ← audit_names registry s (split_names audits) (sorted (keys registry))
    results ← run_audits registry s targets names
    ok (if summary then summary_of (summarize results no_counts) else results_json results)

  -- What is printed, with the exit status.
  unfoldable pub run_command : Command → Result (Output × ℕ)
  unfolding cmd_list_devices cmd_audit cmd_report
  run_command (list_devices_command summary) = ok (cmd_list_devices summary, 0)
  run_command (audit_command devices audits summary) = do
    output ← cmd_audit devices audits summary
    ok (output, 0)
  run_command (baseline_command devices audits fail_on_warn fail_on_fail) = do
    made ← cmd_report registry s devices audits false fail_on_warn fail_on_fail
    with_status report_json made
  run_command (report_command devices audits all json fail_on_warn fail_on_fail) = do
    made ← cmd_report registry s devices audits all fail_on_warn fail_on_fail
    with_status (in_form json) made

-- The end of `main`: what was printed, with the status, or the error that goes to stderr.
pub data Outcome : Type 0 where
  printed : Output → ℕ → Outcome
  failed : Exn → Outcome

abbrev pub outcome_of : Result (Output × ℕ) → Outcome
outcome_of (ok (output, status)) = printed output status
outcome_of (err exc) = failed exc

-- `main` after argparse; `built` is what `_build_service` returns or raises.
unfoldable pub main : Dict AuditFn → Result Service → Command → Outcome
unfolding run_command
main registry (err exc) command = failed exc
main registry (ok s) command = outcome_of (run_command registry s command)

abbrev pub exit_status : Outcome → ℕ
exit_status (printed output status) = status
exit_status (failed exc) = 2
