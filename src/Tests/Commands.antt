-- ===== src/Tests/Commands.antt =====
-- The theorems on the commands of the command line, applied to the sample fleet.
use routeros_inspector_mcp.Base.{
  ◌≡◌, refl, true, false, some, [], ◌∷◌, Dict, string_eq, keys, lookup,
}
use routeros_inspector_mcp.Errors.{ok}
use routeros_inspector_mcp.Service.{validate_device}
use routeros_inspector_mcp.Service.Collectors.{get_device_role}
use routeros_inspector_mcp.Audit.{AuditResult}
use routeros_inspector_mcp.Audit.Failover.{audit_wan_failover_state, does_not_apply}
use routeros_inspector_mcp.Server.{AuditFn}
use routeros_inspector_mcp.Cli.{
  baseline_report, exit_code, split_names, device_ids, audit_names, run_on_device, run_audits,
  cmd_report, entry_of,
}
use routeros_inspector_mcp.Cli.Rows.{rows_about, baseline_report-rows_about}
use routeros_inspector_mcp.Cli.Commands.{
  Output, report_text, report_command, Command, format_operator_report, run_command, printed, main,
}
use routeros_inspector_mcp.Cli.Commands.Exit.{Settles, main-Settles}
use routeros_inspector_mcp.Tests.Data.{fleet}

abbrev registry : Dict AuditFn
registry = ("wan_failover_state", audit_wan_failover_state) ∷ []

abbrev skipped : AuditResult
skipped = record {
  audit_name = "wan_failover_state";
  device_id = "sw";
  findings = does_not_apply "switch" ∷ [];
}

baseline_report-rows_about_example :
    (entry_of "sw"
      (baseline_report
        (skipped ∷ [])
        ("sw" ∷ [])
        ("wan_failover_state" ∷ [])
        true).by_device).findings
    ≡ rows_about true "sw" (skipped ∷ [])
baseline_report-rows_about_example =
    baseline_report-rows_about (skipped ∷ []) ("sw" ∷ []) ("wan_failover_state" ∷ []) true "sw"

abbrev command : Command
command = report_command (some "sw") (some "wan_failover_state") true false true false

abbrev output : Output
output = report_text (
    format_operator_report
      (baseline_report (skipped ∷ []) ("sw" ∷ []) ("wan_failover_state" ∷ []) true))

ran : main registry (ok fleet) command ≡ printed output 0
unfolding main run_command cmd_report device_ids audit_names run_on_device run_audits split_names
    baseline_report exit_code keys lookup audit_wan_failover_state get_device_role validate_device
ran = refl

main-Settles_example : Settles registry fleet command output 0
main-Settles_example = main-Settles registry fleet command output 0 ran
