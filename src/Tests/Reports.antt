-- ===== src/Tests/Reports.antt =====
-- The theorems on `run_audit` and on the report of the command line, applied to the sample fleet.
use routeros_inspector_mcp.Base.{
  ◌≡◌, refl, true, false, some, Option, List, [], ◌∷◌, String, ℕ, Dict, string_eq, keys, arith,
  lookup,
}
use routeros_inspector_mcp.Errors.{value_error, other_error, ok, err}
use routeros_inspector_mcp.Service.{validate_device}
use routeros_inspector_mcp.Service.Collectors.{get_device_role}
use routeros_inspector_mcp.Audit.{skip, AuditResult}
use routeros_inspector_mcp.Audit.Failover.{audit_wan_failover_state, does_not_apply}
use routeros_inspector_mcp.Server.{
  AuditFn, AuditRow, result, error, run_one, run_on_device, run_on_devices, run_audit,
}
use routeros_inspector_mcp.Server.Answers.{pairs, AnswerAll}
use routeros_inspector_mcp.Server.Fanout.{IsFanout, run_audit_total, run_audit-IsFanout}
use routeros_inspector_mcp.Cli.{
  count_of, BaselineReport, baseline_report, exit_code, split_names, device_ids, audit_names,
  run_on_device as run_each, run_audits, cmd_report,
}
use routeros_inspector_mcp.Cli.Tally.{tally, all_findings, total, baseline_report-counts}
use routeros_inspector_mcp.Tests.Data.{fleet}

abbrev broken : AuditFn
broken s device_id = err (other_error "KeyError")

-- An audit that returns and one that raises.
abbrev registry : Dict AuditFn
registry = ("wan_failover_state", audit_wan_failover_state) ∷ ("broken", broken) ∷ []

abbrev names : Option (List String)
names = some ("wan_failover_state" ∷ "broken" ∷ "broken" ∷ [])

abbrev targets : Option (List String)
targets = some ("sw" ∷ [])

abbrev skipped : AuditResult
skipped = record {
  audit_name = "wan_failover_state";
  device_id = "sw";
  findings = does_not_apply "switch" ∷ [];
}

run_audit_total_example :
    (rows : List AuditRow) × (run_audit registry fleet names targets ≡ ok rows)
    × AnswerAll registry fleet (pairs ("sw" ∷ []) ("wan_failover_state" ∷ "broken" ∷ [])) rows
unfolding keys
run_audit_total_example = run_audit_total registry fleet names targets refl refl (omega arith)

abbrev answer : List AuditRow
answer = result skipped ∷ error "broken" "sw" "internal_error" ∷ []

answered : run_audit registry fleet names targets ≡ ok answer
unfolding run_audit keys run_on_devices run_on_device run_one lookup audit_wan_failover_state
    get_device_role validate_device
answered = refl

run_audit-IsFanout_example : IsFanout registry fleet names targets answer
run_audit-IsFanout_example = run_audit-IsFanout registry fleet names targets answer answered

refused :
    run_audit registry fleet (some ("other" ∷ [])) targets
    ≡ err (value_error "Unknown audit requested")
unfolding run_audit keys
refused = refl

baseline_report-counts_example :
    (count_of skip (baseline_report (skipped ∷ []) ("sw" ∷ []) [] false).counts
      ≡ tally skip (all_findings (skipped ∷ [])))
    × (total skip (baseline_report (skipped ∷ []) ("sw" ∷ []) [] false).by_device
        ≡ count_of skip (baseline_report (skipped ∷ []) ("sw" ∷ []) [] false).counts)
baseline_report-counts_example = baseline_report-counts (skipped ∷ []) ("sw" ∷ []) [] false skip

abbrev written : BaselineReport
written = baseline_report (skipped ∷ []) ("sw" ∷ []) ("wan_failover_state" ∷ []) false

abbrev exited : ℕ
exited = 0

reported :
    cmd_report registry fleet (some "sw") (some "wan_failover_state") false true false
    ≡ ok (written, exited)
unfolding cmd_report device_ids audit_names run_each run_audits split_names baseline_report
    exit_code keys lookup audit_wan_failover_state get_device_role validate_device
reported = refl
