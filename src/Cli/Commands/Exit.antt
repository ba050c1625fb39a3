-- ===== src/Cli/Commands/Exit.antt =====
-- The exit status of each command.
use mathlib.Core.Path.{subst}
use routeros_inspector_mcp.Base.{
  ℕ, String, ◌≡◌, sym, ap, Bool, false, Option, List, Dict, any, if◌then◌else◌,
}
use routeros_inspector_mcp.Errors.{Result, ok, err, ◌>>=◌, >>=-eq-ok, ok-injective}
use routeros_inspector_mcp.Service.{Service}
use routeros_inspector_mcp.Audit.{Status, AuditResult}
use routeros_inspector_mcp.Server.{AuditFn}
use routeros_inspector_mcp.Cli.{BaselineReport, count_of, run_audits, cmd_report}
use routeros_inspector_mcp.Cli.Tally.{tally, all_findings, is_refused, cmd_report-exit_code}
use routeros_inspector_mcp.Cli.Commands.{
  Output, report_json, report_text, Command, list_devices_command, audit_command, baseline_command,
  report_command, in_form, with_status, format_operator_report, cmd_audit, run_command, printed,
  outcome_of, main,
}

module _ (registry : Dict AuditFn) (s : Service) where
  -- A report counts the findings of the runs behind it, and the status is 1 exactly where the options
  -- refuse one of them, else 0.
  abbrev pub Reports : Bool → Bool → BaselineReport → ℕ → Type 0
  Reports fail_on_warn fail_on_fail report status =
      (results : List AuditResult) × (run_audits registry s report.devices report.audits
        ≡ ok results)
      × ((st : Status) → count_of st report.counts ≡ tally st (all_findings results))
      × (status
          ≡ (if any (is_refused fail_on_warn fail_on_fail) (all_findings results) then 1 else 0))

  -- What a command that does not raise prints, and its status.
  abbrev pub Settles : Command → Output → ℕ → Type 0
  Settles (list_devices_command summary) output status = status ≡ 0
  Settles (audit_command devices audits summary) output status = status ≡ 0
  Settles (baseline_command devices audits w q) output status =
      (report : BaselineReport) × (output ≡ report_json report) × Reports w q report status
  Settles (report_command devices audits all json w q) output status =
      (report : BaselineReport) × (output
        ≡ (if json then report_json report else report_text (format_operator_report report)))
      × Reports w q report status

  abbrev output_of : Output × ℕ → Output
  output_of (output, status) = output

  abbrev status_of : Output × ℕ → ℕ
  status_of (output, status) = status

  settled_report :
      (w q : Bool) (devices audits : Option String) (all : Bool) (show : BaselineReport → Output)
      (output : Output) (status : ℕ)
      → (cmd_report registry s devices audits all w q >>= λ made. with_status show made)
        ≡ ok (output, status)
      → (report : BaselineReport) × (output ≡ show report) × Reports w q report status
  settled_report w q devices audits all show output status h =
      let ((report, n), made, shown) =
        >>=-eq-ok (cmd_report registry s devices audits all w q) _ h in
      let same = ok-injective shown in
      (
        report,
        sym (ap output_of same),
        subst (Reports w q report) (ap status_of same)
            (cmd_report-exit_code registry s devices audits all w q report n made),
      )

  settled :
      (command : Command) (output : Output) (status : ℕ)
      → run_command registry s command ≡ ok (output, status)
      → Settles command output status
  unfolding run_command
  settled (list_devices_command summary) output status h = sym (ap status_of (ok-injective h))
  settled (audit_command devices audits summary) output status h =
      let (_, _, shown) = >>=-eq-ok (cmd_audit registry s devices audits summary) _ h in
      sym (ap status_of (ok-injective shown))
  settled (baseline_command devices audits w q) output status h =
      settled_report w q devices audits false report_json output status h
  settled (report_command devices audits all json w q) output status h =
      settled_report w q devices audits all (in_form json) output status h

  outcome-eq-printed :
      (r : Result (Output × ℕ)) (output : Output) (status : ℕ)
      → outcome_of r ≡ printed output status
      → r ≡ ok (output, status)
  outcome-eq-printed (ok (o, n)) output status h = cc
  outcome-eq-printed (err e) output status h = cc

  -- `main` prints and exits with 0 for the list of devices and for audits, whatever these find; for the
  -- two reports it prints the report in the form that was asked for, which counts the findings of the
  -- runs, and exits with 1 exactly where the options refuse one of the findings, and with 0 else. So the
  -- status 2 is left to commands that raise.
  pub main-Settles :
      (command : Command) (output : Output) (status : ℕ)
      → main registry (ok s) command ≡ printed output status
      → Settles command output status
  unfolding main
  main-Settles command output status h =
      settled command output status
        (outcome-eq-printed (run_command registry s command) output status h)
