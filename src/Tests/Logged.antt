-- ===== src/Tests/Logged.antt =====
-- The theorems on the audit log, the tools and the start of the server, applied to the sample fleet.
use routeros_inspector_mcp.Base.{
  String, ◌≡◌, refl, true, false, Option, none, some, List, [], ◌∷◌, ◌++◌, string_eq, keys, lookup,
}
use routeros_inspector_mcp.Errors.{Result, ok, err, value_error, service_error}
use routeros_inspector_mcp.Value.{str}
use routeros_inspector_mcp.Backend.Fixture.{fixture_backend}
use routeros_inspector_mcp.Service.{validate_device}
use routeros_inspector_mcp.Service.Collectors.{get_device_role}
use routeros_inspector_mcp.Audit.Backup.{Clock}
use routeros_inspector_mcp.Audit.Failover.{audit_wan_failover_state, does_not_apply}
use routeros_inspector_mcp.AuditLog.{LogFile, Ticket, track, entry_for, get_entries}
use routeros_inspector_mcp.AuditLog.Journal.{
  Call, run_calls, bodies, entries_of, run_calls-journal, appended,
}
use routeros_inspector_mcp.Server.{
  AuditRow, result, run_audit, run_one, run_on_device, run_on_devices, requested_audits,
  requested_devices,
}
use routeros_inspector_mcp.Server.Audits.{audit_registry}
use routeros_inspector_mcp.Server.Answers.{pairs}
use routeros_inspector_mcp.Server.Labels.{row_labels, run_audit-row_labels}
use routeros_inspector_mcp.Server.Tools.{
  run, rows_answer, Answer, call_tool, run_audit_tool, http, Launch, create_server, main,
}
use routeros_inspector_mcp.Server.Tools.Recorded.{call_tool-IsLogged, call_tool-refused_run}
use routeros_inspector_mcp.Server.Launch.{IsContained, main-IsContained}
use routeros_inspector_mcp.Tests.Data.{dir, fleet, inventory, policy}

abbrev pub fresh : LogFile
fresh = record { lines = none; writable = true }

abbrev pub ticket : Ticket
ticket = record { request_id = "0123456789abcdef"; now = "2026-01-02T03:04:05Z"; elapsed = 7 }

abbrev calls : List Call
calls =
    record {
      ticket = ticket;
      operation = "get_arp";
      device_ids = some ("gw" ∷ []);
      body = ok (str "rows");
    }
    ∷ record {
      ticket = ticket;
      operation = "get_routes";
      device_ids = none;
      body = err (service_error "timeout");
    }
    ∷ []

nothing_read : get_entries fresh ≡ ok []
unfolding get_entries
nothing_read = refl

run_calls-journal_example :
    ((run_calls calls fresh).0 ≡ bodies calls)
    × (get_entries (run_calls calls fresh).1 ≡ ok ([] ++ entries_of calls))
run_calls-journal_example = run_calls-journal calls fresh [] refl nothing_read

abbrev clock : Clock
clock = record { now = 0; parse_date = λ s. none; format_date = λ n. "" }

abbrev names : Option (List String)
names = some ("wan_failover_state" ∷ "wan_failover_state" ∷ [])

abbrev targets : Option (List String)
targets = some ("sw" ∷ [])

abbrev answer : List AuditRow
answer =
    result (record {
      audit_name = "wan_failover_state";
      device_id = "sw";
      findings = does_not_apply "switch" ∷ [];
    })
    ∷ []

answered : run_audit (audit_registry clock) fleet names targets ≡ ok answer
unfolding run_audit audit_registry keys run_on_devices run_on_device run_one lookup
    audit_wan_failover_state get_device_role validate_device
answered = refl

run_audit-row_labels_example :
    row_labels answer
    ≡ pairs
        (requested_devices (audit_registry clock) fleet targets)
        (requested_audits (audit_registry clock) fleet names)
run_audit-row_labels_example = run_audit-row_labels clock fleet names targets answer answered

abbrev written : LogFile
written = (track ticket "run_audit" (some ("sw" ∷ [])) (ok (rows_answer answer)) fresh).1

tool_answered :
    ◌≡◌ {A = Result Answer × LogFile}
      (call_tool (audit_registry clock) fleet ticket (run names targets) fresh)
      (ok (rows_answer answer), written)
unfolding call_tool run_audit_tool track audit_registry keys run_on_devices run_on_device run_one
    lookup audit_wan_failover_state get_device_role validate_device
tool_answered = refl

call_tool-IsLogged_example :
    (fresh.writable ≡ true)
    × (written
        ≡ appended
            (entry_for ticket "run_audit" (some ("sw" ∷ [])) (ok (rows_answer answer)))
            fresh)
call_tool-IsLogged_example =
    call_tool-IsLogged (audit_registry clock) fleet ticket (run names targets) (rows_answer answer)
      fresh written tool_answered

other_device :
    run_audit (audit_registry clock) fleet names (some ("nas" ∷ []))
    ≡ err (value_error "Unknown device requested")
unfolding run_audit keys audit_registry
other_device = refl

call_tool-refused_run_example :
    ◌≡◌ {A = Result Answer × LogFile}
      (call_tool (audit_registry clock) fleet ticket (run names (some ("nas" ∷ []))) fresh)
      (err (value_error "Unknown device requested"), fresh)
call_tool-refused_run_example =
    call_tool-refused_run (audit_registry clock) fleet ticket names (some ("nas" ∷ [])) fresh
      (value_error "Unknown device requested") other_device

abbrev launched : Launch
launched = record {
  service = create_server inventory (fixture_backend dir) none (some policy) true;
  transport = http;
  host = some "127.0.0.1";
}

started : main inventory (fixture_backend dir) none (some policy) http false true ≡ ok launched
unfolding main
started = refl

main-IsContained_example : IsContained (fixture_backend dir) false true launched
main-IsContained_example =
    main-IsContained inventory (fixture_backend dir) none (some policy) http false true launched
      started
