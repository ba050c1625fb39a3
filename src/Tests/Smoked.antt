-- ===== src/Tests/Smoked.antt =====
-- The theorem on the smoke check, applied to four switches and an audit that does not apply.
use routeros_inspector_mcp.Base.{
  String, ◌≡◌, refl, true, some, List, [], ◌∷◌, Dict, subset, all, map, sorted, string_eq,
}
use routeros_inspector_mcp.Errors.{Result, ok}
use routeros_inspector_mcp.Audit.Failover.{does_not_apply}
use routeros_inspector_mcp.Service.{Service}
use routeros_inspector_mcp.Service.Fleet.{DeviceRow, list_devices}
use routeros_inspector_mcp.AuditLog.{LogFile, track}
use routeros_inspector_mcp.Server.{
  AuditFn, AuditRow, run_audit, run_one, run_on_device, run_on_devices,
}
use routeros_inspector_mcp.Server.Tools.{list_audits, run_audit_tool}
use routeros_inspector_mcp.Smoke.{Summary, smoke_run, expected_devices, expected_audits}
use routeros_inspector_mcp.Smoke.Clean.{is_clean, smoke_run-IsClean}
use routeros_inspector_mcp.Tests.Data.{fleet, entry}
use routeros_inspector_mcp.Tests.Logged.{fresh, ticket}

abbrev skipping : String → AuditFn
skipping name s device_id =
    ok
      (record { audit_name = name; device_id = device_id; findings = does_not_apply "switch" ∷ [] })

abbrev registry : Dict AuditFn
registry = map (λ name. (name, skipping name)) expected_audits

abbrev switches : Service
switches = record fleet {
  inventory = record { devices = map (λ name. (name, entry "switch" true)) expected_devices };
}

abbrev ended : Result Summary × LogFile
ended = smoke_run registry switches ticket ticket ticket fresh

abbrev written : LogFile
written = ended.1

abbrev summary : Summary
summary = record {
  tool_count = 24;
  required_tools = "list_audits" ∷ "list_devices" ∷ "run_audit" ∷ [];
  device_count = 4;
  audit_count = 6;
  status_counts = ("skip", 24) ∷ [];
}

ended_well : smoke_run registry switches ticket ticket ticket fresh ≡ (ok summary, written)
unfolding smoke_run track list_devices run_audit_tool run_on_devices run_on_device run_one
ended_well = refl

smoke_run-IsClean_example :
    (subset expected_devices (map (λ (r : DeviceRow). r.device_id) (list_devices switches)) ≡ true)
    × (subset expected_audits (list_audits registry switches) ≡ true)
    × (rows : List AuditRow) × (run_audit registry switches
          (some (sorted expected_audits))
          (some expected_devices)
        ≡ ok rows)
    × (all is_clean rows ≡ true)
smoke_run-IsClean_example =
    smoke_run-IsClean registry switches ticket ticket ticket fresh written summary ended_well
