-- ===== src/Audit/Firmware.antt =====
-- `audit_firmware_drift` of audits/policy_backed.py
use routeros_inspector_mcp.Base.{
  String, ◌||◌, Option, none, some, List, [], ◌∷◌, string_eq, ℤ_eq, str_eq, starts_with, lookup,
  if◌then◌else◌,
}
use routeros_inspector_mcp.Errors.{Result, ok, ◌>>=◌}
use routeros_inspector_mcp.Value.{Value, str}
use routeros_inspector_mcp.Config.{PolicyBaseline}
use routeros_inspector_mcp.Service.{Service}
use routeros_inspector_mcp.Service.Collectors.{get_policy, get_firmware_version}
use routeros_inspector_mcp.Audit.{
  pass, fail, unknown, Severity, Confidence, val, Message, Finding, AuditResult, text, labelled,
  report, as_text,
}

abbrev no_policy : String → Value → Finding
no_policy device_id current = record {
  status = unknown;
  severity = Severity.info;
  finding = labelled "No firmware policy for " (val (str device_id));
  evidence = labelled "current_version: " (val current) ∷ [];
  recommendation = text "Add expected firmware version for this device in policy.yaml";
  confidence = Confidence.low;
}

abbrev versions : Value → String → List Message
versions current expected =
    labelled "current: " (val current) ∷ labelled "expected: " (val (str expected)) ∷ []

abbrev pub matches : Value → String → Finding
matches current expected = record {
  status = pass;
  severity = Severity.info;
  finding = labelled "Firmware matches expected version " (val (str expected));
  evidence = versions current expected;
  recommendation = [];
  confidence = Confidence.high;
}

abbrev pub drift : Value → String → Finding
drift current expected = record {
  status = fail;
  severity = Severity.high;
  finding = text "Firmware drift detected";
  evidence = versions current expected;
  recommendation = labelled "Upgrade firmware to " (val (str expected));
  confidence = Confidence.high;
}

-- The expected version; an empty one counts as none.
unfoldable pub expected_version : Option PolicyBaseline → String → Option String
unfolding lookup
expected_version none device_id = none
expected_version (some policy) device_id =
    elim (lookup device_id policy.firmware_expected_versions) [
      | none ↦ none
      | some v ↦ if str_eq v "" then none else some v
    ]

unfoldable pub judge_version : Value → String → Result Finding
judge_version current expected = do
  version ← as_text current
  ok (
      if starts_with version expected || str_eq version expected
      then matches current expected
      else drift current expected)

unfoldable pub audit_firmware_drift : Service → String → Result AuditResult
audit_firmware_drift s device_id = do
  current ← get_firmware_version s device_id
  elim (expected_version (get_policy s) device_id) [
    | none ↦ report "firmware_drift" device_id (no_policy device_id current ∷ [])
    | some expected ↦ (do
      f ← judge_version current expected
      report "firmware_drift" device_id (f ∷ []))
  ]
