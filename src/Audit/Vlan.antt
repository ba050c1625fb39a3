-- ===== src/Audit/Vlan.antt =====
-- `audit_vlan_consistency` of audits/policy_backed.py
pub mod Laws
use routeros_inspector_mcp.Base.{
  String, false, not, ◌&&◌, ◌||◌, Option, none, some, List, [], ◌∷◌, ◌++◌, ℤ, pos, select,
  difference, contains, is_empty, string_eq, ℤ_eq, int_eq, lookup, if◌then◌else◌,
}
use routeros_inspector_mcp.Errors.{Result, ◌>>=◌}
use routeros_inspector_mcp.Value.{bool, str, Fields, truthy, get_or}
use routeros_inspector_mcp.Config.{PolicyBaseline}
use routeros_inspector_mcp.Service.{Service}
use routeros_inspector_mcp.Service.Collectors.{get_policy, get_bridge_vlans}
use routeros_inspector_mcp.Audit.{
  pass, warn, fail, unknown, Severity, Confidence, val, sorted_ints, Message, Finding, AuditResult,
  text, labelled, report, rows, parse_vlan_ids,
}

abbrev no_policy : String → Finding
no_policy device_id = record {
  status = unknown;
  severity = Severity.info;
  finding = labelled "No VLAN policy for " (val (str device_id));
  evidence = [];
  recommendation = text "Add vlans.expected_vlans for this device in policy.yaml";
  confidence = Confidence.low;
}

abbrev when_any : String → List ℤ → List Message
when_any label [] = []
when_any label (i ∷ is') = labelled label (sorted_ints (i ∷ is')) ∷ []

abbrev inconsistent : List ℤ → List ℤ → List ℤ → List ℤ → Finding
inconsistent expected actual missing extra = record {
  status = if not (is_empty missing) then fail else warn;
  severity = Severity.medium;
  finding = text "VLAN inconsistency detected";
  evidence =
      labelled "expected: " (sorted_ints expected)
      ∷ labelled "actual: " (sorted_ints actual)
      ∷ (when_any "missing: " missing ++ when_any "extra: " extra);
  recommendation = text "Align bridge VLAN configuration with policy";
  confidence = Confidence.high;
}

abbrev consistent : List ℤ → Finding
consistent actual = record {
  status = pass;
  severity = Severity.info;
  finding = text "VLAN configuration matches policy";
  evidence = labelled "vlans: " (sorted_ints actual) ∷ [];
  recommendation = [];
  confidence = Confidence.high;
}

unfoldable pub expected_vlans : Option PolicyBaseline → String → List ℤ
unfolding lookup
expected_vlans none device_id = []
expected_vlans (some policy) device_id = elim (lookup device_id policy.vlans.expected_vlans) [
  | none ↦ []
  | some vlans ↦ vlans
]

-- A row that RouterOS made, or VLAN 1, is left out unless the policy names VLAN 1.
abbrev pub kept_ids : List ℤ → List ℤ → List ℤ
kept_ids expected ids = select (λ i. not (int_eq i (pos 1) && not (contains expected (pos 1)))) ids

unfoldable pub row_vlans : List ℤ → Fields → List ℤ
unfolding truthy get_or parse_vlan_ids
row_vlans expected v =
    if truthy (get_or v "dynamic" (bool false)) && not (contains expected (pos 1))
    then []
    else kept_ids expected (parse_vlan_ids (get_or v "vlan_ids" (str "")))

unfoldable pub actual_vlans : List ℤ → List Fields → List ℤ
unfolding row_vlans
actual_vlans expected [] = []
actual_vlans expected (v ∷ vs) = row_vlans expected v ++ actual_vlans expected vs

unfoldable pub judge_vlans : List ℤ → List ℤ → Finding
judge_vlans expected actual =
    let missing = difference expected actual in
    let extra = difference actual expected in
    if not (is_empty missing) || not (is_empty extra)
    then inconsistent expected actual missing extra
    else consistent actual

unfoldable pub audit_vlan_consistency : Service → String → Result AuditResult
audit_vlan_consistency s device_id =
    let expected = expected_vlans (get_policy s) device_id in
    if is_empty expected then report "vlan_consistency" device_id (no_policy device_id ∷ []) else do
      vlans ← get_bridge_vlans s device_id
      vs ← rows vlans
      report "vlan_consistency" device_id (judge_vlans expected (actual_vlans expected vs) ∷ [])
