-- ===== src/Audit/Stp.antt =====
-- `audit_stp_edge` of audits/policy_backed.py
use routeros_inspector_mcp.Base.{
  String, Bool, not, Option, none, some, List, [], ◌∷◌, any, select, is_empty, string_eq, ℤ_eq,
  lookup, if◌then◌else◌, map,
}
use routeros_inspector_mcp.Errors.{Result, ◌>>=◌}
use routeros_inspector_mcp.Value.{Value, str, Fields, get_or, is_str}
use routeros_inspector_mcp.Config.{PolicyBaseline}
use routeros_inspector_mcp.Service.{Service}
use routeros_inspector_mcp.Service.Collectors.{get_policy, get_bridge_ports}
use routeros_inspector_mcp.Audit.{
  pass, fail, unknown, Severity, Confidence, val, set_of, Finding, AuditResult, text, labelled,
  report, rows, value_set,
}

abbrev no_policy : String → Finding
no_policy device_id = record {
  status = unknown;
  severity = Severity.info;
  finding = labelled "No STP edge policy for " (val (str device_id));
  evidence = [];
  recommendation = text "Add stp.edge_ports for this device in policy.yaml";
  confidence = Confidence.low;
}

abbrev missing_ports : List Value → List Value → List Value → Finding
missing_ports expected actual missing = record {
  status = fail;
  severity = Severity.high;
  finding = text "STP edge ports missing from bridge configuration";
  evidence =
      labelled "expected: " (set_of expected)
      ∷ labelled "actual: " (set_of actual)
      ∷ labelled "missing: " (set_of missing)
      ∷ [];
  recommendation = text "Add missing ports to bridge configuration with STP edge enabled";
  confidence = Confidence.high;
}

abbrev ports_match : List Value → Finding
ports_match expected = record {
  status = pass;
  severity = Severity.info;
  finding = text "STP edge ports match policy";
  evidence = labelled "expected_ports: " (set_of expected) ∷ [];
  recommendation = [];
  confidence = Confidence.high;
}

-- The policy of a device: none, or an empty list, is no policy.
unfoldable pub edge_ports : Option PolicyBaseline → String → List String
unfolding lookup
edge_ports none device_id = []
edge_ports (some policy) device_id = elim (lookup device_id policy.stp_edge_ports) [
  | none ↦ []
  | some ports ↦ ports
]

-- Whether a text is among values.
unfoldable pub holds_text : List Value → String → Bool
unfolding is_str
holds_text vs s = any (is_str s) vs

abbrev pub interface_of : Fields → Value
interface_of bp = get_or bp "interface" (str "")

unfoldable pub judge_ports : List String → List Value → Finding
unfolding holds_text
judge_ports expected actual =
    let missing = select (λ p. not (holds_text actual p)) expected in
    if not (is_empty missing)
    then missing_ports (map str expected) actual (map str missing)
    else ports_match (map str expected)

unfoldable pub audit_stp_edge : Service → String → Result AuditResult
audit_stp_edge s device_id =
    let expected = edge_ports (get_policy s) device_id in
    if is_empty expected then report "stp_edge" device_id (no_policy device_id ∷ []) else do
      bridge_ports ← get_bridge_ports s device_id
      ports ← rows bridge_ports
      actual ← value_set (map interface_of ports)
      report "stp_edge" device_id (judge_ports expected actual ∷ [])
