-- ===== src/Audit/Ownership.antt =====
-- `audit_route_ownership` of audits/policy_backed.py
use routeros_inspector_mcp.Base.{
  String, Bool, true, false, not, ◌||◌, Option, none, some, List, [], ◌∷◌, all, select, is_empty,
  string_eq, ℤ_eq, lookup, if◌then◌else◌, map,
}
use routeros_inspector_mcp.Errors.{Result, ok, err, other_error, ◌>>=◌}
use routeros_inspector_mcp.Value.{Value, bool, int, str, Fields, get_or, is_none}
use routeros_inspector_mcp.Config.{PolicyBaseline}
use routeros_inspector_mcp.Service.{Service}
use routeros_inspector_mcp.Service.Collectors.{get_policy, get_routes}
use routeros_inspector_mcp.Audit.{
  pass, fail, unknown, Severity, Confidence, val, sorted_strs, sorted_values, Finding, AuditResult,
  text, labelled, report, rows, value_set,
}
use routeros_inspector_mcp.Audit.Stp.{holds_text}

abbrev no_policy : String → Finding
no_policy device_id = record {
  status = unknown;
  severity = Severity.info;
  finding = labelled "No route ownership policy for " (val (str device_id));
  evidence = [];
  recommendation = text "Add routes.owned_prefixes for this device in policy.yaml";
  confidence = Confidence.low;
}

abbrev pub missing_prefixes : List String → List Value → List String → Finding
missing_prefixes expected actual missing = record {
  status = fail;
  severity = Severity.high;
  finding = text "Owned prefixes missing from routing table";
  evidence =
      labelled "expected: " (sorted_strs expected)
      ∷ labelled "actual: " (sorted_values actual)
      ∷ labelled "missing: " (sorted_strs missing)
      ∷ [];
  recommendation =
      text "Investigate missing routes — check gateway connectivity and route configuration";
  confidence = Confidence.high;
}

abbrev pub prefixes_match : List String → Finding
prefixes_match expected = record {
  status = pass;
  severity = Severity.info;
  finding = text "Route ownership matches policy";
  evidence = labelled "owned_prefixes: " (sorted_strs expected) ∷ [];
  recommendation = [];
  confidence = Confidence.high;
}

unfoldable pub owned_prefixes : Option PolicyBaseline → String → List String
unfolding lookup
owned_prefixes none device_id = []
owned_prefixes (some policy) device_id = elim (lookup device_id policy.routes_owned_prefixes) [
  | none ↦ []
  | some prefixes ↦ prefixes
]

abbrev pub prefix_of : Fields → Value
prefix_of r = get_or r "dst_address" (str "")

abbrev is_a_str : Value → Bool
is_a_str (str s) = true
is_a_str v = false

abbrev is_a_number : Value → Bool
is_a_number (bool b) = true
is_a_number (int i) = true
is_a_number v = false

-- `sorted(...)` of a set raises where two members cannot be compared: all are texts, all are
-- numbers, or there is no other member than `None`.
unfoldable pub can_sort : List Value → Bool
unfolding is_none
can_sort vs = all is_a_str vs || all is_a_number vs || all is_none vs

unfoldable pub judge_prefixes : List String → List Value → Result Finding
unfolding holds_text can_sort
judge_prefixes expected actual =
    let missing = select (λ p. not (holds_text actual p)) expected in
    if not (is_empty missing)
    then if can_sort actual
      then ok (missing_prefixes expected actual missing)
      else err (other_error "TypeError")
    else ok (prefixes_match expected)

unfoldable pub audit_route_ownership : Service → String → Result AuditResult
audit_route_ownership s device_id =
    let expected = owned_prefixes (get_policy s) device_id in
    if is_empty expected then report "route_ownership" device_id (no_policy device_id ∷ []) else do
      routes ← get_routes s device_id
      rs ← rows routes
      actual ← value_set (map prefix_of rs)
      f ← judge_prefixes expected actual
      report "route_ownership" device_id (f ∷ [])
