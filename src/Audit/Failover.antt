-- ===== src/Audit/Failover.antt =====
-- `audit_wan_failover_state` of audits/policy_backed.py
use routeros_inspector_mcp.Base.{
  String, Bool, not, ◌&&◌, Option, none, some, List, [], ◌∷◌, length, select, is_empty, string_eq,
  ℤ_eq, str_eq, ltb, if◌then◌else◌, map,
}
use routeros_inspector_mcp.Errors.{Result, ◌>>=◌}
use routeros_inspector_mcp.Value.{null, str, Fields, get_or, is_str}
use routeros_inspector_mcp.Config.{PolicyBaseline}
use routeros_inspector_mcp.Service.{Service}
use routeros_inspector_mcp.Service.Collectors.{get_policy, get_device_role, get_routes}
use routeros_inspector_mcp.Audit.{
  pass, warn, fail, unknown, skip, Severity, Confidence, lit, val, Message, Finding, AuditResult,
  text, labelled, report, rows, is_gateway,
}

abbrev pub does_not_apply : String → Finding
does_not_apply role = record {
  status = skip;
  severity = Severity.info;
  finding = text "WAN failover audit does not apply to this device role";
  evidence = labelled "role: " (val (str role)) ∷ [];
  recommendation = text "No action needed; run WAN failover audit only on gateway/edge devices";
  confidence = Confidence.high;
}

abbrev pub no_policy : Finding
no_policy = record {
  status = unknown;
  severity = Severity.info;
  finding = text "No WAN failover policy configured";
  evidence = [];
  recommendation = text "Configure wan_failover.primary (and optionally secondary) in policy.yaml";
  confidence = Confidence.low;
}

abbrev pub no_default : Finding
no_default = record {
  status = fail;
  severity = Severity.high;
  finding = text "No default route found — WAN connectivity may be broken";
  evidence = [];
  recommendation = text "Check gateway configuration and ensure default route exists";
  confidence = Confidence.high;
}

abbrev pub route_line : Fields → Message
route_line r =
    lit "default route: gw="
    ∷ val (get_or r "gateway" (str "?"))
    ∷ lit ", distance="
    ∷ val (get_or r "distance" (str "?"))
    ∷ []

abbrev pub only_one : List Fields → Finding
only_one defaults = record {
  status = warn;
  severity = Severity.medium;
  finding = text "Only one default route — failover may not be active";
  evidence = map route_line defaults;
  recommendation =
      text "Ensure both primary and secondary default routes are configured for failover";
  confidence = Confidence.high;
}

abbrev pub configured : List Fields → Finding
configured defaults = record {
  status = pass;
  severity = Severity.info;
  finding = text "WAN failover routes are configured";
  evidence = map route_line defaults;
  recommendation = [];
  confidence = Confidence.high;
}

-- `r.get("dst_address") == "0.0.0.0/0"`
unfoldable pub is_default_route : Fields → Bool
unfolding get_or is_str
is_default_route r = is_str "0.0.0.0/0" (get_or r "dst_address" null)

unfoldable pub judge_failover : String → List Fields → Finding
judge_failover secondary routes =
    let defaults = select is_default_route routes in
    if is_empty defaults
    then no_default
    else if ltb (length defaults) 2 && not (str_eq secondary "")
    then only_one defaults
    else configured defaults

abbrev pub primary_of : Option PolicyBaseline → String
primary_of none = ""
primary_of (some policy) = policy.wan_failover.primary

abbrev pub secondary_of : Option PolicyBaseline → String
secondary_of none = ""
secondary_of (some policy) = policy.wan_failover.secondary

unfoldable pub audit_wan_failover_state : Service → String → Result AuditResult
audit_wan_failover_state s device_id = do
  role ← get_device_role s device_id
  if not (is_gateway role)
      then report "wan_failover_state" device_id (does_not_apply role ∷ [])
      else if str_eq (primary_of (get_policy s)) ""
      then report "wan_failover_state" device_id (no_policy ∷ [])
      else (do
        routes ← get_routes s device_id
        rs ← rows routes
        report "wan_failover_state" device_id
            (judge_failover (secondary_of (get_policy s)) rs ∷ []))
