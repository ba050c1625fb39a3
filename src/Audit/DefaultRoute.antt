-- ===== src/Audit/DefaultRoute.antt =====
-- `audit_default_route_sanity` of audits/policy_backed.py
use routeros_inspector_mcp.Base.{
  ℕ, String, Bool, false, not, List, [], ◌∷◌, ◌++◌, length, select, is_empty, string_eq, ℤ_eq, ltb,
  if◌then◌else◌, map,
}
use routeros_inspector_mcp.Errors.{Result, ok, ◌>>=◌}
use routeros_inspector_mcp.Value.{bool, str, Fields, get_or}
use routeros_inspector_mcp.Service.{Service}
use routeros_inspector_mcp.Service.Collectors.{get_device_role, device_has_tag, get_routes}
use routeros_inspector_mcp.Audit.{
  pass, warn, fail, Severity, Confidence, val, num, Message, Finding, AuditResult, text, labelled,
  report, rows, is_gateway, is_truthy,
}
use routeros_inspector_mcp.Audit.Failover.{route_line, is_default_route}

abbrev pub route_evidence : String → ℕ → ℕ → List Message
route_evidence role defaults active =
    labelled "role: " (val (str role))
    ∷ labelled "default_routes: " (num defaults)
    ∷ labelled "active_default_routes: " (num active)
    ∷ []

abbrev pub no_default : String → List Message → Finding
no_default role evidence' = record {
  status = if is_gateway role then fail else warn;
  severity = if is_gateway role then Severity.high else Severity.medium;
  finding = text "No default route configured";
  evidence = evidence';
  recommendation = text "Verify management reachability and routing policy for this device";
  confidence = Confidence.high;
}

abbrev pub fewer_than_two : List Message → List Fields → Finding
fewer_than_two evidence' defaults = record {
  status = warn;
  severity = Severity.medium;
  finding = text "Dual-WAN gateway has fewer than two active default routes";
  evidence = evidence' ++ map route_line defaults;
  recommendation = text "Verify both WAN default routes are present and intentionally enabled";
  confidence = Confidence.high;
}

abbrev pub gateway_sane : List Message → Finding
gateway_sane evidence' = record {
  status = pass;
  severity = Severity.info;
  finding = text "Gateway default route shape is sane";
  evidence = evidence';
  recommendation = [];
  confidence = Confidence.high;
}

abbrev pub single_default : List Message → Fields → Finding
single_default evidence' r = record {
  status = pass;
  severity = Severity.info;
  finding = text "Switch has a single management default route";
  evidence = evidence' ++ (labelled "gateway: " (val (get_or r "gateway" (str "?"))) ∷ []);
  recommendation = [];
  confidence = Confidence.high;
}

abbrev pub unusual : List Message → Finding
unusual evidence' = record {
  status = warn;
  severity = Severity.medium;
  finding = text "Switch default route count is unusual";
  evidence = evidence';
  recommendation =
      text "Switches should usually have one management default route, not WAN failover shape";
  confidence = Confidence.medium;
}

unfoldable pub is_active_route : Fields → Bool
unfolding get_or is_truthy
is_active_route r = not (is_truthy (get_or r "disabled" (bool false)))

abbrev pub judge_switch : List Message → List Fields → Finding
judge_switch evidence' (r ∷ []) = single_default evidence' r
judge_switch evidence' _ = unusual evidence'

-- `dual_wan` asks for the tag of the device, and may raise.
unfoldable pub judge_defaults : String → Result Bool → List Fields → List Fields → Result Finding
judge_defaults role dual_wan defaults active =
    let evidence' = route_evidence role (length defaults) (length active) in
    if is_empty defaults
    then ok (no_default role evidence')
    else if is_gateway role
    then if ltb (length active) 2
      then (do
        tagged ← dual_wan
        ok (if tagged then fewer_than_two evidence' defaults else gateway_sane evidence'))
      else ok (gateway_sane evidence')
    else ok (judge_switch evidence' active)

unfoldable pub audit_default_route_sanity : Service → String → Result AuditResult
audit_default_route_sanity s device_id = do
  role ← get_device_role s device_id
  routes ← get_routes s device_id
  rs ← rows routes
  let defaults = select is_default_route rs
  f ←
      judge_defaults role (device_has_tag s device_id "dual-wan") defaults
        (select is_active_route defaults)
  report "default_route_sanity" device_id (f ∷ [])
