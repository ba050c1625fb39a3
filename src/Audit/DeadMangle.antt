-- ===== src/Audit/DeadMangle.antt =====
-- audits/dead_mangle.py
use routeros_inspector_mcp.Base.{
  String, Bool, false, not, ◌&&◌, List, [], ◌∷◌, ◌++◌, any, length, select, is_empty, string_eq,
  ℤ_eq, if◌then◌else◌, map,
}
use routeros_inspector_mcp.Errors.{Result, ok, ◌>>=◌}
use routeros_inspector_mcp.Text.{lower, has_part}
use routeros_inspector_mcp.Value.{Value, bool, str, Fields, truthy, get_or}
use routeros_inspector_mcp.Service.{Service}
use routeros_inspector_mcp.Service.Collectors.{get_device_role, get_firewall_mangle}
use routeros_inspector_mcp.Audit.{
  pass, warn, unknown, Severity, Confidence, lit, val, repr_val, num, Message, Finding, AuditResult,
  text, labelled, report, rows, as_text, is_gateway,
}

abbrev no_rules_elsewhere : String → Finding
no_rules_elsewhere role = record {
  status = pass;
  severity = Severity.info;
  finding = text "No mangle rules on non-gateway device";
  evidence = labelled "role: " (val (str role)) ∷ [];
  recommendation = [];
  confidence = Confidence.high;
}

abbrev no_rules : Finding
no_rules = record {
  status = unknown;
  severity = Severity.info;
  finding = text "No mangle rules data available";
  evidence = [];
  recommendation = text "Verify device is reachable and mangle data can be collected";
  confidence = Confidence.low;
}

abbrev pub none_flagged : List Fields → Finding
none_flagged rules = record {
  status = pass;
  severity = Severity.info;
  finding = text "No suspicious mangle rules detected";
  evidence = (num (length rules) ∷ lit " total rules, none flagged" ∷ []) ∷ [];
  recommendation = [];
  confidence = Confidence.high;
}

abbrev disabled_line : Fields → Message
disabled_line r =
    lit "disabled rule: "
    ∷ val (get_or r "chain" (str "?"))
    ∷ lit " - "
    ∷ val (get_or r "comment" (str "no comment"))
    ∷ []

abbrev unused_line : Fields → Message
unused_line r =
    lit "possibly unused rule (comment: "
    ∷ repr_val (get_or r "comment" (str ""))
    ∷ lit "): chain="
    ∷ val (get_or r "chain" (str "?"))
    ∷ []

abbrev pub flagged : List Fields → List Fields → Finding
flagged disabled suspicious = record {
  status = warn;
  severity = Severity.medium;
  finding = text "Possibly unused mangle rules detected";
  evidence = map disabled_line disabled ++ map unused_line suspicious;
  recommendation =
      text "Review disabled and suspicious mangle rules; remove stale entries to reduce complexity";
  confidence = Confidence.medium;
}

abbrev suspicious_words : List String
suspicious_words = "old" ∷ "leftover" ∷ "stale" ∷ "unused" ∷ "2022" ∷ "2023" ∷ "ref" ∷ []

unfoldable pub is_disabled_rule : Fields → Bool
unfolding truthy get_or
is_disabled_rule r = truthy (get_or r "disabled" (bool false))

abbrev falsy_to_empty : Value → Value
falsy_to_empty v = if truthy v then v else str ""

-- Whether the comment holds one of the words; `lower` raises on a comment that is not a text.
unfoldable pub is_suspicious : Fields → Result Bool
unfolding truthy get_or lower has_part
is_suspicious r = do
  comment ← as_text (falsy_to_empty (get_or r "comment" (str "")))
  ok (any (has_part (lower comment)) suspicious_words)

unfoldable pub suspicious_rules : List Fields → Result (List Fields)
suspicious_rules [] = ok []
suspicious_rules (r ∷ rs) = do
  found ← is_suspicious r
  rest ← suspicious_rules rs
  ok (if found then r ∷ rest else rest)

abbrev pub judge_rules : List Fields → List Fields → Finding
judge_rules rules suspicious =
    let disabled = select is_disabled_rule rules in
    if is_empty disabled && is_empty suspicious
    then none_flagged rules
    else flagged disabled suspicious

unfoldable pub audit_dead_mangle_rules : Service → String → Result AuditResult
audit_dead_mangle_rules s device_id = do
  rules ← get_firewall_mangle s device_id
  if not (truthy rules)
      then (do
        role ← get_device_role s device_id
        report "dead_mangle_rules" device_id
            ((if is_gateway role then no_rules else no_rules_elsewhere role) ∷ []))
      else (do
        rs ← rows rules
        suspicious ← suspicious_rules rs
        report "dead_mangle_rules" device_id (judge_rules rs suspicious ∷ []))
