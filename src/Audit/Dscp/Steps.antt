-- ===== src/Audit/Dscp/Steps.antt =====
-- `audit_dscp_policy`: the findings of its steps, in order.
use routeros_inspector_mcp.Base.{
  ℕ, String, Bool, true, false, not, ◌&&◌, Option, none, some, List, [], ◌∷◌, ◌++◌, ℤ, ℤ_eq,
  is_empty, select, length, ltb, map, if◌then◌else◌,
}
use routeros_inspector_mcp.Errors.{Result, ok, ◌>>=◌}
use routeros_inspector_mcp.Value.{null, int, str, Fields, truthy, get_or}
use routeros_inspector_mcp.Service.{Service}
use routeros_inspector_mcp.Service.Collectors.{get_device_role, get_firewall_mangle}
use routeros_inspector_mcp.Audit.{
  warn, fail, unknown, skip, Severity, Confidence, lit, val, num, Message, Finding, AuditResult,
  text, labelled, report, rows, is_gateway,
}
use routeros_inspector_mcp.Audit.Correlation.{is_enabled, is_disabled}
use routeros_inspector_mcp.Audit.Dscp.Findings.{finding_of, passing, when, set_findings}
use routeros_inspector_mcp.Audit.Dscp.{
  trusted_name, rule_label, dscp_value, is_given, text_at, rule_matches_wan,
  trust_rule_may_include_wan, dscp_rules, is_trust, is_wash, iot_rules, index_of, rule_at,
}

abbrev has_value : Option ℤ → Bool
has_value none = false
has_value (some i) = true

unfoldable pub has_dscp : Fields → Bool
unfolding dscp_value get_or
has_dscp r = has_value (dscp_value (get_or r "dscp" null))

abbrev trust_line : Fields → ℤ → Message
trust_line r dscp =
    lit "trust rule: "
    ∷ lit (text_at r "comment")
    ∷ lit " matches "
    ∷ (trusted_name dscp
        ++ (lit " (" ∷ val (int dscp) ∷ lit ") on " ∷ val (get_or r "in_interface" (str "?")) ∷ []))

abbrev trust_lines : List Fields → List Message
trust_lines [] = []
trust_lines (r ∷ rules) =
    let rest = trust_lines rules in
    elim (dscp_value (get_or r "dscp" null)) [ none ↦ rest | some dscp ↦ trust_line r dscp ∷ rest ]

-- 1. Trust rules match a DSCP value.
unfoldable pub trust_findings : List Fields → List Finding
unfolding is_trust has_dscp text_at
trust_findings enabled =
    let trust = select is_trust enabled in
    let broad = select (λ r. not (has_dscp r)) trust in
    if not (is_empty broad)
    then finding_of fail Severity.high
        "Broad DSCP trust accept rule can bypass later mangle processing" (map rule_label broad)
        "Constrain trust accept rules with explicit dscp=... matches and trusted ingress interfaces only."
        Confidence.high
      ∷ []
    else if not (is_empty (trust_lines trust))
    then passing "DSCP trust rules are constrained by explicit DSCP matches" (trust_lines trust)
      ∷ []
    else []

abbrev wash_line : Fields → Message
wash_line r = lit "wash rule: " ∷ (rule_label r ++ (lit " -> DSCP 0" ∷ []))

abbrev missing_wash : Bool → Bool → String
missing_wash true false = "Verify/add: IoT ingress wash."
missing_wash false true = "Verify/add: WAN ingress wash."
missing_wash _ _ = "Verify/add: WAN ingress wash, IoT ingress wash."

abbrev or_none_found : List Message → List Message
or_none_found [] = text "no enabled DSCP wash-to-zero rules found" ∷ []
or_none_found (m ∷ ms) = m ∷ ms

-- 2. Wash rules cover WAN and IoT ingress.
unfoldable pub wash_finding : List Fields → List Fields → List Fields → Finding
wash_finding wash wan_wash iot_wash =
    let evidence' = map wash_line wash in
    if not (is_empty wan_wash) && not (is_empty iot_wash)
    then passing "DSCP wash rules cover WAN ingress and IoT ingress" evidence'
    else finding_of warn Severity.medium "DSCP wash coverage may be incomplete"
        (or_none_found evidence') (missing_wash (not (is_empty wan_wash)) (not (is_empty iot_wash)))
        Confidence.medium

abbrev pub least : ℕ → List ℕ → ℕ
least i [] = i
least i (j ∷ js) = let m = least j js in if ltb m i then m else i

-- An enabled rule that trusts what may come from the WAN.
unfoldable pub trusts_wan : Fields → Bool
unfolding is_trust is_given get_or trust_rule_may_include_wan
trusts_wan r = is_trust r && is_given (get_or r "dscp" null) && trust_rule_may_include_wan r

abbrev before_line : Fields → Message
before_line r =
    lit "trust-before-wash: "
    ∷ (rule_label r
        ++ (lit " dscp="
            ∷ val (get_or r "dscp" null)
            ∷ lit " in_interface="
            ∷ val (get_or r "in_interface" (str "<unset>"))
            ∷ []))

abbrev pub judge_order : List Fields → ℕ → List Fields → Finding
judge_order rules first early =
    if not (is_empty early)
    then finding_of warn Severity.medium "DSCP trust rules can run before WAN wash"
        (map before_line early
          ++ ((lit "first WAN wash: " ∷ rule_label (rule_at rules first)) ∷ []))
        "Move WAN DSCP wash before broad trust rules, or scope trust rules to explicit trusted LAN/input interfaces instead of a negated IoT match."
        Confidence.high
    else passing "WAN DSCP wash is ordered before broad trust exceptions" []

-- 2b. No trust rule runs before the first WAN wash.
unfoldable pub order_findings : List Fields → List Fields → List Fields → List Finding
unfolding index_of trusts_wan
order_findings rules enabled [] = []
order_findings rules enabled (w ∷ ws) =
    let first = least (index_of rules w) (map (index_of rules) ws) in
    judge_order rules first (select (λ r. ltb (index_of rules r) first && trusts_wan r) enabled)
    ∷ []

-- 4. No DSCP rule is disabled.
unfoldable pub disabled_findings : List Fields → List Finding
unfolding is_disabled
disabled_findings dscp =
    let disabled = select is_disabled dscp in
    when (not (is_empty disabled)) (
      finding_of warn Severity.low "Disabled DSCP-related rules remain configured"
        (map rule_label disabled)
        "Document intentionally dormant DSCP rules or remove stale rules to reduce audit noise."
        Confidence.medium)

abbrev no_rules : String → Finding
no_rules role =
    if not (is_gateway role)
    then record (passing "No DSCP audit needed on non-gateway device"
        (labelled "role: " (val (str role)) ∷ [])) { status = skip }
    else finding_of unknown Severity.info "No mangle rules data available for DSCP audit" []
        "Collect /ip firewall mangle data including dscp, new-dscp, and passthrough fields."
        Confidence.low

abbrev no_dscp : Finding
no_dscp =
    finding_of warn Severity.medium "No DSCP-related mangle rules detected" []
      "If upstream CAKE relies on diffserv classification, add explicit DSCP wash/classification policy or document why DSCP is not used."
      Confidence.medium

abbrev consistent : ℕ → Finding
consistent n = record (passing "" []) {
  finding =
      lit "DSCP policy appears present and internally consistent ("
      ∷ num n
      ∷ lit " enabled DSCP-related rules)"
      ∷ [];
}

-- The last step: a finding where the others made none.
abbrev pub or_consistent : List Fields → List Finding → List Finding
or_consistent dscp [] = consistent (length (select is_enabled dscp)) ∷ []
or_consistent dscp (f ∷ fs) = f ∷ fs

unfoldable pub judge_dscp : List Fields → List Fields → Result (List Finding)
unfolding is_wash rule_matches_wan iot_rules trust_findings wash_finding order_findings set_findings
    disabled_findings is_disabled
judge_dscp rules dscp =
    let enabled = select is_enabled rules in
    let wash = select is_wash enabled in
    let wan_wash = select rule_matches_wan wash in
    do
      iot_wash ← iot_rules wash
      ok (
          or_consistent dscp (
            trust_findings enabled
            ++ (wash_finding wash wan_wash iot_wash ∷ [])
            ++ order_findings rules enabled wan_wash
            ++ set_findings rules enabled
            ++ disabled_findings dscp))

unfoldable pub audit_dscp_policy : Service → String → Result AuditResult
unfolding truthy dscp_rules
audit_dscp_policy s device_id = do
  collected ← get_firewall_mangle s device_id
  if not (truthy collected)
      then (do
        role ← get_device_role s device_id
        report "dscp_policy" device_id (no_rules role ∷ []))
      else (do
        rules ← rows collected
        dscp ← dscp_rules rules
        if is_empty dscp
            then report "dscp_policy" device_id (no_dscp ∷ [])
            else (do findings ← judge_dscp rules dscp; report "dscp_policy" device_id findings))
