-- ===== src/Audit/Snmp.antt =====
-- `audit_snmp_scope` of audits/policy_backed.py
use routeros_inspector_mcp.Base.{
  String, Bool, not, ◌&&◌, Option, none, some, List, [], ◌∷◌, ◌++◌, any, difference, is_empty,
  string_eq, ℤ_eq, str_eq, if◌then◌else◌,
}
use routeros_inspector_mcp.Errors.{Result, ◌>>=◌}
use routeros_inspector_mcp.Value.{Value, str, Fields, truthy, get_or, is_str}
use routeros_inspector_mcp.Config.{PolicyBaseline, SnmpPolicy}
use routeros_inspector_mcp.Service.{Service}
use routeros_inspector_mcp.Service.Collectors.{get_policy, get_snmp_config}
use routeros_inspector_mcp.Audit.{
  pass, fail, unknown, Severity, Confidence, lit, val, sorted_strs, list_of, Message, Finding,
  AuditResult, text, labelled, report, as_dict, split_csv,
}

abbrev no_policy : Finding
no_policy = record {
  status = unknown;
  severity = Severity.info;
  finding = text "No SNMP policy configured";
  evidence = [];
  recommendation = text "Populate snmp.allowed_access in policy.yaml";
  confidence = Confidence.low;
}

abbrev no_data : Finding
no_data = record {
  status = unknown;
  severity = Severity.info;
  finding = text "No SNMP configuration data available";
  evidence = [];
  recommendation = text "Verify SNMP data can be collected";
  confidence = Confidence.low;
}

abbrev access_lines : List String → List String → List Message
access_lines expected actual =
    labelled "allowed_access: " (sorted_strs expected)
    ∷ labelled "actual_access: " (sorted_strs actual)
    ∷ []

abbrev outside_policy : List String → List String → List String → Finding
outside_policy expected actual extra = record {
  status = fail;
  severity = Severity.high;
  finding = text "SNMP permits access outside policy";
  evidence = access_lines expected actual ++ (labelled "extra_access: " (sorted_strs extra) ∷ []);
  recommendation = text "Restrict SNMP address scope to policy-approved collectors/subnets";
  confidence = Confidence.high;
}

abbrev narrower : List String → List String → List String → Finding
narrower expected actual missing = record {
  status = pass;
  severity = Severity.info;
  finding = text "SNMP access scope is within policy and narrower than baseline";
  evidence =
      access_lines expected actual ++ (labelled "omitted_access: " (sorted_strs missing) ∷ []);
  recommendation = text "No action needed unless the omitted scope is required for monitoring";
  confidence = Confidence.high;
}

abbrev scope_matches : List String → Finding
scope_matches actual = record {
  status = pass;
  severity = Severity.info;
  finding = text "SNMP access scope matches policy";
  evidence = labelled "allowed_access: " (sorted_strs actual) ∷ [];
  recommendation = [];
  confidence = Confidence.high;
}

abbrev secret_store : Finding
secret_store = record {
  status = pass;
  severity = Severity.info;
  finding = text "SNMP community value is managed by declared secret-store policy";
  evidence = text "community_policy: secret_store" ∷ text "community_redacted: true" ∷ [];
  recommendation =
      text "Keep SNMP community names out of versioned policy; audit access scopes here";
  confidence = Confidence.high;
}

abbrev not_versioned : Finding
not_versioned = record {
  status = unknown;
  severity = Severity.info;
  finding = text "SNMP community name policy intentionally not versioned";
  evidence = text "community_redacted: true" ∷ [];
  recommendation =
      text
        "Set snmp.community_policy: secret_store when community values are managed outside versioned policy";
  confidence = Confidence.medium;
}

abbrev not_allowed : Value → List String → Finding
not_allowed community allowed = record {
  status = fail;
  severity = Severity.high;
  finding = text "SNMP community is not in allowed list";
  evidence =
      (lit "community: "
        ∷ val community
        ∷ lit " (not in allowed: "
        ∷ list_of allowed
        ∷ lit ")"
        ∷ [])
      ∷ [];
  recommendation = text "Change SNMP community to an allowed value from policy";
  confidence = Confidence.high;
}

abbrev community_matches : Value → Finding
community_matches community = record {
  status = pass;
  severity = Severity.info;
  finding = text "SNMP community matches policy";
  evidence = labelled "community: " (val community) ∷ [];
  recommendation = [];
  confidence = Confidence.high;
}

-- A policy that says nothing of SNMP counts as none.
abbrev pub snmp_policy : Option PolicyBaseline → Option SnmpPolicy
snmp_policy none = none
snmp_policy (some policy) =
    if is_empty policy.snmp.allowed_communities
      && is_empty policy.snmp.allowed_access
      && str_eq policy.snmp.community_policy ""
    then none
    else some policy.snmp

unfoldable pub judge_access : List String → List String → Finding
judge_access expected actual =
    let extra = difference actual expected in
    let missing = difference expected actual in
    if not (is_empty extra)
    then outside_policy expected actual extra
    else if not (is_empty missing)
    then narrower expected actual missing
    else scope_matches actual

abbrev access_findings : SnmpPolicy → Fields → List Finding
access_findings policy snmp =
    if is_empty policy.allowed_access
    then []
    else judge_access policy.allowed_access (split_csv (get_or snmp "allowed_addresses" (str "")))
      ∷ []

abbrev holds_value : List String → Value → Bool
holds_value allowed v = any (λ s. is_str s v) allowed

unfoldable pub judge_community : SnmpPolicy → Fields → Finding
unfolding get_or is_str
judge_community policy snmp =
    let community = get_or snmp "community" (str "") in
    if is_empty policy.allowed_communities
    then if str_eq policy.community_policy "secret_store" then secret_store else not_versioned
    else if not (holds_value policy.allowed_communities community)
    then not_allowed community policy.allowed_communities
    else community_matches community

unfoldable pub audit_snmp_scope : Service → String → Result AuditResult
audit_snmp_scope s device_id = do
  snmp ← get_snmp_config s device_id
  elim (snmp_policy (get_policy s)) [
    | none ↦ report "snmp_scope" device_id (no_policy ∷ [])
    | some policy ↦ if not (truthy snmp) then report "snmp_scope" device_id (no_data ∷ []) else (do
      d ← as_dict snmp
      report "snmp_scope" device_id (access_findings policy d ++ (judge_community policy d ∷ [])))
  ]
