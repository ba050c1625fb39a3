-- ===== src/Audit/Dns.antt =====
-- audits/encrypted_dns.py
use routeros_inspector_mcp.Base.{
  String, Bool, false, not, Option, none, some, [], ◌∷◌, contains, string_eq, ℤ_eq, if◌then◌else◌,
}
use routeros_inspector_mcp.Errors.{Result, ok, ◌>>=◌}
use routeros_inspector_mcp.Text.{lower}
use routeros_inspector_mcp.Value.{Value, bool, str, Fields, truthy, get_or}
use routeros_inspector_mcp.Config.{PolicyBaseline}
use routeros_inspector_mcp.Service.{Service}
use routeros_inspector_mcp.Service.Collectors.{get_policy, get_dns_config}
use routeros_inspector_mcp.Audit.{
  pass, warn, fail, unknown, Severity, Confidence, val, Finding, AuditResult, text, labelled,
  report, as_dict, as_text,
}

abbrev not_required : Finding
not_required = record {
  status = pass;
  severity = Severity.info;
  finding = text "Encrypted DNS is not required by policy for this device";
  evidence = text "policy.dns.encrypted: false" ∷ [];
  recommendation = text "Keep DNS encryption enforcement in the documented upstream policy path";
  confidence = Confidence.high;
}

abbrev no_data : Finding
no_data = record {
  status = unknown;
  severity = Severity.info;
  finding = text "No DNS configuration data available";
  evidence = [];
  recommendation = text "Verify DNS data can be collected from this device";
  confidence = Confidence.low;
}

abbrev pub dns_disabled : Finding
dns_disabled = record {
  status = fail;
  severity = Severity.high;
  finding = text "DNS is disabled";
  evidence = text "use_dns_servers: false" ∷ [];
  recommendation = text "Enable DNS resolution";
  confidence = Confidence.high;
}

abbrev pub doh_enabled : Value → Finding
doh_enabled doh = record {
  status = pass;
  severity = Severity.info;
  finding = text "DNS-over-HTTPS is enabled";
  evidence = labelled "dns_over_https: " (val doh) ∷ [];
  recommendation = [];
  confidence = Confidence.high;
}

abbrev pub dnssec_enabled : Finding
dnssec_enabled = record {
  status = pass;
  severity = Severity.info;
  finding = text "DNSSEC validation is enabled";
  evidence = text "dnssec: true" ∷ [];
  recommendation = [];
  confidence = Confidence.high;
}

abbrev pub unencrypted : Fields → Value → Value → Finding
unencrypted dns doh dnssec = record {
  status = warn;
  severity = Severity.medium;
  finding = text "DNS is active but no encrypted transport (DoH/DoT/DNSSEC) detected";
  evidence =
      labelled "servers: " (val (get_or dns "servers" (str "")))
      ∷ labelled "dns_over_https: " (val doh)
      ∷ labelled "dnssec: " (val dnssec)
      ∷ [];
  recommendation =
      text "Configure DNS-over-HTTPS (e.g., cloudflare-doh://) or enable DNSSEC for DNS integrity";
  confidence = Confidence.high;
}

-- `doh and doh.lower() not in ("off", "disabled", "")`
unfoldable pub doh_is_on : Value → Result Bool
unfolding truthy lower
doh_is_on doh =
    if truthy doh
    then (do t ← as_text doh; ok (not (contains ("off" ∷ "disabled" ∷ "" ∷ []) (lower t))))
    else ok false

unfoldable pub judge_dns : Fields → Result Finding
unfolding doh_is_on get_or truthy
judge_dns dns =
    if not (truthy (get_or dns "use_dns_servers" (bool false))) then ok dns_disabled else do
      let doh = get_or dns "dns_over_https" (str "")
      let dnssec = get_or dns "dnssec" (bool false)
      on ← doh_is_on doh
      ok (
          if on
          then doh_enabled doh
          else if truthy dnssec
          then dnssec_enabled
          else unencrypted dns doh dnssec)

-- `policy and policy.dns.encrypted is False`
abbrev pub is_not_required : Option PolicyBaseline → Bool
is_not_required none = false
is_not_required (some policy) = not policy.dns_encrypted

unfoldable pub audit_encrypted_dns : Service → String → Result AuditResult
audit_encrypted_dns s device_id = do
  dns ← get_dns_config s device_id
  if is_not_required (get_policy s)
      then report "encrypted_dns" device_id (not_required ∷ [])
      else if not (truthy dns)
      then report "encrypted_dns" device_id (no_data ∷ [])
      else (do d ← as_dict dns; f ← judge_dns d; report "encrypted_dns" device_id (f ∷ []))
