-- ===== src/Audit/Rules.antt =====
-- The audits of encrypted_dns.py and dead_mangle.py, and `audit_firmware_drift` of
-- `policy_backed.py`: what they pass and fail.
use routeros_inspector_mcp.Base.{
  String, ◌≡◌, ◌≢◌, refl, sym, ap, ◌∙◌, ◌↔◌, ◌⊎◌, inl, inr, Bool, true, false, not, ◌&&◌, ◌||◌,
  some, List, [], ◌∷◌, arith, is_empty, select, all, All, string_eq, Bool-cases, if◌then◌else◌,
  str_eq, starts_with, all→All, All→all,
}
use routeros_inspector_mcp.Errors.{Result, ok, >>=-eq-ok, ok-injective}
use routeros_inspector_mcp.Value.{Value, bool, str, obj, Fields, truthy, get_or}
use routeros_inspector_mcp.Service.{Service}
use routeros_inspector_mcp.Service.Collectors.{
  get_policy, get_firewall_mangle, get_firmware_version, get_dns_config,
}
use routeros_inspector_mcp.Audit.{Status, pass, warn, fail, Finding, report, rows}
use routeros_inspector_mcp.Audit.Firmware.{
  matches, drift, expected_version, judge_version, audit_firmware_drift,
}
use routeros_inspector_mcp.Audit.Dns.{doh_is_on, judge_dns, is_not_required, audit_encrypted_dns}
use routeros_inspector_mcp.Audit.DeadMangle.{
  is_disabled_rule, is_suspicious, suspicious_rules, judge_rules, audit_dead_mangle_rules,
}

abbrev pub drift_table : Bool → Status
drift_table same = if same then pass else fail

-- Where the policy expects a version of a device and its version is a text, the firmware audit returns
-- one finding, which passes where the version starts with the expected one, and else fails.
pub audit_firmware_drift_lem :
    (s : Service) (device_id current expected : String)
    → get_firmware_version s device_id ≡ ok (str current)
    → expected_version (get_policy s) device_id ≡ some expected
    → (f : Finding) × (audit_firmware_drift s device_id
        ≡ report "firmware_drift" device_id (f ∷ []))
      × (f.status ≡ drift_table (starts_with current expected || str_eq current expected))
unfolding audit_firmware_drift judge_version
audit_firmware_drift_lem s device_id current expected got set =
    elim (Bool-cases (starts_with current expected || str_eq current expected)) [
      | inl same ↦ (
        matches (str current) expected,
        rw (got, set, audit_firmware_drift, same, judge_version) refl,
        rw same refl,
      )
      | inr other ↦ (
        drift (str current) expected,
        rw (got, set, audit_firmware_drift, other, judge_version) refl,
        rw other refl,
      )
    ]

not-empty : (r : Fields) (rest : List Fields) → is_empty (r ∷ rest) ≢ true
not-empty r rest h = cc

ok-true-false : ok true ≢ ok false
ok-true-false h = cc

suspicious_step {ℓ} :
    {P : Type ℓ} (b : Bool) (m : Result Bool) (r : Fields) (rest found : List Fields)
    → m ≡ ok b
    → (if b then r ∷ rest else rest) ≡ found
    → (is_empty rest ≡ true) ↔ P
    → (is_empty found ≡ true) ↔ ((m ≡ ok false) × P)
suspicious_step true m r rest found p q more = (
  λ h. absurd (not-empty r rest (ap is_empty q ∙ h)),
  λ (k, _). absurd (ok-true-false (sym p ∙ k)),
)
suspicious_step false m r rest found p q more =
    (λ h. (p, more.0 (ap is_empty q ∙ h)), λ (_, k). sym (ap is_empty q) ∙ more.1 k)

-- No rule of the list is disabled or has a comment with one of the words.
suspicious_rules-eq-ok :
    (rules : List Fields) {found : List Fields}
    → suspicious_rules rules ≡ ok found
    → (is_empty found ≡ true) ↔ All (λ r. is_suspicious r ≡ ok false) rules
unfolding suspicious_rules
suspicious_rules-eq-ok [] h = (λ _. tt, λ _. sym (ap is_empty (ok-injective h)))
suspicious_rules-eq-ok (r ∷ rules) h =
    let (b, p, h₁) = >>=-eq-ok (is_suspicious r) _ h in
    let (rest, q, h₂) = >>=-eq-ok (suspicious_rules rules) _ h₁ in
    let more = suspicious_rules-eq-ok rules q in
    suspicious_step b (is_suspicious r) r rest _ p (ok-injective h₂) more

rules_table : Bool → Bool → Status
rules_table enabled unsuspicious = if enabled && unsuspicious then pass else warn

rules_table_iff : (a b : Bool) → (rules_table a b ≡ pass) ↔ ((a ≡ true) × (b ≡ true))
unfolding rules_table
rules_table_iff a b = ground arith

pass_or_warn : (a b : Bool) → (rules_table a b ≡ pass) ⊎ (rules_table a b ≡ warn)
unfolding rules_table
pass_or_warn true true = inl refl
pass_or_warn true false = inr refl
pass_or_warn false b = inr refl

enabled-select :
    (rules : List Fields)
    → is_empty (select is_disabled_rule rules) ≡ all (λ r. not (is_disabled_rule r)) rules
enabled-select [] = refl
enabled-select (r ∷ rules) = ground (arith, enabled-select rules)

judge_rules-status :
    (rules suspicious : List Fields)
    → (judge_rules rules suspicious).status
      ≡ rules_table (is_empty (select is_disabled_rule rules)) (is_empty suspicious)
unfolding rules_table
judge_rules-status rules suspicious =
    elim (Bool-cases (is_empty (select is_disabled_rule rules) && is_empty suspicious)) [
      | inl clean ↦ rw (clean, judge_rules, rules_table) refl
      | inr dirty ↦ rw (dirty, judge_rules, rules_table) refl
    ]

-- Where mangle rules are collected and the audit of them returns, it has one finding. It passes exactly
-- when each rule is enabled and has a comment without the words of stale rules, and else warns: it gives
-- no other status.
pub audit_dead_mangle_rules_lem :
    (s : Service) (device_id : String) (rules : Value) (rs suspicious : List Fields)
    → get_firewall_mangle s device_id ≡ ok rules
    → truthy rules ≡ true
    → rows rules ≡ ok rs
    → suspicious_rules rs ≡ ok suspicious
    → (f : Finding) × (audit_dead_mangle_rules s device_id
        ≡ report "dead_mangle_rules" device_id (f ∷ []))
      × ((f.status ≡ pass) ↔ (
          All (λ r. not (is_disabled_rule r) ≡ true) rs × All (λ r. is_suspicious r ≡ ok false) rs))
      × ((f.status ≡ pass) ⊎ (f.status ≡ warn))
unfolding audit_dead_mangle_rules
audit_dead_mangle_rules_lem s device_id rules rs suspicious got filled read judged =
    let t = rules_table_iff (all (λ r. not (is_disabled_rule r)) rs) (is_empty suspicious) in
    let quiet = suspicious_rules-eq-ok rs judged in
    let enabled = λ (r : Fields). not (is_disabled_rule r) in
    (
      judge_rules rs suspicious,
      rw (got, filled, read, judged, audit_dead_mangle_rules) refl,
      rw (judge_rules-status, enabled-select)
          (
            λ h. let (e, q) = t.0 h in (all→All enabled rs e, quiet.0 q),
            λ (e, q). t.1 (All→all enabled rs e, quiet.1 q),
          ),
      rw judge_rules-status
          (pass_or_warn (is_empty (select is_disabled_rule rs)) (is_empty suspicious)),
    )

abbrev pub dns_table : Bool → Bool → Bool → Status
dns_table active doh dnssec =
    if not active then fail else if doh then pass else if dnssec then pass else warn

dns_pick :
    (active doh dnssec : Bool) (f g h k : Finding)
    → (x : Finding) × ((if not active
          then ok f
          else ok (if doh then g else if dnssec then h else k))
        ≡ ok x)
      × (x.status ≡ (
          if not active
          then f.status
          else if doh
          then g.status
          else if dnssec
          then h.status
          else k.status))
dns_pick false doh dnssec f g h k = (f, refl, refl)
dns_pick true true dnssec f g h k = (g, refl, refl)
dns_pick true false true f g h k = (h, refl, refl)
dns_pick true false false f g h k = (k, refl, refl)

judge_dns-status :
    (d : Fields) (doh : Bool)
    → doh_is_on (get_or d "dns_over_https" (str "")) ≡ ok doh
    → (f : Finding) × (judge_dns d ≡ ok f)
      × (f.status
          ≡ dns_table
              (truthy (get_or d "use_dns_servers" (bool false)))
              doh
              (truthy (get_or d "dnssec" (bool false))))
unfolding judge_dns
judge_dns-status d doh on =
    rw (on, judge_dns)
      (dns_pick (truthy (get_or d "use_dns_servers" (bool false))) doh
        (truthy (get_or d "dnssec" (bool false))) _ _ _ _)

-- Where the policy does not say that encryption is not required, and a configuration is collected
-- whose DoH setting is a text or falsy, the DNS audit returns one finding: it fails where DNS is off,
-- passes where DoH is on or DNSSEC is, and else warns.
pub audit_encrypted_dns_lem :
    (s : Service) (device_id : String) (d : Fields) (doh : Bool)
    → get_dns_config s device_id ≡ ok (obj d)
    → truthy (obj d) ≡ true
    → is_not_required (get_policy s) ≡ false
    → doh_is_on (get_or d "dns_over_https" (str "")) ≡ ok doh
    → (f : Finding) × (audit_encrypted_dns s device_id ≡ report "encrypted_dns" device_id (f ∷ []))
      × (f.status
          ≡ dns_table
              (truthy (get_or d "use_dns_servers" (bool false)))
              doh
              (truthy (get_or d "dnssec" (bool false))))
unfolding audit_encrypted_dns
audit_encrypted_dns_lem s device_id d doh got filled required on =
    let (f, judged, status) = judge_dns-status d doh on in
    (f, rw (got, required, filled, judged, audit_encrypted_dns) refl, status)
