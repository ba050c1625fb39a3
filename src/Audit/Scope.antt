-- ===== src/Audit/Scope.antt =====
-- `audit_snmp_scope` of `policy_backed.py` and the audit of qos.py: what they pass and fail.
use routeros_inspector_mcp.Base.{
  String, ◌≡◌, ◌≢◌, refl, sym, ◌∙◌, ◌↔◌, inl, inr, Bool, true, false, not, List, [], ◌∷◌, arith,
  is_empty, any, difference, string_eq, Bool-cases, if◌then◌else◌, Lacks, difference_iff,
  difference-eq-nil, subset, some,
}
use routeros_inspector_mcp.Errors.{ok}
use routeros_inspector_mcp.Value.{Value, str, obj, Fields, truthy, get_or}
use routeros_inspector_mcp.Config.{SnmpPolicy}
use routeros_inspector_mcp.Service.{Service}
use routeros_inspector_mcp.Service.Collectors.{get_policy, get_snmp_config, get_qos_queues}
use routeros_inspector_mcp.Audit.{Status, pass, warn, fail, Finding, report, rows, split_csv}
use routeros_inspector_mcp.Audit.Snmp.{snmp_policy, judge_access, judge_community, audit_snmp_scope}
use routeros_inspector_mcp.Audit.Qos.{no_queues, has_limit, judge_queues, audit_qos_state}

abbrev scope_table : Bool → Status
scope_table within = if not within then fail else pass

scope_table-fail : (b : Bool) → (scope_table b ≡ fail) ↔ (b ≡ false)
scope_table-fail b = ground arith

scope_table-pass : (b : Bool) → (scope_table b ≡ pass) ↔ (b ≡ true)
scope_table-pass b = ground arith

judge_access-status :
    (expected actual : List String)
    → (judge_access expected actual).status ≡ scope_table (is_empty (difference actual expected))
unfolding judge_access
judge_access-status expected actual = elim (Bool-cases (is_empty (difference actual expected))) [
  | inr extra ↦ rw (extra, judge_access) refl
  | inl within ↦ elim (Bool-cases (is_empty (difference expected actual))) [
    | inl same ↦ rw (within, same, judge_access) refl
    | inr narrower ↦ rw (within, narrower, judge_access) refl
  ]
]

-- Where the policy restricts the SNMP access and a configuration is collected, the SNMP audit returns
-- two findings, on the scope and on the community. That on the scope fails exactly when an address
-- is open that the policy does not allow, and passes exactly when there is none, also where the scope
-- is narrower than the policy.
pub audit_snmp_scope_lem :
    (s : Service) (device_id : String) (policy : SnmpPolicy) (d : Fields)
    → get_snmp_config s device_id ≡ ok (obj d)
    → truthy (obj d) ≡ true
    → snmp_policy (get_policy s) ≡ some policy
    → is_empty policy.allowed_access ≡ false
    → let expected = policy.allowed_access in
      let actual = split_csv (get_or d "allowed_addresses" (str "")) in
      (f : Finding) × (audit_snmp_scope s device_id
        ≡ report "snmp_scope" device_id (f ∷ judge_community policy d ∷ []))
      × ((f.status ≡ fail) ↔ Lacks actual expected)
      × ((f.status ≡ pass) ↔ (subset actual expected ≡ true))
unfolding audit_snmp_scope
audit_snmp_scope_lem s device_id policy d got filled set restricted =
    let expected = policy.allowed_access in
    let actual = split_csv (get_or d "allowed_addresses" (str "")) in
    let within = is_empty (difference actual expected) in
    let same = difference-eq-nil actual expected in
    (
      judge_access expected actual,
      rw (got, set, filled, restricted, audit_snmp_scope) refl,
      rw judge_access-status (
        λ h. (difference_iff actual expected).0 ((scope_table-fail within).0 h),
        λ h. (scope_table-fail within).1 ((difference_iff actual expected).1 h),
      ),
      rw (judge_access-status, same) (scope_table-pass (subset actual expected)),
    )

abbrev limits_table : Bool → Status
limits_table limited = if not limited then warn else pass

limits_table_iff : (b : Bool) → (limits_table b ≡ pass) ↔ (b ≡ true)
limits_table_iff b = ground arith

limits_table-ne-fail : (b : Bool) → limits_table b ≢ fail
limits_table-ne-fail true h = cc
limits_table-ne-fail false h = cc

judge_queues-status :
    (qs : List Fields) → (judge_queues qs).status ≡ limits_table (any has_limit qs)
judge_queues-status qs = elim (Bool-cases (any has_limit qs)) [
  | inl some' ↦ rw (some', judge_queues) refl
  | inr none' ↦ rw (none', judge_queues) refl
]

-- Where queues are collected, the QoS audit returns one finding, which passes exactly when a queue has
-- a limit that is set and is neither 0 nor unlimited; where none are, it fails.
pub audit_qos_state_lem :
    (s : Service) (device_id : String) (queues : Value) (qs : List Fields)
    → get_qos_queues s device_id ≡ ok queues
    → rows queues ≡ ok qs
    → (f : Finding) × (audit_qos_state s device_id ≡ report "qos_state" device_id (f ∷ []))
      × ((f.status ≡ fail) ↔ (truthy queues ≡ false))
      × ((f.status ≡ pass) ↔ ((truthy queues ≡ true) × (any has_limit qs ≡ true)))
unfolding audit_qos_state
audit_qos_state_lem s device_id queues qs got read = elim (Bool-cases (truthy queues)) [
  | inr empty ↦ (
    no_queues,
    rw (got, empty, audit_qos_state) refl,
    (λ h. empty, λ h. refl),
    (λ h. cc, λ h. cc),
  )
  | inl filled ↦ (
    judge_queues qs,
    rw (got, filled, read, audit_qos_state) refl,
    (
      λ h. absurd (limits_table-ne-fail (any has_limit qs) (sym (judge_queues-status qs) ∙ h)),
      λ h. cc,
    ),
    rw judge_queues-status (
      λ h. (filled, (limits_table_iff (any has_limit qs)).0 h),
      λ (_, h). (limits_table_iff (any has_limit qs)).1 h,
    ),
  )
]
