-- ===== src/Audit/Vlan/Laws.antt =====
-- What the VLAN audit says of the bridge table and the policy.
use routeros_inspector_mcp.Base.{
  String, ◌≡◌, refl, ◌↔◌, inl, inr, Bool, true, false, not, List, [], ◌∷◌, ℤ, pos, ℤ_eq, arith,
  contains, contains-all, difference-eq-nil, is_empty, difference, Bool-cases, any, int_eq, sym,
  ◌∙◌, ◌&&◌, ◌||◌, if◌then◌else◌, Lacks, difference_iff, same_iff, contains-append, int_eq_iff,
}
use routeros_inspector_mcp.Errors.{ok}
use routeros_inspector_mcp.Value.{Value, bool, str, Fields, get_or, truthy}
use routeros_inspector_mcp.Service.{Service}
use routeros_inspector_mcp.Service.Collectors.{get_policy, get_bridge_vlans}
use routeros_inspector_mcp.Audit.{Status, pass, warn, fail, Finding, report, rows, parse_vlan_ids}
use routeros_inspector_mcp.Audit.Vlan.{
  kept_ids, row_vlans, actual_vlans, expected_vlans, judge_vlans, audit_vlan_consistency,
}

-- pass: the same VLANs; fail: one is missing; warn: none is missing and one is not expected.
pub record Verdict (expected actual : List ℤ) (st : Status) : Type 0 where
  pub passes : (st ≡ pass) ↔ ((i : ℤ) → contains expected i ≡ contains actual i)
  pub fails : (st ≡ fail) ↔ Lacks expected actual
  pub warns : (st ≡ warn) ↔ ((is_empty (difference expected actual) ≡ true) × Lacks actual expected)

abbrev verdict_of : Bool → Bool → Status
verdict_of no_missing no_extra =
    if not no_missing then fail else if not no_extra then warn else pass

pass_iff : (m x : Bool) → (verdict_of m x ≡ pass) ↔ ((m ≡ true) × (x ≡ true))
pass_iff m x = ground arith

fail_iff : (m x : Bool) → (verdict_of m x ≡ fail) ↔ (m ≡ false)
fail_iff m x = ground arith

warn_iff : (m x : Bool) → (verdict_of m x ≡ warn) ↔ ((m ≡ true) × (x ≡ false))
warn_iff m x = ground arith

module _ (expected actual : List ℤ) where
  no_missing : Bool
  no_missing = is_empty (difference expected actual)

  no_extra : Bool
  no_extra = is_empty (difference actual expected)

  judge_vlans-verdict_of : (judge_vlans expected actual).status ≡ verdict_of no_missing no_extra
  unfolding judge_vlans no_missing no_extra
  judge_vlans-verdict_of = elim (Bool-cases no_missing) [
    | inl m ↦ elim (Bool-cases no_extra) [ inl x ↦ rw (m, x) refl | inr x ↦ rw (m, x) refl ]
    | inr m ↦ rw m refl
  ]

  -- The status that the VLAN audit gives says which of the set differences is empty.
  pub judge_vlans-Verdict : Verdict expected actual (judge_vlans expected actual).status
  unfolding no_missing no_extra
  judge_vlans-Verdict = rw judge_vlans-verdict_of (record {
    passes = (
      λ h. (same_iff expected actual).0 ((pass_iff no_missing no_extra).0 h),
      λ h. (pass_iff no_missing no_extra).1 ((same_iff expected actual).1 h),
    );
    fails = (
      λ h. (difference_iff expected actual).0 ((fail_iff no_missing no_extra).0 h),
      λ h. (fail_iff no_missing no_extra).1 ((difference_iff expected actual).1 h),
    );
    warns = (
      λ h.
          let (m, x) = (warn_iff no_missing no_extra).0 h in
          (m, (difference_iff actual expected).0 x),
      λ (m, l). (warn_iff no_missing no_extra).1 (m, (difference_iff actual expected).1 l),
    );
  })

contains-kept_ids :
    (expected ids : List ℤ)
    → contains (kept_ids expected ids) (pos 1) ≡ true
    → contains expected (pos 1) ≡ true
contains-kept_ids expected [] h = cc
contains-kept_ids expected (i ∷ ids) h =
    ground (arith, contains-kept_ids expected ids, int_eq_iff i (pos 1), int_eq_iff (pos 1) i)

contains_if :
    (b : Bool) (expected ids : List ℤ)
    → contains (if b then [] else kept_ids expected ids) (pos 1) ≡ true
    → contains expected (pos 1) ≡ true
contains_if true expected ids h = cc
contains_if false expected ids h = contains-kept_ids expected ids h

contains-row_vlans :
    (expected : List ℤ) (v : Fields)
    → contains (row_vlans expected v) (pos 1) ≡ true
    → contains expected (pos 1) ≡ true
unfolding row_vlans
contains-row_vlans expected v h =
    contains_if _ expected (parse_vlan_ids (get_or v "vlan_ids" (str ""))) h

-- VLAN 1 is among the VLANs that the audit compares only where the policy of the device names it,
-- whatever the bridge table holds.
pub contains-actual_vlans :
    (expected : List ℤ) (vs : List Fields)
    → contains (actual_vlans expected vs) (pos 1) ≡ true
    → contains expected (pos 1) ≡ true
unfolding actual_vlans
contains-actual_vlans expected [] h = cc
contains-actual_vlans expected (v ∷ vs) h = ground (
  arith,
  contains-append (row_vlans expected v) (actual_vlans expected vs) (pos 1),
  contains-row_vlans expected v,
  contains-actual_vlans expected vs,
)

-- A row holds a VLAN. Unless the policy names VLAN 1, the rows that RouterOS made itself, which are
-- marked dynamic, hold none, and no row holds VLAN 1.
abbrev pub row_holds : List ℤ → Fields → ℤ → Bool
row_holds expected v i =
    contains (parse_vlan_ids (get_or v "vlan_ids" (str ""))) i
    && (contains expected (pos 1)
        || (not (truthy (get_or v "dynamic" (bool false))) && not (int_eq i (pos 1))))

abbrev pub table_holds : List ℤ → List Fields → ℤ → Bool
table_holds expected vs i = any (λ v. row_holds expected v i) vs

contains-kept :
    (expected ids : List ℤ) (i : ℤ)
    → contains (kept_ids expected ids) i
      ≡ contains ids i && (contains expected (pos 1) || not (int_eq i (pos 1)))
contains-kept expected [] i = refl
contains-kept expected (j ∷ ids) i =
    ground (arith, contains-kept expected ids i, int_eq_iff j i, int_eq_iff i j)

contains-if :
    (b : Bool) (ids : List ℤ) (i : ℤ) → contains (if b then [] else ids) i ≡ not b && contains ids i
contains-if true ids i = refl
contains-if false ids i = refl

contains-row_if :
    (dynamic : Bool) (expected ids : List ℤ) (i : ℤ)
    → contains (if dynamic && not (contains expected (pos 1)) then [] else kept_ids expected ids) i
      ≡ contains ids i && (contains expected (pos 1) || (not dynamic && not (int_eq i (pos 1))))
contains-row_if dynamic expected ids i = ground (
  arith,
  contains-if (dynamic && not (contains expected (pos 1))) (kept_ids expected ids) i,
  contains-kept expected ids i,
)

contains-row :
    (expected : List ℤ) (v : Fields) (i : ℤ)
    → contains (row_vlans expected v) i ≡ row_holds expected v i
unfolding row_vlans
contains-row expected v i =
    contains-row_if (truthy (get_or v "dynamic" (bool false))) expected
      (parse_vlan_ids (get_or v "vlan_ids" (str ""))) i

contains-table :
    (expected : List ℤ) (vs : List Fields) (i : ℤ)
    → contains (actual_vlans expected vs) i ≡ table_holds expected vs i
unfolding actual_vlans
contains-table expected [] i = refl
contains-table expected (v ∷ vs) i = ground (
  arith,
  contains-append (row_vlans expected v) (actual_vlans expected vs) i,
  contains-row expected v i,
  contains-table expected vs i,
)

-- pass: the policy and the table hold the same VLANs; fail: the table lacks one of the policy; warn:
-- it lacks none and holds another.
pub record TableVerdict (expected : List ℤ) (held : ℤ → Bool) (st : Status) : Type 0 where
  pub passes : (st ≡ pass) ↔ ((i : ℤ) → contains expected i ≡ held i)
  pub fails : (st ≡ fail) ↔ ((i : ℤ) × (contains expected i ≡ true) × (held i ≡ false))
  pub warns : (st ≡ warn) ↔ (
      ((i : ℤ) → contains expected i ≡ true → held i ≡ true)
      × (i : ℤ) × (held i ≡ true)
      × (contains expected i ≡ false))

module _ (expected actual : List ℤ) (held : ℤ → Bool)
    (same : (i : ℤ) → contains actual i ≡ held i) where
  none_missing :
      ((i : ℤ) → contains expected i ≡ true → held i ≡ true)
      → is_empty (difference expected actual) ≡ true
  none_missing all_held = elim (Bool-cases (is_empty (difference expected actual))) [
    | inl p ↦ p
    | inr p ↦
        let (i, l, r) = (difference_iff expected actual).0 p in
        ground (arith, all_held i l, same i, r)
  ]

  Verdict-table : (st : Status) → Verdict expected actual st → TableVerdict expected held st
  Verdict-table st v = record {
    passes = (λ h i. v.passes.0 h i ∙ same i, λ h. v.passes.1 λ i. h i ∙ sym (same i));
    fails = (
      λ h. let (i, m, n) = v.fails.0 h in (i, m, sym (same i) ∙ n),
      λ (i, m, n). v.fails.1 (i, m, same i ∙ n),
    );
    warns = (
      λ h.
          let (e, lacking) = v.warns.0 h in
          let (i, m, n) = lacking in
          (
            λ j k.
                sym (same j)
                ∙ contains-all (contains actual) expected j
                    (sym (difference-eq-nil expected actual) ∙ e) k,
            i,
            sym (same i) ∙ m,
            n,
          ),
      λ (all_held, i, m, n). v.warns.1 (none_missing all_held, (i, same i ∙ m, n)),
    );
  }

-- Where the policy names VLANs for a device and its bridge table is read, the VLAN audit returns one
-- finding. It passes exactly when the VLANs of the policy are those of the table, fails exactly
-- when the table lacks one of the policy, and warns exactly when it lacks none and holds another.
-- Where the policy does not name VLAN 1, VLAN 1 and the rows that are marked dynamic do not count as
-- of the table.
pub audit_vlan_consistency_lem :
    (s : Service) (device_id : String) (vlans : Value) (vs : List Fields)
    → get_bridge_vlans s device_id ≡ ok vlans
    → rows vlans ≡ ok vs
    → is_empty (expected_vlans (get_policy s) device_id) ≡ false
    → (f : Finding) × (audit_vlan_consistency s device_id
        ≡ report "vlan_consistency" device_id (f ∷ []))
      × TableVerdict
          (expected_vlans (get_policy s) device_id)
          (table_holds (expected_vlans (get_policy s) device_id) vs)
          f.status
unfolding audit_vlan_consistency
audit_vlan_consistency_lem s device_id vlans vs got read named =
    let expected = expected_vlans (get_policy s) device_id in
    let f = judge_vlans expected (actual_vlans expected vs) in
    (
      f,
      rw (named, got, read, audit_vlan_consistency) refl,
      Verdict-table expected (actual_vlans expected vs) (table_holds expected vs)
          (contains-table expected vs) f.status
          (judge_vlans-Verdict expected (actual_vlans expected vs)),
    )
