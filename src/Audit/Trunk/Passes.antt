-- ===== src/Audit/Trunk/Passes.antt =====
-- When the trunk audit passes.
use mathlib.Core.Option.{none-ne-some}
use routeros_inspector_mcp.Base.{
  String, ◌≡◌, ◌≢◌, refl, sym, ap, ◌∙◌, ◌↔◌, ◌⊎◌, inl, inr, Bool, true, false, not, ◌&&◌, none,
  some, List, [], ◌∷◌, ◌++◌, ℤ, ℤ_eq, arith, contains, is_empty, subset, difference-eq-nil,
  Bool-cases, Option-cases, if◌then◌else◌, eq_iff, string_eq, Dict, lookup, keys, All,
}
use routeros_inspector_mcp.Errors.{Result, ok, err, ◌>>=◌, >>=-eq-ok, ok-injective, Holds}
use routeros_inspector_mcp.Value.{Value, null, Fields, get_or, is_str}
use routeros_inspector_mcp.Service.{Service}
use routeros_inspector_mcp.Service.Collectors.{get_policy, get_bridge_ports, get_bridge_vlans}
use routeros_inspector_mcp.Audit.{Finding, AuditResult, report, rows, pass}
use routeros_inspector_mcp.Audit.Trunk.{
  expected_trunks, ports_by_name, no_tags, tag_rows, is_default_pvid, judge_present, tags_of,
  judge_trunk, judge_trunks, trunks_match, port_missing, audit_trunk_vlan_sanity,
}
use routeros_inspector_mcp.Audit.Trunk.Failing.{NotPass, judge_trunks-NotPass}
use routeros_inspector_mcp.Audit.Trunk.Laws.{
  carried, last_port, tag_rows-carried, ports_by_name-last_port,
}

-- PVID 1, or none, or a port that admits tagged frames only.
abbrev pub IsUsual : Result Bool → Bool → Type 0
IsUsual default_pvid tagged_only =
    (default_pvid ≡ ok true) ⊎ ((default_pvid ≡ ok false) × (tagged_only ≡ true))

-- A trunk that the tables bear out: its port is there, carries the VLANs of the policy tagged, and
-- has PVID 1, or none, or admits tagged frames only.
pub record IsSound (ports vlans : List Fields) (name : String) (expected : List ℤ) : Type 0 where
  pub port : Fields
  pub present : last_port name ports ≡ some port
  pub tagged : subset expected (carried name vlans) ≡ true
  pub usual :
      IsUsual
        (is_default_pvid (get_or port "pvid" null))
        (is_str "admit-only-vlan-tagged" (get_or port "frame_types" null))

abbrev pub AllSound : List Fields → List Fields → Dict (List ℤ) → Type 0
AllSound ports vlans [] = Unit
AllSound ports vlans ((name, expected) ∷ trunks) =
    IsSound ports vlans name expected × AllSound ports vlans trunks

ok-cons-nil : (f : Finding) (fs : List Finding) → ok (f ∷ fs) ≢ ok []
ok-cons-nil f fs h = cc

append-eq-nil : (fs gs : List Finding) → fs ++ gs ≡ [] → (fs ≡ []) × (gs ≡ [])
append-eq-nil [] gs h = (refl, h)
append-eq-nil (f ∷ fs) gs h = cc

pvid_iff :
    (m : Result Bool) (tagged_only : Bool) (f : Finding)
    → ((m >>= λ usual. ok (if not usual && not tagged_only then f ∷ [] else [])) ≡ ok [])
      ↔ IsUsual m tagged_only
pvid_iff (ok true) tagged_only f = (λ h. inl refl, λ h. refl)
pvid_iff (ok false) true f = (λ h. inr (refl, refl), λ h. refl)
pvid_iff (ok false) false f = (λ h. cc, λ h. elim h [ inl p ↦ cc | inr (p, q) ↦ cc ])
pvid_iff (err e) tagged_only f = (λ h. cc, λ h. elim h [ inl p ↦ cc | inr (p, q) ↦ cc ])

judge_present_iff :
    (name : String) (expected tagged : List ℤ) (port : Fields)
    → (judge_present name expected tagged port ≡ ok []) ↔ (
        (subset expected tagged ≡ true)
        × IsUsual
            (is_default_pvid (get_or port "pvid" null))
            (is_str "admit-only-vlan-tagged" (get_or port "frame_types" null)))
unfolding judge_present
judge_present_iff name expected tagged port =
    let same = difference-eq-nil expected tagged in
    elim (Bool-cases (subset expected tagged)) [
      | inl held ↦ (
        λ h. (held, (pvid_iff _ _ _).0 (rw (same, held) at h)),
        λ (_, u). rw (same, held) ((pvid_iff _ _ _).1 u),
      )
      | inr free ↦ (λ h. absurd (ok-cons-nil _ _ (rw (same, free) at h)), λ (held, _). cc)
    ]

module _ (ports : Dict Fields) (tagged_by_port : Dict (List ℤ)) (name : String)
    (expected : List ℤ) where
  judge_trunk_missing :
      lookup name ports ≡ none
      → judge_trunk ports tagged_by_port name expected ≡ ok (port_missing name ∷ [])
  unfolding judge_trunk
  judge_trunk_missing gone = rw (gone, judge_trunk) refl

  judge_trunk_present :
      {port : Fields} {tagged : List ℤ}
      → lookup name ports ≡ some port
      → lookup name tagged_by_port ≡ some tagged
      → judge_trunk ports tagged_by_port name expected ≡ judge_present name expected tagged port
  unfolding judge_trunk
  judge_trunk_present {port} {tagged} p q =
      rw (p, judge_trunk) (ap (λ vs. judge_present name expected vs port) (rw (q, tags_of) refl))

module _ (rows' vlans : List Fields) (trunks : Dict (List ℤ)) where
  judge_trunk_iff :
      (name : String) (expected : List ℤ)
      → contains (keys trunks) name ≡ true
      → (judge_trunk (ports_by_name rows' []) (tag_rows vlans (no_tags trunks)) name expected
          ≡ ok [])
        ↔ IsSound rows' vlans name expected
  judge_trunk_iff name expected named =
      let tags = tag_rows-carried name vlans trunks named in
      let found = ports_by_name-last_port name rows' in
      elim (Option-cases (last_port name rows')) [
        | inl gone ↦ (
          λ h.
              absurd
                (ok-cons-nil _ _ (sym (judge_trunk_missing _ _ name expected (found ∙ gone)) ∙ h)),
          λ (k : IsSound rows' vlans name expected).
              absurd (none-ne-some k.port (sym gone ∙ k.present)),
        )
        | inr (port, present) ↦
            let judged = judge_trunk_present _ _ name expected (found ∙ present) tags in
            (
              λ h.
                  let (held, usual) =
                    (judge_present_iff name expected (carried name vlans) port).0
                      (sym judged ∙ h) in
                  record { port = port; present = present; tagged = held; usual = usual },
              λ (k : IsSound rows' vlans name expected).
                  judge_trunk_present _ _ name expected (found ∙ k.present) tags
                  ∙ (judge_present_iff name expected (carried name vlans) k.port).1
                      (k.tagged, k.usual),
            )
      ]

  judge_trunks_iff :
      (part : Dict (List ℤ))
      → All (λ (e : String × List ℤ). contains (keys trunks) e.0 ≡ true) part
      → (judge_trunks (ports_by_name rows' []) (tag_rows vlans (no_tags trunks)) part ≡ ok [])
        ↔ AllSound rows' vlans part
  unfolding judge_trunks
  judge_trunks_iff [] named = (λ h. tt, λ h. refl)
  judge_trunks_iff ((name, expected) ∷ part) (n, named) =
      let one = judge_trunk_iff name expected n in
      let more = judge_trunks_iff part named in
      (
        λ h.
            let (found, p, h₁) = >>=-eq-ok (judge_trunk _ _ name expected) _ h in
            let (rest, q, h₂) = >>=-eq-ok (judge_trunks _ _ part) _ h₁ in
            let (p', q') = append-eq-nil found rest (ok-injective h₂) in
            (one.0 (p ∙ ap ok p'), more.0 (q ∙ ap ok q')),
        λ (h, k). rw (one.1 h, more.1 k) refl,
      )

named_weaken :
    (k : String) (ks : List String) (part : Dict (List ℤ))
    → All (λ (e : String × List ℤ). contains ks e.0 ≡ true) part
    → All (λ (e : String × List ℤ). contains (k ∷ ks) e.0 ≡ true) part
named_weaken k ks [] h = tt
named_weaken k ks (e ∷ part) (h, hs) = (ground arith, named_weaken k ks part hs)

keys-named :
    (trunks : Dict (List ℤ))
    → All (λ (e : String × List ℤ). contains (keys trunks) e.0 ≡ true) trunks
unfolding keys
keys-named [] = tt
keys-named ((k, v) ∷ trunks) =
    (ground (arith, (eq_iff k k).1 refl), named_weaken k (keys trunks) trunks (keys-named trunks))

head_status : (g f : Finding) (gs fs : List Finding) → g ∷ gs ≡ f ∷ fs → g.status ≡ f.status
head_status g f gs fs h = cc

abbrev findings_of : Result AuditResult → List Finding
findings_of (ok r) = r.findings
findings_of (err e) = []

trunks_match_iff :
    (m : Result (List Finding)) (f : Finding) (name device_id : String)
    → f.status ≡ pass
    → Holds NotPass m
    → ((m >>= λ findings. report name device_id (if is_empty findings then f ∷ [] else findings))
        ≡ report name device_id (f ∷ []))
      ↔ (m ≡ ok [])
trunks_match_iff (ok []) f name device_id passes none_passes = (λ h. refl, λ h. refl)
trunks_match_iff (ok (g ∷ gs)) f name device_id passes none_passes =
    let (first, _) = none_passes.of refl in
    (
      λ h. absurd (first (head_status g f gs [] (ap findings_of h) ∙ passes)),
      λ h. absurd (ok-cons-nil g gs h),
    )
trunks_match_iff (err e) f name device_id passes none_passes = (λ h. cc, λ h. cc)

-- Where the policy names trunks for a device and its tables are read, the trunk audit reports that the
-- trunks match exactly when each trunk's port is there, carries the VLANs of the policy tagged,
-- and has PVID 1, or none, or admits tagged frames only.
pub audit_trunk_vlan_sanity_iff :
    (s : Service) (device_id : String) (bridge_ports bridge_vlans : Value)
    (ports vlans : List Fields)
    → get_bridge_ports s device_id ≡ ok bridge_ports
    → get_bridge_vlans s device_id ≡ ok bridge_vlans
    → rows bridge_ports ≡ ok ports
    → rows bridge_vlans ≡ ok vlans
    → is_empty (expected_trunks (get_policy s) device_id) ≡ false
    → let trunks = expected_trunks (get_policy s) device_id in
      (audit_trunk_vlan_sanity s device_id
        ≡ report "trunk_vlan_sanity" device_id (trunks_match trunks ∷ []))
      ↔ AllSound ports vlans trunks
unfolding audit_trunk_vlan_sanity
audit_trunk_vlan_sanity_iff s device_id bridge_ports bridge_vlans ports vlans p q p' q' named =
    let trunks = expected_trunks (get_policy s) device_id in
    let whole =
      trunks_match_iff (judge_trunks _ _ trunks) _ "trunk_vlan_sanity" device_id refl
        (judge_trunks-NotPass (ports_by_name ports []) (tag_rows vlans (no_tags trunks)) trunks) in
    let inner = judge_trunks_iff ports vlans trunks trunks (keys-named trunks) in
    rw (named, p, q, p', q', audit_trunk_vlan_sanity)
      (λ h. inner.0 (whole.0 h), λ h. whole.1 (inner.1 h))
