-- ===== src/Audit/Membership.antt =====
-- The audits of `policy_backed.py` that ask whether a collected table holds what the policy names:
-- `audit_stp_edge` and `audit_route_ownership`.
use routeros_inspector_mcp.Base.{
  String, ◌≡◌, refl, ap, ◌↔◌, ◌⊎◌, inl, inr, Bool, true, false, not, List, [], ◌∷◌, arith, all, map,
  is_empty, select, Bool-cases, if◌then◌else◌, All, all→All, All→all, is_empty-select-not,
}
use routeros_inspector_mcp.Errors.{Result, ok, err, other_error, ◌>>=◌}
use routeros_inspector_mcp.Value.{Value, Fields}
use routeros_inspector_mcp.Service.{Service}
use routeros_inspector_mcp.Service.Collectors.{get_policy, get_bridge_ports, get_routes}
use routeros_inspector_mcp.Audit.{Status, pass, fail, Finding, report, rows, value_set}
use routeros_inspector_mcp.Audit.Stp.{
  edge_ports, holds_text, interface_of, judge_ports, audit_stp_edge,
}
use routeros_inspector_mcp.Audit.Ownership.{
  owned_prefixes, prefix_of, can_sort, judge_prefixes, prefixes_match, missing_prefixes,
  audit_route_ownership,
}

-- Every name that the policy gives is a text among the values.
abbrev pub HoldsAll : List Value → List String → Type 0
HoldsAll actual expected = All (λ p. holds_text actual p ≡ true) expected

abbrev table : Bool → Status
table complete = if not complete then fail else pass

table-pass : (b : Bool) → (table b ≡ pass) ↔ (b ≡ true)
table-pass b = ground arith

table-fail : (b : Bool) → (table b ≡ fail) ⊎ (table b ≡ pass)
table-fail true = inr refl
table-fail false = inl refl

module _ (expected : List String) (actual : List Value) where
  complete_iff : (all (holds_text actual) expected ≡ true) ↔ HoldsAll actual expected
  complete_iff = (all→All (holds_text actual) expected, All→all (holds_text actual) expected)

  judge_ports-table :
      (judge_ports expected actual).status ≡ table (all (holds_text actual) expected)
  unfolding judge_ports
  judge_ports-table =
      let same = is_empty-select-not (holds_text actual) expected in
      elim (Bool-cases (all (holds_text actual) expected)) [
        | inl h ↦ rw (same, h, judge_ports) refl
        | inr h ↦ rw (same, h, judge_ports) refl
      ]

  -- The judgement on the prefixes passes, or it fails, or raises where the values cannot be sorted.
  abbrev prefixes_table : Bool → Bool → Result Finding
  prefixes_table complete sortable =
      if not complete
      then if sortable
        then ok
            (missing_prefixes expected actual (select (λ p. not (holds_text actual p)) expected))
        else err (other_error "TypeError")
      else ok (prefixes_match expected)

  judge_prefixes-table :
      judge_prefixes expected actual
      ≡ prefixes_table (all (holds_text actual) expected) (can_sort actual)
  unfolding judge_prefixes
  judge_prefixes-table =
      ap (λ b. prefixes_table b (can_sort actual))
        (is_empty-select-not (holds_text actual) expected)

  prefixes_table_iff :
      (complete sortable : Bool) (device_id : String)
      → ((prefixes_table complete sortable >>= λ f. report "route_ownership" device_id (f ∷ []))
          ≡ report "route_ownership" device_id (prefixes_match expected ∷ []))
        ↔ (complete ≡ true)
  prefixes_table_iff true sortable device_id = (λ h. refl, λ h. refl)
  prefixes_table_iff false true device_id = (λ h. cc, λ h. cc)
  prefixes_table_iff false false device_id = (λ h. cc, λ h. cc)

-- Where the policy names edge ports for a device and its bridge ports are read, the STP audit returns
-- one finding. It passes exactly when each of the edge ports is the interface of a bridge port, and
-- fails otherwise.
pub audit_stp_edge_lem :
    (s : Service) (device_id : String) (bridge_ports : Value) (ports : List Fields)
    (actual : List Value)
    → get_bridge_ports s device_id ≡ ok bridge_ports
    → rows bridge_ports ≡ ok ports
    → value_set (map interface_of ports) ≡ ok actual
    → is_empty (edge_ports (get_policy s) device_id) ≡ false
    → (f : Finding) × (audit_stp_edge s device_id ≡ report "stp_edge" device_id (f ∷ []))
      × ((f.status ≡ pass) ↔ HoldsAll actual (edge_ports (get_policy s) device_id))
      × ((f.status ≡ fail) ⊎ (f.status ≡ pass))
unfolding audit_stp_edge
audit_stp_edge_lem s device_id bridge_ports ports actual got read held named =
    let expected = edge_ports (get_policy s) device_id in
    let t = table-pass (all (holds_text actual) expected) in
    let c = complete_iff expected actual in
    (
      judge_ports expected actual,
      rw (named, got, read, held, audit_stp_edge) refl,
      rw judge_ports-table (λ h. c.0 (t.0 h), λ h. t.1 (c.1 h)),
      rw judge_ports-table (table-fail (all (holds_text actual) expected)),
    )

-- Where the policy names prefixes that a device owns and its routes are read, the ownership audit
-- reports a match exactly when each prefix is the destination of a route.
pub audit_route_ownership_iff :
    (s : Service) (device_id : String) (routes : Value) (rs : List Fields) (actual : List Value)
    → get_routes s device_id ≡ ok routes
    → rows routes ≡ ok rs
    → value_set (map prefix_of rs) ≡ ok actual
    → is_empty (owned_prefixes (get_policy s) device_id) ≡ false
    → let expected = owned_prefixes (get_policy s) device_id in
      (audit_route_ownership s device_id
        ≡ report "route_ownership" device_id (prefixes_match expected ∷ []))
      ↔ HoldsAll actual expected
unfolding audit_route_ownership
audit_route_ownership_iff s device_id routes rs actual got read held named =
    let expected = owned_prefixes (get_policy s) device_id in
    let t =
      prefixes_table_iff expected actual (all (holds_text actual) expected) (can_sort actual)
        device_id in
    let c = complete_iff expected actual in
    rw (named, got, read, held, audit_route_ownership, judge_prefixes-table)
      (λ h. c.0 (t.0 h), λ h. t.1 (c.1 h))
