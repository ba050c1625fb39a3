-- ===== src/Audit/Routes.antt =====
-- The audits of `policy_backed.py` that count default routes: `audit_wan_failover_state` and
-- `audit_default_route_sanity`.
use routeros_inspector_mcp.Base.{
  ℕ, zero, suc, String, ◌≡◌, ◌≢◌, refl, inl, eq_iff, ap, inr, Bool, true, false, not, ◌&&◌, List,
  [], ◌∷◌, arith, length, is_empty, select, Bool-cases, if◌then◌else◌, ltb, str_eq,
}
use routeros_inspector_mcp.Errors.{Exn, Result, ok, err, ◌>>=◌}
use routeros_inspector_mcp.Value.{Value, Fields}
use routeros_inspector_mcp.Service.{Service}
use routeros_inspector_mcp.Service.Collectors.{
  get_policy, get_routes, get_device_role, device_has_tag,
}
use routeros_inspector_mcp.Audit.{
  Status, pass, warn, fail, skip, unknown, Finding, AuditResult, report, rows, is_gateway,
}
use routeros_inspector_mcp.Audit.Failover.{
  does_not_apply, no_policy, no_default as no_route, only_one, configured, is_default_route,
  judge_failover, primary_of, secondary_of, audit_wan_failover_state,
}
use routeros_inspector_mcp.Audit.DefaultRoute.{
  no_default, is_active_route, judge_defaults, audit_default_route_sanity,
}

-- The status of the failover audit by the number of default routes, and whether the policy names a
-- second uplink.
unfoldable pub by_count : Bool → ℕ → Status
by_count second zero = fail
by_count second (suc zero) = if second then warn else pass
by_count second (suc (suc n)) = pass

ltb-two : (n : ℕ) → ltb (suc (suc n)) 2 ≡ false
ltb-two n = ground arith

abbrev by_list : Bool → List Fields → Finding
by_list second defaults =
    if is_empty defaults
    then no_route
    else if ltb (length defaults) 2 && second
    then only_one defaults
    else configured defaults

by_list-by_count :
    (second : Bool) (defaults : List Fields)
    → (by_list second defaults).status ≡ by_count second (length defaults)
unfolding by_count
by_list-by_count second [] = refl
by_list-by_count true (r ∷ []) = refl
by_list-by_count false (r ∷ []) = refl
by_list-by_count true (r ∷ q ∷ defaults) = rw (ltb-two (length defaults)) refl
by_list-by_count false (r ∷ q ∷ defaults) = rw (ltb-two (length defaults)) refl

judge_failover-by_count :
    (secondary : String) (rs : List Fields)
    → (judge_failover secondary rs).status
      ≡ by_count (not (str_eq secondary "")) (length (select is_default_route rs))
unfolding judge_failover
judge_failover-by_count secondary rs =
    by_list-by_count (not (str_eq secondary "")) (select is_default_route rs)

-- The rows of the routing table of a device, or what the reading of it raises.
abbrev pub route_rows : Service → String → Result (List Fields)
route_rows s device_id = do routes ← get_routes s device_id; rows routes

-- What the failover audit answers for a device of a role.
pub data IsFailoverAnswer (s : Service) (device_id role : String)
    : Result AuditResult → Type 0 where
  elsewhere :
      (f : Finding)
      → is_gateway role ≡ false
      → f.status ≡ skip
      → IsFailoverAnswer s device_id role (report "wan_failover_state" device_id (f ∷ []))
  unset :
      (f : Finding)
      → is_gateway role ≡ true
      → primary_of (get_policy s) ≡ ""
      → f.status ≡ unknown
      → IsFailoverAnswer s device_id role (report "wan_failover_state" device_id (f ∷ []))
  counted :
      (f : Finding) (rs : List Fields)
      → is_gateway role ≡ true
      → primary_of (get_policy s) ≢ ""
      → route_rows s device_id ≡ ok rs
      → f.status
        ≡ by_count
            (not (str_eq (secondary_of (get_policy s)) ""))
            (length (select is_default_route rs))
      → IsFailoverAnswer s device_id role (report "wan_failover_state" device_id (f ∷ []))
  unread :
      (e : Exn)
      → is_gateway role ≡ true
      → primary_of (get_policy s) ≢ ""
      → route_rows s device_id ≡ err e
      → IsFailoverAnswer s device_id role (err e)

counted_or_unread :
    (s : Service) (device_id role : String) (read : Result (List Fields))
    → is_gateway role ≡ true
    → primary_of (get_policy s) ≢ ""
    → route_rows s device_id ≡ read
    → IsFailoverAnswer s device_id role (
        read >>= λ rs.
        report "wan_failover_state" device_id
          (judge_failover (secondary_of (get_policy s)) rs ∷ []))
counted_or_unread s device_id role (ok rs) gateway set h =
    counted (judge_failover (secondary_of (get_policy s)) rs) rs gateway set h
      (judge_failover-by_count (secondary_of (get_policy s)) rs)
counted_or_unread s device_id role (err e) gateway set h = unread e gateway set h

from_routes :
    (s : Service) (device_id role : String) (got : Result Value)
    → is_gateway role ≡ true
    → primary_of (get_policy s) ≢ ""
    → get_routes s device_id ≡ got
    → IsFailoverAnswer s device_id role (
        got >>= λ routes. rows routes >>= λ rs.
        report "wan_failover_state" device_id
          (judge_failover (secondary_of (get_policy s)) rs ∷ []))
from_routes s device_id role (ok routes) gateway set h =
    counted_or_unread s device_id role (rows routes) gateway set
      (ap (λ (m : Result Value). m >>= rows) h)
from_routes s device_id role (err e) gateway set h =
    unread e gateway set (ap (λ (m : Result Value). m >>= rows) h)

str_eq-ne : (a b : String) → str_eq a b ≡ false → a ≢ b
str_eq-ne a b h e = ground (arith, eq_iff a b)

-- For a device whose role is known the failover audit answers with one finding: skip where the device
-- is no gateway, and unknown where the policy names no primary uplink, both without its routes, which
-- may be out of reach; else fail where it has no default route, warn where it has one and the policy
-- names a second uplink, and else pass. It raises only what the reading of the routes raises.
pub audit_wan_failover_state_lem :
    (s : Service) (device_id role : String)
    → get_device_role s device_id ≡ ok role
    → IsFailoverAnswer s device_id role (audit_wan_failover_state s device_id)
unfolding audit_wan_failover_state
audit_wan_failover_state_lem s device_id role known =
    let primary = primary_of (get_policy s) in
    elim (Bool-cases (is_gateway role)) [
      | inr off ↦
          rw (known, off, audit_wan_failover_state) (elsewhere (does_not_apply role) off refl)
      | inl gateway ↦ elim (Bool-cases (str_eq primary "")) [
        | inl same ↦
            rw (known, gateway, same, audit_wan_failover_state)
              (unset no_policy gateway ((eq_iff primary "").0 same) refl)
        | inr other ↦
            rw (known, gateway, other, audit_wan_failover_state)
              (from_routes s device_id role (get_routes s device_id) gateway
                (str_eq-ne primary "" other) refl)
      ]
    ]

-- The status of the default route audit by the number of default routes and of the enabled ones.
unfoldable pub default_route_verdict : String → Bool → ℕ → ℕ → Status
default_route_verdict role dual_wan zero active = if is_gateway role then fail else warn
default_route_verdict role dual_wan (suc n) zero =
    if is_gateway role then (if dual_wan then warn else pass) else warn
default_route_verdict role dual_wan (suc n) (suc zero) =
    if is_gateway role then (if dual_wan then warn else pass) else pass
default_route_verdict role dual_wan (suc n) (suc (suc m)) = if is_gateway role then pass else warn

either_status :
    (b : Bool) (f g : Finding)
    → (h : Finding) × ((if b then ok f else ok g) ≡ ok h)
      × (h.status ≡ (if b then f.status else g.status))
either_status true f g = (f, refl, refl)
either_status false f g = (g, refl, refl)

judge_defaults-verdict :
    (role : String) (dual_wan : Bool) (defaults active : List Fields)
    → (f : Finding) × (judge_defaults role (ok dual_wan) defaults active ≡ ok f)
      × (f.status ≡ default_route_verdict role dual_wan (length defaults) (length active))
unfolding judge_defaults default_route_verdict
judge_defaults-verdict role dual_wan [] active = (no_default role _, refl, refl)
judge_defaults-verdict role true (r ∷ defaults) [] = either_status (is_gateway role) _ _
judge_defaults-verdict role false (r ∷ defaults) [] = either_status (is_gateway role) _ _
judge_defaults-verdict role true (r ∷ defaults) (a ∷ []) = either_status (is_gateway role) _ _
judge_defaults-verdict role false (r ∷ defaults) (a ∷ []) = either_status (is_gateway role) _ _
judge_defaults-verdict role dual_wan (r ∷ defaults) (a ∷ b ∷ active) =
    rw (ltb-two (length active), judge_defaults) (either_status (is_gateway role) _ _)

-- The default route audit returns one finding. Without a default route it fails on a gateway and
-- warns elsewhere. On a gateway with one it warns where fewer than two are enabled and the device is
-- tagged dual-wan, and else passes; elsewhere it passes exactly where one is enabled.
pub audit_default_route_sanity_lem :
    (s : Service) (device_id role : String) (dual_wan : Bool) (routes : Value) (rs : List Fields)
    → get_device_role s device_id ≡ ok role
    → device_has_tag s device_id "dual-wan" ≡ ok dual_wan
    → get_routes s device_id ≡ ok routes
    → rows routes ≡ ok rs
    → let defaults = select is_default_route rs in
      (f : Finding) × (audit_default_route_sanity s device_id
        ≡ report "default_route_sanity" device_id (f ∷ []))
      × (f.status
          ≡ default_route_verdict role dual_wan
              (length defaults)
              (length (select is_active_route defaults)))
unfolding audit_default_route_sanity
audit_default_route_sanity_lem s device_id role dual_wan routes rs known tagged got read =
    let defaults = select is_default_route rs in
    let (f, judged, verdict) =
      judge_defaults-verdict role dual_wan defaults (select is_active_route defaults) in
    (f, rw (known, got, read, tagged, judged, audit_default_route_sanity) refl, verdict)
