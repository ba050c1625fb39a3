-- ===== src/Audit/Unset.antt =====
-- The audits of `policy_backed.py` that compare a device with the policy, where there is no policy.
use routeros_inspector_mcp.Base.{
  String, ◌≡◌, refl, ◌⊎◌, inl, inr, not, none, some, [], ◌∷◌, List, contains, string_eq, true,
  lookup, lookup-All, All,
}
use routeros_inspector_mcp.Errors.{ok, Holds, ok-Holds, if-Holds, >>=-Holds}
use routeros_inspector_mcp.Service.{Service}
use routeros_inspector_mcp.Service.Collectors.{get_policy, get_device_role}
use routeros_inspector_mcp.Audit.{unknown, skip, Finding, AuditResult, report, is_gateway}
use routeros_inspector_mcp.Server.{AuditFn}
use routeros_inspector_mcp.Server.Audits.{audit_registry}
use routeros_inspector_mcp.Audit.Backup.{Clock}
use routeros_inspector_mcp.Audit.Firmware.{expected_version, audit_firmware_drift}
use routeros_inspector_mcp.Audit.Snmp.{snmp_policy, audit_snmp_scope}
use routeros_inspector_mcp.Audit.Stp.{edge_ports, audit_stp_edge}
use routeros_inspector_mcp.Audit.Vlan.{expected_vlans, audit_vlan_consistency}
use routeros_inspector_mcp.Audit.Trunk.{expected_trunks, audit_trunk_vlan_sanity}
use routeros_inspector_mcp.Audit.Ownership.{owned_prefixes, audit_route_ownership}
use routeros_inspector_mcp.Audit.Failover.{
  primary_of, does_not_apply, no_policy, audit_wan_failover_state,
}

-- The audits that compare a device with the policy: those of `policy_backed.py`, but for
-- `default_route_sanity`, which does not ask the policy.
abbrev pub policy_compared : List String
policy_compared =
    "firmware_drift" ∷ "snmp_scope" ∷ "stp_edge" ∷ "vlan_consistency" ∷ "trunk_vlan_sanity"
    ∷ "route_ownership" ∷ "wan_failover_state" ∷ []

-- No finding takes a stand.
abbrev pub IsOpen : AuditResult → Type 0
IsOpen r = All (λ (f : Finding). (f.status ≡ unknown) ⊎ (f.status ≡ skip)) r.findings

report-Holds :
    (name device_id : String) (f : Finding)
    → (f.status ≡ unknown) ⊎ (f.status ≡ skip)
    → Holds IsOpen (report name device_id (f ∷ []))
report-Holds name device_id f h = ok-Holds (h, tt)

module _ (s : Service) (device_id : String) (none_set : s.policy ≡ none) where
  firmware : Holds IsOpen (audit_firmware_drift s device_id)
  unfolding audit_firmware_drift get_policy expected_version
  firmware =
      rw (none_set, get_policy, expected_version, audit_firmware_drift)
        (>>=-Holds _ _ λ current. ok-Holds (inl refl, tt))

  snmp : Holds IsOpen (audit_snmp_scope s device_id)
  unfolding audit_snmp_scope get_policy
  snmp =
      rw (none_set, get_policy, snmp_policy, audit_snmp_scope)
        (>>=-Holds _ _ λ current. ok-Holds (inl refl, tt))

  stp : Holds IsOpen (audit_stp_edge s device_id)
  unfolding audit_stp_edge get_policy edge_ports
  stp = rw (none_set, get_policy, edge_ports, audit_stp_edge) (ok-Holds (inl refl, tt))

  vlan : Holds IsOpen (audit_vlan_consistency s device_id)
  unfolding audit_vlan_consistency get_policy expected_vlans
  vlan = rw (none_set, get_policy, expected_vlans, audit_vlan_consistency) (ok-Holds (inl refl, tt))

  trunk : Holds IsOpen (audit_trunk_vlan_sanity s device_id)
  unfolding audit_trunk_vlan_sanity get_policy expected_trunks
  trunk =
      rw (none_set, get_policy, expected_trunks, audit_trunk_vlan_sanity) (ok-Holds (inl refl, tt))

  ownership : Holds IsOpen (audit_route_ownership s device_id)
  unfolding audit_route_ownership get_policy owned_prefixes
  ownership =
      rw (none_set, get_policy, owned_prefixes, audit_route_ownership) (ok-Holds (inl refl, tt))

  failover : Holds IsOpen (audit_wan_failover_state s device_id)
  unfolding audit_wan_failover_state get_policy
  failover = >>=-Holds (get_device_role s device_id) _ λ role.
      if-Holds (not (is_gateway role)) _ _
        (report-Holds "wan_failover_state" device_id (does_not_apply role) (inr refl))
        (rw (none_set, get_policy, primary_of)
          (report-Holds "wan_failover_state" device_id no_policy (inl refl)))

  abbrev IsOpenFn : String × AuditFn → Type 0
  IsOpenFn e = contains policy_compared e.0 ≡ true → Holds IsOpen (e.1 s device_id)

  open_audits : (clock : Clock) → All IsOpenFn (audit_registry clock)
  unfolding audit_registry
  open_audits clock = (
    λ h. cc,
    (
      λ h. cc,
      (
        λ h. cc,
        (
          λ h. cc,
          (
            λ h. cc,
            (
              λ h. cc,
              (
                λ _. firmware,
                (
                  λ _. snmp,
                  (
                    λ _. stp,
                    (λ _. vlan, (λ _. trunk, (λ _. ownership, (λ h. cc, (λ _. failover, tt))))),
                  ),
                ),
              ),
            ),
          ),
        ),
      ),
    ),
  )

-- Without a policy none of the registered audits that compare a device with the policy passes, warns
-- or fails: what it returns has only findings of status unknown or skip. The audit
-- `default_route_sanity` is not one of them.
pub audit_registry-IsOpen :
    (clock : Clock) (s : Service) (device_id name : String) (audit : AuditFn) (r : AuditResult)
    → s.policy ≡ none
    → contains policy_compared name ≡ true
    → lookup name (audit_registry clock) ≡ some audit
    → audit s device_id ≡ ok r
    → IsOpen r
audit_registry-IsOpen clock s device_id name audit r none_set compared found h =
    (lookup-All (IsOpenFn s device_id none_set) name (audit_registry clock)
        (open_audits s device_id none_set clock) found compared).of
      h
