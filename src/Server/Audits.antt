-- ===== src/Server/Audits.antt =====
-- server.py: `AUDIT_REGISTRY`, the audits by their names.
pub mod Named
use routeros_inspector_mcp.Base.{
  String, ◌≡◌, refl, Bool, true, false, not, ◌&&◌, Option, none, some, List, [], ◌∷◌, ◌++◌, Dict,
  lookup, lookup-All, All, is_empty, inl, inr, if◌then◌else◌, Bool-cases, map, select, str_eq,
}
use routeros_inspector_mcp.Errors.{
  Result, ok, err, ◌>>=◌, Holds, ok-Holds, err-Holds, if-Holds, >>=-Holds,
}
use routeros_inspector_mcp.Value.{truthy, Value, Fields}
use routeros_inspector_mcp.Service.Collectors.{
  get_policy, get_qos_queues, get_firewall_mangle, get_device_role, get_dns_config, get_backup_info,
  get_firmware_version, get_snmp_config, get_bridge_ports, get_bridge_vlans, get_routes,
  device_has_tag,
}
use routeros_inspector_mcp.Service.{Service}
use routeros_inspector_mcp.Config.{SnmpPolicy}
use routeros_inspector_mcp.Audit.{
  AuditResult, Finding, report, rows, as_dict, value_set, is_gateway,
}
use routeros_inspector_mcp.Audit.Qos.{audit_qos_state}
use routeros_inspector_mcp.Audit.DeadMangle.{suspicious_rules, audit_dead_mangle_rules}
use routeros_inspector_mcp.Audit.Dscp.{dscp_rules, iot_rules, is_wash}
use routeros_inspector_mcp.Audit.Dscp.Steps.{or_consistent, judge_dscp, audit_dscp_policy}
use routeros_inspector_mcp.Audit.Dns.{is_not_required, judge_dns, audit_encrypted_dns}
use routeros_inspector_mcp.Audit.Backup.{Clock, dates_of, audit_backup_retention}
use routeros_inspector_mcp.Audit.Correlation.{is_enabled, queues_of, audit_mangle_queue_correlation}
use routeros_inspector_mcp.Audit.Firmware.{expected_version, judge_version, audit_firmware_drift}
use routeros_inspector_mcp.Audit.Snmp.{snmp_policy, judge_community, audit_snmp_scope}
use routeros_inspector_mcp.Audit.Stp.{edge_ports, interface_of, audit_stp_edge}
use routeros_inspector_mcp.Audit.Vlan.{expected_vlans, audit_vlan_consistency}
use routeros_inspector_mcp.Audit.Trunk.{
  expected_trunks, ports_by_name, tag_rows, no_tags, judge_trunks, audit_trunk_vlan_sanity,
}
use routeros_inspector_mcp.Audit.Ownership.{
  owned_prefixes, prefix_of, judge_prefixes, audit_route_ownership,
}
use routeros_inspector_mcp.Audit.DefaultRoute.{
  is_active_route, judge_defaults, audit_default_route_sanity,
}
use routeros_inspector_mcp.Audit.Failover.{is_default_route, primary_of, audit_wan_failover_state}
use routeros_inspector_mcp.Server.{AuditFn}
use Named.{
  IsNamed, qos, dead_mangle, dscp, dns, backup, correlation, firmware, snmp, stp, vlan, trunk,
  ownership, default_route, failover,
}

-- `AUDIT_REGISTRY`
unfoldable pub audit_registry : Clock → Dict AuditFn
audit_registry clock =
    ("qos_state", audit_qos_state)
    ∷ ("dead_mangle_rules", audit_dead_mangle_rules)
    ∷ ("dscp_policy", audit_dscp_policy)
    ∷ ("encrypted_dns", audit_encrypted_dns)
    ∷ ("backup_retention", audit_backup_retention clock)
    ∷ ("mangle_queue_correlation", audit_mangle_queue_correlation)
    ∷ ("firmware_drift", audit_firmware_drift)
    ∷ ("snmp_scope", audit_snmp_scope)
    ∷ ("stp_edge", audit_stp_edge)
    ∷ ("vlan_consistency", audit_vlan_consistency)
    ∷ ("trunk_vlan_sanity", audit_trunk_vlan_sanity)
    ∷ ("route_ownership", audit_route_ownership)
    ∷ ("default_route_sanity", audit_default_route_sanity)
    ∷ ("wan_failover_state", audit_wan_failover_state)
    ∷ []

-- A registered audit, for any service and device.
abbrev IsNamedFn : String × AuditFn → Type 0
IsNamedFn e = (s : Service) (device_id : String) → Holds (IsNamed e.0 device_id) (e.1 s device_id)

audit_registry-All : (clock : Clock) → All IsNamedFn (audit_registry clock)
unfolding audit_registry
audit_registry-All clock = (
  qos,
  (
    dead_mangle,
    (
      dscp,
      (
        dns,
        (
          λ s d. backup s d clock,
          (
            correlation,
            (
              firmware,
              (snmp, (stp, (vlan, (trunk, (ownership, (default_route, (failover, tt))))))),
            ),
          ),
        ),
      ),
    ),
  ),
)

-- Whatever a registered audit returns carries the audit's own name in the registry and the device
-- that it was asked about, and has a finding.
pub audit_registry-IsNamed :
    (clock : Clock) (name : String) (audit_fn : AuditFn) (s : Service) (device_id : String)
    (r : AuditResult)
    → lookup name (audit_registry clock) ≡ some audit_fn
    → audit_fn s device_id ≡ ok r
    → IsNamed name device_id r
audit_registry-IsNamed clock name audit_fn s device_id r found returned =
    (lookup-All IsNamedFn name (audit_registry clock) (audit_registry-All clock) found s
        device_id).of
      returned
