-- ===== src/Tests/Audits.antt =====
-- The theorems on the audits, applied to the sample fleet.
use routeros_inspector_mcp.Base.{
  ◌≡◌, refl, ◌↔◌, ◌⊎◌, true, false, not, none, some, List, [], ◌∷◌, ℤ, pos, any, All, lookup,
  subset, ℤ_eq, string_eq, length, select, Lacks, Dict, str_eq,
}
use routeros_inspector_mcp.Errors.{ok}
use routeros_inspector_mcp.Text.{lower, has_part}
use routeros_inspector_mcp.Value.{str, get?, get_or, truthy}
use routeros_inspector_mcp.Service.{Service, validate_device}
use routeros_inspector_mcp.Service.Collectors.{get_policy, get_device_role}
use routeros_inspector_mcp.Audit.{
  pass, warn, fail, Finding, AuditResult, report, rows_of, split_csv,
}
use routeros_inspector_mcp.Audit.Vlan.{expected_vlans, audit_vlan_consistency}
use routeros_inspector_mcp.Audit.Vlan.Laws.{TableVerdict, table_holds, audit_vlan_consistency_lem}
use routeros_inspector_mcp.Audit.Trunk.{expected_trunks, trunks_match, audit_trunk_vlan_sanity}
use routeros_inspector_mcp.Audit.Trunk.Passes.{AllSound, audit_trunk_vlan_sanity_iff}
use routeros_inspector_mcp.Audit.Stp.{edge_ports, audit_stp_edge}
use routeros_inspector_mcp.Audit.Ownership.{owned_prefixes, prefixes_match, audit_route_ownership}
use routeros_inspector_mcp.Audit.Membership.{
  HoldsAll, audit_stp_edge_lem, audit_route_ownership_iff,
}
use routeros_inspector_mcp.Audit.Failover.{
  does_not_apply, is_default_route, audit_wan_failover_state,
}
use routeros_inspector_mcp.Audit.DefaultRoute.{is_active_route, audit_default_route_sanity}
use routeros_inspector_mcp.Audit.Routes.{
  IsFailoverAnswer, default_route_verdict, audit_wan_failover_state_lem,
  audit_default_route_sanity_lem,
}
use routeros_inspector_mcp.Server.Audits.{audit_registry}
use routeros_inspector_mcp.Audit.Unset.{IsOpen, audit_registry-IsOpen}
use routeros_inspector_mcp.Audit.Snmp.{judge_community, audit_snmp_scope}
use routeros_inspector_mcp.Audit.Scope.{audit_snmp_scope_lem}
use routeros_inspector_mcp.Audit.DeadMangle.{
  is_disabled_rule, is_suspicious, suspicious_rules, audit_dead_mangle_rules,
}
use routeros_inspector_mcp.Audit.Rules.{audit_dead_mangle_rules_lem}
use routeros_inspector_mcp.Audit.Backup.{Clock, dates_of, replace_z, audit_backup_retention}
use routeros_inspector_mcp.Audit.Backup.Recent.{is_recent, audit_backup_retention_lem}
use routeros_inspector_mcp.Base.{ℕ, leb, if◌then◌else◌, ◌≢◌}
use routeros_inspector_mcp.Audit.Correlation.{audit_mangle_queue_correlation}
use routeros_inspector_mcp.Audit.Correlation.Aligned.{IsAligned, audit_mangle_queue_correlation_lem}
use routeros_inspector_mcp.Tests.Data.{
  backup_row, two_backups, fleet, policy, vlan_row, port_row, route_row, mangle_row, queue_row,
  snmp_row, one_row,
}
use routeros_inspector_mcp.Tests.Collected.{
  queues_found, backups_got, vlans_got, ports_got, routes_got, mangle_got, snmp_got, role_got,
  tag_got,
}

abbrev wanted : List ℤ
wanted = pos 10 ∷ pos 20 ∷ []

audit_vlan_consistency_lem_example :
    (f : Finding) × (audit_vlan_consistency fleet "gw" ≡ report "vlan_consistency" "gw" (f ∷ []))
    × TableVerdict wanted (table_holds wanted (vlan_row ∷ [])) f.status
unfolding get_policy expected_vlans lookup rows_of
audit_vlan_consistency_lem_example =
    audit_vlan_consistency_lem fleet "gw" (one_row vlan_row) (vlan_row ∷ []) vlans_got refl refl

abbrev trunks : Dict (List ℤ)
trunks = ("up1", pos 10 ∷ []) ∷ []

audit_trunk_vlan_sanity_iff_example :
    (audit_trunk_vlan_sanity fleet "gw"
      ≡ report "trunk_vlan_sanity" "gw" (trunks_match trunks ∷ []))
    ↔ AllSound (port_row ∷ []) (vlan_row ∷ []) trunks
unfolding get_policy expected_trunks lookup rows_of
audit_trunk_vlan_sanity_iff_example =
    audit_trunk_vlan_sanity_iff fleet "gw" (one_row port_row) (one_row vlan_row) (port_row ∷ [])
      (vlan_row ∷ []) ports_got vlans_got refl refl refl

audit_stp_edge_lem_example :
    (f : Finding) × (audit_stp_edge fleet "gw" ≡ report "stp_edge" "gw" (f ∷ []))
    × ((f.status ≡ pass) ↔ HoldsAll (str "up1" ∷ []) ("up1" ∷ []))
    × ((f.status ≡ fail) ⊎ (f.status ≡ pass))
unfolding get_policy edge_ports lookup rows_of get_or get?
audit_stp_edge_lem_example =
    audit_stp_edge_lem fleet "gw" (one_row port_row) (port_row ∷ []) (str "up1" ∷ []) ports_got refl
      refl refl

audit_route_ownership_iff_example :
    (audit_route_ownership fleet "gw"
      ≡ report "route_ownership" "gw" (prefixes_match ("0.0.0.0/0" ∷ []) ∷ []))
    ↔ HoldsAll (str "0.0.0.0/0" ∷ []) ("0.0.0.0/0" ∷ [])
unfolding get_policy owned_prefixes lookup rows_of get_or get?
audit_route_ownership_iff_example =
    audit_route_ownership_iff fleet "gw" (one_row route_row) (route_row ∷ []) (str "0.0.0.0/0" ∷ [])
      routes_got refl refl refl

audit_wan_failover_state_lem_example :
    IsFailoverAnswer fleet "gw" "gateway" (audit_wan_failover_state fleet "gw")
audit_wan_failover_state_lem_example = audit_wan_failover_state_lem fleet "gw" "gateway" role_got

audit_default_route_sanity_lem_example :
    (f : Finding) × (audit_default_route_sanity fleet "gw"
      ≡ report "default_route_sanity" "gw" (f ∷ []))
    × (f.status
        ≡ default_route_verdict "gateway" true
            (length (select is_default_route (route_row ∷ [])))
            (length (select is_active_route (select is_default_route (route_row ∷ [])))))
unfolding rows_of
audit_default_route_sanity_lem_example =
    audit_default_route_sanity_lem fleet "gw" "gateway" true (one_row route_row) (route_row ∷ [])
      role_got tag_got routes_got refl

abbrev clock : Clock
clock = record {
  now = 3000000000000;
  parse_date = λ t. if str_eq t "2026-01-02" then some 2900000000000 else none;
  format_date = λ d. "2026-01-02";
}

abbrev bare_fleet : Service
bare_fleet = record fleet { policy = none }

abbrev open_result : AuditResult
open_result = record {
  audit_name = "wan_failover_state";
  device_id = "sw";
  findings = does_not_apply "switch" ∷ [];
}

audit_registry-IsOpen_example : IsOpen open_result
unfolding audit_registry lookup audit_wan_failover_state get_device_role validate_device
audit_registry-IsOpen_example =
    audit_registry-IsOpen clock bare_fleet "sw" "wan_failover_state" audit_wan_failover_state
      open_result refl refl refl refl

audit_snmp_scope_lem_example :
    (f : Finding) × (audit_snmp_scope fleet "gw"
      ≡ report "snmp_scope" "gw" (f ∷ judge_community policy.snmp snmp_row ∷ []))
    × ((f.status ≡ fail)
        ↔ Lacks (split_csv (get_or snmp_row "allowed_addresses" (str ""))) ("lan" ∷ []))
    × ((f.status ≡ pass)
        ↔ (subset (split_csv (get_or snmp_row "allowed_addresses" (str ""))) ("lan" ∷ []) ≡ true))
unfolding get_policy truthy
audit_snmp_scope_lem_example =
    audit_snmp_scope_lem fleet "gw" policy.snmp snmp_row snmp_got refl refl refl

audit_dead_mangle_rules_lem_example :
    (f : Finding) × (audit_dead_mangle_rules fleet "gw" ≡ report "dead_mangle_rules" "gw" (f ∷ []))
    × ((f.status ≡ pass) ↔ (
        All (λ r. not (is_disabled_rule r) ≡ true) (mangle_row ∷ [])
        × All (λ r. is_suspicious r ≡ ok false) (mangle_row ∷ [])))
    × ((f.status ≡ pass) ⊎ (f.status ≡ warn))
unfolding rows_of truthy suspicious_rules is_suspicious get_or get? lower has_part
audit_dead_mangle_rules_lem_example =
    audit_dead_mangle_rules_lem fleet "gw" (one_row mangle_row) (mangle_row ∷ []) [] mangle_got refl
      refl refl

abbrev dates : List ℕ
dates = 2900000000000 ∷ 2900000000000 ∷ []

audit_backup_retention_lem_example :
    (f : Finding) × (audit_backup_retention clock fleet "gw"
      ≡ report "backup_retention" "gw" (f ∷ []))
    × ((f.status ≡ pass) ↔ (
        (any (is_recent clock) dates ≡ true)
        × (leb 2 (length (backup_row ∷ backup_row ∷ [])) ≡ true)))
    × (f.status ≢ fail)
unfolding truthy rows_of dates_of get_or get? replace_z
audit_backup_retention_lem_example =
    audit_backup_retention_lem clock fleet "gw" two_backups (backup_row ∷ backup_row ∷ []) dates
      backups_got refl refl refl

audit_mangle_queue_correlation_lem_example :
    (f : Finding) × (audit_mangle_queue_correlation fleet "gw"
      ≡ report "mangle_queue_correlation" "gw" (f ∷ []))
    × ((f.status ≡ pass) ↔ IsAligned (mangle_row ∷ []) (queue_row ∷ []))
unfolding truthy rows_of
audit_mangle_queue_correlation_lem_example =
    audit_mangle_queue_correlation_lem fleet "gw" (one_row mangle_row) (one_row queue_row)
      (mangle_row ∷ []) (queue_row ∷ []) mangle_got queues_found refl refl refl
