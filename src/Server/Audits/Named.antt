-- ===== src/Server/Audits/Named.antt =====
-- Each audit names itself and its device, and has a finding.
use routeros_inspector_mcp.Base.{
  String, ◌≡◌, refl, Bool, false, not, ◌&&◌, Option, none, some, List, [], ◌∷◌, ◌++◌, is_empty,
  if◌then◌else◌, map, select, str_eq,
}
use routeros_inspector_mcp.Errors.{
  Result, ok, err, ◌>>=◌, Holds, ok-Holds, err-Holds, if-Holds, >>=-Holds,
}
use routeros_inspector_mcp.Value.{truthy, Value, Fields}
use routeros_inspector_mcp.Service.Collectors.{
  get_policy, get_qos_queues, get_firewall_mangle, get_device_role, get_dns_config, get_backup_info,
  get_firmware_version, get_snmp_config, get_bridge_ports, get_bridge_vlans, get_routes,
  device_has_tag,
}
use routeros_inspector_mcp.Service.{Service}
use routeros_inspector_mcp.Config.{SnmpPolicy}
use routeros_inspector_mcp.Audit.{
  AuditResult, Finding, report, rows, as_dict, value_set, is_gateway,
}
use routeros_inspector_mcp.Audit.Qos.{audit_qos_state}
use routeros_inspector_mcp.Audit.DeadMangle.{suspicious_rules, audit_dead_mangle_rules}
use routeros_inspector_mcp.Audit.Dscp.{dscp_rules, iot_rules, is_wash}
use routeros_inspector_mcp.Audit.Dscp.Steps.{or_consistent, judge_dscp, audit_dscp_policy}
use routeros_inspector_mcp.Audit.Dns.{is_not_required, judge_dns, audit_encrypted_dns}
use routeros_inspector_mcp.Audit.Backup.{Clock, dates_of, audit_backup_retention}
use routeros_inspector_mcp.Audit.Correlation.{is_enabled, queues_of, audit_mangle_queue_correlation}
use routeros_inspector_mcp.Audit.Firmware.{expected_version, judge_version, audit_firmware_drift}
use routeros_inspector_mcp.Audit.Snmp.{snmp_policy, judge_community, audit_snmp_scope}
use routeros_inspector_mcp.Audit.Stp.{edge_ports, interface_of, audit_stp_edge}
use routeros_inspector_mcp.Audit.Vlan.{expected_vlans, audit_vlan_consistency}
use routeros_inspector_mcp.Audit.Trunk.{
  expected_trunks, ports_by_name, tag_rows, no_tags, judge_trunks, audit_trunk_vlan_sanity,
}
use routeros_inspector_mcp.Audit.Ownership.{
  owned_prefixes, prefix_of, judge_prefixes, audit_route_ownership,
}
use routeros_inspector_mcp.Audit.DefaultRoute.{
  is_active_route, judge_defaults, audit_default_route_sanity,
}
use routeros_inspector_mcp.Audit.Failover.{is_default_route, primary_of, audit_wan_failover_state}

-- A result that names its audit and its device, and that says something.
pub record IsNamed (audit_name device_id : String) (r : AuditResult) : Type 0 where
  pub named : r.audit_name ≡ audit_name
  pub about : r.device_id ≡ device_id
  pub says : is_empty r.findings ≡ false

module _ (name device_id : String) where
  report-IsNamed :
      (findings : List Finding)
      → is_empty findings ≡ false
      → Holds (IsNamed name device_id) (report name device_id findings)
  report-IsNamed findings says = ok-Holds (record { named = refl; about = refl; says = says })

  one-IsNamed : (f : Finding) → Holds (IsNamed name device_id) (report name device_id (f ∷ []))
  one-IsNamed f = report-IsNamed (f ∷ []) refl

  guarded-IsNamed :
      (b : Bool) (f : Finding) (m : Result AuditResult)
      → Holds (IsNamed name device_id) m
      → Holds (IsNamed name device_id) (if b then report name device_id (f ∷ []) else m)
  guarded-IsNamed b f m h = if-Holds b _ m (one-IsNamed f) h

  wrap-IsNamed :
      (m : Result Finding)
      → Holds (IsNamed name device_id) (m >>= λ f. report name device_id (f ∷ []))
  wrap-IsNamed m = >>=-Holds m _ λ f. one-IsNamed f

  -- What an audit appends to, or falls back to, is not empty.
  or_else-IsNamed :
      (findings : List Finding) (f : Finding)
      → Holds
          (IsNamed name device_id)
          (report name device_id (if is_empty findings then f ∷ [] else findings))
  or_else-IsNamed [] f = one-IsNamed f
  or_else-IsNamed (g ∷ gs) f = report-IsNamed (g ∷ gs) refl

  append-IsNamed :
      (findings : List Finding) (f : Finding)
      → Holds (IsNamed name device_id) (report name device_id (findings ++ (f ∷ [])))
  append-IsNamed [] f = one-IsNamed f
  append-IsNamed (g ∷ gs) f = report-IsNamed (g ∷ (gs ++ (f ∷ []))) refl

or_consistent_says :
    (dscp : List Fields) (fs : List Finding) → is_empty (or_consistent dscp fs) ≡ false
or_consistent_says dscp [] = refl
or_consistent_says dscp (f ∷ fs) = refl

judge_dscp_says :
    (rules dscp : List Fields)
    → Holds (λ findings. is_empty findings ≡ false) (judge_dscp rules dscp)
unfolding judge_dscp
judge_dscp_says rules dscp =
    >>=-Holds (iot_rules (select is_wash (select is_enabled rules))) _
      λ iot_wash. ok-Holds (or_consistent_says dscp _)

module _ (s : Service) (device_id : String) where
  pub qos : Holds (IsNamed "qos_state" device_id) (audit_qos_state s device_id)
  unfolding audit_qos_state
  qos = >>=-Holds (get_qos_queues s device_id) _ λ queues.
      guarded-IsNamed _ _ (not (truthy queues)) _ _
        (>>=-Holds (rows queues) _ λ qs. one-IsNamed _ _ _)

  pub dead_mangle :
      Holds (IsNamed "dead_mangle_rules" device_id) (audit_dead_mangle_rules s device_id)
  unfolding audit_dead_mangle_rules
  dead_mangle = >>=-Holds (get_firewall_mangle s device_id) _ λ rules.
      if-Holds (not (truthy rules)) _ _
        (>>=-Holds (get_device_role s device_id) _ λ role. one-IsNamed _ _ _)
        (>>=-Holds (rows rules) _
          λ rs. >>=-Holds (suspicious_rules rs) _ λ suspicious. one-IsNamed _ _ _)

  pub dns : Holds (IsNamed "encrypted_dns" device_id) (audit_encrypted_dns s device_id)
  unfolding audit_encrypted_dns
  dns = >>=-Holds (get_dns_config s device_id) _ λ dns.
      guarded-IsNamed _ _ (is_not_required (get_policy s)) _ _ (
        guarded-IsNamed _ _ (not (truthy dns)) _ _
          (>>=-Holds (as_dict dns) _ λ d. wrap-IsNamed _ _ (judge_dns d)))

  pub backup :
      (clock : Clock)
      → Holds (IsNamed "backup_retention" device_id) (audit_backup_retention clock s device_id)
  unfolding audit_backup_retention
  backup clock = >>=-Holds (get_backup_info s device_id) _ λ backups.
      guarded-IsNamed _ _ (not (truthy backups)) _ _ (
        >>=-Holds (rows backups) _ λ bs. >>=-Holds (dates_of clock bs) _ λ dates. one-IsNamed _ _ _)

  pub correlation :
      Holds
        (IsNamed "mangle_queue_correlation" device_id)
        (audit_mangle_queue_correlation s device_id)
  unfolding audit_mangle_queue_correlation
  correlation = >>=-Holds (get_firewall_mangle s device_id) _ λ rules.
      >>=-Holds (queues_of s device_id) _ λ queues.
        if-Holds (not (truthy rules) && not (truthy queues)) _ _
          (>>=-Holds (get_device_role s device_id) _ λ role. one-IsNamed _ _ _)
          (>>=-Holds (rows rules) _ λ rs. >>=-Holds (rows queues) _ λ qs. one-IsNamed _ _ _)

  firmware_for :
      (f : Finding) (expected : Option String) (current : Value)
      → Holds (IsNamed "firmware_drift" device_id) (elim expected [
        | none ↦ report "firmware_drift" device_id (f ∷ [])
        | some version ↦
            judge_version current version >>= λ g. report "firmware_drift" device_id (g ∷ [])
      ])
  firmware_for f none current = one-IsNamed _ _ f
  firmware_for f (some version) current = wrap-IsNamed _ _ (judge_version current version)

  pub firmware : Holds (IsNamed "firmware_drift" device_id) (audit_firmware_drift s device_id)
  unfolding audit_firmware_drift
  firmware =
      >>=-Holds (get_firmware_version s device_id) _
        λ current. firmware_for _ (expected_version (get_policy s) device_id) current

  pub stp : Holds (IsNamed "stp_edge" device_id) (audit_stp_edge s device_id)
  unfolding audit_stp_edge
  stp = guarded-IsNamed _ _ (is_empty (edge_ports (get_policy s) device_id)) _ _ (
      >>=-Holds (get_bridge_ports s device_id) _ λ bridge_ports.
        >>=-Holds (rows bridge_ports) _
          λ ports. >>=-Holds (value_set (map interface_of ports)) _ λ actual. one-IsNamed _ _ _)

  pub vlan : Holds (IsNamed "vlan_consistency" device_id) (audit_vlan_consistency s device_id)
  unfolding audit_vlan_consistency
  vlan = guarded-IsNamed _ _ (is_empty (expected_vlans (get_policy s) device_id)) _ _ (
      >>=-Holds (get_bridge_vlans s device_id) _
        λ vlans. >>=-Holds (rows vlans) _ λ vs. one-IsNamed _ _ _)

  pub trunk : Holds (IsNamed "trunk_vlan_sanity" device_id) (audit_trunk_vlan_sanity s device_id)
  unfolding audit_trunk_vlan_sanity
  trunk =
      let trunks = expected_trunks (get_policy s) device_id in
      guarded-IsNamed _ _ (is_empty trunks) _ _ (
        >>=-Holds (get_bridge_ports s device_id) _ λ bridge_ports.
          >>=-Holds (get_bridge_vlans s device_id) _ λ bridge_vlans.
            >>=-Holds (rows bridge_ports) _ λ ports. >>=-Holds (rows bridge_vlans) _ λ vlans.
              >>=-Holds
                (judge_trunks (ports_by_name ports []) (tag_rows vlans (no_tags trunks)) trunks) _
                λ findings. or_else-IsNamed _ _ findings _)

  pub ownership : Holds (IsNamed "route_ownership" device_id) (audit_route_ownership s device_id)
  unfolding audit_route_ownership
  ownership =
      let expected = owned_prefixes (get_policy s) device_id in
      guarded-IsNamed _ _ (is_empty expected) _ _ (
        >>=-Holds (get_routes s device_id) _ λ routes. >>=-Holds (rows routes) _ λ rs.
          >>=-Holds (value_set (map prefix_of rs)) _
            λ actual. wrap-IsNamed _ _ (judge_prefixes expected actual))

  pub default_route :
      Holds (IsNamed "default_route_sanity" device_id) (audit_default_route_sanity s device_id)
  unfolding audit_default_route_sanity
  default_route = >>=-Holds (get_device_role s device_id) _ λ role.
      >>=-Holds (get_routes s device_id) _ λ routes. >>=-Holds (rows routes) _ λ rs.
        let defaults = select is_default_route rs in
        wrap-IsNamed _ _ (
          judge_defaults role (device_has_tag s device_id "dual-wan") defaults
            (select is_active_route defaults))

  pub failover :
      Holds (IsNamed "wan_failover_state" device_id) (audit_wan_failover_state s device_id)
  unfolding audit_wan_failover_state
  failover = >>=-Holds (get_device_role s device_id) _ λ role.
      guarded-IsNamed _ _ (not (is_gateway role)) _ _ (
        guarded-IsNamed _ _ (str_eq (primary_of (get_policy s)) "") _ _ (
          >>=-Holds (get_routes s device_id) _
            λ routes. >>=-Holds (rows routes) _ λ rs. one-IsNamed _ _ _))

  snmp_for :
      (unset missing : Finding) (before : SnmpPolicy → Fields → List Finding)
      (last : SnmpPolicy → Fields → Finding) (snmp : Value) (policy : Option SnmpPolicy)
      → Holds (IsNamed "snmp_scope" device_id) (elim policy [
        | none ↦ report "snmp_scope" device_id (unset ∷ [])
        | some policy ↦
            if not (truthy snmp) then report "snmp_scope" device_id (missing ∷ []) else (do
              d ← as_dict snmp
              report "snmp_scope" device_id (before policy d ++ (last policy d ∷ [])))
      ])
  snmp_for unset missing before last snmp none = one-IsNamed _ _ unset
  snmp_for unset missing before last snmp (some policy) =
      guarded-IsNamed _ _ (not (truthy snmp)) missing _
        (>>=-Holds (as_dict snmp) _ λ d. append-IsNamed _ _ (before policy d) (last policy d))

  pub snmp : Holds (IsNamed "snmp_scope" device_id) (audit_snmp_scope s device_id)
  unfolding audit_snmp_scope
  snmp =
      >>=-Holds (get_snmp_config s device_id) _
        λ snmp. snmp_for _ _ _ judge_community snmp (snmp_policy (get_policy s))

  dscp_findings :
      (dscp : List Fields) (r : Result (List Finding))
      → Holds (λ findings. is_empty findings ≡ false) r
      → Holds
          (IsNamed "dscp_policy" device_id)
          (r >>= λ findings. report "dscp_policy" device_id findings)
  dscp_findings dscp (ok findings) h = report-IsNamed _ _ findings (h.of refl)
  dscp_findings dscp (err e) h = err-Holds

  pub dscp : Holds (IsNamed "dscp_policy" device_id) (audit_dscp_policy s device_id)
  unfolding audit_dscp_policy
  dscp = >>=-Holds (get_firewall_mangle s device_id) _ λ collected.
      if-Holds (not (truthy collected)) _ _
        (>>=-Holds (get_device_role s device_id) _ λ role. one-IsNamed _ _ _)
        (>>=-Holds (rows collected) _ λ rules. >>=-Holds (dscp_rules rules) _ λ dscp.
          guarded-IsNamed _ _ (is_empty dscp) _ _
            (dscp_findings dscp (judge_dscp rules dscp) (judge_dscp_says rules dscp)))
