-- ===== src/Tests/Collected.antt =====
-- What the collectors of the sample fleet return.
use routeros_inspector_mcp.Base.{◌≡◌, refl, true}
use routeros_inspector_mcp.Errors.{ok}
use routeros_inspector_mcp.Base.{lookup}
use routeros_inspector_mcp.Service.{call_backend, validate_device, get_backend}
use routeros_inspector_mcp.Registry.{get_operation}
use routeros_inspector_mcp.Backend.Fixture.{fixture_backend}
use routeros_inspector_mcp.Redaction.{redact, should_redact_key, redact_string}
use routeros_inspector_mcp.Value.{truthy, str, obj}
use routeros_inspector_mcp.Service.Collectors.{
  get_bridge_vlans, get_bridge_ports, get_routes, get_firewall_mangle, get_qos_queues,
  get_dns_config, get_snmp_config, get_firmware_version, get_queue_tree, get_backup_info,
  get_device_role, device_has_tag,
}
use routeros_inspector_mcp.Audit.Correlation.{queues_of}
use routeros_inspector_mcp.Tests.Data.{
  fleet, vlan_row, port_row, route_row, mangle_row, queue_row, dns_row, snmp_row, one_row,
  two_backups,
}

pub vlans_got : get_bridge_vlans fleet "gw" ≡ ok (one_row vlan_row)
unfolding get_bridge_vlans call_backend validate_device lookup get_operation get_backend
    fixture_backend redact should_redact_key redact_string
vlans_got = refl

pub ports_got : get_bridge_ports fleet "gw" ≡ ok (one_row port_row)
unfolding get_bridge_ports call_backend validate_device lookup get_operation get_backend
    fixture_backend redact should_redact_key redact_string
ports_got = refl

pub routes_got : get_routes fleet "gw" ≡ ok (one_row route_row)
unfolding get_routes call_backend validate_device lookup get_operation get_backend fixture_backend
    redact should_redact_key redact_string
routes_got = refl

pub mangle_got : get_firewall_mangle fleet "gw" ≡ ok (one_row mangle_row)
unfolding get_firewall_mangle call_backend validate_device lookup get_operation get_backend
    fixture_backend redact should_redact_key redact_string
mangle_got = refl

pub queues_got : get_qos_queues fleet "gw" ≡ ok (one_row queue_row)
unfolding get_qos_queues call_backend validate_device lookup get_operation get_backend
    fixture_backend redact should_redact_key redact_string
queues_got = refl

pub dns_got : get_dns_config fleet "gw" ≡ ok (obj dns_row)
unfolding get_dns_config call_backend validate_device lookup get_operation get_backend
    fixture_backend redact should_redact_key redact_string
dns_got = refl

pub snmp_got : get_snmp_config fleet "gw" ≡ ok (obj snmp_row)
unfolding get_snmp_config call_backend validate_device lookup get_operation get_backend
    fixture_backend redact should_redact_key redact_string
snmp_got = refl

pub version_got : get_firmware_version fleet "gw" ≡ ok (str "7.15.3")
unfolding get_firmware_version call_backend validate_device lookup get_operation get_backend
    fixture_backend redact should_redact_key redact_string
version_got = refl

pub backups_got : get_backup_info fleet "gw" ≡ ok two_backups
unfolding get_backup_info call_backend validate_device lookup get_operation get_backend
    fixture_backend redact should_redact_key redact_string
backups_got = refl

pub queues_found : queues_of fleet "gw" ≡ ok (one_row queue_row)
unfolding queues_of get_queue_tree get_qos_queues truthy call_backend validate_device lookup
    get_operation get_backend fixture_backend redact should_redact_key redact_string
queues_found = refl

pub role_got : get_device_role fleet "gw" ≡ ok "gateway"
unfolding get_device_role validate_device lookup
role_got = refl

pub tag_got : device_has_tag fleet "gw" "dual-wan" ≡ ok true
unfolding device_has_tag validate_device lookup
tag_got = refl
