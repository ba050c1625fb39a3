-- ===== src/Registry.antt =====
-- registry.py: the operations that the service may call on a backend.
pub mod Laws
use routeros_inspector_mcp.Base.{
  String, ◌<>◌, Bool, true, false, Option, none, some, List, [], ◌∷◌, Dict, lookup, keys, sorted,
  if◌then◌else◌,
}
use routeros_inspector_mcp.Errors.{Result, ok, err, value_error}
use routeros_inspector_mcp.Value.Show.{repr_str}

-- `ALLOWED_TIMEOUTS`
abbrev pub allowed_timeouts : List String
allowed_timeouts = "fast" ∷ "normal" ∷ "slow" ∷ []

pub record Operation : Type 0 where
  pub name : String
  pub description : String
  pub backend_method : String
  pub read_only : Bool
  pub sensitive : Bool
  pub timeout_class : String

-- `REGISTRY`
unfoldable pub registry : Dict Operation
registry =
    (
      "get_system_summary",
      record {
        name = "get_system_summary";
        description = "Get device system summary (uptime, version, model)";
        backend_method = "get_system_summary";
        read_only = true;
        sensitive = false;
        timeout_class = "normal";
      },
    )
    ∷ (
      "get_interfaces",
      record {
        name = "get_interfaces";
        description = "List network interfaces";
        backend_method = "get_interfaces";
        read_only = true;
        sensitive = false;
        timeout_class = "normal";
      },
    )
    ∷ (
      "get_bridge_ports",
      record {
        name = "get_bridge_ports";
        description = "List bridge port memberships";
        backend_method = "get_bridge_ports";
        read_only = true;
        sensitive = false;
        timeout_class = "normal";
      },
    )
    ∷ (
      "get_bridge_vlans",
      record {
        name = "get_bridge_vlans";
        description = "List bridge VLAN configurations";
        backend_method = "get_bridge_vlans";
        read_only = true;
        sensitive = false;
        timeout_class = "normal";
      },
    )
    ∷ (
      "get_routes",
      record {
        name = "get_routes";
        description = "List routing table entries";
        backend_method = "get_routes";
        read_only = true;
        sensitive = false;
        timeout_class = "normal";
      },
    )
    ∷ (
      "get_routing_tables",
      record {
        name = "get_routing_tables";
        description = "List RouterOS routing tables";
        backend_method = "get_routing_tables";
        read_only = true;
        sensitive = false;
        timeout_class = "normal";
      },
    )
    ∷ (
      "get_routing_rules",
      record {
        name = "get_routing_rules";
        description = "List RouterOS routing rules";
        backend_method = "get_routing_rules";
        read_only = true;
        sensitive = false;
        timeout_class = "normal";
      },
    )
    ∷ (
      "get_firewall_filter",
      record {
        name = "get_firewall_filter";
        description = "List firewall filter rules";
        backend_method = "get_firewall_filter";
        read_only = true;
        sensitive = false;
        timeout_class = "normal";
      },
    )
    ∷ (
      "get_firewall_nat",
      record {
        name = "get_firewall_nat";
        description = "List NAT rules";
        backend_method = "get_firewall_nat";
        read_only = true;
        sensitive = false;
        timeout_class = "normal";
      },
    )
    ∷ (
      "get_firewall_mangle",
      record {
        name = "get_firewall_mangle";
        description = "List mangle rules";
        backend_method = "get_firewall_mangle";
        read_only = true;
        sensitive = false;
        timeout_class = "normal";
      },
    )
    ∷ (
      "get_address_lists",
      record {
        name = "get_address_lists";
        description = "List firewall address lists";
        backend_method = "get_address_lists";
        read_only = true;
        sensitive = false;
        timeout_class = "normal";
      },
    )
    ∷ (
      "get_dhcp_leases",
      record {
        name = "get_dhcp_leases";
        description = "List DHCP lease entries";
        backend_method = "get_dhcp_leases";
        read_only = true;
        sensitive = false;
        timeout_class = "normal";
      },
    )
    ∷ (
      "get_arp",
      record {
        name = "get_arp";
        description = "List ARP table entries";
        backend_method = "get_arp";
        read_only = true;
        sensitive = false;
        timeout_class = "normal";
      },
    )
    ∷ (
      "get_recent_logs",
      record {
        name = "get_recent_logs";
        description = "Get recent system log entries";
        backend_method = "get_recent_logs";
        read_only = true;
        sensitive = false;
        timeout_class = "slow";
      },
    )
    ∷ (
      "get_qos_queues",
      record {
        name = "get_qos_queues";
        description = "List QSimple queue entries";
        backend_method = "get_qos_queues";
        read_only = true;
        sensitive = false;
        timeout_class = "normal";
      },
    )
    ∷ (
      "get_queue_tree",
      record {
        name = "get_queue_tree";
        description = "List queue tree entries";
        backend_method = "get_queue_tree";
        read_only = true;
        sensitive = false;
        timeout_class = "normal";
      },
    )
    ∷ (
      "get_queue_types",
      record {
        name = "get_queue_types";
        description = "List queue type definitions";
        backend_method = "get_queue_types";
        read_only = true;
        sensitive = false;
        timeout_class = "normal";
      },
    )
    ∷ (
      "get_wireguard_interfaces",
      record {
        name = "get_wireguard_interfaces";
        description = "List WireGuard interfaces";
        backend_method = "get_wireguard_interfaces";
        read_only = true;
        sensitive = true;
        timeout_class = "normal";
      },
    )
    ∷ (
      "get_wireguard_peers",
      record {
        name = "get_wireguard_peers";
        description = "List WireGuard peers";
        backend_method = "get_wireguard_peers";
        read_only = true;
        sensitive = true;
        timeout_class = "normal";
      },
    )
    ∷ (
      "get_ip_services",
      record {
        name = "get_ip_services";
        description = "List RouterOS management service configuration";
        backend_method = "get_ip_services";
        read_only = true;
        sensitive = true;
        timeout_class = "normal";
      },
    )
    ∷ (
      "get_dhcp_servers",
      record {
        name = "get_dhcp_servers";
        description = "List DHCP server configuration";
        backend_method = "get_dhcp_servers";
        read_only = true;
        sensitive = false;
        timeout_class = "normal";
      },
    )
    ∷ (
      "get_backup_info",
      record {
        name = "get_backup_info";
        description = "Get backup file metadata (no content download)";
        backend_method = "get_backup_info";
        read_only = true;
        sensitive = false;
        timeout_class = "normal";
      },
    )
    ∷ (
      "get_dns_config",
      record {
        name = "get_dns_config";
        description = "Get DNS configuration";
        backend_method = "get_dns_config";
        read_only = true;
        sensitive = false;
        timeout_class = "normal";
      },
    )
    ∷ (
      "get_firmware_version",
      record {
        name = "get_firmware_version";
        description = "Get RouterOS firmware version";
        backend_method = "get_firmware_version";
        read_only = true;
        sensitive = false;
        timeout_class = "normal";
      },
    )
    ∷ (
      "get_snmp_config",
      record {
        name = "get_snmp_config";
        description = "Get SNMP configuration";
        backend_method = "get_snmp_config";
        read_only = true;
        sensitive = true;
        timeout_class = "normal";
      },
    )
    ∷ []

-- `get_operation`, over any registry.
unfoldable pub find_operation : Dict Operation → String → Result Operation
find_operation ops name = elim (lookup name ops) [
  | none ↦ err (value_error ("Unknown or denied operation: " <> repr_str name))
  | some op ↦
      if op.read_only
      then ok op
      else err
          (value_error ("Operation " <> (repr_str name <> " is not read-only and denied in v1")))
]

unfoldable pub get_operation : String → Result Operation
unfolding find_operation registry lookup repr_str
get_operation name = find_operation registry name

unfoldable pub list_operations : List String
unfolding sorted keys registry
list_operations = sorted (keys registry)
