-- ===== src/Service/Collectors.antt =====
-- The collectors of the service for one device, and what it says of the inventory.
use routeros_inspector_mcp.Base.{
  String, Bool, Option, none, some, List, [], ◌∷◌, ℤ, contains, string_eq,
}
use routeros_inspector_mcp.Errors.{Result, ok, err, other_error, ◌>>=◌}
use routeros_inspector_mcp.Value.{
  Value, null, int, str, arr, obj, Fields, end, field, merge, put, to_items,
}
use routeros_inspector_mcp.Config.{PolicyBaseline}
use routeros_inspector_mcp.Service.{Service, validate_device, call_backend}

-- `**summary` wants a mapping.
abbrev as_mapping : Value → Result Fields
as_mapping (obj d) = ok d
as_mapping _ = err (other_error "TypeError")

unfoldable pub get_device_summary : Service → String → Result Value
unfolding merge put
get_device_summary s device_id = do
  summary ← call_backend s device_id "get_system_summary" end
  entry ← validate_device s device_id
  rest ← as_mapping summary
  ok (obj (merge (field "device_id" (str device_id) (field "role" (str entry.role) end)) rest))

unfoldable pub get_device_role : Service → String → Result String
get_device_role s device_id = do entry ← validate_device s device_id; ok entry.role

unfoldable pub device_has_tag : Service → String → String → Result Bool
device_has_tag s device_id tag = do
  entry ← validate_device s device_id
  ok (contains entry.tags tag)

unfoldable pub get_policy : Service → Option PolicyBaseline
get_policy s = s.policy

abbrev strs : List String → List Value
strs [] = []
strs (t ∷ ts) = str t ∷ strs ts

abbrev topics_value : Option (List String) → Value
topics_value none = null
topics_value (some ts) = arr (to_items (strs ts))

unfoldable pub get_recent_logs : Service → String → ℤ → Option (List String) → Result Value
get_recent_logs s device_id minutes topics =
    call_backend s device_id "get_recent_logs"
      (field "minutes" (int minutes) (field "topics" (topics_value topics) end))

unfoldable pub get_interfaces : Service → String → Result Value
get_interfaces s device_id = call_backend s device_id "get_interfaces" end

unfoldable pub get_bridge_ports : Service → String → Result Value
get_bridge_ports s device_id = call_backend s device_id "get_bridge_ports" end

unfoldable pub get_bridge_vlans : Service → String → Result Value
get_bridge_vlans s device_id = call_backend s device_id "get_bridge_vlans" end

unfoldable pub get_routes : Service → String → Result Value
get_routes s device_id = call_backend s device_id "get_routes" end

unfoldable pub get_routing_tables : Service → String → Result Value
get_routing_tables s device_id = call_backend s device_id "get_routing_tables" end

unfoldable pub get_routing_rules : Service → String → Result Value
get_routing_rules s device_id = call_backend s device_id "get_routing_rules" end

unfoldable pub get_firewall_filter : Service → String → Result Value
get_firewall_filter s device_id = call_backend s device_id "get_firewall_filter" end

unfoldable pub get_firewall_nat : Service → String → Result Value
get_firewall_nat s device_id = call_backend s device_id "get_firewall_nat" end

unfoldable pub get_firewall_mangle : Service → String → Result Value
get_firewall_mangle s device_id = call_backend s device_id "get_firewall_mangle" end

unfoldable pub get_address_lists : Service → String → Result Value
get_address_lists s device_id = call_backend s device_id "get_address_lists" end

unfoldable pub get_dhcp_leases : Service → String → Result Value
get_dhcp_leases s device_id = call_backend s device_id "get_dhcp_leases" end

unfoldable pub get_arp : Service → String → Result Value
get_arp s device_id = call_backend s device_id "get_arp" end

unfoldable pub get_qos_queues : Service → String → Result Value
get_qos_queues s device_id = call_backend s device_id "get_qos_queues" end

unfoldable pub get_queue_tree : Service → String → Result Value
get_queue_tree s device_id = call_backend s device_id "get_queue_tree" end

unfoldable pub get_queue_types : Service → String → Result Value
get_queue_types s device_id = call_backend s device_id "get_queue_types" end

unfoldable pub get_wireguard_interfaces : Service → String → Result Value
get_wireguard_interfaces s device_id = call_backend s device_id "get_wireguard_interfaces" end

unfoldable pub get_wireguard_peers : Service → String → Result Value
get_wireguard_peers s device_id = call_backend s device_id "get_wireguard_peers" end

unfoldable pub get_ip_services : Service → String → Result Value
get_ip_services s device_id = call_backend s device_id "get_ip_services" end

unfoldable pub get_dhcp_servers : Service → String → Result Value
get_dhcp_servers s device_id = call_backend s device_id "get_dhcp_servers" end

unfoldable pub get_backup_info : Service → String → Result Value
get_backup_info s device_id = call_backend s device_id "get_backup_info" end

unfoldable pub get_dns_config : Service → String → Result Value
get_dns_config s device_id = call_backend s device_id "get_dns_config" end

unfoldable pub get_firmware_version : Service → String → Result Value
get_firmware_version s device_id = call_backend s device_id "get_firmware_version" end

unfoldable pub get_snmp_config : Service → String → Result Value
get_snmp_config s device_id = call_backend s device_id "get_snmp_config" end
