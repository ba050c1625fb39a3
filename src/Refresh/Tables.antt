-- ===== src/Refresh/Tables.antt =====
-- scripts/refresh_routeros_fixture.py: the tables of a fixture, with the artifact that each is taken
-- from and the keys that are kept, under their new names.
use routeros_inspector_mcp.Base.{String, List, [], ◌∷◌, Dict}

-- The columns of `simple_rules`.
abbrev pub rule_keys : List (String × String)
rule_keys =
    ("chain", "chain")
    ∷ ("action", "action")
    ∷ ("src-address", "src_address")
    ∷ ("dst-address", "dst_address")
    ∷ ("protocol", "protocol")
    ∷ ("dst-port", "dst_port")
    ∷ ("disabled", "disabled")
    ∷ ("comment", "comment")
    ∷ ("connection-state", "connection_state")
    ∷ ("connection-mark", "connection_mark")
    ∷ ("new-connection-mark", "new_connection_mark")
    ∷ ("packet-mark", "packet_mark")
    ∷ ("new-packet-mark", "new_packet_mark")
    ∷ ("routing-mark", "routing_mark")
    ∷ ("new-routing-mark", "new_routing_mark")
    ∷ ("new-routing-table", "new_routing_table")
    ∷ ("dscp", "dscp")
    ∷ ("new-dscp", "new_dscp")
    ∷ ("passthrough", "passthrough")
    ∷ ("in-interface", "in_interface")
    ∷ ("out-interface", "out_interface")
    ∷ ("src-address-list", "src_address_list")
    ∷ ("dst-address-list", "dst_address_list")
    ∷ []

abbrev pub interfaces_keys : List (String × String)
interfaces_keys =
    ("name", "name")
    ∷ ("type", "type")
    ∷ ("disabled", "disabled")
    ∷ ("running", "running")
    ∷ ("comment", "comment")
    ∷ []

abbrev pub bridge_ports_keys : List (String × String)
bridge_ports_keys =
    ("bridge", "bridge")
    ∷ ("interface", "interface")
    ∷ ("pvid", "pvid")
    ∷ ("edge", "edge")
    ∷ ("frame-types", "frame_types")
    ∷ ("trusted", "trusted")
    ∷ ("disabled", "disabled")
    ∷ ("comment", "comment")
    ∷ []

abbrev pub bridge_vlans_keys : List (String × String)
bridge_vlans_keys =
    ("bridge", "bridge")
    ∷ ("vlan-ids", "vlan_ids")
    ∷ ("tagged", "tagged")
    ∷ ("untagged", "untagged")
    ∷ ("disabled", "disabled")
    ∷ ("dynamic", "dynamic")
    ∷ ("comment", "comment")
    ∷ []

abbrev pub routes_keys : List (String × String)
routes_keys =
    ("dst-address", "dst_address")
    ∷ ("gateway", "gateway")
    ∷ ("distance", "distance")
    ∷ ("routing-table", "routing_table")
    ∷ ("disabled", "disabled")
    ∷ ("dynamic", "dynamic")
    ∷ ("active", "active")
    ∷ ("comment", "comment")
    ∷ []

abbrev pub routing_tables_keys : List (String × String)
routing_tables_keys =
    ("name", "name") ∷ ("fib", "fib") ∷ ("disabled", "disabled") ∷ ("comment", "comment") ∷ []

abbrev pub routing_rules_keys : List (String × String)
routing_rules_keys =
    ("action", "action")
    ∷ ("src-address", "src_address")
    ∷ ("dst-address", "dst_address")
    ∷ ("interface", "interface")
    ∷ ("routing-mark", "routing_mark")
    ∷ ("table", "table")
    ∷ ("min-prefix", "min_prefix")
    ∷ ("disabled", "disabled")
    ∷ ("comment", "comment")
    ∷ []

abbrev pub address_lists_keys : List (String × String)
address_lists_keys =
    ("list", "list")
    ∷ ("address", "address")
    ∷ ("disabled", "disabled")
    ∷ ("comment", "comment")
    ∷ []

abbrev pub dhcp_leases_keys : List (String × String)
dhcp_leases_keys =
    ("address", "address")
    ∷ ("active-address", "active_address")
    ∷ ("server", "server")
    ∷ ("host-name", "host_name")
    ∷ ("status", "status")
    ∷ ("dynamic", "dynamic")
    ∷ ("disabled", "disabled")
    ∷ ("mac-address", "mac_address")
    ∷ []

abbrev pub arp_keys : List (String × String)
arp_keys =
    ("interface", "interface")
    ∷ ("address", "ip_address")
    ∷ ("mac-address", "mac_address")
    ∷ ("dynamic", "dynamic")
    ∷ ("complete", "complete")
    ∷ []

abbrev pub qos_queues_keys : List (String × String)
qos_queues_keys =
    ("name", "name")
    ∷ ("target", "target")
    ∷ ("queue", "queue")
    ∷ ("priority", "priority")
    ∷ ("max-limit", "max_limit")
    ∷ ("disabled", "disabled")
    ∷ ("comment", "comment")
    ∷ []

abbrev pub queue_tree_keys : List (String × String)
queue_tree_keys =
    ("name", "name")
    ∷ ("parent", "parent")
    ∷ ("packet-mark", "packet_mark")
    ∷ ("queue", "queue")
    ∷ ("priority", "priority")
    ∷ ("max-limit", "max_limit")
    ∷ ("disabled", "disabled")
    ∷ ("invalid", "invalid")
    ∷ ("comment", "comment")
    ∷ []

abbrev pub queue_types_keys : List (String × String)
queue_types_keys =
    ("name", "name")
    ∷ ("kind", "kind")
    ∷ ("cake-bandwidth", "cake_bandwidth")
    ∷ ("cake-diffserv", "cake_diffserv")
    ∷ ("cake-flowmode", "cake_flowmode")
    ∷ ("cake-nat", "cake_nat")
    ∷ ("disabled", "disabled")
    ∷ ("comment", "comment")
    ∷ []

abbrev pub wireguard_interfaces_keys : List (String × String)
wireguard_interfaces_keys =
    ("name", "name")
    ∷ ("mtu", "mtu")
    ∷ ("listen-port", "listen_port")
    ∷ ("private-key", "private_key")
    ∷ ("public-key", "public_key")
    ∷ ("disabled", "disabled")
    ∷ ("running", "running")
    ∷ ("comment", "comment")
    ∷ []

abbrev pub wireguard_peers_keys : List (String × String)
wireguard_peers_keys =
    ("interface", "interface")
    ∷ ("public-key", "public_key")
    ∷ ("preshared-key", "preshared_key")
    ∷ ("allowed-address", "allowed_address")
    ∷ ("endpoint-address", "endpoint_address")
    ∷ ("endpoint-port", "endpoint_port")
    ∷ ("persistent-keepalive", "persistent_keepalive")
    ∷ ("last-handshake", "last_handshake")
    ∷ ("disabled", "disabled")
    ∷ ("comment", "comment")
    ∷ []

abbrev pub ip_services_keys : List (String × String)
ip_services_keys =
    ("name", "name")
    ∷ ("port", "port")
    ∷ ("address", "address")
    ∷ ("certificate", "certificate")
    ∷ ("tls-version", "tls_version")
    ∷ ("vrf", "vrf")
    ∷ ("disabled", "disabled")
    ∷ []

abbrev pub dhcp_servers_keys : List (String × String)
dhcp_servers_keys =
    ("name", "name")
    ∷ ("interface", "interface")
    ∷ ("address-pool", "address_pool")
    ∷ ("lease-time", "lease_time")
    ∷ ("disabled", "disabled")
    ∷ ("comment", "comment")
    ∷ []

-- The tables before and after `recent_logs`, in order.
abbrev pub first_tables : Dict (String × List (String × String))
first_tables =
    ("interfaces", ("interfaces", interfaces_keys))
    ∷ ("bridge_ports", ("bridge-ports", bridge_ports_keys))
    ∷ ("bridge_vlans", ("bridge-vlans", bridge_vlans_keys))
    ∷ ("routes", ("routes", routes_keys))
    ∷ ("routing_tables", ("routing-tables", routing_tables_keys))
    ∷ ("routing_rules", ("routing-rules", routing_rules_keys))
    ∷ ("firewall_filter", ("firewall-filter", rule_keys))
    ∷ ("firewall_nat", ("firewall-nat", rule_keys))
    ∷ ("firewall_mangle", ("firewall-mangle", rule_keys))
    ∷ ("address_lists", ("address-lists", address_lists_keys))
    ∷ ("dhcp_leases", ("dhcp-leases", dhcp_leases_keys))
    ∷ ("arp", ("arp", arp_keys))
    ∷ []

abbrev pub last_tables : Dict (String × List (String × String))
last_tables =
    ("qos_queues", ("qos-queues", qos_queues_keys))
    ∷ ("queue_tree", ("queue-tree", queue_tree_keys))
    ∷ ("queue_types", ("queue-types", queue_types_keys))
    ∷ ("wireguard_interfaces", ("wireguard-interfaces", wireguard_interfaces_keys))
    ∷ ("wireguard_peers", ("wireguard-peers", wireguard_peers_keys))
    ∷ ("ip_services", ("ip-services", ip_services_keys))
    ∷ ("dhcp_servers", ("dhcp-servers", dhcp_servers_keys))
    ∷ []
