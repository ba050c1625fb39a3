-- ===== src/Server/Tools.antt =====
-- server.py: the tools, each with its entry in the audit log, and the start of the server. How the MCP
-- library checks and carries a call is not modelled.
pub mod Recorded
use routeros_inspector_mcp.Base.{
  ℕ, String, Bool, true, false, not, ◌&&◌, Option, none, some, List, [], ◌∷◌, ℤ, length, Dict, keys,
  sorted, str_eq, if◌then◌else◌,
}
use routeros_inspector_mcp.Errors.{Exn, Result, ok, err, other_error, ◌>>=◌}
use routeros_inspector_mcp.Value.{Value}
use routeros_inspector_mcp.Config.{DeviceInventory, PolicyBaseline}
use routeros_inspector_mcp.Backend.{Backend}
use routeros_inspector_mcp.Service.{Service, from_config}
use routeros_inspector_mcp.Service.Collectors.{
  get_recent_logs, get_device_summary, get_interfaces, get_bridge_ports, get_bridge_vlans,
  get_routes, get_firewall_filter, get_firewall_nat, get_firewall_mangle, get_address_lists,
  get_dhcp_leases, get_arp, get_routing_tables, get_routing_rules, get_queue_tree, get_queue_types,
  get_wireguard_interfaces, get_wireguard_peers, get_ip_services, get_dhcp_servers,
}
use routeros_inspector_mcp.Service.Fleet.{DeviceRow, list_devices}
use routeros_inspector_mcp.AuditLog.{LogFile, Ticket, track}
use routeros_inspector_mcp.Server.{
  AuditFn, AuditRow, max_audit_fanout, checked, run_on_devices, requested_devices,
}

-- The tools that take a device alone.
pub data DeviceTool : Type 0 where
  device_summary interfaces bridge_ports bridge_vlans routes firewall_filter firewall_nat
        firewall_mangle address_lists dhcp_leases arp routing_tables routing_rules queue_tree
        queue_types wireguard_interfaces wireguard_peers ip_services dhcp_servers :
      DeviceTool

abbrev pub tool_name : DeviceTool → String
tool_name device_summary = "get_device_summary"
tool_name interfaces = "get_interfaces"
tool_name bridge_ports = "get_bridge_ports"
tool_name bridge_vlans = "get_bridge_vlans"
tool_name routes = "get_routes"
tool_name firewall_filter = "get_firewall_filter"
tool_name firewall_nat = "get_firewall_nat"
tool_name firewall_mangle = "get_firewall_mangle"
tool_name address_lists = "get_address_lists"
tool_name dhcp_leases = "get_dhcp_leases"
tool_name arp = "get_arp"
tool_name routing_tables = "get_routing_tables"
tool_name routing_rules = "get_routing_rules"
tool_name queue_tree = "get_queue_tree"
tool_name queue_types = "get_queue_types"
tool_name wireguard_interfaces = "get_wireguard_interfaces"
tool_name wireguard_peers = "get_wireguard_peers"
tool_name ip_services = "get_ip_services"
tool_name dhcp_servers = "get_dhcp_servers"

-- The method of the service that a tool calls.
unfoldable pub collect : DeviceTool → Service → String → Result Value
collect device_summary = get_device_summary
collect interfaces = get_interfaces
collect bridge_ports = get_bridge_ports
collect bridge_vlans = get_bridge_vlans
collect routes = get_routes
collect firewall_filter = get_firewall_filter
collect firewall_nat = get_firewall_nat
collect firewall_mangle = get_firewall_mangle
collect address_lists = get_address_lists
collect dhcp_leases = get_dhcp_leases
collect arp = get_arp
collect routing_tables = get_routing_tables
collect routing_rules = get_routing_rules
collect queue_tree = get_queue_tree
collect queue_types = get_queue_types
collect wireguard_interfaces = get_wireguard_interfaces
collect wireguard_peers = get_wireguard_peers
collect ip_services = get_ip_services
collect dhcp_servers = get_dhcp_servers

-- `__version__`
abbrev pub version : String
version = "0.3.0"

abbrev pub collectors : List String
collectors =
    "get_device_summary" ∷ "get_interfaces" ∷ "get_bridge_ports" ∷ "get_bridge_vlans" ∷ "get_routes"
    ∷ "get_firewall_filter" ∷ "get_firewall_nat" ∷ "get_firewall_mangle" ∷ "get_address_lists"
    ∷ "get_dhcp_leases" ∷ "get_arp" ∷ "get_recent_logs" ∷ "get_routing_tables" ∷ "get_routing_rules"
    ∷ "get_queue_tree" ∷ "get_queue_types" ∷ "get_wireguard_interfaces" ∷ "get_wireguard_peers"
    ∷ "get_ip_services" ∷ "get_dhcp_servers" ∷ []

pub record Capabilities : Type 0 where
  pub version : String
  pub mode : String
  pub devices_count : ℕ
  pub max_audit_fanout : ℕ
  pub collectors : List String
  pub audits : List String

-- What a client asks of the server, and what it is answered.
pub data ToolCall : Type 0 where
  capabilities : ToolCall
  devices : ToolCall
  device : DeviceTool → String → ToolCall
  recent_logs : String → ℤ → Option (List String) → ToolCall
  all_audits : ToolCall
  run : Option (List String) → Option (List String) → ToolCall

pub data Answer : Type 0 where
  capabilities_answer : Capabilities → Answer
  devices_answer : List DeviceRow → Answer
  value_answer : Value → Answer
  audits_answer : List String → Answer
  rows_answer : List AuditRow → Answer

abbrev pub answer {ℓ} : {A : Type ℓ} → (A → Answer) → Result A → Result Answer
answer f (ok a) = ok (f a)
answer f (err e) = err e

module _ (registry : Dict AuditFn) (s : Service) where
  unfoldable pub get_capabilities : Capabilities
  unfolding keys
  get_capabilities = record {
    version = version;
    mode = "read-only";
    devices_count = length s.inventory.devices;
    max_audit_fanout = max_audit_fanout;
    collectors = collectors;
    audits = keys registry;
  }

  unfoldable pub list_audits : List String
  unfolding sorted keys
  list_audits = sorted (keys registry)

  -- The tool `run_audit`: its checks come before the log is touched.
  unfoldable pub run_audit_tool :
      Ticket → Option (List String) → Option (List String) → LogFile → Result Answer × LogFile
  run_audit_tool ticket audits device_ids file =
      checked registry s audits device_ids (λ e. (err e, file))
        λ targets audit_names.
          track ticket "run_audit" (some targets)
            (answer rows_answer (run_on_devices registry s targets audit_names)) file

  unfoldable pub call_tool : Ticket → ToolCall → LogFile → Result Answer × LogFile
  unfolding get_capabilities list_audits
  call_tool ticket capabilities file = (ok (capabilities_answer get_capabilities), file)
  call_tool ticket all_audits file = (ok (audits_answer list_audits), file)
  call_tool ticket devices file =
      track ticket "list_devices" none (ok (devices_answer (list_devices s))) file
  call_tool ticket (device tool dev_id) file =
      track ticket (tool_name tool) (some (dev_id ∷ []))
        (answer value_answer (collect tool s dev_id)) file
  call_tool ticket (recent_logs dev_id minutes topics) file =
      track ticket "get_recent_logs" (some (dev_id ∷ []))
        (answer value_answer (get_recent_logs s dev_id minutes topics)) file
  call_tool ticket (run audit_names device_ids) file =
      run_audit_tool ticket audit_names device_ids file

-- `choices` of `--transport`
pub data Transport : Type 0 where
  stdio http streamable_http : Transport

abbrev pub is_network : Transport → Bool
is_network stdio = false
is_network http = true
is_network streamable_http = true

-- `create_server` on what the loaders return.
unfoldable pub create_server :
    DeviceInventory → Backend → Option Backend → Option PolicyBaseline → Bool → Service
unfolding from_config
create_server inventory fixture live policy fixture_only =
    from_config inventory fixture live policy (if fixture_only then some "fixture" else none)

-- How the server is run: the service that its tools use, the transport, and the address that it binds.
pub record Launch : Type 0 where
  pub service : Service
  pub transport : Transport
  pub host : Option String

-- `main` after argparse; `parser.error` exits.
unfoldable pub main :
    DeviceInventory
    → Backend
    → Option Backend
    → Option PolicyBaseline
    → Transport
    → Bool
    → Bool
    → Result Launch
unfolding create_server
main inventory fixture live policy transport live_flag allow_loopback_http =
    if is_network transport && not allow_loopback_http
    then err (other_error "SystemExit")
    else ok (record {
      service = create_server inventory fixture live policy (not live_flag);
      transport = transport;
      host = if is_network transport then some "127.0.0.1" else none;
    })
