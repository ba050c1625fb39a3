-- ===== src/Backend/Fixture.antt =====
-- backends/fixture.py: device data from JSON files.
pub mod Laws
use routeros_inspector_mcp.Base.{
  String, Bool, true, false, ◌&&◌, ◌||◌, Option, none, some, List, [], ◌∷◌, Dict, lookup, contains,
  string_eq, str_eq, if◌then◌else◌,
}
use routeros_inspector_mcp.Errors.{Result, ok, err, other_error, ◌>>=◌}
use routeros_inspector_mcp.Value.{
  Value, null, bool, int, str, arr, obj, nil, cons, Fields, end, field, truthy, get_or,
}
use routeros_inspector_mcp.Value.Show.{py_str}
use routeros_inspector_mcp.Backend.{Backend}

-- The file `<device_id>.json`: absent, not JSON, or a document.
pub data FileState : Type 0 where
  missing : FileState
  malformed : FileState
  document : Value → FileState

abbrev pub FixtureDir : Type 0
FixtureDir = String → FileState

abbrev load_file : FileState → String → Result Value
load_file missing key = ok (obj end)
load_file malformed key = err (other_error "JSONDecodeError")
load_file (document (obj d)) key = ok (get_or d key (obj end))
load_file (document v) key = err (other_error "AttributeError")

unfoldable pub load : FixtureDir → String → String → Result Value
unfolding get_or
load dir device_id key = load_file (dir device_id) key

abbrev pub as_list : Value → Value
as_list (arr vs) = arr vs
as_list (obj end) = arr nil
as_list (obj (field k v d)) = arr (cons (obj (field k v d)) nil)
as_list _ = arr nil

unfoldable pub load_list : FixtureDir → String → String → Result Value
unfolding load
load_list dir device_id key = do v ← load dir device_id key; ok (as_list v)

abbrev pub as_str : String → Value → Value
as_str default (str s) = str s
as_str default (int i) = str (py_str (int i))
as_str default (bool b) = str (py_str (bool b))
as_str default _ = str default

unfoldable pub load_str : FixtureDir → String → String → String → Result Value
unfolding load py_str
load_str dir device_id key default = do v ← load dir device_id key; ok (as_str default v)

-- `self._load(...) or {}`
unfoldable pub load_dict : FixtureDir → String → String → Result Value
unfolding load truthy
load_dict dir device_id key = do v ← load dir device_id key; ok (if truthy v then v else obj end)

pub data Shape : Type 0 where
  a_list a_dict a_str : Shape

-- Each method with the key that it reads and the shape that it returns.
abbrev pub fixture_methods : Dict (String × Shape)
fixture_methods =
    ("get_system_summary", ("system_summary", a_dict))
    ∷ ("get_interfaces", ("interfaces", a_list))
    ∷ ("get_bridge_ports", ("bridge_ports", a_list))
    ∷ ("get_bridge_vlans", ("bridge_vlans", a_list))
    ∷ ("get_routes", ("routes", a_list))
    ∷ ("get_routing_tables", ("routing_tables", a_list))
    ∷ ("get_routing_rules", ("routing_rules", a_list))
    ∷ ("get_firewall_filter", ("firewall_filter", a_list))
    ∷ ("get_firewall_nat", ("firewall_nat", a_list))
    ∷ ("get_firewall_mangle", ("firewall_mangle", a_list))
    ∷ ("get_address_lists", ("address_lists", a_list))
    ∷ ("get_dhcp_leases", ("dhcp_leases", a_list))
    ∷ ("get_arp", ("arp", a_list))
    ∷ ("get_recent_logs", ("recent_logs", a_list))
    ∷ ("get_qos_queues", ("qos_queues", a_list))
    ∷ ("get_queue_tree", ("queue_tree", a_list))
    ∷ ("get_queue_types", ("queue_types", a_list))
    ∷ ("get_wireguard_interfaces", ("wireguard_interfaces", a_list))
    ∷ ("get_wireguard_peers", ("wireguard_peers", a_list))
    ∷ ("get_ip_services", ("ip_services", a_list))
    ∷ ("get_dhcp_servers", ("dhcp_servers", a_list))
    ∷ ("get_backup_info", ("backup_info", a_list))
    ∷ ("get_dns_config", ("dns_config", a_dict))
    ∷ ("get_firmware_version", ("firmware_version", a_str))
    ∷ ("get_snmp_config", ("snmp_config", a_dict))
    ∷ []

unfoldable pub load_shape : FixtureDir → String → String → Shape → Result Value
unfolding load_list load_dict load_str
load_shape dir device_id key a_list = load_list dir device_id key
load_shape dir device_id key a_dict = load_dict dir device_id key
load_shape dir device_id key a_str = load_str dir device_id key "unknown"

-- Only `get_recent_logs` takes keyword arguments, and it ignores them.
abbrev pub accepts : String → Fields → Bool
accepts method end = true
accepts method (field k v kwargs) =
    str_eq method "get_recent_logs"
    && (str_eq k "minutes" || str_eq k "topics")
    && accepts method kwargs

unfoldable pub fixture_call : FixtureDir → String → String → Fields → Result Value
fixture_call dir method device_id kwargs =
    if accepts method kwargs
    then (elim (lookup method fixture_methods) [
      | none ↦ err (other_error "AttributeError")
      | some (key, shape) ↦ load_shape dir device_id key shape
    ])
    else err (other_error "TypeError")

unfoldable pub fixture_backend : FixtureDir → Backend
unfolding fixture_call load_shape lookup
fixture_backend dir = record { call = fixture_call dir }
