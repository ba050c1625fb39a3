-- ===== src/Backend/Live.antt =====
-- backends/routeros_api.py: device data over the RouterOS API. The library librouteros and the files of
-- certificates are parameters; what a method does to its connections is kept as a list of events.
mod Library
mod Rows
mod Calls
pub mod Connection
pub mod Session
pub mod Logs
pub mod Failures
use Prim.Native.String.{[] as stop, ◌∷◌ as ◌◂◌}
use routeros_inspector_mcp.Base.{
  ℕ, zero, suc, ◌-◌, String, ◌<>◌, Char, code, Bool, true, false, not, ◌&&◌, ◌||◌, Option, none,
  some, List, [], ◌∷◌, ◌++◌, ℤ, pos, Dict, lookup, contains, string_eq, length, any, select, nat_eq,
  str_eq, if◌then◌else◌,
}
use routeros_inspector_mcp.Errors.{
  Exn, backend_error, service_error, value_error, credential_error, other_error, Result, ok, err,
}
use routeros_inspector_mcp.Text.{split_on, has_part, ends_with, show_nat}
use routeros_inspector_mcp.Value.{
  Value, null, bool, int, str, arr, obj, Items, nil, cons, Fields, end, field, truthy, get_or, put,
  merge, to_items, of_items, is_none, is_str,
}
use routeros_inspector_mcp.Value.Show.{repr_str}
use routeros_inspector_mcp.Config.{DeviceEntry}
use routeros_inspector_mcp.Credentials.{Credentials}
use routeros_inspector_mcp.Backend.{Backend}
use routeros_inspector_mcp.Backend.Fixture.{accepts}
pub use Library.*
unfoldable pub use Rows.*
unfoldable pub use Calls.*

-- How a method asks the device.
pub data Query : Type 0 where
  many single : List String → Query
  system_summary recent_logs backup_info firmware_version snmp_config : Query

-- The methods, with the paths that they print.
abbrev pub live_methods : Dict Query
live_methods =
    ("get_system_summary", system_summary)
    ∷ ("get_interfaces", many ("interface" ∷ []))
    ∷ ("get_bridge_ports", many ("interface" ∷ "bridge" ∷ "port" ∷ []))
    ∷ ("get_bridge_vlans", many ("interface" ∷ "bridge" ∷ "vlan" ∷ []))
    ∷ ("get_routes", many ("ip" ∷ "route" ∷ []))
    ∷ ("get_routing_tables", many ("ip" ∷ "routing" ∷ "table" ∷ []))
    ∷ ("get_routing_rules", many ("ip" ∷ "routing" ∷ "rule" ∷ []))
    ∷ ("get_firewall_filter", many ("ip" ∷ "firewall" ∷ "filter" ∷ []))
    ∷ ("get_firewall_nat", many ("ip" ∷ "firewall" ∷ "nat" ∷ []))
    ∷ ("get_firewall_mangle", many ("ip" ∷ "firewall" ∷ "mangle" ∷ []))
    ∷ ("get_address_lists", many ("ip" ∷ "firewall" ∷ "address-list" ∷ []))
    ∷ ("get_dhcp_leases", many ("ip" ∷ "dhcp" ∷ "lease" ∷ []))
    ∷ ("get_arp", many ("ip" ∷ "arp" ∷ []))
    ∷ ("get_recent_logs", recent_logs)
    ∷ ("get_qos_queues", many ("queue" ∷ "simple" ∷ []))
    ∷ ("get_queue_tree", many ("queue" ∷ "tree" ∷ []))
    ∷ ("get_queue_types", many ("queue" ∷ "type" ∷ []))
    ∷ ("get_wireguard_interfaces", many ("interface" ∷ "wireguard" ∷ []))
    ∷ ("get_wireguard_peers", many ("interface" ∷ "wireguard" ∷ "peers" ∷ []))
    ∷ ("get_ip_services", many ("ip" ∷ "service" ∷ []))
    ∷ ("get_dhcp_servers", many ("ip" ∷ "dhcp" ∷ "server" ∷ []))
    ∷ ("get_backup_info", backup_info)
    ∷ ("get_dns_config", single ("ip" ∷ "dns" ∷ []))
    ∷ ("get_firmware_version", firmware_version)
    ∷ ("get_snmp_config", snmp_config)
    ∷ []

module _ (client : Client) (resolve : String → Result Credentials)
    (devices : Dict DeviceEntry) where
  unfoldable pub get_system_summary : String → Action Value
  unfolding query_single get_or
  get_system_summary device_id = do
    raw ← query_single client resolve devices device_id ("system" ∷ "resource" ∷ [])
    pure (ok (obj (summary_of raw)))

  unfoldable pub get_recent_logs : String → Value → Value → Action Value
  unfolding query truthy matching_logs is_none strings_of
  get_recent_logs device_id minutes topics = do
    found ← query client resolve devices device_id ("log" ∷ [])
    let all_logs = if is_none minutes then found else last_entries 500 found
    if truthy topics
        then (do
          names ← pure (topic_names topics)
          logs ← pure (matching_logs names all_logs)
          pure (ok (arr (dict_items logs))))
        else pure (ok (arr (dict_items all_logs)))

  unfoldable pub get_backup_info : String → Action Value
  unfolding query backup_files
  get_backup_info device_id = do
    files ← query client resolve devices device_id ("file" ∷ [])
    kept ← pure (backup_files files)
    pure (ok (arr (dict_items kept)))

  unfoldable pub get_firmware_version : String → Action Value
  unfolding query_single get_or
  get_firmware_version device_id = do
    raw ← query_single client resolve devices device_id ("system" ∷ "resource" ∷ [])
    pure (ok (get_or raw "version" (str "unknown")))

  unfoldable pub get_snmp_config : String → Action Value
  unfolding query_single query merge put
  get_snmp_config device_id = do
    main ← query_single client resolve devices device_id ("snmp" ∷ [])
    communities ← query client resolve devices device_id ("snmp" ∷ "community" ∷ [])
    pure (ok (obj (merge main (field "communities" (arr (dict_items communities)) end))))

  unfoldable pub run_query : Query → String → Fields → Action Value
  unfolding get_system_summary get_recent_logs get_backup_info get_firmware_version get_snmp_config
      query query_single get_or
  run_query (many path) device_id kwargs' = do
    found ← query client resolve devices device_id path
    pure (ok (arr (dict_items found)))
  run_query (single path) device_id kwargs' = do
    found ← query_single client resolve devices device_id path
    pure (ok (obj found))
  run_query system_summary device_id kwargs' = get_system_summary device_id
  run_query recent_logs device_id kwargs' =
      get_recent_logs device_id (get_or kwargs' "minutes" (int (pos 60)))
        (get_or kwargs' "topics" null)
  run_query backup_info device_id kwargs' = get_backup_info device_id
  run_query firmware_version device_id kwargs' = get_firmware_version device_id
  run_query snmp_config device_id kwargs' = get_snmp_config device_id

  abbrev pub asked : Option Query → String → Fields → Action Value
  asked none device_id kwargs' = pure (err (other_error "AttributeError"))
  asked (some q) device_id kwargs' = run_query q device_id kwargs'

  unfoldable pub live_call : String → String → Fields → Action Value
  unfolding run_query lookup
  live_call method device_id kwargs' =
      if accepts method kwargs'
      then asked (lookup method live_methods) device_id kwargs'
      else pure (err (other_error "TypeError"))

  -- `RouterOSAPIBackend`
  unfoldable pub live_backend : Backend
  unfolding live_call
  live_backend = record {
    call = λ method device_id kwargs'. (live_call method device_id kwargs').0;
  }
