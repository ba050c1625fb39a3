-- ===== src/Tests/Data.antt =====
-- A fleet of a gateway and a switch, its fixture files and its policy.
use routeros_inspector_mcp.Base.{
  String, Bool, true, false, some, [], ◌∷◌, pos, str_eq, if◌then◌else◌,
}
use routeros_inspector_mcp.Value.{Value, bool, int, str, arr, obj, nil, cons, Fields, end, field}
use routeros_inspector_mcp.Config.{DeviceEntry, DeviceInventory, PolicyBaseline}
use routeros_inspector_mcp.Backend.Fixture.{FixtureDir, FileState, document, fixture_backend}
use routeros_inspector_mcp.Service.{Service}

abbrev pub entry : String → Bool → DeviceEntry
entry role allowed = record {
  role = role;
  risk = "low";
  host = "host";
  transport = "api";
  credential_ref = "ref";
  allowed = allowed;
  tags = "dual-wan" ∷ [];
  routeros_api_port = 8728;
  routeros_api_tls = false;
  routeros_api_certificate = "";
  routeros_api_server_name = "";
}

abbrev pub inventory : DeviceInventory
inventory = record {
  devices =
      ("gw", entry "gateway" true) ∷ ("sw", entry "switch" true) ∷ ("old", entry "nat" false) ∷ [];
}

abbrev pub vlan_row : Fields
vlan_row = field "vlan_ids" (str "1,10,20") (field "tagged" (str "up1") end)

abbrev pub port_row : Fields
port_row = field "interface" (str "up1") (field "pvid" (int (pos 1)) end)

abbrev pub route_row : Fields
route_row = field "dst_address" (str "0.0.0.0/0") (field "gateway" (str "wan") end)

abbrev pub mangle_row : Fields
mangle_row =
    field "chain" (str "forward")
      (field "comment" (str "mark voice") (field "new_packet_mark" (str "voice") end))

abbrev pub queue_row : Fields
queue_row =
    field "name" (str "up") (field "max_limit" (str "10M") (field "packet_mark" (str "voice") end))

abbrev pub dns_row : Fields
dns_row = field "use_dns_servers" (bool true) (field "dns_over_https" (str "on") end)

abbrev pub snmp_row : Fields
snmp_row = field "allowed_addresses" (str "lan,wan") (field "contact" (str "ops") end)

abbrev pub one_row : Fields → Value
one_row d = arr (cons (obj d) nil)

abbrev pub backup_row : Fields
backup_row = field "name" (str "daily") (field "created" (str "2026-01-02") end)

abbrev pub two_backups : Value
two_backups = arr (cons (obj backup_row) (cons (obj backup_row) nil))

abbrev pub gw_file : Fields
gw_file = field "bridge_vlans" (one_row vlan_row) (
    field "bridge_ports" (one_row port_row) (
      field "routes" (one_row route_row) (
        field "firewall_mangle" (one_row mangle_row) (
          field "qos_queues" (one_row queue_row) (
            field "dns_config" (obj dns_row) (
              field "snmp_config" (obj snmp_row) (
                field "firmware_version" (str "7.15.3") (field "backup_info" two_backups end))))))))

abbrev pub dir : FixtureDir
dir device_id = if str_eq device_id "gw" then document (obj gw_file) else FileState.missing

abbrev pub policy : PolicyBaseline
policy = record {
  firmware_expected_versions = ("gw", "7.15") ∷ [];
  snmp = record {
    allowed_communities = [];
    allowed_access = "lan" ∷ [];
    community_policy = "secret_store";
  };
  stp_edge_ports = ("gw", "up1" ∷ []) ∷ [];
  vlans = record {
    expected_vlans = ("gw", pos 10 ∷ pos 20 ∷ []) ∷ [];
    expected_trunks = ("gw", ("up1", pos 10 ∷ []) ∷ []) ∷ [];
  };
  routes_owned_prefixes = ("gw", "0.0.0.0/0" ∷ []) ∷ [];
  wan_failover = record { primary = "wan"; secondary = "wan2" };
  dns_encrypted = true;
}

-- The fleet in fixture mode.
abbrev pub fleet : Service
fleet = record {
  inventory = inventory;
  backends = ("fixture", fixture_backend dir) ∷ [];
  policy = some policy;
  transport_override = some "fixture";
}
