-- ===== src/Config.antt =====
-- config.py: the device inventory and the policy baseline.
pub mod Laws
pub mod Loaded
use routeros_inspector_mcp.Base.{
  ℕ, String, ◌<>◌, Bool, true, false, not, ◌&&◌, ◌||◌, Option, none, some, List, [], ◌∷◌, ℤ, Dict,
  lookup, insert, contains, string_eq, str_eq, nat_eq, if◌then◌else◌,
}
use routeros_inspector_mcp.Errors.{Result, ok, err, value_error, other_error, ◌>>=◌, ◌>>◌}
use routeros_inspector_mcp.Value.{
  Value, null, bool, int, str, arr, obj, Fields, end, field, truthy, get_or,
}
use routeros_inspector_mcp.Value.Show.{repr, repr_str}

-- `ALLOWED_ROLES`, `ALLOWED_RISKS`, `ALLOWED_TRANSPORTS`
abbrev pub allowed_roles : List String
allowed_roles = "gateway" ∷ "switch" ∷ "ap-controller" ∷ "dhcp-server" ∷ "nat" ∷ "edge" ∷ []

abbrev pub allowed_risks : List String
allowed_risks = "critical" ∷ "high" ∷ "medium" ∷ "low" ∷ []

abbrev pub allowed_transports : List String
allowed_transports = "api" ∷ "ssh" ∷ "fixture" ∷ []

pub record DeviceEntry : Type 0 where
  pub role : String
  pub risk : String
  pub host : String
  pub transport : String
  pub credential_ref : String
  pub allowed : Bool
  pub tags : List String
  pub routeros_api_port : ℕ
  pub routeros_api_tls : Bool
  pub routeros_api_certificate : String
  pub routeros_api_server_name : String

pub record DeviceInventory : Type 0 where
  pub devices : Dict DeviceEntry

unfoldable pub validate_routeros_api_tls : DeviceEntry → Result DeviceEntry
validate_routeros_api_tls entry =
    if entry.routeros_api_tls
    then if not (str_eq entry.transport "api")
      then err (value_error "RouterOS API TLS requires API transport")
      else if not (nat_eq entry.routeros_api_port 8729)
      then err (value_error "RouterOS API TLS requires explicit TCP/8729")
      else if str_eq entry.routeros_api_certificate "" || str_eq entry.routeros_api_server_name ""
      then err (
          value_error "RouterOS API TLS requires a pinned certificate and verified server identity")
      else ok entry
    else if nat_eq entry.routeros_api_port 8729
    then err (value_error "RouterOS API TCP/8729 requires TLS")
    else if not (str_eq entry.routeros_api_certificate "")
        || not (str_eq entry.routeros_api_server_name "")
    then err (value_error "RouterOS TLS certificate/identity require explicit TLS mode")
    else ok entry

-- `value not in allowed` raises on a value that cannot be hashed.
abbrev pub in_set : List String → Value → Result Bool
in_set allowed (str s) = ok (contains allowed s)
in_set allowed (arr vs) = err (other_error "TypeError")
in_set allowed (obj d) = err (other_error "TypeError")
in_set allowed _ = ok false

abbrev pub require_in : List String → String → String → Value → Result (Unit {0})
require_in allowed dev_id what value = do
  known ← in_set allowed value
  if known
      then ok tt
      else err (
          value_error
            ("Device " <> (repr_str dev_id <> (": unknown " <> (what <> (" " <> repr value))))))

abbrev pub fields_of : Value → Result Fields
fields_of (obj d) = ok d
fields_of _ = err (other_error "AttributeError")

-- `parse_entry` is Pydantic's reading of the fields of `DeviceEntry`, with their types, defaults and
-- bounds.
module _ (parse_entry : Fields → Result DeviceEntry) where
  -- The body of the loop of `load_inventory`.
  unfoldable pub load_device : String → Fields → Result DeviceEntry
  unfolding get_or truthy repr repr_str
  load_device dev_id entry = do
    require_in allowed_roles dev_id "role" (get_or entry "role" (str ""))
    require_in allowed_risks dev_id "risk" (get_or entry "risk" (str ""))
    require_in allowed_transports dev_id "transport" (get_or entry "transport" (str ""))
    if truthy (get_or entry "host" null)
        then (do e ← parse_entry entry; validate_routeros_api_tls e)
        else err (value_error ("Device " <> (repr_str dev_id <> ": missing host")))

  unfoldable pub load_devices : Fields → Dict DeviceEntry → Result (Dict DeviceEntry)
  load_devices end devices = ok devices
  load_devices (field dev_id raw rest) devices = do
    entry ← fields_of raw
    device ← load_device dev_id entry
    load_devices rest (insert dev_id device devices)

  -- `raw` is what the YAML file holds; a file that holds nothing counts as an empty dict.
  unfoldable pub load_inventory : Value → Result DeviceInventory
  unfolding load_devices load_device insert
  load_inventory raw = do
    top ← fields_of (if truthy raw then raw else obj end)
    devices_raw ← fields_of (get_or top "devices" (obj end))
    devices ← load_devices devices_raw []
    ok (record { devices = devices })

pub record SnmpPolicy : Type 0 where
  pub allowed_communities : List String
  pub allowed_access : List String
  pub community_policy : String

pub record VlanPolicy : Type 0 where
  pub expected_vlans : Dict (List ℤ)
  pub expected_trunks : Dict (Dict (List ℤ))

pub record FailoverPolicy : Type 0 where
  pub primary : String
  pub secondary : String

-- `PolicyBaseline`; a section with one field is that field.
pub record PolicyBaseline : Type 0 where
  pub firmware_expected_versions : Dict String
  pub snmp : SnmpPolicy
  pub stp_edge_ports : Dict (List String)
  pub vlans : VlanPolicy
  pub routes_owned_prefixes : Dict (List String)
  pub wan_failover : FailoverPolicy
  pub dns_encrypted : Bool

-- `PolicyBaseline(**raw)`, where `parse_policy` is Pydantic's reading of the fields.
abbrev pub policy_of : (Fields → Result PolicyBaseline) → Value → Result PolicyBaseline
policy_of parse_policy (obj d) = parse_policy d
policy_of parse_policy _ = err (other_error "TypeError")

-- The file at the path, if there is one, holds `raw`.
unfoldable pub load_policy :
    (Fields → Result PolicyBaseline) → Option Value → Result (Option PolicyBaseline)
unfolding truthy
load_policy parse_policy none = ok none
load_policy parse_policy (some raw) = do
  policy ← policy_of parse_policy (if truthy raw then raw else obj end)
  ok (some policy)
