-- ===== src/Refresh.antt =====
-- scripts/refresh_routeros_fixture.py: a fixture is built from the artifacts of a capture, with secrets
-- taken out. The capture itself and the writing of the file are in Refresh/Capture.
mod Redact
pub mod Tables
pub mod Laws
pub mod Served
pub mod Capture
use Prim.Native.String.{[] as stop, ◌∷◌ as ◌◂◌}
use routeros_inspector_mcp.Base.{
  ℕ, String, ◌<>◌, Char, code, Bool, true, false, not, ◌&&◌, ◌||◌, Option, none, some, List, [],
  ◌∷◌, ◌++◌, contains, string_eq, str_eq, if◌then◌else◌, map, Dict,
}
use routeros_inspector_mcp.Errors.{Result, ok, err, other_error, ◌>>=◌}
use routeros_inspector_mcp.Text.{
  between, is_digit, lower, dash_to_underscore, ends_with, first_word,
}
use routeros_inspector_mcp.Value.{
  Value, null, bool, int, str, arr, obj, Items, nil, cons, Fields, end, field, truthy, get?, get_or,
  to_items,
}
use routeros_inspector_mcp.Value.Show.{py_str}
use routeros_inspector_mcp.Config.{in_set}
use routeros_inspector_mcp.Redaction.{redacted}
use routeros_inspector_mcp.Redaction.Pattern.{Piece, boundary, repeat, one, is_char, sub}
use Tables.{first_tables, last_tables}
unfoldable pub use Redact.*

-- An artifact of the capture: absent, not JSON, JSON that is no list, or the rows of a table.
pub data Artifact : Type 0 where
  missing malformed no_list : Artifact
  table : List Fields → Artifact

abbrev pub read_artifact : Artifact → Result (List Fields)
read_artifact missing = err (other_error "FileNotFoundError")
read_artifact malformed = err (other_error "JSONDecodeError")
read_artifact no_list = err (other_error "TypeError")
read_artifact (table rows) = ok rows

-- The artifacts of a device, by their suffix.
abbrev pub Artifacts : Type 0
Artifacts = String → Artifact

unfoldable pub load_json_artifact : Artifacts → String → Result (List Fields)
load_json_artifact artifacts suffix = read_artifact (artifacts suffix)

abbrev first_row : List Fields → Fields
first_row [] = end
first_row (row ∷ rows) = row

unfoldable pub first : Artifacts → String → Result Fields
unfolding load_json_artifact
first artifacts suffix = do rows ← load_json_artifact artifacts suffix; ok (first_row rows)

-- The new names of a table are different from one another.
unfoldable pub pick : Fields → List (String × String) → Fields
unfolding get?
pick row [] = end
pick row ((source, target) ∷ names) =
    let rest = pick row names in
    elim (get? source row) [ none ↦ rest | some v ↦ field target (redact v) rest ]

abbrev pub pick_rows : List (String × String) → List Fields → Items
pick_rows names [] = nil
pick_rows names (row ∷ rows) = cons (obj (pick row names)) (pick_rows names rows)

-- The tables, in front of the fields that follow them.
unfoldable pub load_tables :
    Artifacts → Dict (String × List (String × String)) → Result (List (String × Value))
unfolding load_json_artifact pick
load_tables artifacts [] = ok []
load_tables artifacts ((name, (suffix, names)) ∷ tables) = do
  rows ← load_json_artifact artifacts suffix
  rest ← load_tables artifacts tables
  ok ((name, arr (pick_rows names rows)) ∷ rest)

abbrev pub fields_onto : List (String × Value) → Fields → Fields
fields_onto [] rest = rest
fields_onto ((k, v) ∷ kvs) rest = field k v (fields_onto kvs rest)

-- `a or b`
abbrev or_value : Value → Value → Value
or_value v w = if truthy v then v else w

unfoldable pub backup_row : Fields → Result Items
unfolding get_or truthy py_str ends_with
backup_row row = do
  let name = py_str (get_or row "name" (str ""))
  known ← in_set ("backup" ∷ "script" ∷ []) (get_or row "type" null)
  ok (
      if known || ends_with name ".backup" || ends_with name ".rsc"
      then cons
          (obj (
            field "name" (str name) (
              field "size" (str (py_str (get_or row "size" (str "")))) (
                field "created"
                  (or_value (get_or row "creation-time" null) (get_or row "last-modified" (str "")))
                  (field "type" (get_or row "type" null) end)))))
          nil
      else nil)

abbrev append_items : Items → Items → Items
append_items nil ws = ws
append_items (cons v vs) ws = cons v (append_items vs ws)

unfoldable pub backup_rows : List Fields → Result Items
unfolding backup_row
backup_rows [] = ok nil
backup_rows (row ∷ rows) = do
  kept ← backup_row row
  rest ← backup_rows rows
  ok (append_items kept rest)

-- `str(resource.get("version", "")).split()[0]`
unfoldable pub version_of : Fields → Result String
unfolding get_or py_str first_word
version_of resource = elim (first_word (py_str (get_or resource "version" (str "")))) [
  | none ↦ err (other_error "IndexError")
  | some word ↦ ok word
]

abbrev redactions : List String
redactions =
    "mac_addresses" ∷ "serial_numbers" ∷ "snmp_community" ∷ "snmp_authentication"
    ∷ "snmp_encryption" ∷ "wireguard_keys" ∷ "routeros_service_certificates" ∷ []

-- `_provenance`
abbrev provenance : String → String → String → Value
provenance artifact_dir device_id today = obj (
    field "source" (str "private read-only RouterOS capture via operator-supplied wrapper") (
      field "artifact_dir" (str artifact_dir) (
        field "source_note" (str (device_id <> " live capture")) (
          field "last_verified" (str today) (
            field "sanitized" (bool true)
              (field "redactions" (arr (to_items (map str redactions))) end))))))

abbrev system_summary : String → Fields → Fields → Fields → String → Value
system_summary device_id resource identity routerboard version = obj (
    field "name" (get_or identity "name" (str device_id)) (
      field "device_id_hint" (str device_id) (
        field "uptime" (get_or resource "uptime" (str "")) (
          field "version" (str version) (
            field "model"
              (or_value (get_or routerboard "model" null) (get_or resource "board-name" (str "")))
              (field "board" (get_or resource "board-name" (str "")) (
                field "cpu" (get_or resource "cpu" (str "")) (
                  field "memory_total" (get_or resource "total-memory" null)
                    (field "memory_free" (get_or resource "free-memory" null) end)))))))))

abbrev dns_config : Fields → Value
dns_config dns = obj (
    field "servers" (get_or dns "servers" (str "")) (
      field "use_dns_servers" (bool (truthy (get_or dns "servers" null))) (
        field "allow_remote_requests" (get_or dns "allow-remote-requests" (bool false)) (
          field "dns_over_https"
            (str (if truthy (get_or dns "use-doh-server" null) then "on" else "off"))
            (field "dnssec" (get_or dns "verify-doh-cert" (bool false)) end)))))

abbrev snmp_config : Fields → Fields → Value
snmp_config snmp snmp_community = obj (
    field "enabled" (get_or snmp "enabled" (bool false)) (
      field "community" (str redacted) (
        field "community_redacted" (bool true) (
          field "allowed_addresses" (get_or snmp_community "addresses" (str "")) (
            field "read_access" (get_or snmp_community "read-access" (bool false))
              (field "write_access" (get_or snmp_community "write-access" (bool false)) end))))))

-- `artifact_dir` and `today` are the texts that the provenance quotes.
unfoldable pub build_fixture : Artifacts → String → String → String → Result Value
unfolding first load_json_artifact load_tables backup_rows version_of get_or truthy
build_fixture artifacts artifact_dir device_id today = do
  resource ← first artifacts "system-resource"
  identity ← first artifacts "system-identity"
  routerboard ← first artifacts "system-routerboard"
  dns ← first artifacts "dns-config"
  snmp ← first artifacts "snmp-config"
  snmp_community ← first artifacts "snmp-community"
  backups ← load_json_artifact artifacts "backup-info"
  backup_info ← backup_rows backups
  version ← version_of resource
  before ← load_tables artifacts first_tables
  after ← load_tables artifacts last_tables
  ok (
      redact (
        obj (
          field "_provenance" (provenance artifact_dir device_id today) (
            field "system_summary" (system_summary device_id resource identity routerboard version)
              (fields_onto before (
                field "recent_logs" (arr nil) (
                  fields_onto after (
                    field "backup_info" (arr backup_info) (
                      field "dns_config" (dns_config dns) (
                        field "firmware_version" (str version)
                          (field "snmp_config" (snmp_config snmp snmp_community) end)))))))))))
