-- ===== src/Service.antt =====
-- service.py: devices are checked, routed to a backend, and what comes back is redacted. The lines
-- that the service writes to its diagnostic logger are not modelled.
pub mod Collectors
pub mod Fleet
pub mod Access
use routeros_inspector_mcp.Base.{
  ℕ, String, ◌<>◌, Bool, true, false, not, Option, none, some, List, [], ◌∷◌, map, Dict, lookup,
  insert, keys, length, contains, is_empty, string_eq, str_eq, if◌then◌else◌,
}
use routeros_inspector_mcp.Errors.{
  Exn, service_error, value_error, other_error, Result, ok, err, ◌>>=◌, ◌>>◌,
}
use routeros_inspector_mcp.Value.{
  Value, null, bool, int, str, arr, obj, Fields, end, field, truthy, get_or, put, merge, to_items,
}
use routeros_inspector_mcp.Value.Show.{repr, repr_str}
use routeros_inspector_mcp.Redaction.{redact, safe_error_label}
use routeros_inspector_mcp.Registry.{Operation, get_operation}
use routeros_inspector_mcp.Config.{DeviceEntry, DeviceInventory, PolicyBaseline}
use routeros_inspector_mcp.Backend.{Backend}

pub record Service : Type 0 where
  pub inventory : DeviceInventory
  pub backends : Dict Backend
  pub policy : Option PolicyBaseline
  pub transport_override : Option String

abbrev is_fixture : Option String → Bool
is_fixture none = false
is_fixture (some t) = str_eq t "fixture"

-- `backends["api"] = live`, if the library of the live backend is installed.
abbrev with_live : Option Backend → Dict Backend → Dict Backend
with_live none backends = backends
with_live (some b) backends = insert "api" b backends

-- `Service.from_config` on what the loaders return.
unfoldable pub from_config :
    DeviceInventory → Backend → Option Backend → Option PolicyBaseline → Option String → Service
unfolding insert
from_config inventory fixture live policy transport_override =
    let backends : Dict Backend = ("fixture", fixture) ∷ [] in
    record {
      inventory = inventory;
      backends = if is_fixture transport_override then backends else with_live live backends;
      policy = policy;
      transport_override = transport_override;
    }

abbrev pub unknown_device : String → Exn
unknown_device device_id = value_error ("Unknown device ID: " <> repr_str device_id)

-- `self.transport_override or entry.transport`
abbrev pub choose_transport : Option String → String → String
choose_transport none transport = transport
choose_transport (some t) transport = if str_eq t "" then transport else t

abbrev pub backend_for : Dict Backend → String → String → Result Backend
backend_for backends device_id transport = elim (lookup transport backends) [
  | none ↦ err (
      value_error (
        "No backend available for transport "
        <> (repr_str transport
            <> (" on device "
                <> (repr_str device_id
                    <> (". Available: " <> repr (arr (to_items (map str (keys backends))))))))))
  | some b ↦ ok b
]

unfoldable pub get_backend : Service → String → Result Backend
get_backend s device_id = elim (lookup device_id s.inventory.devices) [
  | none ↦ err (unknown_device device_id)
  | some entry ↦
      backend_for s.backends device_id (choose_transport s.transport_override entry.transport)
]

unfoldable pub validate_device : Service → String → Result DeviceEntry
validate_device s device_id = elim (lookup device_id s.inventory.devices) [
  | none ↦ err (unknown_device device_id)
  | some entry ↦
      if not entry.allowed
      then err (value_error ("Device " <> (repr_str device_id <> " is not allowed for MCP access")))
      else ok entry
]

-- The `try` of `_call_backend`: a result is redacted, an exception becomes a label.
abbrev pub sanitize : Result Value → Result Value
sanitize (ok v) = ok (redact v)
sanitize (err e) = err (service_error (safe_error_label e))

unfoldable pub call_backend : Service → String → String → Fields → Result Value
call_backend s device_id method kwargs = do
  validate_device s device_id
  operation ← get_operation method
  if not operation.read_only
      then err
          (value_error ("Operation " <> (repr_str method <> " is not read-only and is denied")))
      else (do backend ← get_backend s device_id; sanitize (backend.call method device_id kwargs))
