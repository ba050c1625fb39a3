-- ===== src/Service/Fleet.antt =====
-- `list_devices` and `fleet_call`: partial results over many devices.
pub mod Laws
use routeros_inspector_mcp.Base.{
  ℕ, ◌+◌, ◌≤◌, String, ◌≡◌, refl, Bool, true, false, not, ◌&&◌, ◌||◌, Option, none, some, List, [],
  ◌∷◌, inl, inr, arith, Dict, lookup, lookup-insert, insert, keys, length, contains, is_empty,
  string_eq, eq_iff, if◌then◌else◌,
}
use routeros_inspector_mcp.Errors.{Exn, Result, ok, err}
use routeros_inspector_mcp.Value.{Value, Fields}
use routeros_inspector_mcp.Redaction.{safe_error_label}
use routeros_inspector_mcp.Config.{DeviceEntry}
use routeros_inspector_mcp.Service.{Service, call_backend}

-- One dict of the list that `list_devices` returns.
pub record DeviceRow : Type 0 where
  pub device_id : String
  pub role : String
  pub risk : String
  pub transport : String
  pub allowed : Bool
  pub tags : List String

unfoldable pub device_rows : Dict DeviceEntry → List DeviceRow
device_rows [] = []
device_rows ((dev_id, entry) ∷ rest) =
    record {
      device_id = dev_id;
      role = entry.role;
      risk = entry.risk;
      transport = entry.transport;
      allowed = entry.allowed;
      tags = entry.tags;
    }
    ∷ device_rows rest

unfoldable pub list_devices : Service → List DeviceRow
unfolding device_rows
list_devices s = device_rows s.inventory.devices

pub record FleetReport : Type 0 where
  pub results : Dict Value
  pub errors : Dict String
  pub total : ℕ
  pub succeeded : ℕ
  pub failed : ℕ

abbrev record_outcome : String → Result Value → Dict Value × Dict String → Dict Value × Dict String
record_outcome dev_id (ok v) (results, errors) = (insert dev_id v results, errors)
record_outcome dev_id (err e) (results, errors) =
    (results, insert dev_id (safe_error_label e) errors)

-- The loop of `fleet_call`, over any call.
unfoldable pub fleet_loop :
    (String → Result Value) → List String → Dict Value × Dict String → Dict Value × Dict String
fleet_loop call [] acc = acc
fleet_loop call (dev_id ∷ targets) acc =
    fleet_loop call targets (record_outcome dev_id (call dev_id) acc)

-- `device_ids or list(self.inventory.devices.keys())`
abbrev pub or_all : Option (List String) → List String → List String
or_all none all = all
or_all (some ids) all = if is_empty ids then all else ids

unfoldable pub fleet_call : Service → String → Option (List String) → Fields → FleetReport
unfolding fleet_loop insert keys
fleet_call s method device_ids kwargs =
    let targets = or_all device_ids (keys s.inventory.devices) in
    let (results, errors) = fleet_loop (λ d. call_backend s d method kwargs) targets ([], []) in
    record {
      results = results;
      errors = errors;
      total = length targets;
      succeeded = length results;
      failed = length errors;
    }
