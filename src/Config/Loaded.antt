-- ===== src/Config/Loaded.antt =====
-- Every device of a loaded inventory satisfies the loader's constraints.
use mathlib.Core.Path.{subst}
use routeros_inspector_mcp.Base.{
  AllValues, AllValues-insert, String, ◌≡◌, ◌≢◌, refl, Bool, true, false, some, List, [], arith,
  contains, Dict, insert, string_eq, eq_iff, if◌then◌else◌, Bool-cases, inl, inr,
}
use routeros_inspector_mcp.Errors.{Exn, Result, ok, err, ok-injective, ◌>>=◌, >>=-eq-ok}
use routeros_inspector_mcp.Value.{Value, str, obj, Fields, end, field, get?, get_or, truthy, null}
use routeros_inspector_mcp.Config.{
  DeviceEntry, DeviceInventory, allowed_roles, allowed_risks, allowed_transports, require_in,
  fields_of, validate_routeros_api_tls, load_device, load_devices, load_inventory,
}
use routeros_inspector_mcp.Config.Laws.{TlsIsConsistent, validate_routeros_api_tls_iff}

-- Pydantic takes a field of type `str` as it stands in the file.
pub record ReadsText (parse_entry : Fields → Result DeviceEntry) : Type 0 where
  pub role :
      (d : Fields) (e : DeviceEntry) → parse_entry d ≡ ok e → get? "role" d ≡ some (str e.role)
  pub risk :
      (d : Fields) (e : DeviceEntry) → parse_entry d ≡ ok e → get? "risk" d ≡ some (str e.risk)
  pub transport :
      (d : Fields) (e : DeviceEntry)
      → parse_entry d ≡ ok e
      → get? "transport" d ≡ some (str e.transport)
  pub host :
      (d : Fields) (e : DeviceEntry) → parse_entry d ≡ ok e → get? "host" d ≡ some (str e.host)

pub record IsAdmissible (e : DeviceEntry) : Type 0 where
  pub role : contains allowed_roles e.role ≡ true
  pub risk : contains allowed_risks e.risk ≡ true
  pub transport : contains allowed_transports e.transport ≡ true
  pub host : e.host ≢ ""
  pub tls : TlsIsConsistent e

require_in-eq-ok :
    (allowed : List String) (dev_id what : String) (v : Value) (s : String) {u : Unit {0}}
    → require_in allowed dev_id what v ≡ ok u
    → v ≡ str s
    → contains allowed s ≡ true
require_in-eq-ok allowed dev_id what v s h e =
    let h' = rw e at h in
    elim (Bool-cases (contains allowed s)) [
      | inl t ↦ t
      | inr f ↦ absurd (let k = rw (f, if◌then◌else◌) at h' in cc)
    ]

get_or_of : (d : Fields) (k : String) (v w : Value) → get? k d ≡ some w → get_or d k v ≡ w
unfolding get_or
get_or_of d k v w h = rw (h, get_or)

if-eq-ok :
    (b : Bool) (m : Result DeviceEntry) (x : Exn) {e : DeviceEntry}
    → (if b then m else err x) ≡ ok e
    → (b ≡ true) × (m ≡ ok e)
if-eq-ok true m x h = (refl, h)
if-eq-ok false m x h = cc

truthy_str : (v : Value) (s : String) → truthy v ≡ true → v ≡ str s → s ≢ ""
unfolding truthy
truthy_str v s h e = let k = rw e at h in ground (arith, eq_iff s "")

module _ (parse_entry : Fields → Result DeviceEntry) (reads : ReadsText parse_entry) where
  load_device-IsAdmissible :
      (dev_id : String) (d : Fields) (e : DeviceEntry)
      → load_device parse_entry dev_id d ≡ ok e
      → IsAdmissible e
  unfolding load_device
  load_device-IsAdmissible dev_id d e h =
      let (_, role, h₁) =
        >>=-eq-ok (require_in allowed_roles dev_id "role" (get_or d "role" (str ""))) _ h in
      let (_, risk, h₂) =
        >>=-eq-ok (require_in allowed_risks dev_id "risk" (get_or d "risk" (str ""))) _ h₁ in
      let (_, transport, h₃) =
        >>=-eq-ok (require_in allowed_transports dev_id "transport" (get_or d "transport" (str "")))
          _ h₂ in
      let (host, h₄) =
        if-eq-ok (truthy (get_or d "host" null)) (parse_entry d >>= validate_routeros_api_tls) _
          h₃ in
      let (f, parsed, h₅) = >>=-eq-ok (parse_entry d) _ h₄ in
      let (tls, same) = (validate_routeros_api_tls_iff f e).0 h₅ in
      subst IsAdmissible same (record {
        role =
            require_in-eq-ok allowed_roles dev_id "role" _ f.role role
              (get_or_of d _ _ _ (reads.role d f parsed));
        risk =
            require_in-eq-ok allowed_risks dev_id "risk" _ f.risk risk
              (get_or_of d _ _ _ (reads.risk d f parsed));
        transport =
            require_in-eq-ok allowed_transports dev_id "transport" _ f.transport transport
              (get_or_of d _ _ _ (reads.transport d f parsed));
        host = truthy_str _ f.host host (get_or_of d _ _ _ (reads.host d f parsed));
        tls = tls;
      })

  load_devices-IsAdmissible :
      (raw : Fields) (devices loaded : Dict DeviceEntry)
      → AllValues IsAdmissible devices
      → load_devices parse_entry raw devices ≡ ok loaded
      → AllValues IsAdmissible loaded
  unfolding load_devices
  load_devices-IsAdmissible end devices loaded h e =
      subst (AllValues IsAdmissible) (ok-injective e) h
  load_devices-IsAdmissible (field dev_id v rest) devices loaded h e =
      let (entry, _, e₁) = >>=-eq-ok (fields_of v) _ e in
      let (device, made, e₂) = >>=-eq-ok (load_device parse_entry dev_id entry) _ e₁ in
      load_devices-IsAdmissible rest (insert dev_id device devices) loaded
        (AllValues-insert IsAdmissible dev_id device devices
          (load_device-IsAdmissible dev_id entry device made) h)
        e₂

  -- If Pydantic takes text fields as they stand, every device of a loaded inventory has a known
  -- role, risk and transport, a host, and a consistent TLS setting.
  pub load_inventory-IsAdmissible :
      (raw : Value) (inventory : DeviceInventory)
      → load_inventory parse_entry raw ≡ ok inventory
      → AllValues IsAdmissible inventory.devices
  unfolding load_inventory
  load_inventory-IsAdmissible raw inventory h =
      let (top, _, h₁) = >>=-eq-ok (fields_of (if truthy raw then raw else obj end)) _ h in
      let (devices_raw, _, h₂) = >>=-eq-ok (fields_of (get_or top "devices" (obj end))) _ h₁ in
      let (devices, loaded, h₃) = >>=-eq-ok (load_devices parse_entry devices_raw []) _ h₂ in
      subst (λ (i : DeviceInventory). AllValues IsAdmissible i.devices) (ok-injective h₃)
        (load_devices-IsAdmissible devices_raw [] devices tt loaded)
