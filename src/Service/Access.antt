-- ===== src/Service/Access.antt =====
-- Who may call what: the guards of `_call_backend`, and what reaches the caller.
use mathlib.Core.Path.{subst}
use mathlib.Core.Option.{some-injective}
use routeros_inspector_mcp.Base.{
  String, ◌≡◌, refl, sym, inl, inr, Bool, true, false, not, Option, none, some, ◌<>◌, map, keys,
  Bool-cases, arith, lookup, contains, string_eq, Dict, Option-cases, if◌then◌else◌,
}
use routeros_inspector_mcp.Errors.{
  Exn, service_error, value_error, Result, ok, err, ok-injective, ◌>>=◌, >>=-eq-ok,
}
use routeros_inspector_mcp.Value.{Value, Fields, arr, str, to_items}
use routeros_inspector_mcp.Value.Show.{repr, repr_str}
use routeros_inspector_mcp.Redaction.{redact, safe_error_labels, safe_error_label}
use routeros_inspector_mcp.Redaction.Laws.{safe_error_label-contains}
use routeros_inspector_mcp.Registry.{Operation, registry, find_operation, get_operation}
use routeros_inspector_mcp.Registry.Laws.{
  IsReadEntry, get_operation_lem, find_operation-eq-ok, get_operation-IsReadEntry,
}
use routeros_inspector_mcp.Config.{DeviceEntry, DeviceInventory, PolicyBaseline}
use routeros_inspector_mcp.Backend.{Backend}
use routeros_inspector_mcp.Service.{
  Service, from_config, choose_transport, backend_for, get_backend, validate_device, sanitize,
  call_backend, unknown_device,
}

-- A call that is let through, with the value that the backend returned.
pub record IsGranted (s : Service) (device_id method : String) (kwargs : Fields) (v : Value)
    : Type 0 where
  pub entry : DeviceEntry
  pub known : lookup device_id s.inventory.devices ≡ some entry
  pub allowed : entry.allowed ≡ true
  pub operation : Operation
  pub reads : IsReadEntry method operation
  pub backend : Backend
  pub routed :
      lookup (choose_transport s.transport_override entry.transport) s.backends ≡ some backend
  pub raw : Value
  pub answered : backend.call method device_id kwargs ≡ ok raw
  pub shown : v ≡ redact raw

validate_device-eq-ok :
    (s : Service) (device_id : String) (e : DeviceEntry)
    → validate_device s device_id ≡ ok e
    → (lookup device_id s.inventory.devices ≡ some e) × (e.allowed ≡ true)
unfolding validate_device
validate_device-eq-ok s device_id e h = ground arith

backend_for-eq-ok :
    (backends : Dict Backend) (device_id transport : String) (b : Backend)
    → backend_for backends device_id transport ≡ ok b
    → lookup transport backends ≡ some b
backend_for-eq-ok backends device_id transport b h = ground arith

get_backend-eq-ok :
    (s : Service) (device_id : String) (e : DeviceEntry) (b : Backend)
    → lookup device_id s.inventory.devices ≡ some e
    → get_backend s device_id ≡ ok b
    → lookup (choose_transport s.transport_override e.transport) s.backends ≡ some b
unfolding get_backend
get_backend-eq-ok s device_id e b known h =
    backend_for-eq-ok s.backends device_id (choose_transport s.transport_override e.transport) b
      (rw (known, get_backend) at h)

sanitize-eq-ok :
    (r : Result Value) (v : Value)
    → sanitize r ≡ ok v
    → (raw : Value) × (r ≡ ok raw) × (v ≡ redact raw)
sanitize-eq-ok (ok raw) v h = (raw, refl, sym (ok-injective h))
sanitize-eq-ok (err e) v h = cc

if-eq-ok :
    (b : Bool) (x : Exn) (m : Result Value) {v : Value}
    → (if not b then err x else m) ≡ ok v
    → m ≡ ok v
if-eq-ok true x m h = h
if-eq-ok false x m h = cc

-- A call returns only for a known and allowed device and a registered operation that reads, from
-- the backend of the device's transport, and it returns the redacted answer.
pub call_backend-IsGranted :
    (s : Service) (device_id method : String) (kwargs : Fields) (v : Value)
    → call_backend s device_id method kwargs ≡ ok v
    → IsGranted s device_id method kwargs v
unfolding call_backend
call_backend-IsGranted s device_id method kwargs v h =
    let (entry, valid, h₁) = >>=-eq-ok (validate_device s device_id) _ h in
    let (operation, found, h₂) = >>=-eq-ok (get_operation method) _ h₁ in
    let (backend, routed, h₃) =
      >>=-eq-ok (get_backend s device_id) _ (if-eq-ok operation.read_only _ _ h₂) in
    let (raw, answered, shown) = sanitize-eq-ok (backend.call method device_id kwargs) v h₃ in
    let (known, allowed) = validate_device-eq-ok s device_id entry valid in
    record {
      entry = entry;
      known = known;
      allowed = allowed;
      operation = operation;
      reads = get_operation-IsReadEntry method operation found;
      backend = backend;
      routed = get_backend-eq-ok s device_id entry backend known routed;
      raw = raw;
      answered = answered;
      shown = shown;
    }

-- The messages of the guards. None depends on what a backend raises.
abbrev pub denied_device : String → String
denied_device device_id = "Device " <> (repr_str device_id <> " is not allowed for MCP access")

abbrev pub denied_operation : String → String
denied_operation method = "Operation " <> (repr_str method <> " is not read-only and denied in v1")

abbrev pub unknown_operation : String → String
unknown_operation method = "Unknown or denied operation: " <> repr_str method

abbrev pub no_backend : Service → String → String → String
no_backend s device_id transport =
    "No backend available for transport "
    <> (repr_str transport
        <> (" on device "
            <> (repr_str device_id
                <> (". Available: " <> repr (arr (to_items (map str (keys s.backends))))))))

-- How a call can fail: a guard refuses it, with a message made from the names that the caller and
-- the service's own records hold, or the backend of the device raises, and a safe label is left of it.
pub data IsFailure (s : Service) (device_id method : String) (kwargs : Fields) : Exn → Type 0 where
  not_known :
      lookup device_id s.inventory.devices ≡ none
      → IsFailure s device_id method kwargs (unknown_device device_id)
  not_allowed :
      (entry : DeviceEntry)
      → lookup device_id s.inventory.devices ≡ some entry
      → entry.allowed ≡ false
      → IsFailure s device_id method kwargs (value_error (denied_device device_id))
  not_registered :
      lookup method registry ≡ none
      → IsFailure s device_id method kwargs (value_error (unknown_operation method))
  not_read_only :
      (operation : Operation)
      → lookup method registry ≡ some operation
      → operation.read_only ≡ false
      → IsFailure s device_id method kwargs (value_error (denied_operation method))
  not_routed :
      (entry : DeviceEntry)
      → lookup device_id s.inventory.devices ≡ some entry
      → lookup (choose_transport s.transport_override entry.transport) s.backends ≡ none
      → IsFailure s device_id method kwargs (
          value_error
            (no_backend s device_id (choose_transport s.transport_override entry.transport)))
  raised :
      (entry : DeviceEntry) (backend : Backend) (x : Exn)
      → lookup device_id s.inventory.devices ≡ some entry
      → lookup (choose_transport s.transport_override entry.transport) s.backends ≡ some backend
      → backend.call method device_id kwargs ≡ err x
      → contains safe_error_labels (safe_error_label x) ≡ true
      → IsFailure s device_id method kwargs (service_error (safe_error_label x))

module _ {ℓ} (P : Exn → Type 0) where
  -- What a call raises, where it raises.
  abbrev Fails : {A : Type ℓ} → Result A → Type 0
  Fails (ok a) = Unit
  Fails (err e) = P e

  Fails-of : {A : Type ℓ} (r : Result A) (e : Exn) → Fails r → r ≡ err e → P e
  Fails-of r e h p = subst Fails p h

>>=-Fails {ℓ κ} :
    (P : Exn → Type 0) {A : Type ℓ} {B : Type κ} (m : Result A) (f : A → Result B)
    → Fails P m
    → ((a : A) → m ≡ ok a → Fails P (f a))
    → Fails P (m >>= f)
>>=-Fails P (ok a) f hm hf = hf a refl
>>=-Fails P (err x) f hm hf = hm

module _ (s : Service) (device_id method : String) (kwargs : Fields) where
  IsFailed : Exn → Type 0
  IsFailed = IsFailure s device_id method kwargs

  validate_device-Fails : Fails IsFailed (validate_device s device_id)
  unfolding validate_device IsFailed
  validate_device-Fails = elim (Option-cases (lookup device_id s.inventory.devices)) [
    | inl gone ↦ rw (gone, validate_device) (not_known gone)
    | inr (entry, known) ↦ elim (Bool-cases entry.allowed) [
      | inl on ↦ rw (known, on, validate_device) tt
      | inr off ↦ rw (known, off, validate_device) (not_allowed entry known off)
    ]
  ]

  find_operation-Fails : Fails IsFailed (find_operation registry method)
  unfolding find_operation IsFailed
  find_operation-Fails = elim (Option-cases (lookup method registry)) [
    | inl gone ↦ rw (gone, find_operation) (not_registered gone)
    | inr (op, known) ↦ elim (Bool-cases op.read_only) [
      | inl on ↦ rw (known, on, find_operation) tt
      | inr off ↦ rw (known, off, find_operation) (not_read_only op known off)
    ]
  ]

  backend_for-Fails :
      (entry : DeviceEntry)
      → lookup device_id s.inventory.devices ≡ some entry
      → Fails IsFailed
          (backend_for s.backends device_id (choose_transport s.transport_override entry.transport))
  unfolding IsFailed
  backend_for-Fails entry known =
      elim (Option-cases
        (lookup (choose_transport s.transport_override entry.transport) s.backends)) [
          | inl gone ↦ rw (gone, backend_for) (not_routed entry known gone)
          | inr (b, there) ↦ rw (there, backend_for) tt
        ]

  get_backend-Fails : Fails IsFailed (get_backend s device_id)
  unfolding get_backend IsFailed
  get_backend-Fails = elim (Option-cases (lookup device_id s.inventory.devices)) [
    | inl gone ↦ rw (gone, get_backend) (not_known gone)
    | inr (entry, known) ↦ rw (known, get_backend) (backend_for-Fails entry known)
  ]

  sanitize-Fails :
      (entry : DeviceEntry) (b : Backend) (r : Result Value)
      → lookup device_id s.inventory.devices ≡ some entry
      → lookup (choose_transport s.transport_override entry.transport) s.backends ≡ some b
      → b.call method device_id kwargs ≡ r
      → Fails IsFailed (sanitize r)
  unfolding IsFailed
  sanitize-Fails entry b (ok v) known routed h = tt
  sanitize-Fails entry b (err e) known routed h =
      raised entry b e known routed h (safe_error_label-contains e)

  call_backend-Fails : Fails IsFailed (call_backend s device_id method kwargs)
  unfolding call_backend
  call_backend-Fails =
      >>=-Fails IsFailed (validate_device s device_id) _ validate_device-Fails λ entry valid.
        >>=-Fails IsFailed (get_operation method) _ (rw get_operation_lem find_operation-Fails)
          λ op found.
            rw
              (
                (find_operation-eq-ok registry method (rw get_operation_lem at found)).1,
                if◌then◌else◌,
              )
              (>>=-Fails IsFailed (get_backend s device_id) _ get_backend-Fails λ b got.
                let (known, _) = validate_device-eq-ok s device_id entry valid in
                sanitize-Fails entry b (b.call method device_id kwargs) known
                  (get_backend-eq-ok s device_id entry b known got) refl)

  -- A call that fails does so in one of these ways: the device is not known, or not allowed; the
  -- operation is not registered, or does not only read; no backend stands for the device's transport;
  -- or that backend raised, and the caller sees a safe label. Each message of a guard is made from the
  -- names in the call and in the service's own records, never from what a backend raises.
  pub call_backend_errors :
      (e : Exn)
      → call_backend s device_id method kwargs ≡ err e
      → IsFailure s device_id method kwargs e
  unfolding IsFailed
  call_backend_errors e =
      Fails-of IsFailed (call_backend s device_id method kwargs) e call_backend-Fails

-- In fixture mode a call that returns has the redacted answer of the fixture backend, whatever
-- transport the inventory names and whatever live backend there is.
pub call_backend_fixture_mode :
    (inventory : DeviceInventory) (fixture : Backend) (live : Option Backend)
    (policy : Option PolicyBaseline) (device_id method : String) (kwargs : Fields) (v : Value)
    → call_backend
        (from_config inventory fixture live policy (some "fixture"))
        device_id
        method
        kwargs
      ≡ ok v
    → (raw : Value) × (fixture.call method device_id kwargs ≡ ok raw) × (v ≡ redact raw)
unfolding from_config lookup
call_backend_fixture_mode inventory fixture live policy device_id method kwargs v h =
    let g = call_backend-IsGranted _ device_id method kwargs v h in
    (
      g.raw,
      subst (λ (b : Backend). b.call method device_id kwargs ≡ ok g.raw)
          (sym (some-injective _ _ g.routed)) g.answered,
      g.shown,
    )
