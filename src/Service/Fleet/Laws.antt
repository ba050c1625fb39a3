-- ===== src/Service/Fleet/Laws.antt =====
-- A fleet call answers for each target by itself: a device that fails takes nothing from the others.
use text.Mathlib.TextPositions.{eq_refl}
use mathlib.Core.Bool.{false≢true}
use routeros_inspector_mcp.Base.{
  sym, ap, ◌∙◌, ℕ, ◌+◌, String, ◌≡◌, refl, Bool, true, false, ◌||◌, Option, none, some, List, [],
  ◌∷◌, inl, inr, arith, Dict, lookup, lookup-insert, length-insert, keys, length, contains,
  string_eq, eq_iff, if◌then◌else◌, str_eq, Bool-cases,
}
use routeros_inspector_mcp.Errors.{Result, ok, err}
use routeros_inspector_mcp.Value.{Value, Fields}
use routeros_inspector_mcp.Redaction.{safe_error_label}
use routeros_inspector_mcp.Config.{DeviceEntry}
use routeros_inspector_mcp.Service.{Service, call_backend}
use routeros_inspector_mcp.Service.Fleet.{
  device_rows, list_devices, fleet_loop, record_outcome, or_all, fleet_call,
}

abbrev pub value_of : Result Value → Option Value
value_of (ok v) = some v
value_of (err e) = none

abbrev pub label_of : Result Value → Option String
label_of (ok v) = none
label_of (err e) = some (safe_error_label e)

abbrev over {ℓ} : {A : Type ℓ} → Option A → Option A → Option A
over none old = old
over (some a) old = some a

if_same {ℓ} : {A : Type ℓ} (b : Bool) (x : A) → x ≡ (if b then x else x)
if_same true x = refl
if_same false x = refl

over_again {ℓ} : {A : Type ℓ} (x old : Option A) → over x (over x old) ≡ over x old
over_again none old = refl
over_again (some a) old = refl

-- One step of the loop, at one key: `b` says that the step is about the key.
over_step {ℓ} :
    {A : Type ℓ} (b c : Bool) (x y old mid last : Option A)
    → (b ≡ true → x ≡ y)
    → mid ≡ (if b then over y old else old)
    → last ≡ (if c then over x mid else mid)
    → last ≡ (if b || c then over x old else old)
over_step true true x y old mid last e h p =
    p ∙ ap (over x) (h ∙ ap (λ z. over z old) (sym (e refl))) ∙ over_again x old
over_step true false x y old mid last e h p = p ∙ h ∙ ap (λ z. over z old) (sym (e refl))
over_step false true x y old mid last e h p = p ∙ ap (over x) h
over_step false false x y old mid last e h p = p ∙ h

start {ℓ} :
    {A : Type ℓ} (b : Bool) (x : Option A)
    → (if b then over x none else none) ≡ (if b then x else none)
start true none = refl
start true (some a) = refl
start false x = refl

str_eq_comm : (s t : String) → str_eq s t ≡ str_eq t s
str_eq_comm s t = ground (arith, eq_iff s t, eq_iff t s)

module _ (call : String → Result Value) (d : String) where
  lookup-record_outcome :
      (t : String) (r : Result Value) (results : Dict Value) (errors : Dict String)
      → (lookup d (record_outcome t r (results, errors)).0
          ≡ (if str_eq t d then over (value_of r) (lookup d results) else lookup d results))
        × (lookup d (record_outcome t r (results, errors)).1
            ≡ (if str_eq t d then over (label_of r) (lookup d errors) else lookup d errors))
  lookup-record_outcome t (ok v) results errors =
      (lookup-insert d t v results, if_same (str_eq t d) (lookup d errors))
  lookup-record_outcome t (err e) results errors =
      (if_same (str_eq t d) (lookup d results), lookup-insert d t (safe_error_label e) errors)

  lookup-fleet_loop :
      (ts : List String) (results : Dict Value) (errors : Dict String)
      → (lookup d (fleet_loop call ts (results, errors)).0 ≡ (
          if contains ts d then over (value_of (call d)) (lookup d results) else lookup d results))
        × (lookup d (fleet_loop call ts (results, errors)).1 ≡ (
            if contains ts d then over (label_of (call d)) (lookup d errors) else lookup d errors))
  unfolding fleet_loop
  lookup-fleet_loop [] results errors = (refl, refl)
  lookup-fleet_loop (t ∷ ts) results errors =
      let (r, e) = record_outcome t (call t) (results, errors) in
      let (h, k) = lookup-record_outcome t (call t) results errors in
      let (p, q) = lookup-fleet_loop ts r e in
      (
        over_step (str_eq d t) (contains ts d) _ (value_of (call t)) (lookup d results) _ _
            (λ b. ap (λ z. value_of (call z)) ((eq_iff d t).0 b)) (rw str_eq_comm h) p,
        over_step (str_eq d t) (contains ts d) _ (label_of (call t)) (lookup d errors) _ _
            (λ b. ap (λ z. label_of (call z)) ((eq_iff d t).0 b)) (rw str_eq_comm k) q,
      )

-- Each target of a fleet call has its own outcome, whatever the other targets do: the value of
-- its call among the results, or the label of its error among the errors. No other device has one.
pub lookup-fleet_call :
    (s : Service) (method : String) (device_ids : Option (List String)) (kwargs : Fields)
    (d : String)
    → let targets = or_all device_ids (keys s.inventory.devices) in
      let report = fleet_call s method device_ids kwargs in
      (lookup d report.results
        ≡ (if contains targets d then value_of (call_backend s d method kwargs) else none))
      × (lookup d report.errors
          ≡ (if contains targets d then label_of (call_backend s d method kwargs) else none))
unfolding fleet_call lookup
lookup-fleet_call s method device_ids kwargs d =
    let targets = or_all device_ids (keys s.inventory.devices) in
    let (p, q) = lookup-fleet_loop (λ t. call_backend s t method kwargs) d targets [] [] in
    (p ∙ start (contains targets d) _, q ∙ start (contains targets d) _)

or_true : (b : Bool) → (b || true) ≡ true
or_true true = refl
or_true false = refl

apart :
    (t d : String) (ts : List String)
    → contains ts t ≡ false
    → contains ts d ≡ true
    → str_eq t d ≡ false
apart t d ts away listed = elim (Bool-cases (str_eq t d)) [
  | inl e ↦ absurd (false≢true (sym away ∙ ap (contains ts) ((eq_iff t d).0 e) ∙ listed))
  | inr e ↦ e
]

abbrev pub AreDistinct : List String → Type 0
AreDistinct [] = Unit
AreDistinct (t ∷ ts) = (contains ts t ≡ false) × AreDistinct ts

-- No target has an outcome yet.
abbrev AreNew : List String → Dict Value → Dict String → Type 0
AreNew ts results errors =
    (d : String) → contains ts d ≡ true → (lookup d results ≡ none) × (lookup d errors ≡ none)

size_of : Dict Value × Dict String → ℕ
size_of (results, errors) = length results + length errors

module _ (call : String → Result Value) where
  size-record_outcome :
      (t : String) (r : Result Value) (results : Dict Value) (errors : Dict String)
      → lookup t results ≡ none
      → lookup t errors ≡ none
      → size_of (record_outcome t r (results, errors)) ≡ size_of (results, errors) + 1
  unfolding size_of
  size-record_outcome t (ok v) results errors p q = ground (arith, length-insert t v results)
  size-record_outcome t (err e) results errors p q =
      ground (arith, length-insert t (safe_error_label e) errors)

  AreNew-record_outcome :
      (t : String) (ts : List String) (results : Dict Value) (errors : Dict String)
      → contains ts t ≡ false
      → AreNew (t ∷ ts) results errors
      → let (r, e) = record_outcome t (call t) (results, errors) in AreNew ts r e
  AreNew-record_outcome t ts results errors away h d listed =
      let (p, q) = lookup-record_outcome call d t (call t) results errors in
      let (a, b) = h d (rw listed (or_true (str_eq d t))) in
      let other = apart t d ts away listed in
      (p ∙ rw (other, if◌then◌else◌) a, q ∙ rw (other, if◌then◌else◌) b)

  size-fleet_loop :
      (ts : List String) (results : Dict Value) (errors : Dict String)
      → AreDistinct ts
      → AreNew ts results errors
      → size_of (fleet_loop call ts (results, errors)) ≡ size_of (results, errors) + length ts
  unfolding fleet_loop
  size-fleet_loop [] results errors dis h = omega arith
  size-fleet_loop (t ∷ ts) results errors (away, dis) h =
      let (p, q) = h t (rw (eq_refl t)) in
      let (r, e) = record_outcome t (call t) (results, errors) in
      omega (
        arith,
        size-fleet_loop ts r e dis (AreNew-record_outcome t ts results errors away h),
        size-record_outcome t (call t) results errors p q,
      )

-- Where the targets are distinct, each is counted once: as a success or as a failure.
pub fleet_call_counts :
    (s : Service) (method : String) (device_ids : Option (List String)) (kwargs : Fields)
    → AreDistinct (or_all device_ids (keys s.inventory.devices))
    → let report = fleet_call s method device_ids kwargs in
      report.succeeded + report.failed ≡ report.total
unfolding fleet_call lookup size_of
fleet_call_counts s method device_ids kwargs dis =
    omega (
      arith,
      size-fleet_loop (λ t. call_backend s t method kwargs) _ [] [] dis (λ d m. (refl, refl)),
    )

-- What `list_devices` shows of a device is all but its host, its credential and its API settings.
abbrev pub hide_connection : (DeviceEntry → DeviceEntry) → Dict DeviceEntry → Dict DeviceEntry
hide_connection f [] = []
hide_connection f ((d, e) ∷ devices) =
    let g = f e in
    (
      d,
      record e {
        host = g.host;
        credential_ref = g.credential_ref;
        routeros_api_port = g.routeros_api_port;
        routeros_api_tls = g.routeros_api_tls;
        routeros_api_certificate = g.routeros_api_certificate;
        routeros_api_server_name = g.routeros_api_server_name;
      },
    )
    ∷ hide_connection f devices

device_rows-hide_connection :
    (f : DeviceEntry → DeviceEntry) (devices : Dict DeviceEntry)
    → device_rows (hide_connection f devices) ≡ device_rows devices
unfolding device_rows
device_rows-hide_connection f [] = refl
device_rows-hide_connection f ((d, e) ∷ devices) = rw (device_rows-hide_connection f devices)

-- The listing of the devices is the same whatever their hosts, credentials and API settings are.
pub list_devices_hides :
    (s : Service) (f : DeviceEntry → DeviceEntry)
    → list_devices
        (record s { inventory = record { devices = hide_connection f s.inventory.devices } })
      ≡ list_devices s
unfolding list_devices
list_devices_hides s f = device_rows-hide_connection f s.inventory.devices
