-- ===== src/Tests/Loading.antt =====
-- The theorems on the inventory, applied to small ones.
use routeros_inspector_mcp.Base.{
  ◌≡◌, ◌↔◌, refl, true, Option, none, some, [], ◌∷◌, String, AllValues, ap, ◌∙◌, insert,
}
use routeros_inspector_mcp.Errors.{Result, ok, err, other_error, ◌>>=◌, >>=-eq-ok, ok-injective}
use routeros_inspector_mcp.Value.{
  Value, str, obj, arr, null, bool, int, Fields, end, field, get?, get_or, truthy,
}
use routeros_inspector_mcp.Config.{
  DeviceEntry, validate_routeros_api_tls, load_inventory, load_devices, load_device,
}
use routeros_inspector_mcp.Config.Laws.{TlsIsConsistent, validate_routeros_api_tls_iff}
use routeros_inspector_mcp.Config.Loaded.{ReadsText, IsAdmissible, load_inventory-IsAdmissible}
use routeros_inspector_mcp.Tests.Data.{entry}

validate_routeros_api_tls_iff_example :
    (validate_routeros_api_tls (entry "gateway" true) ≡ ok (entry "gateway" true))
    ↔ (TlsIsConsistent (entry "gateway" true) × (entry "gateway" true ≡ entry "gateway" true))
validate_routeros_api_tls_iff_example =
    validate_routeros_api_tls_iff (entry "gateway" true) (entry "gateway" true)

-- A reading of an entry that takes its texts as they stand.
text_in : Option Value → Result String
text_in (some (str s)) = ok s
text_in _ = err (other_error "ValidationError")

text_in-eq-ok : (o : Option Value) (s : String) → text_in o ≡ ok s → o ≡ some (str s)
unfolding text_in
text_in-eq-ok (some (str s)) t h = ap (λ x. some (str x)) (ok-injective h)
text_in-eq-ok none t h = cc
text_in-eq-ok (some null) t h = cc
text_in-eq-ok (some (bool b)) t h = cc
text_in-eq-ok (some (int i)) t h = cc
text_in-eq-ok (some (arr vs)) t h = cc
text_in-eq-ok (some (obj d)) t h = cc

abbrev read_entry : Fields → Result DeviceEntry
read_entry d = do
  role ← text_in (get? "role" d)
  risk ← text_in (get? "risk" d)
  transport ← text_in (get? "transport" d)
  host ← text_in (get? "host" d)
  ok (record (entry role true) { risk = risk; transport = transport; host = host })

module _ (d : Fields) (e : DeviceEntry) (h : read_entry d ≡ ok e) where
  four :
      (get? "role" d ≡ some (str e.role))
      × (get? "risk" d ≡ some (str e.risk))
      × (get? "transport" d ≡ some (str e.transport))
      × (get? "host" d ≡ some (str e.host))
  four =
      let (role, p, h₁) = >>=-eq-ok (text_in (get? "role" d)) _ h in
      let (risk, q, h₂) = >>=-eq-ok (text_in (get? "risk" d)) _ h₁ in
      let (transport, r, h₃) = >>=-eq-ok (text_in (get? "transport" d)) _ h₂ in
      let (host, s, h₄) = >>=-eq-ok (text_in (get? "host" d)) _ h₃ in
      let made = ok-injective h₄ in
      (
        text_in-eq-ok _ _ p ∙ ap (λ (x : DeviceEntry). some (str x.role)) made,
        text_in-eq-ok _ _ q ∙ ap (λ (x : DeviceEntry). some (str x.risk)) made,
        text_in-eq-ok _ _ r ∙ ap (λ (x : DeviceEntry). some (str x.transport)) made,
        text_in-eq-ok _ _ s ∙ ap (λ (x : DeviceEntry). some (str x.host)) made,
      )

read_entry-ReadsText : ReadsText read_entry
read_entry-ReadsText = record {
  role = λ d e h. (four d e h).0;
  risk = λ d e h. (four d e h).1;
  transport = λ d e h. (four d e h).2;
  host = λ d e h. (four d e h).3;
}

abbrev raw_device : Fields
raw_device =
    field "role" (str "gateway")
      (field "risk" (str "low") (field "transport" (str "api") (field "host" (str "host") end)))

abbrev raw : Value
raw = obj (field "devices" (obj (field "gw" (obj raw_device) end)) end)

loaded : load_inventory read_entry raw ≡ ok (record { devices = ("gw", entry "gateway" true) ∷ [] })
unfolding load_inventory load_devices load_device get_or get? truthy text_in insert
    validate_routeros_api_tls
loaded = refl

load_inventory-IsAdmissible_example : AllValues IsAdmissible (("gw", entry "gateway" true) ∷ [])
load_inventory-IsAdmissible_example =
    load_inventory-IsAdmissible read_entry read_entry-ReadsText raw
      (record { devices = ("gw", entry "gateway" true) ∷ [] }) loaded
