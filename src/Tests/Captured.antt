-- ===== src/Tests/Captured.antt =====
-- The theorems on built fixtures, applied to a small capture.
use routeros_inspector_mcp.Base.{◌≡◌, refl, some, [], ◌∷◌, str_eq, if◌then◌else◌}
use routeros_inspector_mcp.Errors.{Result, ok, err}
use routeros_inspector_mcp.Value.{Value, null, str, Fields, end, field, get?}
use routeros_inspector_mcp.Refresh.{
  Artifacts, table, redact_text, redact_fields, pick, build_fixture,
}
use routeros_inspector_mcp.Backend.Fixture.{FixtureDir, document}
use routeros_inspector_mcp.Refresh.Tables.{wireguard_peers_keys}
use routeros_inspector_mcp.Refresh.Laws.{
  IsSanitized, build_fixture-IsSanitized, preshared_key_shown,
}

abbrev peer : Fields
peer =
    field "interface" (str "wg0")
      (field "public-key" (str "abc") (field "preshared-key" (str "k3y") end))

abbrev pub artifacts : Artifacts
artifacts suffix =
    if str_eq suffix "system-resource"
    then table (field "version" (str "7.15.3 (stable)") end ∷ [])
    else if str_eq suffix "wireguard-peers"
    then table (peer ∷ [])
    else table []

abbrev value_of : Result Value → Value
value_of (ok v) = v
value_of (err e) = null

abbrev fixture : Value
fixture = value_of (build_fixture artifacts "captures/gw" "gw" "2026-01-02")

built : build_fixture artifacts "captures/gw" "gw" "2026-01-02" ≡ ok fixture
unfolding build_fixture
built = refl

build_fixture-IsSanitized_example : IsSanitized fixture
build_fixture-IsSanitized_example =
    build_fixture-IsSanitized artifacts "captures/gw" "gw" "2026-01-02" fixture built

no_mac : redact_text "k3y" ≡ "k3y"
unfolding redact_text
no_mac = refl

held : get? "preshared-key" peer ≡ some (str "k3y")
unfolding get?
held = refl

preshared_key_shown_example :
    get? "preshared_key" (redact_fields (pick peer wireguard_peers_keys)) ≡ some (str "k3y")
preshared_key_shown_example = preshared_key_shown peer "k3y" held no_mac

abbrev dir : FixtureDir
dir device_id = document fixture
