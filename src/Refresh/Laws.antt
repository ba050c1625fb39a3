-- ===== src/Refresh/Laws.antt =====
-- What a built fixture can show, and the key that it shows by mistake.
use mathlib.Core.Path.{subst}
use text.Mathlib.TextPositions.{eq_refl}
use routeros_inspector_mcp.Base.{
  String, ◌≡◌, refl, sym, ap, ◌∙◌, Bool, true, false, some, List, ◌∷◌, string_eq, str_eq, eq_iff,
  if◌then◌else◌, Bool-cases, Option-cases, inl, inr,
}
use routeros_inspector_mcp.Errors.{ok, ok-injective, >>=-eq-ok}
use routeros_inspector_mcp.Value.{
  Value, null, bool, int, str, arr, obj, Items, nil, cons, Fields, end, field, get?,
}
use routeros_inspector_mcp.Redaction.{redacted}
use routeros_inspector_mcp.Redaction.Pattern.{sub}
use routeros_inspector_mcp.Refresh.{
  is_stripped, is_secret, redact_text, redact, redact_items, redact_fields, mac_pattern, pick,
  Artifacts, build_fixture, first, load_json_artifact, backup_rows, version_of, load_tables,
  fields_onto,
}
use routeros_inspector_mcp.Refresh.Tables.{first_tables, last_tables, wireguard_peers_keys}

-- At every depth: no stripped key, the mark under every secret key, and no text `public`.
unfoldable mutual
  pub IsSanitized : Value → Type 0
  IsSanitized (str s) = str_eq s "public" ≡ false
  IsSanitized (arr vs) = SanitizedItems vs
  IsSanitized (obj d) = SanitizedFields d
  IsSanitized null = Unit
  IsSanitized (bool b) = Unit
  IsSanitized (int i) = Unit

  pub SanitizedItems : Items → Type 0
  SanitizedItems nil = Unit
  SanitizedItems (cons v vs) = IsSanitized v × SanitizedItems vs

  pub SanitizedFields : Fields → Type 0
  SanitizedFields end = Unit
  SanitizedFields (field k v d) =
      (is_stripped k ≡ false)
      × (is_secret k ≡ true → v ≡ str redacted)
      × IsSanitized v
      × SanitizedFields d

not_public : (s : String) → str_eq (if str_eq s "public" then redacted else s) "public" ≡ false
not_public s = elim (Bool-cases (str_eq s "public")) [
  | inl secret ↦ rw (secret, if◌then◌else◌) refl
  | inr shown ↦ rw (shown, if◌then◌else◌) shown
]

hidden :
    (b : Bool) (v : Value)
    → IsSanitized v
    → (b ≡ true → (if b then str redacted else v) ≡ str redacted)
      × IsSanitized (if b then str redacted else v)
unfolding IsSanitized
hidden true v h = (λ _. refl, refl)
hidden false v h = (λ e. cc, h)

mutual
  unfolding redact redact_text IsSanitized

  sanitized : (v : Value) → IsSanitized (redact v)
  sanitized null = tt
  sanitized (bool b) = tt
  sanitized (int i) = tt
  sanitized (str s) = not_public (sub mac_pattern (λ _. redacted) s)
  sanitized (arr vs) = sanitized_items vs
  sanitized (obj d) = sanitized_fields d

  sanitized_items : (vs : Items) → SanitizedItems (redact_items vs)
  sanitized_items nil = tt
  sanitized_items (cons v vs) = (sanitized v, sanitized_items vs)

  sanitized_fields : (d : Fields) → SanitizedFields (redact_fields d)
  sanitized_fields end = tt
  sanitized_fields (field k v d) = elim (Bool-cases (is_stripped k)) [
    | inl gone ↦ rw (gone, if◌then◌else◌) (sanitized_fields d)
    | inr kept ↦
        rw (kept, if◌then◌else◌)
          (let (mark, clean) = hidden (is_secret k) (redact v) (sanitized v) in
            (kept, mark, clean, sanitized_fields d))
  ]

abbrev pub assembled :
    Value → Value → List (String × Value) → List (String × Value) → Fields → Fields
assembled origin summary before after rest = field "_provenance" origin (
    field "system_summary" summary
      (fields_onto before (field "recent_logs" (arr nil) (fields_onto after rest))))

pub build_fixture-eq-ok :
    (artifacts : Artifacts) (artifact_dir device_id today : String) (fixture : Value)
    → build_fixture artifacts artifact_dir device_id today ≡ ok fixture
    → (origin summary : Value) × (before : List (String × Value)) × (after : List (String × Value))
      × (rest : Fields) × (load_tables artifacts first_tables ≡ ok before)
      × (load_tables artifacts last_tables ≡ ok after)
      × (fixture ≡ redact (obj (assembled origin summary before after rest)))
unfolding build_fixture
build_fixture-eq-ok artifacts artifact_dir device_id today fixture h =
    let (resource, _, h0) = >>=-eq-ok (first artifacts "system-resource") _ h in
    let (identity, _, h1) = >>=-eq-ok (first artifacts "system-identity") _ h0 in
    let (routerboard, _, h2) = >>=-eq-ok (first artifacts "system-routerboard") _ h1 in
    let (dns, _, h3) = >>=-eq-ok (first artifacts "dns-config") _ h2 in
    let (snmp, _, h4) = >>=-eq-ok (first artifacts "snmp-config") _ h3 in
    let (community, _, h5) = >>=-eq-ok (first artifacts "snmp-community") _ h4 in
    let (backups, _, h6) = >>=-eq-ok (load_json_artifact artifacts "backup-info") _ h5 in
    let (backup_info, _, h7) = >>=-eq-ok (backup_rows backups) _ h6 in
    let (version, _, h8) = >>=-eq-ok (version_of resource) _ h7 in
    let (before, b, h9) = >>=-eq-ok (load_tables artifacts first_tables) _ h8 in
    let (after, a, h10) = >>=-eq-ok (load_tables artifacts last_tables) _ h9 in
    (_, _, before, after, _, b, a, sym (ok-injective h10))

-- A fixture that is built holds at no depth a key that is stripped, the text `public`, or under a
-- secret key anything but the mark.
pub build_fixture-IsSanitized :
    (artifacts : Artifacts) (artifact_dir device_id today : String) (fixture : Value)
    → build_fixture artifacts artifact_dir device_id today ≡ ok fixture
    → IsSanitized fixture
build_fixture-IsSanitized artifacts artifact_dir device_id today fixture h =
    let (_, _, _, _, _, _, _, built) =
      build_fixture-eq-ok artifacts artifact_dir device_id today fixture h in
    subst IsSanitized (sym built) (sanitized _)

passes :
    (b : Bool) (j k : String) (w : Value) (d : Fields) {v : Value}
    → str_eq j k ≡ false
    → get? k d ≡ some v
    → get? k (if b then d else field j w d) ≡ some v
unfolding get?
passes true j k w d other h = h
passes false j k w d other h = rw (other, if◌then◌else◌) h

pub get?-redact_fields :
    (k : String) (d : Fields) {v : Value}
    → is_stripped k ≡ false
    → is_secret k ≡ false
    → get? k d ≡ some v
    → get? k (redact_fields d) ≡ some (redact v)
unfolding redact get?
get?-redact_fields k end kept shown h = cc
get?-redact_fields k (field j w d) kept shown h = elim (Bool-cases (str_eq j k)) [
  | inl same ↦
      let h' = rw (same, if◌then◌else◌) at h in
      rw ((eq_iff j k).0 same) (
        rw (kept, if◌then◌else◌)
          (rw (shown, if◌then◌else◌) (rw (eq_refl k, if◌then◌else◌) (cc h'))))
  | inr other ↦
      let more = get?-redact_fields k d kept shown (rw (other, if◌then◌else◌) at h) in
      passes (is_stripped j) j k _ (redact_fields d) other more
]

skipped :
    (k source target : String) (row : Fields) (names : List (String × String)) {v : Value}
    → str_eq target k ≡ false
    → get? k (pick row names) ≡ some v
    → get? k (pick row ((source, target) ∷ names)) ≡ some v
unfolding pick get?
skipped k source target row names other h = elim (Option-cases (get? source row)) [
  | inl gone ↦ rw (gone, pick) h
  | inr (w, held) ↦ rw (held, pick) (rw (other, if◌then◌else◌) h)
]

taken :
    (source target : String) (row : Fields) (names : List (String × String)) {v : Value}
    → get? source row ≡ some v
    → get? target (pick row ((source, target) ∷ names)) ≡ some (redact v)
unfolding pick get?
taken source target row names held = rw (held, pick) (rw (eq_refl target, if◌then◌else◌) refl)

-- The pre-shared key of a WireGuard peer is written to the fixture: the row of a peer takes it over
-- as `preshared_key`, which is not among the secret keys, so that what redaction leaves of the row
-- holds the key as it is, if it holds no MAC address and is not the text `public`.
pub preshared_key_shown :
    (row : Fields) (key : String)
    → get? "preshared-key" row ≡ some (str key)
    → redact_text key ≡ key
    → get? "preshared_key" (redact_fields (pick row wireguard_peers_keys)) ≡ some (str key)
unfolding is_stripped is_secret redact
preshared_key_shown row key held plain =
    get?-redact_fields "preshared_key" (pick row wireguard_peers_keys) refl refl (
      skipped "preshared_key" _ _ row _ refl
        (skipped "preshared_key" _ _ row _ refl (taken "preshared-key" "preshared_key" row _ held)))
    ∙ ap (λ s. some (str s)) (ap redact_text plain ∙ plain)
