-- ===== src/Refresh/Redact.antt =====
-- scripts/refresh_routeros_fixture.py: how secrets are taken out of a captured value.
use routeros_inspector_mcp.Base.{
  String, Char, code, Bool, ◌||◌, List, [], ◌∷◌, ◌++◌, contains, string_eq, str_eq, if◌then◌else◌,
}
use routeros_inspector_mcp.Text.{between, is_digit, lower, dash_to_underscore}
use routeros_inspector_mcp.Value.{
  Value, null, bool, int, str, arr, obj, Items, nil, cons, Fields, end, field,
}
use routeros_inspector_mcp.Redaction.{redacted}
use routeros_inspector_mcp.Redaction.Pattern.{Piece, boundary, repeat, one, is_char, sub}

abbrev is_hex : Char → Bool
is_hex c = is_digit c || between b'A' b'F' (code c) || between b'a' b'f' (code c)

abbrev byte_of_mac : List Piece
byte_of_mac = one (is_char ":") ∷ repeat 2 2 is_hex ∷ []

-- `MAC_RE`
abbrev pub mac_pattern : List Piece
mac_pattern =
    boundary
    ∷ repeat 2 2 is_hex
    ∷ (byte_of_mac
        ++ (byte_of_mac ++ (byte_of_mac ++ (byte_of_mac ++ (byte_of_mac ++ (boundary ∷ []))))))

-- `STRIP_KEYS`
abbrev pub strip_keys : List String
strip_keys = ".id" ∷ ".nextid" ∷ "debug-info" ∷ "debug_info" ∷ "engine-id" ∷ "engine_id" ∷ []

-- `SECRET_VALUE_KEYS`
abbrev pub secret_value_keys : List String
secret_value_keys =
    "mac_address" ∷ "mac-address" ∷ "serial_number" ∷ "serial-number" ∷ "authentication_password"
    ∷ "authentication-password" ∷ "encryption_password" ∷ "encryption-password" ∷ "password"
    ∷ "secret" ∷ "private_key" ∷ "private-key" ∷ "pre_shared_key" ∷ "pre-shared-key" ∷ "public_key"
    ∷ "public-key" ∷ []

-- `key in keys or normalized in keys`
abbrev pub named_in : List String → String → Bool
named_in names key = contains names key || contains names (dash_to_underscore (lower key))

unfoldable pub is_stripped : String → Bool
unfolding lower dash_to_underscore
is_stripped key = named_in strip_keys key

unfoldable pub is_secret : String → Bool
unfolding lower dash_to_underscore
is_secret key = named_in secret_value_keys key

unfoldable pub redact_text : String → String
unfolding sub
redact_text value =
    let value' = sub mac_pattern (λ _. redacted) value in
    if str_eq value' "public" then redacted else value'

unfoldable mutual
  pub redact : Value → Value
  redact (obj d) = obj (redact_fields d)
  redact (arr items) = arr (redact_items items)
  redact (str s) = str (redact_text s)
  redact null = null
  redact (bool b) = bool b
  redact (int i) = int i

  pub redact_items : Items → Items
  redact_items nil = nil
  redact_items (cons v vs) = cons (redact v) (redact_items vs)

  pub redact_fields : Fields → Fields
  redact_fields end = end
  redact_fields (field k v d) =
      let rest = redact_fields d in
      if is_stripped k then rest else field k (if is_secret k then str redacted else redact v) rest
