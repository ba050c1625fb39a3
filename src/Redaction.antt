-- ===== src/Redaction.antt =====
-- redaction.py: secrets are taken out of every text and every value that leaves the service.
pub mod Pattern
mod Address
pub mod Keys
pub mod Laws
use routeros_inspector_mcp.Base.{
  Char, code, String, Bool, true, false, ◌&&◌, ◌||◌, Option, none, some, List, [], ◌∷◌, ◌++◌, map,
  contains, string_eq, str_eq, nat_eq, if◌then◌else◌,
}
use routeros_inspector_mcp.Errors.{Exn, error_class}
use routeros_inspector_mcp.Text.{
  is_digit, is_letter, is_space, of_code, lower, lower_char, dash_to_underscore,
}
use routeros_inspector_mcp.Value.{
  Value, null, bool, int, str, arr, obj, Items, nil, cons, Fields, end, field,
}
use Pattern.{Piece, boundary, repeat, at_least, one, optional, is_char, any_case, sub, match_at}
use Address.{ip_address, is_global}

abbrev pub redacted : String
redacted = "***REDACTED***"

abbrev dash_or_underscore : Char → Bool
dash_or_underscore c = is_char "-" c || is_char "_" c

-- `_SECRET_PATTERNS`
abbrev secret_patterns : List (String × List Piece)
secret_patterns =
    (
      "wireguard-private-key",
      repeat 43 43 (λ c. is_letter c || is_digit c || is_char "+" c || is_char "/" c)
          ∷ one (is_char "=")
          ∷ [],
    )
    ∷ (
      "snmp-community",
      one (is_char "\"")
          ∷ at_least 8 (λ c. is_letter c || is_digit c || dash_or_underscore c)
          ∷ one (is_char "\"")
          ∷ [],
    )
    ∷ ("password", boundary ∷ (any_case "password" ++ boundary ∷ []))
    ∷ ("token", boundary ∷ (any_case "token" ++ boundary ∷ []))
    ∷ ("secret", boundary ∷ (any_case "secret" ++ boundary ∷ []))
    ∷ (
      "private-key",
      any_case "private" ++ (optional dash_or_underscore ∷ (any_case "key" ++ boundary ∷ [])),
    )
    ∷ (
      "api-key",
      any_case "api" ++ (optional dash_or_underscore ∷ (any_case "key" ++ boundary ∷ [])),
    )
    ∷ ("certificate", any_case "begin" ++ (at_least 1 is_space ∷ any_case "certificate"))
    ∷ []

-- `_REDACT_VALUE_KEYS`
abbrev pub redact_value_keys : List String
redact_value_keys =
    "password" ∷ "token" ∷ "secret" ∷ "private_key" ∷ "private-key" ∷ "wireguard_private_key"
    ∷ "wireguard-private-key" ∷ "snmp_community" ∷ "snmp-community" ∷ "api_key" ∷ "api-key"
    ∷ "certificate" ∷ "cert" ∷ "pre_shared_key" ∷ "pre-shared-key" ∷ "preshared_key"
    ∷ "preshared-key" ∷ "public_key" ∷ "public-key" ∷ []

-- `_IPV4_PATTERN`
abbrev ipv4_pattern : List Piece
ipv4_pattern =
    boundary
    ∷ repeat 1 3 is_digit
    ∷ one (is_char ".")
    ∷ repeat 1 3 is_digit
    ∷ one (is_char ".")
    ∷ repeat 1 3 is_digit
    ∷ one (is_char ".")
    ∷ repeat 1 3 is_digit
    ∷ boundary
    ∷ []

-- `_SAFE_ERROR_LABELS`
abbrev pub safe_error_labels : List String
safe_error_labels =
    "auth" ∷ "denied" ∷ "hostkey_mismatch" ∷ "internal_error" ∷ "not_implemented" ∷ "parse_error"
    ∷ "timeout" ∷ "unreachable" ∷ "unsupported_version" ∷ []

-- The inner `replace` of `_redact_public_ip_matches`.
unfoldable pub replace_address : String → String
unfolding ip_address is_global
replace_address candidate = elim (ip_address candidate) [
  | none ↦ candidate
  | some address ↦ if is_global address then redacted else candidate
]

unfoldable pub redact_public_ip_matches : String → String
unfolding sub replace_address
redact_public_ip_matches value = sub ipv4_pattern replace_address value

unfoldable pub apply_patterns : List (String × List Piece) → String → String
unfolding sub lower_char of_code
apply_patterns [] result = result
apply_patterns ((_, pattern') ∷ rest) result =
    apply_patterns rest (sub pattern' (λ _. redacted) result)

unfoldable pub redact_string : String → String
unfolding redact_public_ip_matches apply_patterns
redact_string value = apply_patterns secret_patterns (redact_public_ip_matches value)

unfoldable pub safe_error_label : Exn → String
safe_error_label exc = elim (error_class exc) [
  | none ↦ "internal_error"
  | some label ↦ if contains safe_error_labels label then label else "internal_error"
]

abbrev pub normalise : String → String
normalise key = dash_to_underscore (lower key)

unfoldable pub should_redact_key : String → Bool
unfolding lower dash_to_underscore
should_redact_key key = contains (map normalise redact_value_keys) (normalise key)

unfoldable mutual
  pub redact : Value → Value
  redact (obj d) = obj (redact_fields d)
  redact (arr items) = arr (redact_items items)
  redact (str s) = str (redact_string s)
  redact null = null
  redact (bool b) = bool b
  redact (int i) = int i

  pub redact_items : Items → Items
  redact_items nil = nil
  redact_items (cons v vs) = cons (redact v) (redact_items vs)

  pub redact_fields : Fields → Fields
  redact_fields end = end
  redact_fields (field k v d) =
      field k (if should_redact_key k then str redacted else redact v) (redact_fields d)
