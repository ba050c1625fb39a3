-- ===== src/Tests/Shown.antt =====
-- The theorems on redaction, applied to the record of a WireGuard peer.
use routeros_inspector_mcp.Base.{◌≡◌, refl, true, String, string_eq}
use routeros_inspector_mcp.Value.{str, obj, Fields, end, field}
use routeros_inspector_mcp.Redaction.{redact, should_redact_key}
use routeros_inspector_mcp.Redaction.Laws.{
  in_dict, secret, no_fields, same, shown, redact_hides_secrets,
}

abbrev peer : String → Fields
peer key = field "name" (str "office") (field "private-key" (str key) end)

secret_key : should_redact_key "private-key" ≡ true
unfolding should_redact_key
secret_key = refl

redact_hides_secrets_example : redact (obj (peer "one")) ≡ redact (obj (peer "two"))
redact_hides_secrets_example = redact_hides_secrets (obj (peer "one")) (obj (peer "two")) (
    in_dict (
      shown "name" (same (str "office"))
        (secret "private-key" (str "one") (str "two") secret_key no_fields)))
