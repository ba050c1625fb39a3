-- ===== src/Config/Laws.antt =====
-- What every device of a loaded inventory satisfies.
use routeros_inspector_mcp.Base.{
  Bool-cases, ◌⊎◌, inl, inr, ◌≡◌, ◌≢◌, ◌↔◌, true, false, arith, string_eq, eq_iff,
}
use routeros_inspector_mcp.Errors.{ok}
use routeros_inspector_mcp.Config.{DeviceEntry, validate_routeros_api_tls}

-- With TLS an entry uses the API transport on port 8729 and names a certificate and a server;
-- without it none of these is set.
abbrev pub TlsIsConsistent : DeviceEntry → Type 0
TlsIsConsistent e =
    ((e.routeros_api_tls ≡ true)
      × (e.transport ≡ "api")
      × (e.routeros_api_port ≡ 8729)
      × (e.routeros_api_certificate ≢ "")
      × (e.routeros_api_server_name ≢ ""))
    ⊎ ((e.routeros_api_tls ≡ false)
        × (e.routeros_api_port ≢ 8729)
        × (e.routeros_api_certificate ≡ "")
        × (e.routeros_api_server_name ≡ ""))

module _ (e f : DeviceEntry) where
  with_tls :
      e.routeros_api_tls ≡ true
      → validate_routeros_api_tls e ≡ ok f
      → (e.transport ≡ "api")
        × (e.routeros_api_port ≡ 8729)
        × (e.routeros_api_certificate ≢ "")
        × (e.routeros_api_server_name ≢ "")
  unfolding validate_routeros_api_tls
  with_tls t h = ground (
    arith,
    eq_iff e.transport "api",
    eq_iff e.routeros_api_certificate "",
    eq_iff e.routeros_api_server_name "",
  )

  without_tls :
      e.routeros_api_tls ≡ false
      → validate_routeros_api_tls e ≡ ok f
      → (e.routeros_api_port ≢ 8729)
        × (e.routeros_api_certificate ≡ "")
        × (e.routeros_api_server_name ≡ "")
  unfolding validate_routeros_api_tls
  without_tls t h =
      ground (arith, eq_iff e.routeros_api_certificate "", eq_iff e.routeros_api_server_name "")

  unchanged : validate_routeros_api_tls e ≡ ok f → e ≡ f
  unfolding validate_routeros_api_tls
  unchanged h = ground arith

  validated : validate_routeros_api_tls e ≡ ok f → TlsIsConsistent e × (e ≡ f)
  validated h = elim (Bool-cases e.routeros_api_tls) [
    | inl t ↦ let (a, b, c, d) = with_tls t h in (inl (t, a, b, c, d), unchanged h)
    | inr t ↦ let (a, b, c) = without_tls t h in (inr (t, a, b, c), unchanged h)
  ]

  accepted : TlsIsConsistent e → e ≡ f → validate_routeros_api_tls e ≡ ok f
  unfolding validate_routeros_api_tls
  accepted (inl (t, a, b, c, d)) p = ground (
    arith,
    eq_iff e.transport "api",
    eq_iff e.routeros_api_certificate "",
    eq_iff e.routeros_api_server_name "",
  )
  accepted (inr (t, a, b, c)) p =
      ground (arith, eq_iff e.routeros_api_certificate "", eq_iff e.routeros_api_server_name "")

-- The validator accepts exactly the entries with a consistent TLS setting, and changes none.
pub validate_routeros_api_tls_iff :
    (e f : DeviceEntry) → (validate_routeros_api_tls e ≡ ok f) ↔ (TlsIsConsistent e × (e ≡ f))
validate_routeros_api_tls_iff e f = (validated e f, λ (h, p). accepted e f h p)
