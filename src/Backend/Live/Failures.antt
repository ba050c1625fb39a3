-- ===== src/Backend/Live/Failures.antt =====
-- What a query of a live device raises.
use mathlib.Core.Path.{subst}
use routeros_inspector_mcp.Base.{String, ◌≡◌, refl, ◌⊎◌, inl, inr, some, List, [], Dict, lookup}
use routeros_inspector_mcp.Errors.{Exn, backend_error, Result, ok, err}
use routeros_inspector_mcp.Value.{Fields}
use routeros_inspector_mcp.Config.{DeviceEntry}
use routeros_inspector_mcp.Credentials.{Credentials}
use routeros_inspector_mcp.Backend.Live.{
  ConnectArgs, Connected, connected, connection_closed, fatal_error, connect_failed, Printed, items,
  decode_error, print_failed, Client, Action, ◌>>=◌, Kwargs, kwargs, refused, connect_kwargs,
  try_connect, connect_outcome, connect, connect_latin1, retried, retry, after_print, query,
  variable_prefix, entry_of,
}

-- A `BackendError` for a device that cannot be reached, or that refuses the login.
abbrev pub IsLinkError : Exn → Type 0
IsLinkError (backend_error label message) = (label ≡ "unreachable") ⊎ (label ≡ "auth")
IsLinkError _ = ⊥

abbrev LinkResult {ℓ} : {A : Type ℓ} → Result A → Type 0
LinkResult (ok a) = Unit
LinkResult (err e) = IsLinkError e

>>=-LinkResult {ℓ κ} :
    {A : Type ℓ} {B : Type κ} (m : Action A) (f : A → Action B)
    → LinkResult m.0
    → ((a : A) → LinkResult (f a).0)
    → LinkResult (m >>= f).0
>>=-LinkResult (ok a, events) f h k = k a
>>=-LinkResult (err e, events) f h k = h

IsLinkError-of {ℓ} :
    {A : Type ℓ} (r : Result A) (e : Exn) → LinkResult r → r ≡ err e → IsLinkError e
IsLinkError-of r e h p = subst LinkResult p h

module _ (client : Client) (resolve : String → Result Credentials)
    (devices : Dict DeviceEntry) where
  connect_outcome-LinkResult :
      (device_id : String) (entry : DeviceEntry) (args : ConnectArgs) (c : Connected)
      → LinkResult (connect_outcome client resolve devices device_id entry args c).0
  connect_outcome-LinkResult device_id entry args connected = tt
  connect_outcome-LinkResult device_id entry args (connection_closed message) = inl refl
  connect_outcome-LinkResult device_id entry args (fatal_error message) = inr refl
  connect_outcome-LinkResult device_id entry args (connect_failed message) = inl refl

  try_connect-LinkResult :
      (device_id : String) (entry : DeviceEntry) (k : Kwargs)
      → LinkResult (try_connect client resolve devices device_id entry k).0
  try_connect-LinkResult device_id entry (refused message) = inl refl
  try_connect-LinkResult device_id entry (kwargs args) =
      connect_outcome-LinkResult device_id entry args (client.connect args)

  retried-LinkResult :
      (device_id : String) (path : List String) (printed : Printed)
      → LinkResult (retried client resolve devices device_id path printed)
  retried-LinkResult device_id path (items rows) = tt
  retried-LinkResult device_id path (decode_error message) = inl refl
  retried-LinkResult device_id path (print_failed message) = inl refl

  retry-LinkResult :
      (device_id : String) (path : List String) (m : Action ConnectArgs)
      → LinkResult (retry client resolve devices device_id path m).0
  retry-LinkResult device_id path (err e, events) = inl refl
  retry-LinkResult device_id path (ok args, events) =
      retried-LinkResult device_id path (client.print args path)

  after_print-LinkResult :
      (device_id : String) (path : List String) (args : ConnectArgs) (printed : Printed)
      → LinkResult (after_print client resolve devices device_id path args printed).0
  after_print-LinkResult device_id path args (items rows) = tt
  after_print-LinkResult device_id path args (print_failed message) = inl refl
  after_print-LinkResult device_id path args (decode_error message) =
      retry-LinkResult device_id path (connect_latin1 client resolve devices device_id)

  connect_unresolved :
      (device_id : String) (entry : DeviceEntry) (e : Exn)
      → lookup device_id devices ≡ some entry
      → resolve (variable_prefix entry.credential_ref) ≡ err e
      → ◌≡◌ {A = Action ConnectArgs} (connect client resolve devices device_id) (err e, [])
  unfolding connect
  connect_unresolved device_id entry e known failed = rw (known, entry_of) (rw (failed, ◌>>=◌) refl)

  connect-LinkResult :
      (device_id : String) (entry : DeviceEntry) (creds : Credentials)
      → lookup device_id devices ≡ some entry
      → resolve (variable_prefix entry.credential_ref) ≡ ok creds
      → LinkResult (connect client resolve devices device_id).0
  unfolding connect
  connect-LinkResult device_id entry creds known resolved =
      rw (known, entry_of)
        (rw (resolved, ◌>>=◌)
          (try_connect-LinkResult device_id entry
            (connect_kwargs client resolve devices entry creds "UTF-8")))

  -- How a query of a device of the inventory fails: where the credentials cannot be resolved, with that
  -- very exception and no connection opened; otherwise only with a `BackendError` labelled `unreachable`
  -- or `auth`.
  pub query_errors :
      (device_id : String) (path : List String) (entry : DeviceEntry)
      → lookup device_id devices ≡ some entry
      → ((e : Exn)
          → resolve (variable_prefix entry.credential_ref) ≡ err e
          → ◌≡◌ {A = Action (List Fields)}
              (query client resolve devices device_id path)
              (err e, []))
        × ((creds : Credentials) (e : Exn)
            → resolve (variable_prefix entry.credential_ref) ≡ ok creds
            → (query client resolve devices device_id path).0 ≡ err e
            → IsLinkError e)
  unfolding query
  query_errors device_id path entry known = (
    λ e failed. rw (connect_unresolved device_id entry e known failed, ◌>>=◌) refl,
    λ creds e resolved h.
        IsLinkError-of (query client resolve devices device_id path).0 e
          (>>=-LinkResult (connect client resolve devices device_id)
            (λ args.
              after_print client resolve devices device_id path args (client.print args path))
            (connect-LinkResult device_id entry creds known resolved)
            λ args. after_print-LinkResult device_id path args (client.print args path))
          h,
  )
