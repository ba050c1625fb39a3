-- ===== src/Backend/Live/Connection.antt =====
-- What an attempt to connect leaves: one open connection as the inventory has it, or none.
use routeros_inspector_mcp.Base.{
  String, ◌≡◌, refl, Bool, true, false, not, some, List, [], ◌∷◌, ◌++◌, Dict, lookup, arith,
  if◌then◌else◌,
}
use routeros_inspector_mcp.Errors.{Result, ok, err}
use routeros_inspector_mcp.Config.{DeviceEntry}
use routeros_inspector_mcp.Credentials.{Credentials}
use routeros_inspector_mcp.Backend.Live.{
  TlsContext, ConnectArgs, Connected, connected, connection_closed, fatal_error, connect_failed,
  CertificateFile, no_file, empty_file, unreadable, certificate, Client, Event, opened, closed,
  Action, ◌>>=◌, pure, Kwargs, kwargs, refused, connect_kwargs, plain_args, connect_outcome,
  latin1_outcome, pinned, try_connect, try_latin1, entry_of, connect, connect_latin1,
  variable_prefix,
}

-- Each connection is closed before the next is opened, the last one too, and each meets `P`.
abbrev pub ArePaired : (ConnectArgs → Type 0) → List Event → Type 0
ArePaired P [] = Unit
ArePaired P (opened a ∷ closed b ∷ events) = (a ≡ b) × P a × ArePaired P events
ArePaired P (opened a ∷ opened b ∷ events) = ⊥
ArePaired P (opened a ∷ []) = ⊥
ArePaired P (closed a ∷ events) = ⊥

-- A context that trusts the pinned certificate only, for the name of the inventory, with no version of
-- TLS before 1.2.
pub record IsPinned (entry : DeviceEntry) (t : TlsContext) : Type 0 where
  pub cafile : t.cafile ≡ entry.routeros_api_certificate
  pub server_hostname : t.server_hostname ≡ entry.routeros_api_server_name
  pub minimum_version : t.minimum_version ≡ "TLSv1_2"
  pub check_hostname : t.check_hostname ≡ true
  pub verify_mode : t.verify_mode ≡ "CERT_REQUIRED"

-- The address and the port of the inventory, and over TLS a pinned context.
pub record Meets (entry : DeviceEntry) (args : ConnectArgs) : Type 0 where
  pub host : args.host ≡ entry.host
  pub port : args.port ≡ entry.routeros_api_port
  pub secured :
      entry.routeros_api_tls ≡ true → (t : TlsContext) × (args.tls ≡ some t) × IsPinned entry t

module _ (P : ConnectArgs → Type 0) where
  pub ArePaired-append :
      (before after : List Event)
      → ArePaired P before
      → ArePaired P after
      → ArePaired P (before ++ after)
  ArePaired-append [] after h k = k
  ArePaired-append (opened a ∷ closed b ∷ events) after (e, p, h) k =
      (e, p, ArePaired-append events after h k)
  ArePaired-append (opened a ∷ opened b ∷ events) after h k = absurd h
  ArePaired-append (opened a ∷ []) after h k = absurd h
  ArePaired-append (closed a ∷ events) after h k = absurd h

  pub >>=-ArePaired {ℓ κ} :
      {A : Type ℓ} {B : Type κ} (m : Action A) (f : A → Action B)
      → ArePaired P m.1
      → ((a : A) → ArePaired P (f a).1)
      → ArePaired P (m >>= f).1
  >>=-ArePaired (ok a, before) f h k = ArePaired-append before (f a).1 h (k a)
  >>=-ArePaired (err e, before) f h k = h

  -- An attempt leaves one open connection, or none.
  abbrev pub Opens : Action ConnectArgs → Type 0
  Opens (ok args, events) = (events ≡ opened args ∷ []) × P args
  Opens (err e, events) = events ≡ []

  abbrev Fits : Kwargs → Type 0
  Fits (kwargs args) = P args
  Fits (refused message) = Unit

  >>=-Opens {ℓ} :
      {A : Type ℓ} (r : Result A) (f : A → Action ConnectArgs)
      → ((a : A) → r ≡ ok a → Opens (f a))
      → Opens (pure r >>= f)
  >>=-Opens (ok a) f h = h a refl
  >>=-Opens (err e) f h = refl

module _ (client : Client) (resolve : String → Result Credentials)
    (devices : Dict DeviceEntry) where
  -- A connection to this device, as the inventory has it.
  abbrev pub IsFor : String → ConnectArgs → Type 0
  IsFor device_id args =
      (entry : DeviceEntry) × (lookup device_id devices ≡ some entry) × Meets entry args

  Fits-if :
      (entry : DeviceEntry) (creds : Credentials) (encoding : String) (b : Bool) (k : Kwargs)
      → entry.routeros_api_tls ≡ b
      → Fits (Meets entry) k
      → Fits
          (Meets entry)
          (if not b then kwargs (plain_args client resolve devices entry creds encoding) else k)
  Fits-if entry creds encoding true k tls h = h
  Fits-if entry creds encoding false k tls h = record {
    host = refl;
    port = refl;
    secured = λ on. cc;
  }

  pinned-Fits :
      (entry : DeviceEntry) (creds : Credentials) (encoding : String) (c : CertificateFile)
      → Fits (Meets entry) (pinned entry (plain_args client resolve devices entry creds encoding) c)
  pinned-Fits entry creds encoding certificate = record {
    host = refl;
    port = refl;
    secured = λ on. (
      _,
      refl,
      record {
        cafile = refl;
        server_hostname = refl;
        minimum_version = refl;
        check_hostname = refl;
        verify_mode = refl;
      },
    );
  }
  pinned-Fits entry creds encoding (unreadable message) = tt
  pinned-Fits entry creds encoding no_file = tt
  pinned-Fits entry creds encoding empty_file = tt

  connect_kwargs-Fits :
      (entry : DeviceEntry) (creds : Credentials) (encoding : String)
      → Fits (Meets entry) (connect_kwargs client resolve devices entry creds encoding)
  unfolding connect_kwargs
  connect_kwargs-Fits entry creds encoding =
      Fits-if entry creds encoding entry.routeros_api_tls _ refl
        (pinned-Fits entry creds encoding (client.certificate_file entry.routeros_api_certificate))

  entry_of-eq-ok :
      (device_id : String) (entry : DeviceEntry)
      → entry_of client resolve devices device_id ≡ ok entry
      → lookup device_id devices ≡ some entry
  entry_of-eq-ok device_id entry h = ground arith

  module _ (device_id : String) (entry : DeviceEntry)
      (known : lookup device_id devices ≡ some entry) where
    connect_outcome-Opens :
        (args : ConnectArgs) (c : Connected)
        → Meets entry args
        → Opens (IsFor device_id) (connect_outcome client resolve devices device_id entry args c)
    connect_outcome-Opens args connected h = (refl, (entry, known, h))
    connect_outcome-Opens args (connection_closed message) h = refl
    connect_outcome-Opens args (fatal_error message) h = refl
    connect_outcome-Opens args (connect_failed message) h = refl

    try_connect-Opens :
        (k : Kwargs)
        → Fits (Meets entry) k
        → Opens (IsFor device_id) (try_connect client resolve devices device_id entry k)
    try_connect-Opens (refused message) h = refl
    try_connect-Opens (kwargs args) h = connect_outcome-Opens args (client.connect args) h

    latin1_outcome-Opens :
        (args : ConnectArgs) (c : Connected)
        → Meets entry args
        → Opens (IsFor device_id) (latin1_outcome client resolve devices device_id args c)
    latin1_outcome-Opens args connected h = (refl, (entry, known, h))
    latin1_outcome-Opens args (connection_closed message) h = refl
    latin1_outcome-Opens args (fatal_error message) h = refl
    latin1_outcome-Opens args (connect_failed message) h = refl

    try_latin1-Opens :
        (k : Kwargs)
        → Fits (Meets entry) k
        → Opens (IsFor device_id) (try_latin1 client resolve devices device_id k)
    try_latin1-Opens (refused message) h = refl
    try_latin1-Opens (kwargs args) h = latin1_outcome-Opens args (client.connect args) h

  pub connect-Opens :
      (device_id : String) → Opens (IsFor device_id) (connect client resolve devices device_id)
  unfolding connect
  connect-Opens device_id =
      >>=-Opens (IsFor device_id) (entry_of client resolve devices device_id) _ λ entry found.
        >>=-Opens (IsFor device_id) (resolve (variable_prefix entry.credential_ref)) _ λ creds _.
          try_connect-Opens device_id entry (entry_of-eq-ok device_id entry found) _
            (connect_kwargs-Fits entry creds "UTF-8")

  pub connect_latin1-Opens :
      (device_id : String)
      → Opens (IsFor device_id) (connect_latin1 client resolve devices device_id)
  unfolding connect_latin1
  connect_latin1-Opens device_id =
      >>=-Opens (IsFor device_id) (entry_of client resolve devices device_id) _ λ entry found.
        >>=-Opens (IsFor device_id) (resolve (variable_prefix entry.credential_ref)) _ λ creds _.
          try_latin1-Opens device_id entry (entry_of-eq-ok device_id entry found) _
            (connect_kwargs-Fits entry creds "latin-1")
