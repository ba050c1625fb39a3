-- ===== src/Backend/Live/Library.antt =====
-- backends/routeros_api.py: what it uses of librouteros, and a call with the events that it causes.
use routeros_inspector_mcp.Base.{ℕ, String, Bool, Option, List, [], ◌++◌, ℤ, string_eq}
use routeros_inspector_mcp.Errors.{Result, ok, err}
use routeros_inspector_mcp.Value.{Value}

-- A value that librouteros returns.
pub data ApiValue : Type 0 where
  text : String → ApiValue
  number : ℤ → ApiValue
  flag : Bool → ApiValue
  octets : List ℕ → ApiValue
  sequence : List Value → ApiValue

abbrev pub ApiItem : Type 0
ApiItem = List (String × ApiValue)

-- The context of a socket that is wrapped by TLS, and the name that it is wrapped for.
pub record TlsContext : Type 0 where
  pub cafile : String
  pub minimum_version : String
  pub check_hostname : Bool
  pub verify_mode : String
  pub server_hostname : String

-- The keyword arguments of `librouteros.connect`; `tls` is the context that `ssl_wrapper` wraps with.
pub record ConnectArgs : Type 0 where
  pub host : String
  pub username : String
  pub password : String
  pub port : ℕ
  pub timeout : ℕ
  pub encoding : String
  pub tls : Option TlsContext

pub data Connected : Type 0 where
  connected : Connected
  connection_closed fatal_error connect_failed : String → Connected

pub data Printed : Type 0 where
  items : List ApiItem → Printed
  decode_error : String → Printed
  print_failed : String → Printed

pub data CertificateFile : Type 0 where
  no_file empty_file : CertificateFile
  unreadable : String → CertificateFile
  certificate : CertificateFile

-- The library, the certificate files, and `bytes.decode("utf-8", errors="replace")`.
pub record Client : Type 0 where
  pub connect : ConnectArgs → Connected
  pub print : ConnectArgs → List String → Printed
  pub certificate_file : String → CertificateFile
  pub decode : List ℕ → String

-- A connection is opened, or closed.
pub data Event : Type 0 where
  opened : ConnectArgs → Event
  closed : ConnectArgs → Event

-- A call with the events that it caused, also where it raises.
abbrev pub Action {ℓ} : Type ℓ → Type ℓ
Action A = Result A × List Event

infixl 5 ◌>>=◌
abbrev pub ◌>>=◌ {ℓ κ} : {A : Type ℓ} {B : Type κ} → Action A → (A → Action B) → Action B
(ok a, before) >>= next = let (r, after) = next a in (r, before ++ after)
(err e, before) >>= next = (err e, before)

abbrev pub pure {ℓ} : {A : Type ℓ} → Result A → Action A
pure r = (r, [])

-- What `_connect_kwargs` returns, or the text of what it raises.
pub data Kwargs : Type 0 where
  kwargs : ConnectArgs → Kwargs
  refused : String → Kwargs
