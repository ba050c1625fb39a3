-- ===== src/Backend/Live/Calls.antt =====
-- backends/routeros_api.py: a connection, and the query that it is for, with the retry in latin-1.
use routeros_inspector_mcp.Base.{
  String, ◌<>◌, true, not, none, some, List, [], ◌∷◌, ◌++◌, Dict, lookup, string_eq, if◌then◌else◌,
}
use routeros_inspector_mcp.Errors.{
  Exn, backend_error, service_error, value_error, credential_error, other_error, Result, ok, err,
}
use routeros_inspector_mcp.Text.{split_on, show_nat, join}
use routeros_inspector_mcp.Value.{Fields, end}
use routeros_inspector_mcp.Value.Show.{repr_str}
use routeros_inspector_mcp.Config.{DeviceEntry}
use routeros_inspector_mcp.Credentials.{Credentials}
use routeros_inspector_mcp.Backend.Live.Library.{
  ConnectArgs, Connected, connected, connection_closed, fatal_error, connect_failed, Printed, items,
  decode_error, print_failed, CertificateFile, unreadable, certificate, Client, opened, closed,
  Action, ◌>>=◌, pure, Kwargs, kwargs, refused,
}
use routeros_inspector_mcp.Backend.Live.Rows.{dict_from_api_item, dicts_of}

abbrev last_of : String → List String → String
last_of s [] = s
last_of s (t ∷ ts) = last_of t ts

-- `ref.rsplit(":", 1)[-1]`, and the whole of a reference without a colon.
unfoldable pub variable_prefix : String → String
unfolding split_on
variable_prefix ref = last_of "" (split_on b':' ref)

-- `str(BackendError(label, message))`: a dataclass does not set the message of `Exception`.
abbrev str_backend_error : String → String → String
str_backend_error label message = "(" <> (repr_str label <> (", " <> (repr_str message <> ")")))

abbrev pub unreachable : String → Exn
unreachable message = backend_error "unreachable" message

abbrev pub pinned : DeviceEntry → ConnectArgs → CertificateFile → Kwargs
pinned entry args certificate = kwargs (record args {
  tls = some (record {
    cafile = entry.routeros_api_certificate;
    minimum_version = "TLSv1_2";
    check_hostname = true;
    verify_mode = "CERT_REQUIRED";
    server_hostname = entry.routeros_api_server_name;
  });
})
pinned entry args (unreadable message) = refused message
pinned entry args _ = refused (
    str_backend_error "unreachable"
      ("Pinned RouterOS TLS certificate is missing or empty for " <> entry.host))

abbrev first_of : List Fields → Fields
first_of [] = end
first_of (d ∷ ds) = d

-- `str(e)`
abbrev message_of : Exn → String
message_of (backend_error label message) = str_backend_error label message
message_of (service_error label) = label
message_of (value_error message) = message
message_of (credential_error message) = message
message_of (other_error name) = name

module _ (client : Client) (resolve : String → Result Credentials)
    (devices : Dict DeviceEntry) where
  abbrev pub plain_args : DeviceEntry → Credentials → String → ConnectArgs
  plain_args entry creds encoding = record {
    host = entry.host;
    username = creds.username;
    password = creds.password;
    port = entry.routeros_api_port;
    timeout = 10;
    encoding = encoding;
    tls = none;
  }

  unfoldable pub connect_kwargs : DeviceEntry → Credentials → String → Kwargs
  connect_kwargs entry creds encoding =
      if not entry.routeros_api_tls
      then kwargs (plain_args entry creds encoding)
      else pinned entry (plain_args entry creds encoding)
          (client.certificate_file entry.routeros_api_certificate)

  abbrev connection_failed : String → String → Action ConnectArgs
  connection_failed device_id message =
      pure (err (unreachable ("Connection failed for " <> (device_id <> (": " <> message)))))

  -- The `except` clauses of `_connect`.
  abbrev pub connect_outcome : String → DeviceEntry → ConnectArgs → Connected → Action ConnectArgs
  connect_outcome device_id entry args connected = (ok args, opened args ∷ [])
  connect_outcome device_id entry args (connection_closed _) = pure (
      err (
        unreachable (
          "Cannot reach "
          <> (device_id <> (" at " <> (entry.host <> (":" <> show_nat entry.routeros_api_port)))))))
  connect_outcome device_id entry args (fatal_error _) =
      pure (err (backend_error "auth" ("Auth failed for " <> device_id)))
  connect_outcome device_id entry args (connect_failed message) =
      connection_failed device_id message

  abbrev pub try_connect : String → DeviceEntry → Kwargs → Action ConnectArgs
  try_connect device_id entry (refused message) = connection_failed device_id message
  try_connect device_id entry (kwargs args) =
      connect_outcome device_id entry args (client.connect args)

  -- `_connect_latin1` has one `except` for all.
  abbrev pub latin1_outcome : String → ConnectArgs → Connected → Action ConnectArgs
  latin1_outcome device_id args connected = (ok args, opened args ∷ [])
  latin1_outcome device_id args (connection_closed message) = connection_failed device_id message
  latin1_outcome device_id args (fatal_error message) = connection_failed device_id message
  latin1_outcome device_id args (connect_failed message) = connection_failed device_id message

  abbrev pub try_latin1 : String → Kwargs → Action ConnectArgs
  try_latin1 device_id (refused message) = connection_failed device_id message
  try_latin1 device_id (kwargs args) = latin1_outcome device_id args (client.connect args)

  -- `self._devices[device_id]`
  abbrev pub entry_of : String → Result DeviceEntry
  entry_of device_id = elim (lookup device_id devices) [
    | none ↦ err (other_error "KeyError")
    | some entry ↦ ok entry
  ]

  -- `_connect`
  unfoldable pub connect : String → Action ConnectArgs
  unfolding connect_kwargs variable_prefix lookup show_nat repr_str
  connect device_id = do
    entry ← pure (entry_of device_id)
    creds ← pure (resolve (variable_prefix entry.credential_ref))
    try_connect device_id entry (connect_kwargs entry creds "UTF-8")

  -- `_connect_latin1`
  unfoldable pub connect_latin1 : String → Action ConnectArgs
  unfolding connect_kwargs variable_prefix lookup repr_str
  connect_latin1 device_id = do
    entry ← pure (entry_of device_id)
    creds ← pure (resolve (variable_prefix entry.credential_ref))
    try_latin1 device_id (connect_kwargs entry creds "latin-1")

  abbrev query_failed : String → List String → String → Result (List Fields)
  query_failed device_id path message = err (
      unreachable
        ("Query failed for " <> (device_id <> (" on " <> (join "/" path <> (": " <> message))))))

  -- The second `print`: whatever it raises fails the query, and the connection is closed.
  abbrev pub retried : String → List String → Printed → Result (List Fields)
  retried device_id path (items rows) = ok (dicts_of client.decode rows)
  retried device_id path (decode_error message) = query_failed device_id path message
  retried device_id path (print_failed message) = query_failed device_id path message

  abbrev pub retry : String → List String → Action ConnectArgs → Action (List Fields)
  retry device_id path (err e, events) = (query_failed device_id path (message_of e), events)
  retry device_id path (ok args, events) =
      (retried device_id path (client.print args path), events ++ (closed args ∷ []))

  abbrev pub after_print : String → List String → ConnectArgs → Printed → Action (List Fields)
  after_print device_id path args (items rows) =
      (ok (dicts_of client.decode rows), closed args ∷ [])
  after_print device_id path args (print_failed message) =
      (query_failed device_id path message, closed args ∷ [])
  after_print device_id path args (decode_error message) =
      let (r, events) = retry device_id path (connect_latin1 device_id) in (r, closed args ∷ events)

  -- `_query`
  unfoldable pub query : String → List String → Action (List Fields)
  unfolding connect connect_latin1 dict_from_api_item repr_str
  query device_id path = do
    args ← connect device_id
    after_print device_id path args (client.print args path)

  -- `_query_single`
  unfoldable pub query_single : String → List String → Action Fields
  unfolding query
  query_single device_id path = do found ← query device_id path; pure (ok (first_of found))
