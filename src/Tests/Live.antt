-- ===== src/Tests/Live.antt =====
-- The theorems on the vault and on the live backend, applied to a vault and a device.
use routeros_inspector_mcp.Base.{
  String, ◌≡◌, refl, true, List, [], ◌∷◌, ◌<>◌, pos, Dict, string_eq, keys, lookup, if◌then◌else◌,
  str_eq,
}
use routeros_inspector_mcp.Errors.{Exn, Result, ok, err, credential_error}
use routeros_inspector_mcp.Value.{Value, Fields, end, field, str, int, arr, nil, cons, truthy}
use routeros_inspector_mcp.Config.{DeviceEntry}
use routeros_inspector_mcp.Credentials.{
  Credentials, Vault, exited, resolve_credentials, read_vars, split_lines, vars_of,
}
use routeros_inspector_mcp.Credentials.Cache.{seen, resolve_credentials_hides}
use routeros_inspector_mcp.Backend.Live.{
  Client, ConnectArgs, connected, Printed, items, decode_error, certificate, text, Action,
  variable_prefix, query, live_call, get_recent_logs, connect, connect_latin1,
}
use routeros_inspector_mcp.Backend.Live.Connection.{ArePaired, IsFor}
use routeros_inspector_mcp.Backend.Live.Session.{live_call-ArePaired}
use routeros_inspector_mcp.Backend.Live.Failures.{IsLinkError, query_errors}
use routeros_inspector_mcp.Backend.Live.Logs.{AreLast, IsAnswer, get_recent_logs-AreRecent}
use routeros_inspector_mcp.Tests.Data.{entry}

abbrev lines : String → String
lines password = "# users\nro_username: alice\nro_password: " <> (password <> "\n")

abbrev vault_of : String → Vault
vault_of password = record {
  vault_file = "vault.yml";
  vault_file_exists = true;
  vault_pass = ".vault_pass";
  vault_pass_exists = true;
  view = exited (pos 0) (lines password);
}

abbrev vault : Vault
vault = vault_of "s3cret"

abbrev alice : Credentials
alice = record { username = "alice"; password = "s3cret" }

abbrev missing : Exn
missing =
    credential_error "Missing vault variables for 'rw': have keys ['ro_username', 'ro_password']"

same_keys : keys (vars_of (lines "s3cret")) ≡ keys (vars_of (lines "other"))
unfolding keys read_vars split_lines
same_keys = refl

fails : resolve_credentials (seen vault (pos 0) (lines "s3cret")) "rw" ≡ err missing
unfolding resolve_credentials
fails = refl

fails_alike : resolve_credentials (seen vault (pos 0) (lines "other")) "rw" ≡ err missing
unfolding resolve_credentials
fails_alike = refl

resolve_credentials_hides_example : missing ≡ missing
resolve_credentials_hides_example =
    resolve_credentials_hides vault (pos 0) (lines "s3cret") (lines "other") "rw" missing missing
      same_keys fails fails_alike

abbrev resolve : String → Result Credentials
resolve ref = ok alice

abbrev devices : Dict DeviceEntry
devices = ("gw", entry "gateway" true) ∷ []

-- A device whose log can only be read as latin-1.
abbrev print : ConnectArgs → List String → Printed
print args path =
    if str_eq args.encoding "UTF-8"
    then decode_error "invalid start byte"
    else items (
        (("topics", text "system,info") ∷ ("message", text "login") ∷ [])
        ∷ (("topics", text "wireless") ∷ [])
        ∷ [])

abbrev client : Client
client = record {
  connect = λ args. connected;
  print = print;
  certificate_file = λ path. certificate;
  decode = λ bytes. "";
}

live_call-ArePaired_example :
    ArePaired
      (IsFor client resolve devices "gw")
      (live_call client resolve devices "get_routes" "gw" end).1
live_call-ArePaired_example = live_call-ArePaired client resolve devices "get_routes" "gw" end

query_errors_example :
    ((e : Exn)
      → resolve (variable_prefix "ref") ≡ err e
      → ◌≡◌ {A = Action (List Fields)} (query client resolve devices "gw" ("log" ∷ [])) (err e, []))
    × ((creds : Credentials) (e : Exn)
        → resolve (variable_prefix "ref") ≡ ok creds
        → (query client resolve devices "gw" ("log" ∷ [])).0 ≡ err e
        → IsLinkError e)
unfolding lookup
query_errors_example =
    query_errors client resolve devices "gw" ("log" ∷ []) (entry "gateway" true) refl

abbrev login : Fields
login = field "topics" (str "system,info") (field "message" (str "login") end)

abbrev wireless : Fields
wireless = field "topics" (str "wireless") end

abbrev system_topic : Value
system_topic = arr (cons (str "system") nil)

abbrev shown : Value
shown = arr (cons (Value.obj login) nil)

answered : (get_recent_logs client resolve devices "gw" (int (pos 60)) system_topic).0 ≡ ok shown
unfolding get_recent_logs connect connect_latin1
answered = refl

get_recent_logs-AreRecent_example :
    ((get_recent_logs client resolve devices "gw" (int (pos 5)) system_topic).0 ≡ ok shown)
    × (found : List Fields) × (recent : List Fields) × ((query client resolve devices "gw"
          ("log" ∷ [])).0
        ≡ ok found)
    × AreLast found recent
    × IsAnswer system_topic recent shown true
unfolding truthy
get_recent_logs-AreRecent_example =
    get_recent_logs-AreRecent client resolve devices "gw" (pos 60) (pos 5) system_topic shown
      answered
