-- ===== src/Credentials.antt =====
-- credentials.py: a reference is resolved to a name and a password by reading the operator's vault. The
-- paths of its files are not modelled, only whether they are there.
pub mod Cache
use Prim.Native.String.{[] as stop, ◌∷◌ as ◌◂◌}
use routeros_inspector_mcp.Base.{
  ℕ, ◌-◌, String, ◌<>◌, Char, code, Bool, true, false, not, ◌&&◌, ◌||◌, Option, none, some, List,
  [], ◌∷◌, ℤ, pos, int_eq, map, Dict, lookup, insert, keys, take, nat_eq, str_eq, if◌then◌else◌,
}
use routeros_inspector_mcp.Errors.{Result, ok, err, credential_error, ◌>>=◌}
use routeros_inspector_mcp.Text.{strip, starts_with_char, between, push_front, show_int}
use routeros_inspector_mcp.Value.{arr, str, to_items}
use routeros_inspector_mcp.Value.Show.{repr, repr_str}

-- `Credentials`
pub record Credentials : Type 0 where
  pub username : String
  pub password : String

-- `Credentials.__repr__`
unfoldable pub repr_credentials : Credentials → String
unfolding repr_str
repr_credentials c = "Credentials(username=" <> (repr_str c.username <> ", password=***)")

-- The run of `ansible-vault view`.
pub data View : Type 0 where
  not_installed timed_out : View
  exited : ℤ → String → View

-- What `resolve_credentials` finds outside: whether the two files are there, with their paths, and
-- the run of the command.
pub record Vault : Type 0 where
  pub vault_file : String
  pub vault_file_exists : Bool
  pub vault_pass : String
  pub vault_pass_exists : Bool
  pub view : View

-- `_vault_variable_name`
abbrev pub vault_variable_name : String → String × String
vault_variable_name credential_ref = (credential_ref <> "_username", credential_ref <> "_password")

abbrev is_line_break : Char → Bool
is_line_break c =
    between 10 13 (code c)
    || between 28 30 (code c)
    || nat_eq (code c) 133
    || between 8232 8233 (code c)

-- `s.splitlines()`; the flag says that a carriage return stands before.
unfoldable pub split_lines : Bool → String → List String
split_lines after_return stop = []
split_lines after_return (c ◂ s) =
    let rest = split_lines false s in
    let next = split_lines (nat_eq (code c) 13) s in
    if after_return && nat_eq (code c) 10
    then rest
    else if is_line_break c
    then stop ∷ next
    else push_front c rest

-- `line.partition(":")`, for a line that holds a colon.
unfoldable pub partition_colon : String → Option (String × String)
partition_colon stop = none
partition_colon (c ◂ s) =
    let rest = partition_colon s in
    if nat_eq (code c) b':'
    then some (stop, s)
    else elim rest [ none ↦ none | some (key, value) ↦ some (c ◂ key, value) ]

-- A line of the vault, after `strip`.
abbrev put_line : String → Dict String → Dict String
put_line line vault_vars =
    if str_eq line "" || starts_with_char b'#' line
    then vault_vars
    else elim (partition_colon line) [
      | none ↦ vault_vars
      | some (key, value) ↦ insert (strip key) (strip value) vault_vars
    ]

unfoldable pub read_vars : List String → Dict String → Dict String
unfolding strip partition_colon insert
read_vars [] vault_vars = vault_vars
read_vars (line ∷ lines) vault_vars = read_vars lines (put_line (strip line) vault_vars)

abbrev pub vars_of : String → Dict String
vars_of stdout = read_vars (split_lines false stdout) []

abbrev missing_variables : String → List String → String
missing_variables credential_ref names =
    "Missing vault variables for "
    <> (repr_str credential_ref <> (": have keys " <> repr (arr (to_items (map str names)))))

-- `not value`, of what `vault_vars.get` returns.
abbrev pub is_missing : Option String → Bool
is_missing none = true
is_missing (some s) = str_eq s ""

abbrev pair_of : String → Dict String → Option String → Option String → Result Credentials
pair_of credential_ref vault_vars (some username) (some password) =
    if str_eq username "" || str_eq password ""
    then err (credential_error (missing_variables credential_ref (keys vault_vars)))
    else ok (record { username = username; password = password })
pair_of credential_ref vault_vars _ _ =
    err (credential_error (missing_variables credential_ref (keys vault_vars)))

-- The part after the command has run.
unfoldable pub pick_credentials : String → Dict String → Result Credentials
unfolding lookup keys
pick_credentials credential_ref vault_vars =
    let (username_var, password_var) = vault_variable_name credential_ref in
    pair_of credential_ref vault_vars (lookup username_var vault_vars)
      (lookup password_var vault_vars)

abbrev view_vault : View → String → Result Credentials
view_vault not_installed credential_ref =
    err (credential_error "ansible-vault not found. Install ansible-core.")
view_vault timed_out credential_ref = err (credential_error "ansible-vault subprocess timed out")
view_vault (exited returncode stdout) credential_ref =
    if int_eq returncode (pos 0)
    then pick_credentials credential_ref (vars_of stdout)
    else err (
        credential_error (
          "ansible-vault failed (rc="
          <> (show_int returncode <> (") for " <> repr_str credential_ref))))

-- `resolve_credentials`, without its cache.
unfoldable pub resolve_credentials : Vault → String → Result Credentials
unfolding pick_credentials read_vars split_lines repr repr_str show_int
resolve_credentials vault credential_ref =
    if not vault.vault_file_exists
    then err (
        credential_error (
          "Vault file not found: "
          <> (vault.vault_file
              <> ". Set ROUTEROS_INSPECTOR_VAULT_DIR or ROUTEROS_INSPECTOR_VAULT_FILE")))
    else if not vault.vault_pass_exists
    then err (credential_error ("Vault password file not found: " <> vault.vault_pass))
    else view_vault vault.view credential_ref

-- `lru_cache(maxsize=16)`: the references that were resolved last, the latest first.
abbrev pub CredentialCache : Type 0
CredentialCache = Dict Credentials

abbrev pub maxsize : ℕ
maxsize = 16

unfoldable pub without : String → CredentialCache → CredentialCache
without k [] = []
without k ((j, c) ∷ cache) =
    let rest = without k cache in if str_eq j k then rest else (j, c) ∷ rest

abbrev remember :
    String → Result Credentials → CredentialCache → Result Credentials × CredentialCache
remember credential_ref (ok c) cache = (ok c, take maxsize ((credential_ref, c) ∷ cache))
remember credential_ref (err e) cache = (err e, cache)

-- A call of the cached function.
unfoldable pub resolve_cached :
    Vault → String → CredentialCache → Result Credentials × CredentialCache
unfolding resolve_credentials lookup without
resolve_cached vault credential_ref cache = elim (lookup credential_ref cache) [
  | none ↦ remember credential_ref (resolve_credentials vault credential_ref) cache
  | some c ↦ (ok c, (credential_ref, c) ∷ without credential_ref cache)
]
