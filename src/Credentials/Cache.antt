-- ===== src/Credentials/Cache.antt =====
-- What a failed resolution of credentials says.
use routeros_inspector_mcp.Base.{
  String, ◌≡◌, sym, ap, ◌∙◌, Bool, true, false, not, ◌||◌, Option, none, some, ℤ, pos, int_eq, Dict,
  lookup, keys, str_eq, if◌then◌else◌,
}
use routeros_inspector_mcp.Errors.{Exn, credential_error, Result, ok, err}
use routeros_inspector_mcp.Credentials.{
  Credentials, Vault, exited, vars_of, pair_of, missing_variables, pick_credentials,
  resolve_credentials, vault_variable_name,
}

refused : (b : Bool) (x e : Exn) (c : Credentials) → (if b then err x else ok c) ≡ err e → e ≡ x
refused true x e c h = cc
refused false x e c h = cc

-- What a failure says of the variables that were read: their names.
names_missing :
    (ref : String) (vars : Dict String) (u p : Option String) (e : Exn)
    → pair_of ref vars u p ≡ err e
    → e ≡ credential_error (missing_variables ref (keys vars))
names_missing ref vars none p e h = cc
names_missing ref vars (some u) none e h = cc
names_missing ref vars (some u) (some p) e h =
    refused (str_eq u "" || str_eq p "") _ e (record { username = u; password = p }) h

pick_credentials_err :
    (ref : String) (vars : Dict String) (e : Exn)
    → pick_credentials ref vars ≡ err e
    → e ≡ credential_error (missing_variables ref (keys vars))
unfolding pick_credentials
pick_credentials_err ref vars e h =
    names_missing ref vars (lookup (vault_variable_name ref).0 vars)
      (lookup (vault_variable_name ref).1 vars) e h

abbrev pub seen : Vault → ℤ → String → Vault
seen vault returncode stdout = record vault { view = exited returncode stdout }

-- The guards of a resolution fail for both alike.
same_failure :
    (a b c : Bool) (x y z e e' : Exn) (m m' : Result Credentials)
    → (m ≡ err e → m' ≡ err e' → e ≡ e')
    → (if not a then err x else if not b then err y else if c then m else err z) ≡ err e
    → (if not a then err x else if not b then err y else if c then m' else err z) ≡ err e'
    → e ≡ e'
same_failure false b c x y z e e' m m' last h h' = cc
same_failure true false c x y z e e' m m' last h h' = cc
same_failure true true false x y z e e' m m' last h h' = cc
same_failure true true true x y z e e' m m' last h h' = last h h'

same_message :
    (ref : String) (vars vars' : Dict String) (e e' : Exn)
    → keys vars ≡ keys vars'
    → pick_credentials ref vars ≡ err e
    → pick_credentials ref vars' ≡ err e'
    → e ≡ e'
same_message ref vars vars' e e' same h h' =
    pick_credentials_err ref vars e h
    ∙ ap (λ names. credential_error (missing_variables ref names)) same
    ∙ sym (pick_credentials_err ref vars' e' h')

-- A failure tells nothing of the values in the vault: two vaults that hold the same names, in the
-- same order, and differ in their values fail with the same message, if they both fail.
pub resolve_credentials_hides :
    (vault : Vault) (returncode : ℤ) (stdout stdout' ref : String) (e e' : Exn)
    → keys (vars_of stdout) ≡ keys (vars_of stdout')
    → resolve_credentials (seen vault returncode stdout) ref ≡ err e
    → resolve_credentials (seen vault returncode stdout') ref ≡ err e'
    → e ≡ e'
unfolding resolve_credentials
resolve_credentials_hides vault returncode stdout stdout' ref e e' same h h' =
    same_failure vault.vault_file_exists vault.vault_pass_exists (int_eq returncode (pos 0)) _ _ _ e
      e' (pick_credentials ref (vars_of stdout)) (pick_credentials ref (vars_of stdout'))
      (same_message ref (vars_of stdout) (vars_of stdout') e e' same) h h'
