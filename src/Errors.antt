-- ===== src/Errors.antt =====
-- The exceptions of backends/base.py, service.py and credentials.py, and a Python call that returns
-- or raises.
use mathlib.Core.Path.{subst}
use routeros_inspector_mcp.Base.{
  String, Bool, true, false, if◌then◌else◌, Option, none, some, ◌≡◌, refl, ap,
}

-- `BackendError` and `ServiceError` carry a label in `error_class`; a `ValueError` and a
-- `CredentialError` their message, and any other exception the name of its class.
pub data Exn : Type 0 where
  backend_error : String → String → Exn
  service_error : String → Exn
  value_error : String → Exn
  credential_error : String → Exn
  other_error : String → Exn

-- `getattr(exc, "error_class", None)`
abbrev pub error_class : Exn → Option String
error_class (backend_error label message) = some label
error_class (service_error label) = some label
error_class (value_error message) = none
error_class (credential_error message) = none
error_class (other_error name) = none

pub data Result {ℓ} (A : Type ℓ) : Type ℓ where
  ok : A → Result A
  err : Exn → Result A

-- The next call is made with what the call returned; a raise goes past it.
infixl 5 ◌>>=◌ ◌>>◌
abbrev pub ◌>>=◌ {ℓ κ} : {A : Type ℓ} {B : Type κ} → Result A → (A → Result B) → Result B
err raised >>= next = err raised
ok value >>= next = next value

abbrev pub ◌>>◌ {ℓ κ} : {A : Type ℓ} {B : Type κ} → Result A → Result B → Result B
call >> next = call >>= λ _. next

module _ {ℓ κ} {A : Type ℓ} {B : Type κ} where
  -- Inversion of a chain that returned.
  pub >>=-eq-ok :
      (call : Result A) (next : A → Result B) {returned : B}
      → (call >>= next) ≡ ok returned
      → (value : A) × (call ≡ ok value) × (next value ≡ ok returned)
  >>=-eq-ok (err raised) next chain = cc
  >>=-eq-ok (ok value) next chain = (value, refl, chain)

abbrev value_or {ℓ} : {A : Type ℓ} → A → Result A → A
value_or a (ok b) = b
value_or a (err e) = a

pub ok-injective {ℓ} : {A : Type ℓ} {a b : A} → ok a ≡ ok b → a ≡ b
ok-injective {a} h = ap (value_or a) h

-- What a call returns, where it returns.
pub record Holds {ℓ κ} {A : Type ℓ} (P : A → Type κ) (m : Result A) : Type (ℓ ⊔ κ) where
  pub of : {a : A} → m ≡ ok a → P a

module _ {ℓ κ} {A : Type ℓ} {P : A → Type κ} where
  pub ok-Holds : {a : A} → P a → Holds P (ok a)
  ok-Holds h = record { of = λ p. subst P (ok-injective p) h }

  pub err-Holds : {e : Exn} → Holds P (err e)
  err-Holds = record { of = λ p. cc }

  pub if-Holds : (b : Bool) (m n : Result A) → Holds P m → Holds P n → Holds P (if b then m else n)
  if-Holds true m n h k = h
  if-Holds false m n h k = k

  pub >>=-Holds {ι} :
      {B : Type ι} (m : Result B) (f : B → Result A) → ((b : B) → Holds P (f b)) → Holds P (m >>= f)
  >>=-Holds (ok b) f h = h b
  >>=-Holds (err e) f h = err-Holds
