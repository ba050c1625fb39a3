-- ===== src/Redaction/Laws.antt =====
-- What the redacted value can show, and what it keeps.
use mathlib.Core.Bool.{false≢true}
use routeros_inspector_mcp.Base.{
  String, ◌≡◌, ◌≢◌, refl, ap, true, false, Option, none, some, contains, string_eq, str_eq, eq_iff,
  if◌then◌else◌, Bool-cases, inl, inr, ◌⊎◌, List,
}
use routeros_inspector_mcp.Errors.{Exn, backend_error, service_error}
use routeros_inspector_mcp.Value.{
  Value, null, bool, int, str, arr, obj, Items, nil, cons, Fields, end, field, get?,
}
use routeros_inspector_mcp.Redaction.{
  redacted, redact_string, safe_error_labels, safe_error_label, should_redact_key, redact,
  redact_items, redact_fields,
}

-- Two values that differ only in what stands under secret keys.
mutual
  pub data SameButSecrets : Value → Value → Type 0 where
    same : (v : Value) → SameButSecrets v v
    in_list : {vs ws : Items} → SameItems vs ws → SameButSecrets (arr vs) (arr ws)
    in_dict : {d e : Fields} → SameFields d e → SameButSecrets (obj d) (obj e)

  pub data SameItems : Items → Items → Type 0 where
    no_items : SameItems nil nil
    item :
        {v w : Value} {vs ws : Items}
        → SameButSecrets v w
        → SameItems vs ws
        → SameItems (cons v vs) (cons w ws)

  pub data SameFields : Fields → Fields → Type 0 where
    no_fields : SameFields end end
    secret :
        (k : String) (v w : Value) {d e : Fields}
        → should_redact_key k ≡ true
        → SameFields d e
        → SameFields (field k v d) (field k w e)
    shown :
        (k : String) {v w : Value} {d e : Fields}
        → SameButSecrets v w
        → SameFields d e
        → SameFields (field k v d) (field k w e)

mutual
  unfolding redact

  redact_same : {v w : Value} → SameButSecrets v w → redact v ≡ redact w
  redact_same (same v) = refl
  redact_same (in_list h) = ap arr (redact_items_same h)
  redact_same (in_dict h) = ap obj (redact_fields_same h)

  redact_items_same : {vs ws : Items} → SameItems vs ws → redact_items vs ≡ redact_items ws
  redact_items_same no_items = refl
  redact_items_same (item h hs) = cc (redact_same h, redact_items_same hs)

  redact_fields_same : {d e : Fields} → SameFields d e → redact_fields d ≡ redact_fields e
  redact_fields_same no_fields = refl
  redact_fields_same (secret k v w s hs) =
      rw (s, if◌then◌else◌) (ap (field k (str redacted)) (redact_fields_same hs))
  redact_fields_same (shown k h hs) = cc (redact_same h, redact_fields_same hs)

-- Values that differ only under secret keys, at any depth, have one redacted form.
pub redact_hides_secrets : (v w : Value) → SameButSecrets v w → redact v ≡ redact w
redact_hides_secrets v w h = redact_same h

abbrev pub redacted_field : String → Option Value → Option Value
redacted_field k none = none
redacted_field k (some v) = some (if should_redact_key k then str redacted else redact v)

-- The redacted dict has the keys of the dict: each holds the redacted value, or the mark.
pub get?-redact_fields :
    (k : String) (d : Fields) → get? k (redact_fields d) ≡ redacted_field k (get? k d)
unfolding redact get?
get?-redact_fields k end = refl
get?-redact_fields k (field j v d) = elim (Bool-cases (str_eq j k)) [
  | inl e ↦ rw (e, if◌then◌else◌) (rw ((eq_iff j k).0 e) refl)
  | inr e ↦ rw (e, if◌then◌else◌) (get?-redact_fields k d)
]

contains_or_else :
    (ls : List String) (label other : String)
    → contains ls other ≡ true
    → contains ls (if contains ls label then label else other) ≡ true
contains_or_else ls label other h = elim (Bool-cases (contains ls label)) [
  | inl e ↦ rw (e, if◌then◌else◌) e
  | inr e ↦ rw (e, if◌then◌else◌) h
]

-- The label that is shown for an exception is one of the safe ones.
pub safe_error_label-contains :
    (exc : Exn) → contains safe_error_labels (safe_error_label exc) ≡ true
unfolding safe_error_label
safe_error_label-contains (backend_error label message) =
    contains_or_else safe_error_labels label "internal_error" refl
safe_error_label-contains (service_error label) =
    contains_or_else safe_error_labels label "internal_error" refl
safe_error_label-contains _ = refl

-- Texts that a second pass leaves alone.
abbrev pub IsStable : String → Type 0
IsStable s = redact_string (redact_string s) ≡ redact_string s

unfoldable mutual
  pub AllStable : Value → Type 0
  AllStable (str s) = IsStable s
  AllStable (arr vs) = StableItems vs
  AllStable (obj d) = StableFields d
  AllStable null = Unit
  AllStable (bool b) = Unit
  AllStable (int i) = Unit

  StableItems : Items → Type 0
  StableItems nil = Unit
  StableItems (cons v vs) = AllStable v × StableItems vs

  StableFields : Fields → Type 0
  StableFields end = Unit
  StableFields (field k v d) = ((should_redact_key k ≡ true) ⊎ AllStable v) × StableFields d

still_stable :
    (k : String) (v : Value)
    → should_redact_key k ≡ false
    → (should_redact_key k ≡ true) ⊎ AllStable v
    → AllStable v
still_stable k v e (inl s) = cc
still_stable k v e (inr h) = h

mutual
  unfolding redact AllStable

  redact_again : (v : Value) → AllStable v → redact (redact v) ≡ redact v
  redact_again null h = refl
  redact_again (bool b) h = refl
  redact_again (int i) h = refl
  redact_again (str s) h = ap str h
  redact_again (arr vs) h = ap arr (redact_items_again vs h)
  redact_again (obj d) h = ap obj (redact_fields_again d h)

  redact_items_again :
      (vs : Items) → StableItems vs → redact_items (redact_items vs) ≡ redact_items vs
  redact_items_again nil h = refl
  redact_items_again (cons v vs) (h, hs) = cc (redact_again v h, redact_items_again vs hs)

  redact_fields_again :
      (d : Fields) → StableFields d → redact_fields (redact_fields d) ≡ redact_fields d
  redact_fields_again end h = refl
  redact_fields_again (field k v d) (h, hs) = elim (Bool-cases (should_redact_key k)) [
    | inl e ↦ rw (e, if◌then◌else◌) (ap (field k (str redacted)) (redact_fields_again d hs))
    | inr e ↦
        rw (e, if◌then◌else◌) (cc (redact_again v (still_stable k v e h), redact_fields_again d hs))
  ]

-- A second pass changes nothing where each text that is shown is stable under `_redact_string`.
pub redact_idem_of_stable : (v : Value) → AllStable v → redact (redact v) ≡ redact v
redact_idem_of_stable v h = redact_again v h

-- The text `tokenapi_key` is not stable: the first pass takes out `api_key`, and what is left ends
-- in the word `token`.
token_again : redact_string "token***REDACTED***" ≡ "***REDACTED******REDACTED***"
unfolding redact_string
token_again = refl

token_first : redact_string "tokenapi_key" ≡ "token***REDACTED***"
unfolding redact_string
token_first = refl

abbrev text_of : Value → String
text_of (str s) = s
text_of _ = ""

abbrev fields_of : Value → Fields
fields_of (obj d) = d
fields_of _ = end

texts_differ : str "***REDACTED******REDACTED***" ≢ str "token***REDACTED***"
texts_differ e =
    false≢true ((eq_iff "***REDACTED******REDACTED***" "token***REDACTED***").1 (ap text_of e))

shown_field :
    (k : String) (d : Fields) (v : Value)
    → should_redact_key k ≡ false
    → get? k d ≡ some v
    → get? k (redact_fields d) ≡ some (redact v)
shown_field k d v open_key held = rw get?-redact_fields (rw held (rw (open_key, if◌then◌else◌)))

-- A dict that holds the text `tokenapi_key` under a key that is not secret is changed by a second
-- pass.
pub redact_not_idem :
    (k : String) (d : Fields)
    → should_redact_key k ≡ false
    → get? k d ≡ some (str "tokenapi_key")
    → redact (redact (obj d)) ≢ redact (obj d)
unfolding redact
redact_not_idem k d open_key held e =
    let first = shown_field k d _ open_key held in
    let second = shown_field k (redact_fields d) _ open_key first in
    texts_differ (cc (first, second, token_first, token_again))
