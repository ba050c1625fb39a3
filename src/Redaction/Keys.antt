-- ===== src/Redaction/Keys.antt =====
-- Which keys `_should_redact_key` takes for secret: the listed names, in any case and with `-` or
-- `_` for one another.
use Prim.Native.String.{[] as end, ◌∷◌ as ◌◂◌}
use text.Mathlib.TextEquality.{Char-path}
use routeros_inspector_mcp.Base.{
  Char, code, String, ◌≡◌, ◌⊎◌, refl, Bool, true, ◌||◌, List, [], ◌∷◌, map, inl, inr, arith,
  contains, string_eq, nat_eq, eq_iff, Bool-cases, if◌then◌else◌,
}
use routeros_inspector_mcp.Text.{lower_char, lower, dash_to_underscore}
use routeros_inspector_mcp.Redaction.{redact_value_keys, normalise, should_redact_key}

abbrev is_dash : Char → Bool
is_dash c = nat_eq (code c) b'-' || nat_eq (code c) b'_'

-- Two spellings of one name: letters in either case, dash and underscore for one another.
abbrev pub SameSpelling : String → String → Type 0
SameSpelling end end = Unit
SameSpelling (c ◂ s) (d ◂ t) =
    ((lower_char c ≡ lower_char d) ⊎ ((is_dash c ≡ true) × (is_dash d ≡ true))) × SameSpelling s t
SameSpelling _ _ = ⊥

lower_char_dash : (c : Char) → is_dash c ≡ true → lower_char c ≡ c
unfolding lower_char
lower_char_dash c h = ground arith

underscore_of_dash : (c : Char) → is_dash c ≡ true → (if nat_eq (code c) b'-' then "_" else c) ≡ "_"
underscore_of_dash c h = elim (Bool-cases (nat_eq (code c) b'-')) [
  | inl e ↦ rw (e, if◌then◌else◌)
  | inr e ↦ rw (e, if◌then◌else◌) (Char-path c "_" (ground arith))
]

normalise_same : (s t : String) → SameSpelling s t → normalise s ≡ normalise t
unfolding lower dash_to_underscore
normalise_same end end h = refl
normalise_same end (d ◂ t) h = elim h [ ]
normalise_same (c ◂ s) end h = elim h [ ]
normalise_same (c ◂ s) (d ◂ t) (inl e, h) = cc (e, normalise_same s t h)
normalise_same (c ◂ s) (d ◂ t) (inr (p, q), h) = cc (
  lower_char_dash c p,
  lower_char_dash d q,
  underscore_of_dash c p,
  underscore_of_dash d q,
  normalise_same s t h,
)

contains-map :
    (xs : List String) (k : String)
    → contains xs k ≡ true
    → contains (map normalise xs) (normalise k) ≡ true
contains-map [] k h = cc
contains-map (x ∷ xs) k h =
    ground (arith, contains-map xs k, eq_iff k x, eq_iff (normalise k) (normalise x))

-- A key that spells a listed name in any way is redacted.
pub should_redact_key_spelling :
    (name key : String)
    → contains redact_value_keys name ≡ true
    → SameSpelling key name
    → should_redact_key key ≡ true
unfolding should_redact_key
should_redact_key_spelling name key listed same =
    rw (normalise_same key name same) (contains-map redact_value_keys name listed)
