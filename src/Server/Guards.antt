-- ===== src/Server/Guards.antt =====
-- The checks of `run_audit` on the names that it is given, and the names that it keeps.
use routeros_inspector_mcp.Base.{
  unique_from, ◌||◌, ℕ, String, ◌≡◌, ◌≢◌, refl, inl, inr, Bool, true, false, not, some, List, [],
  ◌∷◌, arith, ltb, ◌≤◌, contains, string_eq, eq_iff, str_eq, Dict, lookup, keys, if◌then◌else◌,
  Bool-cases,
}
use routeros_inspector_mcp.Errors.{Exn, Result, ok, err, value_error}
use routeros_inspector_mcp.Service.Fleet.Laws.{AreDistinct}
use routeros_inspector_mcp.Server.{max_audit_fanout, AuditRow}

false-ne-true : false ≢ true
false-ne-true h = cc

-- A key of a dict has a value.
pub lookup_of :
    {V : Type 0} (k : String) (d : Dict V)
    → contains (keys d) k ≡ true
    → (v : V) × (lookup k d ≡ some v)
unfolding lookup keys
lookup_of k [] h = absurd (false-ne-true h)
lookup_of k ((j, v) ∷ d) h = elim (Bool-cases (str_eq j k)) [
  | inl same ↦ (v, rw (same, if◌then◌else◌) refl)
  | inr other ↦
      let (w, found) = lookup_of k d (ground (arith, eq_iff j k, eq_iff k j)) in
      (w, rw (other, if◌then◌else◌) found)
]

pub three_guards :
    (a b : Bool) (n : ℕ) (e e' e'' : Exn) (m : Result (List AuditRow)) {rows : List AuditRow}
    → (if not a
        then err e
        else if not b
        then err e'
        else if ltb max_audit_fanout n
        then err e''
        else m)
      ≡ ok rows
    → (a ≡ true) × (b ≡ true) × (n ≤ max_audit_fanout)
three_guards a b n e e' e'' m h = (ground arith, ground arith, ground arith)

pub ok-ne-err :
    (rows : List AuditRow) (m : Result (List AuditRow)) (e : Exn) → m ≡ ok rows → m ≢ err e
ok-ne-err rows m e h k = cc

pub refused_by :
    (a b c : Bool) (x y z : String) (m : Result (List AuditRow)) (e : Exn)
    → (a ≡ true → (rows : List AuditRow) × (m ≡ ok rows))
    → (if not a
        then err (value_error x)
        else if not b
        then err (value_error y)
        else if c
        then err (value_error z)
        else m)
      ≡ err e
    → (message : String) × (e ≡ value_error message)
refused_by false b c x y z m e total h = (x, cc)
refused_by true false c x y z m e total h = (y, cc)
refused_by true true true x y z m e total h = (z, cc)
refused_by true true false x y z m e total h =
    let (rows, p) = total refl in absurd (ok-ne-err rows m e p h)

other_name :
    (seen : List String) (x y : String)
    → contains seen x ≡ true
    → contains seen y ≡ false
    → str_eq x y ≡ false
other_name seen x y h new = elim (Bool-cases (str_eq x y)) [
  | inl same ↦ let p = (eq_iff x y).0 same in cc
  | inr other ↦ other
]

either : {a b : Bool} → a ≡ false → b ≡ false → (a || b) ≡ false
either h k = cc

-- What was seen before is left out, so that each name is kept once.
unique_from-seen :
    (seen xs : List String) (x : String)
    → contains seen x ≡ true
    → contains (unique_from seen xs) x ≡ false
unique_from-seen seen [] x h = refl
unique_from-seen seen (y ∷ xs) x h = elim (Bool-cases (contains seen y)) [
  | inl old ↦ rw (old, if◌then◌else◌) (unique_from-seen seen xs x h)
  | inr new ↦
      rw (new, if◌then◌else◌)
        (either (other_name seen x y h new) (unique_from-seen (y ∷ seen) xs x (ground arith)))
]

pub unique_from-AreDistinct : (seen xs : List String) → AreDistinct (unique_from seen xs)
unique_from-AreDistinct seen [] = tt
unique_from-AreDistinct seen (y ∷ xs) = elim (Bool-cases (contains seen y)) [
  | inl old ↦ rw (old, if◌then◌else◌) (unique_from-AreDistinct seen xs)
  | inr new ↦
      rw (new, if◌then◌else◌)
        (
          unique_from-seen (y ∷ seen) xs y (ground (arith, eq_iff y y)),
          unique_from-AreDistinct (y ∷ seen) xs,
        )
]
