-- ===== src/Base/Order.antt =====
-- `sorted(...)` of texts: Python compares them by their code points.
use Prim.Native.Char.{code}
use Prim.Native.String.{String, [] as end, ◌∷◌ as ◌◂◌}
use mathlib.Core.Path.{◌≡◌, refl}
use mathlib.Core.Logic.{inl, inr}
use mathlib.Core.Bool.{Bool, true, false}
use mathlib.Core.List.{List, [], ◌∷◌}
use native.Mathlib.Omega.{arith}
use routeros_inspector_mcp.Base.Tests.{ltb, nat_eq, if◌then◌else◌, Bool-cases, string_eq}
use routeros_inspector_mcp.Base.Lists.{contains}

-- `s <= t`
unfoldable pub str_leb : String → String → Bool
str_leb end t = true
str_leb (c ◂ s) end = false
str_leb (c ◂ s) (d ◂ t) =
    let rest = str_leb s t in
    if ltb (code c) (code d) then true else if nat_eq (code c) (code d) then rest else false

place : String → List String → List String
place x [] = x ∷ []
place x (y ∷ ys) = let later = place x ys in if str_leb x y then x ∷ y ∷ ys else y ∷ later

-- `sorted(xs)`
unfoldable pub sorted : List String → List String
unfolding place str_leb
sorted [] = []
sorted (x ∷ xs) = place x (sorted xs)

str_leb_total : (s t : String) → str_leb s t ≡ false → str_leb t s ≡ true
unfolding str_leb
str_leb_total end t h = cc
str_leb_total (c ◂ s) end h = refl
str_leb_total (c ◂ s) (d ◂ t) h = ground (arith, str_leb_total s t)

-- Each text comes before the next.
abbrev pub IsSorted : List String → Type 0
IsSorted [] = Unit
IsSorted (x ∷ []) = Unit
IsSorted (x ∷ y ∷ ys) = (str_leb x y ≡ true) × IsSorted (y ∷ ys)

-- A text goes in front of a sorted list whose first it does not exceed.
abbrev Leads : String → List String → Type 0
Leads x [] = Unit
Leads x (y ∷ ys) = str_leb x y ≡ true

front : (x : String) (ys : List String) → Leads x ys → IsSorted ys → IsSorted (x ∷ ys)
front x [] l h = tt
front x (y ∷ ys) l h = (l, h)

first_of :
    (x y z : String) (zs : List String)
    → str_leb y x ≡ true
    → str_leb y z ≡ true
    → Leads y (place x (z ∷ zs))
unfolding place
first_of x y z zs h k = elim (Bool-cases (str_leb x z)) [
  | inl first ↦ rw (first, if◌then◌else◌) h
  | inr later ↦ rw (later, if◌then◌else◌) k
]

place-IsSorted : (x : String) (ys : List String) → IsSorted ys → IsSorted (place x ys)
unfolding place
place-IsSorted x [] h = tt
place-IsSorted x (y ∷ []) h = elim (Bool-cases (str_leb x y)) [
  | inl first ↦ rw (first, if◌then◌else◌) (first, tt)
  | inr later ↦ rw (later, if◌then◌else◌) (str_leb_total x y later, tt)
]
place-IsSorted x (y ∷ z ∷ zs) (h, hs) = elim (Bool-cases (str_leb x y)) [
  | inl first ↦ rw (first, if◌then◌else◌) (first, (h, hs))
  | inr later ↦
      rw (later, if◌then◌else◌)
        (front y (place x (z ∷ zs)) (first_of x y z zs (str_leb_total x y later) h)
          (place-IsSorted x (z ∷ zs) hs))
]

pub sorted-IsSorted : (xs : List String) → IsSorted (sorted xs)
unfolding sorted
sorted-IsSorted [] = tt
sorted-IsSorted (x ∷ xs) = place-IsSorted x (sorted xs) (sorted-IsSorted xs)

contains-place :
    (x : String) (ys : List String) (a : String) → contains (place x ys) a ≡ contains (x ∷ ys) a
unfolding place
contains-place x [] a = refl
contains-place x (y ∷ ys) a = ground (arith, contains-place x ys a)

-- Sorting keeps the members.
pub contains-sorted : (xs : List String) (a : String) → contains (sorted xs) a ≡ contains xs a
unfolding sorted
contains-sorted [] a = refl
contains-sorted (x ∷ xs) a = ground (arith, contains-sorted xs a, contains-place x (sorted xs) a)
