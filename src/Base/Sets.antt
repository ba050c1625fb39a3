-- ===== src/Base/Sets.antt =====
-- Lists that stand for Python sets: what an empty difference says of the members.
use mathlib.Core.Path.{◌≡◌, refl, sym}
use mathlib.Core.Logic.{◌↔◌, inl, inr}
use mathlib.Core.Bool.{Bool, true, false, not, ◌||◌}
use mathlib.Core.List.{List, [], ◌∷◌, ◌++◌}
use native.Mathlib.Omega.{arith}
use routeros_inspector_mcp.Base.Tests.{Eq, Bool-cases}
use routeros_inspector_mcp.Base.Lists.{
  is_empty, select, all, any, contains, difference, All, subset, difference-eq-nil, contains-all,
}

module _ {ℓ} {A : Type ℓ} where
  pub is_empty-select-not :
      (p : A → Bool) (xs : List A) → is_empty (select (λ x. not (p x)) xs) ≡ all p xs
  is_empty-select-not p [] = refl
  is_empty-select-not p (x ∷ xs) = ground (arith, is_empty-select-not p xs)

  pub any-not : (p : A → Bool) (xs : List A) → any (λ x. not (p x)) xs ≡ not (all p xs)
  any-not p [] = refl
  any-not p (x ∷ xs) = ground (arith, any-not p xs)

  pub all→All : (p : A → Bool) (xs : List A) → all p xs ≡ true → All (λ x. p x ≡ true) xs
  all→All p [] h = tt
  all→All p (x ∷ xs) h = (ground arith, all→All p xs (ground arith))

  pub All→all : (p : A → Bool) (xs : List A) → All (λ x. p x ≡ true) xs → all p xs ≡ true
  All→all p [] h = refl
  All→all p (x ∷ xs) (h, hs) = ground (arith, All→all p xs hs)

  pub any-append : (p : A → Bool) (xs ys : List A) → any p (xs ++ ys) ≡ any p xs || any p ys
  any-append p [] ys = refl
  any-append p (x ∷ xs) ys = ground (arith, any-append p xs ys)

module _ {ℓ} {A : Type ℓ} ⦃e : Eq A⦄ where
  pub contains-append :
      (xs ys : List A) (a : A) → contains (xs ++ ys) a ≡ contains xs a || contains ys a
  contains-append [] ys a = refl
  contains-append (x ∷ xs) ys a = ground (arith, contains-append xs ys a)

  -- A member of one list that the other lacks.
  abbrev pub Lacks : List A → List A → Type ℓ
  Lacks xs ys = (a : A) × (contains xs a ≡ true) × (contains ys a ≡ false)

  Lacks-cons : (x : A) (xs ys : List A) → Lacks xs ys → Lacks (x ∷ xs) ys
  Lacks-cons x xs ys (a, h, k) = (a, ground arith, k)

  Lacks-of : (xs ys : List A) → is_empty (difference xs ys) ≡ false → Lacks xs ys
  Lacks-of [] ys h = cc
  Lacks-of (x ∷ xs) ys h = elim (Bool-cases (contains ys x)) [
    | inl held ↦ Lacks-cons x xs ys (Lacks-of xs ys (ground arith))
    | inr free ↦ (x, ground (arith, (e.beq_iff x x).1 refl), free)
  ]

  difference_of : (xs ys : List A) → Lacks xs ys → is_empty (difference xs ys) ≡ false
  difference_of xs ys (a, h, k) = elim (Bool-cases (subset xs ys)) [
    | inl within ↦ ground (arith, contains-all (contains ys) xs a within h)
    | inr outside ↦ ground (arith, difference-eq-nil xs ys)
  ]

  -- The difference has a member exactly when the first list has one that the second lacks.
  pub difference_iff : (xs ys : List A) → (is_empty (difference xs ys) ≡ false) ↔ Lacks xs ys
  difference_iff xs ys = (Lacks-of xs ys, difference_of xs ys)

  same_of :
      (xs ys : List A)
      → is_empty (difference xs ys) ≡ true
      → is_empty (difference ys xs) ≡ true
      → (a : A) → contains xs a ≡ contains ys a
  same_of xs ys h k a = elim (Bool-cases (contains xs a)) [
    | inl l ↦ ground (arith, contains-all (contains ys) xs a, difference-eq-nil xs ys)
    | inr l ↦ elim (Bool-cases (contains ys a)) [
      | inl r ↦ ground (arith, contains-all (contains xs) ys a, difference-eq-nil ys xs)
      | inr r ↦ ground arith
    ]
  ]

  empty_of :
      (xs ys : List A)
      → ((a : A) → contains xs a ≡ contains ys a)
      → is_empty (difference xs ys) ≡ true
  empty_of xs ys h = elim (Bool-cases (is_empty (difference xs ys))) [
    | inl p ↦ p
    | inr p ↦ let (a, l, r) = Lacks-of xs ys p in ground (arith, h a)
  ]

  -- Both differences are empty exactly when the lists have the same members.
  pub same_iff :
      (xs ys : List A)
      → ((is_empty (difference xs ys) ≡ true) × (is_empty (difference ys xs) ≡ true))
        ↔ ((a : A) → contains xs a ≡ contains ys a)
  same_iff xs ys =
      (λ (h, k). same_of xs ys h k, λ h. (empty_of xs ys h, empty_of ys xs λ a. sym (h a)))
