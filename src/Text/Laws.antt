-- ===== src/Text/Laws.antt =====
-- Lower case is idempotent, and so is the spelling that keys are compared by.
use Prim.Native.String.{[] as end, ◌∷◌ as ◌◂◌}
use routeros_inspector_mcp.Base.{
  ℕ, ◌+◌, ◌<◌, Char, code, String, ◌≡◌, refl, true, inl, inr, arith, Bool-cases, nat_eq,
  if◌then◌else◌,
}
use routeros_inspector_mcp.Text.{of_code, is_upper, lower_char, lower, dash_to_underscore}

code-of_code : (n : ℕ) → n < 55296 → code (of_code n) ≡ n
unfolding of_code
code-of_code n h = ground arith

upper_is_small : (c : Char) → is_upper c ≡ true → code c + 32 < 55296
upper_is_small c u = ground arith

lower_char_idem : (c : Char) → lower_char (lower_char c) ≡ lower_char c
unfolding lower_char
lower_char_idem c = ground (arith, code-of_code (code c + 32))

pub lower_idem : (s : String) → lower (lower s) ≡ lower s
unfolding lower
lower_idem end = refl
lower_idem (c ◂ s) = cc (lower_char_idem c, lower_idem s)

abbrev underscore_char : Char → Char
underscore_char c = if nat_eq (code c) b'-' then "_" else c

underscore_char-lower_char :
    (c : Char)
    → underscore_char (lower_char (underscore_char (lower_char c))) ≡ underscore_char (lower_char c)
underscore_char-lower_char c = elim (Bool-cases (nat_eq (code (lower_char c)) b'-')) [
  | inl dash ↦ rw (dash, if◌then◌else◌) (unfold lower_char of_code in refl)
  | inr other ↦ rw (other, if◌then◌else◌) (rw lower_char_idem (rw (other, if◌then◌else◌)))
]

pub dash_to_underscore-lower_idem :
    (k : String)
    → dash_to_underscore (lower (dash_to_underscore (lower k))) ≡ dash_to_underscore (lower k)
unfolding lower dash_to_underscore
dash_to_underscore-lower_idem end = refl
dash_to_underscore-lower_idem (c ◂ s) =
    cc (underscore_char-lower_char c, dash_to_underscore-lower_idem s)
