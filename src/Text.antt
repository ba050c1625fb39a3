-- ===== src/Text.antt =====
-- Python's `str` methods that the program calls, over ASCII text: `lower`, `replace`, `strip`,
-- `split`, `in`, `int(...)` and `str(...)` of an integer. A character outside ASCII is kept by
-- `lower` and counts as neither a letter, a digit nor a space.
pub mod Laws
use Prim.Native.Char.{char, nul, IsScalar}
use Prim.Native.String.{[] as end, ◌∷◌ as ◌◂◌}
use mathlib.Core.Logic.{dite}
use native.Mathlib.Decide.{dec_lt}
use routeros_inspector_mcp.Base.{
  ℕ, zero, suc, ◌+◌, ◌-◌, ◌*◌, ◌/◌, ◌%◌, ◌<◌, Char, code, String, ◌<>◌, Bool, true, false, ◌&&◌,
  ◌||◌, Option, none, some, List, [], ◌∷◌, ℤ, pos, negsuc, negate, arith, ltb, leb, nat_eq,
  starts_with, if◌then◌else◌, str_eq,
}

abbrev pub between : ℕ → ℕ → ℕ → Bool
between lo hi n = leb lo n && leb n hi

abbrev pub is_digit : Char → Bool
is_digit c = between b'0' b'9' (code c)

abbrev pub is_upper : Char → Bool
is_upper c = between b'A' b'Z' (code c)

abbrev pub is_letter : Char → Bool
is_letter c = between b'A' b'Z' (code c) || between b'a' b'z' (code c)

-- `str.isspace` and the `\s` of a pattern: tab to carriage return, four separators, the blank.
abbrev pub is_space : Char → Bool
is_space c = between 9 13 (code c) || between 28 32 (code c)

pub IsScalar-of_lt : (n : ℕ) → n < 55296 → IsScalar n
IsScalar-of_lt n h = ground arith

unfoldable pub of_code : ℕ → Char
unfolding dec_lt
of_code n = dite (dec_lt n 55296) (λ h. char n (IsScalar-of_lt n h)) (λ _. nul)

unfoldable pub lower_char : Char → Char
lower_char c = if is_upper c then of_code (code c + 32) else c

unfoldable pub lower : String → String
unfolding lower_char of_code
lower end = end
lower (c ◂ s) = lower_char c ◂ lower s

-- `s.replace("-", "_")`
-- `sep.join(parts)`
abbrev pub join : String → List String → String
join sep [] = ""
join sep (p ∷ []) = p
join sep (p ∷ q ∷ ps) = p <> (sep <> join sep (q ∷ ps))

unfoldable pub dash_to_underscore : String → String
dash_to_underscore end = end
dash_to_underscore (c ◂ s) = (if nat_eq (code c) b'-' then "_" else c) ◂ dash_to_underscore s

strip_left : String → String
strip_left end = end
strip_left (c ◂ s) = let rest = strip_left s in if is_space c then rest else c ◂ s

abbrev is_blank : String → Bool
is_blank end = true
is_blank (c ◂ s) = false

abbrev keep_unless_blank : Char → String → String
keep_unless_blank c rest = if is_space c && is_blank rest then end else c ◂ rest

strip_right : String → String
strip_right end = end
strip_right (c ◂ s) = keep_unless_blank c (strip_right s)

unfoldable pub strip : String → String
unfolding strip_left strip_right
strip s = strip_right (strip_left s)

abbrev pub push_front : Char → List String → List String
push_front c [] = (c ◂ end) ∷ []
push_front c (w ∷ ws) = (c ◂ w) ∷ ws

-- `s.split(sep)`, for a separator of one character.
unfoldable pub split_on : ℕ → String → List String
split_on sep end = end ∷ []
split_on sep (c ◂ s) =
    let rest = split_on sep s in if nat_eq (code c) sep then end ∷ rest else push_front c rest

-- `part in s`
unfoldable pub has_part : String → String → Bool
has_part end part = str_eq part end
has_part (c ◂ s) part = starts_with (c ◂ s) part || has_part s part

-- `s.startswith(c)`, for one character.
abbrev pub starts_with_char : ℕ → String → Bool
starts_with_char n end = false
starts_with_char n (c ◂ s) = nat_eq (code c) n

-- `s.endswith(suffix)`
unfoldable pub ends_with : String → String → Bool
ends_with end suffix = str_eq end suffix
ends_with (c ◂ s) suffix = str_eq (c ◂ s) suffix || ends_with s suffix

word_of : String → String
word_of end = end
word_of (c ◂ s) = let rest = word_of s in if is_space c then end else c ◂ rest

-- `s.split()[0]`, `none` for an `IndexError`.
unfoldable pub first_word : String → Option String
unfolding strip_left word_of
first_word s = let t = strip_left s in if is_blank t then none else some (word_of t)

-- The digits of `int(s)`: one underscore may stand between two digits.
parse_digits : Bool → ℕ → String → Option ℕ
parse_digits after_digit n end = if after_digit then some n else none
parse_digits after_digit n (c ◂ s) =
    let digit = parse_digits true (n * 10 + (code c - b'0')) s in
    let underscore = parse_digits false n s in
    if is_digit c then digit else if nat_eq (code c) b'_' && after_digit then underscore else none

abbrev signed : (ℕ → ℤ) → Option ℕ → Option ℤ
signed sign none = none
signed sign (some n) = some (sign n)

parse_signed : String → Option ℤ
unfolding parse_digits
parse_signed end = none
parse_signed (c ◂ s) =
    if nat_eq (code c) b'-'
    then signed negate (parse_digits false 0 s)
    else signed pos (parse_digits false 0 (if nat_eq (code c) b'+' then s else c ◂ s))

-- `int(s)`, `none` for a `ValueError`.
unfoldable pub parse_int : String → Option ℤ
unfolding parse_signed strip
parse_int s = parse_signed (strip s)

show_digits : ℕ → ℕ → String → String
show_digits zero n acc = acc
show_digits (suc fuel) n acc =
    let acc' = of_code (b'0' + n % 10) ◂ acc in
    let more = show_digits fuel (n / 10) acc' in if ltb n 10 then acc' else more

unfoldable pub show_nat : ℕ → String
unfolding show_digits of_code
show_nat n = show_digits (suc n) n end

-- `str(i)`
unfoldable pub show_int : ℤ → String
unfolding show_nat
show_int (pos n) = show_nat n
show_int (negsuc n) = "-" <> show_nat (suc n)
