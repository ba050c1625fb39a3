-- ===== src/Redaction/Pattern.antt =====
-- The regular expressions of redaction.py, and `Pattern.sub`. In each of them a greedy repetition is
-- followed by a character that it cannot take, so matching needs no way back.
use Prim.Native.String.{[] as end, ◌∷◌ as ◌◂◌}
use routeros_inspector_mcp.Base.{
  ℕ, zero, suc, ◌-◌, Char, code, String, ◌<>◌, Bool, true, false, ◌||◌, not, Option, none, some,
  List, [], ◌∷◌, nat_eq, ltb, if◌then◌else◌,
}
use routeros_inspector_mcp.Text.{is_digit, is_letter, lower_char}

-- `\w`
abbrev pub is_word : Char → Bool
is_word c = is_letter c || is_digit c || nat_eq (code c) b'_'

pub data Piece : Type 0 where
  boundary : Piece
  repeat : ℕ → ℕ → (Char → Bool) → Piece
  at_least : ℕ → (Char → Bool) → Piece

abbrev pub one : (Char → Bool) → Piece
one test = repeat 1 1 test

abbrev pub optional : (Char → Bool) → Piece
optional test = repeat 0 1 test

abbrev pub is_char : Char → Char → Bool
is_char c d = nat_eq (code d) (code c)

-- A word in small letters, matched under `(?i)`.
abbrev pub any_case : String → List Piece
any_case end = []
any_case (c ◂ s) = one (λ d. is_char c (lower_char d)) ∷ any_case s

-- A place in the text: whether a word character stands before it, and what follows.
pub record Cursor : Type 0 where
  pub before : Bool
  pub rest : String
  pub used : ℕ

abbrev size : String → ℕ
size end = 0
size (c ◂ s) = suc (size s)

-- How many characters in front pass the test, at most `limit`.
abbrev span : (Char → Bool) → ℕ → String → ℕ
span test zero s = 0
span test (suc limit) end = 0
span test (suc limit) (c ◂ s) = let more = suc (span test limit s) in if test c then more else 0

abbrev advance : ℕ → Bool → String → ℕ → Cursor
advance zero before s used = record { before = before; rest = s; used = used }
advance (suc n) before end used = record { before = before; rest = end; used = used }
advance (suc n) before (c ◂ s) used = advance n (is_word c) s (suc used)

abbrev starts_word : String → Bool
starts_word end = false
starts_word (c ◂ s) = is_word c

-- `\b`
abbrev at_boundary : Bool → String → Bool
at_boundary true s = not (starts_word s)
at_boundary false s = starts_word s

match_pieces : List Piece → Bool → String → ℕ → Option ℕ
match_pieces [] before s used = some used
match_pieces (boundary ∷ ps) before s used =
    let more = match_pieces ps before s used in if at_boundary before s then more else none
match_pieces (repeat lo hi test ∷ ps) before s used =
    let n = span test hi s in
    let c = advance n before s used in
    let more = match_pieces ps c.before c.rest c.used in if ltb n lo then none else more
match_pieces (at_least lo test ∷ ps) before s used =
    let n = span test (size s) s in
    let c = advance n before s used in
    let more = match_pieces ps c.before c.rest c.used in if ltb n lo then none else more

-- The length of the match of a pattern at a place, if there is one.
unfoldable pub match_at : List Piece → Bool → String → Option ℕ
unfolding match_pieces
match_at p before s = match_pieces p before s 0

abbrev first_chars : ℕ → String → String
first_chars zero s = end
first_chars (suc n) end = end
first_chars (suc n) (c ◂ s) = c ◂ first_chars n s

module _ (p : List Piece) (replace : String → String) where
  -- `skip` characters still belong to the match before. A match holds at least one character.
  sub_from : ℕ → Bool → String → String
  sub_from skip before end = end
  sub_from (suc skip) before (c ◂ s) = sub_from skip (is_word c) s
  sub_from zero before (c ◂ s) = elim (match_at p before (c ◂ s)) [
    | none ↦ c ◂ sub_from zero (is_word c) s
    | some n ↦ replace (first_chars n (c ◂ s)) <> sub_from (n - 1) (is_word c) s
  ]

  -- `pattern.sub(replace, s)`
  unfoldable pub sub : String → String
  unfolding sub_from match_at
  sub s = sub_from 0 false s
