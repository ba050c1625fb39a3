-- ===== src/Redaction/Address.antt =====
-- `ipaddress.ip_address(...)` on a dotted quad, and `is_global` of an IPv4 address, as CPython 3.12
-- defines them.
use Prim.Native.String.{[] as end, ◌∷◌ as ◌◂◌}
use routeros_inspector_mcp.Base.{
  ℕ, ◌+◌, ◌-◌, ◌*◌, code, String, Bool, ◌&&◌, ◌||◌, not, Option, none, some, List, [], ◌∷◌, nat_eq,
  ltb, leb, if◌then◌else◌,
}
use routeros_inspector_mcp.Text.{is_digit, between, split_on}

pub record Address : Type 0 where
  pub a : ℕ
  pub b : ℕ
  pub c : ℕ
  pub d : ℕ

digits_value : ℕ → String → Option ℕ
digits_value n end = some n
digits_value n (c ◂ s) =
    let more = digits_value (n * 10 + (code c - b'0')) s in if is_digit c then more else none

abbrev in_range : Option ℕ → Option ℕ
in_range none = none
in_range (some n) = if ltb 255 n then none else some n

-- No part may be empty, longer than three digits, begin with a needless zero, or pass 255.
octet : String → Option ℕ
octet end = none
octet (c ◂ end) = in_range (digits_value 0 (c ◂ end))
octet (c ◂ (d ◂ s)) = if nat_eq (code c) b'0' then none else in_range (digits_value 0 (c ◂ (d ◂ s)))

abbrev quad : Option ℕ → Option ℕ → Option ℕ → Option ℕ → Option Address
quad (some a) (some b) (some c) (some d) = some (record { a = a; b = b; c = c; d = d })
quad _ _ _ _ = none

abbrev of_parts : List String → Option Address
of_parts (a ∷ b ∷ c ∷ d ∷ []) = quad (octet a) (octet b) (octet c) (octet d)
of_parts _ = none

-- `none` for a `ValueError`.
unfoldable pub ip_address : String → Option Address
unfolding octet digits_value split_on
ip_address s = of_parts (split_on b'.' s)

unfoldable pub is_private : Address → Bool
is_private x =
    nat_eq x.a 0
    || nat_eq x.a 10
    || nat_eq x.a 127
    || (nat_eq x.a 169 && nat_eq x.b 254)
    || (nat_eq x.a 172 && between 16 31 x.b)
    || (nat_eq x.a 192 && nat_eq x.b 0 && nat_eq x.c 0 && not (between 9 10 x.d))
    || (nat_eq x.a 192 && nat_eq x.b 0 && nat_eq x.c 2)
    || (nat_eq x.a 192 && nat_eq x.b 168)
    || (nat_eq x.a 198 && between 18 19 x.b)
    || (nat_eq x.a 198 && nat_eq x.b 51 && nat_eq x.c 100)
    || (nat_eq x.a 203 && nat_eq x.b 0 && nat_eq x.c 113)
    || leb 240 x.a

unfoldable pub is_global : Address → Bool
unfolding is_private
is_global x = not (nat_eq x.a 100 && between 64 127 x.b) && not (is_private x)
