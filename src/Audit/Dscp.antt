-- ===== src/Audit/Dscp.antt =====
-- audits/dscp.py: the tests on one mangle rule. The findings are in Dscp/Steps.
pub mod Findings
pub mod Steps
pub mod Order
use routeros_inspector_mcp.Base.{
  ℕ, suc, zero, String, ◌<>◌, Bool, true, false, not, ◌&&◌, ◌||◌, Option, none, some, List, [], ◌∷◌,
  ◌++◌, ℤ, pos, int_eq, ℤ_eq, any, contains, str_eq, starts_with, nat_eq, if◌then◌else◌,
}
use routeros_inspector_mcp.Errors.{Result, ok, err, other_error, ◌>>=◌}
use routeros_inspector_mcp.Text.{lower, has_part, parse_int}
use routeros_inspector_mcp.Value.{
  Value, null, bool, int, str, arr, obj, Items, nil, cons, Fields, end, field, truthy, get?, get_or,
  is_str, is_none,
}
use routeros_inspector_mcp.Value.Show.{py_str}
use routeros_inspector_mcp.Audit.{lit, val, Message, hashable}
use routeros_inspector_mcp.Audit.Correlation.{is_enabled}

abbrev wan_tokens : List String
wan_tokens = "WAN" ∷ "wan" ∷ "ether1-WAN" ∷ "ether2-WAN" ∷ []

-- `TRUSTED_DSCP.get(dscp, f"DSCP {dscp}")`
abbrev pub trusted_name : ℤ → Message
trusted_name dscp =
    if int_eq dscp (pos 46)
    then lit "EF" ∷ []
    else if int_eq dscp (pos 34)
    then lit "AF41" ∷ []
    else if int_eq dscp (pos 36)
    then lit "AF42" ∷ []
    else if int_eq dscp (pos 38)
    then lit "AF43" ∷ []
    else lit "DSCP " ∷ val (int dscp) ∷ []

abbrev pub rule_label : Fields → Message
rule_label rule =
    let comment = get_or rule "comment" null in
    val (get_or rule "chain" (str "?"))
    ∷ lit " "
    ∷ val (get_or rule "action" (str "?"))
    ∷ lit ": "
    ∷ val (if truthy comment then comment else str "no comment")
    ∷ []

abbrev of_bool : Bool → ℤ
of_bool true = pos 1
of_bool false = pos 0

-- `none` for `None`: nothing, an empty text, or what `int` refuses.
unfoldable pub dscp_value : Value → Option ℤ
unfolding parse_int
dscp_value (str s) = if str_eq s "" then none else parse_int s
dscp_value (int i) = some i
dscp_value (bool b) = some (of_bool b)
dscp_value _ = none

-- `value not in (None, "")`
unfoldable pub is_given : Value → Bool
unfolding is_none is_str
is_given v = not (is_none v || is_str "" v)

unfoldable pub text_at : Fields → String → String
unfolding py_str get_or
text_at rule key = py_str (get_or rule key (str ""))

unfoldable pub rule_matches_wan : Fields → Bool
unfolding text_at has_part
rule_matches_wan rule =
    any (λ t. any (λ token. has_part t token) wan_tokens)
      (text_at rule "in_interface" ∷ text_at rule "out_interface" ∷ text_at rule "comment" ∷ [])

unfoldable pub trust_rule_may_include_wan : Fields → Bool
unfolding text_at rule_matches_wan
trust_rule_may_include_wan rule =
    let in_interface = text_at rule "in_interface" in
    if str_eq in_interface ""
    then true
    else if starts_with in_interface "!"
    then true
    else rule_matches_wan rule

unfoldable pub has_action : String → Fields → Bool
unfolding is_str get_or
has_action action rule = is_str action (get_or rule "action" null)

unfoldable pub comment_of : Fields → String
unfolding text_at lower
comment_of rule = lower (text_at rule "comment")

-- A rule that has to do with DSCP; an action that is a list or a dict raises.
unfoldable pub is_dscp_rule : Fields → Result Bool
unfolding has_action is_given comment_of has_part get_or
is_dscp_rule r =
    if not (hashable (get_or r "action" null))
    then err (other_error "TypeError")
    else ok (
        (has_action "change-dscp" r || has_action "set-priority" r)
        || is_given (get_or r "dscp" null)
        || is_given (get_or r "new_dscp" null)
        || has_part (comment_of r) "dscp"
        || starts_with (comment_of r) "trust ")

unfoldable pub dscp_rules : List Fields → Result (List Fields)
dscp_rules [] = ok []
dscp_rules (r ∷ rules) = do
  found ← is_dscp_rule r
  rest ← dscp_rules rules
  ok (if found then r ∷ rest else rest)

unfoldable pub is_trust : Fields → Bool
unfolding has_action comment_of
is_trust r = has_action "accept" r && starts_with (comment_of r) "trust"

abbrev is_zero : Option ℤ → Bool
is_zero none = false
is_zero (some i) = int_eq i (pos 0)

unfoldable pub is_wash : Fields → Bool
unfolding has_action dscp_value get_or is_str comment_of has_part
is_wash r =
    has_action "change-dscp" r
    && is_zero (dscp_value (get_or r "new_dscp" null))
    && (is_str "prerouting" (get_or r "chain" null) || has_part (comment_of r) "wash")

-- `r.get("in_interface", "") + " " + r.get("comment", "")` raises unless both are texts.
abbrev joined : Value → Value → Result String
joined (str s) (str t) = ok (s <> (" " <> t))
joined _ _ = err (other_error "TypeError")

unfoldable pub iot_rules : List Fields → Result (List Fields)
unfolding get_or lower has_part
iot_rules [] = ok []
iot_rules (r ∷ rules) = do
  t ← joined (get_or r "in_interface" (str "")) (get_or r "comment" (str ""))
  rest ← iot_rules rules
  ok (if has_part (lower t) "iot" then r ∷ rest else rest)

abbrev count : Fields → ℕ
count end = 0
count (field k v d) = suc (count d)

unfoldable mutual
  unfolding get?

  -- Python's `==`: a Boolean equals 0 or 1, and dicts are compared key by key.
  pub same_value : Value → Value → Bool
  same_value null null = true
  same_value (bool b) (bool c) = int_eq (of_bool b) (of_bool c)
  same_value (bool b) (int j) = int_eq (of_bool b) j
  same_value (int i) (bool c) = int_eq i (of_bool c)
  same_value (int i) (int j) = int_eq i j
  same_value (str s) (str t) = str_eq s t
  same_value (arr vs) (arr ws) = same_items vs ws
  same_value (obj d) (obj e) = nat_eq (count d) (count e) && holds_fields d e
  same_value _ _ = false

  pub same_items : Items → Items → Bool
  same_items nil nil = true
  same_items (cons v vs) (cons w ws) = same_value v w && same_items vs ws
  same_items _ _ = false

  pub holds_fields : Fields → Fields → Bool
  holds_fields end e = true
  holds_fields (field k v d) e =
      let rest = holds_fields d e in
      elim (get? k e) [ none ↦ false | some w ↦ same_value v w && rest ]

unfoldable pub same_rule : Fields → Fields → Bool
unfolding same_value
same_rule d e = nat_eq (count d) (count e) && holds_fields d e

-- `rules.index(r)`, for a rule of the list, and `rules[i]`, for a position in it.
unfoldable pub index_of : List Fields → Fields → ℕ
unfolding same_rule
index_of [] r = 0
index_of (q ∷ rules) r = let later = index_of rules r in if same_rule q r then 0 else suc later

abbrev pub rule_at : List Fields → ℕ → Fields
rule_at [] i = end
rule_at (r ∷ rules) zero = r
rule_at (r ∷ rules) (suc i) = rule_at rules i
