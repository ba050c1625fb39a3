-- ===== src/Audit.antt =====
-- audits/base.py, and what the audits share: rows of a collected table, and Python sets as lists.
pub mod Qos
pub mod Dns
pub mod DeadMangle
pub mod Firmware
pub mod Snmp
pub mod Stp
pub mod Vlan
pub mod Trunk
pub mod DefaultRoute
pub mod Ownership
pub mod Failover
pub mod Correlation
pub mod Dscp
pub mod Backup
pub mod Membership
pub mod Routes
pub mod Unset
pub mod Scope
pub mod Rules
use routeros_inspector_mcp.Base.{
  ℕ, String, Bool, true, false, not, ◌&&◌, ◌||◌, Option, none, some, List, [], ◌∷◌, ◌++◌, ℤ, pos,
  int_eq, any, all, contains, string_eq, str_eq, Dict, lookup, if◌then◌else◌, is_empty, select, map,
}
use routeros_inspector_mcp.Errors.{Result, ok, err, other_error, ◌>>=◌}
use routeros_inspector_mcp.Text.{strip, split_on, lower, parse_int}
use routeros_inspector_mcp.Value.{
  Value, null, bool, int, str, arr, obj, Items, nil, cons, Fields, end, field, truthy, get?, get_or,
  is_str, of_items,
}
use routeros_inspector_mcp.Value.Show.{py_str}

pub data Status : Type 0 where
  pass warn fail unknown skip : Status

pub data Severity : Type 0 where
  info low medium high : Severity

pub data Confidence : Type 0 where
  low medium high : Confidence

-- The parts of a formatted text: literal text, `{v}`, `{v!r}`, a count, and `{sorted(...)}`, a set or
-- a list with its members. The text itself is not put together.
pub data Part : Type 0 where
  lit : String → Part
  val : Value → Part
  repr_val : Value → Part
  num : ℕ → Part
  sorted_strs : List String → Part
  sorted_ints : List ℤ → Part
  sorted_values : List Value → Part
  set_of : List Value → Part
  list_of : List String → Part

abbrev pub Message : Type 0
Message = List Part

pub record Finding : Type 0 where
  pub status : Status
  pub severity : Severity
  pub finding : Message
  pub evidence : List Message
  pub recommendation : Message
  pub confidence : Confidence

pub record AuditResult : Type 0 where
  pub audit_name : String
  pub device_id : String
  pub findings : List Finding

abbrev pub text : String → Message
text s = lit s ∷ []

-- `{label}{value}`
abbrev pub labelled : String → Part → Message
labelled label part = lit label ∷ part ∷ []

abbrev pub report : String → String → List Finding → Result AuditResult
report name device_id findings =
    ok (record { audit_name = name; device_id = device_id; findings = findings })

-- `for row in rows: row.get(...)`: a list of dicts, or a raise.
unfoldable pub rows_of : Items → Result (List Fields)
rows_of nil = ok []
rows_of (cons (obj d) vs) = do rest ← rows_of vs; ok (d ∷ rest)
rows_of (cons v vs) = err (other_error "AttributeError")

abbrev pub rows : Value → Result (List Fields)
rows (arr vs) = rows_of vs
rows (obj end) = ok []
rows (str s) = if str_eq s "" then ok [] else err (other_error "AttributeError")
rows (obj d) = err (other_error "AttributeError")
rows v = err (other_error "TypeError")

-- `v.get`, `v.lower`, `v.startswith`: raises on a value of another type.
abbrev pub as_dict : Value → Result Fields
as_dict (obj d) = ok d
as_dict v = err (other_error "AttributeError")

abbrev pub as_text : Value → Result String
as_text (str s) = ok s
as_text v = err (other_error "AttributeError")

-- A set of values: a list or a dict cannot be in one.
abbrev pub hashable : Value → Bool
hashable (arr vs) = false
hashable (obj d) = false
hashable v = true

abbrev pub value_set : List Value → Result (List Value)
value_set vs = if all hashable vs then ok vs else err (other_error "TypeError")

-- `role in {"gateway", "edge"}`
abbrev pub is_gateway : String → Bool
is_gateway role = contains ("gateway" ∷ "edge" ∷ []) role

-- policy_backed.py

abbrev pub strip_all : List String → List String
strip_all [] = []
strip_all (p ∷ ps) = let rest = strip_all ps in if str_eq (strip p) "" then rest else strip p ∷ rest

unfoldable pub split_csv : Value → List String
unfolding strip split_on py_str
split_csv null = []
split_csv (arr vs) = strip_all (map py_str (of_items vs))
split_csv v = strip_all (split_on b',' (py_str v))

abbrev parse_all : List String → List ℤ
parse_all [] = []
parse_all (p ∷ ps) =
    let rest = parse_all ps in elim (parse_int p) [ none ↦ rest | some n ↦ n ∷ rest ]

unfoldable pub parse_vlan_ids : Value → List ℤ
unfolding split_csv parse_int
parse_vlan_ids v = parse_all (split_csv v)

unfoldable pub is_truthy : Value → Bool
unfolding strip lower py_str
is_truthy (bool b) = b
is_truthy v = contains ("true" ∷ "yes" ∷ "1" ∷ "on" ∷ []) (lower (strip (py_str v)))
