-- ===== src/Value/Show.antt =====
-- Python's `str(v)` and `repr(v)`, for texts of printable ASCII.
use Prim.Native.String.{[] as end_of, ◌∷◌ as ◌◂◌}
use routeros_inspector_mcp.Base.{
  String, ◌<>◌, Bool, true, false, not, ◌&&◌, nat_eq, if◌then◌else◌, Char, code,
}
use routeros_inspector_mcp.Text.{show_int, has_part}
use routeros_inspector_mcp.Value.{
  Value, null, bool, int, str, arr, obj, Items, nil, cons, Fields, end, field,
}

escape_char : Bool → Char → String
escape_char single c =
    if nat_eq (code c) b'\\'
    then "\\\\"
    else if nat_eq (code c) 10
    then "\\n"
    else if nat_eq (code c) 13
    then "\\r"
    else if nat_eq (code c) 9
    then "\\t"
    else if single && nat_eq (code c) 39
    then "\\'"
    else c ◂ end_of

escape : Bool → String → String
escape single end_of = end_of
escape single (c ◂ s) = escape_char single c <> escape single s

-- `repr(s)`: in single quotes, but in double ones where the text holds only single quotes.
unfoldable pub repr_str : String → String
unfolding escape escape_char has_part
repr_str s =
    if has_part s "'" && not (has_part s "\"")
    then "\"" <> (escape false s <> "\"")
    else "'" <> (escape true s <> "'")

abbrev show_bool : Bool → String
show_bool true = "True"
show_bool false = "False"

unfoldable mutual
  pub repr : Value → String
  repr null = "None"
  repr (bool b) = show_bool b
  repr (int i) = show_int i
  repr (str s) = repr_str s
  repr (arr vs) = "[" <> (repr_items vs <> "]")
  repr (obj d) = "{" <> (repr_fields d <> "}")

  pub repr_items : Items → String
  repr_items nil = ""
  repr_items (cons v nil) = repr v
  repr_items (cons v (cons w vs)) = repr v <> (", " <> repr_items (cons w vs))

  pub repr_fields : Fields → String
  repr_fields end = ""
  repr_fields (field k v end) = repr_str k <> (": " <> repr v)
  repr_fields (field k v (field j w d)) =
      repr_str k <> (": " <> (repr v <> (", " <> repr_fields (field j w d))))

-- `str(v)`
unfoldable pub py_str : Value → String
unfolding show_int repr_str repr
py_str (str s) = s
py_str v = repr v
