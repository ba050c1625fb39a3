-- ===== src/Refresh/Served.antt =====
-- A built fixture, read back by the fixture backend.
use routeros_inspector_mcp.Base.{
  String, Bool, true, false, not, ◌&&◌, ◌||◌, Option, none, some, List, ◌++◌, Dict, lookup, str_eq,
}
use routeros_inspector_mcp.Text.{dash_to_underscore}
use routeros_inspector_mcp.Value.{Value}
use routeros_inspector_mcp.Backend.Fixture.{Shape, a_list}
use routeros_inspector_mcp.Refresh.{is_stripped, is_secret}
use routeros_inspector_mcp.Refresh.Tables.{first_tables, last_tables}

abbrev Tables : Type 0
Tables = Dict (String × List (String × String))

abbrev pub captured_tables : Tables
captured_tables = first_tables ++ last_tables

-- The name is none of the fields in front of the tables, and the redaction keeps it.
abbrev is_plain : String × (String × List (String × String)) → Bool
is_plain t =
    not (str_eq "_provenance" t.0)
    && not (str_eq "system_summary" t.0)
    && not (str_eq "recent_logs" t.0)
    && not (is_stripped t.0)
    && not (is_secret t.0)

abbrev is_table_of : String → Option (String × List (String × String)) → Bool
is_table_of name none = false
is_table_of name (some (suffix, names)) = str_eq (dash_to_underscore suffix) name

abbrev is_served : String × (String × Shape) → Bool
is_served (method, (name, a_list)) =
    str_eq name "recent_logs"
    || str_eq name "backup_info"
    || is_table_of name (lookup name captured_tables)
is_served _ = true
