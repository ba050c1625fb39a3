-- ===== src/Tests/Marked.antt =====
-- The theorem on the order of DSCP rules, applied to a gateway with a wash rule before a trust rule.
use routeros_inspector_mcp.Base.{List, [], ◌∷◌}
use routeros_inspector_mcp.Value.{Value, str, obj, arr, nil, cons, Fields, end, field}
use routeros_inspector_mcp.Backend.Fixture.{FixtureDir, document, fixture_backend}
use routeros_inspector_mcp.Service.{Service}
use routeros_inspector_mcp.Tests.Data.{fleet}

abbrev wash_row : Fields
wash_row = field "chain" (str "prerouting") (
    field "action" (str "change-dscp") (
      field "new_dscp" (str "0")
        (field "in_interface" (str "ether1-WAN") (field "comment" (str "wash") end))))

abbrev trust_row : Fields
trust_row =
    field "action" (str "accept") (field "comment" (str "trust EF") (field "dscp" (str "46") end))

abbrev collected : Value
collected = arr (cons (obj wash_row) (cons (obj trust_row) nil))

abbrev dir : FixtureDir
dir device_id = document (obj (field "firewall_mangle" collected end))

abbrev marked_fleet : Service
marked_fleet = record fleet { backends = ("fixture", fixture_backend dir) ∷ [] }

abbrev rules : List Fields
rules = wash_row ∷ trust_row ∷ []
