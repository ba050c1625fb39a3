-- ===== src/Audit/Dscp/Order.antt =====
-- The order of trust and wash rules in the DSCP audit.
use routeros_inspector_mcp.Base.{◌≡◌, Bool, not, ◌||◌, List, any, leb, if◌then◌else◌}
use routeros_inspector_mcp.Value.{Value, Fields}
use routeros_inspector_mcp.Service.{Service}
use routeros_inspector_mcp.Audit.{pass, warn, text, Finding}
use routeros_inspector_mcp.Audit.Dscp.{index_of}
use routeros_inspector_mcp.Audit.Dscp.Steps.{trusts_wan}

-- A rule that does not trust what may come from the WAN, or stands no earlier than a wash rule.
abbrev pub is_in_order : List Fields → List Fields → Fields → Bool
is_in_order rules wash r =
    not (trusts_wan r) || any (λ w. leb (index_of rules w) (index_of rules r)) wash

-- The finding on the order of the rules: its status and its title.
abbrev pub IsOrderFinding : Bool → Finding → Type 0
IsOrderFinding ordered f =
    (f.status ≡ (if ordered then pass else warn))
    × (f.finding ≡ (
        if ordered
        then text "WAN DSCP wash is ordered before broad trust exceptions"
        else text "DSCP trust rules can run before WAN wash"))
