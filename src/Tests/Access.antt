-- ===== src/Tests/Access.antt =====
-- The theorems on the guards of a call and on the fleet calls, applied to the sample fleet.
use routeros_inspector_mcp.Base.{
  ◌≡◌, refl, none, some, List, [], ◌∷◌, String, lookup, contains, string_eq, if◌then◌else◌,
}
use routeros_inspector_mcp.Errors.{ok, err}
use routeros_inspector_mcp.Value.{end}
use routeros_inspector_mcp.Redaction.{redact, should_redact_key, redact_string}
use routeros_inspector_mcp.Registry.{get_operation}
use routeros_inspector_mcp.Backend.Fixture.{fixture_backend}
use routeros_inspector_mcp.Service.{validate_device, get_backend, call_backend, unknown_device}
use routeros_inspector_mcp.Service.Access.{
  IsGranted, call_backend-IsGranted, IsFailure, call_backend_errors,
}
use routeros_inspector_mcp.Service.Fleet.{fleet_call}
use routeros_inspector_mcp.Service.Fleet.Laws.{value_of, label_of, lookup-fleet_call}
use routeros_inspector_mcp.Tests.Data.{fleet, vlan_row, one_row}

vlans_called : call_backend fleet "gw" "get_bridge_vlans" end ≡ ok (one_row vlan_row)
unfolding call_backend validate_device lookup get_operation get_backend fixture_backend redact
    should_redact_key redact_string
vlans_called = refl

call_backend-IsGranted_example : IsGranted fleet "gw" "get_bridge_vlans" end (one_row vlan_row)
call_backend-IsGranted_example =
    call_backend-IsGranted fleet "gw" "get_bridge_vlans" end (one_row vlan_row) vlans_called

refused : call_backend fleet "other" "get_arp" end ≡ err (unknown_device "other")
unfolding call_backend validate_device lookup
refused = refl

call_backend_errors_example : IsFailure fleet "other" "get_arp" end (unknown_device "other")
call_backend_errors_example =
    call_backend_errors fleet "other" "get_arp" end (unknown_device "other") refused

abbrev targets : List String
targets = "gw" ∷ "old" ∷ []

lookup-fleet_call_example :
    (lookup "old" (fleet_call fleet "get_arp" (some targets) end).results ≡ (
      if contains targets "old" then value_of (call_backend fleet "old" "get_arp" end) else none))
    × (lookup "old" (fleet_call fleet "get_arp" (some targets) end).errors ≡ (
        if contains targets "old" then label_of (call_backend fleet "old" "get_arp" end) else none))
lookup-fleet_call_example = lookup-fleet_call fleet "get_arp" (some targets) end "old"
