-- ===== src/Audit/Trunk.antt =====
-- `audit_trunk_vlan_sanity` of audits/policy_backed.py
pub mod Laws
pub mod Failing
pub mod Passes
use routeros_inspector_mcp.Base.{
  String, Bool, true, false, not, ◌&&◌, Option, none, some, List, [], ◌∷◌, ◌++◌, ℤ, pos, length,
  difference, contains, is_empty, string_eq, ℤ_eq, str_eq, int_eq, Dict, lookup, keys, insert,
  if◌then◌else◌,
}
use routeros_inspector_mcp.Errors.{Result, ok, err, other_error, ◌>>=◌}
use routeros_inspector_mcp.Value.{Value, null, bool, int, str, Fields, get_or, is_str}
use routeros_inspector_mcp.Value.Show.{py_str}
use routeros_inspector_mcp.Config.{PolicyBaseline}
use routeros_inspector_mcp.Service.{Service}
use routeros_inspector_mcp.Service.Collectors.{get_policy, get_bridge_ports, get_bridge_vlans}
use routeros_inspector_mcp.Audit.{
  pass, warn, fail, unknown, Severity, Confidence, val, num, sorted_strs, sorted_ints, Message,
  Finding, AuditResult, text, labelled, report, rows, split_csv, parse_vlan_ids, is_truthy,
}

abbrev no_policy : String → Finding
no_policy device_id = record {
  status = unknown;
  severity = Severity.info;
  finding = labelled "No trunk VLAN policy for " (val (str device_id));
  evidence = [];
  recommendation = text "Add vlans.expected_trunks for this device in policy.yaml";
  confidence = Confidence.low;
}

abbrev port_missing : String → Finding
port_missing port_name = record {
  status = fail;
  severity = Severity.high;
  finding = text "Expected trunk port is missing from bridge ports";
  evidence = labelled "port: " (val (str port_name)) ∷ [];
  recommendation = text "Restore the expected bridge trunk port or update policy if decommissioned";
  confidence = Confidence.high;
}

abbrev trunk_evidence : String → List ℤ → List ℤ → Fields → List Message
trunk_evidence port_name expected tagged port =
    labelled "port: " (val (str port_name))
    ∷ labelled "expected_vlans: " (sorted_ints expected)
    ∷ labelled "tagged_vlans: " (sorted_ints tagged)
    ∷ labelled "pvid: " (val (get_or port "pvid" null))
    ∷ labelled "edge: " (val (get_or port "edge" null))
    ∷ []

abbrev vlans_missing : List Message → List ℤ → Finding
vlans_missing evidence' missing = record {
  status = fail;
  severity = Severity.high;
  finding = text "Expected trunk is missing tagged VLANs";
  evidence = evidence' ++ (labelled "missing_vlans: " (sorted_ints missing) ∷ []);
  recommendation =
      text "Align bridge VLAN tagged membership with policy before relying on this trunk";
  confidence = Confidence.high;
}

abbrev odd_pvid : List Message → Fields → Finding
odd_pvid evidence' port = record {
  status = warn;
  severity = Severity.medium;
  finding = text "Expected trunk has non-default PVID";
  evidence = evidence' ++ (labelled "frame_types: " (val (get_or port "frame_types" null)) ∷ []);
  recommendation = text "Verify this is an intentional hybrid trunk; otherwise set trunk PVID to 1";
  confidence = Confidence.medium;
}

abbrev pub trunks_match : Dict (List ℤ) → Finding
trunks_match trunks = record {
  status = pass;
  severity = Severity.info;
  finding = text "Expected trunk VLAN membership matches policy";
  evidence =
      labelled "trunks: " (sorted_strs (keys trunks))
      ∷ labelled "checked_ports: " (num (length trunks))
      ∷ [];
  recommendation = [];
  confidence = Confidence.high;
}

unfoldable pub expected_trunks : Option PolicyBaseline → String → Dict (List ℤ)
unfolding lookup
expected_trunks none device_id = []
expected_trunks (some policy) device_id = elim (lookup device_id policy.vlans.expected_trunks) [
  | none ↦ []
  | some trunks ↦ trunks
]

-- `{str(port.get("interface", "")): port for port in bridge_ports}`: a later port takes the place of
-- an earlier one of its name.
unfoldable pub ports_by_name : List Fields → Dict Fields → Dict Fields
unfolding insert get_or py_str
ports_by_name [] d = d
ports_by_name (port ∷ ports) d =
    ports_by_name ports (insert (py_str (get_or port "interface" (str ""))) port d)

-- `{port_name: set() for port_name in expected_trunks}`
unfoldable pub no_tags : Dict (List ℤ) → Dict (List ℤ)
no_tags [] = []
no_tags ((port_name, vlans) ∷ trunks) = (port_name, []) ∷ no_tags trunks

-- The inner loop: each port that the row tags gains the VLANs of the row.
unfoldable pub tag_ports : List String → List ℤ → Dict (List ℤ) → Dict (List ℤ)
tag_ports tagged_ports vlan_ids [] = []
tag_ports tagged_ports vlan_ids ((port_name, vlans) ∷ d) =
    (port_name, (if contains tagged_ports port_name then vlans ++ vlan_ids else vlans))
    ∷ tag_ports tagged_ports vlan_ids d

unfoldable pub tag_row : Fields → Dict (List ℤ) → Dict (List ℤ)
unfolding tag_ports get_or is_truthy parse_vlan_ids split_csv
tag_row row tagged_by_port =
    if is_truthy (get_or row "disabled" (bool false))
    then tagged_by_port
    else tag_ports (split_csv (get_or row "tagged" (str "")))
        (parse_vlan_ids (get_or row "vlan_ids" (str ""))) tagged_by_port

unfoldable pub tag_rows : List Fields → Dict (List ℤ) → Dict (List ℤ)
unfolding tag_row
tag_rows [] tagged_by_port = tagged_by_port
tag_rows (row ∷ bridge_vlans) tagged_by_port = tag_rows bridge_vlans (tag_row row tagged_by_port)

-- `pvid in {1, "1", None}`, where `True` equals 1; a list or a dict raises.
unfoldable pub is_default_pvid : Value → Result Bool
is_default_pvid null = ok true
is_default_pvid (bool b) = ok b
is_default_pvid (int i) = ok (int_eq i (pos 1))
is_default_pvid (str s) = ok (str_eq s "1")
is_default_pvid _ = err (other_error "TypeError")

unfoldable pub judge_present : String → List ℤ → List ℤ → Fields → Result (List Finding)
unfolding is_default_pvid get_or is_str
judge_present port_name expected tagged port =
    let missing = difference expected tagged in
    let evidence' = trunk_evidence port_name expected tagged port in
    if not (is_empty missing) then ok (vlans_missing evidence' missing ∷ []) else do
      usual ← is_default_pvid (get_or port "pvid" null)
      ok (
          if not usual && not (is_str "admit-only-vlan-tagged" (get_or port "frame_types" null))
          then odd_pvid evidence' port ∷ []
          else [])

abbrev tags_of : Dict (List ℤ) → String → List ℤ
tags_of tagged_by_port port_name = elim (lookup port_name tagged_by_port) [
  | none ↦ []
  | some vlans ↦ vlans
]

unfoldable pub judge_trunk : Dict Fields → Dict (List ℤ) → String → List ℤ → Result (List Finding)
unfolding judge_present
judge_trunk ports tagged_by_port port_name expected = elim (lookup port_name ports) [
  | none ↦ ok (port_missing port_name ∷ [])
  | some port ↦ judge_present port_name expected (tags_of tagged_by_port port_name) port
]

unfoldable pub judge_trunks : Dict Fields → Dict (List ℤ) → Dict (List ℤ) → Result (List Finding)
unfolding judge_trunk
judge_trunks ports tagged_by_port [] = ok []
judge_trunks ports tagged_by_port ((port_name, vlan_list) ∷ trunks) = do
  found ← judge_trunk ports tagged_by_port port_name vlan_list
  rest ← judge_trunks ports tagged_by_port trunks
  ok (found ++ rest)

unfoldable pub audit_trunk_vlan_sanity : Service → String → Result AuditResult
unfolding lookup
audit_trunk_vlan_sanity s device_id =
    let trunks = expected_trunks (get_policy s) device_id in
    if is_empty trunks then report "trunk_vlan_sanity" device_id (no_policy device_id ∷ []) else do
      bridge_ports ← get_bridge_ports s device_id
      bridge_vlans ← get_bridge_vlans s device_id
      ports ← rows bridge_ports
      vlans ← rows bridge_vlans
      findings ← judge_trunks (ports_by_name ports []) (tag_rows vlans (no_tags trunks)) trunks
      report "trunk_vlan_sanity" device_id
          (if is_empty findings then trunks_match trunks ∷ [] else findings)
