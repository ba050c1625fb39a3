-- ===== src/Audit/Dscp/Findings.antt =====
-- audits/dscp.py: the findings that the steps make, and the step on rules that set a DSCP value.
use routeros_inspector_mcp.Base.{
  ℕ, String, Bool, false, not, ◌&&◌, Option, none, some, List, [], ◌∷◌, ◌++◌, ℤ, pos, ℤ_eq,
  contains, is_empty, select, length, nat_eq, map, lookup, if◌then◌else◌,
}
use routeros_inspector_mcp.Value.{Value, null, int, str, Fields, truthy, get_or}
use routeros_inspector_mcp.Value.Show.{py_str}
use routeros_inspector_mcp.Audit.{
  pass, warn, Status, Severity, Confidence, lit, val, repr_val, num, Message, Finding, text,
}
use routeros_inspector_mcp.Audit.Correlation.{is_enabled, Marks, connection_marks, items_under}
use routeros_inspector_mcp.Audit.Dscp.{rule_label, dscp_value, has_action}

abbrev pub finding_of : Status → Severity → String → List Message → String → Confidence → Finding
finding_of st severity finding evidence recommendation confidence = record {
  status = st;
  severity = severity;
  finding = text finding;
  evidence = evidence;
  recommendation = text recommendation;
  confidence = confidence;
}

-- A finding without a recommendation.
abbrev pub passing : String → List Message → Finding
passing finding evidence = record {
  status = pass;
  severity = Severity.info;
  finding = text finding;
  evidence = evidence;
  recommendation = [];
  confidence = Confidence.high;
}

unfoldable pub is_set_rule : Fields → Bool
unfolding has_action truthy get_or
is_set_rule r = has_action "change-dscp" r && truthy (get_or r "connection_mark" null)

abbrev expected_values : List ℤ
expected_values = pos 0 ∷ pos 8 ∷ pos 26 ∷ pos 34 ∷ pos 36 ∷ pos 38 ∷ pos 46 ∷ []

abbrev in_vocabulary : Option ℤ → Bool
in_vocabulary none = false
in_vocabulary (some i) = contains expected_values i

unfoldable pub has_expected_value : Fields → Bool
unfolding dscp_value get_or
has_expected_value r = in_vocabulary (dscp_value (get_or r "new_dscp" null))

abbrev producer_count : Marks → Fields → ℕ
producer_count producers r =
    length (items_under (py_str (get_or r "connection_mark" null)) producers)

unfoldable pub is_orphaned : Marks → Fields → Bool
unfolding py_str get_or lookup
is_orphaned producers r = nat_eq (producer_count producers r) 0

abbrev shown_dscp : Option ℤ → Value
shown_dscp none = null
shown_dscp (some i) = int i

abbrev set_line : Marks → Fields → Message
set_line producers r =
    lit (py_str (get_or r "connection_mark" null))
    ∷ lit " -> DSCP "
    ∷ val (shown_dscp (dscp_value (get_or r "new_dscp" null)))
    ∷ lit " via "
    ∷ val (get_or r "comment" (str "no comment"))
    ∷ lit " ("
    ∷ num (producer_count producers r)
    ∷ lit " enabled producer(s))"
    ∷ []

abbrev with_field : String → String → Fields → Message
with_field label key r = rule_label r ++ (lit label ∷ repr_val (get_or r key null) ∷ [])

abbrev pub when : Bool → Finding → List Finding
when b f = if b then f ∷ [] else []

-- 3. Set rules consume marks that an enabled rule sets, and use expected values.
unfoldable pub set_findings : List Fields → List Fields → List Finding
unfolding connection_marks is_set_rule is_orphaned has_expected_value dscp_value
set_findings rules enabled =
    let producers = connection_marks (select is_enabled rules) [] in
    let set_rules = select is_set_rule enabled in
    let orphaned = select (is_orphaned producers) set_rules in
    let unexpected = select (λ r. not (has_expected_value r)) set_rules in
    if not (is_empty set_rules)
    then when (not (is_empty unexpected)) (
        finding_of warn Severity.medium
          "DSCP set rules use values outside the expected policy vocabulary"
          (map (with_field " new_dscp=" "new_dscp") unexpected)
          "Confirm these DSCP values map to the intended CAKE diffserv tins." Confidence.medium)
      ++ when (not (is_empty orphaned)) (
          finding_of warn Severity.low
            "DSCP set rule consumes a connection mark with no enabled producer"
            (map (with_field " connection_mark=" "connection_mark") orphaned)
            "Remove stale DSCP set rules or add/enable the intended mark producer." Confidence.high)
      ++ when (is_empty orphaned && is_empty unexpected) (
          passing "Enabled DSCP set rules use expected values and have enabled mark producers"
            (map (set_line producers) set_rules))
    else finding_of warn Severity.medium "No enabled connection-mark to DSCP set rules found" []
        "If upstream CAKE is diffserv-aware, ensure router classification stamps DSCP before traffic reaches the shaper."
        Confidence.medium
      ∷ []
