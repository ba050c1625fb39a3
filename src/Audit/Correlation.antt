-- ===== src/Audit/Correlation.antt =====
-- audits/mangle_queue_correlation.py
pub mod Aligned
use Prim.Native.String.{compare}
use Prim.Native.Nat.{Ordering}
use routeros_inspector_mcp.Base.{
  ℕ, ◌-◌, String, Bool, true, false, not, ◌&&◌, ◌||◌, Option, none, some, List, [], ◌∷◌, ◌++◌,
  length, is_empty, take, select, any, contains, map, string_eq, Dict, lookup, insert, keys,
  if◌then◌else◌,
}
use routeros_inspector_mcp.Errors.{Result, ok, err, ◌>>=◌}
use routeros_inspector_mcp.Value.{Value, null, bool, str, Fields, truthy, get_or}
use routeros_inspector_mcp.Value.Show.{py_str}
use routeros_inspector_mcp.Service.{Service}
use routeros_inspector_mcp.Service.Collectors.{
  get_device_role, get_firewall_mangle, get_queue_tree, get_qos_queues,
}
use routeros_inspector_mcp.Audit.{
  pass, warn, unknown, Severity, Confidence, Part, lit, val, repr_val, num, sorted_strs, Message,
  Finding, AuditResult, text, labelled, report, rows, is_gateway,
}

unfoldable pub is_disabled : Fields → Bool
unfolding truthy get_or
is_disabled item = truthy (get_or item "disabled" (bool false))

abbrev pub is_enabled : Fields → Bool
is_enabled item = not (is_disabled item)

-- `item.get(key) or default`
abbrev get_else : Fields → String → String → Value
get_else item key default = let v = get_or item key null in if truthy v then v else str default

abbrev pub mark_label : Fields → String → Message
mark_label rule mark =
    val (str mark)
    ∷ lit ": "
    ∷ lit (if is_disabled rule then "disabled" else "enabled")
    ∷ lit " "
    ∷ val (get_else rule "chain" "?")
    ∷ lit "/"
    ∷ val (get_else rule "action" "?")
    ∷ lit " - "
    ∷ val (get_else rule "comment" "no comment")
    ∷ []

-- A `defaultdict(list)`: the items under each mark, in the order of the table.
abbrev pub Marks : Type 0
Marks = Dict (List Fields)

abbrev pub items_under : String → Marks → List Fields
items_under mark d = elim (lookup mark d) [ none ↦ [] | some items ↦ items ]

-- `if mark: d[str(mark)].append(item)`
unfoldable pub push : Value → Fields → Marks → Marks
unfolding truthy py_str insert lookup
push mark item d =
    if truthy mark then insert (py_str mark) (items_under (py_str mark) d ++ (item ∷ [])) d else d

unfoldable pub packet_producers : List Fields → Marks → Marks
unfolding push get_or
packet_producers [] d = d
packet_producers (rule ∷ rules) d =
    packet_producers rules (push (get_or rule "new_packet_mark" null) rule d)

unfoldable pub disabled_packet_producers : List Fields → Marks
unfolding packet_producers is_disabled
disabled_packet_producers rules = packet_producers (select is_disabled rules) []

unfoldable pub connection_marks : List Fields → Marks → Marks
unfolding push get_or
connection_marks [] d = d
connection_marks (rule ∷ rules) d =
    connection_marks rules (push (get_or rule "new_connection_mark" null) rule d)

abbrev routing_mark : Fields → Value
routing_mark rule =
    let mark = get_or rule "new_routing_mark" null in
    if truthy mark then mark else get_or rule "new_routing_table" null

unfoldable pub routing_marks : List Fields → Marks → Marks
unfolding push get_or truthy
routing_marks [] d = d
routing_marks (rule ∷ rules) d = routing_marks rules (push (routing_mark rule) rule d)

unfoldable pub queue_consumers : List Fields → Marks → Marks
unfolding push get_or
queue_consumers [] d = d
queue_consumers (queue ∷ queues) d =
    queue_consumers queues (push (get_or queue "packet_mark" null) queue d)

-- `sorted(...)` of texts, which are compared by code points.
abbrev put_in_order : String → List String → List String
put_in_order s [] = s ∷ []
put_in_order s (t ∷ ts) =
    let rest = put_in_order s ts in elim (compare s t) [ Ordering.gt ↦ t ∷ rest | _ ↦ s ∷ t ∷ ts ]

abbrev pub in_order : List String → List String
in_order [] = []
in_order (s ∷ ss) = put_in_order s (in_order ss)

unfoldable pub is_inactive : Fields → Bool
unfolding truthy get_or
is_inactive q =
    truthy (get_or q "disabled" (bool false)) || truthy (get_or q "invalid" (bool false))

abbrev flags : Bool → Bool → String
flags true true = "disabled,invalid"
flags true false = "disabled"
flags false true = "invalid"
flags false false = ""

abbrev inactive_line : Fields → Message
inactive_line q =
    lit "queue "
    ∷ val (get_or q "name" (str "unnamed"))
    ∷ lit " ("
    ∷ val (get_or q "packet_mark" (str "no-mark"))
    ∷ lit (") is ")
    ∷ lit (flags (truthy (get_or q "disabled" null)) (truthy (get_or q "invalid" null)))
    ∷ []

-- A mark that queues wait for and that no enabled rule sets, with up to three of the disabled rules.
abbrev pub orphan_lines : Marks → Marks → String → List Message
orphan_lines producers consumers mark =
    if not (is_empty (items_under mark consumers))
      && is_empty (select is_enabled (items_under mark producers))
    then (lit "queue packet mark "
        ∷ repr_val (str mark)
        ∷ lit " has "
        ∷ num (length (items_under mark consumers))
        ∷ lit " queue consumer(s) but no enabled mangle producer"
        ∷ [])
      ∷ map (λ rule. lit "  disabled producer: " ∷ mark_label rule mark)
          (take 3 (select is_disabled (items_under mark producers)))
    else []

-- A mark that a rule sets and that no queue waits for.
abbrev pub unused_lines : Marks → Marks → String → List Message
unused_lines producers consumers mark =
    if not (contains (keys consumers) mark)
    then (let enabled_count = length (select is_enabled (items_under mark producers)) in
        (lit "packet mark "
          ∷ repr_val (str mark)
          ∷ lit " is produced by "
          ∷ num enabled_count
          ∷ lit " enabled/"
          ∷ num (length (items_under mark producers) - enabled_count)
          ∷ lit " disabled rule(s) but no queue consumes it"
          ∷ [])
        ∷ [])
    else []

abbrev pub lines : (String → List Message) → List String → List Message
lines f [] = []
lines f (mark ∷ marks) = f mark ++ lines f marks

abbrev pub referenced_lines : List String → List Message
referenced_lines [] = []
referenced_lines (m ∷ ms) =
    labelled "disabled mangle-produced packet marks still referenced by queues: "
      (sorted_strs (m ∷ ms))
    ∷ []

unfoldable pub correlate : List Fields → List Fields → List Message
unfolding packet_producers disabled_packet_producers queue_consumers keys is_inactive lookup
correlate rules queues =
    let producers = packet_producers rules [] in
    let consumers = queue_consumers queues [] in
    map inactive_line (take 10 (select is_inactive queues))
    ++ lines (orphan_lines producers consumers) (in_order (keys consumers))
    ++ lines (unused_lines producers consumers) (in_order (keys producers))
    ++ referenced_lines
        (select (contains (keys consumers)) (in_order (keys (disabled_packet_producers rules))))

abbrev no_state : String → Finding
no_state role = record {
  status = pass;
  severity = Severity.info;
  finding = text "No mangle or QoS queue state on non-gateway device";
  evidence = labelled "role: " (val (str role)) ∷ [];
  recommendation = [];
  confidence = Confidence.high;
}

abbrev no_data : Finding
no_data = record {
  status = unknown;
  severity = Severity.info;
  finding = text "No mangle or QoS queue data available";
  evidence = [];
  recommendation = text "Verify mangle and queue tree data can be collected for this gateway";
  confidence = Confidence.low;
}

abbrev pub not_aligned : List Message → Finding
not_aligned evidence' = record {
  status = warn;
  severity = Severity.medium;
  finding = text "Mangle packet marks and QoS queues are not fully aligned";
  evidence = take 30 evidence';
  recommendation =
      text
        "Review queue packet marks against enabled mangle rules; remove or enable only after confirming current QoS design intent. Disabled/invalid queues should not be counted as active shaping.";
  confidence = Confidence.high;
}

abbrev pub aligned : List Fields → List Fields → Finding
aligned rules queues = record {
  status = pass;
  severity = Severity.info;
  finding = text "Mangle packet marks and QoS queues are aligned";
  evidence =
      labelled "packet_marks_consumed_by_queues: " (sorted_strs (keys (queue_consumers queues [])))
      ∷ labelled "connection_marks_seen: " (sorted_strs (keys (connection_marks rules [])))
      ∷ labelled "routing_marks_seen: " (sorted_strs (keys (routing_marks rules [])))
      ∷ [];
  recommendation = [];
  confidence = Confidence.high;
}

unfoldable pub judge_marks : List Fields → List Fields → Finding
unfolding correlate
judge_marks rules queues =
    let evidence' = correlate rules queues in
    if is_empty evidence' then aligned rules queues else not_aligned evidence'

-- `service.get_queue_tree(device_id) or service.get_qos_queues(device_id)`
unfoldable pub queues_of : Service → String → Result Value
unfolding truthy
queues_of s device_id = do
  tree ← get_queue_tree s device_id
  if truthy tree then ok tree else get_qos_queues s device_id

unfoldable pub audit_mangle_queue_correlation : Service → String → Result AuditResult
unfolding truthy
audit_mangle_queue_correlation s device_id = do
  rules ← get_firewall_mangle s device_id
  queues ← queues_of s device_id
  if not (truthy rules) && not (truthy queues)
      then (do
        role ← get_device_role s device_id
        report "mangle_queue_correlation" device_id
            ((if not (is_gateway role) then no_state role else no_data) ∷ []))
      else (do
        rs ← rows rules
        qs ← rows queues
        report "mangle_queue_correlation" device_id (judge_marks rs qs ∷ []))
