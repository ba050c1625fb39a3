-- ===== src/Audit/Qos.antt =====
-- audits/qos.py
use routeros_inspector_mcp.Base.{
  String, Bool, not, ◌&&◌, List, [], ◌∷◌, any, length, if◌then◌else◌, map,
}
use routeros_inspector_mcp.Errors.{Result, ◌>>=◌}
use routeros_inspector_mcp.Value.{str, Fields, truthy, get_or, is_str}
use routeros_inspector_mcp.Service.{Service}
use routeros_inspector_mcp.Service.Collectors.{get_qos_queues}
use routeros_inspector_mcp.Audit.{
  pass, warn, fail, Severity, Confidence, lit, val, num, Message, Finding, AuditResult, text,
  report, rows,
}

-- A limit that is set, and is neither `0` nor `unlimited`.
unfoldable pub has_limit : Fields → Bool
unfolding truthy get_or is_str
has_limit q =
    let ml = get_or q "max_limit" (str "") in
    truthy ml && not (is_str "0" ml) && not (is_str "unlimited" ml)

abbrev limit_line : String → String → Fields → Message
limit_line middle default q =
    val (get_or q "name" (str "unnamed"))
    ∷ lit middle
    ∷ val (get_or q "max_limit" (str default))
    ∷ []

abbrev pub no_queues : Finding
no_queues = record {
  status = fail;
  severity = Severity.medium;
  finding = text "No QoS queues configured";
  evidence = [];
  recommendation = text "Configure QoS queues for traffic shaping and priority queuing";
  confidence = Confidence.high;
}

abbrev no_limits : List Fields → Finding
no_limits qs = record {
  status = warn;
  severity = Severity.low;
  finding = text "QoS queues exist but none have rate limits";
  evidence = map (limit_line ": max_limit=" "empty") qs;
  recommendation = text "Set rate limits on QoS queues for meaningful traffic shaping";
  confidence = Confidence.high;
}

abbrev limited : List Fields → Finding
limited qs = record {
  status = pass;
  severity = Severity.info;
  finding = lit "QoS queues configured with " ∷ num (length qs) ∷ lit " queue(s)" ∷ [];
  evidence = map (limit_line ": " "") qs;
  recommendation = [];
  confidence = Confidence.high;
}

abbrev pub judge_queues : List Fields → Finding
judge_queues qs = if not (any has_limit qs) then no_limits qs else limited qs

unfoldable pub audit_qos_state : Service → String → Result AuditResult
audit_qos_state s device_id = do
  queues ← get_qos_queues s device_id
  if not (truthy queues)
      then report "qos_state" device_id (no_queues ∷ [])
      else (do qs ← rows queues; report "qos_state" device_id (judge_queues qs ∷ []))
