-- ===== src/Audit/Backup.antt =====
-- audits/backup_retention.py. The datetime library is a parameter: an instant is a number of
-- microseconds from the start of the year 1.
pub mod Recent
use Prim.Native.String.{[] as end, ◌∷◌ as ◌◂◌}
use routeros_inspector_mcp.Base.{
  ℕ, ◌-◌, String, ◌<>◌, code, Bool, true, false, not, ◌&&◌, Option, none, some, List, [], ◌∷◌,
  length, is_empty, ltb, nat_eq, map, if◌then◌else◌,
}
use routeros_inspector_mcp.Errors.{Result, ok, err, ◌>>=◌}
use routeros_inspector_mcp.Value.{Value, str, Fields, truthy, get_or}
use routeros_inspector_mcp.Service.{Service}
use routeros_inspector_mcp.Service.Collectors.{get_backup_info}
use routeros_inspector_mcp.Audit.{
  pass, warn, unknown, Severity, Confidence, lit, val, num, Message, Finding, AuditResult, text,
  labelled, report, rows, as_text,
}

-- `now`, `datetime.fromisoformat` with UTC where a text names no zone (`none` for a `ValueError`), and
-- `strftime("%Y-%m-%d")`.
pub record Clock : Type 0 where
  pub now : ℕ
  pub parse_date : String → Option ℕ
  pub format_date : ℕ → String

abbrev pub thirty_days : ℕ
thirty_days = 2592000000000

abbrev pub stale_threshold : Clock → ℕ
stale_threshold clock = clock.now - thirty_days

-- `created.replace("Z", "+00:00")`
unfoldable pub replace_z : String → String
replace_z end = end
replace_z (c ◂ s) =
    let rest = replace_z s in if nat_eq (code c) b'Z' then "+00:00" <> rest else c ◂ rest

abbrev add_date : Option ℕ → List ℕ → List ℕ
add_date none dates = dates
add_date (some d) dates = d ∷ dates

-- The dates that can be read; a date that is neither falsy nor a text raises.
unfoldable pub dates_of : Clock → List Fields → Result (List ℕ)
unfolding truthy get_or replace_z
dates_of clock [] = ok []
dates_of clock (b ∷ backups) =
    let created = get_or b "created" (str "") in
    if truthy created
    then (do
      t ← as_text created
      dates ← dates_of clock backups
      ok (add_date (clock.parse_date (replace_z t)) dates))
    else dates_of clock backups

-- `max(dates)`
abbrev pub latest : ℕ → List ℕ → ℕ
latest d [] = d
latest d (e ∷ dates) = let m = latest e dates in if ltb m d then d else m

abbrev pub no_data : Finding
no_data = record {
  status = unknown;
  severity = Severity.info;
  finding = text "No backup data available";
  evidence = [];
  recommendation = text "Verify backup metadata can be collected from this device";
  confidence = Confidence.low;
}

abbrev no_dates : List Fields → Finding
no_dates backups = record {
  status = warn;
  severity = Severity.medium;
  finding = num (length backups) ∷ lit " backup(s) found but no parseable dates" ∷ [];
  evidence = map (λ b. val (get_or b "name" (str "unnamed")) ∷ []) backups;
  recommendation = text "Ensure backup timestamps are properly formatted";
  confidence = Confidence.medium;
}

abbrev pub stale_and_few : List Message → Finding
stale_and_few evidences = record {
  status = warn;
  severity = Severity.high;
  finding = text "Backups are stale and retention is insufficient";
  evidence = evidences;
  recommendation =
      text
        "Create a recent backup and configure automatic backup retention (at least 2 recent copies)";
  confidence = Confidence.high;
}

abbrev pub stale : List Message → Finding
stale evidences = record {
  status = warn;
  severity = Severity.medium;
  finding = text "Most recent backup is older than 30 days";
  evidence = evidences;
  recommendation = text "Schedule regular backups — weekly is recommended for critical devices";
  confidence = Confidence.high;
}

abbrev pub few : List Message → Finding
few evidences = record {
  status = warn;
  severity = Severity.low;
  finding = text "Only 1 backup found — retention is minimal";
  evidence = evidences;
  recommendation = text "Maintain at least 2 recent backups for safe rollback";
  confidence = Confidence.high;
}

abbrev pub adequate : List Message → Finding
adequate evidences = record {
  status = pass;
  severity = Severity.info;
  finding = text "Backup retention is adequate";
  evidence = evidences;
  recommendation = [];
  confidence = Confidence.high;
}

unfoldable pub judge_backups : Clock → List Fields → List ℕ → Finding
judge_backups clock backups [] = no_dates backups
judge_backups clock backups (d ∷ dates) =
    let most_recent = latest d dates in
    let evidences =
      labelled "most_recent: " (lit (clock.format_date most_recent))
      ∷ labelled "total_backups: " (num (length backups))
      ∷ [] in
    let is_stale = ltb most_recent (stale_threshold clock) in
    let is_few = ltb (length backups) 2 in
    if is_stale && is_few
    then stale_and_few evidences
    else if is_stale
    then stale evidences
    else if is_few
    then few evidences
    else adequate evidences

unfoldable pub audit_backup_retention : Clock → Service → String → Result AuditResult
audit_backup_retention clock s device_id = do
  backups ← get_backup_info s device_id
  if not (truthy backups) then report "backup_retention" device_id (no_data ∷ []) else (do
    bs ← rows backups
    dates ← dates_of clock bs
    report "backup_retention" device_id (judge_backups clock bs dates ∷ []))
