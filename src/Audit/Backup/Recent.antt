-- ===== src/Audit/Backup/Recent.antt =====
-- When the backup audit passes.
use routeros_inspector_mcp.Base.{
  ℕ, String, ◌≡◌, ◌≢◌, refl, ◌↔◌, Bool, true, false, not, ◌&&◌, List, [], ◌∷◌, arith, length, any,
  ltb, leb, if◌then◌else◌,
}
use routeros_inspector_mcp.Errors.{ok}
use routeros_inspector_mcp.Value.{Value, Fields, truthy}
use routeros_inspector_mcp.Service.{Service}
use routeros_inspector_mcp.Service.Collectors.{get_backup_info}
use routeros_inspector_mcp.Audit.{Status, pass, warn, fail, Message, Finding, report, rows}
use routeros_inspector_mcp.Audit.Backup.{
  Clock, stale_threshold, dates_of, latest, judge_backups, stale_and_few, stale, few, adequate,
  audit_backup_retention,
}

-- A date that is not older than thirty days.
abbrev pub is_recent : Clock → ℕ → Bool
is_recent clock d = leb (stale_threshold clock) d

-- The latest date is older than a bound exactly when every date is.
latest-any :
    (bound d : ℕ) (dates : List ℕ) → ltb (latest d dates) bound ≡ not (any (leb bound) (d ∷ dates))
latest-any bound d [] = ground arith
latest-any bound d (e ∷ dates) = ground (arith, latest-any bound e dates)

abbrev backup_table : Bool → Bool → Status
backup_table recent enough = if recent && enough then pass else warn

table-pass : (a b : Bool) → (backup_table a b ≡ pass) ↔ ((a ≡ true) × (b ≡ true))
table-pass a b = ground arith

table-ne-fail : (a b : Bool) → backup_table a b ≢ fail
table-ne-fail true true h = cc
table-ne-fail true false h = cc
table-ne-fail false b h = cc

few-enough : (n : ℕ) → ltb n 2 ≡ not (leb 2 n)
few-enough n = ground arith

pick_status :
    (recent enough : Bool) (es : List Message)
    → (if not recent && not enough
        then stale_and_few es
        else if not recent
        then stale es
        else if not enough
        then few es
        else adequate es).status
      ≡ backup_table recent enough
pick_status true true es = refl
pick_status true false es = refl
pick_status false true es = refl
pick_status false false es = refl

judge_backups-status :
    (clock : Clock) (bs : List Fields) (dates : List ℕ)
    → (judge_backups clock bs dates).status
      ≡ backup_table (any (is_recent clock) dates) (leb 2 (length bs))
unfolding judge_backups
judge_backups-status clock bs [] = refl
judge_backups-status clock bs (d ∷ dates) =
    rw (latest-any (stale_threshold clock) d dates, few-enough (length bs), judge_backups)
      (pick_status (any (is_recent clock) (d ∷ dates)) (leb 2 (length bs)) _)

-- Where backups are read, the backup audit returns one finding, which never fails. It passes exactly when
-- there are at least two backups and a date that can be read is not older than thirty days.
pub audit_backup_retention_lem :
    (clock : Clock) (s : Service) (device_id : String) (backups : Value) (bs : List Fields)
    (dates : List ℕ)
    → get_backup_info s device_id ≡ ok backups
    → truthy backups ≡ true
    → rows backups ≡ ok bs
    → dates_of clock bs ≡ ok dates
    → (f : Finding) × (audit_backup_retention clock s device_id
        ≡ report "backup_retention" device_id (f ∷ []))
      × ((f.status ≡ pass) ↔ ((any (is_recent clock) dates ≡ true) × (leb 2 (length bs) ≡ true)))
      × (f.status ≢ fail)
unfolding audit_backup_retention
audit_backup_retention_lem clock s device_id backups bs dates got filled read dated =
    let recent = any (is_recent clock) dates in
    let enough = leb 2 (length bs) in
    (
      judge_backups clock bs dates,
      rw (got, filled, read, dated, audit_backup_retention) refl,
      rw judge_backups-status (table-pass recent enough),
      rw judge_backups-status (table-ne-fail recent enough),
    )
