-- ===== src/Cli/Tally.antt =====
-- What the counts of the report and the exit status say of the findings.
use mathlib.Core.Path.{subst}
use routeros_inspector_mcp.Base.{
  ℕ, String, ◌≡◌, refl, ◌∙◌, inl, inr, Bool, true, false, not, ◌&&◌, ◌||◌, Option, List, [], ◌∷◌,
  ◌++◌, any, arith, Dict, lookup, insert, if◌then◌else◌, nat_eq, str_eq, Bool-cases, ◌+◌, string_eq,
}
use routeros_inspector_mcp.Errors.{ok, >>=-eq-ok, ok-injective}
use routeros_inspector_mcp.Service.{Service}
use routeros_inspector_mcp.Audit.{Status, pass, warn, fail, unknown, skip, Finding, AuditResult}
use routeros_inspector_mcp.Server.{AuditFn}
use routeros_inspector_mcp.Cli.{
  Counts, no_counts, count_of, bump, count_findings, summarize, split_names, DeviceReport,
  no_report, add_finding, add_findings, entry_of, clear_devices, add_results, BaselineReport,
  baseline_report, exit_code, device_ids, audit_names, run_audits, baseline_audits, cmd_report,
}

abbrev pub same_status : Status → Status → Bool
same_status pass pass = true
same_status warn warn = true
same_status fail fail = true
same_status unknown unknown = true
same_status skip skip = true
same_status _ _ = false

-- The number of findings that have a status.
abbrev pub tally : Status → List Finding → ℕ
tally st [] = 0
tally st (f ∷ fs) = (if same_status st f.status then 1 else 0) + tally st fs

abbrev pub all_findings : List AuditResult → List Finding
all_findings [] = []
all_findings (r ∷ results) = r.findings ++ all_findings results

tally-append :
    (st : Status) (fs gs : List Finding) → tally st (fs ++ gs) ≡ tally st fs + tally st gs
tally-append st [] gs = omega arith
tally-append st (f ∷ fs) gs = omega (arith, tally-append st fs gs)

count_of-bump :
    (st st' : Status) (c : Counts)
    → count_of st (bump st' c) ≡ (if same_status st st' then 1 else 0) + count_of st c
count_of-bump st st' c = ground arith

count_of-count_findings :
    (st : Status) (fs : List Finding) (c : Counts)
    → count_of st (count_findings fs c) ≡ tally st fs + count_of st c
count_of-count_findings st [] c = omega arith
count_of-count_findings st (f ∷ fs) c =
    omega (arith, count_of-count_findings st fs (bump f.status c), count_of-bump st f.status c)

summarize-tally :
    (st : Status) (results : List AuditResult) (c : Counts)
    → count_of st (summarize results c).0 ≡ tally st (all_findings results) + count_of st c
unfolding summarize
summarize-tally st [] c = omega arith
summarize-tally st (r ∷ results) c = omega (
  arith,
  summarize-tally st results (count_findings r.findings c),
  count_of-count_findings st r.findings c,
  tally-append st r.findings (all_findings results),
)

-- The sum of a count over the devices of a report.
unfoldable pub total : Status → Dict DeviceReport → ℕ
total st [] = 0
total st ((k, e) ∷ d) = count_of st e.counts + total st d

count_of-no_counts : (st : Status) → count_of st no_counts ≡ 0
count_of-no_counts st = ground arith

entry_of-here :
    (k j : String) (w : DeviceReport) (d : Dict DeviceReport)
    → str_eq j k ≡ true
    → entry_of k ((j, w) ∷ d) ≡ w
unfolding lookup
entry_of-here k j w d same = rw (same, entry_of) refl

entry_of-there :
    (k j : String) (w : DeviceReport) (d : Dict DeviceReport)
    → str_eq j k ≡ false
    → entry_of k ((j, w) ∷ d) ≡ entry_of k d
unfolding lookup
entry_of-there k j w d other = rw (other, entry_of) refl

total-insert :
    (st : Status) (k : String) (e : DeviceReport) (d : Dict DeviceReport)
    → total st (insert k e d) + count_of st (entry_of k d).counts
      ≡ total st d + count_of st e.counts
unfolding total insert lookup
total-insert st k e [] = omega (arith, count_of-no_counts st)
total-insert st k e ((j, w) ∷ d) = elim (Bool-cases (str_eq j k)) [
  | inl same ↦ rw (same, if◌then◌else◌, entry_of-here k j w d same) (omega arith)
  | inr other ↦
      rw (other, if◌then◌else◌, entry_of-there k j w d other) (omega (arith, total-insert st k e d))
]

count_of-add_findings :
    (st : Status) (include_pass : Bool) (r : AuditResult) (fs : List Finding) (e : DeviceReport)
    → count_of st (add_findings include_pass r fs e).counts ≡ tally st fs + count_of st e.counts
count_of-add_findings st include_pass r [] e = omega arith
count_of-add_findings st include_pass r (f ∷ fs) e = omega (
  arith,
  count_of-add_findings st include_pass r fs (add_finding include_pass r f e),
  count_of-bump st f.status e.counts,
)

total-add_results :
    (st : Status) (include_pass : Bool) (results : List AuditResult) (d : Dict DeviceReport)
    → total st (add_results include_pass results d) ≡ total st d + tally st (all_findings results)
unfolding add_results
total-add_results st include_pass [] d = omega arith
total-add_results st include_pass (r ∷ results) d =
    let e = entry_of r.device_id d in
    let e' = add_findings include_pass r r.findings e in
    omega (
      arith,
      total-add_results st include_pass results (insert r.device_id e' d),
      total-insert st r.device_id e' d,
      count_of-add_findings st include_pass r r.findings e,
      tally-append st r.findings (all_findings results),
    )

total-clear_devices :
    (st : Status) (devices : List String) (d : Dict DeviceReport)
    → total st d ≡ 0
    → total st (clear_devices devices d) ≡ 0
unfolding clear_devices
total-clear_devices st [] d h = h
total-clear_devices st (k ∷ devices) d h =
    total-clear_devices st devices (insert k no_report d)
      (omega (arith, total-insert st k no_report d, count_of-no_counts st, h))

-- The report counts each finding of the results once: the count of a status is the number of the
-- findings that have it, and the counts of the devices sum up to it.
pub baseline_report-counts :
    (results : List AuditResult) (devices names : List String) (include_pass : Bool) (st : Status)
    → let report = baseline_report results devices names include_pass in
      (count_of st report.counts ≡ tally st (all_findings results))
      × (total st report.by_device ≡ count_of st report.counts)
unfolding baseline_report total
baseline_report-counts results devices names include_pass st =
    let whole = summarize-tally st results no_counts in
    let cleared = total-clear_devices st devices [] refl in
    let each = total-add_results st include_pass results (clear_devices devices []) in
    (
      omega (arith, whole, count_of-no_counts st),
      omega (arith, whole, cleared, each, count_of-no_counts st),
    )

-- What the options make of a finding: with `fail_on_warn` a warning or a failure is refused, with
-- `fail_on_fail` a failure.
abbrev pub is_refused : Bool → Bool → Finding → Bool
is_refused fail_on_warn fail_on_fail f =
    (fail_on_warn && same_status warn f.status)
    || ((fail_on_warn || fail_on_fail) && same_status fail f.status)

any-is_refused :
    (w q : Bool) (fs : List Finding)
    → any (is_refused w q) fs
      ≡ ((w && not (nat_eq (tally warn fs) 0)) || ((w || q) && not (nat_eq (tally fail fs) 0)))
any-is_refused w q [] = ground arith
any-is_refused w q (f ∷ fs) = ground (arith, any-is_refused w q fs)

exit_code-table :
    (w q : Bool) (c : Counts)
    → exit_code w q c
      ≡ (if (w && not (nat_eq c.warns 0)) || ((w || q) && not (nat_eq c.fails 0)) then 1 else 0)
unfolding exit_code
exit_code-table w q c = ground arith

IsReported : Dict AuditFn → Service → Bool → Bool → BaselineReport × ℕ → Type 0
IsReported registry s w q (report, code) =
    (results : List AuditResult) × (run_audits registry s report.devices report.audits ≡ ok results)
    × ((st : Status) → count_of st report.counts ≡ tally st (all_findings results))
    × (code ≡ (if any (is_refused w q) (all_findings results) then 1 else 0))

exit_code-baseline_report :
    (w q include_pass : Bool) (results : List AuditResult) (targets names : List String)
    → exit_code w q (baseline_report results targets names include_pass).counts
      ≡ (if any (is_refused w q) (all_findings results) then 1 else 0)
exit_code-baseline_report w q include_pass results targets names =
    let c = (baseline_report results targets names include_pass).counts in
    let warned = (baseline_report-counts results targets names include_pass warn).0 in
    let failed = (baseline_report-counts results targets names include_pass fail).0 in
    exit_code-table w q c ∙ rw (warned, failed, any-is_refused w q (all_findings results)) refl

baseline_report-IsReported :
    (registry : Dict AuditFn) (s : Service) (include_pass w q : Bool) (results : List AuditResult)
    (targets names : List String)
    → run_audits registry s targets names ≡ ok results
    → let report = baseline_report results targets names include_pass in
      IsReported registry s w q (report, exit_code w q report.counts)
unfolding IsReported baseline_report
baseline_report-IsReported registry s include_pass w q results targets names ran = (
  results,
  ran,
  λ st. (baseline_report-counts results targets names include_pass st).0,
  exit_code-baseline_report w q include_pass results targets names,
)

-- Where a report command returns, its report counts the findings of the runs that it made, and it exits
-- with 1 exactly when the options refuse one of those findings, and with 0 else.
pub cmd_report-exit_code :
    (registry : Dict AuditFn) (s : Service) (devices audits : Option String)
    (include_pass w q : Bool) (report : BaselineReport) (code : ℕ)
    → cmd_report registry s devices audits include_pass w q ≡ ok (report, code)
    → (results : List AuditResult) × (run_audits registry s report.devices report.audits
        ≡ ok results)
      × ((st : Status) → count_of st report.counts ≡ tally st (all_findings results))
      × (code ≡ (if any (is_refused w q) (all_findings results) then 1 else 0))
unfolding cmd_report IsReported
cmd_report-exit_code registry s devices audits include_pass w q report code h =
    let (targets, p, h₁) = >>=-eq-ok (device_ids registry s (split_names devices)) _ h in
    let (names, p', h₂) =
      >>=-eq-ok (audit_names registry s (split_names audits) baseline_audits) _ h₁ in
    let (results, ran, h₃) = >>=-eq-ok (run_audits registry s targets names) _ h₂ in
    subst (IsReported registry s w q) (ok-injective h₃)
      (baseline_report-IsReported registry s include_pass w q results targets names ran)
