-- ===== src/AuditLog/Journal.antt =====
-- The log as a journal: entries are read back as they were written, in the order of the calls.
use mathlib.Core.Path.{subst₂}
use mathlib.Core.List.{append-nil, append_assoc}
use routeros_inspector_mcp.Base.{
  String, true, false, ◌≡◌, refl, ◌≢◌, Option, some, List, [], ◌∷◌, ◌++◌, sym, ap, ◌∙◌, Bool-cases,
  inl, inr,
}
use routeros_inspector_mcp.Errors.{
  Exn, other_error, Result, ok, err, ◌>>=◌, ok-injective, >>=-eq-ok,
}
use routeros_inspector_mcp.Value.{Value, obj}
use routeros_inspector_mcp.AuditLog.{
  AuditEntry, asdict, entry_of_fields, entry_of, LogFile, lines_of, log, read_lines, get_entries,
  Ticket, entry_for, track,
}

entry_of-asdict : (e : AuditEntry) → entry_of (obj (asdict e)) ≡ ok e
unfolding asdict entry_of_fields
entry_of-asdict e = refl

read_lines-concat :
    (lines : List Value) (e : AuditEntry) (entries : List AuditEntry)
    → read_lines lines ≡ ok entries
    → read_lines (lines ++ (obj (asdict e) ∷ [])) ≡ ok (entries ++ (e ∷ []))
unfolding read_lines
read_lines-concat [] e entries h =
    rw (entry_of-asdict, ◌>>=◌) (ap (λ es. ok (es ++ (e ∷ []))) (ok-injective h))
read_lines-concat (line ∷ lines) e entries h =
    let (first, p, h₁) = >>=-eq-ok (entry_of line) _ h in
    let (rest, q, h₂) = >>=-eq-ok (read_lines lines) _ h₁ in
    rw (p, ◌>>=◌)
      (rw (read_lines-concat lines e rest q, ◌>>=◌)
        (ap (λ es. ok (es ++ (e ∷ []))) (ok-injective h₂)))

-- An operation that is tracked: what its run takes from outside, its name and devices, and how its
-- body ends.
pub record Call : Type 0 where
  pub ticket : Ticket
  pub operation : String
  pub device_ids : Option (List String)
  pub body : Result Value

abbrev pub recorded : Call → AuditEntry
recorded c = entry_for c.ticket c.operation c.device_ids c.body

-- The calls one after another, with what each of them returns or raises.
abbrev pub run_calls : List Call → LogFile → List (Result Value) × LogFile
run_calls [] file = ([], file)
run_calls (c ∷ calls) file =
    let (outcome, file') = track c.ticket c.operation c.device_ids c.body file in
    let (outcomes, last) = run_calls calls file' in (outcome ∷ outcomes, last)

-- A tracked operation whose entry is written ends as its body does.
track_open :
    (c : Call) (file : LogFile) (entries : List AuditEntry)
    → file.writable ≡ true
    → get_entries file ≡ ok entries
    → ((track c.ticket c.operation c.device_ids c.body file).0 ≡ c.body)
      × (get_entries (track c.ticket c.operation c.device_ids c.body file).1
          ≡ ok (entries ++ (recorded c ∷ [])))
      × ((track c.ticket c.operation c.device_ids c.body file).1.writable ≡ true)
unfolding track log get_entries
track_open c file entries w h =
    rw (w, log) (refl, read_lines-concat (lines_of file.lines) (recorded c) entries h, refl)

abbrev pub bodies : List Call → List (Result Value)
bodies [] = []
bodies (c ∷ calls) = c.body ∷ bodies calls

abbrev pub entries_of : List Call → List AuditEntry
entries_of [] = []
entries_of (c ∷ calls) = recorded c ∷ entries_of calls

-- On a log that can be written and whose lines are entries, tracked calls end as their bodies do,
-- and what `get_entries` reads afterwards is what it read before, with one entry for each call in
-- order: its id, time, name, devices and duration, and `success`, or `error` with the class of what
-- the body raised.
pub run_calls-journal :
    (calls : List Call) (file : LogFile) (entries : List AuditEntry)
    → file.writable ≡ true
    → get_entries file ≡ ok entries
    → ((run_calls calls file).0 ≡ bodies calls)
      × (get_entries (run_calls calls file).1 ≡ ok (entries ++ entries_of calls))
run_calls-journal [] file entries w h = (refl, h ∙ ap ok (sym (append-nil entries)))
run_calls-journal (c ∷ calls) file entries w h =
    let (ended, read, open') = track_open c file entries w h in
    let (ends, all_read) =
      run_calls-journal calls (track c.ticket c.operation c.device_ids c.body file).1
        (entries ++ (recorded c ∷ [])) open' read in
    (cc (ended, ends), all_read ∙ ap ok (append_assoc entries (recorded c ∷ []) (entries_of calls)))

-- Where the log cannot be written, a tracked operation raises `OSError`, whatever its body returned
-- or raised, and the log stays as it was.
pub track_shut {ℓ} :
    {A : Type ℓ} (ticket : Ticket) (operation : String) (device_ids : Option (List String))
    (body : Result A) (file : LogFile)
    → file.writable ≡ false
    → track ticket operation device_ids body file ≡ (err (other_error "OSError"), file)
unfolding track log
track_shut ticket operation device_ids body file w = simp (w)

pub err-ne-ok {ℓ} :
    {A : Type ℓ} (e : Exn) {a : A} {file file' : LogFile}
    → ◌≢◌ {A = Result A × LogFile} (err e, file) (ok a, file')
err-ne-ok e h = cc

-- What a tracked operation that returned has left in the log.
pub record IsRecorded {ℓ} {A : Type ℓ} (ticket : Ticket) (operation : String)
    (device_ids : Option (List String)) (returned : A) (file file' : LogFile) : Type 0 where
  pub open_before : file.writable ≡ true
  pub reads :
      (entries : List AuditEntry)
      → get_entries file ≡ ok entries
      → get_entries file'
        ≡ ok (entries ++ (entry_for ticket operation device_ids (ok returned) ∷ []))

abbrev pub appended : AuditEntry → LogFile → LogFile
appended e file = record file { lines = some (lines_of file.lines ++ (obj (asdict e) ∷ [])) }

track_appends {ℓ} :
    {A : Type ℓ} (ticket : Ticket) (operation : String) (device_ids : Option (List String))
    (body : Result A) (file : LogFile)
    → file.writable ≡ true
    → track ticket operation device_ids body file
      ≡ (body, appended (entry_for ticket operation device_ids body) file)
unfolding track log
track_appends ticket operation device_ids body file w = simp (w)

get_entries-appended :
    (e : AuditEntry) (file : LogFile) (entries : List AuditEntry)
    → get_entries file ≡ ok entries
    → get_entries (appended e file) ≡ ok (entries ++ (e ∷ []))
unfolding get_entries
get_entries-appended e file entries h = read_lines-concat (lines_of file.lines) e entries h

pub track_returned {ℓ} :
    {A : Type ℓ} (ticket : Ticket) (operation : String) (device_ids : Option (List String))
    (body : Result A) (file : LogFile) {returned : A} {file' : LogFile}
    → track ticket operation device_ids body file ≡ (ok returned, file')
    → (file.writable ≡ true)
      × (file' ≡ appended (entry_for ticket operation device_ids (ok returned)) file)
track_returned {A} ticket operation device_ids body file {returned} {file'} h =
    elim (Bool-cases file.writable) [
      | inl w ↦
          let p = sym (track_appends ticket operation device_ids body file w) ∙ h in
          (
            w,
            sym (ap (λ (r : Result A × LogFile). r.1) p)
                ∙ ap (λ (b : Result A). appended (entry_for ticket operation device_ids b) file)
                    (ap (λ (r : Result A × LogFile). r.0) p),
          )
      | inr w ↦ absurd (err-ne-ok _ (sym (track_shut ticket operation device_ids body file w) ∙ h))
    ]

-- A tracked operation returns only what its body returned, and only where its entry is written.
pub track-IsRecorded {ℓ} :
    {A : Type ℓ} (ticket : Ticket) (operation : String) (device_ids : Option (List String))
    (body : Result A) {returned : A} {file file' : LogFile}
    → track ticket operation device_ids body file ≡ (ok returned, file')
    → (body ≡ ok returned) × IsRecorded ticket operation device_ids returned file file'
track-IsRecorded {A} ticket operation device_ids body {returned} {file} {file'} h =
    elim (Bool-cases file.writable) [
      | inl w ↦
          let p = sym (track_appends ticket operation device_ids body file w) ∙ h in
          let ended : body ≡ ok returned = ap (λ (r : Result A × LogFile). r.0) p in
          (
            ended,
            record {
              open_before = w;
              reads = λ entries read.
                  subst₂
                    (λ (b : Result A) (f : LogFile).
                      get_entries f
                      ≡ ok (entries ++ (entry_for ticket operation device_ids b ∷ [])))
                    ended (ap (λ (r : Result A × LogFile). r.1) p)
                    (get_entries-appended (entry_for ticket operation device_ids body) file entries
                      read);
            },
          )
      | inr w ↦ absurd (err-ne-ok _ (sym (track_shut ticket operation device_ids body file w) ∙ h))
    ]
