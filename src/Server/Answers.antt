-- ===== src/Server/Answers.antt =====
-- What the loop over devices and audits answers: a row for each of them, in order.
use routeros_inspector_mcp.Base.{
  String, ◌≡◌, refl, ◌∙◌, ◌⊎◌, inl, inr, true, some, List, [], ◌∷◌, ◌++◌, arith, length,
  length-append, all, ◌*◌, contains, string_eq, Dict, lookup, keys, map,
}
use routeros_inspector_mcp.Errors.{Exn, Result, ok, err, ◌>>=◌}
use routeros_inspector_mcp.Redaction.{safe_error_labels, safe_error_label}
use routeros_inspector_mcp.Redaction.Laws.{safe_error_label-contains}
use routeros_inspector_mcp.Service.{Service}
use routeros_inspector_mcp.Audit.{AuditResult}
use routeros_inspector_mcp.Server.Guards.{lookup_of}
use routeros_inspector_mcp.Server.{
  AuditFn, AuditRow, result, error, run_one, run_on_device, run_on_devices,
}

abbrev pub pairs : List String → List String → List (String × String)
pairs [] names = []
pairs (d ∷ targets) names = map (λ a. (d, a)) names ++ pairs targets names

module _ (registry : Dict AuditFn) (s : Service) where
  -- A row answers a device and an audit: it is what the audit returned for that device, or, where it
  -- raised, names the two with one of the safe labels.
  pub record Answers (dev_id audit_name : String) (row : AuditRow) : Type 0 where
    pub audit_fn : AuditFn
    pub registered : lookup audit_name registry ≡ some audit_fn
    pub shown :
        ((r : AuditResult) × (audit_fn s dev_id ≡ ok r) × (row ≡ result r))
        ⊎ ((e : Exn) × (audit_fn s dev_id ≡ err e)
            × (row ≡ error audit_name dev_id (safe_error_label e))
            × (contains safe_error_labels (safe_error_label e) ≡ true))

  -- The rows answer the pairs one by one, in the same order.
  abbrev pub AnswerAll : List (String × String) → List AuditRow → Type 0
  AnswerAll [] [] = Unit
  AnswerAll ((d, a) ∷ pairs) (row ∷ rows) = Answers d a row × AnswerAll pairs rows
  AnswerAll [] (row ∷ rows) = ⊥
  AnswerAll (p ∷ pairs) [] = ⊥

  AnswerAll-append :
      (ps qs : List (String × String)) (rows rest : List AuditRow)
      → AnswerAll ps rows
      → AnswerAll qs rest
      → AnswerAll (ps ++ qs) (rows ++ rest)
  AnswerAll-append [] qs [] rest h k = k
  AnswerAll-append [] qs (r ∷ rows) rest h k = absurd h
  AnswerAll-append (p ∷ ps) qs [] rest h k = absurd h
  AnswerAll-append ((d, a) ∷ ps) qs (r ∷ rows) rest (h, hs) k =
      (h, AnswerAll-append ps qs rows rest hs k)

  run_one-Answers :
      (dev_id audit_name : String) (audit_fn : AuditFn) (m : Result AuditResult)
      → lookup audit_name registry ≡ some audit_fn
      → audit_fn s dev_id ≡ m
      → Answers dev_id audit_name (run_one s dev_id audit_name audit_fn)
  unfolding run_one
  run_one-Answers dev_id audit_name audit_fn (ok r) found h = record {
    audit_fn = audit_fn;
    registered = found;
    shown = inl (r, h, rw (h, run_one) refl);
  }
  run_one-Answers dev_id audit_name audit_fn (err e) found h = record {
    audit_fn = audit_fn;
    registered = found;
    shown = inr (e, h, rw (h, run_one) refl, safe_error_label-contains e);
  }

  run_on_device-cons :
      (dev_id name : String) (names : List String) (audit_fn : AuditFn)
      → lookup name registry ≡ some audit_fn
      → run_on_device registry s dev_id (name ∷ names) ≡ (
          run_on_device registry s dev_id names >>= λ rest.
          ok (run_one s dev_id name audit_fn ∷ rest))
  unfolding run_on_device
  run_on_device-cons dev_id name names audit_fn found = rw (found, run_on_device) refl

  device_pairs : String → List String → List (String × String)
  device_pairs dev_id names = map (λ a. (dev_id, a)) names

  run_on_device-AnswerAll :
      (dev_id : String) (names : List String)
      → all (contains (keys registry)) names ≡ true
      → (rows : List AuditRow) × (run_on_device registry s dev_id names ≡ ok rows)
        × AnswerAll (device_pairs dev_id names) rows
  unfolding run_on_device device_pairs
  run_on_device-AnswerAll dev_id [] known = ([], refl, tt)
  run_on_device-AnswerAll dev_id (name ∷ names) known =
      let (audit_fn, found) = lookup_of name registry (ground arith) in
      let (rows, p, each) = run_on_device-AnswerAll dev_id names (ground arith) in
      (
        run_one s dev_id name audit_fn ∷ rows,
        run_on_device-cons dev_id name names audit_fn found ∙ rw p refl,
        (run_one-Answers dev_id name audit_fn (audit_fn s dev_id) found refl, each),
      )

  pub run_on_devices-AnswerAll :
      (targets names : List String)
      → all (contains (keys registry)) names ≡ true
      → (rows : List AuditRow) × (run_on_devices registry s targets names ≡ ok rows)
        × AnswerAll (pairs targets names) rows
  unfolding run_on_devices device_pairs
  run_on_devices-AnswerAll [] names known = ([], refl, tt)
  run_on_devices-AnswerAll (dev_id ∷ targets) names known =
      let (rows, p, each) = run_on_device-AnswerAll dev_id names known in
      let (rest, q, more) = run_on_devices-AnswerAll targets names known in
      (
        rows ++ rest,
        rw (p, q, run_on_devices) refl,
        AnswerAll-append (device_pairs dev_id names) (pairs targets names) rows rest each more,
      )

  pub length-AnswerAll :
      (ps : List (String × String)) (rows : List AuditRow)
      → AnswerAll ps rows
      → length rows ≡ length ps
  length-AnswerAll [] [] h = refl
  length-AnswerAll [] (r ∷ rows) h = absurd h
  length-AnswerAll (p ∷ ps) [] h = absurd h
  length-AnswerAll ((d, a) ∷ ps) (r ∷ rows) (h, hs) = omega (arith, length-AnswerAll ps rows hs)

  length-map : (d : String) (names : List String) → length (device_pairs d names) ≡ length names
  unfolding device_pairs
  length-map d [] = refl
  length-map d (n ∷ names) = omega (arith, length-map d names)

  pub length-pairs :
      (targets names : List String) → length (pairs targets names) ≡ length targets * length names
  unfolding device_pairs
  length-pairs [] names = ground arith
  length-pairs (d ∷ targets) names =
      let more = length-pairs targets names in
      let same = length-map d names in
      length-append (device_pairs d names) (pairs targets names) ∙ omega (arith, more, same)
