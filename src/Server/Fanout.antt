-- ===== src/Server/Fanout.antt =====
-- What `run_audit` answers: a row for each device and audit asked for, within the limit.
use mathlib.Core.Path.{subst}
use routeros_inspector_mcp.Base.{
  ℕ, String, ◌≡◌, sym, ◌∙◌, true, false, Option, List, [], arith, length, all, ltb, ◌*◌, ◌≤◌,
  contains, string_eq, Dict, keys, any-not,
}
use routeros_inspector_mcp.Errors.{Exn, ok, err, value_error, ok-injective}
use routeros_inspector_mcp.Service.{Service}
use routeros_inspector_mcp.Service.Fleet.Laws.{AreDistinct}
use routeros_inspector_mcp.Server.Answers.{
  pairs, AnswerAll, run_on_devices-AnswerAll, length-AnswerAll, length-pairs,
}
use routeros_inspector_mcp.Server.Guards.{three_guards, refused_by, unique_from-AreDistinct}
use routeros_inspector_mcp.Server.{
  max_audit_fanout, AuditFn, AuditRow, run_on_devices, requested_audits, requested_devices,
  run_audit,
}

module _ (registry : Dict AuditFn) (s : Service) where
  fits_test : (n : ℕ) → n ≤ max_audit_fanout → ltb max_audit_fanout n ≡ false
  fits_test n h = ground arith

  -- A call for known audits and devices whose product is within the limit returns.
  pub run_audit_total :
      (audits device_ids : Option (List String))
      → all (contains (keys registry)) (requested_audits registry s audits) ≡ true
      → all (contains (keys s.inventory.devices)) (requested_devices registry s device_ids) ≡ true
      → length (requested_audits registry s audits)
          * length (requested_devices registry s device_ids)
        ≤ max_audit_fanout
      → (rows : List AuditRow) × (run_audit registry s audits device_ids ≡ ok rows)
        × AnswerAll registry s
            (pairs (requested_devices registry s device_ids) (requested_audits registry s audits))
            rows
  unfolding run_audit
  run_audit_total audits device_ids named known fits =
      let names = requested_audits registry s audits in
      let targets = requested_devices registry s device_ids in
      let no_name = any-not (contains (keys registry)) names in
      let no_device = any-not (contains (keys s.inventory.devices)) targets in
      let (rows, p, each) = run_on_devices-AnswerAll registry s targets names named in
      (
        rows,
        rw
            (
              no_name,
              named,
              no_device,
              known,
              fits_test (length names * length targets) fits,
              run_audit,
            )
            p,
        each,
      )

  -- What a call that returns has asked for, and what it answers.
  pub record IsFanout (audits device_ids : Option (List String)) (rows : List AuditRow)
      : Type 0 where
    pub once :
        AreDistinct (requested_audits registry s audits)
        × AreDistinct (requested_devices registry s device_ids)
    pub named : all (contains (keys registry)) (requested_audits registry s audits) ≡ true
    pub known :
        all (contains (keys s.inventory.devices)) (requested_devices registry s device_ids) ≡ true
    pub count :
        length rows
        ≡ length (requested_audits registry s audits)
          * length (requested_devices registry s device_ids)
    pub fits : length rows ≤ max_audit_fanout
    pub each :
        AnswerAll registry s
          (pairs (requested_devices registry s device_ids) (requested_audits registry s audits))
          rows

  -- The guards of a call that returns held.
  guards :
      (audits device_ids : Option (List String)) {rows : List AuditRow}
      → run_audit registry s audits device_ids ≡ ok rows
      → (all (contains (keys registry)) (requested_audits registry s audits) ≡ true)
        × (all (contains (keys s.inventory.devices)) (requested_devices registry s device_ids)
            ≡ true)
        × (length (requested_audits registry s audits)
              * length (requested_devices registry s device_ids)
            ≤ max_audit_fanout)
  unfolding run_audit
  guards audits device_ids h =
      let names = requested_audits registry s audits in
      let targets = requested_devices registry s device_ids in
      three_guards (all (contains (keys registry)) names)
        (all (contains (keys s.inventory.devices)) targets) (length names * length targets) _ _ _ _
        (rw
          (
            any-not (contains (keys registry)) names,
            any-not (contains (keys s.inventory.devices)) targets,
            run_audit,
          )
          at h)

  -- A call that returns has named known audits and devices, each once, and has one row for each device
  -- and audit, device by device, at most 128 in all. A row holds what the audit returned for the device,
  -- or, where the audit raised, the names of both with one of the safe labels.
  pub run_audit-IsFanout :
      (audits device_ids : Option (List String)) (rows : List AuditRow)
      → run_audit registry s audits device_ids ≡ ok rows
      → IsFanout audits device_ids rows
  run_audit-IsFanout audits device_ids rows h =
      let (named, known, fits) = guards audits device_ids h in
      let (rows', p, each) = run_audit_total audits device_ids named known fits in
      let same = ok-injective (sym p ∙ h) in
      let names = requested_audits registry s audits in
      let targets = requested_devices registry s device_ids in
      let counted = length-AnswerAll registry s (pairs targets names) rows' each in
      let product = length-pairs registry s targets names in
      subst (IsFanout audits device_ids) same (record {
        once = (unique_from-AreDistinct [] _, unique_from-AreDistinct [] _);
        named = named;
        known = known;
        count = omega (arith, counted, product);
        fits = omega (arith, counted, product, fits);
        each = each;
      })

  -- A call is refused only by one of the three checks: whatever an audit raises stays in its row.
  pub run_audit_errors :
      (audits device_ids : Option (List String)) (e : Exn)
      → run_audit registry s audits device_ids ≡ err e
      → (message : String) × (e ≡ value_error message)
  unfolding run_audit
  run_audit_errors audits device_ids e h =
      let names = requested_audits registry s audits in
      let targets = requested_devices registry s device_ids in
      refused_by (all (contains (keys registry)) names)
        (all (contains (keys s.inventory.devices)) targets) _ _ _ _
        (run_on_devices registry s targets names) e
        (λ named.
          let (rows, p, _) = run_on_devices-AnswerAll registry s targets names named in (rows, p))
        (rw
          (
            any-not (contains (keys registry)) names,
            any-not (contains (keys s.inventory.devices)) targets,
            run_audit,
          )
          at h)
