-- ===== src/Audit/Correlation/Aligned.antt =====
-- When marks and queues are aligned.
use routeros_inspector_mcp.Base.{
  String, ◌≡◌, ◌≢◌, refl, sym, ap, ◌∙◌, ◌↔◌, inl, inr, Bool, true, false, not, ◌&&◌, ◌||◌, List, [],
  ◌∷◌, ◌++◌, arith, is_empty, take, select, all, contains, map, string_eq, keys, Bool-cases,
}
use routeros_inspector_mcp.Errors.{ok}
use routeros_inspector_mcp.Value.{Value, Fields, truthy}
use routeros_inspector_mcp.Service.{Service}
use routeros_inspector_mcp.Service.Collectors.{get_firewall_mangle}
use routeros_inspector_mcp.Audit.{pass, warn, Message, Finding, report, rows}
use routeros_inspector_mcp.Audit.Correlation.{
  is_enabled, is_inactive, Marks, items_under, packet_producers, disabled_packet_producers,
  queue_consumers, in_order, put_in_order, orphan_lines, unused_lines, lines, inactive_line,
  referenced_lines, correlate, judge_marks, queues_of, audit_mangle_queue_correlation,
}

-- Sorting keeps the members.
all-put_in_order :
    (p : String → Bool) (s : String) (ts : List String)
    → all p (put_in_order s ts) ≡ (p s && all p ts)
all-put_in_order p s [] = refl
all-put_in_order p s (t ∷ ts) = ground (arith, all-put_in_order p s ts)

all-in_order : (p : String → Bool) (ss : List String) → all p (in_order ss) ≡ all p ss
all-in_order p [] = refl
all-in_order p (s ∷ ss) = ground (arith, all-put_in_order p s (in_order ss), all-in_order p ss)

is_empty-append {ℓ} :
    {A : Type ℓ} (xs ys : List A) → is_empty (xs ++ ys) ≡ (is_empty xs && is_empty ys)
is_empty-append [] ys = refl
is_empty-append (x ∷ xs) ys = refl

is_empty-lines :
    (f : String → List Message) (ms : List String)
    → is_empty (lines f ms) ≡ all (λ m. is_empty (f m)) ms
is_empty-lines f [] = refl
is_empty-lines f (m ∷ ms) =
    is_empty-append (f m) (lines f ms) ∙ ap (λ b. is_empty (f m) && b) (is_empty-lines f ms)

-- Whether a mark that queues wait for is set by an enabled rule, and whether queues wait for a mark.
abbrev pub is_served : Marks → Marks → String → Bool
is_served producers consumers mark =
    is_empty (items_under mark consumers)
    || not (is_empty (select is_enabled (items_under mark producers)))

is_empty-orphan_lines :
    (producers consumers : Marks) (mark : String)
    → is_empty (orphan_lines producers consumers mark) ≡ is_served producers consumers mark
is_empty-orphan_lines producers consumers mark = ground arith

is_empty-unused_lines :
    (producers consumers : Marks) (mark : String)
    → is_empty (unused_lines producers consumers mark) ≡ contains (keys consumers) mark
is_empty-unused_lines producers consumers mark = ground arith

is_empty-referenced_lines :
    (p : String → Bool) (ms : List String)
    → is_empty (referenced_lines (select p ms)) ≡ all (λ m. not (p m)) ms
is_empty-referenced_lines p [] = refl
is_empty-referenced_lines p (m ∷ ms) = ground (arith, is_empty-referenced_lines p ms)

is_empty-inactive :
    (queues : List Fields)
    → is_empty (map inactive_line (take 10 (select is_inactive queues)))
      ≡ all (λ q. not (is_inactive q)) queues
is_empty-inactive [] = refl
is_empty-inactive (q ∷ queues) = ground (arith, is_empty-inactive queues)

-- What an alignment of the two tables is: no queue is disabled or invalid, an enabled rule sets each
-- mark that queues wait for, queues wait for each mark that a rule sets, and for none that a disabled
-- rule sets.
pub record IsAligned (rules queues : List Fields) : Type 0 where
  pub active : all (λ q. not (is_inactive q)) queues ≡ true
  pub served :
      all
        (is_served (packet_producers rules []) (queue_consumers queues []))
        (keys (queue_consumers queues []))
      ≡ true
  pub consumed :
      all (contains (keys (queue_consumers queues []))) (keys (packet_producers rules [])) ≡ true
  pub enabled :
      all
        (λ m. not (contains (keys (queue_consumers queues [])) m))
        (keys (disabled_packet_producers rules))
      ≡ true

is_empty-four :
    (ws xs ys zs : List Message)
    → is_empty (ws ++ xs ++ ys ++ zs)
      ≡ (is_empty ws && (is_empty xs && (is_empty ys && is_empty zs)))
is_empty-four [] [] [] zs = refl
is_empty-four [] [] (y ∷ ys) zs = refl
is_empty-four [] (x ∷ xs) ys zs = refl
is_empty-four (w ∷ ws) xs ys zs = refl

and_cong : {a b c d : Bool} → a ≡ b → c ≡ d → (a && c) ≡ (b && d)
and_cong h k = cc

and_iff : {a b : Bool} → ((a && b) ≡ true) ↔ ((a ≡ true) × (b ≡ true))
and_iff {a} {b} = ground arith

none_empty : (a b : Bool) → a || b ≡ true → (not a && not b) ≡ false
none_empty a b h = ground arith

warn-ne-pass : warn ≢ pass
warn-ne-pass h = cc

false-ne-true : false ≢ true
false-ne-true h = cc

all-cong :
    (p q : String → Bool) → ((m : String) → p m ≡ q m) → (ms : List String) → all p ms ≡ all q ms
all-cong p q same [] = refl
all-cong p q same (m ∷ ms) = ground (arith, same m, all-cong p q same ms)

module _ (rules queues : List Fields) where
  abbrev producers : Marks
  producers = packet_producers rules []

  abbrev consumers : Marks
  consumers = queue_consumers queues []

  orphans-all :
      is_empty (lines (orphan_lines producers consumers) (in_order (keys consumers)))
      ≡ all (is_served producers consumers) (keys consumers)
  orphans-all =
      is_empty-lines (orphan_lines producers consumers) (in_order (keys consumers))
      ∙ all-cong _ _ (is_empty-orphan_lines producers consumers) (in_order (keys consumers))
      ∙ all-in_order (is_served producers consumers) (keys consumers)

  unused-all :
      is_empty (lines (unused_lines producers consumers) (in_order (keys producers)))
      ≡ all (contains (keys consumers)) (keys producers)
  unused-all =
      is_empty-lines (unused_lines producers consumers) (in_order (keys producers))
      ∙ all-cong _ _ (is_empty-unused_lines producers consumers) (in_order (keys producers))
      ∙ all-in_order (contains (keys consumers)) (keys producers)

  referenced-all :
      is_empty (
        referenced_lines
          (select (contains (keys consumers)) (in_order (keys (disabled_packet_producers rules)))))
      ≡ all (λ m. not (contains (keys consumers) m)) (keys (disabled_packet_producers rules))
  referenced-all =
      is_empty-referenced_lines (contains (keys consumers))
        (in_order (keys (disabled_packet_producers rules)))
      ∙ all-in_order (λ m. not (contains (keys consumers) m))
          (keys (disabled_packet_producers rules))

  correlate-all : is_empty (correlate rules queues) ≡ (
      all (λ q. not (is_inactive q)) queues
      && (all (is_served producers consumers) (keys consumers)
          && (all (contains (keys consumers)) (keys producers)
              && all
                  (λ m. not (contains (keys consumers) m))
                  (keys (disabled_packet_producers rules)))))
  unfolding correlate
  correlate-all =
      is_empty-four (map inactive_line (take 10 (select is_inactive queues)))
        (lines (orphan_lines producers consumers) (in_order (keys consumers)))
        (lines (unused_lines producers consumers) (in_order (keys producers)))
        (referenced_lines
          (select (contains (keys consumers)) (in_order (keys (disabled_packet_producers rules)))))
      ∙ and_cong (is_empty-inactive queues)
          (and_cong orphans-all (and_cong unused-all referenced-all))

  when_quiet : is_empty (correlate rules queues) ≡ true → IsAligned rules queues
  when_quiet h =
      let (a, r) = and_iff.0 (sym correlate-all ∙ h) in
      let (b, r') = and_iff.0 r in
      let (c, d) = and_iff.0 r' in record { active = a; served = b; consumed = c; enabled = d }

  when_aligned : IsAligned rules queues → is_empty (correlate rules queues) ≡ true
  when_aligned k =
      correlate-all ∙ and_iff.1 (k.active, and_iff.1 (k.served, and_iff.1 (k.consumed, k.enabled)))

  judge_marks_iff : ((judge_marks rules queues).status ≡ pass) ↔ IsAligned rules queues
  unfolding judge_marks
  judge_marks_iff = elim (Bool-cases (is_empty (correlate rules queues))) [
    | inl clean ↦ (λ _. when_quiet clean, λ _. rw (clean, judge_marks) refl)
    | inr found ↦ (
      λ h. absurd (warn-ne-pass (rw (found, judge_marks) at h)),
      λ k. absurd (false-ne-true (sym found ∙ when_aligned k)),
    )
  ]

-- Where mangle rules and queues are read, one of them not empty, the correlation audit returns one
-- finding. It passes exactly when no queue is disabled or invalid, an enabled rule sets each mark that
-- queues wait for, queues wait for each mark that a rule sets, and for none that a disabled rule sets.
pub audit_mangle_queue_correlation_lem :
    (s : Service) (device_id : String) (rules queues : Value) (rs qs : List Fields)
    → get_firewall_mangle s device_id ≡ ok rules
    → queues_of s device_id ≡ ok queues
    → truthy rules || truthy queues ≡ true
    → rows rules ≡ ok rs
    → rows queues ≡ ok qs
    → (f : Finding) × (audit_mangle_queue_correlation s device_id
        ≡ report "mangle_queue_correlation" device_id (f ∷ []))
      × ((f.status ≡ pass) ↔ IsAligned rs qs)
unfolding audit_mangle_queue_correlation
audit_mangle_queue_correlation_lem s device_id rules queues rs qs got got' filled read read' = (
  judge_marks rs qs,
  rw
      (
        got,
        got',
        none_empty (truthy rules) (truthy queues) filled,
        read,
        read',
        audit_mangle_queue_correlation,
      )
      refl,
  judge_marks_iff rs qs,
)
