-- ===== src/Workflow/Completeness.antt =====
-- On complete facts (agent-service/app/workflows/diagnosis_rules.py) and gaps
-- (agent-service/app/workflows/information_gaps.py).
use productline_agent.Base.{
  ◌≡◌, refl, Bool, true, false, not, ◌&&◌, Option, none, some, List, [], ◌∷◌, ◌++◌, map, Text,
  text_eq, if◌then◌else◌, All, all_of-All, keep_if, arith, Bool-cases, inl, inr, repeats, contains,
}
use productline_agent.Base.Dict
use productline_agent.Workflow.Facts.{
  OrderDiagnosisState, OrderStatus, TaskDetail, InformationGap, GapCode, QualityIssue, ReviewResult,
  production_progress_required, specification_result_required, quality_issues_required,
  review_result_required, OrderDetail, order_required, related_tasks_required,
  delivery_status_required,
}
use productline_agent.Workflow.Rules.{
  order_matches, task_ids, task_complete, has_complete_facts, delivery_complete, issues_complete,
  issue_ids, reviews_complete,
}
use productline_agent.Workflow.Gaps.{
  progress_prefix, quality_prefix, review_prefix, specification_text, detect, scene_gaps, gap_if,
  tasks_valid, production_task_ids, review_task_ids, distinct_from, requires_specification,
  has_valid_progress, has_valid_quality_issues, has_valid_review, scene_of, review_valid,
  missing_gap, is_quality,
}

module _ {A : Type 0} where
  keep_if-nil : (p : A → Bool) (xs : List A) → All (λ x. p x ≡ false) xs → keep_if p xs ≡ []
  keep_if-nil p [] h = refl
  keep_if-nil p (x ∷ xs) h = rw h.0 (keep_if-nil p xs h.1)

  All-keep_if : (P : A → Type 0) (p : A → Bool) (xs : List A) → All P xs → All P (keep_if p xs)
  All-keep_if P p [] h = tt
  All-keep_if P p (x ∷ xs) h = elim (Bool-cases (p x)) [
    | inl kept ↦ rw kept (h.0, All-keep_if P p xs h.1)
    | inr dropped ↦ rw dropped (All-keep_if P p xs h.1)
  ]

  All-append : (P : A → Type 0) (xs ys : List A) → All P xs → All P ys → All P (xs ++ ys)
  All-append P [] ys h k = k
  All-append P (x ∷ xs) ys h k = (h.0, All-append P xs ys h.1 k)

  All-map : (P Q : A → Type 0) (xs : List A) → ((x : A) → P x → Q x) → All P xs → All Q xs
  All-map P Q [] f h = tt
  All-map P Q (x ∷ xs) f h = (f x h.0, All-map P Q xs f h.1)

  append-nil_left : (xs ys : List A) → xs ++ ys ≡ [] → xs ≡ []
  append-nil_left [] ys h = refl
  append-nil_left (x ∷ xs) ys h = cc

  append-nil_right : (xs ys : List A) → xs ++ ys ≡ [] → ys ≡ []
  append-nil_right [] ys h = h
  append-nil_right (x ∷ xs) ys h = cc

All-distinct_from :
    (P : Text → Type 0) (seen xs : List Text) → All P xs → All P (distinct_from seen xs)
unfolding distinct_from
All-distinct_from P seen [] h = tt
All-distinct_from P seen (x ∷ xs) h = elim (Bool-cases (contains x seen)) [
  | inl old ↦ rw old (All-distinct_from P seen xs h.1)
  | inr new ↦ rw new (h.0, All-distinct_from P (x ∷ seen) xs h.1)
]

-- Every task has the property, so has each of a selection of them.
module _ (P : Text → Type 0) where
  All-unfinished :
      (p : TaskDetail → Bool) (ts : List TaskDetail)
      → All P (map (λ (t : TaskDetail). t.task_id) ts)
      → All P (map (λ (t : TaskDetail). t.task_id) (keep_if p ts))
  All-unfinished p [] h = tt
  All-unfinished p (t ∷ ts) h = elim (Bool-cases (p t)) [
    | inl kept ↦ rw kept (h.0, All-unfinished p ts h.1)
    | inr dropped ↦ rw dropped (All-unfinished p ts h.1)
  ]

  All-if : (b : Bool) (xs ys : List Text) → All P xs → All P ys → All P (if b then xs else ys)
  All-if true xs ys h k = h
  All-if false xs ys h k = k

  All-production_task_ids :
      (s : OrderDiagnosisState) (o : OrderStatus)
      → All P (task_ids s)
      → All P (production_task_ids s o)
  unfolding production_task_ids
  All-production_task_ids s o h = All-if _ (task_ids s) _ h (All-unfinished _ s.tasks h)

  All-review_task_ids :
      (s : OrderDiagnosisState) (o : OrderStatus) → All P (task_ids s) → All P (review_task_ids s o)
  unfolding review_task_ids
  All-review_task_ids s o h =
      All-distinct_from P [] _
        (All-append P _ _ (All-if _ (task_ids s) [] h tt) (All-keep_if P _ (task_ids s) h))

gap_if-nil : (b : Bool) (c : GapCode) (d : Text) → gap_if b c d ≡ [] → b ≡ false
gap_if-nil true c d h = cc
gap_if-nil false c d h = refl

true_of_not : (b : Bool) → not b ≡ false → b ≡ true
true_of_not true h = refl
true_of_not false h = cc

-- Without a gap, the order, its tasks and its delivery status are loaded and belong together.
pub detect-nil :
    (s : OrderDiagnosisState) (has_specification : Bool)
    → detect s has_specification ≡ []
    → (order_matches s.order_id s.order ≡ true)
      × (tasks_valid s ≡ true)
      × (delivery_complete s.order_id s.delivery ≡ true)
unfolding detect
detect-nil s has_specification h =
    let basic = append-nil_left _ (scene_of s s.order has_specification) h in
    let first =
      append-nil_left
        (gap_if (not (order_matches s.order_id s.order)) _ _ ++ gap_if (not (tasks_valid s)) _ _) _
        basic in
    (
      true_of_not (order_matches s.order_id s.order)
          (gap_if-nil (not (order_matches s.order_id s.order)) _ _ (append-nil_left _ _ first)),
      true_of_not (tasks_valid s) (
          gap_if-nil (not (tasks_valid s)) _ _
            (append-nil_right (gap_if (not (order_matches s.order_id s.order)) _ _) _ first)),
      true_of_not (delivery_complete s.order_id s.delivery) (
          gap_if-nil (not (delivery_complete s.order_id s.delivery)) _ _ (
            append-nil_right
              (gap_if (not (order_matches s.order_id s.order)) _ _
                ++ gap_if (not (tasks_valid s)) _ _)
              _ basic)),
    )

-- What is complete for a task leaves no gap for it.
task_complete_valid :
    (s : OrderDiagnosisState) (id : Text)
    → task_complete s id ≡ true
    → (has_valid_progress s id ≡ true)
      × (has_valid_quality_issues s id ≡ true)
      × (has_valid_review s id ≡ true)
unfolding task_complete has_valid_progress has_valid_quality_issues has_valid_review
task_complete_valid s id h = go (Dict.lookup id s.quality_issues) (Dict.lookup id s.reviews) _ h
  where
    go :
        (q : Option (List QualityIssue)) (r : Option (Option ReviewResult)) (p : Bool)
        → (p && issues_complete id q && reviews_complete id (issue_ids q) r) ≡ true
        → (p ≡ true) × (issues_complete id q ≡ true) × (review_valid id q r ≡ true)
    go none r p e = ground arith
    go (some issues) none p e = ground arith
    go (some issues) (some none) p e = ground arith
    go (some issues) (some (some r)) p e = ground arith

missing_gap-nil :
    (ids : List Text) (c : GapCode) (prefix : Text) → ids ≡ [] → missing_gap ids c prefix ≡ []
missing_gap-nil [] c prefix h = refl
missing_gap-nil (id ∷ ids) c prefix h = cc

-- Of tasks that are all valid, none is missing.
none_missing :
    (valid : Text → Bool) (ids : List Text) (c : GapCode) (prefix : Text)
    → All (λ id. valid id ≡ true) ids
    → missing_gap (keep_if (λ id. not (valid id)) ids) c prefix ≡ []
none_missing valid ids c prefix h = missing_gap-nil _ c prefix (
    keep_if-nil (λ id. not (valid id)) ids
      (All-map (λ id. valid id ≡ true) (λ id. not (valid id) ≡ false) ids (λ id e. rw e) h))

append_nils :
    (a b c d : List InformationGap) → a ≡ [] → b ≡ [] → c ≡ [] → d ≡ [] → a ++ b ++ c ++ d ≡ []
append_nils a b c d ha hb hc hd = rw (ha, hb, hc, hd)

specification_nil :
    (need has : Bool) (d : Text)
    → (need ≡ true → has ≡ true)
    → gap_if (need && not has) specification_result_required d ≡ []
specification_nil true true d h = refl
specification_nil true false d h = cc (h refl)
specification_nil false has d h = refl

-- Complete tasks leave no gap in any scene.
scene_gaps-nil :
    (s : OrderDiagnosisState) (o : OrderStatus) (has_specification : Bool)
    → All (λ id. task_complete s id ≡ true) (task_ids s)
    → (requires_specification s ≡ true → has_specification ≡ true)
    → scene_gaps s o has_specification ≡ []
unfolding scene_gaps
scene_gaps-nil s o has_specification all known =
    append_nils _ _ _ _
      (none_missing (has_valid_progress s) (production_task_ids s o) production_progress_required
        progress_prefix
        (All-map _ _ (production_task_ids s o) (λ id h. (task_complete_valid s id h).0)
          (All-production_task_ids (λ id. task_complete s id ≡ true) s o all)))
      (none_missing (has_valid_quality_issues s) (if is_quality o then task_ids s else [])
        quality_issues_required quality_prefix
        (All-map _ _ _ (λ id h. (task_complete_valid s id h).1)
          (All-if (λ id. task_complete s id ≡ true) (is_quality o) (task_ids s) [] all tt)))
      (none_missing (has_valid_review s) (review_task_ids s o) review_result_required review_prefix
        (All-map _ _ (review_task_ids s o) (λ id h. (task_complete_valid s id h).2)
          (All-review_task_ids (λ id. task_complete s id ≡ true) s o all)))
      (specification_nil (requires_specification s) has_specification specification_text known)

no_gap_basics :
    (s : OrderDiagnosisState)
    → has_complete_facts s ≡ true
    → repeats (task_ids s) ≡ false
    → (order_matches s.order_id s.order ≡ true)
      × (tasks_valid s ≡ true)
      × (delivery_complete s.order_id s.delivery ≡ true)
      × All (λ id. task_complete s id ≡ true) (task_ids s)
unfolding has_complete_facts
no_gap_basics s complete distinct = (
  ground arith,
  ground arith,
  ground arith,
  all_of-All (task_complete s) (task_ids s) (ground arith),
)

basic_gaps-nil :
    (a b c : Bool) (d e f : Text) (scene : List InformationGap)
    → a ≡ true
    → b ≡ true
    → c ≡ true
    → scene ≡ []
    → gap_if (not a) order_required d
        ++ gap_if (not b) related_tasks_required e
        ++ gap_if (not c) delivery_status_required f
        ++ scene
      ≡ []
basic_gaps-nil a b c d e f scene ha hb hc hs = rw (ha, hb, hc, hs)

scene_of-nil :
    (s : OrderDiagnosisState) (o : Option OrderDetail) (has_specification : Bool)
    → ((status : OrderStatus) → scene_gaps s status has_specification ≡ [])
    → scene_of s o has_specification ≡ []
scene_of-nil s none has_specification h = refl
scene_of-nil s (some o) has_specification h = ground (arith, h o.status)

-- If the facts are complete for the fixed rules, no task is listed twice, and a specification
-- result is at hand where a coordinate issue asks for one, then the detector finds no gap.
pub complete-detect :
    (s : OrderDiagnosisState) (has_specification : Bool)
    → has_complete_facts s ≡ true
    → repeats (task_ids s) ≡ false
    → (requires_specification s ≡ true → has_specification ≡ true)
    → detect s has_specification ≡ []
unfolding detect
complete-detect s has_specification complete distinct known =
    let (order, tasks, delivery, all) = no_gap_basics s complete distinct in
    basic_gaps-nil (order_matches s.order_id s.order) (tasks_valid s)
      (delivery_complete s.order_id s.delivery) _ _ _ (scene_of s s.order has_specification) order
      tasks delivery
      (scene_of-nil s s.order has_specification
        (λ status. scene_gaps-nil s status has_specification all known))
