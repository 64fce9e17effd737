-- ===== src/Workflow/Stages.antt =====
-- On the blocking stage (agent-service/app/workflows/diagnosis_rules.py).
use productline_agent.Base.{
  ◌≡◌, refl, ◌↔◌, Bool, true, false, ◌||◌, some, List, [], ◌∷◌, text_eq, if◌then◌else◌, All, any_of,
  arith, Option, none, repeats, non_empty, some_injective, sym, ◌∙◌,
}
use productline_agent.Base.Dict.{values}
use productline_agent.Workflow.Facts.{
  OrderDiagnosisState, TaskDetail, ProductionStep, ProductionStatus, completed, QualityIssue,
  ReviewRecord, approved, DeliveryStatus, DeliveryRecord, is_failed, is_active, is_unresolved,
  is_delivery_blocked, resolved,
}
use productline_agent.Workflow.Rules.{
  all_steps, all_issues, all_reviews, BlockingStage, evaluate_loaded_facts, some_failure, nothing,
  some_production, delivery_complete, evaluate_diagnosis_rules, evaluate_dynamic_diagnosis_rules,
  insufficient_information, has_complete_facts,
}
use productline_agent.Workflow.Reviews.{
  HasApproval, any_of-none, none-any_of, All-both, All-into, completed_of, false_or, or_false,
  no_review,
}
use productline_agent.Workflow.Rules.{
  order_matches, task_ids, delivery_stage, delivery, production_blocked, production, quality_review,
  review,
}
use productline_agent.Workflow.Gaps.{tasks_valid, detect, requires_specification}
use productline_agent.Workflow.Completeness.{complete-detect, detect-nil}

-- A delivery status whose records are all on their way.
abbrev pub IsDeliverable : Option DeliveryStatus → Type 0
IsDeliverable o =
    (d : DeliveryStatus) × (o ≡ some d)
    × All (λ (r : DeliveryRecord). is_delivery_blocked r.status ≡ false) d.records

-- What the rules look at for a blocking stage: the tasks, what is loaded of the steps, the issues and
-- the reviews, and the delivery status. The status of the order is not part of it.
pub record IsClear (s : OrderDiagnosisState) : Type 0 where
  pub tasks_completed : All (λ (t : TaskDetail). t.status ≡ completed) s.tasks
  pub steps_completed :
      All (λ (x : ProductionStep). x.status ≡ completed) (all_steps (values s.progress))
  pub issues_settled :
      All
        (λ (i : QualityIssue). is_unresolved i.status ≡ false)
        (all_issues (values s.quality_issues))
  pub reviews_approved :
      All (λ (r : ReviewRecord). r.status ≡ approved) (all_reviews (values s.reviews))
  pub resolved_reviewed :
      All
        (λ (i : QualityIssue).
          i.status ≡ resolved → HasApproval i.issue_id (all_reviews (values s.reviews)))
        (all_issues (values s.quality_issues))
  pub deliverable : IsDeliverable s.delivery

stage_nothing :
    (a b c d : Bool) (last : BlockingStage)
    → ((if a
          then production_blocked
          else if b
          then production
          else if c
          then quality_review
          else if d
          then review
          else last)
        ≡ nothing)
      ↔ ((a ≡ false) × (b ≡ false) × (c ≡ false) × (d ≡ false) × (last ≡ nothing))
stage_nothing true b c d last = (λ h. cc, λ h. cc)
stage_nothing false true c d last = (λ h. cc, λ h. cc)
stage_nothing false false true d last = (λ h. cc, λ h. cc)
stage_nothing false false false true last = (λ h. cc, λ h. cc)
stage_nothing false false false false last = (λ h. (refl, refl, refl, refl, h), λ h. h.4)

delivered : (o : Option DeliveryStatus) → (delivery_stage o ≡ nothing) ↔ IsDeliverable o
delivered none = (λ h. cc, λ h. cc (h.1))
delivered (some d) = (
  λ h. (d, refl, any_of-none _ d.records (open_only (any_of blocks d.records) h)),
  λ h.
      ready (any_of blocks d.records)
        (none-any_of blocks d.records (same d h.0 (some_injective d h.0 h.1) h.2)),
)
  where
    blocks : DeliveryRecord → Bool
    blocks r = is_delivery_blocked r.status

    same :
        (d e : DeliveryStatus)
        → d ≡ e
        → All (λ r. blocks r ≡ false) e.records
        → All (λ r. blocks r ≡ false) d.records
    same d e f h = rw f h

    open_only : (b : Bool) → (if b then delivery else nothing) ≡ nothing → b ≡ false
    open_only true h = cc
    open_only false h = refl

    ready : (b : Bool) → b ≡ false → (if b then delivery else nothing) ≡ nothing
    ready b h = rw h

-- The work on a list of tasks or steps is done if none of it has failed and none is under way.
module _ {A : Type 0} (status : A → ProductionStatus) where
  completed-done :
      (xs : List A)
      → All (λ x. status x ≡ completed) xs
      → (any_of (λ x. is_failed (status x)) xs ≡ false)
        × (any_of (λ x. is_active (status x)) xs ≡ false)
  completed-done xs h = (
    none-any_of _ xs (All-into _ _ xs (λ x e. rw e) h),
    none-any_of _ xs (All-into _ _ xs (λ x e. rw e) h),
  )

  done-completed :
      (xs : List A)
      → any_of (λ x. is_failed (status x)) xs ≡ false
      → any_of (λ x. is_active (status x)) xs ≡ false
      → All (λ x. status x ≡ completed) xs
  done-completed xs h k =
      All-both _ _ _ xs (λ x. completed_of (status x))
        (any_of-none (λ x. is_failed (status x)) xs h)
        (any_of-none (λ x. is_active (status x)) xs k)

-- The rules find no blocking stage in the loaded facts if and only if every task and every
-- production step is completed, no quality issue is open or in processing, every review is
-- approved, every resolved issue has an approved review, and the delivery status is known and
-- holds no blocked record.
pub nothing-IsClear : (s : OrderDiagnosisState) → (evaluate_loaded_facts s ≡ nothing) ↔ IsClear s
unfolding evaluate_loaded_facts some_failure some_production
nothing-IsClear s = (
  λ h.
      let (failure, active, unresolved, reviewing, last) =
        (stage_nothing (some_failure s) (some_production s) _ _ _).0 h in
      let (f1, f2) = false_or (any_of (λ (t : TaskDetail). is_failed t.status) s.tasks) _ failure in
      let (p1, p2) = false_or (any_of (λ (t : TaskDetail). is_active t.status) s.tasks) _ active in
      let (r1, r2) =
        (no_review (all_issues (values s.quality_issues)) (all_reviews (values s.reviews))).0
          reviewing in
      record {
        tasks_completed = done-completed (λ (t : TaskDetail). t.status) s.tasks f1 p1;
        steps_completed =
            done-completed (λ (t : ProductionStep). t.status) (all_steps (values s.progress)) f2 p2;
        issues_settled = any_of-none _ (all_issues (values s.quality_issues)) unresolved;
        reviews_approved = r1;
        resolved_reviewed = r2;
        deliverable = (delivered s.delivery).0 last;
      },
  λ clear.
      let (f1, p1) = completed-done (λ (t : TaskDetail). t.status) s.tasks clear.tasks_completed in
      let (f2, p2) =
        completed-done (λ (t : ProductionStep). t.status) (all_steps (values s.progress))
          clear.steps_completed in
      (stage_nothing (some_failure s) (some_production s) _ _ _).1 (
        or_false (any_of (λ (t : TaskDetail). is_failed t.status) s.tasks) _ f1 f2,
        or_false (any_of (λ (t : TaskDetail). is_active t.status) s.tasks) _ p1 p2,
        none-any_of _ (all_issues (values s.quality_issues)) clear.issues_settled,
        (no_review (all_issues (values s.quality_issues)) (all_reviews (values s.reviews))).1
            (clear.reviews_approved, clear.resolved_reviewed),
        (delivered s.delivery).1 clear.deliverable,
      ),
)

complete_errors :
    (s : OrderDiagnosisState) → has_complete_facts s ≡ true → non_empty s.errors ≡ false
unfolding has_complete_facts
complete_errors s h = ground arith

-- If the facts are complete for the fixed rules, no task is listed twice, a specification result
-- is at hand where one is asked for, and the gaps of the state are those that the detector finds,
-- then the dynamic rules and the fixed rules decide the same.
pub dynamic-fixed :
    (s : OrderDiagnosisState) (has_specification : Bool)
    → repeats (task_ids s) ≡ false
    → (requires_specification s ≡ true → has_specification ≡ true)
    → s.information_gaps ≡ detect s has_specification
    → has_complete_facts s ≡ true
    → evaluate_dynamic_diagnosis_rules s ≡ evaluate_diagnosis_rules s
unfolding evaluate_diagnosis_rules evaluate_dynamic_diagnosis_rules
dynamic-fixed s has_specification distinct known gaps complete = rw (
  gaps,
  complete-detect s has_specification complete distinct known,
  complete,
  complete_errors s complete,
)

-- If the dynamic rules find no blocking stage, and the gaps of the state are those that the
-- detector finds, then no step of the diagnosis has failed, the order, its tasks and its delivery
-- status are loaded and belong to the order, every task is completed, the delivery status holds no
-- blocked record, and in what is loaded besides every production step is completed, no quality
-- issue is open or in processing, every review is approved, and every resolved issue has an
-- approved review. Nothing is said of the status of the order itself, or of steps, issues and
-- reviews that are not loaded.
pub dynamic-IsClear :
    (s : OrderDiagnosisState) (has_specification : Bool)
    → s.information_gaps ≡ detect s has_specification
    → (evaluate_dynamic_diagnosis_rules s).blocking_stage ≡ nothing
    → (s.errors ≡ [])
      × (order_matches s.order_id s.order ≡ true)
      × (tasks_valid s ≡ true)
      × (delivery_complete s.order_id s.delivery ≡ true)
      × IsClear s
unfolding evaluate_dynamic_diagnosis_rules
dynamic-IsClear s has_specification gaps h =
    let (errors, no_gaps, loaded) = both (non_empty s.errors) (non_empty s.information_gaps) h in
    let (order, tasks, status) =
      detect-nil s has_specification (sym gaps ∙ is_empty s.information_gaps no_gaps) in
    (is_empty s.errors errors, order, tasks, status, (nothing-IsClear s).0 loaded)
  where
    both :
        (a b : Bool)
        → (if a || b then insufficient_information else evaluate_loaded_facts s) ≡ nothing
        → (a ≡ false) × (b ≡ false) × (evaluate_loaded_facts s ≡ nothing)
    both true b h = cc
    both false true h = cc
    both false false h = (refl, refl, h)

    is_empty : {A : Type 0} (xs : List A) → non_empty xs ≡ false → xs ≡ []
    is_empty [] h = refl
    is_empty (x ∷ xs) h = cc
