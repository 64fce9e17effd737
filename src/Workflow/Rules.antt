-- ===== src/Workflow/Rules.antt =====
-- The rules that find the blocking stage (agent-service/app/workflows/diagnosis_rules.py).
use productline_agent.Base.{
  Bool, false, not, ◌&&◌, ◌||◌, Option, none, some, List, [], ◌∷◌, ◌++◌, map, Text, text_eq, ◌==◌,
  if◌then◌else◌, any_of, all_of, contains, keep_if, non_empty,
}
use productline_agent.Base.Dict
use productline_agent.Base.Dict.{Dict, keys, values}
use productline_agent.Workflow.Facts.{
  OrderDiagnosisState, OrderDetail, TaskDetail, ProgressResult, ProductionStep, QualityIssue,
  ReviewResult, ReviewRecord, DeliveryStatus, DeliveryRecord, is_failed, is_active, is_unresolved,
  is_resolved, is_approved, is_delivery_blocked,
}

pub data BlockingStage : Type 0 where
  production production_blocked quality_review review delivery nothing insufficient_information :
      BlockingStage

pub record RuleDecision : Type 0 where
  pub order_id : Text
  pub blocking_stage : BlockingStage

-- `set(xs) == set(ys)`.
abbrev pub same_set : List Text → List Text → Bool
same_set xs ys = all_of (λ x. contains x ys) xs && all_of (λ y. contains y xs) ys

abbrev pub task_ids : OrderDiagnosisState → List Text
task_ids s = map (λ (t : TaskDetail). t.task_id) s.tasks

abbrev pub order_matches : Text → Option OrderDetail → Bool
order_matches order_id none = false
order_matches order_id (some o) = o.order_id == order_id

-- A delivery status of the order with at least one record, all of them the order's.
abbrev pub delivery_complete : Text → Option DeliveryStatus → Bool
delivery_complete order_id none = false
delivery_complete order_id (some d) =
    (d.order_id == order_id)
    && non_empty d.records
    && all_of (λ (r : DeliveryRecord). r.order_id == order_id) d.records

abbrev pub progress_complete : Text → Option ProgressResult → Bool
progress_complete task_id none = false
progress_complete task_id (some p) =
    (p.task_id == task_id)
    && non_empty p.steps
    && all_of (λ (x : ProductionStep). x.task_id == task_id) p.steps

abbrev pub issues_complete : Text → Option (List QualityIssue) → Bool
issues_complete task_id none = false
issues_complete task_id (some issues) = all_of (λ (i : QualityIssue). i.task_id == task_id) issues

abbrev pub issue_ids : Option (List QualityIssue) → List Text
issue_ids none = []
issue_ids (some issues) = map (λ (i : QualityIssue). i.issue_id) issues

-- The reviews of a task that name one of `known`.
abbrev pub reviews_complete : Text → List Text → Option (Option ReviewResult) → Bool
reviews_complete task_id known none = false
reviews_complete task_id known (some none) = false
reviews_complete task_id known (some (some r)) =
    (r.task_id == task_id) && all_of (λ (x : ReviewRecord). contains x.issue_id known) r.reviews

-- The body of the loop over the tasks, which all have their keys in the three dicts.
unfoldable pub task_complete : OrderDiagnosisState → Text → Bool
task_complete s task_id =
    progress_complete task_id (Dict.lookup task_id s.progress)
    && issues_complete task_id (Dict.lookup task_id s.quality_issues)
    && reviews_complete task_id (issue_ids (Dict.lookup task_id s.quality_issues))
        (Dict.lookup task_id s.reviews)

-- `_has_complete_facts`.
unfoldable pub has_complete_facts : OrderDiagnosisState → Bool
unfolding task_complete
has_complete_facts s =
    not (non_empty s.errors)
    && order_matches s.order_id s.order
    && non_empty s.tasks
    && delivery_complete s.order_id s.delivery
    && all_of (λ (t : TaskDetail). t.order_id == s.order_id) s.tasks
    && same_set (keys s.progress) (task_ids s)
    && same_set (keys s.quality_issues) (task_ids s)
    && same_set (keys s.reviews) (task_ids s)
    && all_of (task_complete s) (task_ids s)

abbrev pub all_steps : List ProgressResult → List ProductionStep
all_steps [] = []
all_steps (p ∷ ps) = p.steps ++ all_steps ps

abbrev pub all_issues : List (List QualityIssue) → List QualityIssue
all_issues [] = []
all_issues (is ∷ rest) = is ++ all_issues rest

abbrev pub all_reviews : List (Option ReviewResult) → List ReviewRecord
all_reviews [] = []
all_reviews (none ∷ rest) = all_reviews rest
all_reviews (some r ∷ rest) = r.reviews ++ all_reviews rest

-- `_requires_review`.
unfoldable pub requires_review : List QualityIssue → List ReviewRecord → Bool
requires_review issues reviews =
    let approved_ids =
      map (λ (r : ReviewRecord). r.issue_id)
        (keep_if (λ (r : ReviewRecord). is_approved r.status) reviews) in
    any_of (λ (r : ReviewRecord). not (is_approved r.status)) reviews
    || any_of (λ (i : QualityIssue). is_resolved i.status && not (contains i.issue_id approved_ids))
        issues

unfoldable pub some_production : OrderDiagnosisState → Bool
some_production s =
    any_of (λ (t : TaskDetail). is_active t.status) s.tasks
    || any_of (λ (x : ProductionStep). is_active x.status) (all_steps (values s.progress))

unfoldable pub some_failure : OrderDiagnosisState → Bool
some_failure s =
    any_of (λ (t : TaskDetail). is_failed t.status) s.tasks
    || any_of (λ (x : ProductionStep). is_failed x.status) (all_steps (values s.progress))

abbrev pub delivery_stage : Option DeliveryStatus → BlockingStage
delivery_stage none = insufficient_information
delivery_stage (some d) =
    if any_of (λ (r : DeliveryRecord). is_delivery_blocked r.status) d.records
    then delivery
    else nothing

-- `_evaluate_loaded_facts`.
unfoldable pub evaluate_loaded_facts : OrderDiagnosisState → BlockingStage
unfolding some_production some_failure requires_review
evaluate_loaded_facts s =
    let issues = all_issues (values s.quality_issues) in
    if some_failure s
    then production_blocked
    else if some_production s
    then production
    else if any_of (λ (i : QualityIssue). is_unresolved i.status) issues
    then quality_review
    else if requires_review issues (all_reviews (values s.reviews))
    then review
    else delivery_stage s.delivery

unfoldable pub evaluate_diagnosis_rules : OrderDiagnosisState → RuleDecision
unfolding has_complete_facts evaluate_loaded_facts
evaluate_diagnosis_rules s = record {
  order_id = s.order_id;
  blocking_stage =
      if not (has_complete_facts s) then insufficient_information else evaluate_loaded_facts s;
}

unfoldable pub evaluate_dynamic_diagnosis_rules : OrderDiagnosisState → RuleDecision
unfolding evaluate_loaded_facts
evaluate_dynamic_diagnosis_rules s = record {
  order_id = s.order_id;
  blocking_stage =
      if non_empty s.errors || non_empty s.information_gaps
      then insufficient_information
      else evaluate_loaded_facts s;
}
