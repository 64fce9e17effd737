-- ===== src/Workflow/Gaps.antt =====
-- The gaps in what is known of an order (agent-service/app/workflows/information_gaps.py).
use productline_agent.Base.{
  Bool, true, false, not, ◌&&◌, ◌||◌, Option, none, some, List, [], ◌∷◌, ◌++◌, map, Text, codes,
  text_eq, ◌==◌, if◌then◌else◌, any_of, all_of, contains, keep_if, non_empty, repeats,
}
use productline_agent.Base.Dict
use productline_agent.Base.Sorting.{sorted, text_leb}
use productline_agent.Workflow.Facts.{
  OrderDiagnosisState, OrderDetail, OrderStatus, producing, quality_checking, reviewing, TaskDetail,
  QualityIssue, ReviewRecord, ReviewResult, InformationGap, GapCode, order_required,
  related_tasks_required, delivery_status_required, production_progress_required,
  quality_issues_required, review_result_required, specification_result_required, is_completed,
}
use productline_agent.Workflow.Rules.{
  order_matches, task_ids, delivery_complete, progress_complete, issues_complete, issue_ids,
}

abbrev pub is_producing : OrderStatus → Bool
is_producing producing = true
is_producing _ = false

abbrev pub is_quality : OrderStatus → Bool
is_quality quality_checking = true
is_quality _ = false

abbrev pub is_reviewing : OrderStatus → Bool
is_reviewing reviewing = true
is_reviewing _ = false

-- `", ".join(texts)`.
pub join : List Text → Text
join [] = []
join (t ∷ []) = t
join (t ∷ u ∷ rest) = t ++ codes ", " ++ join (u ∷ rest)

-- `_task_gap_description`.
unfoldable pub task_gap_description : Text → List Text → Text
unfolding join
task_gap_description prefix ids = prefix ++ codes ": " ++ join (sorted text_leb ids) ++ codes "。"

-- `list(dict.fromkeys(xs))`: the first occurrences, in order.
unfoldable pub distinct_from : List Text → List Text → List Text
distinct_from seen [] = []
distinct_from seen (x ∷ xs) =
    let old = distinct_from seen xs in
    let new = x ∷ distinct_from (x ∷ seen) xs in if contains x seen then old else new

-- `_has_valid_progress`, `_has_valid_quality_issues` and `_has_valid_review`.
unfoldable pub has_valid_progress : OrderDiagnosisState → Text → Bool
has_valid_progress s id = progress_complete id (Dict.lookup id s.progress)

unfoldable pub has_valid_quality_issues : OrderDiagnosisState → Text → Bool
has_valid_quality_issues s id = issues_complete id (Dict.lookup id s.quality_issues)

abbrev pub known_reviews : Option (List QualityIssue) → List ReviewRecord → Bool
known_reviews none reviews = true
known_reviews (some issues) reviews =
    all_of (λ (r : ReviewRecord). contains r.issue_id (issue_ids (some issues))) reviews

abbrev pub review_valid : Text → Option (List QualityIssue) → Option (Option ReviewResult) → Bool
review_valid id issues none = false
review_valid id issues (some none) = false
review_valid id issues (some (some r)) = (r.task_id == id) && known_reviews issues r.reviews

unfoldable pub has_valid_review : OrderDiagnosisState → Text → Bool
has_valid_review s id = review_valid id (Dict.lookup id s.quality_issues) (Dict.lookup id s.reviews)

-- A gap, if the test that asks for it holds.
abbrev pub gap_if : Bool → GapCode → Text → List InformationGap
gap_if false code description = []
gap_if true code description = record { code = code; description = description } ∷ []

abbrev pub tasks_valid : OrderDiagnosisState → Bool
tasks_valid s =
    non_empty s.tasks
    && not (repeats (task_ids s))
    && all_of (λ (t : TaskDetail). t.order_id == s.order_id) s.tasks

-- The tasks whose progress is asked for.
unfoldable pub production_task_ids : OrderDiagnosisState → OrderStatus → List Text
production_task_ids s status =
    let unfinished =
      map (λ (t : TaskDetail). t.task_id)
        (keep_if (λ (t : TaskDetail). not (is_completed t.status)) s.tasks) in
    if is_producing status && not (non_empty unfinished) then task_ids s else unfinished

-- The tasks with quality issues.
unfoldable pub issue_task_ids : OrderDiagnosisState → List Text
unfolding has_valid_quality_issues
issue_task_ids s =
    keep_if
      (λ id.
        has_valid_quality_issues s id && non_empty (issue_ids (Dict.lookup id s.quality_issues)))
      (task_ids s)

-- The tasks whose reviews are asked for.
unfoldable pub review_task_ids : OrderDiagnosisState → OrderStatus → List Text
unfolding issue_task_ids distinct_from
review_task_ids s status =
    distinct_from [] ((if is_reviewing status then task_ids s else []) ++ issue_task_ids s)

abbrev has_coordinate_issue : Option (List QualityIssue) → Bool
has_coordinate_issue none = false
has_coordinate_issue (some issues) =
    any_of (λ (i : QualityIssue). i.issue_type == codes "COORDINATE_SYSTEM") issues

unfoldable pub requires_specification : OrderDiagnosisState → Bool
unfolding issue_task_ids
requires_specification s =
    any_of (λ id. has_coordinate_issue (Dict.lookup id s.quality_issues)) (issue_task_ids s)

abbrev pub missing_gap : List Text → GapCode → Text → List InformationGap
missing_gap ids code prefix = gap_if (non_empty ids) code (task_gap_description prefix ids)

abbrev pub progress_prefix : Text
progress_prefix = codes "需要读取生产场景任务的有效进度"

abbrev pub quality_prefix : Text
quality_prefix = codes "需要读取质检场景任务的质检问题"

abbrev pub review_prefix : Text
review_prefix = codes "需要读取复核场景任务的复核结果"

abbrev pub specification_text : Text
specification_text = codes "坐标系问题需要一次带显式日期和权限范围的规范检索结果。"

-- The gaps of the scene, for an order and tasks that are valid. `has_specification` says whether a
-- specification result is at hand.
unfoldable pub scene_gaps : OrderDiagnosisState → OrderStatus → Bool → List InformationGap
unfolding production_task_ids review_task_ids requires_specification has_valid_progress
    has_valid_quality_issues has_valid_review task_gap_description
scene_gaps s status has_specification =
    missing_gap (keep_if (λ id. not (has_valid_progress s id)) (production_task_ids s status))
      production_progress_required progress_prefix
    ++ missing_gap
        (keep_if (λ id. not (has_valid_quality_issues s id))
          (if is_quality status then task_ids s else []))
        quality_issues_required quality_prefix
    ++ missing_gap (keep_if (λ id. not (has_valid_review s id)) (review_task_ids s status))
        review_result_required review_prefix
    ++ gap_if (requires_specification s && not has_specification) specification_result_required
        specification_text

-- The early return: the scene is looked at only with a valid order and valid tasks.
abbrev pub scene_of : OrderDiagnosisState → Option OrderDetail → Bool → List InformationGap
scene_of s none has_specification = []
scene_of s (some o) has_specification =
    if not (o.order_id == s.order_id) || not (tasks_valid s)
    then []
    else scene_gaps s o.status has_specification

-- `InformationGapDetector.detect`.
unfoldable pub detect : OrderDiagnosisState → Bool → List InformationGap
unfolding scene_gaps
detect s has_specification =
    gap_if (not (order_matches s.order_id s.order)) order_required (codes "需要读取与目标订单一致的订单状态。")
    ++ gap_if (not (tasks_valid s)) related_tasks_required (codes "需要读取至少一个属于目标订单的关联任务及其关键状态。")
    ++ gap_if (not (delivery_complete s.order_id s.delivery)) delivery_status_required
        (codes "需要读取与目标订单一致且包含交付记录的交付状态。")
    ++ scene_of s s.order has_specification
