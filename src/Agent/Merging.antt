-- ===== src/Agent/Merging.antt =====
-- The merge of a tool's output into the facts, and the count of calls without news
-- (agent-service/app/workflows/dynamic_diagnosis.py).
use productline_agent.Base.{
  ℕ, suc, Bool, not, ◌||◌, Option, none, some, List, [], ◌∷◌, Text, codes, text_eq, if◌then◌else◌,
}
use productline_agent.Base.Dict
use productline_agent.Base.Dict.{Dict}
use productline_agent.Base.Sorting.{sorted, text_leb}
use productline_agent.Tools.Retry.{
  ToolErrorCode, param_validation_error, resource_not_found, permission_denied, business_conflict,
  tool_timeout, upstream_unavailable, response_validation_error, duplicate_call, unknown_tool_error,
}
use productline_agent.Workflow.Facts.{TaskDetail, OrderDiagnosisState}
use productline_agent.Agent.Actions.{
  AgentAction, query_order, query_tasks, query_progress, query_quality, query_review,
  query_delivery, Value, text_value, Arguments, AgentObservation,
}
use productline_agent.Agent.Equality.{
  same_list, same_option, same_order, same_task, same_progress, same_issue, same_review,
  same_delivery,
}
use productline_agent.Agent.State.{
  ToolData, order_data, tasks_data, progress_data, issues_data, review_data, delivery_data,
}

abbrev pub code_text : ToolErrorCode → Text
code_text param_validation_error = codes "PARAM_VALIDATION_ERROR"
code_text resource_not_found = codes "RESOURCE_NOT_FOUND"
code_text permission_denied = codes "PERMISSION_DENIED"
code_text business_conflict = codes "BUSINESS_CONFLICT"
code_text tool_timeout = codes "TOOL_TIMEOUT"
code_text upstream_unavailable = codes "UPSTREAM_UNAVAILABLE"
code_text response_validation_error = codes "RESPONSE_VALIDATION_ERROR"
code_text duplicate_call = codes "DUPLICATE_CALL"
code_text unknown_tool_error = codes "UNKNOWN_TOOL_ERROR"

-- The task that the arguments name, or the empty text.
abbrev pub named_task : Option Value → Text
named_task (some (text_value t)) = t
named_task _ = []

abbrev pub task_before : TaskDetail → TaskDetail → Bool
task_before a b = text_leb a.task_id b.task_id

-- The facts after a merge, and whether they are new.
abbrev pub Merged : Type 0
Merged = OrderDiagnosisState × Bool

-- A dict that a value has been put into differs from before unless it held the same value there.
abbrev pub changed : {A : Type 0} → (A → A → Bool) → Text → A → Dict Text A → Bool
changed same key value d = not (same_option same (Dict.lookup key d) (some value))

-- `_merge_business_fact`.
unfoldable pub merge_business_fact :
    OrderDiagnosisState → AgentAction → Arguments → ToolData → Option Merged
unfolding sorted Dict.lookup Dict.insert
merge_business_fact s query_order args (order_data o) =
    some (record s { order = some o }, not (same_option same_order s.order (some o)))
merge_business_fact s query_tasks args (tasks_data ts) =
    let tasks = sorted task_before ts in
    some (record s { tasks = tasks }, not (same_list same_task tasks s.tasks))
merge_business_fact s query_progress args (progress_data p) =
    let task = named_task (Dict.lookup (codes "task_id") args) in
    some (
      record s { progress = Dict.insert task p s.progress },
      changed same_progress task p s.progress,
    )
merge_business_fact s query_quality args (issues_data is) =
    let task = named_task (Dict.lookup (codes "task_id") args) in
    some (
      record s { quality_issues = Dict.insert task is s.quality_issues },
      changed (same_list same_issue) task is s.quality_issues,
    )
merge_business_fact s query_review args (review_data r) =
    let task = named_task (Dict.lookup (codes "task_id") args) in
    some (
      record s { reviews = Dict.insert task (some r) s.reviews },
      changed (same_option same_review) task (some r) s.reviews,
    )
merge_business_fact s query_delivery args (delivery_data d) =
    some (record s { delivery = some d }, not (same_option same_delivery s.delivery (some d)))
merge_business_fact s action args data_ = none

-- `_count_consecutive_no_new_information`, from the first observation on: `n` is the count so far.
abbrev pub count_from : ℕ → List AgentObservation → ℕ
count_from n [] = n
count_from n (o ∷ os) =
    let broken = count_from 0 os in
    let longer = count_from (suc n) os in
    if not o.success || o.has_new_information then broken else longer

abbrev pub count_consecutive_no_new_information : List AgentObservation → ℕ
count_consecutive_no_new_information history = count_from 0 history

abbrev pub text_of_arguments : Arguments → Text
text_of_arguments ((k, text_value t) ∷ []) = t
text_of_arguments _ = []
