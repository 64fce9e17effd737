-- ===== src/Agent/Actions.antt =====
-- The actions of the dynamic diagnosis (agent-service/app/schemas/action.py) and what is kept of them
-- (agent-service/app/schemas/workflow.py).
use productline_agent.Base.{
  ℕ, Bool, true, false, not, ◌&&◌, Option, none, some, [], ◌∷◌, Text, codes, text_eq, trim, ◌==◌,
  is_some, is_none, non_empty, if◌then◌else◌,
}
use productline_agent.Base.Dict.{Dict}
use productline_agent.Base.Pattern.{is_order_id, is_task_id, length_between}
use productline_agent.Workflow.Facts.{StepError}

pub data AgentAction : Type 0 where
  query_order query_tasks query_progress query_quality query_review query_delivery retrieve_spec
        finish :
      AgentAction

pub data AgentTerminationReason : Type 0 where
  sufficient_information insufficient_information execution_error max_iterations max_tool_calls
        no_new_information tool_error_limit :
      AgentTerminationReason

-- A value of the model's JSON: a text, or another value, by a code.
pub data Value : Type 0 where
  text_value : Text → Value
  other_value : ℕ → Value

abbrev pub Arguments : Type 0
Arguments = Dict Text Value

-- `ACTION_TOOL_NAMES`.
abbrev pub action_tool_name : AgentAction → Option Text
action_tool_name query_order = some (codes "get_order_detail")
action_tool_name query_tasks = some (codes "get_related_tasks")
action_tool_name query_progress = some (codes "get_production_progress")
action_tool_name query_quality = some (codes "get_quality_issues")
action_tool_name query_review = some (codes "get_review_result")
action_tool_name query_delivery = some (codes "get_delivery_status")
action_tool_name retrieve_spec = some (codes "retrieve_spec")
action_tool_name finish = none

-- A model with one text field of that name, whose ends are stripped, and no other fields.
abbrev pub single_text : Text → (Text → Bool) → Arguments → Option Arguments
single_text name is_valid ((k, text_value t) ∷ []) =
    if (k == name) && is_valid (trim t) then some ((name, text_value (trim t)) ∷ []) else none
single_text name is_valid _ = none

-- `OrderIdInput`, `TaskIdInput` and `SpecificationRetrievalArguments`, by `action_argument_model`: the
-- validated model is the dict of its fields.
unfoldable pub validated_arguments : AgentAction → Arguments → Option Arguments
unfolding is_order_id is_task_id
validated_arguments query_order args = single_text (codes "order_id") is_order_id args
validated_arguments query_tasks args = single_text (codes "order_id") is_order_id args
validated_arguments query_delivery args = single_text (codes "order_id") is_order_id args
validated_arguments query_progress args = single_text (codes "task_id") is_task_id args
validated_arguments query_quality args = single_text (codes "task_id") is_task_id args
validated_arguments query_review args = single_text (codes "task_id") is_task_id args
validated_arguments retrieve_spec args = single_text (codes "question") (length_between 1 2000) args
validated_arguments finish args = none

pub record ActionDecision : Type 0 where
  pub action : AgentAction
  pub reason : Text
  pub tool_name : Option Text
  pub tool_arguments : Arguments

abbrev pub is_finish : AgentAction → Bool
is_finish finish = true
is_finish _ = false

abbrev pub is_retrieval : AgentAction → Bool
is_retrieval retrieve_spec = true
is_retrieval _ = false

abbrev pub same_name : Option Text → Option Text → Bool
same_name none none = true
same_name (some a) (some b) = a == b
same_name _ _ = false

-- `ActionDecision.validate_action_binding`.
unfoldable pub is_bound : ActionDecision → Bool
unfolding validated_arguments
is_bound d =
    same_name d.tool_name (action_tool_name d.action)
    && (if is_finish d.action
        then not (non_empty d.tool_arguments)
        else is_some (validated_arguments d.action d.tool_arguments))

-- What the model does when it is asked: it raises, or its output reads as a decision or not.
pub data ModelOutput : Type 0 where
  model_raised : ModelOutput
  model_output : Option ActionDecision → ModelOutput

-- What is kept of a call, without its summary.
pub record AgentObservation : Type 0 where
  pub action : AgentAction
  pub call_fingerprint : Text
  pub success : Bool
  pub has_new_information : Bool
  pub error : Option StepError

-- `AgentObservation.validate_execution_result`.
abbrev pub is_observation : AgentObservation → Bool
is_observation o =
    not (is_finish o.action)
    && (if o.success then is_none o.error else is_some o.error && not o.has_new_information)
