-- ===== src/Agent/State.antt =====
-- The page (agent-service/app/schemas/context.py), the state of the dynamic diagnosis and what the
-- workflow is built with (agent-service/app/workflows/dynamic_diagnosis.py).
use productline_agent.Base.{
  ℕ, Bool, true, not, ◌&&◌, Option, none, some, List, Text, text_eq, trim, nat_beq, is_some,
  is_none, all_of, if◌then◌else◌,
}
use productline_agent.Base.Dict.{Dict}
use productline_agent.Base.Pattern.{is_order_id, is_task_id, is_business_id, length_between}
use productline_agent.Tools.Execute.{ToolResult}
use productline_agent.Workflow.Facts.{
  OrderDetail, TaskDetail, ProgressResult, QualityIssue, ReviewResult, DeliveryStatus,
  OrderDiagnosisState,
}
use productline_agent.Workflow.Rules.{RuleDecision}
use productline_agent.Workflow.Generation.{DiagnosisResult}
use productline_agent.Agent.Actions.{
  Arguments, ActionDecision, AgentObservation, ModelOutput, AgentTerminationReason,
}

pub data PageType : Type 0 where
  order_detail task_detail quality_issue : PageType

pub record PageContext : Type 0 where
  pub current_page : PageType
  pub order_id : Text
  pub task_id : Option Text
  pub issue_id : Option Text
  pub batch_id : Option Text
  pub product_type : Option Text
  pub satellite_type : Option Text
  pub user_role : Text

abbrev pub stripped : Option Text → Option Text
stripped none = none
stripped (some t) = some (trim t)

abbrev pub absent_or : (Text → Bool) → Option Text → Bool
absent_or p none = true
absent_or p (some t) = p t

-- `SafeHeaderValue`.
abbrev is_header_value : Text → Bool
is_header_value t =
    length_between 1 128 t && all_of (λ c. not (nat_beq c 10) && not (nat_beq c 13)) t

-- `PageContext.validate_page_resources`.
abbrev has_page_resources : PageContext → Bool
has_page_resources p = elim p.current_page [
  | order_detail ↦ is_none p.task_id && is_none p.issue_id
  | task_detail ↦ is_some p.task_id && is_none p.issue_id
  | quality_issue ↦ is_some p.task_id && is_some p.issue_id
]

abbrev is_page : PageContext → Bool
is_page p =
    is_order_id p.order_id
    && absent_or is_task_id p.task_id
    && absent_or is_business_id p.issue_id
    && absent_or is_business_id p.batch_id
    && absent_or (length_between 1 2048) p.product_type
    && absent_or (length_between 1 128) p.satellite_type
    && is_header_value p.user_role
    && has_page_resources p

-- `PageContext.model_validate`.
unfoldable pub validated_page : PageContext → Option PageContext
unfolding is_order_id is_task_id is_business_id
validated_page p =
    let q : PageContext = record {
      current_page = p.current_page;
      order_id = trim p.order_id;
      task_id = stripped p.task_id;
      issue_id = stripped p.issue_id;
      batch_id = stripped p.batch_id;
      product_type = stripped p.product_type;
      satellite_type = stripped p.satellite_type;
      user_role = trim p.user_role;
    } in
    if is_page q then some q else none

pub data ToolRiskLevel : Type 0 where
  low_risk medium_risk high_risk : ToolRiskLevel

-- The outputs of the tools, by their models.
pub data ToolData : Type 0 where
  order_data : OrderDetail → ToolData
  tasks_data : List TaskDetail → ToolData
  progress_data : ProgressResult → ToolData
  issues_data : List QualityIssue → ToolData
  review_data : ReviewResult → ToolData
  delivery_data : DeliveryStatus → ToolData
  other_data : ToolData

-- A registered tool. `validate_input` is its input model, and `execute` what its execution brings in
-- a round: none where it raises.
pub record RegisteredTool : Type 0 where
  pub name : Text
  pub risk_level : ToolRiskLevel
  pub required_permissions : List Text
  pub validate_input : Arguments → Option Arguments
  pub execute : ℕ → Arguments → Option (ToolResult ToolData)

pub record AgentExecutionLimits : Type 0 where
  pub max_decision_rounds : ℕ
  pub max_tool_calls : ℕ
  pub max_consecutive_no_new_information : ℕ

-- The channels of the state; `facts` are those of the rules, with the errors and the gaps.
pub record DynamicDiagnosisState (Spec : Type 0) : Type 0 where
  pub facts : OrderDiagnosisState
  pub page_context : Option PageContext
  pub rule_decision : Option RuleDecision
  pub diagnosis : Option DiagnosisResult
  pub tool_history : List AgentObservation
  pub iteration_count : ℕ
  pub termination_reason : Option AgentTerminationReason
  pub current_decision : Option ActionDecision
  pub current_call_fingerprint : Option Text
  pub pending_observation : Option AgentObservation
  pub specification_result : Option Spec

-- What the workflow is built with. `fingerprint` is `build_tool_call_fingerprint` on the fields of
-- the validated arguments, `retrieve` what the question answering brings in a round, and
-- `ask` what the model does in the two attempts of a round, if its prompts can be built; `publishes`
-- says whether the event sink, where there is one, takes the event of a round without raising, and
-- `recursion_limit` is LangGraph's, the most steps of a run.
pub record Wiring : Type 1 where
  pub Spec : Type 0
  pub same_spec : Spec → Spec → Bool
  pub registry : Dict Text RegisteredTool
  pub permissions : List Text
  pub role : Text
  pub trace_id : Text
  pub limits : AgentExecutionLimits
  pub fingerprint : Text → Arguments → Text
  pub retrieve : ℕ → Text → Option PageContext → Option Spec
  pub ask : ℕ → DynamicDiagnosisState Spec → Option (ModelOutput × ModelOutput)
  pub publishes : ℕ → ActionDecision → Bool
  pub recursion_limit : ℕ
