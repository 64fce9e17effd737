-- ===== src/Agent/Decider.antt =====
-- The choice of an action by the model (agent-service/app/workflows/action_decision.py).
use productline_agent.Base.{
  Bool, true, false, ◌&&◌, Option, none, some, List, [], Text, codes, text_eq, ◌==◌, is_some,
  contains, if◌then◌else◌,
}
use productline_agent.Base.Dict
use productline_agent.Base.Dict.{Dict}
use productline_agent.Workflow.Facts.{OrderDiagnosisState}
use productline_agent.Workflow.Rules.{task_ids}
use productline_agent.Agent.Actions.{
  AgentAction, query_order, query_tasks, query_delivery, retrieve_spec, finish, Value, text_value,
  Arguments, ActionDecision, ModelOutput, model_raised, model_output, is_bound,
}
use productline_agent.Agent.State.{ToolRiskLevel, low_risk, RegisteredTool}

abbrev pub safe_finish_decision : ActionDecision
safe_finish_decision = record {
  action = finish;
  reason = codes "无法获得有效的下一步只读动作, 已安全停止自动查询。";
  tool_name = none;
  tool_arguments = [];
}

abbrev pub is_low : ToolRiskLevel → Bool
is_low low_risk = true
is_low _ = false

-- `arguments.get(key) == t`.
abbrev pub is_text : Option Value → Text → Bool
is_text (some (text_value s)) t = s == t
is_text _ t = false

-- `arguments.get(key)` is one of the texts.
abbrev pub is_among : Option Value → List Text → Bool
is_among (some (text_value s)) ts = contains s ts
is_among _ ts = false

-- The order or the task that an action names is one of the state's.
unfoldable pub has_identity : AgentAction → Arguments → OrderDiagnosisState → Bool
unfolding Dict.lookup
has_identity query_order args s = is_text (Dict.lookup (codes "order_id") args) s.order_id
has_identity query_tasks args s = is_text (Dict.lookup (codes "order_id") args) s.order_id
has_identity query_delivery args s = is_text (Dict.lookup (codes "order_id") args) s.order_id
has_identity _ args s = is_among (Dict.lookup (codes "task_id") args) (task_ids s)

abbrev pub registered_tool : Dict Text RegisteredTool → Option Text → Option RegisteredTool
registered_tool registry none = none
registered_tool registry (some name) = Dict.lookup name registry

abbrev pub is_tool_call : AgentAction → Bool
is_tool_call finish = false
is_tool_call retrieve_spec = false
is_tool_call _ = true

abbrev pub is_usable : ActionDecision → OrderDiagnosisState → Option RegisteredTool → Bool
is_usable d s none = false
is_usable d s (some tool) =
    is_low tool.risk_level
    && is_some (tool.validate_input d.tool_arguments)
    && has_identity d.action d.tool_arguments s

-- `_validate_registered_tool`: whether the decision is accepted.
unfoldable pub is_registered :
    Dict Text RegisteredTool → OrderDiagnosisState → ActionDecision → Bool
unfolding has_identity Dict.lookup
is_registered registry s d =
    if is_tool_call d.action then is_usable d s (registered_tool registry d.tool_name) else true

-- `parse_action_decision`, on the decision that Pydantic reads from the output, if there is one.
abbrev pub parse_action_decision : Option ActionDecision → Option ActionDecision
parse_action_decision none = none
parse_action_decision (some d) = if is_bound d then some d else none

abbrev pub accepted :
    Dict Text RegisteredTool → OrderDiagnosisState → Option ActionDecision → Option ActionDecision
accepted registry s none = none
accepted registry s (some d) = if is_registered registry s d then some d else none

abbrev or_else : Option ActionDecision → ActionDecision → ActionDecision
or_else none e = e
or_else (some d) e = d

-- One attempt; a decision that is refused leads to `next`.
abbrev pub attempt :
    Dict Text RegisteredTool → OrderDiagnosisState → ModelOutput → ActionDecision → ActionDecision
attempt registry s model_raised next = safe_finish_decision
attempt registry s (model_output raw) next =
    or_else (accepted registry s (parse_action_decision raw)) next

-- `ActionDecider.decide`, on what the model does in the two attempts.
unfoldable pub decide :
    Dict Text RegisteredTool → OrderDiagnosisState → ModelOutput → ModelOutput → ActionDecision
unfolding is_registered is_bound
decide registry s first second =
    attempt registry s first (attempt registry s second safe_finish_decision)
