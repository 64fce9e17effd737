-- ===== src/Agent/Nodes.antt =====
-- The first nodes of the dynamic diagnosis, up to the check of an action
-- (agent-service/app/workflows/dynamic_diagnosis.py).
use productline_agent.Base.{
  suc, false, not, ◌&&◌, Option, none, some, List, [], ◌∷◌, ◌++◌, Text, codes, text_eq, trim, ◌==◌,
  leb, is_some, any_of, length, non_empty, if◌then◌else◌,
}
use productline_agent.Base.Dict
use productline_agent.Base.Dict.{Dict}
use productline_agent.Base.Pattern.{is_order_id}
use productline_agent.Tools.Retry.{
  ToolErrorCode, param_validation_error, permission_denied, unknown_tool_error,
}
use productline_agent.Tools.Execute.{is_subset}
use productline_agent.Workflow.Facts.{StepError, InformationGap, OrderDiagnosisState}
use productline_agent.Workflow.Gaps.{detect}
use productline_agent.Agent.Actions.{
  AgentTerminationReason, max_iterations, max_tool_calls, no_new_information, Arguments,
  ActionDecision, AgentObservation, ModelOutput, action_tool_name, validated_arguments, is_finish,
  is_retrieval, same_name,
}
use productline_agent.Agent.State.{
  PageContext, validated_page, RegisteredTool, Wiring, DynamicDiagnosisState,
}
use productline_agent.Agent.Decider.{has_identity, is_low, registered_tool, decide}
use productline_agent.Agent.Merging.{code_text}

module _ (w : Wiring) where
  open w use {
    Spec, same_spec, registry, permissions, role, trace_id, limits, fingerprint, retrieve, ask,
    publishes,
  }

  abbrev pub State : Type 0
  State = DynamicDiagnosisState Spec

  abbrev pub step_error : Text → ToolErrorCode → StepError
  step_error name code = record {
    step_name = name;
    code = code_text code;
    message = codes "dynamic diagnosis stopped at " ++ name;
    retryable = false;
    trace_id = some trace_id;
  }

  abbrev pub with_error : State → StepError → State
  with_error s e = record s { facts = record s.facts { errors = s.facts.errors ++ (e ∷ []) } }

  abbrev pub with_gaps : State → List InformationGap → State
  with_gaps s gaps = record s { facts = record s.facts { information_gaps = gaps } }

  abbrev pub ended_by : State → AgentTerminationReason → State
  ended_by s r = record s { termination_reason = some r }

  abbrev pub gaps_of : State → List InformationGap
  gaps_of s = detect s.facts (is_some s.specification_result)

  -- `initialize`, on the order and the page of the request.
  abbrev pub empty_facts : Text → OrderDiagnosisState
  empty_facts order = record {
    order_id = order;
    order = none;
    tasks = [];
    progress = [];
    quality_issues = [];
    reviews = [];
    delivery = none;
    errors = [];
    information_gaps = [];
  }

  abbrev pub base : Text → Option PageContext → State
  base order page = record {
    facts = empty_facts order;
    page_context = page;
    rule_decision = none;
    diagnosis = none;
    tool_history = [];
    iteration_count = 0;
    termination_reason = none;
    current_decision = none;
    current_call_fingerprint = none;
    pending_observation = none;
    specification_result = none;
  }

  abbrev pub refused_start : Text → State
  refused_start order =
      with_error (base order none) (step_error (codes "initialize") param_validation_error)

  abbrev pub ready_start : Text → PageContext → State
  ready_start order page = let s = base order (some page) in with_gaps s (gaps_of s)

  abbrev pub started : Text → Option PageContext → State
  started order none = refused_start order
  started order (some page) =
      if is_order_id (trim order) && (page.order_id == trim order) && (page.user_role == role)
      then ready_start (trim order) page
      else refused_start order

  unfoldable pub initialize : Text → PageContext → State
  unfolding validated_page detect is_order_id
  initialize order page = started order (validated_page page)

  -- `plan_next_action`.
  abbrev pub with_decision : State → ActionDecision → State
  with_decision s d = record s {
    current_decision = some d;
    current_call_fingerprint = none;
    pending_observation = none;
    iteration_count = suc s.iteration_count;
  }

  -- The event of the choice is published before the state is changed; an exception of the sink is
  -- not caught.
  abbrev pub announced : State → ActionDecision → Option State
  announced s d = if publishes s.iteration_count d then some (with_decision s d) else none

  abbrev pub unplanned : State → State
  unplanned s =
      with_error (record s { iteration_count = suc s.iteration_count })
        (step_error (codes "plan_next_action") unknown_tool_error)

  abbrev pub planned : State → Option (ModelOutput × ModelOutput) → Option State
  planned s none = some (unplanned s)
  planned s (some (first, second)) = announced s (decide registry s.facts first second)

  unfoldable pub plan_next_action : State → Option State
  unfolding decide
  plan_next_action s =
      if leb limits.max_decision_rounds s.iteration_count
      then some (ended_by s max_iterations)
      else planned s (ask s.iteration_count s)

  -- `validate_action`.
  abbrev pub validation_failure : State → ToolErrorCode → State
  validation_failure s code = with_error s (step_error (codes "validate_action") code)

  -- The fingerprint of a checked call is compared with the calls before.
  abbrev pub with_call : State → Text → State
  with_call s call =
      if leb limits.max_tool_calls (length s.tool_history)
      then ended_by s max_tool_calls
      else if any_of (λ (o : AgentObservation). o.call_fingerprint == call) s.tool_history
      then ended_by s no_new_information
      else record s { current_call_fingerprint = some call }

  abbrev pub with_input : State → ActionDecision → RegisteredTool → Option Arguments → State
  with_input s d tool none = validation_failure s param_validation_error
  with_input s d tool (some input) =
      if has_identity d.action d.tool_arguments s.facts
      then with_call s (fingerprint tool.name input)
      else validation_failure s param_validation_error

  abbrev pub with_tool : State → ActionDecision → Option RegisteredTool → State
  with_tool s d none = validation_failure s param_validation_error
  with_tool s d (some tool) =
      if not (is_low tool.risk_level)
      then validation_failure s param_validation_error
      else if not (is_subset tool.required_permissions permissions)
      then validation_failure s permission_denied
      else with_input s d tool (tool.validate_input d.tool_arguments)

  abbrev pub with_arguments : State → ActionDecision → Option Arguments → State
  with_arguments s d none = validation_failure s param_validation_error
  with_arguments s d (some args) =
      if is_retrieval d.action
      then with_call s (fingerprint (codes "retrieve_spec") args)
      else with_tool s d (registered_tool registry d.tool_name)

  abbrev pub validated : State → Option ActionDecision → State
  validated s none = validation_failure s param_validation_error
  validated s (some d) =
      if not (same_name d.tool_name (action_tool_name d.action))
      then validation_failure s param_validation_error
      else if is_finish d.action
      then (if non_empty d.tool_arguments
          then validation_failure s param_validation_error
          else record s { current_call_fingerprint = none })
      else with_arguments s d (validated_arguments d.action d.tool_arguments)

  unfoldable pub validate_action : State → State
  unfolding validated_arguments has_identity Dict.lookup
  validate_action s = validated s s.current_decision
