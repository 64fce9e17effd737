-- ===== src/Agent/Effects.antt =====
-- The nodes that execute an action, keep what it brought, and end the loop
-- (agent-service/app/workflows/dynamic_diagnosis.py).
use productline_agent.Base.{
  Bool, true, false, not, Option, none, some, List, [], ◌∷◌, ◌++◌, Text, codes, text_eq, trim, leb,
  non_empty, ◌&&◌, Result, ok, err, if◌then◌else◌,
}
use productline_agent.Base.Dict
use productline_agent.Base.Dict.{Dict}
use productline_agent.Base.Pattern.{is_order_id, length_between}
use productline_agent.Tools.Retry.{param_validation_error, response_validation_error}
use productline_agent.Tools.Execute.{is_context_identifier, ToolError, ToolResult}
use productline_agent.Workflow.Facts.{StepError, InformationGap}
use productline_agent.Workflow.Generation.{GenerationFault, DiagnosisResult}
use productline_agent.Workflow.Report.{generate_rule_diagnosis}
use productline_agent.Workflow.Rules.{
  RuleDecision, evaluate_diagnosis_rules, evaluate_dynamic_diagnosis_rules,
}
use productline_agent.Workflow.Gaps.{detect}
use productline_agent.Agent.Actions.{
  AgentAction, retrieve_spec, sufficient_information, insufficient_information, execution_error,
  no_new_information, Arguments, ActionDecision, AgentObservation, validated_arguments, is_finish,
  is_retrieval,
}
use productline_agent.Agent.Equality.{same_option}
use productline_agent.Agent.State.{stripped, absent_or, ToolData, RegisteredTool, Wiring}
use productline_agent.Agent.Decider.{registered_tool}
use productline_agent.Agent.Merging.{
  code_text, Merged, merge_business_fact, count_consecutive_no_new_information, text_of_arguments,
}
use productline_agent.Agent.Nodes.{
  State, step_error, with_gaps, ended_by, gaps_of, validation_failure,
}

module _ (w : Wiring) where
  open w use {
    Spec, same_spec, registry, permissions, role, trace_id, limits, fingerprint, retrieve, ask,
  }

  -- `execute_action`.
  abbrev pub observed : State w → AgentObservation → State w
  observed s o = record s { pending_observation = some o }

  abbrev pub failed_observation : AgentAction → Text → StepError → AgentObservation
  failed_observation action call e = record {
    action = action;
    call_fingerprint = call;
    success = false;
    has_new_information = false;
    error = some e;
  }

  abbrev pub good_observation : AgentAction → Text → Bool → AgentObservation
  good_observation action call has_new = record {
    action = action;
    call_fingerprint = call;
    success = true;
    has_new_information = has_new;
    error = none;
  }

  abbrev pub execution_failure : State w → AgentAction → Text → State w
  execution_failure s action call = observed s (
      failed_observation action call
        (step_error w (codes "execute_action") response_validation_error))

  -- The texts that the caller passes to a `StepError`.
  abbrev pub is_step_error : StepError → Bool
  is_step_error e = length_between 1 2048 e.message && absent_or is_context_identifier e.trace_id

  abbrev pub step_error_of : ToolError → StepError
  step_error_of e = record {
    step_name = codes "execute_action";
    code = code_text e.code;
    message = trim e.message;
    retryable = e.retryable;
    trace_id = stripped e.trace_id;
  }

  -- An error of the tool that is no `StepError`, such as one with a blank message, is an error that
  -- no node catches.
  abbrev pub tool_failed : State w → AgentAction → Text → Option ToolError → Option (State w)
  tool_failed s action call none = some (execution_failure s action call)
  tool_failed s action call (some e) =
      if is_step_error (step_error_of e)
      then some (observed s (failed_observation action call (step_error_of e)))
      else none

  abbrev pub fact_merged : State w → AgentAction → Text → Option Merged → State w
  fact_merged s action call none = execution_failure s action call
  fact_merged s action call (some (facts, has_new)) =
      observed (record s { facts = facts }) (good_observation action call has_new)

  abbrev pub tool_brought : State w → ActionDecision → Text → Option ToolData → State w
  tool_brought s d call none = execution_failure s d.action call
  tool_brought s d call (some data_) =
      fact_merged s d.action call (merge_business_fact s.facts d.action d.tool_arguments data_)

  abbrev pub tool_returned :
      State w → ActionDecision → Text → ToolResult ToolData → Option (State w)
  tool_returned s d call r =
      if r.success
      then some (tool_brought s d call r.data_)
      else tool_failed s d.action call r.error

  -- So is an exception of the tool itself.
  abbrev pub tool_ended :
      State w → ActionDecision → Text → Option (ToolResult ToolData) → Option (State w)
  tool_ended s d call none = none
  tool_ended s d call (some r) = tool_returned s d call r

  abbrev pub spec_returned : State w → Text → Option Spec → State w
  spec_returned s call none = execution_failure s retrieve_spec call
  spec_returned s call (some r) =
      observed (record s { specification_result = some r })
        (good_observation retrieve_spec call
          (not (same_option same_spec s.specification_result (some r))))

  -- A tool that is not registered is an error that no node catches.
  abbrev pub tool_run : State w → ActionDecision → Text → Option RegisteredTool → Option (State w)
  tool_run s d call none = none
  tool_run s d call (some tool) =
      tool_ended s d call (tool.execute s.iteration_count d.tool_arguments)

  -- So are arguments that do not hold a question.
  abbrev pub spec_run : State w → Text → Option Arguments → Option (State w)
  spec_run s call none = none
  spec_run s call (some args) =
      some
        (spec_returned s call (retrieve s.iteration_count (text_of_arguments args) s.page_context))

  abbrev pub executed : State w → ActionDecision → Text → Option (State w)
  executed s d call =
      if is_retrieval d.action
      then spec_run s call (validated_arguments d.action d.tool_arguments)
      else tool_run s d call (registered_tool registry d.tool_name)

  abbrev pub with_fingerprint : State w → ActionDecision → Option Text → Option (State w)
  with_fingerprint s d none = some (validation_failure w s param_validation_error)
  with_fingerprint s d (some call) = executed s d call

  abbrev pub acted : State w → Option ActionDecision → Option (State w)
  acted s none = some record s { pending_observation = none }
  acted s (some d) =
      if is_finish d.action
      then some record s { pending_observation = none }
      else with_fingerprint s d s.current_call_fingerprint

  unfoldable pub execute_action : State w → Option (State w)
  unfolding merge_business_fact validated_arguments Dict.lookup is_context_identifier
  execute_action s = acted s s.current_decision

  -- `save_observation`.
  abbrev pub error_list : Option StepError → List StepError
  error_list none = []
  error_list (some e) = e ∷ []

  abbrev pub saved : State w → Option AgentObservation → State w
  saved s none = s
  saved s (some o) = record s {
    tool_history = s.tool_history ++ (o ∷ []);
    facts = record s.facts { errors = s.facts.errors ++ error_list o.error };
    pending_observation = none;
  }

  unfoldable pub save_observation : State w → State w
  save_observation s = saved s s.pending_observation

  -- `check_completion`.
  abbrev pub ends_loop : Option ActionDecision → Bool
  ends_loop none = false
  ends_loop (some d) = is_finish d.action

  abbrev pub completion : State w → List InformationGap → State w
  completion s gaps =
      if non_empty s.facts.errors
      then ended_by w (with_gaps w s gaps) execution_error
      else if not (ends_loop s.current_decision)
      then (if leb limits.max_consecutive_no_new_information
            (count_consecutive_no_new_information s.tool_history)
          then ended_by w (with_gaps w s gaps) no_new_information
          else with_gaps w s gaps)
      else ended_by w (with_gaps w s gaps)
          (if non_empty gaps then insufficient_information else sufficient_information)

  unfoldable pub check_completion : State w → State w
  unfolding detect
  check_completion s = completion s (gaps_of w s)

  -- A diagnosis that cannot be generated is an error that no node catches.
  abbrev pub diagnosed :
      State w → RuleDecision → Result GenerationFault DiagnosisResult → Option (State w)
  diagnosed s d (err e) = none
  diagnosed s d (ok x) = some record s { rule_decision = some d; diagnosis = some x }

  abbrev pub with_diagnosis : State w → RuleDecision → Option (State w)
  with_diagnosis s d = diagnosed s d (generate_rule_diagnosis s.facts d)

  -- `generate_result`.
  unfoldable pub generate_result : State w → Option (State w)
  unfolding detect evaluate_dynamic_diagnosis_rules generate_rule_diagnosis
  generate_result s =
      let t = with_gaps w s (gaps_of w s) in
      with_diagnosis t (evaluate_dynamic_diagnosis_rules t.facts)

  -- `exceptional_finish`.
  unfoldable pub exceptional_finish : State w → Option (State w)
  unfolding evaluate_diagnosis_rules is_order_id generate_rule_diagnosis
  exceptional_finish s =
      let t = ended_by w s execution_error in
      if is_order_id (trim s.facts.order_id)
      then with_diagnosis t (evaluate_diagnosis_rules t.facts)
      else some t
