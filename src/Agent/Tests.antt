-- ===== src/Agent/Tests.antt =====
-- A run of the dynamic diagnosis on an order that has been delivered.
use productline_agent.Base.{
  ℕ, zero, suc, ◌≡◌, refl, true, none, some, [], ◌∷◌, Text, codes, text_beq, trim, is_white,
  Bool-cases, ◌==◌, inl, some_injective, sym, inr, text_eq,
}
use productline_agent.Base.Dict
use productline_agent.Base.Sorting.{sorted, text_leb}
use productline_agent.Base.Pattern.{is_order_id, is_task_id}
use productline_agent.Workflow.Facts.{
  OrderDetail, TaskDetail, DeliveryStatus, delivered_order, completed, delivered,
  OrderDiagnosisState,
}
use productline_agent.Workflow.Rules.{RuleDecision, nothing, order_matches, delivery_complete}
use productline_agent.Workflow.Gaps.{tasks_valid}
use productline_agent.Workflow.Stages.{IsClear}
use productline_agent.Workflow.Generation.{DiagnosisResult}
use productline_agent.Workflow.Report.{no_blocker_parts}
use productline_agent.Agent.Actions.{
  AgentAction, query_order, query_tasks, query_delivery, finish, text_value, ActionDecision,
  AgentObservation, sufficient_information, model_raised, model_output, action_tool_name,
}
use productline_agent.Agent.State.{
  order_detail, PageContext, ToolData, order_data, tasks_data, delivery_data, RegisteredTool,
  low_risk, Wiring, DynamicDiagnosisState,
}
use productline_agent.Agent.Decider.{decide}
use productline_agent.Agent.Nodes.{initialize, with_decision, plan_next_action, validate_action}
use productline_agent.Agent.Graph.{ainvoke, ended, at_plan, at_validate, at_execute, step}
use productline_agent.Agent.Decisions.{AreAllowed, validate_action-decide}
use productline_agent.Agent.Reach.{Reaches, begun, onward, ainvoke-IsRunnable}
use productline_agent.Agent.Invariants.{IsFresh, IsRunnable}
use productline_agent.Agent.Guarantees.{ainvoke-IsClear}

abbrev order : Text
order = codes "ORDER-1"

abbrev order_fact : OrderDetail
order_fact = record { order_id = order; product_type = codes "DOM"; status = delivered_order }

abbrev task_fact : TaskDetail
task_fact = record { task_id = codes "TASK-1"; order_id = order; status = completed; version = 1 }

abbrev delivery_fact : DeliveryStatus
delivery_fact = record {
  order_id = order;
  records = record { delivery_id = codes "DELIVERY-1"; order_id = order; status = delivered } ∷ [];
}

abbrev reader : Text → ToolData → RegisteredTool
reader name found = record {
  name = name;
  risk_level = low_risk;
  required_permissions = [];
  validate_input = λ args. some args;
  execute = λ n args. some record { success = true; data_ = some found; error = none };
}

abbrev on_order : AgentAction → ActionDecision
on_order action = record {
  action = action;
  reason = codes "next";
  tool_name = action_tool_name action;
  tool_arguments = (codes "order_id", text_value order) ∷ [];
}

abbrev last_action : ActionDecision
last_action = record {
  action = finish;
  reason = codes "done";
  tool_name = none;
  tool_arguments = [];
}

abbrev script : ℕ → ActionDecision
script zero = on_order query_order
script (suc zero) = on_order query_tasks
script (suc (suc zero)) = on_order query_delivery
script (suc (suc (suc n))) = last_action

abbrev wiring : Wiring
wiring = record {
  Spec = Unit;
  same_spec = λ a b. true;
  registry =
      (codes "get_order_detail", reader (codes "get_order_detail") (order_data order_fact))
      ∷ (
        codes "get_related_tasks",
        reader (codes "get_related_tasks") (tasks_data (task_fact ∷ [])),
      )
      ∷ (
        codes "get_delivery_status",
        reader (codes "get_delivery_status") (delivery_data delivery_fact),
      )
      ∷ [];
  permissions = [];
  role = codes "operator";
  trace_id = codes "trace";
  limits = record {
    max_decision_rounds = 6;
    max_tool_calls = 8;
    max_consecutive_no_new_information = 2;
  };
  fingerprint = λ name args. name;
  retrieve = λ n question page. none;
  ask = λ n s. some (model_output (some (script n)), model_raised);
  publishes = λ n d. true;
  recursion_limit = 10000;
}

abbrev page : PageContext
page = record {
  current_page = order_detail;
  order_id = order;
  task_id = none;
  issue_id = none;
  batch_id = none;
  product_type = none;
  satellite_type = none;
  user_role = codes "operator";
}

abbrev facts_at_end : OrderDiagnosisState
facts_at_end = record {
  order_id = order;
  order = some order_fact;
  tasks = task_fact ∷ [];
  progress = [];
  quality_issues = [];
  reviews = [];
  delivery = some delivery_fact;
  errors = [];
  information_gaps = [];
}

abbrev seen : AgentAction → Text → AgentObservation
seen action name = record {
  action = action;
  call_fingerprint = name;
  success = true;
  has_new_information = true;
  error = none;
}

abbrev decision_at_end : RuleDecision
decision_at_end = record { order_id = order; blocking_stage = nothing }

abbrev diagnosis_at_end : DiagnosisResult
diagnosis_at_end = record {
  order_id = order;
  blocking_stage = nothing;
  parts =
      no_blocker_parts
        (record { delivery_id = codes "DELIVERY-1"; order_id = order; status = delivered });
}

abbrev state_at_end : DynamicDiagnosisState Unit
state_at_end = record {
  facts = facts_at_end;
  page_context = some page;
  rule_decision = some decision_at_end;
  diagnosis = some diagnosis_at_end;
  tool_history =
      seen query_order (codes "get_order_detail")
      ∷ seen query_tasks (codes "get_related_tasks")
      ∷ seen query_delivery (codes "get_delivery_status")
      ∷ [];
  iteration_count = 4;
  termination_reason = some sufficient_information;
  current_decision = some last_action;
  current_call_fingerprint = none;
  pending_observation = none;
  specification_result = none;
}

run_result : ainvoke wiring order page ≡ ended state_at_end
unfolding ainvoke is_order_id is_task_id trim is_white text_beq Dict.lookup sorted text_leb
run_result = refl

ainvoke-IsClear_example :
    (order_matches order (some order_fact) ≡ true)
    × (tasks_valid facts_at_end ≡ true)
    × (delivery_complete order (some delivery_fact) ≡ true)
    × IsClear facts_at_end
ainvoke-IsClear_example =
    ainvoke-IsClear wiring order page state_at_end decision_at_end run_result refl refl refl

abbrev one_tool : Wiring
one_tool = record wiring {
  registry =
      (codes "get_order_detail", reader (codes "get_order_detail") (order_data order_fact)) ∷ [];
}

one_tool-AreAllowed : AreAllowed one_tool
unfolding Dict.lookup
one_tool-AreAllowed name tool h = elim (Bool-cases (codes "get_order_detail" == name)) [
  | inl same ↦
      let found : reader (codes "get_order_detail") (order_data order_fact) ≡ tool =
        some_injective (reader (codes "get_order_detail") (order_data order_fact)) tool
          (rw same at h) in
      rw (sym found) refl
  | inr other ↦ let wrong = rw other at h in absurd (cc wrong)
]

abbrev chosen : DynamicDiagnosisState Unit
chosen = record state_at_end {
  current_decision = some (
      decide one_tool.registry facts_at_end (model_output none)
        (model_output (some (on_order query_order))));
}

validate_action-decide_example : (validate_action one_tool chosen).facts.errors ≡ []
validate_action-decide_example =
    validate_action-decide one_tool chosen one_tool-AreAllowed (model_output none)
      (model_output (some (on_order query_order))) refl

abbrev at_start : DynamicDiagnosisState Unit
at_start = initialize wiring order page

abbrev first_plan : DynamicDiagnosisState Unit
first_plan =
    with_decision wiring at_start
      (decide wiring.registry at_start.facts (model_output (some (script 0))) model_raised)

abbrev first_check : DynamicDiagnosisState Unit
first_check = validate_action wiring first_plan

first_reached : Reaches wiring order page at_execute first_check
unfolding initialize plan_next_action validate_action step is_order_id is_task_id trim is_white
    text_beq Dict.lookup
first_reached =
    onward at_validate at_execute first_plan first_check
      (onward at_plan at_validate at_start first_plan begun (λ e. cc e) refl) (λ e. cc e) refl

first_decision : first_check.current_decision ≡ some (on_order query_order)
unfolding initialize plan_next_action validate_action is_order_id is_task_id trim is_white text_beq
    Dict.lookup
first_decision = refl

ainvoke-IsRunnable_example :
    (call : Text) × (first_check.current_call_fingerprint ≡ some call)
    × IsFresh wiring call first_check
    × IsRunnable wiring first_check.facts (on_order query_order)
ainvoke-IsRunnable_example =
    ainvoke-IsRunnable wiring order page first_check (on_order query_order) first_reached
      first_decision refl
