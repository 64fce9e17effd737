-- ===== src/Agent/Graph.antt =====
-- The graph of the dynamic diagnosis (agent-service/app/workflows/dynamic_diagnosis.py): its edges, and
-- a run, as LangGraph follows them from node to node.
use productline_agent.Base.{
  ℕ, zero, suc, ◌+◌, ◌-◌, ◌*◌, Option, none, some, non_empty, is_some, Text, if◌then◌else◌,
}
use productline_agent.Agent.State.{PageContext, Wiring}
use productline_agent.Agent.Nodes.{State, initialize, plan_next_action, validate_action}
use productline_agent.Agent.Effects.{
  execute_action, save_observation, check_completion, generate_result, exceptional_finish,
}

pub data Node : Type 0 where
  at_plan at_validate at_execute at_save at_check at_generate at_exceptional at_end : Node

module _ (w : Wiring) where
  open w use {Spec, limits, recursion_limit}

  -- The shape that all the routes have: an error goes before a reason to end.
  abbrev pub route : Node → State w → Node
  route next s =
      if non_empty s.facts.errors
      then at_exceptional
      else if is_some s.termination_reason
      then at_generate
      else next

  abbrev pub route_after_initialize : State w → Node
  route_after_initialize s = if non_empty s.facts.errors then at_exceptional else at_plan

  abbrev pub moved : Node → Option (State w) → Option (Node × State w)
  moved n none = none
  moved n (some s) = some (n, s)

  abbrev pub routed : Node → Option (State w) → Option (Node × State w)
  routed n none = none
  routed n (some s) = some (route n s, s)

  -- One node and the edge out of it; none where the node raises.
  unfoldable pub step : Node → State w → Option (Node × State w)
  unfolding plan_next_action validate_action execute_action save_observation check_completion
      generate_result exceptional_finish
  step at_plan s = routed at_validate (plan_next_action w s)
  step at_validate s = let t = validate_action w s in some (route at_execute t, t)
  step at_execute s = moved at_save (execute_action w s)
  step at_save s = some (at_check, save_observation w s)
  step at_check s = let t = check_completion w s in some (route at_plan t, t)
  step at_generate s = moved at_end (generate_result w s)
  step at_exceptional s = moved at_end (exceptional_finish w s)
  step at_end s = some (at_end, s)

  -- How a run stops: at the end, at a node that raises, or at LangGraph's limit.
  pub data Outcome : Type 0 where
    ended : State w → Outcome
    raised : Node → State w → Outcome
    unfinished : Outcome

  abbrev pub finished : Node → State w → Outcome
  finished at_end s = ended s
  finished _ s = unfinished

  -- As many steps as the limit allows, up to the end.
  unfoldable pub run : ℕ → Node → State w → Outcome
  unfolding step
  run zero n s = finished n s
  run (suc k) n s = elim (step n s) [ none ↦ raised n s | some (m, t) ↦ run k m t ]

  -- Five nodes for each round, and the last ones.
  abbrev pub enough : ℕ
  enough = 5 * limits.max_decision_rounds + 2

  -- `ainvoke` of a new workflow; `initialize` is the first step.
  unfoldable pub ainvoke : Text → PageContext → Outcome
  unfolding run initialize
  ainvoke order page =
      let s = initialize w order page in run (recursion_limit - 1) (route_after_initialize s) s
