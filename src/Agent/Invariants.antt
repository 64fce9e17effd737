-- ===== src/Agent/Invariants.antt =====
-- On the state of the dynamic diagnosis at each node (agent-service/app/workflows/dynamic_diagnosis.py).
use productline_agent.Base.{
  trim, ℕ, ◌+◌, ◌-◌, ◌*◌, ◌≤◌, ◌<◌, ◌≡◌, ◌≢◌, ◌⊎◌, refl, true, false, Option, err, none, some, List,
  [], ◌∷◌, Text, All, length, is_some,
}
use productline_agent.Base.Pattern.{is_order_id}
use productline_agent.Tools.Execute.{is_subset, ToolError, ToolResult}
use productline_agent.Workflow.Facts.{StepError, OrderDiagnosisState}
use productline_agent.Workflow.Rules.{
  RuleDecision, insufficient_information, has_complete_facts, evaluate_diagnosis_rules,
  evaluate_dynamic_diagnosis_rules,
}
use productline_agent.Agent.Actions.{
  AgentTerminationReason, sufficient_information, execution_error, Arguments, ActionDecision,
  AgentObservation, ModelOutput, validated_arguments, is_finish, is_retrieval,
}
use productline_agent.Agent.State.{ToolData, RegisteredTool, low_risk, Wiring}
use productline_agent.Agent.Decider.{has_identity, registered_tool, decide}
use productline_agent.Agent.Nodes.{State, gaps_of, with_gaps}
use productline_agent.Agent.Effects.{is_step_error, step_error_of}
use productline_agent.Workflow.Generation.{GenerationFault, DiagnosisResult}
use productline_agent.Workflow.Report.{generate_rule_diagnosis}
use productline_agent.Workflow.Reported.{IsReport}
use productline_agent.Agent.Graph.{
  Node, at_plan, at_validate, at_execute, at_save, at_check, at_generate, at_exceptional, at_end,
  route,
}

-- No two observations are of the same call.
abbrev pub AreOnce : List AgentObservation → Type 0
AreOnce [] = Unit
AreOnce (o ∷ os) =
    All (λ (p : AgentObservation). p.call_fingerprint ≢ o.call_fingerprint) os × AreOnce os

module _ (w : Wiring) where
  open w use {registry, permissions, limits, ask, publishes}

  -- The budgets are kept, and no call is made twice.
  pub record IsWithin (s : State w) : Type 0 where
    pub rounds : s.iteration_count ≤ limits.max_decision_rounds
    pub calls : length s.tool_history ≤ limits.max_tool_calls
    pub once : AreOnce s.tool_history

  -- The call was not made, and there is room for one more.
  pub record IsFresh (call : Text) (s : State w) : Type 0 where
    pub unmade : All (λ (o : AgentObservation). o.call_fingerprint ≢ call) s.tool_history
    pub room : length s.tool_history < limits.max_tool_calls

  -- A tool that an action may call: it is registered, it only reads, the permissions are there, its
  -- input is valid, and the order or the task is one of the state's.
  pub record IsPermitted (facts : OrderDiagnosisState) (d : ActionDecision) : Type 0 where
    pub tool : RegisteredTool
    pub found : registered_tool registry d.tool_name ≡ some tool
    pub reads : tool.risk_level ≡ low_risk
    pub allowed : is_subset tool.required_permissions permissions ≡ true
    pub fits : is_some (tool.validate_input d.tool_arguments) ≡ true
    pub identity : has_identity d.action d.tool_arguments facts ≡ true

  -- A question that may be retrieved, or a tool that may be called.
  abbrev pub IsRunnable : OrderDiagnosisState → ActionDecision → Type 0
  IsRunnable facts d =
      ((is_retrieval d.action ≡ true)
        × ((args : Arguments) × (validated_arguments d.action d.tool_arguments ≡ some args)))
      ⊎ ((is_retrieval d.action ≡ false) × IsPermitted facts d)

  -- Whatever is decided, if it is not the end, has been checked.
  abbrev pub IsChecked : State w → Type 0
  IsChecked s =
      (d : ActionDecision)
      → s.current_decision ≡ some d
      → is_finish d.action ≡ false
      → (call : Text) × (s.current_call_fingerprint ≡ some call)
        × IsFresh call s
        × IsRunnable s.facts d

  -- A reason to end the loop that is no error.
  pub record IsReasoned (s : State w) : Type 0 where
    pub reason : AgentTerminationReason
    pub ended : s.termination_reason ≡ some reason
    pub no_error : reason ≢ execution_error
    pub sufficient : reason ≡ sufficient_information → gaps_of w s ≡ []

  -- The state holds a diagnosis for the decision.
  abbrev pub IsReported : State w → RuleDecision → Type 0
  IsReported s d = (x : DiagnosisResult) × (s.diagnosis ≡ some x) × IsReport d x

  -- How a run ends.
  pub record IsConcluded (s : State w) : Type 0 where
    pub reason : AgentTerminationReason
    pub ended : s.termination_reason ≡ some reason
    pub broken :
        s.facts.errors ≢ []
        → (reason ≡ execution_error)
          × (is_order_id (trim s.facts.order_id) ≡ true
              → (d : RuleDecision) × (s.rule_decision ≡ some d)
                × (d.blocking_stage ≡ insufficient_information)
                × IsReported s d)
    pub decided :
        s.facts.errors ≡ []
        → (reason ≢ execution_error)
          × (s.facts.information_gaps ≡ gaps_of w s)
          × (s.rule_decision ≡ some (evaluate_dynamic_diagnosis_rules s.facts))
          × IsReported s (evaluate_dynamic_diagnosis_rules s.facts)
    pub sufficient : reason ≡ sufficient_information → s.facts.information_gaps ≡ []

  abbrev pub At : Node → State w → Type 0
  At at_plan s =
      (s.facts.errors ≡ []) × (s.termination_reason ≡ none) × (s.pending_observation ≡ none)
  At at_validate s =
      (s.facts.errors ≡ []) × (s.termination_reason ≡ none) × (s.pending_observation ≡ none)
  At at_execute s =
      (s.facts.errors ≡ [])
      × (s.termination_reason ≡ none)
      × (s.pending_observation ≡ none)
      × IsChecked s
  At at_save s =
      (s.termination_reason ≡ none)
      × ((o : AgentObservation) → s.pending_observation ≡ some o → IsFresh o.call_fingerprint s)
  At at_check s = (s.termination_reason ≡ none) × (s.pending_observation ≡ none)
  At at_generate s = (s.facts.errors ≡ []) × IsReasoned s
  At at_exceptional s = s.facts.errors ≢ []
  At at_end s = IsConcluded s

  -- How many nodes may still be visited.
  abbrev pub ahead : Node → ℕ → ℕ
  ahead at_plan r = 5 * r + 2
  ahead at_validate r = 5 * r + 6
  ahead at_execute r = 5 * r + 5
  ahead at_save r = 5 * r + 4
  ahead at_check r = 5 * r + 3
  ahead at_generate r = 1
  ahead at_exceptional r = 1
  ahead at_end r = 0

  abbrev pub left : State w → ℕ
  left s = limits.max_decision_rounds - s.iteration_count

  -- What a step to a node keeps.
  pub record Goes (n : ℕ) (p : Node × State w) : Type 0 where
    pub within : IsWithin p.1
    pub there : At p.0 p.1
    pub nearer : ahead p.0 (left p.1) < n

  -- Whatever may raise in a node: the event sink after a choice; in an execution the tool, or an
  -- error of the tool that is no `StepError`; and, with no gap left, the text of the diagnosis.
  abbrev pub Raises : Node → State w → Type 0
  Raises at_plan s =
      (first : ModelOutput) × (second : ModelOutput) × (ask s.iteration_count s
        ≡ some (first, second))
      × (publishes s.iteration_count (decide registry s.facts first second) ≡ false)
  Raises at_execute s =
      (d : ActionDecision) × (tool : RegisteredTool) × (s.current_decision ≡ some d)
      × (registered_tool registry d.tool_name ≡ some tool)
      × ((tool.execute s.iteration_count d.tool_arguments ≡ none)
          ⊎ ((r : ToolResult ToolData) × (e : ToolError) × (tool.execute s.iteration_count
                  d.tool_arguments
                ≡ some r)
              × (r.success ≡ false)
              × (r.error ≡ some e)
              × (is_step_error w (step_error_of w e) ≡ false)))
  Raises at_generate s =
      (gaps_of w s ≡ [])
      × ((fault : GenerationFault) × (generate_rule_diagnosis (with_gaps w s []).facts
              (evaluate_dynamic_diagnosis_rules (with_gaps w s []).facts)
            ≡ err fault))
  Raises _ s = ⊥

  -- A node is left for another one, or it raises.
  abbrev pub Lands : Node → State w → Option (Node × State w) → Type 0
  Lands n s r =
      ((p : Node × State w) × (r ≡ some p) × Goes (ahead n (left s)) p) ⊎ ((r ≡ none) × Raises n s)

  pub route_error :
      (next : Node) (s : State w) → s.facts.errors ≢ [] → route w next s ≡ at_exceptional
  route_error next s h = by_errors s.facts.errors refl
    where
      by_errors : (es : List _) → s.facts.errors ≡ es → route w next s ≡ at_exceptional
      by_errors [] e = absurd (h e)
      by_errors (x ∷ xs) e = rw e refl

  pub route_reason :
      (next : Node) (s : State w) (r : AgentTerminationReason)
      → s.facts.errors ≡ []
      → s.termination_reason ≡ some r
      → route w next s ≡ at_generate
  route_reason next s r h k = rw h (rw k refl)

  pub route_next :
      (next : Node) (s : State w)
      → s.facts.errors ≡ []
      → s.termination_reason ≡ none
      → route w next s ≡ next
  route_next next s h k = rw h (rw k refl)

  -- With an error, the fixed rules do not find the facts complete.
  pub error_insufficient :
      (s : State w)
      → s.facts.errors ≢ []
      → (evaluate_diagnosis_rules s.facts).blocking_stage ≡ insufficient_information
  unfolding evaluate_diagnosis_rules has_complete_facts
  error_insufficient s h = by_errors s.facts.errors refl
    where
      by_errors :
          (es : List StepError)
          → s.facts.errors ≡ es
          → (evaluate_diagnosis_rules s.facts).blocking_stage ≡ insufficient_information
      by_errors [] e = absurd (h e)
      by_errors (x ∷ xs) e = rw e refl
