-- ===== src/Agent/Decisions.antt =====
-- On decisions of the model and their second check (agent-service/app/workflows/action_decision.py and
-- agent-service/app/workflows/dynamic_diagnosis.py).
use productline_agent.Base.{
  ◌≡◌, inl, inr, refl, ap, ◌∙◌, Bool, true, false, not, ◌&&◌, Option, none, some, Text, text_eq,
  ◌==◌, any_of, length, leb, non_empty, is_some, Bool-cases,
}
use productline_agent.Base.Dict
use productline_agent.Base.Dict.{Dict}
use productline_agent.Tools.Execute.{is_subset}
use productline_agent.Workflow.Facts.{OrderDiagnosisState}
use productline_agent.Agent.Actions.{
  AgentAction, query_order, query_tasks, query_progress, query_quality, query_review,
  query_delivery, retrieve_spec, finish, Arguments, ActionDecision, AgentObservation, ModelOutput,
  model_raised, model_output, is_bound, is_finish, is_retrieval, same_name, action_tool_name,
  validated_arguments,
}
use productline_agent.Agent.State.{RegisteredTool, Wiring}
use productline_agent.Agent.Decider.{
  safe_finish_decision, is_low, has_identity, registered_tool, is_tool_call, is_usable,
  is_registered, attempt, decide,
}
use productline_agent.Agent.Nodes.{
  State, validate_action, validated, with_arguments, with_tool, with_input, with_call,
}

-- A decision that passes the schema and the catalogue of tools.
pub record IsAccepted (registry : Dict Text RegisteredTool) (s : OrderDiagnosisState)
    (d : ActionDecision) : Type 0 where
  pub bound : is_bound d ≡ true
  pub registered : is_registered registry s d ≡ true

module _ (registry : Dict Text RegisteredTool) (s : OrderDiagnosisState) where
  safe-IsAccepted : IsAccepted registry s safe_finish_decision
  unfolding is_bound is_registered
  safe-IsAccepted = record { bound = refl; registered = refl }

  attempt-IsAccepted :
      (out : ModelOutput) (next : ActionDecision)
      → IsAccepted registry s next
      → IsAccepted registry s (attempt registry s out next)
  attempt-IsAccepted model_raised next h = safe-IsAccepted
  attempt-IsAccepted (model_output none) next h = h
  attempt-IsAccepted (model_output (some d)) next h = elim (Bool-cases (is_bound d)) [
    | inl bound ↦ elim (Bool-cases (is_registered registry s d)) [
      | inl registered ↦
          rw bound (rw registered (record { bound = bound; registered = registered }))
      | inr unknown ↦ rw bound (rw unknown h)
    ]
    | inr loose ↦ rw loose h
  ]

  -- Whatever the model does, the decision is one that passes both checks.
  decide-IsAccepted :
      (first second : ModelOutput) → IsAccepted registry s (decide registry s first second)
  unfolding decide
  decide-IsAccepted first second =
      attempt-IsAccepted first (attempt registry s second safe_finish_decision)
        (attempt-IsAccepted second safe_finish_decision safe-IsAccepted)

parts : (a b : Bool) → (a && b) ≡ true → (a ≡ true) × (b ≡ true)
parts true b h = (refl, h)
parts false b h = absurd (cc h)

bare_of : (b : Bool) → not b ≡ true → b ≡ false
bare_of false h = refl
bare_of true h = absurd (cc h)

call_of : (a : AgentAction) → is_finish a ≡ false → is_retrieval a ≡ false → is_tool_call a ≡ true
call_of query_order h k = refl
call_of query_tasks h k = refl
call_of query_progress h k = refl
call_of query_quality h k = refl
call_of query_review h k = refl
call_of query_delivery h k = refl
call_of retrieve_spec h k = cc
call_of finish h k = cc

module _ (w : Wiring) where
  open w use {registry, permissions, limits, fingerprint}

  -- All tools of the registry may be called.
  abbrev pub AreAllowed : Type 0
  AreAllowed =
      (name : Text) (tool : RegisteredTool)
      → Dict.lookup name registry ≡ some tool
      → is_subset tool.required_permissions permissions ≡ true

  abbrev Sound : State w → State w → Type 0
  Sound s t = t.facts.errors ≡ s.facts.errors

  module _ (s : State w) (allowed : AreAllowed) where
    call-Sound : (call : Text) → Sound s (with_call w s call)
    call-Sound call = elim (Bool-cases (leb limits.max_tool_calls (length s.tool_history))) [
      | inl full ↦ rw full refl
      | inr room ↦
          elim (Bool-cases
            (any_of (λ (o : AgentObservation). o.call_fingerprint == call) s.tool_history)) [
              | inl made ↦ rw room (rw made refl)
              | inr new ↦ rw room (rw new refl)
            ]
    ]

    input-Sound :
        (d : ActionDecision) (tool : RegisteredTool) (input : Option Arguments)
        → is_some input ≡ true
        → has_identity d.action d.tool_arguments s.facts ≡ true
        → Sound s (with_input w s d tool input)
    input-Sound d tool none h known = absurd (cc h)
    input-Sound d tool (some input) h known = rw known (call-Sound (fingerprint tool.name input))

    allowed_tool :
        (name : Option Text) (tool : RegisteredTool)
        → registered_tool registry name ≡ some tool
        → is_subset tool.required_permissions permissions ≡ true
    allowed_tool none tool h = absurd (cc h)
    allowed_tool (some name) tool h = allowed name tool h

    tool-Sound :
        (d : ActionDecision) (tool : Option RegisteredTool)
        → registered_tool registry d.tool_name ≡ tool
        → is_usable d s.facts tool ≡ true
        → Sound s (with_tool w s d tool)
    tool-Sound d none e h = absurd (cc h)
    tool-Sound d (some tool) e h =
        let (begun, known) =
          parts (is_low tool.risk_level && is_some (tool.validate_input d.tool_arguments))
            (has_identity d.action d.tool_arguments s.facts) h in
        let (low, fits) =
          parts (is_low tool.risk_level) (is_some (tool.validate_input d.tool_arguments)) begun in
        rw low (
          rw (allowed_tool d.tool_name tool e)
            (input-Sound d tool (tool.validate_input d.tool_arguments) fits known))

    arguments-Sound :
        (d : ActionDecision) (args : Option Arguments)
        → is_some args ≡ true
        → is_finish d.action ≡ false
        → is_registered registry s.facts d ≡ true
        → Sound s (with_arguments w s d args)
    unfolding is_registered
    arguments-Sound d none h more registered = absurd (cc h)
    arguments-Sound d (some args) h more registered = elim (Bool-cases (is_retrieval d.action)) [
      | inl retrieval ↦ rw retrieval (call-Sound _)
      | inr business ↦
          let usable = rw (call_of d.action more business) at registered in
          rw business (tool-Sound d (registered_tool registry d.tool_name) refl usable)
    ]

    accepted-Sound :
        (d : ActionDecision) → IsAccepted registry s.facts d → Sound s (validated w s (some d))
    unfolding is_bound
    accepted-Sound d a =
        let (named, fits) = parts (same_name d.tool_name (action_tool_name d.action)) _ a.bound in
        elim (Bool-cases (is_finish d.action)) [
          | inl last ↦
              let bare = rw last at fits in
              rw named (rw last (rw (bare_of (non_empty d.tool_arguments) bare) refl))
          | inr more ↦
              let given = rw more at fits in
              rw named (
                rw more (
                  arguments-Sound d (validated_arguments d.action d.tool_arguments) given more
                    a.registered))
        ]

    -- If every registered tool may be called with the permissions at hand, then a decision that
    -- the decider has made, whatever the model did in its two attempts, passes the second check
    -- without an error.
    pub validate_action-decide :
        (first second : ModelOutput)
        → s.current_decision ≡ some (decide registry s.facts first second)
        → (validate_action w s).facts.errors ≡ s.facts.errors
    unfolding validate_action
    validate_action-decide first second e =
        ap (λ (o : Option ActionDecision). (validated w s o).facts.errors) e
        ∙ accepted-Sound (decide registry s.facts first second)
            (decide-IsAccepted registry s.facts first second)
