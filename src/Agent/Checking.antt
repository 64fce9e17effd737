-- ===== src/Agent/Checking.antt =====
-- On the check of an action (agent-service/app/workflows/dynamic_diagnosis.py).
use productline_agent.Base.{
  ℕ, ◌<◌, ◌≡◌, ◌≢◌, inl, inr, refl, sym, ap, true, false, Option, none, some, List, [], ◌∷◌, Text,
  text_eq, ◌==◌, eq_iff, All, any_of, length, leb, non_empty, is_some, Bool-cases, arith,
}
use productline_agent.Tools.Execute.{is_subset}
use productline_agent.Tools.Retry.{ToolErrorCode, permission_denied, param_validation_error}
use productline_agent.Agent.Actions.{
  AgentTerminationReason, max_tool_calls, no_new_information, sufficient_information,
  execution_error, Arguments, ActionDecision, AgentObservation, validated_arguments, is_finish,
  is_retrieval, same_name, action_tool_name,
}
use productline_agent.Agent.State.{
  RegisteredTool, ToolRiskLevel, low_risk, medium_risk, high_risk, Wiring,
}
use productline_agent.Agent.Decider.{has_identity, registered_tool, is_low}
use productline_agent.Agent.Nodes.{
  State, ended_by, validate_action, validation_failure, with_call, with_input, with_tool,
  with_arguments, validated,
}
use productline_agent.Agent.Graph.{at_validate, at_execute, route}
use productline_agent.Agent.Invariants.{IsWithin, IsRunnable, IsChecked, At, ahead, left, Goes}
use productline_agent.Agent.Planning.{append-ne-nil, Goes-error, Goes-reason, Goes-next}

module _ (w : Wiring) where
  open w use {registry, permissions, limits, ask, publishes}

  -- What a check of the action may leave.
  abbrev Checks : State w → State w → Type 0
  Checks s t = Goes w (ahead w at_validate (left w s)) (route w at_execute t, t)

  module _ (s : State w) (within : IsWithin w s) (errors : s.facts.errors ≡ [])
      (reason : s.termination_reason ≡ none) (pending : s.pending_observation ≡ none) where
    refused : (code : ToolErrorCode) → Checks s (validation_failure w s code)
    refused code =
        Goes-error w _ at_execute (validation_failure w s code)
          (record { rounds = within.rounds; calls = within.calls; once = within.once })
          (append-ne-nil s.facts.errors _) (omega arith)

    ended :
        (r : AgentTerminationReason)
        → r ≢ execution_error
        → r ≢ sufficient_information
        → Checks s (ended_by w s r)
    ended r h k =
        Goes-reason w _ at_execute (ended_by w s r)
          (record { rounds = within.rounds; calls = within.calls; once = within.once }) errors
          (record { reason = r; ended = refl; no_error = h; sufficient = λ e. absurd (k e) })
          (omega arith)

    passed :
        (o : Option Text)
        → IsChecked w (record s { current_call_fingerprint = o })
        → Checks s (record s { current_call_fingerprint = o })
    passed o h =
        Goes-next w _ at_execute (record s { current_call_fingerprint = o })
          (record { rounds = within.rounds; calls = within.calls; once = within.once }) errors
          reason (errors, reason, pending, h) (omega arith)

    unmade :
        (call : Text) (os : List AgentObservation)
        → any_of (λ (o : AgentObservation). o.call_fingerprint == call) os ≡ false
        → All (λ (o : AgentObservation). o.call_fingerprint ≢ call) os
    unmade call [] h = tt
    unmade call (o ∷ os) h = elim (Bool-cases (o.call_fingerprint == call)) [
      | inl same ↦ let wrong = rw same at h in absurd (cc wrong)
      | inr other ↦
          ((λ e. cc (other, (eq_iff o.call_fingerprint call).1 e)), unmade call os (rw other at h))
    ]

    below : (a b : ℕ) → leb a b ≡ false → b < a
    below a b h = ground arith

    module _ (d : ActionDecision) (decided : s.current_decision ≡ some d) where
      same_decision : (e : ActionDecision) → s.current_decision ≡ some e → d ≡ e
      same_decision e h = cc (decided, h)

      called : (call : Text) → IsRunnable w s.facts d → Checks s (with_call w s call)
      called call r = elim (Bool-cases (leb limits.max_tool_calls (length s.tool_history))) [
        | inl full ↦ rw full (ended max_tool_calls (λ e. cc e) (λ e. cc e))
        | inr room ↦
            elim (Bool-cases
              (any_of (λ (o : AgentObservation). o.call_fingerprint == call) s.tool_history)) [
                | inl made ↦ rw room (rw made (ended no_new_information (λ e. cc e) (λ e. cc e)))
                | inr new ↦ rw room (
                    rw new (
                      passed (some call) (λ e h k. (
                        call,
                        refl,
                        record {
                          unmade = unmade call s.tool_history new;
                          room = below limits.max_tool_calls (length s.tool_history) room;
                        },
                        rw (sym (same_decision e h)) r,
                      ))))
              ]
      ]

      low_of : (r : ToolRiskLevel) → is_low r ≡ true → r ≡ low_risk
      low_of low_risk h = refl
      low_of medium_risk h = cc
      low_of high_risk h = cc

      input_given :
          (tool : RegisteredTool) (input : Option Arguments)
          → registered_tool registry d.tool_name ≡ some tool
          → tool.risk_level ≡ low_risk
          → is_subset tool.required_permissions permissions ≡ true
          → tool.validate_input d.tool_arguments ≡ input
          → is_retrieval d.action ≡ false
          → Checks s (with_input w s d tool input)
      input_given tool none found reads allowed fits business = refused param_validation_error
      input_given tool (some input) found reads allowed fits business =
          elim (Bool-cases (has_identity d.action d.tool_arguments s.facts)) [
            | inl known ↦ rw known (
                called _ (
                  inr (
                    business,
                    record {
                      tool = tool;
                      found = found;
                      reads = reads;
                      allowed = allowed;
                      fits = ap (λ (o : Option Arguments). is_some o) fits;
                      identity = known;
                    },
                  )))
            | inr unknown ↦ rw unknown (refused param_validation_error)
          ]

      tool_given :
          (tool : Option RegisteredTool)
          → registered_tool registry d.tool_name ≡ tool
          → is_retrieval d.action ≡ false
          → Checks s (with_tool w s d tool)
      tool_given none found business = refused param_validation_error
      tool_given (some tool) found business = elim (Bool-cases (is_low tool.risk_level)) [
        | inl low ↦ elim (Bool-cases (is_subset tool.required_permissions permissions)) [
          | inl allowed ↦ rw low (
              rw allowed (
                input_given tool (tool.validate_input d.tool_arguments) found
                  (low_of tool.risk_level low) allowed refl business))
          | inr denied ↦ rw low (rw denied (refused permission_denied))
        ]
        | inr writes ↦ rw writes (refused param_validation_error)
      ]

      arguments_given :
          (args : Option Arguments)
          → validated_arguments d.action d.tool_arguments ≡ args
          → Checks s (with_arguments w s d args)
      arguments_given none e = refused param_validation_error
      arguments_given (some args) e = elim (Bool-cases (is_retrieval d.action)) [
        | inl retrieval ↦ rw retrieval (called _ (inl (retrieval, (args, e))))
        | inr business ↦
            rw business (tool_given (registered_tool registry d.tool_name) refl business)
      ]

      finishing :
          is_finish d.action ≡ true → Checks s (record s { current_call_fingerprint = none })
      finishing h =
          passed none
            (λ e k l. absurd (let wrong = rw (sym (same_decision e k)) at l in cc (wrong, h)))

      decision_given : Checks s (validated w s (some d))
      decision_given = elim (Bool-cases (same_name d.tool_name (action_tool_name d.action))) [
        | inr other ↦ rw other (refused param_validation_error)
        | inl bound ↦ elim (Bool-cases (is_finish d.action)) [
          | inl last ↦ elim (Bool-cases (non_empty d.tool_arguments)) [
            | inl given ↦ rw bound (rw last (rw given (refused param_validation_error)))
            | inr bare ↦ rw bound (rw last (rw bare (finishing last)))
          ]
          | inr more ↦
              rw bound
                (rw more (arguments_given (validated_arguments d.action d.tool_arguments) refl))
        ]
      ]

    validated-Checks :
        (o : Option ActionDecision) → s.current_decision ≡ o → Checks s (validated w s o)
    validated-Checks none e = refused param_validation_error
    validated-Checks (some d) e = decision_given d e

  pub validate-Goes :
      (s : State w)
      → IsWithin w s
      → At w at_validate s
      → Goes w
          (ahead w at_validate (left w s))
          (route w at_execute (validate_action w s), validate_action w s)
  unfolding validate_action
  validate-Goes s within (errors, reason, pending) =
      validated-Checks s within errors reason pending s.current_decision refl
