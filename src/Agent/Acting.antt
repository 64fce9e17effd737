-- ===== src/Agent/Acting.antt =====
-- On the execution of an action (agent-service/app/workflows/dynamic_diagnosis.py).
use productline_agent.Base.{
  ◌≡◌, ◌⊎◌, false, inl, inr, refl, sym, ap, ◌∙◌, Bool, Option, none, some, Text, Bool-cases, arith,
  some_injective,
}
use productline_agent.Tools.Execute.{ToolError, ToolResult}
use productline_agent.Workflow.Facts.{OrderDiagnosisState}
use productline_agent.Agent.Actions.{
  AgentAction, retrieve_spec, ActionDecision, AgentObservation, is_finish,
}
use productline_agent.Agent.State.{ToolData, RegisteredTool, Wiring}
use productline_agent.Agent.Decider.{registered_tool}
use productline_agent.Agent.Merging.{text_of_arguments, merge_business_fact}
use productline_agent.Agent.Nodes.{State}
use productline_agent.Agent.Effects.{
  execute_action, acted, with_fingerprint, executed, tool_ended, observed, failed_observation,
  is_step_error, step_error_of, spec_returned, tool_brought, tool_failed, fact_merged,
  execution_failure,
}
use productline_agent.Agent.Graph.{at_execute, at_save, moved}
use productline_agent.Agent.Invariants.{
  IsWithin, IsFresh, IsRunnable, IsChecked, At, ahead, left, Goes, Lands,
}

module _ (w : Wiring) where
  open w use {Spec, registry, limits, retrieve}

  -- What an execution leaves of the state, with an observation of the call.
  record Acted (s : State w) (call : Text) (t : State w) : Type 0 where
    history : t.tool_history ≡ s.tool_history
    round : t.iteration_count ≡ s.iteration_count
    reason : t.termination_reason ≡ s.termination_reason
    pending : (o : AgentObservation) → t.pending_observation ≡ some o → o.call_fingerprint ≡ call

  same_call :
      (p o : AgentObservation) (call : Text)
      → p.call_fingerprint ≡ call
      → some p ≡ some o
      → o.call_fingerprint ≡ call
  same_call p o call h e =
      ap (λ (x : AgentObservation). x.call_fingerprint) (sym (some_injective p o e)) ∙ h

  module _ (s : State w) (call : Text) where
    failed-Acted : (action : AgentAction) → Acted s call (execution_failure w s action call)
    failed-Acted action = record {
      history = refl;
      round = refl;
      reason = refl;
      pending = λ o e. same_call _ o call refl e;
    }

    -- A state with an observation of the call, or an exception for the reason that is given.
    abbrev ActedOr : Type 0 → Option (State w) → Type 0
    ActedOr P r = ((t : State w) × (r ≡ some t) × Acted s call t) ⊎ ((r ≡ none) × P)

    tool_failed-Acted :
        (action : AgentAction) (o : Option ToolError)
        → ActedOr
            ((e : ToolError) × (o ≡ some e) × (is_step_error w (step_error_of w e) ≡ false))
            (tool_failed w s action call o)
    tool_failed-Acted action none = inl (_, refl, failed-Acted action)
    tool_failed-Acted action (some x) = elim (Bool-cases (is_step_error w (step_error_of w x))) [
      | inl good ↦ rw good (
          inl (
            observed w s (failed_observation w action call (step_error_of w x)),
            refl,
            record {
              history = refl;
              round = refl;
              reason = refl;
              pending = λ o e. same_call _ o call refl e;
            },
          ))
      | inr bad ↦ rw bad (inr (refl, (x, refl, bad)))
    ]

    merged-Acted :
        (action : AgentAction) (m : Option (OrderDiagnosisState × Bool))
        → Acted s call (fact_merged w s action call m)
    merged-Acted action none = failed-Acted action
    merged-Acted action (some (facts, has_new)) = record {
      history = refl;
      round = refl;
      reason = refl;
      pending = λ o e. same_call _ o call refl e;
    }

    brought-Acted :
        (d : ActionDecision) (data_ : Option ToolData)
        → Acted s call (tool_brought w s d call data_)
    brought-Acted d none = failed-Acted d.action
    brought-Acted d (some x) =
        merged-Acted d.action (merge_business_fact s.facts d.action d.tool_arguments x)

    -- Why the execution of a tool raises.
    abbrev Fault : Option (ToolResult ToolData) → Type 0
    Fault o =
        (o ≡ none)
        ⊎ ((r : ToolResult ToolData) × (e : ToolError) × (o ≡ some r)
            × (r.success ≡ false)
            × (r.error ≡ some e)
            × (is_step_error w (step_error_of w e) ≡ false))

    ended-Acted :
        (d : ActionDecision) (o : Option (ToolResult ToolData))
        → ActedOr (Fault o) (tool_ended w s d call o)
    ended-Acted d none = inr (refl, inl refl)
    ended-Acted d (some r) = elim (Bool-cases r.success) [
      | inl good ↦ rw good (inl (tool_brought w s d call r.data_, refl, brought-Acted d r.data_))
      | inr bad ↦ elim (tool_failed-Acted d.action r.error) [
        | inl (t, made, a) ↦ inl (t, rw bad made, a)
        | inr (none_made, (e, given, broken)) ↦
            inr (rw bad none_made, inr (r, e, refl, bad, given, broken))
      ]
    ]

    spec-Acted : (r : Option Spec) → Acted s call (spec_returned w s call r)
    spec-Acted none = failed-Acted retrieve_spec
    spec-Acted (some x) = record {
      history = refl;
      round = refl;
      reason = refl;
      pending = λ o e. same_call _ o call refl e;
    }

    -- A call that has been checked raises only where its tool does.
    executed-Acted :
        (d : ActionDecision)
        → IsRunnable w s.facts d
        → ActedOr
            ((tool : RegisteredTool) × (registered_tool registry d.tool_name ≡ some tool)
              × Fault (tool.execute s.iteration_count d.tool_arguments))
            (executed w s d call)
    executed-Acted d (inl (retrieval, (args, e))) =
        let r = retrieve s.iteration_count (text_of_arguments args) s.page_context in
        inl (spec_returned w s call r, rw retrieval (rw e refl), spec-Acted r)
    executed-Acted d (inr (business, p)) =
        let o = p.tool.execute s.iteration_count d.tool_arguments in
        let run : executed w s d call ≡ tool_ended w s d call o = rw business (rw p.found refl) in
        elim (ended-Acted d o) [
          | inl (t, made, a) ↦ inl (t, run ∙ made, a)
          | inr (none_made, why) ↦ inr (run ∙ none_made, (p.tool, p.found, why))
        ]

  -- What `execute_action` leaves goes to be kept.
  abbrev Executes : State w → Option (State w) → Type 0
  Executes s r = Lands w at_execute s (moved w at_save r)

  nothing_pending :
      (s : State w)
      → IsWithin w s
      → s.termination_reason ≡ none
      → Executes s (some record s { pending_observation = none })
  nothing_pending s within reason = inl (
    (at_save, record s { pending_observation = none }),
    refl,
    record {
      within = record { rounds = within.rounds; calls = within.calls; once = within.once };
      there = (reason, λ o e. absurd (cc e));
      nearer = omega arith;
    },
  )

  pending_call :
      (s t : State w) (call : Text)
      → IsWithin w s
      → s.termination_reason ≡ none
      → IsFresh w call s
      → Acted s call t
      → Goes w (ahead w at_execute (left w s)) (at_save, t)
  pending_call s t call within reason fresh a = record {
    within = record {
      rounds = rw a.round within.rounds;
      calls = rw a.history within.calls;
      once = rw a.history within.once;
    };
    there = (
      a.reason ∙ reason,
      λ o e. record {
        unmade = rw (a.history, a.pending o e) fresh.unmade;
        room = rw a.history fresh.room;
      },
    );
    nearer = rw a.round (omega arith);
  }

  acted-Executes :
      (s : State w) (o : Option ActionDecision)
      → IsWithin w s
      → s.termination_reason ≡ none
      → s.current_decision ≡ o
      → IsChecked w s
      → Executes s (acted w s o)
  acted-Executes s none within reason e checked = nothing_pending s within reason
  acted-Executes s (some d) within reason e checked = elim (Bool-cases (is_finish d.action)) [
    | inl last ↦ rw last (nothing_pending s within reason)
    | inr more ↦
        let (call, given, fresh, runnable) = checked d e more in
        let given_call : with_fingerprint w s d s.current_call_fingerprint ≡ executed w s d call =
          ap (with_fingerprint w s d) given in
        rw more (elim (executed-Acted s call d runnable) [
          | inl (t, made, a) ↦ inl (
            (at_save, t),
            ap (moved w at_save) (given_call ∙ made),
            pending_call s t call within reason fresh a,
          )
          | inr (none_made, (tool, found, why)) ↦
              inr (ap (moved w at_save) (given_call ∙ none_made), (d, tool, e, found, why))
        ])
  ]

  pub execute-Lands :
      (s : State w)
      → IsWithin w s
      → At w at_execute s
      → Lands w at_execute s (moved w at_save (execute_action w s))
  unfolding execute_action
  execute-Lands s within (errors, reason, pending, checked) =
      acted-Executes s s.current_decision within reason refl checked
