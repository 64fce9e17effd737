-- ===== src/Agent/Saving.antt =====
-- On what is kept of an action (agent-service/app/workflows/dynamic_diagnosis.py).
use productline_agent.Base.{
  ◌<◌, ◌≡◌, ◌≢◌, refl, sym, Option, none, some, List, [], ◌∷◌, ◌++◌, All, length, arith,
  length-append,
}
use productline_agent.Agent.Actions.{AgentObservation}
use productline_agent.Agent.State.{Wiring}
use productline_agent.Agent.Nodes.{State}
use productline_agent.Agent.Effects.{save_observation, saved}
use productline_agent.Agent.Graph.{at_save, at_check}
use productline_agent.Agent.Invariants.{AreOnce, IsWithin, IsFresh, At, ahead, left, Goes}

once-append :
    (os : List AgentObservation) (o : AgentObservation)
    → AreOnce os
    → All (λ (p : AgentObservation). p.call_fingerprint ≢ o.call_fingerprint) os
    → AreOnce (os ++ (o ∷ []))
once-append [] o h k = (tt, tt)
once-append (p ∷ os) o h k = (others os h.0 (λ e. k.0 (sym e)), once-append os o h.1 k.1)
  where
    others :
        (qs : List AgentObservation)
        → All (λ (q : AgentObservation). q.call_fingerprint ≢ p.call_fingerprint) qs
        → o.call_fingerprint ≢ p.call_fingerprint
        → All (λ (q : AgentObservation). q.call_fingerprint ≢ p.call_fingerprint) (qs ++ (o ∷ []))
    others [] a b = (b, tt)
    others (q ∷ qs) a b = (a.0, others qs a.1 b)

module _ (w : Wiring) where
  open w use {Spec, registry, limits, retrieve}

  saved-Goes :
      (s : State w) (o : Option AgentObservation)
      → IsWithin w s
      → s.termination_reason ≡ none
      → s.pending_observation ≡ o
      → ((p : AgentObservation) → s.pending_observation ≡ some p → IsFresh w p.call_fingerprint s)
      → Goes w (ahead w at_save (left w s)) (at_check, saved w s o)
  saved-Goes s none within reason e fresh = record {
    within = within;
    there = (reason, e);
    nearer = omega arith;
  }
  saved-Goes s (some o) within reason e fresh =
      let f = fresh o e in
      let room : length s.tool_history < limits.max_tool_calls = f.room in
      record {
        within = record {
          rounds = within.rounds;
          calls = rw (length-append s.tool_history (o ∷ [])) (omega arith);
          once = once-append s.tool_history o within.once f.unmade;
        };
        there = (reason, refl);
        nearer = omega arith;
      }

  pub save-Goes :
      (s : State w)
      → IsWithin w s
      → At w at_save s
      → Goes w (ahead w at_save (left w s)) (at_check, save_observation w s)
  unfolding save_observation
  save-Goes s within (reason, fresh) = saved-Goes s s.pending_observation within reason refl fresh
