-- ===== src/Agent/Planning.antt =====
-- On the plan of an action (agent-service/app/workflows/dynamic_diagnosis.py).
use productline_agent.Base.{
  ℕ, suc, ◌+◌, ◌-◌, ◌*◌, ◌≤◌, ◌<◌, ◌≡◌, ◌≢◌, inl, inr, refl, ap, Bool, if◌then◌else◌, false, Option,
  none, some, List, [], ◌∷◌, ◌++◌, text_eq, leb, Bool-cases, arith,
}
use productline_agent.Agent.Actions.{max_iterations, ActionDecision, ModelOutput}
use productline_agent.Agent.State.{Wiring}
use productline_agent.Agent.Decider.{decide}
use productline_agent.Agent.Nodes.{
  State, ended_by, plan_next_action, planned, unplanned, with_decision,
}
use productline_agent.Agent.Graph.{Node, at_plan, at_validate, route, routed}
use productline_agent.Agent.Invariants.{
  IsWithin, IsReasoned, At, ahead, left, Goes, Lands, route_error, route_reason, route_next,
}

pub append-ne-nil : {A : Type 0} (xs : List A) (x : A) → xs ++ (x ∷ []) ≢ []
append-ne-nil [] x h = cc
append-ne-nil (y ∷ xs) x h = cc

module _ (w : Wiring) where
  open w use {registry, permissions, limits, ask, publishes}

  -- The three ways out of a node that is followed by a route.
  pub Goes-error :
      (n : ℕ) (next : Node) (t : State w)
      → IsWithin w t
      → t.facts.errors ≢ []
      → 1 < n
      → Goes w n (route w next t, t)
  Goes-error n next t within h k = record {
    within = within;
    there = rw (route_error w next t h) h;
    nearer = rw (route_error w next t h) k;
  }

  pub Goes-reason :
      (n : ℕ) (next : Node) (t : State w)
      → IsWithin w t
      → t.facts.errors ≡ []
      → IsReasoned w t
      → 1 < n
      → Goes w n (route w next t, t)
  Goes-reason n next t within h r k = record {
    within = within;
    there = rw (route_reason w next t r.reason h r.ended) (h, r);
    nearer = rw (route_reason w next t r.reason h r.ended) k;
  }

  pub Goes-next :
      (n : ℕ) (next : Node) (t : State w)
      → IsWithin w t
      → t.facts.errors ≡ []
      → t.termination_reason ≡ none
      → At w next t
      → ahead w next (left w t) < n
      → Goes w n (route w next t, t)
  Goes-next n next t within h k there nearer = record {
    within = within;
    there = rw (route_next w next t h k) there;
    nearer = rw (route_next w next t h k) nearer;
  }

  one_more : (a b : ℕ) → leb a b ≡ false → suc b ≤ a
  one_more a b h = ground arith

  closer : (a b : ℕ) → leb a b ≡ false → 5 * (a - suc b) + 6 < 5 * (a - b) + 2
  closer a b h = ground arith

  with_round : State w → State w
  with_round s = record s { iteration_count = suc s.iteration_count }

  planned-Lands :
      (s : State w) (answer : Option (ModelOutput × ModelOutput))
      → IsWithin w s
      → At w at_plan s
      → leb limits.max_decision_rounds s.iteration_count ≡ false
      → ask s.iteration_count s ≡ answer
      → Lands w at_plan s (routed w at_validate (planned w s answer))
  planned-Lands s none within (errors, reason, pending) more asked = inl (
    _,
    refl,
    Goes-error _ at_validate (unplanned w s)
        (record {
          rounds = one_more limits.max_decision_rounds s.iteration_count more;
          calls = within.calls;
          once = within.once;
        })
        (append-ne-nil s.facts.errors _) (omega arith),
  )
  planned-Lands s (some (first, second)) within (errors, reason, pending) more asked =
      let d : ActionDecision = decide registry s.facts first second in
      elim (Bool-cases (publishes s.iteration_count d)) [
        | inl taken ↦ inl (
          _,
          ap (routed w at_validate)
              (ap (λ (b : Bool). if b then some (with_decision w s d) else none) taken),
          Goes-next _ at_validate (with_decision w s d)
              (record {
                rounds = one_more limits.max_decision_rounds s.iteration_count more;
                calls = within.calls;
                once = within.once;
              })
              errors reason (errors, reason, refl)
              (closer limits.max_decision_rounds s.iteration_count more),
        )
        | inr refused ↦ inr (
          ap (routed w at_validate)
              (ap (λ (b : Bool). if b then some (with_decision w s d) else none) refused),
          (first, second, asked, refused),
        )
      ]

  pub plan-Lands :
      (s : State w)
      → IsWithin w s
      → At w at_plan s
      → Lands w at_plan s (routed w at_validate (plan_next_action w s))
  unfolding plan_next_action
  plan-Lands s within (errors, reason, pending) =
      elim (Bool-cases (leb limits.max_decision_rounds s.iteration_count)) [
        | inl over ↦ rw over (
            inl (
              _,
              refl,
              Goes-reason _ at_validate (ended_by w s max_iterations)
                  (record { rounds = within.rounds; calls = within.calls; once = within.once })
                  errors
                  (record {
                    reason = max_iterations;
                    ended = refl;
                    no_error = λ e. cc e;
                    sufficient = λ e. absurd (cc e);
                  })
                  (omega arith),
            ))
        | inr more ↦
            rw more
              (planned-Lands s (ask s.iteration_count s) within (errors, reason, pending) more refl)
      ]
