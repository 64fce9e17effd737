-- ===== src/Agent/Guarantees.antt =====
-- On whole runs of the dynamic diagnosis (agent-service/app/workflows/dynamic_diagnosis.py).
use productline_agent.Base.{
  ℕ, zero, suc, ◌-◌, ◌≤◌, ◌<◌, ◌≡◌, ◌≢◌, ◌⊎◌, inl, inr, refl, sym, ap, ◌∙◌, true, ◌&&◌, Option,
  none, some, [], Text, text_eq, ◌==◌, trim, Bool-cases, arith, some_injective, is_some,
}
use productline_agent.Base.Pattern.{is_order_id}
use productline_agent.Workflow.Rules.{
  RuleDecision, nothing, order_matches, delivery_complete, evaluate_dynamic_diagnosis_rules,
}
use productline_agent.Workflow.Gaps.{tasks_valid}
use productline_agent.Workflow.Stages.{IsClear, dynamic-IsClear}
use productline_agent.Agent.State.{PageContext, validated_page, Wiring}
use productline_agent.Agent.Nodes.{State, initialize, started, refused_start}
use productline_agent.Agent.Graph.{
  Node, at_plan, at_validate, at_execute, at_save, at_check, at_generate, at_exceptional, at_end,
  route_after_initialize, step, run, enough, ainvoke, Outcome, ended, raised, unfinished,
}
use productline_agent.Agent.Invariants.{IsWithin, IsConcluded, Raises, Lands, At, ahead, left}
use productline_agent.Agent.Planning.{plan-Lands}
use productline_agent.Agent.Checking.{validate-Goes}
use productline_agent.Agent.Acting.{execute-Lands}
use productline_agent.Agent.Saving.{save-Goes}
use productline_agent.Agent.Ending.{check-Goes, generate-Lands, exceptional-Lands}
use mathlib.Core.Path.{subst}

module _ (w : Wiring) where
  open w use {limits, role, recursion_limit}

  -- The cases of a node that is left or raises.
  pub step-Lands :
      (n : Node) (s : State w) → n ≢ at_end → IsWithin w s → At w n s → Lands w n s (step w n s)
  unfolding step
  step-Lands at_plan s h within there = plan-Lands w s within there
  step-Lands at_validate s h within there = inl (_, refl, validate-Goes w s within there)
  step-Lands at_execute s h within there = execute-Lands w s within there
  step-Lands at_save s h within there = inl (_, refl, save-Goes w s within there)
  step-Lands at_check s h within there = inl (_, refl, check-Goes w s within there)
  step-Lands at_generate s h within there = generate-Lands w s within there
  step-Lands at_exceptional s h within there = exceptional-Lands w s within there
  step-Lands at_end s h within there = absurd (h refl)

  -- A run that has ended is within its budgets and has a reason, one that has raised was in a node
  -- that may raise, and one that has stopped at its limit had too little of it.
  abbrev pub Sound : ℕ → ℕ → Outcome w → Type 0
  Sound k most (ended t) = IsWithin w t × IsConcluded w t
  Sound k most (raised m t) = IsWithin w t × Raises w m t
  Sound k most unfinished = k < most

  run-end : (k : ℕ) (s : State w) → run w k at_end s ≡ ended s
  unfolding run step
  run-end zero s = refl
  run-end (suc k) s = run-end k s

  some_left : (n : Node) (s : State w) → n ≢ at_end → 0 < ahead w n (left w s)
  some_left at_plan s h = omega arith
  some_left at_validate s h = omega arith
  some_left at_execute s h = omega arith
  some_left at_save s h = omega arith
  some_left at_check s h = omega arith
  some_left at_generate s h = omega arith
  some_left at_exceptional s h = omega arith
  some_left at_end s h = absurd (h refl)

  run-step :
      (k : ℕ) (n m : Node) (s t : State w)
      → step w n s ≡ some (m, t)
      → run w (suc k) n s ≡ run w k m t
  unfolding run
  run-step k n m s t h =
      ap
        (λ (o : Option (Node × State w)). elim o as (λ p. Outcome w) [
          | none ↦ raised n s
          | some (x, y) ↦ run w k x y
        ])
        h

  run-raised : (k : ℕ) (n : Node) (s : State w) → step w n s ≡ none → run w (suc k) n s ≡ raised n s
  unfolding run
  run-raised k n s h =
      ap
        (λ (o : Option (Node × State w)). elim o as (λ p. Outcome w) [
          | none ↦ raised n s
          | some (x, y) ↦ run w k x y
        ])
        h

  end-or-not : (n : Node) → (n ≡ at_end) ⊎ (n ≢ at_end)
  end-or-not at_end = inl refl
  end-or-not at_plan = inr (λ e. cc e)
  end-or-not at_validate = inr (λ e. cc e)
  end-or-not at_execute = inr (λ e. cc e)
  end-or-not at_save = inr (λ e. cc e)
  end-or-not at_check = inr (λ e. cc e)
  end-or-not at_generate = inr (λ e. cc e)
  end-or-not at_exceptional = inr (λ e. cc e)

  IsConcluded-At : (n : Node) (s : State w) → n ≡ at_end → At w n s → IsConcluded w s
  IsConcluded-At at_end s e h = h
  IsConcluded-At at_plan s e h = absurd (cc e)
  IsConcluded-At at_validate s e h = absurd (cc e)
  IsConcluded-At at_execute s e h = absurd (cc e)
  IsConcluded-At at_save s e h = absurd (cc e)
  IsConcluded-At at_check s e h = absurd (cc e)
  IsConcluded-At at_generate s e h = absurd (cc e)
  IsConcluded-At at_exceptional s e h = absurd (cc e)

  ended-Sound :
      (k : ℕ) (n : Node) (s : State w)
      → n ≡ at_end
      → IsWithin w s
      → At w n s
      → Sound k (ahead w n (left w s)) (run w k n s)
  ended-Sound k n s e within there =
      rw (ap (λ (m : Node). run w k m s) e ∙ run-end k s) (within, IsConcluded-At n s e there)

  Sound-more : (k a b : ℕ) (o : Outcome w) → a < b → Sound k a o → Sound (suc k) b o
  Sound-more k a b (ended t) h sound = sound
  Sound-more k a b (raised m t) h sound = sound
  Sound-more k a b unfinished h sound = omega arith

  started_short : (n : Node) (s : State w) → n ≢ at_end → run w zero n s ≡ unfinished
  unfolding run
  started_short at_plan s h = refl
  started_short at_validate s h = refl
  started_short at_execute s h = refl
  started_short at_save s h = refl
  started_short at_check s h = refl
  started_short at_generate s h = refl
  started_short at_exceptional s h = refl
  started_short at_end s h = absurd (h refl)

  run-Sound :
      (k : ℕ) (n : Node) (s : State w)
      → IsWithin w s
      → At w n s
      → Sound k (ahead w n (left w s)) (run w k n s)
  run-Sound zero n s within there = elim (end-or-not n) [
    | inl e ↦ ended-Sound zero n s e within there
    | inr more ↦ rw (started_short n s more) (some_left n s more)
  ]
  run-Sound (suc k) n s within there = elim (end-or-not n) [
    | inl e ↦ ended-Sound (suc k) n s e within there
    | inr more ↦ elim (step-Lands n s more within there) [
      | inl ((m, t), made, g) ↦ rw (run-step k n m s t made) (
          Sound-more k (ahead w m (left w t)) (ahead w n (left w s)) (run w k m t) g.nearer
            (run-Sound k m t g.within g.there))
      | inr (none_made, why) ↦ rw (run-raised k n s none_made) (within, why)
    ]
  ]

  -- At most the nodes that are enough lie ahead of a start.
  abbrev Starts : Node → State w → Type 0
  Starts n s = IsWithin w s × At w n s × (ahead w n (left w s) ≤ enough w)

  refused-Starts : (order : Text) → Starts at_exceptional (refused_start w order)
  refused-Starts order =
      (record { rounds = omega arith; calls = omega arith; once = tt }, (λ e. cc e), omega arith)

  started-Starts :
      (order : Text) (page : Option PageContext)
      → Starts (route_after_initialize w (started w order page)) (started w order page)
  started-Starts order none = refused-Starts order
  started-Starts order (some page) =
      elim (Bool-cases
        (is_order_id (trim order) && (page.order_id == trim order) && (page.user_role == role))) [
          | inl valid ↦ rw valid (
            record { rounds = omega arith; calls = omega arith; once = tt },
            (refl, refl, refl),
            omega arith,
          )
          | inr invalid ↦ rw invalid (refused-Starts order)
        ]

  Sound-within : (k a b : ℕ) (o : Outcome w) → a ≤ b → Sound k a o → Sound k b o
  Sound-within k a b (ended t) h sound = sound
  Sound-within k a b (raised m t) h sound = sound
  Sound-within k a b unfinished h sound = omega arith

  ainvoke-Sound :
      (order : Text) (page : PageContext)
      → Sound (recursion_limit - 1) (enough w) (ainvoke w order page)
  unfolding ainvoke initialize
  ainvoke-Sound order page =
      let (within, there, near) = started-Starts order (validated_page page) in
      Sound-within (recursion_limit - 1) _ _ _ near
        (run-Sound (recursion_limit - 1) _ _ within there)

  -- A run of the dynamic diagnosis stops.
  abbrev pub Stops : Outcome w → Type 0
  Stops o =
      ((t : State w) × (o ≡ ended t) × IsWithin w t × IsConcluded w t)
      ⊎ ((n : Node) × (t : State w) × (o ≡ raised n t) × IsWithin w t × Raises w n t)

  -- If a run ends without an error, and its decision is that nothing blocks the order, then the
  -- order, its tasks and its delivery status are loaded and belong to the order, every task is
  -- completed, the delivery status holds no blocked record, and in what else is loaded every
  -- production step is completed, no quality issue is open or in processing, every review is
  -- approved, and every resolved issue has an approved review. Nothing is said of the status of
  -- the order itself, or of steps, issues and reviews that the run has not loaded.
  pub ainvoke-IsClear :
      (order : Text) (page : PageContext) (t : State w) (d : RuleDecision)
      → ainvoke w order page ≡ ended t
      → t.facts.errors ≡ []
      → t.rule_decision ≡ some d
      → d.blocking_stage ≡ nothing
      → (order_matches t.facts.order_id t.facts.order ≡ true)
        × (tasks_valid t.facts ≡ true)
        × (delivery_complete t.facts.order_id t.facts.delivery ≡ true)
        × IsClear t.facts
  ainvoke-IsClear order page t d h errors decided clear =
      let (within, concluded) : IsWithin w t × IsConcluded w t =
        subst (λ (o : Outcome w). Sound (recursion_limit - 1) (enough w) o) h
          (ainvoke-Sound order page) in
      let (no_error, gaps, rules, reported) = concluded.decided errors in
      let same_decision : evaluate_dynamic_diagnosis_rules t.facts ≡ d =
        some_injective (evaluate_dynamic_diagnosis_rules t.facts) d (sym rules ∙ decided) in
      let (none_failed, order_is, tasks_are, status_is, nothing_blocks) =
        dynamic-IsClear t.facts (is_some t.specification_result) gaps
          (ap (λ (x : RuleDecision). x.blocking_stage) same_decision ∙ clear) in
      (order_is, tasks_are, status_is, nothing_blocks)
