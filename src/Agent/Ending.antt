-- ===== src/Agent/Ending.antt =====
-- On how the loop of the dynamic diagnosis ends (agent-service/app/workflows/dynamic_diagnosis.py).
use productline_agent.Base.{
  ◌≡◌, ◌≢◌, inl, inr, refl, ap, some, Result, err, ◌∙◌, true, false, none, List, [], ◌∷◌, trim, leb,
  non_empty, if◌then◌else◌, Bool-cases, arith,
}
use productline_agent.Base.Pattern.{is_order_id}
use productline_agent.Workflow.Facts.{InformationGap}
use mathlib.Core.Path.{subst}
use productline_agent.Workflow.Rules.{
  RuleDecision, evaluate_diagnosis_rules, evaluate_dynamic_diagnosis_rules,
}
use productline_agent.Workflow.Rules as Rules
use productline_agent.Workflow.Generation.{GenerationFault, DiagnosisResult}
use productline_agent.Workflow.Report.{generate_rule_diagnosis}
use productline_agent.Workflow.Reported.{IsReport, generated, generated_insufficient}
use productline_agent.Workflow.Gaps.{detect}
use productline_agent.Agent.Actions.{
  AgentTerminationReason, sufficient_information, insufficient_information, no_new_information,
  execution_error,
}
use productline_agent.Agent.State.{Wiring}
use productline_agent.Agent.Merging.{count_consecutive_no_new_information}
use productline_agent.Agent.Nodes.{State, gaps_of, with_gaps, ended_by}
use productline_agent.Agent.Effects.{
  ends_loop, completion, check_completion, generate_result, diagnosed, with_diagnosis,
  exceptional_finish,
}
use productline_agent.Agent.Graph.{
  at_plan, at_check, at_generate, at_exceptional, at_end, route, moved,
}
use productline_agent.Agent.Invariants.{
  IsWithin, IsReasoned, Lands, At, ahead, left, Goes, error_insufficient,
}
use productline_agent.Agent.Planning.{Goes-error, Goes-reason, Goes-next}

some_error : {A : Type 0} (xs : List A) → non_empty xs ≡ true → xs ≢ []
some_error [] h e = cc
some_error (x ∷ xs) h e = cc

no_element : {A : Type 0} (xs : List A) → non_empty xs ≡ false → xs ≡ []
no_element [] h = refl
no_element (x ∷ xs) h = cc

module _ (w : Wiring) where
  open w use {limits}

  -- The detector does not read the gaps that were found before.
  gaps_kept :
      (s : State w) (gaps : List InformationGap) → gaps_of w (with_gaps w s gaps) ≡ gaps_of w s
  unfolding detect
  gaps_kept s gaps = refl

  module _ (s : State w) (within : IsWithin w s) (reason : s.termination_reason ≡ none)
      (pending : s.pending_observation ≡ none) where
    abbrev gaps : List InformationGap
    gaps = gaps_of w s

    abbrev Completes : State w → Type 0
    Completes t = Goes w (ahead w at_check (left w s)) (route w at_plan t, t)

    reasoned :
        (r : AgentTerminationReason)
        → s.facts.errors ≡ []
        → r ≢ execution_error
        → (r ≡ sufficient_information → gaps ≡ [])
        → Completes (ended_by w (with_gaps w s gaps) r)
    reasoned r errors h k =
        Goes-reason w _ at_plan (ended_by w (with_gaps w s gaps) r)
          (record { rounds = within.rounds; calls = within.calls; once = within.once }) errors
          (record {
            reason = r;
            ended = refl;
            no_error = h;
            sufficient = λ e. gaps_kept s gaps ∙ k e;
          })
          (omega arith)

    last_reason :
        s.facts.errors ≡ []
        → Completes (
            ended_by w
              (with_gaps w s gaps)
              (if non_empty gaps then insufficient_information else sufficient_information))
    last_reason errors = elim (Bool-cases (non_empty gaps)) [
      | inl lacking ↦
          rw lacking (reasoned insufficient_information errors (λ e. cc e) (λ e. absurd (cc e)))
      | inr full ↦
          rw full (reasoned sufficient_information errors (λ e. cc e) (λ e. no_element gaps full))
    ]

    going_on : s.facts.errors ≡ [] → Completes (with_gaps w s gaps)
    going_on errors =
        Goes-next w _ at_plan (with_gaps w s gaps)
          (record { rounds = within.rounds; calls = within.calls; once = within.once }) errors
          reason (errors, reason, pending) (omega arith)

    completion-Completes : Completes (completion w s gaps)
    completion-Completes = elim (Bool-cases (non_empty s.facts.errors)) [
      | inl broken ↦ rw broken (
          Goes-error w _ at_plan (ended_by w (with_gaps w s gaps) execution_error)
            (record { rounds = within.rounds; calls = within.calls; once = within.once })
            (some_error s.facts.errors broken) (omega arith))
      | inr sound ↦
          let errors = no_element s.facts.errors sound in
          elim (Bool-cases (ends_loop w s.current_decision)) [
            | inl last ↦ rw sound (rw last (last_reason errors))
            | inr more ↦
                elim (Bool-cases (
                  leb limits.max_consecutive_no_new_information
                    (count_consecutive_no_new_information s.tool_history))) [
                      | inl stale ↦ rw sound (
                          rw more (
                            rw stale (
                              reasoned no_new_information errors (λ e. cc e) (λ e. absurd (cc e)))))
                      | inr fresh ↦ rw sound (rw more (rw fresh (going_on errors)))
                    ]
          ]
    ]

  pub check-Goes :
      (s : State w)
      → IsWithin w s
      → At w at_check s
      → Goes w
          (ahead w at_check (left w s))
          (route w at_plan (check_completion w s), check_completion w s)
  unfolding check_completion
  check-Goes s within (reason, pending) = completion-Completes s within reason pending

  -- With a gap, the decision is that information is insufficient.
  gap_insufficient :
      (s : State w) (gaps : List InformationGap)
      → non_empty gaps ≡ true
      → (evaluate_dynamic_diagnosis_rules (with_gaps w s gaps).facts).blocking_stage
        ≡ Rules.insufficient_information
  unfolding evaluate_dynamic_diagnosis_rules
  gap_insufficient s gaps h = rw h (elim (Bool-cases (non_empty s.facts.errors)) [
    | inl broken ↦ rw broken refl
    | inr sound ↦ rw sound refl
  ])

  module _ (s : State w) (within : IsWithin w s) (errors : s.facts.errors ≡ [])
      (r : IsReasoned w s) where
    abbrev with_result : RuleDecision → DiagnosisResult → State w
    with_result d x = record (with_gaps w s (gaps_of w s)) {
      rule_decision = some d;
      diagnosis = some x;
    }

    reported-Goes :
        (x : DiagnosisResult)
        → IsReport (evaluate_dynamic_diagnosis_rules (with_gaps w s (gaps_of w s)).facts) x
        → Goes w (ahead w at_generate (left w s)) (
          at_end,
          with_result (evaluate_dynamic_diagnosis_rules (with_gaps w s (gaps_of w s)).facts) x,
        )
    unfolding detect
    reported-Goes x h = record {
      within = record { rounds = within.rounds; calls = within.calls; once = within.once };
      there = record {
        reason = r.reason;
        ended = r.ended;
        broken = λ h. absurd (h errors);
        decided = λ k. (r.no_error, refl, refl, (x, refl, h));
        sufficient = r.sufficient;
      };
      nearer = omega arith;
    }

    diagnosed-Lands : Lands w at_generate s (
        moved w at_end (
          with_diagnosis w
            (with_gaps w s (gaps_of w s))
            (evaluate_dynamic_diagnosis_rules (with_gaps w s (gaps_of w s)).facts)))
    diagnosed-Lands =
        let t = with_gaps w s (gaps_of w s) in
        let d = evaluate_dynamic_diagnosis_rules t.facts in
        elim (generated t.facts d) [
          | inl (x, made, h) ↦ inl (
            (at_end, with_result d x),
            ap (λ (o : Result GenerationFault DiagnosisResult). moved w at_end (diagnosed w t d o))
                made,
            reported-Goes x h,
          )
          | inr (fault, failed) ↦ elim (Bool-cases (non_empty (gaps_of w s))) [
            | inl lacking ↦
                let (x, made, h) =
                  generated_insufficient t.facts d (gap_insufficient s (gaps_of w s) lacking) in
                absurd (cc (made, failed))
            | inr full ↦
                let none_left : gaps_of w s ≡ [] = no_element (gaps_of w s) full in
                inr (
                  ap
                      (λ (o : Result GenerationFault DiagnosisResult).
                        moved w at_end (diagnosed w t d o))
                      failed,
                  (
                    none_left,
                    (
                      fault,
                      subst
                          (λ (gaps : List InformationGap).
                            generate_rule_diagnosis (with_gaps w s gaps).facts
                              (evaluate_dynamic_diagnosis_rules (with_gaps w s gaps).facts)
                            ≡ err fault)
                          none_left failed,
                    ),
                  ),
                )
          ]
        ]

  pub generate-Lands :
      (s : State w)
      → IsWithin w s
      → At w at_generate s
      → Lands w at_generate s (moved w at_end (generate_result w s))
  unfolding generate_result
  generate-Lands s within (errors, r) = diagnosed-Lands s within errors r

  invalid_order :
      (s : State w)
      → IsWithin w s
      → At w at_exceptional s
      → is_order_id (trim s.facts.order_id) ≡ false
      → Goes w (ahead w at_exceptional (left w s)) (at_end, ended_by w s execution_error)
  invalid_order s within broken invalid = record {
    within = record { rounds = within.rounds; calls = within.calls; once = within.once };
    there = record {
      reason = execution_error;
      ended = refl;
      broken = λ h. (refl, λ v. absurd (cc (invalid, v)));
      decided = λ h. absurd (broken h);
      sufficient = λ e. absurd (cc e);
    };
    nearer = omega arith;
  }

  -- After an error the end always has a diagnosis, if the order is valid.
  pub exceptional-Lands :
      (s : State w)
      → IsWithin w s
      → At w at_exceptional s
      → Lands w at_exceptional s (moved w at_end (exceptional_finish w s))
  unfolding exceptional_finish
  exceptional-Lands s within broken = elim (Bool-cases (is_order_id (trim s.facts.order_id))) [
    | inl valid ↦
        let t = ended_by w s execution_error in
        let d = evaluate_diagnosis_rules s.facts in
        let (x, made, h) = generated_insufficient s.facts d (error_insufficient w s broken) in
        rw valid (
          inl (
            (at_end, record t { rule_decision = some d; diagnosis = some x }),
            ap (λ (o : Result GenerationFault DiagnosisResult). moved w at_end (diagnosed w t d o))
                made,
            record {
              within = record { rounds = within.rounds; calls = within.calls; once = within.once };
              there = record {
                reason = execution_error;
                ended = refl;
                broken = λ k. (refl, λ v. (d, refl, error_insufficient w s broken, (x, refl, h)));
                decided = λ h. absurd (broken h);
                sufficient = λ e. absurd (cc e);
              };
              nearer = omega arith;
            },
          ))
    | inr invalid ↦
        rw invalid (
          inl ((at_end, ended_by w s execution_error), refl, invalid_order s within broken invalid))
  ]
