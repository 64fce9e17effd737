-- ===== src/Routing/Confirmation.antt =====
-- On the confirmation of an intent and of the page (agent-service/app/routing/decision.py).
use productline_agent.Base.{
  ◌≡◌, ◌≢◌, ◌↔◌, inl, inr, sym, ap, ◌∙◌, Bool, true, false, not, ◌&&◌, ◌||◌, Option, none, some,
  List, [], Text, text_eq, ◌==◌, eq_iff, Bool-cases, Result, ok, ok_injective,
}
use productline_agent.Base.Dict
use productline_agent.Routing.Entities.{order_id, name_eq, SourcedEntity}
use productline_agent.Routing.Merge.{EntityMergeResult}
use productline_agent.Routing.Catalog.{Intent, order_diagnosis, same_intent, RoutingParameter}
use productline_agent.Routing.Decision.{
  RoutingFault, Scale, ConfidenceLevel, RoutingDecisionStatus, ready, needs_clarification,
  page_order_mismatch, clarify, missing_fields, confidence_level_for, RoutingDecision, suffices,
}
use productline_agent.Routing.Router.{
  choose_question, status_of, compose_decision, asks_to_confirm, confirm_routing_intent, is_pending,
  ask_switch, require_matching_diagnosis_page, mismatch_question,
}
use productline_agent.Routing.Questions.{and_then-eq-ok, no_question}
use productline_agent.Routing.Dispatch.{
  IsComposed, compose_decision-IsComposed, compose_decision_ready, validated_same,
}
use productline_agent.Routing.Totality.{IsConsistent, compose_decision_total}
use productline_agent.Routing.Confirmable.{choose_question-IsConfirmable}

question_ready : (r : RoutingDecisionStatus) → needs_clarification ≡ r → r ≢ ready
question_ready r e h = cc

abbrev value_of : Option SourcedEntity → Text
value_of none = []
value_of (some e) = e.value

module _ (scale : Scale) where
  open scale use {F, at_most, zero_, one_}

  switch_settled :
      (decision d : RoutingDecision scale) (page : Text) (o : Option SourcedEntity)
      → ask_switch scale decision page o ≡ ok d
      → d.status ≡ ready
      → (d ≡ decision) × ((target : SourcedEntity) → o ≡ some target → target.value ≡ page)
  switch_settled decision d page none h r =
      (sym (ok_injective decision d h), λ target e. absurd (cc e))
  switch_settled decision d page (some t) h r = elim (Bool-cases (t.value == page)) [
    | inl same ↦ (
      sym (ok_injective decision d (rw same at h)),
      λ target e. ap value_of (sym e) ∙ (eq_iff t.value page).0 same,
    )
    | inr other ↦
        let (question, clarified, v) =
          and_then-eq-ok
            (clarify page_order_mismatch (mismatch_question t.value page) (some order_id) _) _ d
            (rw other at h) in
        absurd (
          question_ready d.status
            (ap (λ (x : RoutingDecision scale). x.status) (validated_same scale _ d v)) r)
  ]

  abbrev stays : RoutingDecision scale → Bool
  stays decision = is_pending decision.status || not (same_intent decision.intent order_diagnosis)

  stays_apart :
      (d : RoutingDecision scale) → d.intent ≡ order_diagnosis → d.status ≡ ready → stays d ≡ false
  stays_apart d i r =
      ap (λ s. is_pending s || not (same_intent d.intent order_diagnosis)) r
      ∙ ap (λ j. not (same_intent j order_diagnosis)) i

  -- If the comparison with the page's order returns a decision that is ready for a diagnosis and
  -- whose entities name an order, then it is the decision that was compared, and that order is the
  -- page's.
  pub require_matching_diagnosis_page_ready :
      (decision d : RoutingDecision scale) (page : Text) (target : SourcedEntity)
      → require_matching_diagnosis_page scale decision (some page) ≡ ok d
      → d.status ≡ ready
      → d.intent ≡ order_diagnosis
      → Dict.lookup order_id d.entities.entities ≡ some target
      → (d ≡ decision) × (target.value ≡ page)
  unfolding require_matching_diagnosis_page
  require_matching_diagnosis_page_ready decision d page target h r i named =
      elim (Bool-cases (stays decision)) [
        | inl staying ↦
            let same : decision ≡ d = ok_injective decision d (rw staying at h) in
            absurd (cc (staying, ap stays same, stays_apart d i r))
        | inr compared ↦
            let (same, settled) =
              switch_settled decision d page (Dict.lookup order_id decision.entities.entities)
                (rw compared at h) r in
            (
              same,
              settled target (
                  ap (λ (x : RoutingDecision scale). Dict.lookup order_id x.entities.entities)
                    (sym same)
                  ∙ named),
            )
      ]

  module _ (intent : Intent) (confidence : F) (m : EntityMergeResult) (requested : Bool)
      (pending : RoutingDecision scale) where
    confirmed_quiet :
        IsComposed scale intent confidence m requested false pending
        → asks_to_confirm pending.clarification ≡ true
        → (level : ConfidenceLevel) (missing : List RoutingParameter)
        → confidence_level_for scale confidence ≡ ok level
        → missing_fields intent m ≡ ok missing
        → requested ≡ false
        → choose_question intent m missing level true requested ≡ ok none
    confirmed_quiet c asks level missing level_is missing_is unasked =
        let k =
          choose_question-IsConfirmable intent m c.missing c.level false requested c.question
            c.question_is
            (ap (λ (x : RoutingDecision scale). asks_to_confirm x.clarification) (sym c.decision_is)
              ∙ asks) in
        let same_level : c.level ≡ level = ok_injective c.level level (sym c.level_is ∙ level_is) in
        let same_missing : c.missing ≡ missing =
          ok_injective c.missing missing (sym c.missing_is ∙ missing_is) in
        no_question intent m missing level true requested (record {
          known = k.known;
          settled = k.settled;
          complete = sym same_missing ∙ k.complete;
          sure = ap (λ l. suffices l true) (sym same_level ∙ k.medium_is);
          unasked = unasked;
        })

    -- When a composed decision waits for the user to confirm its intent, its confidence lies
    -- between 0 and 1, and its entities are consistent, the confirmation returns a decision with
    -- the same intent and entities, and that decision is ready exactly when the model had asked
    -- for no clarification itself: whatever else was needed is already there.
    pub confirm_routing_intent_ready :
        (at_most zero_ confidence && at_most confidence one_) ≡ true
        → IsConsistent m
        → compose_decision scale intent confidence m requested false ≡ ok pending
        → asks_to_confirm pending.clarification ≡ true
        → (d : RoutingDecision scale) × (confirm_routing_intent scale pending ≡ ok d)
          × (d.intent ≡ pending.intent)
          × (d.entities ≡ pending.entities)
          × ((d.status ≡ ready) ↔ (requested ≡ false))
    unfolding confirm_routing_intent
    confirm_routing_intent_ready bounded consistent composed asks =
        let c =
          compose_decision-IsComposed scale intent confidence m requested false pending composed in
        let (d, made) =
          compose_decision_total scale intent confidence m requested true bounded consistent in
        let e = compose_decision-IsComposed scale intent confidence m requested true d made in
        let f : RoutingDecision scale → Result RoutingFault (RoutingDecision scale) = λ x.
          compose_decision scale x.intent x.confidence x.entities x.model_requested_clarification
            true in
        (
          d,
          rw asks (ap f c.decision_is ∙ made),
          ap (λ (x : RoutingDecision scale). x.intent) (e.decision_is)
              ∙ ap (λ (x : RoutingDecision scale). x.intent) (sym c.decision_is),
          ap (λ (x : RoutingDecision scale). x.entities) (e.decision_is)
              ∙ ap (λ (x : RoutingDecision scale). x.entities) (sym c.decision_is),
          (
            λ r.
                ((compose_decision_ready scale intent confidence m requested true d made).0
                  r).unasked,
            λ u.
                ap (λ (x : RoutingDecision scale). x.status) e.decision_is
                ∙ ap status_of (
                    ok_injective e.question none (
                      sym e.question_is
                      ∙ confirmed_quiet c asks e.level e.missing e.level_is e.missing_is u)),
          ),
        )
