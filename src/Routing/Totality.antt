-- ===== src/Routing/Totality.antt =====
-- On decisions that are always made (agent-service/app/routing/decision.py): the validators of the
-- schemas, over what the router itself puts together.
use productline_agent.Base.{
  ◌≡◌, inl, inr, refl, ap, ◌∙◌, Bool, true, false, ◌&&◌, Option, none, some, List, [], ◌∷◌, Text,
  All, is_some, all_of, if◌then◌else◌, Bool-cases, Result, ok, length, ltb,
}
use productline_agent.Base.Dict
use productline_agent.Base.Pattern.{length_between}
use productline_agent.Routing.Entities.{
  RoutingEntityName, SourcedEntity, RouterEntities, order_id, task_id, issue_id, batch_id,
  product_type, satellite_type, name_eq,
}
use productline_agent.Routing.Merge.{EntityConflict, EntityMergeResult}
use productline_agent.Routing.Catalog.{
  Intent, unknown, order_query, order_diagnosis, task_tracking, spec_qa, review_generation,
  same_intent, RoutingParameter, order_parameter, task_parameter, parameter_field, skill_for_intent,
}
use productline_agent.Routing.Decision.{
  RoutingFault, Scale, ConfidenceLevel, high, medium, low, ClarificationRequest,
  ClarificationReason, entity_conflict, missing_parameter, confirm_intent, clarify, is_payload,
  missing_fields, conflict_for, confidence_level_for, RoutingDecision, validated,
  to_router_entities, stripped, lacking, meets_status, same_parameters, is_valid_entity,
  missing_question, conflict_question, confirm_question,
}
use productline_agent.Routing.Router.{
  asked, ask_intent, ask_missing, ask_conflict, choose_question, status_of, compose_decision,
}
use productline_agent.Routing.Questions.{IsClear, choose_question-none}

-- An unresolved field has a recorded conflict with a choice.
abbrev pub HasConflict : List EntityConflict → RoutingEntityName → Type 0
HasConflict cs n =
    (c : EntityConflict) × (conflict_for cs n ≡ ok c) × (ltb 1 (length c.candidates) ≡ true)

pub record IsConsistent (m : EntityMergeResult) : Type 0 where
  pub valid : all_of is_valid_entity m.entities ≡ true
  pub rivals : All (HasConflict m.conflicts) m.unresolved_fields

abbrev Succeeds : {A : Type 0} → Result RoutingFault A → Type 0
Succeeds {A} r = (a : A) × (r ≡ ok a)

clarified :
    (reason : ClarificationReason) (question : Text) (field : Option RoutingEntityName)
    (options : List SourcedEntity)
    → length_between 1 512 question ≡ true
    → is_payload reason field options ≡ true
    → Succeeds (asked (clarify reason question field options))
unfolding clarify
clarified reason question field options long payload = (
  some record { reason = reason; question = question; field = field; options = options },
  rw (long, payload) refl,
)

confirm_question_fits : (intent : Intent) → length_between 1 512 (confirm_question intent) ≡ true
confirm_question_fits unknown = refl
confirm_question_fits order_query = refl
confirm_question_fits order_diagnosis = refl
confirm_question_fits task_tracking = refl
confirm_question_fits spec_qa = refl
confirm_question_fits review_generation = refl

conflict_question_fits : (n : RoutingEntityName) → length_between 1 512 (conflict_question n) ≡ true
conflict_question_fits order_id = refl
conflict_question_fits task_id = refl
conflict_question_fits issue_id = refl
conflict_question_fits batch_id = refl
conflict_question_fits product_type = refl
conflict_question_fits satellite_type = refl

missing_question_fits : (p : RoutingParameter) → length_between 1 512 (missing_question p) ≡ true
missing_question_fits order_parameter = refl
missing_question_fits task_parameter = refl

ask_intent_total :
    (intent : Intent) (level : ConfidenceLevel) (confirmed requested : Bool)
    → Succeeds (ask_intent intent level confirmed requested)
ask_intent_total intent low confirmed requested = clarified _ _ none [] refl refl
ask_intent_total intent medium false requested =
    clarified confirm_intent (confirm_question intent) none [] (confirm_question_fits intent) refl
ask_intent_total intent medium true true = clarified _ _ none [] refl refl
ask_intent_total intent high confirmed true = clarified _ _ none [] refl refl
ask_intent_total intent medium true false = (none, refl)
ask_intent_total intent high confirmed false = (none, refl)

ask_missing_total :
    (missing : List RoutingParameter) (next : Result RoutingFault (Option ClarificationRequest))
    → Succeeds next
    → Succeeds (ask_missing missing next)
ask_missing_total [] next h = h
ask_missing_total (p ∷ ps) next h =
    clarified missing_parameter (missing_question p) (some (parameter_field p)) []
      (missing_question_fits p) refl

ask_conflict_total :
    (cs : List EntityConflict) (fields : List RoutingEntityName)
    (next : Result RoutingFault (Option ClarificationRequest))
    → All (HasConflict cs) fields
    → Succeeds next
    → Succeeds (ask_conflict cs fields next)
ask_conflict_total cs [] next all h = h
ask_conflict_total cs (n ∷ ns) next all h =
    let (c, found, several) = all.0 in
    rw found (
      clarified entity_conflict (conflict_question n) (some n) c.candidates
        (conflict_question_fits n) several)

choose_question_total :
    (intent : Intent) (m : EntityMergeResult) (missing : List RoutingParameter)
    (level : ConfidenceLevel) (confirmed requested : Bool)
    → IsConsistent m
    → Succeeds (choose_question intent m missing level confirmed requested)
unfolding choose_question
choose_question_total intent m missing level confirmed requested c =
    elim (Bool-cases (same_intent intent unknown)) [
      | inl lost ↦ rw lost (clarified _ _ none [] refl refl)
      | inr known ↦ rw known (
          ask_conflict_total m.conflicts m.unresolved_fields _ c.rivals
            (ask_missing_total missing _ (ask_intent_total intent level confirmed requested)))
    ]

same_parameters_self : (ps : List RoutingParameter) → same_parameters ps ps ≡ true
same_parameters_self [] = refl
same_parameters_self (order_parameter ∷ ps) = same_parameters_self ps
same_parameters_self (task_parameter ∷ ps) = same_parameters_self ps

has_skill :
    (intent : Intent)
    → same_intent intent unknown ≡ false
    → is_some (skill_for_intent intent) ≡ true
has_skill unknown h = cc
has_skill order_query h = refl
has_skill order_diagnosis h = refl
has_skill task_tracking h = refl
has_skill spec_qa h = refl
has_skill review_generation h = refl

router_entities_total :
    (m : EntityMergeResult)
    → all_of is_valid_entity m.entities ≡ true
    → Succeeds (to_router_entities m)
unfolding to_router_entities
router_entities_total m valid =
    (record { of_name = λ n. stripped (Dict.lookup n m.entities) }, rw valid refl)

missing_fields_total :
    (intent : Intent) (m : EntityMergeResult) (merged : RouterEntities)
    → to_router_entities m ≡ ok merged
    → missing_fields intent m ≡ ok (lacking intent merged)
unfolding missing_fields
missing_fields_total intent m merged found = rw found refl

both : (a b : Bool) → (a && b) ≡ true → (a ≡ true) × (b ≡ true)
both true b h = (refl, h)
both false b h = absurd (cc h)

module _ (scale : Scale) where
  open scale use {F, at_most, zero_, medium_confidence, high_confidence, one_}

  abbrev pub Composed : Intent → F → EntityMergeResult → Bool → Bool → Type 0
  Composed intent confidence m requested confirmed =
      (d : RoutingDecision scale) × (compose_decision scale intent confidence m requested confirmed
        ≡ ok d)

  level_total :
      (c : F) → (at_most zero_ c && at_most c one_) ≡ true → Succeeds (confidence_level_for scale c)
  unfolding confidence_level_for
  level_total c h = (
    if at_most high_confidence c then high else if at_most medium_confidence c then medium else low,
    rw h refl,
  )

  -- The validator accepts what the router puts together.
  meets :
      (question : Option ClarificationRequest) (d : RoutingDecision scale)
      → d.status ≡ status_of question
      → d.clarification ≡ question
      → (question ≡ none
          → IsClear d.intent d.entities d.missing_fields d.confidence_level d.intent_confirmed
              d.model_requested_clarification)
      → meets_status scale d.status d ≡ true
  meets (some q) d s c k = rw s (rw c refl)
  meets none d s c k =
      let clear = k refl in
      let skilled = has_skill d.intent clear.known in
      rw s (rw (c, skilled, clear.complete, clear.settled, clear.sure, clear.unasked) refl)

  validated_total :
      (d : RoutingDecision scale) (merged : RouterEntities)
      → (at_most zero_ d.confidence && at_most d.confidence one_) ≡ true
      → to_router_entities d.entities ≡ ok merged
      → d.missing_fields ≡ lacking d.intent merged
      → meets_status scale d.status d ≡ true
      → validated scale d ≡ ok d
  unfolding validated
  validated_total d merged bounded found missing m =
      let same : same_parameters d.missing_fields (lacking d.intent merged) ≡ true =
        ap (λ (ps : List RoutingParameter). same_parameters ps (lacking d.intent merged)) missing
        ∙ same_parameters_self (lacking d.intent merged) in
      let (above, below) = both (at_most zero_ d.confidence) (at_most d.confidence one_) bounded in
      rw found (rw (above, below, same, m) refl)

  pub compose_decision_total :
      (intent : Intent) (confidence : F) (m : EntityMergeResult) (requested confirmed : Bool)
      → (at_most zero_ confidence && at_most confidence one_) ≡ true
      → IsConsistent m
      → Composed intent confidence m requested confirmed
  unfolding compose_decision
  compose_decision_total intent confidence m requested confirmed h c =
      let (level, level_is) = level_total confidence h in
      let (merged, found) = router_entities_total m c.valid in
      let (question, question_is) =
        choose_question_total intent m (lacking intent merged) level confirmed requested c in
      let d : RoutingDecision scale = record {
        intent = intent;
        confidence = confidence;
        confidence_level = level;
        entities = m;
        missing_fields = lacking intent merged;
        status = status_of question;
        clarification = question;
        intent_confirmed = confirmed;
        model_requested_clarification = requested;
      } in
      let quiet : question ≡ none
          → IsClear intent m (lacking intent merged) level confirmed requested =
        λ e.
          choose_question-none intent m (lacking intent merged) level confirmed requested
            (question_is ∙ ap (λ (o : Option ClarificationRequest). ok o) e) in
      (
        d,
        rw level_is (
            rw (missing_fields_total intent m merged found) (
              rw question_is
                (validated_total d merged h found refl (meets question d refl refl quiet)))),
      )
