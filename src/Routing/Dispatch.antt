-- ===== src/Routing/Dispatch.antt =====
-- On when a decision is ready (agent-service/app/routing/decision.py).
use productline_agent.Base.{
  ◌≡◌, ◌≢◌, ◌⊎◌, ◌↔◌, inl, inr, refl, sym, ap, ◌∙◌, Bool, true, false, not, Option, none, some,
  List, [], ◌∷◌, All, keep_if, is_some, is_none, all_of, if◌then◌else◌, Bool-cases, ok, err, arith,
  ok_injective,
}
use productline_agent.Base.Dict
use productline_agent.Routing.Entities.{SourcedEntity, name_eq}
use productline_agent.Routing.Merge.{EntityMergeResult}
use productline_agent.Routing.Catalog.{
  Intent, unknown, order_query, order_diagnosis, task_tracking, spec_qa, review_generation,
  same_intent, RoutingParameter, parameter_field, required_parameters_for,
}
use productline_agent.Routing.Decision.{
  RoutingFault, Scale, ConfidenceLevel, ready, ClarificationRequest, missing_fields,
  confidence_level_for, RoutingDecision, validated, suffices, to_router_entities, stripped,
  is_valid_entity,
}
use productline_agent.Routing.Router.{choose_question, status_of, compose_decision}
use productline_agent.Routing.Questions.{and_then-eq-ok, IsClear, choose_question-none, no_question}

-- The parameters that an intent requires are there.
abbrev pub IsComplete : Intent → EntityMergeResult → Type 0
IsComplete intent m =
    All (λ p. is_some (Dict.lookup (parameter_field p) m.entities) ≡ true)
      (required_parameters_for intent)

none_stripped : (o : Option SourcedEntity) → is_none (stripped o) ≡ not (is_some o)
none_stripped none = refl
none_stripped (some e) = refl

keep_if_nil :
    {A : Type 0} (f g : A → Bool) (e : (a : A) → f a ≡ not (g a)) (xs : List A)
    → keep_if f xs ≡ []
    → All (λ x. g x ≡ true) xs
keep_if_nil f g e [] h = tt
keep_if_nil f g e (x ∷ xs) h = elim (Bool-cases (f x)) [
  | inl kept ↦ let wrong : x ∷ keep_if f xs ≡ [] = rw kept at h in absurd (cc wrong)
  | inr left ↦ (ground (arith, e x), keep_if_nil f g e xs (rw left at h))
]

nothing_kept :
    {A : Type 0} (f g : A → Bool) (e : (a : A) → f a ≡ not (g a)) (xs : List A)
    → All (λ x. g x ≡ true) xs
    → keep_if f xs ≡ []
nothing_kept f g e [] h = refl
nothing_kept f g e (x ∷ xs) h =
    let left : f x ≡ false = ground (arith, e x) in rw left (nothing_kept f g e xs h.1)

abbrev present : EntityMergeResult → RoutingParameter → Bool
present m p = is_some (Dict.lookup (parameter_field p) m.entities)

-- What `missing_fields` returns, if it returns.
missing_fields-eq-ok :
    (intent : Intent) (m : EntityMergeResult) (missing : List RoutingParameter)
    → missing_fields intent m ≡ ok missing
    → missing
      ≡ keep_if
          (λ p. is_none (stripped (Dict.lookup (parameter_field p) m.entities)))
          (required_parameters_for intent)
unfolding missing_fields to_router_entities
missing_fields-eq-ok intent m missing h = elim (Bool-cases (all_of is_valid_entity m.entities)) [
  | inl valid ↦ sym (ok_injective _ missing (rw valid at h))
  | inr invalid ↦ let wrong = rw invalid at h in absurd (cc wrong)
]

returned_same :
    {A : Type 0} (f : RoutingFault) (b : Bool) (x y : A)
    → (if b then ok x else err f) ≡ ok y
    → x ≡ y
returned_same f true x y h = ok_injective x y h
returned_same f false x y h = cc

ready_none : (o : Option ClarificationRequest) → status_of o ≡ ready → o ≡ none
ready_none none h = refl
ready_none (some c) h = cc

known_of : (intent : Intent) → same_intent intent unknown ≡ false → intent ≢ unknown
known_of intent h e = cc (h, ap (λ i. same_intent i unknown) e)

same_of : (intent : Intent) → intent ≢ unknown → same_intent intent unknown ≡ false
same_of unknown h = absurd (h refl)
same_of order_query h = refl
same_of order_diagnosis h = refl
same_of task_tracking h = refl
same_of spec_qa h = refl
same_of review_generation h = refl

module _ (scale : Scale) where
  open scale use {F, at_most, zero_, medium_confidence, high_confidence, one_}

  -- When a decision may be dispatched, by the intent, the confidence and the merged entities.
  pub record IsDispatchable (intent : Intent) (confidence : F) (m : EntityMergeResult)
      (requested confirmed : Bool) : Type 0 where
    pub known : intent ≢ unknown
    pub settled : m.unresolved_fields ≡ []
    pub complete : IsComplete intent m
    pub sure :
        (at_most high_confidence confidence ≡ true)
        ⊎ ((at_most medium_confidence confidence ≡ true) × (confirmed ≡ true))
    pub unasked : requested ≡ false

  -- What a composed decision is made of.
  pub record IsComposed (intent : Intent) (confidence : F) (m : EntityMergeResult)
      (requested confirmed : Bool) (d : RoutingDecision scale) : Type 0 where
    pub level : ConfidenceLevel
    pub level_is : confidence_level_for scale confidence ≡ ok level
    pub missing : List RoutingParameter
    pub missing_is : missing_fields intent m ≡ ok missing
    pub question : Option ClarificationRequest
    pub question_is : choose_question intent m missing level confirmed requested ≡ ok question
    pub decision_is : d ≡ record {
      intent = intent;
      confidence = confidence;
      confidence_level = level;
      entities = m;
      missing_fields = missing;
      status = status_of question;
      clarification = question;
      intent_confirmed = confirmed;
      model_requested_clarification = requested;
    }

  pub validated_same : (d e : RoutingDecision scale) → validated scale d ≡ ok e → d ≡ e
  unfolding validated
  validated_same d e h =
      let (merged, found, h1) = and_then-eq-ok (to_router_entities d.entities) _ e h in
      returned_same _ _ d e h1

  pub compose_decision-IsComposed :
      (intent : Intent) (confidence : F) (m : EntityMergeResult) (requested confirmed : Bool)
      (d : RoutingDecision scale)
      → compose_decision scale intent confidence m requested confirmed ≡ ok d
      → IsComposed intent confidence m requested confirmed d
  unfolding compose_decision
  compose_decision-IsComposed intent confidence m requested confirmed d h =
      let (level, level_is, h1) = and_then-eq-ok (confidence_level_for scale confidence) _ d h in
      let (missing, missing_is, h2) = and_then-eq-ok (missing_fields intent m) _ d h1 in
      let (question, question_is, h3) =
        and_then-eq-ok (choose_question intent m missing level confirmed requested) _ d h2 in
      record {
        level = level;
        level_is = level_is;
        missing = missing;
        missing_is = missing_is;
        question = question;
        question_is = question_is;
        decision_is = sym (validated_same _ d h3);
      }

  level_sure :
      (c : F) (level : ConfidenceLevel) (confirmed : Bool)
      → confidence_level_for scale c ≡ ok level
      → suffices level confirmed ≡ true
      → (at_most high_confidence c ≡ true)
        ⊎ ((at_most medium_confidence c ≡ true) × (confirmed ≡ true))
  unfolding confidence_level_for
  level_sure c level confirmed h sure = ground arith

  sure_level :
      (c : F) (level : ConfidenceLevel) (confirmed : Bool)
      → confidence_level_for scale c ≡ ok level
      → (at_most high_confidence c ≡ true)
        ⊎ ((at_most medium_confidence c ≡ true) × (confirmed ≡ true))
      → suffices level confirmed ≡ true
  unfolding confidence_level_for
  sure_level c level confirmed h sure = ground arith

  module _ (intent : Intent) (confidence : F) (m : EntityMergeResult) (requested confirmed : Bool)
      (d : RoutingDecision scale) where
    to_dispatchable :
        (c : IsComposed intent confidence m requested confirmed d)
        → IsClear intent m c.missing c.level confirmed requested
        → IsDispatchable intent confidence m requested confirmed
    to_dispatchable c clear = record {
      known = known_of intent clear.known;
      settled = clear.settled;
      complete =
          keep_if_nil _ (present m)
            (λ p. none_stripped (Dict.lookup (parameter_field p) m.entities))
            (required_parameters_for intent)
            (sym (missing_fields-eq-ok intent m c.missing c.missing_is) ∙ clear.complete);
      sure = level_sure confidence c.level confirmed c.level_is clear.sure;
      unasked = clear.unasked;
    }

    to_clear :
        (c : IsComposed intent confidence m requested confirmed d)
        → IsDispatchable intent confidence m requested confirmed
        → IsClear intent m c.missing c.level confirmed requested
    to_clear c h = record {
      known = same_of intent h.known;
      settled = h.settled;
      complete =
          missing_fields-eq-ok intent m c.missing c.missing_is
          ∙ nothing_kept _ (present m)
              (λ p. none_stripped (Dict.lookup (parameter_field p) m.entities))
              (required_parameters_for intent) h.complete;
      sure = sure_level confidence c.level confirmed c.level_is h.sure;
      unasked = h.unasked;
    }

    -- A composed decision is ready exactly when its intent is known, no field is unresolved, every
    -- parameter that the intent requires has an entity, the confidence is high, or at least medium
    -- and the user has confirmed the intent, and the model has asked for no clarification.
    pub compose_decision_ready :
        compose_decision scale intent confidence m requested confirmed ≡ ok d
        → (d.status ≡ ready) ↔ IsDispatchable intent confidence m requested confirmed
    compose_decision_ready h =
        let c = compose_decision-IsComposed intent confidence m requested confirmed d h in
        let status : d.status ≡ status_of c.question =
          ap (λ (x : RoutingDecision scale). x.status) c.decision_is in
        (
          λ e.
              let quiet : c.question ≡ none = ready_none c.question (sym status ∙ e) in
              to_dispatchable c (
                choose_question-none intent m c.missing c.level confirmed requested
                  (c.question_is ∙ ap (λ (o : Option ClarificationRequest). ok o) quiet)),
          λ e.
              let quiet : c.question ≡ none = ok_injective c.question none (
                sym c.question_is
                ∙ no_question intent m c.missing c.level confirmed requested (to_clear c e)) in
              status ∙ ap status_of quiet,
        )
