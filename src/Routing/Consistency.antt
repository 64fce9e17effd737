-- ===== src/Routing/Consistency.antt =====
-- On the result of a merge as the router's decision takes it (agent-service/app/routing/entity_merge.py,
-- agent-service/app/routing/decision.py).
use productline_agent.Base.{
  ◌≡◌, inl, inr, refl, sym, ap, ◌∙◌, true, Option, none, some, List, [], ◌∷◌, ◌++◌, Text, text_eq,
  All, any_of, trim, Bool-cases, Result, ok, err, ok_injective,
}
use mathlib.Core.Path.{subst}
use productline_agent.Base.Dict
use productline_agent.Base.Dict.{Dict, lookup-insert_cases}
use productline_agent.Base.Trim.{trim_idem}
use productline_agent.Routing.Entities.{
  RoutingEntityName, name_eq, EntitySource, SourcedEntity, RouterEntities, SessionContext,
  InvalidEntityCandidate, all_names, Candidates, candidates_of, or_empty, put, append_candidate,
  append_optional, append_entities, with_entity, same_entity, append_confirmed_session,
  append_session_candidates, validated_value, confirmed_entity, append_all, texts_or_empty,
  is_entity, name_value, user_message, confirmed_session, page_context, session_candidate, order_id,
  task_id,
}
use productline_agent.Routing.Merge.{if_given, collect}
use productline_agent.Routing.Collection.{Adding, Holds, Holds-ok, then_add-Holds, for_names-Holds}

-- The value satisfies the type of the field.
abbrev pub Fits : RoutingEntityName → SourcedEntity → Type 0
Fits n e = is_entity n (trim e.value) ≡ true

abbrev pub AllFit : Candidates → Type 0
AllFit cs = (n : RoutingEntityName) → All (Fits n) (candidates_of n cs)

All-last :
    (P : SourcedEntity → Type 0) (e : SourcedEntity) (es : List SourcedEntity)
    → All P es
    → P e
    → All P (es ++ (e ∷ []))
All-last P e [] h p = (p, tt)
All-last P e (x ∷ xs) h p = (h.0, All-last P e xs h.1 p)

with_entity-All :
    (P : SourcedEntity → Type 0) (e : SourcedEntity) (es : List SourcedEntity)
    → All P es
    → P e
    → All P (with_entity e es)
with_entity-All P e es h p = elim (Bool-cases (any_of (same_entity e) es)) [
  | inl listed ↦ rw listed h
  | inr new ↦ rw new (All-last P e es h p)
]

abbrev sourced : Text → EntitySource → SourcedEntity
sourced v source = record { value = v; source = source }

put-AllFit :
    (field : RoutingEntityName) (source : EntitySource) (cs : Candidates)
    (r : Result InvalidEntityCandidate Text)
    → ((v : Text) → r ≡ ok v → is_entity field (trim v) ≡ true)
    → AllFit cs
    → Holds AllFit (put field source cs r)
put-AllFit field source cs (err e) h fit = λ later k. cc
put-AllFit field source cs (ok v) h fit = Holds-ok AllFit _ (λ n.
    elim (lookup-insert_cases field n (with_entity (sourced v source) (candidates_of field cs))
      cs) [
        | inl (same, new) ↦
            subst (λ (o : Option (List SourcedEntity)). All (Fits n) (or_empty o)) (sym new)
              (subst
                (λ (m : RoutingEntityName).
                  All (Fits m) (with_entity (sourced v source) (candidates_of field cs)))
                same
                (with_entity-All (Fits field) (sourced v source) (candidates_of field cs)
                  (fit field) (h v refl)))
        | inr old ↦
            subst (λ (o : Option (List SourcedEntity)). All (Fits n) (or_empty o)) (sym old) (fit n)
      ])

validated_value-Fits :
    (field : RoutingEntityName) (value : Option Text) (source : EntitySource) (v : Text)
    → validated_value field value source ≡ ok v
    → is_entity field (trim v) ≡ true
unfolding validated_value
validated_value-Fits field none source v h = cc
validated_value-Fits field (some value) source v h =
    elim (Bool-cases (is_entity field (trim value))) [
      | inl valid ↦
          let same : trim value ≡ v = ok_injective (trim value) v (rw valid at h) in
          ap (λ (t : Text). is_entity field (trim t)) (sym same)
          ∙ ap (is_entity field) (trim_idem value)
          ∙ valid
      | inr invalid ↦ let wrong = rw invalid at h in absurd (cc wrong)
    ]

append_candidate-AllFit :
    (field : RoutingEntityName) (value : Option Text) (source : EntitySource) (cs : Candidates)
    → AllFit cs
    → Holds AllFit (append_candidate field value source cs)
unfolding append_candidate
append_candidate-AllFit field value source cs =
    put-AllFit field source cs (validated_value field value source)
      (validated_value-Fits field value source)

append_optional-AllFit :
    (field : RoutingEntityName) (value : Option Text) (source : EntitySource) (cs : Candidates)
    → AllFit cs
    → Holds AllFit (append_optional field value source cs)
append_optional-AllFit field none source cs fit = Holds-ok AllFit cs fit
append_optional-AllFit field (some v) source cs fit =
    append_candidate-AllFit field (some v) source cs fit

append_entities-AllFit :
    (entities : RouterEntities) (source : EntitySource) (cs : Candidates)
    → AllFit cs
    → Holds AllFit (append_entities entities source cs)
unfolding append_entities
append_entities-AllFit entities source cs fit =
    for_names-Holds AllFit _ all_names cs
      (λ m later h. append_optional-AllFit m (entities.of_name m) source later h) fit

confirmed_entity-AllFit :
    (n : RoutingEntityName) (v : Option (Option Text)) (cs : Candidates)
    → AllFit cs
    → Holds AllFit (confirmed_entity n v cs)
confirmed_entity-AllFit n none cs fit = Holds-ok AllFit cs fit
confirmed_entity-AllFit n (some v) cs fit = append_candidate-AllFit n v confirmed_session cs fit

append_confirmed_session-AllFit :
    (context : SessionContext) (cs : Candidates)
    → AllFit cs
    → Holds AllFit (append_confirmed_session context cs)
unfolding append_confirmed_session
append_confirmed_session-AllFit context cs fit =
    then_add-Holds AllFit AllFit _ _
      (then_add-Holds AllFit AllFit _ _
        (append_optional-AllFit order_id context.current_order_id confirmed_session cs fit)
        (λ later h.
          append_optional-AllFit task_id context.current_task_id confirmed_session later h))
      (λ later h.
        for_names-Holds AllFit _ all_names later
          (λ n l k.
            confirmed_entity-AllFit n (Dict.lookup (name_value n) context.confirmed_entities) l k)
          h)

append_all-AllFit :
    (n : RoutingEntityName) (vs : List Text) (cs : Candidates)
    → AllFit cs
    → Holds AllFit (append_all n vs cs)
append_all-AllFit n [] cs fit = Holds-ok AllFit cs fit
append_all-AllFit n (v ∷ vs) cs fit =
    then_add-Holds AllFit AllFit _ _ (append_candidate-AllFit n (some v) session_candidate cs fit)
      (λ later h. append_all-AllFit n vs later h)

append_session_candidates-AllFit :
    (context : SessionContext) (cs : Candidates)
    → AllFit cs
    → Holds AllFit (append_session_candidates context cs)
unfolding append_session_candidates
append_session_candidates-AllFit context cs fit =
    for_names-Holds AllFit _ all_names cs
      (λ n later h.
        append_all-AllFit n (texts_or_empty (Dict.lookup (name_value n) context.candidate_entities))
          later h)
      fit

if_given-AllFit :
    {A : Type 0} (o : Option A) (f : A → Candidates → Adding) (cs : Candidates)
    → ((a : A) (l : Candidates) → AllFit l → Holds AllFit (f a l))
    → AllFit cs
    → Holds AllFit (if_given o f cs)
if_given-AllFit none f cs k fit = Holds-ok AllFit cs fit
if_given-AllFit (some a) f cs k fit = k a cs fit

no_candidates : AllFit []
unfolding Dict.lookup
no_candidates n = tt

-- Every candidate that the sources bring satisfies the type of its field.
pub collect-AllFit :
    (extraction : RouterEntities) (page : Option RouterEntities) (session : Option SessionContext)
    → Holds AllFit (collect extraction page session)
unfolding collect
collect-AllFit extraction page session =
    then_add-Holds AllFit AllFit _ _
      (then_add-Holds AllFit AllFit _ _
        (then_add-Holds AllFit AllFit _ _
          (append_entities-AllFit extraction user_message [] no_candidates)
          (λ l h.
            if_given-AllFit session append_confirmed_session l append_confirmed_session-AllFit h))
        (λ l h.
          if_given-AllFit page (λ p. append_entities p page_context) l
            (λ p. append_entities-AllFit p page_context) h))
      (λ l h.
        if_given-AllFit session append_session_candidates l append_session_candidates-AllFit h)
