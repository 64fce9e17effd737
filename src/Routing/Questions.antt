-- ===== src/Routing/Questions.antt =====
-- On the questions that a decision asks (agent-service/app/routing/decision.py).
use productline_agent.Base.{
  ◌≡◌, ◌≢◌, inl, inr, refl, Bool, true, false, Option, none, List, [], ◌∷◌, Bool-cases, Result, ok,
  err,
}
use productline_agent.Routing.Entities.{RoutingEntityName, name_eq}
use productline_agent.Routing.Merge.{EntityConflict, EntityMergeResult}
use productline_agent.Routing.Catalog.{Intent, unknown, same_intent, RoutingParameter}
use productline_agent.Routing.Decision.{
  RoutingFault, and_then, ConfidenceLevel, high, medium, low, ClarificationRequest, conflict_for,
  suffices,
}
use productline_agent.Routing.Router.{asked, ask_intent, ask_missing, ask_conflict, choose_question}

pub and_then-eq-ok :
    {A B : Type 0} (r : Result RoutingFault A) (f : A → Result RoutingFault B) (b : B)
    → and_then r f ≡ ok b
    → (a : A) × (r ≡ ok a) × (f a ≡ ok b)
and_then-eq-ok (ok a) f b h = (a, refl, h)
and_then-eq-ok (err e) f b h = cc

asked-ne-none : (r : Result RoutingFault ClarificationRequest) → asked r ≢ ok none
asked-ne-none (ok c) h = cc
asked-ne-none (err e) h = cc

-- Nothing is to be asked.
pub record IsClear (intent : Intent) (m : EntityMergeResult) (missing : List RoutingParameter)
    (level : ConfidenceLevel) (confirmed requested : Bool) : Type 0 where
  pub known : same_intent intent unknown ≡ false
  pub settled : m.unresolved_fields ≡ []
  pub complete : missing ≡ []
  pub sure : suffices level confirmed ≡ true
  pub unasked : requested ≡ false

ask_intent-none :
    (intent : Intent) (level : ConfidenceLevel) (confirmed requested : Bool)
    → ask_intent intent level confirmed requested ≡ ok none
    → (suffices level confirmed ≡ true) × (requested ≡ false)
ask_intent-none intent low confirmed requested h = absurd (asked-ne-none _ h)
ask_intent-none intent medium false requested h = absurd (asked-ne-none _ h)
ask_intent-none intent medium true true h = absurd (asked-ne-none _ h)
ask_intent-none intent high confirmed true h = absurd (asked-ne-none _ h)
ask_intent-none intent medium true false h = (refl, refl)
ask_intent-none intent high confirmed false h = (refl, refl)

no_intent_question :
    (intent : Intent) (level : ConfidenceLevel) (confirmed : Bool)
    → suffices level confirmed ≡ true
    → ask_intent intent level confirmed false ≡ ok none
no_intent_question intent high confirmed h = refl
no_intent_question intent medium true h = refl
no_intent_question intent medium false h = cc
no_intent_question intent low confirmed h = cc

ask_missing-none :
    (missing : List RoutingParameter) (next : Result RoutingFault (Option ClarificationRequest))
    → ask_missing missing next ≡ ok none
    → (missing ≡ []) × (next ≡ ok none)
ask_missing-none [] next h = (refl, h)
ask_missing-none (p ∷ ps) next h = absurd (asked-ne-none _ h)

ask_conflict-none :
    (conflicts : List EntityConflict) (fields : List RoutingEntityName)
    (next : Result RoutingFault (Option ClarificationRequest))
    → ask_conflict conflicts fields next ≡ ok none
    → (fields ≡ []) × (next ≡ ok none)
ask_conflict-none conflicts [] next h = (refl, h)
ask_conflict-none conflicts (n ∷ ns) next h =
    let (c, found, e) = and_then-eq-ok (conflict_for conflicts n) _ none h in
    absurd (asked-ne-none _ e)

pub choose_question-none :
    (intent : Intent) (m : EntityMergeResult) (missing : List RoutingParameter)
    (level : ConfidenceLevel) (confirmed requested : Bool)
    → choose_question intent m missing level confirmed requested ≡ ok none
    → IsClear intent m missing level confirmed requested
unfolding choose_question
choose_question-none intent m missing level confirmed requested h =
    elim (Bool-cases (same_intent intent unknown)) [
      | inl lost ↦ absurd (asked-ne-none _ (rw lost at h))
      | inr known ↦
          let (settled, h1) = ask_conflict-none m.conflicts m.unresolved_fields _ (rw known at h) in
          let (complete, h2) = ask_missing-none missing _ h1 in
          let (sure, unasked) = ask_intent-none intent level confirmed requested h2 in
          record {
            known = known;
            settled = settled;
            complete = complete;
            sure = sure;
            unasked = unasked;
          }
    ]

pub no_question :
    (intent : Intent) (m : EntityMergeResult) (missing : List RoutingParameter)
    (level : ConfidenceLevel) (confirmed requested : Bool)
    → IsClear intent m missing level confirmed requested
    → choose_question intent m missing level confirmed requested ≡ ok none
unfolding choose_question
no_question intent m missing level confirmed requested c =
    rw c.known (
      rw c.settled
        (rw c.complete (rw c.unasked (no_intent_question intent level confirmed c.sure))))
