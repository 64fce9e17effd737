-- ===== src/Routing/Confirmable.antt =====
-- On the question that a user can confirm (agent-service/app/routing/decision.py).
use productline_agent.Base.{
  ◌≡◌, ◌≢◌, inl, inr, refl, sym, Bool, true, false, ◌&&◌, Option, none, some, List, [], ◌∷◌, Text,
  text_eq, Bool-cases, Result, ok, ok_injective,
}
use productline_agent.Base.Pattern.{length_between}
use productline_agent.Routing.Entities.{RoutingEntityName, name_eq, SourcedEntity}
use productline_agent.Routing.Merge.{EntityConflict, EntityMergeResult}
use productline_agent.Routing.Catalog.{Intent, unknown, same_intent, RoutingParameter}
use productline_agent.Routing.Decision.{
  RoutingFault, ConfidenceLevel, high, medium, low, ClarificationRequest, ClarificationReason,
  unknown_intent, entity_conflict, missing_parameter, low_confidence, confirm_intent, model_request,
  page_order_mismatch, clarify, is_payload, conflict_for,
}
use productline_agent.Routing.Router.{
  asked, ask_intent, ask_missing, ask_conflict, choose_question, asks_to_confirm,
}
use productline_agent.Routing.Questions.{and_then-eq-ok}

-- What a question that can be confirmed says of the decision.
pub record IsConfirmable (intent : Intent) (m : EntityMergeResult) (missing : List RoutingParameter)
    (level : ConfidenceLevel) (confirmed : Bool) : Type 0 where
  pub known : same_intent intent unknown ≡ false
  pub settled : m.unresolved_fields ≡ []
  pub complete : missing ≡ []
  pub medium_is : level ≡ medium

abbrev confirms : ClarificationReason → Bool
confirms confirm_intent = true
confirms _ = false

asked_reason :
    (reason : ClarificationReason) (question : Text) (field : Option RoutingEntityName)
    (options : List SourcedEntity) (q : Option ClarificationRequest)
    → asked (clarify reason question field options) ≡ ok q
    → asks_to_confirm q ≡ confirms reason
unfolding clarify
asked_reason reason question field options q h =
    elim (Bool-cases (length_between 1 512 question && is_payload reason field options)) [
      | inl valid ↦
          let same = ok_injective _ q (rw valid at h) in rw (sym same) (confirmed_reason reason)
      | inr invalid ↦ let wrong = rw invalid at h in absurd (cc wrong)
    ]
  where
    confirmed_reason :
        (r : ClarificationReason)
        → asks_to_confirm
            (some record { reason = r; question = question; field = field; options = options })
          ≡ confirms r
    confirmed_reason unknown_intent = refl
    confirmed_reason entity_conflict = refl
    confirmed_reason missing_parameter = refl
    confirmed_reason low_confidence = refl
    confirmed_reason confirm_intent = refl
    confirmed_reason model_request = refl
    confirmed_reason page_order_mismatch = refl

not_confirmed :
    (reason : ClarificationReason) (question : Text) (field : Option RoutingEntityName)
    (options : List SourcedEntity) (q : Option ClarificationRequest)
    → confirms reason ≡ false
    → asks_to_confirm q ≡ true
    → asked (clarify reason question field options) ≢ ok q
not_confirmed reason question field options q other asks h =
    cc (other, asks, asked_reason reason question field options q h)

ask_intent_confirms :
    (intent : Intent) (level : ConfidenceLevel) (confirmed requested : Bool)
    (q : Option ClarificationRequest)
    → ask_intent intent level confirmed requested ≡ ok q
    → asks_to_confirm q ≡ true
    → level ≡ medium
ask_intent_confirms intent medium confirmed requested q h asks = refl
ask_intent_confirms intent low confirmed requested q h asks =
    absurd (not_confirmed low_confidence _ none [] q refl asks h)
ask_intent_confirms intent high confirmed true q h asks =
    absurd (not_confirmed model_request _ none [] q refl asks h)
ask_intent_confirms intent high confirmed false q h asks =
    let same = ok_injective none q h in absurd (let wrong = rw (sym same) at asks in cc wrong)

ask_missing_confirms :
    (missing : List RoutingParameter) (next : Result RoutingFault (Option ClarificationRequest))
    (q : Option ClarificationRequest)
    → ask_missing missing next ≡ ok q
    → asks_to_confirm q ≡ true
    → (missing ≡ []) × (next ≡ ok q)
ask_missing_confirms [] next q h asks = (refl, h)
ask_missing_confirms (p ∷ ps) next q h asks =
    absurd (not_confirmed missing_parameter _ _ [] q refl asks h)

ask_conflict_confirms :
    (conflicts : List EntityConflict) (fields : List RoutingEntityName)
    (next : Result RoutingFault (Option ClarificationRequest)) (q : Option ClarificationRequest)
    → ask_conflict conflicts fields next ≡ ok q
    → asks_to_confirm q ≡ true
    → (fields ≡ []) × (next ≡ ok q)
ask_conflict_confirms conflicts [] next q h asks = (refl, h)
ask_conflict_confirms conflicts (n ∷ ns) next q h asks =
    let (c, found, e) = and_then-eq-ok (conflict_for conflicts n) _ q h in
    absurd (not_confirmed entity_conflict _ _ c.candidates q refl asks e)

pub choose_question-IsConfirmable :
    (intent : Intent) (m : EntityMergeResult) (missing : List RoutingParameter)
    (level : ConfidenceLevel) (confirmed requested : Bool) (q : Option ClarificationRequest)
    → choose_question intent m missing level confirmed requested ≡ ok q
    → asks_to_confirm q ≡ true
    → IsConfirmable intent m missing level confirmed
unfolding choose_question
choose_question-IsConfirmable intent m missing level confirmed requested q h asks =
    elim (Bool-cases (same_intent intent unknown)) [
      | inl lost ↦ absurd (not_confirmed unknown_intent _ none [] q refl asks (rw lost at h))
      | inr known ↦
          let (settled, h1) =
            ask_conflict_confirms m.conflicts m.unresolved_fields _ q (rw known at h) asks in
          let (complete, h2) = ask_missing_confirms missing _ q h1 asks in
          record {
            known = known;
            settled = settled;
            complete = complete;
            medium_is = ask_intent_confirms intent level confirmed requested q h2 asks;
          }
    ]
