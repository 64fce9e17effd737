-- ===== src/Routing/DecisionTests.antt =====
-- Decisions on an order that the message leaves open, on a confidence in hundredths.
use productline_agent.Base.{
  ℕ, ◌≡◌, refl, false, none, some, [], ◌∷◌, Text, codes, text_beq, ok, trim, is_white, leb, ◌↔◌,
  true, Option,
}
use productline_agent.Base.Dict
use productline_agent.Base.Sorting.{sorted, text_leb}
use productline_agent.Base.Pattern.{is_order_id}
use productline_agent.Routing.Entities.{
  is_entity, order_id, name_eq, RouterEntities, SessionContext, SourcedEntity, user_message,
  session_candidate,
}
use productline_agent.Routing.Merge.{EntityConflict, EntityMergeResult, merge_routing_entities}
use productline_agent.Routing.Catalog.{order_diagnosis, order_parameter}
use productline_agent.Routing.Decision.{
  Scale, ConfidenceLevel, ClarificationRequest, confidence_level_for, missing_fields,
  to_router_entities, clarify, validated, RoutingDecision, high, medium, ready, needs_clarification,
  entity_conflict, confirm_intent, conflict_for, conflict_question, confirm_question,
}
use productline_agent.Routing.Router.{
  RouterResult, EntitySelection, choose_question, status_of, answers, compose_decision,
  build_routing_decision, resume_routing_after_selection, confirm_routing_intent,
  require_matching_diagnosis_page,
}
use productline_agent.Routing.Totality.{IsConsistent}
use productline_agent.Routing.Dispatch.{IsDispatchable, compose_decision_ready}
use productline_agent.Routing.Composition.{build_routing_decision-merge_routing_entities}
use productline_agent.Routing.Selection.{IsResumed, resume_routing_after_selection-IsResumed}
use productline_agent.Routing.Confirmation.{
  require_matching_diagnosis_page_ready, confirm_routing_intent_ready,
}

abbrev hundredths : Scale
hundredths = record {
  F = ℕ;
  at_most = leb;
  zero_ = 0;
  medium_confidence = 60;
  high_confidence = 85;
  one_ = 100;
}

abbrev silent : RouterEntities
silent = record { of_name = λ n. none }

abbrev doubtful : SessionContext
doubtful = record {
  current_order_id = none;
  current_task_id = none;
  confirmed_entities = [];
  candidate_entities = (codes "order_id", codes "ORDER-2" ∷ codes "ORDER-3" ∷ []) ∷ [];
}

abbrev candidate : Text → SourcedEntity
candidate t = record { value = t; source = session_candidate }

abbrev open_order : EntityMergeResult
open_order = record {
  entities = [];
  conflicts =
      record {
        field = order_id;
        selected = none;
        candidates = candidate (codes "ORDER-2") ∷ candidate (codes "ORDER-3") ∷ [];
        resolved_by_priority = false;
      }
      ∷ [];
  unresolved_fields = order_id ∷ [];
}

silent-open_order : merge_routing_entities silent none (some doubtful) ≡ ok open_order
unfolding merge_routing_entities is_order_id trim is_white text_beq Dict.lookup Dict.insert sorted
    text_leb
silent-open_order = refl

abbrev answer : RouterResult ℕ
answer = record {
  intent = order_diagnosis;
  confidence = 70;
  missing_fields = [];
  need_clarification = false;
}

build_routing_decision-merge_routing_entities_example :
    (d : RoutingDecision hundredths) × (build_routing_decision hundredths answer open_order ≡ ok d)
build_routing_decision-merge_routing_entities_example =
    build_routing_decision-merge_routing_entities hundredths answer none silent (some doubtful)
      open_order refl silent-open_order

abbrev question : ClarificationRequest
question = record {
  reason = entity_conflict;
  question = conflict_question order_id;
  field = some order_id;
  options = candidate (codes "ORDER-2") ∷ candidate (codes "ORDER-3") ∷ [];
}

abbrev asking : RoutingDecision hundredths
asking = record {
  intent = order_diagnosis;
  confidence = 70;
  confidence_level = medium;
  entities = open_order;
  missing_fields = order_parameter ∷ [];
  status = needs_clarification;
  clarification = some question;
  intent_confirmed = false;
  model_requested_clarification = false;
}

asks_order : build_routing_decision hundredths answer open_order ≡ ok asking
unfolding build_routing_decision compose_decision confidence_level_for missing_fields
    to_router_entities choose_question clarify validated conflict_for Dict.lookup
asks_order = refl

abbrev second : EntitySelection
second = record { field = order_id; value = codes "ORDER-3" }

abbrev first_conflict : EntityConflict
first_conflict = record {
  field = order_id;
  selected = none;
  candidates = candidate (codes "ORDER-2") ∷ candidate (codes "ORDER-3") ∷ [];
  resolved_by_priority = false;
}

open_order-IsConsistent : IsConsistent open_order
unfolding conflict_for
open_order-IsConsistent = record { valid = refl; rivals = ((first_conflict, refl, refl), tt) }

second-answers : answers asking.clarification second ≡ true
unfolding text_beq
second-answers = refl

second-is_entity : is_entity order_id (trim (codes "ORDER-3")) ≡ true
unfolding is_order_id trim is_white text_beq is_entity
second-is_entity = refl

resume_routing_after_selection-IsResumed_example :
    (d : RoutingDecision hundredths) × (resume_routing_after_selection hundredths asking second
      ≡ ok d)
    × IsResumed hundredths asking second d
resume_routing_after_selection-IsResumed_example =
    resume_routing_after_selection-IsResumed hundredths asking second refl open_order-IsConsistent
      second-answers second-is_entity

abbrev chosen : EntityMergeResult
chosen = record {
  entities = (order_id, record { value = codes "ORDER-3"; source = user_message }) ∷ [];
  conflicts = [];
  unresolved_fields = [];
}

chosen-IsConsistent : IsConsistent chosen
unfolding is_order_id trim is_white text_beq is_entity
chosen-IsConsistent = record { valid = refl; rivals = tt }

abbrev confirmable : ClarificationRequest
confirmable = record {
  reason = confirm_intent;
  question = confirm_question order_diagnosis;
  field = none;
  options = [];
}

abbrev decided : ℕ → ConfidenceLevel → Option ClarificationRequest → RoutingDecision hundredths
decided confidence level q = record {
  intent = order_diagnosis;
  confidence = confidence;
  confidence_level = level;
  entities = chosen;
  missing_fields = [];
  status = status_of q;
  clarification = q;
  intent_confirmed = false;
  model_requested_clarification = false;
}

sure_composed :
    compose_decision hundredths order_diagnosis 90 chosen false false ≡ ok (decided 90 high none)
unfolding compose_decision confidence_level_for missing_fields to_router_entities choose_question
    clarify validated conflict_for Dict.lookup is_order_id trim is_white text_beq
sure_composed = refl

unsure_composed :
    compose_decision hundredths order_diagnosis 70 chosen false false
    ≡ ok (decided 70 medium (some confirmable))
unfolding compose_decision confidence_level_for missing_fields to_router_entities choose_question
    clarify validated conflict_for Dict.lookup is_order_id trim is_white text_beq
unsure_composed = refl

compose_decision_ready_example :
    (ready ≡ ready) ↔ IsDispatchable hundredths order_diagnosis 90 chosen false false
compose_decision_ready_example =
    compose_decision_ready hundredths order_diagnosis 90 chosen false false (decided 90 high none)
      sure_composed

confirm_routing_intent_ready_example :
    (d : RoutingDecision hundredths) × (confirm_routing_intent hundredths
        (decided 70 medium (some confirmable))
      ≡ ok d)
    × (d.intent ≡ order_diagnosis)
    × (d.entities ≡ chosen)
    × ((d.status ≡ ready) ↔ (false ≡ false))
confirm_routing_intent_ready_example =
    confirm_routing_intent_ready hundredths order_diagnosis 70 chosen false
      (decided 70 medium (some confirmable)) refl chosen-IsConsistent unsure_composed refl

page_agrees :
    require_matching_diagnosis_page hundredths (decided 90 high none) (some (codes "ORDER-3"))
    ≡ ok (decided 90 high none)
unfolding require_matching_diagnosis_page Dict.lookup text_beq
page_agrees = refl

chosen_order :
    Dict.lookup order_id chosen.entities
    ≡ some (record { value = codes "ORDER-3"; source = user_message })
unfolding Dict.lookup
chosen_order = refl

require_matching_diagnosis_page_ready_example :
    (decided 90 high none ≡ decided 90 high none) × (codes "ORDER-3" ≡ codes "ORDER-3")
require_matching_diagnosis_page_ready_example =
    require_matching_diagnosis_page_ready hundredths (decided 90 high none) (decided 90 high none)
      (codes "ORDER-3") (record { value = codes "ORDER-3"; source = user_message }) page_agrees refl
      refl chosen_order
