-- ===== src/Routing/Decision.antt =====
-- The decision of the router (agent-service/app/routing/decision.py, with the schemas of
-- agent-service/app/schemas/routing.py and their validators).
use productline_agent.Base.{
  Bool, true, false, not, ◌&&◌, Option, none, some, List, [], ◌∷◌, ◌++◌, Text, codes, text_eq, trim,
  ◌==◌, ◌!=◌, nat_beq, ltb, length, non_empty, keep_if, all_of, is_some, is_none, if◌then◌else◌,
  Result, ok, err,
}
use productline_agent.Base.Dict
use productline_agent.Base.Dict.{Dict}
use productline_agent.Base.Pattern.{length_between, has_prefix}
use productline_agent.Routing.Entities.{
  RoutingEntityName, order_id, task_id, issue_id, batch_id, product_type, satellite_type, name_eq,
  page_context, SourcedEntity, RouterEntities, is_entity, source_priority,
}
use productline_agent.Routing.Merge.{EntityConflict, EntityMergeResult}
use productline_agent.Routing.Catalog.{
  Intent, order_query, order_diagnosis, task_tracking, spec_qa, review_generation, unknown,
  RoutingParameter, order_parameter, task_parameter, required_parameters_for, skill_for_intent,
  parameter_field,
}

pub data RoutingFault : Type 0 where
  validation_error value_error invalid_selection : RoutingFault

abbrev pub and_then :
    {A B : Type 0} → Result RoutingFault A → (A → Result RoutingFault B) → Result RoutingFault B
and_then (ok a) f = f a
and_then (err e) f = err e

-- The parts of a float that the confidence is compared by, with its limits.
pub record Scale : Type 1 where
  pub F : Type 0
  pub at_most : F → F → Bool
  pub zero_ : F
  pub medium_confidence : F
  pub high_confidence : F
  pub one_ : F

pub data ConfidenceLevel : Type 0 where
  high medium low : ConfidenceLevel

pub data RoutingDecisionStatus : Type 0 where
  ready needs_clarification : RoutingDecisionStatus

pub data ClarificationReason : Type 0 where
  unknown_intent entity_conflict missing_parameter low_confidence confirm_intent model_request
        page_order_mismatch :
      ClarificationReason

pub record ClarificationRequest : Type 0 where
  pub reason : ClarificationReason
  pub question : Text
  pub field : Option RoutingEntityName
  pub options : List SourcedEntity

abbrev is_page_source : SourcedEntity → Bool
is_page_source e = nat_beq (source_priority e.source) (source_priority page_context)

abbrev is_order_text : SourcedEntity → Bool
is_order_text e = has_prefix (codes "ORDER-") e.value

abbrev is_mismatch : List SourcedEntity → Bool
is_mismatch (a ∷ b ∷ []) =
    is_page_source a && (a.value != b.value) && is_order_text a && is_order_text b
is_mismatch _ = false

abbrev is_order_field : Option RoutingEntityName → Bool
is_order_field none = false
is_order_field (some n) = n == order_id

-- `ClarificationRequest.validate_reason_payload`.
abbrev pub is_payload : ClarificationReason → Option RoutingEntityName → List SourcedEntity → Bool
is_payload page_order_mismatch field options = is_order_field field && is_mismatch options
is_payload entity_conflict field options = is_some field && ltb 1 (length options)
is_payload missing_parameter field options = is_some field && not (non_empty options)
is_payload _ field options = is_none field && not (non_empty options)

unfoldable pub clarify :
    ClarificationReason
    → Text
    → Option RoutingEntityName
    → List SourcedEntity
    → Result RoutingFault ClarificationRequest
clarify reason question field options =
    if length_between 1 512 question && is_payload reason field options
    then ok record { reason = reason; question = question; field = field; options = options }
    else err validation_error

abbrev pub intent_label : Intent → Text
intent_label order_query = codes "订单查询"
intent_label order_diagnosis = codes "订单诊断"
intent_label task_tracking = codes "任务跟踪"
intent_label spec_qa = codes "规范问答"
intent_label review_generation = codes "复核草稿生成"
intent_label unknown = codes "未知意图"

abbrev pub field_label : RoutingEntityName → Text
field_label order_id = codes "订单"
field_label task_id = codes "任务"
field_label issue_id = codes "质检问题"
field_label batch_id = codes "批次"
field_label product_type = codes "产品类型"
field_label satellite_type = codes "卫星类型"

abbrev pub missing_question : RoutingParameter → Text
missing_question order_parameter = codes "请提供要处理的订单编号。"
missing_question task_parameter = codes "请提供要处理的任务编号。"

abbrev pub conflict_question : RoutingEntityName → Text
conflict_question field =
    codes "检测到多个" ++ (field_label field ++ (codes "候选, 请选择一个" ++ (field_label field ++ codes "。")))

abbrev pub confirm_question : Intent → Text
confirm_question intent = codes "当前识别意图为“" ++ (intent_label intent ++ codes "”, 请确认是否继续。")

-- The values of the entities, as `RouterEntities` takes them: white space is taken off their ends.
abbrev pub stripped : Option SourcedEntity → Option Text
stripped none = none
stripped (some e) = some (trim e.value)

abbrev pub is_valid_entity : RoutingEntityName × SourcedEntity → Bool
is_valid_entity (n, e) = is_entity n (trim e.value)

-- `EntityMergeResult.to_router_entities`.
unfoldable pub to_router_entities : EntityMergeResult → Result RoutingFault RouterEntities
unfolding is_entity
to_router_entities m =
    if all_of is_valid_entity m.entities
    then ok record { of_name = λ n. stripped (Dict.lookup n m.entities) }
    else err validation_error

-- `not entities.contains(parameter)`.
abbrev pub lacks : RouterEntities → RoutingParameter → Bool
lacks entities p = is_none (entities.of_name (parameter_field p))

abbrev pub lacking : Intent → RouterEntities → List RoutingParameter
lacking intent entities = keep_if (lacks entities) (required_parameters_for intent)

-- `_missing_fields`.
unfoldable pub missing_fields :
    Intent → EntityMergeResult → Result RoutingFault (List RoutingParameter)
missing_fields intent m = and_then (to_router_entities m) (λ entities. ok (lacking intent entities))

-- `_conflict_for`.
unfoldable pub conflict_for :
    List EntityConflict → RoutingEntityName → Result RoutingFault EntityConflict
conflict_for [] field = err value_error
conflict_for (c ∷ cs) field =
    let rest = conflict_for cs field in if c.field == field then ok c else rest

abbrev pub same_parameters : List RoutingParameter → List RoutingParameter → Bool
same_parameters [] [] = true
same_parameters (p ∷ ps) (q ∷ qs) =
    (parameter_field p == parameter_field q) && same_parameters ps qs
same_parameters _ _ = false

-- Whether the level calls for no question.
abbrev pub suffices : ConfidenceLevel → Bool → Bool
suffices high confirmed = true
suffices medium confirmed = confirmed
suffices low confirmed = false

module _ (scale : Scale) where
  open scale use {F, at_most, zero_, medium_confidence, high_confidence, one_}

  unfoldable pub confidence_level_for : F → Result RoutingFault ConfidenceLevel
  confidence_level_for c =
      if at_most zero_ c && at_most c one_
      then ok (
          if at_most high_confidence c
          then high
          else if at_most medium_confidence c
          then medium
          else low)
      else err value_error

  pub record RoutingDecision : Type 0 where
    pub intent : Intent
    pub confidence : F
    pub confidence_level : ConfidenceLevel
    pub entities : EntityMergeResult
    pub missing_fields : List RoutingParameter
    pub status : RoutingDecisionStatus
    pub clarification : Option ClarificationRequest
    pub intent_confirmed : Bool
    pub model_requested_clarification : Bool

  abbrev pub is_ready : RoutingDecision → Bool
  is_ready d =
      is_none d.clarification
      && is_some (skill_for_intent d.intent)
      && not (non_empty d.missing_fields)
      && not (non_empty d.entities.unresolved_fields)
      && suffices d.confidence_level d.intent_confirmed
      && not d.model_requested_clarification

  abbrev pub meets_status : RoutingDecisionStatus → RoutingDecision → Bool
  meets_status needs_clarification d = is_some d.clarification
  meets_status ready d = is_ready d

  -- The range of the confidence, and `RoutingDecision.validate_decision_contract`.
  unfoldable pub validated : RoutingDecision → Result RoutingFault RoutingDecision
  validated d = and_then (to_router_entities d.entities) (λ merged.
      if at_most zero_ d.confidence
        && at_most d.confidence one_
        && same_parameters d.missing_fields (lacking d.intent merged)
        && meets_status d.status d
      then ok d
      else err validation_error)
