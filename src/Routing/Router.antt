-- ===== src/Routing/Router.antt =====
-- The operations on a decision (agent-service/app/routing/decision.py): it is composed, resumed after
-- the user has selected a value, confirmed, and compared with the page.
use productline_agent.Base.{
  Bool, true, false, not, ◌&&◌, ◌||◌, Option, none, some, List, [], ◌∷◌, ◌++◌, Text, codes, text_eq,
  trim, ◌==◌, ◌!=◌, ltb, length, non_empty, keep_if, any_of, if◌then◌else◌, Result, ok, err,
}
use productline_agent.Base.Dict
use productline_agent.Base.Dict.{Dict}
use productline_agent.Routing.Entities.{
  RoutingEntityName, order_id, name_eq, user_message, page_context, SourcedEntity, is_entity,
}
use productline_agent.Routing.Merge.{EntityConflict, EntityMergeResult}
use productline_agent.Routing.Catalog.{
  Intent, order_diagnosis, unknown, same_intent, RoutingParameter, parameter_field,
}
use productline_agent.Routing.Decision.{
  RoutingFault, invalid_selection, and_then, Scale, ConfidenceLevel, medium, low,
  RoutingDecisionStatus, ready, needs_clarification, unknown_intent, entity_conflict,
  missing_parameter, low_confidence, confirm_intent, model_request, page_order_mismatch,
  ClarificationReason, ClarificationRequest, clarify, missing_question, conflict_question,
  confirm_question, missing_fields, conflict_for, confidence_level_for, RoutingDecision, validated,
}

abbrev pub asked :
    Result RoutingFault ClarificationRequest → Result RoutingFault (Option ClarificationRequest)
asked (ok c) = ok (some c)
asked (err e) = err e

-- The question of a decision whose intent is known, whose entities are settled and whose parameters
-- are all there.
abbrev pub ask_intent :
    Intent → ConfidenceLevel → Bool → Bool → Result RoutingFault (Option ClarificationRequest)
ask_intent intent low confirmed requested =
    asked (clarify low_confidence (codes "我还不能确定你的意图。请补充要处理的业务对象和目标。") none [])
ask_intent intent medium false requested =
    asked (clarify confirm_intent (confirm_question intent) none [])
ask_intent intent level confirmed true =
    asked (clarify model_request (codes "当前请求仍有歧义。请补充更明确的业务目标。") none [])
ask_intent intent level confirmed false = ok none

abbrev pub ask_missing :
    List RoutingParameter
    → Result RoutingFault (Option ClarificationRequest)
    → Result RoutingFault (Option ClarificationRequest)
ask_missing [] next = next
ask_missing (p ∷ ps) next =
    asked (clarify missing_parameter (missing_question p) (some (parameter_field p)) [])

abbrev pub ask_conflict :
    List EntityConflict
    → List RoutingEntityName
    → Result RoutingFault (Option ClarificationRequest)
    → Result RoutingFault (Option ClarificationRequest)
ask_conflict conflicts [] next = next
ask_conflict conflicts (field ∷ fields) next =
    and_then (conflict_for conflicts field)
      (λ c. asked (clarify entity_conflict (conflict_question field) (some field) c.candidates))

-- The one question of a decision, by the order of the reasons.
unfoldable pub choose_question :
    Intent
    → EntityMergeResult
    → List RoutingParameter
    → ConfidenceLevel
    → Bool
    → Bool
    → Result RoutingFault (Option ClarificationRequest)
choose_question intent m missing level confirmed requested =
    if same_intent intent unknown
    then asked (clarify unknown_intent (codes "我暂时无法识别这个请求。请说明要查询订单、跟踪任务、咨询规范还是生成复核草稿。") none [])
    else ask_conflict m.conflicts m.unresolved_fields
        (ask_missing missing (ask_intent intent level confirmed requested))

-- The answer of the router's model.
pub record RouterResult (F : Type 0) : Type 0 where
  pub intent : Intent
  pub confidence : F
  pub missing_fields : List RoutingParameter
  pub need_clarification : Bool

pub record EntitySelection : Type 0 where
  pub field : RoutingEntityName
  pub value : Text

-- `_validated_selection`.
unfoldable pub validated_selection : EntitySelection → Result RoutingFault SourcedEntity
unfolding is_entity
validated_selection s =
    if is_entity s.field (trim s.value)
    then ok record { value = trim s.value; source = user_message }
    else err invalid_selection

abbrev pub candidates_after : SourcedEntity → List SourcedEntity → List SourcedEntity
candidates_after selected candidates =
    selected ∷ keep_if (λ e. e.value != selected.value) candidates

-- The loop over the conflicts.
unfoldable pub conflicts_after :
    RoutingEntityName → SourcedEntity → List EntityConflict → List EntityConflict
conflicts_after field selected [] = []
conflicts_after field selected (c ∷ cs) =
    let rest = conflicts_after field selected cs in
    let candidates = candidates_after selected c.candidates in
    if c.field != field
    then c ∷ rest
    else if ltb 1 (length candidates)
    then record c { selected = some selected; candidates = candidates; resolved_by_priority = true }
      ∷ rest
    else rest

abbrev pub new_conflict :
    RoutingEntityName → SourcedEntity → Option SourcedEntity → List EntityConflict
new_conflict field selected none = []
new_conflict field selected (some previous) =
    if previous.value != selected.value
    then record {
      field = field;
      selected = some selected;
      candidates = selected ∷ previous ∷ [];
      resolved_by_priority = true;
    }
      ∷ []
    else []

abbrev pub with_selected : RoutingEntityName → EntityMergeResult → SourcedEntity → EntityMergeResult
with_selected field m selected = record {
  entities = Dict.insert field selected m.entities;
  conflicts =
      if any_of (λ (c : EntityConflict). c.field == field) m.conflicts
      then conflicts_after field selected m.conflicts
      else m.conflicts ++ new_conflict field selected (Dict.lookup field m.entities);
  unresolved_fields = keep_if (λ n. n != field) m.unresolved_fields;
}

-- `_apply_selection`.
unfoldable pub apply_selection :
    EntityMergeResult → EntitySelection → Result RoutingFault EntityMergeResult
unfolding validated_selection conflicts_after
apply_selection m s =
    and_then (validated_selection s) (λ selected. ok (with_selected s.field m selected))

abbrev pub is_selectable : ClarificationReason → Bool
is_selectable entity_conflict = true
is_selectable missing_parameter = true
is_selectable _ = false

abbrev pub is_field : Option RoutingEntityName → RoutingEntityName → Bool
is_field none n = false
is_field (some m) n = m == n

-- Whether the selection answers the question that is pending.
abbrev pub answers : Option ClarificationRequest → EntitySelection → Bool
answers none s = false
answers (some c) s =
    is_selectable c.reason
    && is_field c.field s.field
    && (not (non_empty c.options) || any_of (λ o. o.value == s.value) c.options)

abbrev pub is_pending : RoutingDecisionStatus → Bool
is_pending ready = false
is_pending needs_clarification = true

abbrev pub asks_to_confirm : Option ClarificationRequest → Bool
asks_to_confirm none = false
asks_to_confirm (some c) = elim c.reason [ confirm_intent ↦ true | _ ↦ false ]

abbrev pub status_of : Option ClarificationRequest → RoutingDecisionStatus
status_of none = ready
status_of (some c) = needs_clarification

abbrev pub mismatch_question : Text → Text → Text
mismatch_question target page =
    codes "你要诊断" ++ (target ++ (codes "，当前页面是" ++ (page ++ codes "。请确认切换后继续。")))

module _ (scale : Scale) where
  open scale use {F}

  -- `_compose_decision`.
  unfoldable pub compose_decision :
      Intent → F → EntityMergeResult → Bool → Bool → Result RoutingFault (RoutingDecision scale)
  compose_decision intent confidence m requested confirmed =
      and_then (confidence_level_for scale confidence) (λ level.
        and_then (missing_fields intent m) (λ missing.
          and_then (choose_question intent m missing level confirmed requested) (λ question.
            validated scale (record {
              intent = intent;
              confidence = confidence;
              confidence_level = level;
              entities = m;
              missing_fields = missing;
              status = status_of question;
              clarification = question;
              intent_confirmed = confirmed;
              model_requested_clarification = requested;
            }))))

  unfoldable pub build_routing_decision :
      RouterResult F → EntityMergeResult → Result RoutingFault (RoutingDecision scale)
  build_routing_decision raw m =
      compose_decision raw.intent raw.confidence m
        (raw.need_clarification && not (non_empty raw.missing_fields)) false

  unfoldable pub resume_routing_after_selection :
      RoutingDecision scale → EntitySelection → Result RoutingFault (RoutingDecision scale)
  resume_routing_after_selection pending s =
      if is_pending pending.status && answers pending.clarification s
      then and_then (apply_selection pending.entities s) (λ entities.
        compose_decision pending.intent pending.confidence entities
          pending.model_requested_clarification pending.intent_confirmed)
      else err invalid_selection

  unfoldable pub confirm_routing_intent :
      RoutingDecision scale → Result RoutingFault (RoutingDecision scale)
  confirm_routing_intent pending =
      if asks_to_confirm pending.clarification
      then compose_decision pending.intent pending.confidence pending.entities
          pending.model_requested_clarification true
      else err invalid_selection

  abbrev pub ask_switch :
      RoutingDecision scale
      → Text
      → Option SourcedEntity
      → Result RoutingFault (RoutingDecision scale)
  ask_switch decision page none = ok decision
  ask_switch decision page (some target) =
      if target.value == page
      then ok decision
      else and_then
          (clarify page_order_mismatch (mismatch_question target.value page) (some order_id)
            (record { value = page; source = page_context } ∷ target ∷ []))
          (λ question.
            validated scale
              (record decision { status = needs_clarification; clarification = some question }))

  -- `require_matching_diagnosis_page`, on the order of the page, if there is a page.
  unfoldable pub require_matching_diagnosis_page :
      RoutingDecision scale → Option Text → Result RoutingFault (RoutingDecision scale)
  require_matching_diagnosis_page decision none = ok decision
  require_matching_diagnosis_page decision (some page) =
      if is_pending decision.status || not (same_intent decision.intent order_diagnosis)
      then ok decision
      else ask_switch decision page (Dict.lookup order_id decision.entities.entities)
