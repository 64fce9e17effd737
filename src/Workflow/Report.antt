-- ===== src/Workflow/Report.antt =====
-- The diagnoses of the last stages, and the choice among all of them
-- (agent-service/app/workflows/diagnosis_generation.py).
use productline_agent.Base.{
  ℕ, Option, none, some, List, [], ◌∷◌, ◌++◌, codes, text_eq, if◌then◌else◌, Result, ok, err,
}
use productline_agent.Workflow.Facts.{
  OrderDetail, DeliveryRecord, DeliveryStatus, OrderDiagnosisState, is_delivery_blocked,
}
use productline_agent.Workflow.Rules.{
  BlockingStage, production, production_blocked, quality_review, review, delivery, nothing,
  insufficient_information, RuleDecision,
}
use productline_agent.Workflow.Generation.{
  GenerationFault, no_fact, no_element, Evidence, DiagnosisParts, DiagnosisResult, is_diagnosis,
  first_index, order_text, production_diagnosis, production_blocked_diagnosis,
}
use productline_agent.Workflow.Diagnoses.{
  delivery_evidence, quality_review_diagnosis, review_diagnosis,
}

abbrev pub delivery_parts : ℕ × DeliveryRecord → DiagnosisParts
delivery_parts (index, r) = record {
  summary = codes "订单阻塞在交付环节。";
  root_causes =
      record { code = codes "DELIVERY_NOT_READY"; description = codes "交付记录尚未就绪或已被阻塞" } ∷ [];
  evidence = delivery_evidence index r ∷ [];
  suggestions =
      record { action_type = codes "RESOLVE_DELIVERY_BLOCKER"; description = codes "处理交付阻塞后重新发起交付" }
      ∷ [];
  confidence = 1;
}

abbrev pub blocked_record : Option (ℕ × DeliveryRecord) → Result GenerationFault DiagnosisParts
blocked_record none = err no_element
blocked_record (some r) = ok (delivery_parts r)

abbrev pub delivery_of : Option DeliveryStatus → Result GenerationFault DiagnosisParts
delivery_of none = err no_fact
delivery_of (some d) =
    blocked_record (first_index (λ (r : DeliveryRecord). is_delivery_blocked r.status) 0 d.records)

abbrev pub no_blocker_parts : DeliveryRecord → DiagnosisParts
no_blocker_parts r = record {
  summary = codes "当前未发现生产、质检、复核或交付阻塞。";
  root_causes = [];
  evidence = delivery_evidence 0 r ∷ [];
  suggestions =
      record { action_type = codes "CONTINUE_DELIVERY"; description = codes "按当前业务流程继续交付" } ∷ [];
  confidence = 1;
}

-- `_no_blocker_diagnosis`.
abbrev pub first_record : List DeliveryRecord → Result GenerationFault DiagnosisParts
first_record [] = err no_fact
first_record (r ∷ rs) = ok (no_blocker_parts r)

abbrev pub no_blocker_of : Option DeliveryStatus → Result GenerationFault DiagnosisParts
no_blocker_of none = err no_fact
no_blocker_of (some d) = first_record d.records

abbrev order_evidence : Option OrderDetail → List Evidence
order_evidence none = []
order_evidence (some o) =
    record {
      tool_name = codes "get_order_detail";
      field_path = codes "status";
      value = order_text o.status;
      description = codes "仅能确认" ++ (o.order_id ++ (codes "订单状态为" ++ order_text o.status));
    }
    ∷ []

-- `_insufficient_diagnosis`.
abbrev pub insufficient_parts : OrderDiagnosisState → DiagnosisParts
insufficient_parts s = record {
  summary = codes "当前业务事实不完整。无法可靠判断订单阻塞环节。";
  root_causes =
      record { code = codes "INSUFFICIENT_BUSINESS_FACTS"; description = codes "诊断所需业务事实缺失或归属不一致" }
      ∷ [];
  evidence = order_evidence s.order;
  suggestions =
      record { action_type = codes "RELOAD_BUSINESS_FACTS"; description = codes "补齐并重新校验业务事实后再次诊断" }
      ∷ [];
  confidence = 0;
}

-- The builder of a stage.
unfoldable pub parts_of :
    BlockingStage → OrderDiagnosisState → Result GenerationFault DiagnosisParts
unfolding production_diagnosis quality_review_diagnosis review_diagnosis first_index
parts_of production s = production_diagnosis s
parts_of production_blocked s = production_blocked_diagnosis s
parts_of quality_review s = quality_review_diagnosis s
parts_of review s = review_diagnosis s
parts_of delivery s = delivery_of s.delivery
parts_of nothing s = no_blocker_of s.delivery
parts_of insufficient_information s = ok (insufficient_parts s)

abbrev pub assembled :
    RuleDecision → Result GenerationFault DiagnosisParts → Result GenerationFault DiagnosisResult
assembled d (err e) = err e
assembled d (ok p) =
    if is_diagnosis d.blocking_stage p
    then ok record { order_id = d.order_id; blocking_stage = d.blocking_stage; parts = p }
    else err no_fact

-- `generate_rule_diagnosis`, on the decision that the state holds.
unfoldable pub generate_rule_diagnosis :
    OrderDiagnosisState → RuleDecision → Result GenerationFault DiagnosisResult
unfolding parts_of
generate_rule_diagnosis s d = assembled d (parts_of d.blocking_stage s)
