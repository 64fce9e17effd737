-- ===== src/Workflow/Diagnosed.antt =====
-- On the diagnosis of the fixed rules, which can always be generated
-- (agent-service/app/workflows/diagnosis_rules.py and agent-service/app/workflows/diagnosis_generation.py).
use productline_agent.Base.{
  ◌≡◌, inl, inr, refl, ap, ◌∙◌, Bool, true, false, Option, none, some, List, [], ◌∷◌, any_of,
  non_empty, if◌then◌else◌, Bool-cases, Result, ok, arith,
}
use productline_agent.Workflow.Facts.{
  DeliveryStatus, DeliveryRecord, OrderDiagnosisState, is_delivery_blocked,
}
use productline_agent.Workflow.Rules.{
  BlockingStage, production, production_blocked, quality_review, review, nothing, RuleDecision,
  has_complete_facts, delivery_complete, delivery_stage, some_failure, some_production,
  evaluate_loaded_facts, evaluate_diagnosis_rules,
}
use productline_agent.Workflow.Generation.{
  GenerationFault, DiagnosisParts, DiagnosisResult, first_index,
}
use productline_agent.Workflow.Report.{first_record, parts_of, assembled, generate_rule_diagnosis}
use productline_agent.Workflow.Reported.{IsReport, generated_insufficient}
use productline_agent.Workflow.Found.{first_index-some, both_true}
use productline_agent.Workflow.Generated.{Builds}
use productline_agent.Workflow.Conclusive.{record_found}
use productline_agent.Workflow.Conclusions.{
  AreDicts, complete-IsLoaded, blocked-Builds, production-Builds, quality-Builds, review-Builds,
}

first_of : (rs : List DeliveryRecord) → non_empty rs ≡ true → Builds nothing (first_record rs)
first_of [] h = absurd (cc h)
first_of (r ∷ rs) h = (_, refl, refl)

-- The diagnosis of a delivery status that holds records.
abbrev Delivers : OrderDiagnosisState → BlockingStage → Type 0
Delivers s stage = Builds stage (parts_of stage s)

delivery-Builds :
    (s : OrderDiagnosisState) (o : Option DeliveryStatus)
    → s.delivery ≡ o
    → delivery_complete s.order_id o ≡ true
    → Delivers s (delivery_stage o)
unfolding parts_of
delivery-Builds s none e h = absurd (cc h)
delivery-Builds s (some d) e h =
    elim (Bool-cases (any_of (λ (r : DeliveryRecord). is_delivery_blocked r.status) d.records)) [
      | inl waiting ↦
          rw (waiting, e)
            (record_found
              (first_index (λ (r : DeliveryRecord). is_delivery_blocked r.status) 0 d.records)
              (first_index-some (λ (r : DeliveryRecord). is_delivery_blocked r.status) 0 d.records
                waiting))
      | inr free ↦ rw (free, e) (first_of d.records (both_true _ _ (both_true _ _ h).0).1)
    ]

-- The choice of a stage by four tests.
chosen_stage :
    (P : BlockingStage → Type 0) (a b c d : Bool) (last : BlockingStage)
    → (a ≡ true → P production_blocked)
    → (b ≡ true → P production)
    → (c ≡ true → P quality_review)
    → (d ≡ true → P review)
    → P last
    → P (
        if a
        then production_blocked
        else if b
        then production
        else if c
        then quality_review
        else if d
        then review
        else last)
chosen_stage P true b c d last h1 h2 h3 h4 h5 = h1 refl
chosen_stage P false true c d last h1 h2 h3 h4 h5 = h2 refl
chosen_stage P false false true d last h1 h2 h3 h4 h5 = h3 refl
chosen_stage P false false false true last h1 h2 h3 h4 h5 = h4 refl
chosen_stage P false false false false last h1 h2 h3 h4 h5 = h5

complete_delivery :
    (s : OrderDiagnosisState)
    → has_complete_facts s ≡ true
    → delivery_complete s.order_id s.delivery ≡ true
unfolding has_complete_facts
complete_delivery s h = ground arith

loaded-Builds :
    (s : OrderDiagnosisState)
    → AreDicts s
    → has_complete_facts s ≡ true
    → Delivers s (evaluate_loaded_facts s)
unfolding evaluate_loaded_facts
loaded-Builds s dicts h =
    let loaded = complete-IsLoaded s h in
    chosen_stage (Delivers s) (some_failure s) (some_production s) _ _ (delivery_stage s.delivery)
      (blocked-Builds s dicts loaded) (production-Builds s dicts loaded)
      (quality-Builds s dicts loaded) (review-Builds s dicts loaded)
      (delivery-Builds s s.delivery refl (complete_delivery s h))

assembled-Builds :
    (d : RuleDecision) (r : Result GenerationFault DiagnosisParts)
    → Builds d.blocking_stage r
    → (x : DiagnosisResult) × (assembled d r ≡ ok x) × IsReport d x
assembled-Builds d r (p, made, good) = (
  record { order_id = d.order_id; blocking_stage = d.blocking_stage; parts = p },
  ap (assembled d) made ∙ rw good refl,
  record { order = refl; stage = refl; valid = good },
)

abbrev pub IsDiagnosed : OrderDiagnosisState → RuleDecision → Type 0
IsDiagnosed s d = (x : DiagnosisResult) × (generate_rule_diagnosis s d ≡ ok x) × IsReport d x

conclusive-IsDiagnosed :
    (s : OrderDiagnosisState)
    → AreDicts s
    → has_complete_facts s ≡ true
    → IsDiagnosed s (record { order_id = s.order_id; blocking_stage = evaluate_loaded_facts s })
unfolding generate_rule_diagnosis
conclusive-IsDiagnosed s dicts h = assembled-Builds _ _ (loaded-Builds s dicts h)

-- For every state whose three dicts have no key twice the diagnosis of the decision of the fixed
-- rules is generated: no fact is missing and no key is looked up in vain. It is of the order and
-- the stage of the decision and satisfies the schema of results: it has causes exactly if the
-- stage is not that nothing blocks the order, evidence unless information is insufficient, and
-- suggestions.
pub generate_rule_diagnosis_total :
    (s : OrderDiagnosisState) → AreDicts s → IsDiagnosed s (evaluate_diagnosis_rules s)
unfolding evaluate_diagnosis_rules
generate_rule_diagnosis_total s dicts = elim (Bool-cases (has_complete_facts s)) [
  | inl complete ↦ rw complete (conclusive-IsDiagnosed s dicts complete)
  | inr lacking ↦ rw lacking (generated_insufficient s _ refl)
]
