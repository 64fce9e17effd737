-- ===== src/Workflow/Reported.antt =====
-- On the diagnosis that is generated for a decision
-- (agent-service/app/workflows/diagnosis_generation.py).
use productline_agent.Base.{◌≡◌, ◌⊎◌, inl, inr, refl, ap, ◌∙◌, Result, ok, err, Bool-cases, true}
use productline_agent.Workflow.Facts.{OrderDiagnosisState}
use productline_agent.Workflow.Rules.{RuleDecision, BlockingStage, insufficient_information}
use productline_agent.Workflow.Generation.{
  GenerationFault, DiagnosisParts, DiagnosisResult, is_diagnosis,
}
use productline_agent.Workflow.Report.{
  assembled, parts_of, insufficient_parts, generate_rule_diagnosis,
}

-- The diagnosis is of the order and the stage of the decision, and satisfies the schema of results.
pub record IsReport (d : RuleDecision) (x : DiagnosisResult) : Type 0 where
  pub order : x.order_id ≡ d.order_id
  pub stage : x.blocking_stage ≡ d.blocking_stage
  pub valid : is_diagnosis x.blocking_stage x.parts ≡ true

assembled-IsReport :
    (d : RuleDecision) (r : Result GenerationFault DiagnosisParts)
    → ((x : DiagnosisResult) × (assembled d r ≡ ok x) × IsReport d x)
      ⊎ ((e : GenerationFault) × (assembled d r ≡ err e))
assembled-IsReport d (err e) = inr (e, refl)
assembled-IsReport d (ok p) = elim (Bool-cases (is_diagnosis d.blocking_stage p)) [
  | inl good ↦ rw good (
      inl (
        record { order_id = d.order_id; blocking_stage = d.blocking_stage; parts = p },
        refl,
        record { order = refl; stage = refl; valid = good },
      ))
  | inr bad ↦ rw bad (inr (_, refl))
]

pub generated :
    (s : OrderDiagnosisState) (d : RuleDecision)
    → ((x : DiagnosisResult) × (generate_rule_diagnosis s d ≡ ok x) × IsReport d x)
      ⊎ ((e : GenerationFault) × (generate_rule_diagnosis s d ≡ err e))
unfolding generate_rule_diagnosis
generated s d = assembled-IsReport d (parts_of d.blocking_stage s)

insufficient_parts_of :
    (s : OrderDiagnosisState) (stage : BlockingStage)
    → stage ≡ insufficient_information
    → parts_of stage s ≡ ok (insufficient_parts s)
unfolding parts_of
insufficient_parts_of s stage e = rw e refl

-- That information is insufficient can always be reported.
pub generated_insufficient :
    (s : OrderDiagnosisState) (d : RuleDecision)
    → d.blocking_stage ≡ insufficient_information
    → (x : DiagnosisResult) × (generate_rule_diagnosis s d ≡ ok x) × IsReport d x
unfolding generate_rule_diagnosis
generated_insufficient s d e =
    let x : DiagnosisResult = record {
      order_id = d.order_id;
      blocking_stage = d.blocking_stage;
      parts = insufficient_parts s;
    } in
    let good : is_diagnosis d.blocking_stage (insufficient_parts s) ≡ true =
      ap (λ (stage : BlockingStage). is_diagnosis stage (insufficient_parts s)) e in
    (
      x,
      ap (assembled d) (insufficient_parts_of s d.blocking_stage e) ∙ rw good refl,
      record { order = refl; stage = refl; valid = good },
    )
