-- ===== src/Workflow/Conclusive.antt =====
-- On the parts of a diagnosis, each from what it points at
-- (agent-service/app/workflows/diagnosis_generation.py).
use productline_agent.Base.{
  ℕ, ◌≡◌, ◌⊎◌, inl, inr, refl, Bool, true, not, ◌&&◌, Option, none, some, List, [], ◌∷◌, ◌++◌, map,
  Text, text_eq, ◌==◌, any_of, all_of, keep_if, non_empty, Bool-cases, Result, ok, err, codes,
}
use productline_agent.Workflow.Facts.{
  TaskDetail, QualityIssue, ReviewRecord, DeliveryRecord, OrderDiagnosisState,
}
use productline_agent.Workflow.Rules.{production, quality_review, review, delivery}
use productline_agent.Workflow.Generation.{
  GenerationFault, RootCause, DiagnosisParts, Evidence, is_diagnosis, active_task, with_evidence,
  production_parts,
}
use productline_agent.Workflow.Diagnoses.{
  Indexed, append_unique, causes_from, with_review, quality_parts, missing_review, open_review,
  affected_from, task_of,
}
use productline_agent.Workflow.Report.{blocked_record}
use productline_agent.Workflow.Generated.{Builds, Works}

pub active_found :
    (o : Option (ℕ × TaskDetail)) (next : Result GenerationFault Evidence)
    → ((r : ℕ × TaskDetail) × (o ≡ some r)) ⊎ Works next
    → Works (active_task o next)
active_found (some (i, t)) next h = (_, refl)
active_found none next (inl (r, h)) = absurd (cc h)
active_found none next (inr h) = h

pub with_evidence-Builds :
    (r : Result GenerationFault Evidence)
    → Works r
    → Builds production (with_evidence r production_parts)
with_evidence-Builds (ok x) h = (_, refl, refl)
with_evidence-Builds (err e) (x, h) = absurd (cc h)

pub missing_found :
    (o : Option (ℕ × QualityIssue))
    → (r : ℕ × QualityIssue) × (o ≡ some r)
    → Builds review (missing_review o)
missing_found (some (i, x)) h = (_, refl, refl)
missing_found none (r, h) = absurd (cc h)

pub open_found :
    (o : Option (ℕ × ReviewRecord)) (next : Result GenerationFault DiagnosisParts)
    → ((r : ℕ × ReviewRecord) × (o ≡ some r)) ⊎ Builds review next
    → Builds review (open_review o next)
open_found (some r) next h = (_, refl, refl)
open_found none next (inl (r, h)) = absurd (cc h)
open_found none next (inr h) = h

pub record_found :
    (o : Option (ℕ × DeliveryRecord))
    → (r : ℕ × DeliveryRecord) × (o ≡ some r)
    → Builds delivery (blocked_record o)
record_found (some (i, r)) h = (_, refl, refl)
record_found none (r, h) = absurd (cc h)

append_some : {A : Type 0} (xs ys : List A) → non_empty ys ≡ true → non_empty (xs ++ ys) ≡ true
append_some [] ys h = h
append_some (x ∷ xs) ys h = refl

append_first : {A : Type 0} (xs ys : List A) → non_empty xs ≡ true → non_empty (xs ++ ys) ≡ true
append_first [] ys h = absurd (cc h)
append_first (x ∷ xs) ys h = refl

unique_some : (causes : List RootCause) (c d : Text) → non_empty (append_unique causes c d) ≡ true
unique_some [] c d = refl
unique_some (x ∷ xs) c d =
    elim (Bool-cases (all_of (λ (y : RootCause). not (y.code == c)) (x ∷ xs))) [
      | inl new ↦ rw new refl
      | inr old ↦ rw old refl
    ]

causes_kept :
    (xs : List (Indexed QualityIssue)) (causes : List RootCause)
    → non_empty causes ≡ true
    → non_empty (causes_from causes xs) ≡ true
causes_kept [] causes h = h
causes_kept ((t, (i, x)) ∷ xs) causes h =
    elim (Bool-cases (x.issue_type == codes "COORDINATE_SYSTEM")) [
      | inl coordinate ↦ rw coordinate (causes_kept xs _ (unique_some causes _ _))
      | inr other ↦ rw other (causes_kept xs _ (unique_some causes _ _))
    ]

causes_some :
    (xs : List (Indexed QualityIssue)) → non_empty xs ≡ true → non_empty (causes_from [] xs) ≡ true
causes_some [] h = absurd (cc h)
causes_some ((t, (i, x)) ∷ xs) h = elim (Bool-cases (x.issue_type == codes "COORDINATE_SYSTEM")) [
  | inl coordinate ↦ rw coordinate (causes_kept xs _ refl)
  | inr other ↦ rw other (causes_kept xs _ refl)
]

review_some :
    (causes : List RootCause) (o : Option (ℕ × ReviewRecord))
    → non_empty causes ≡ true
    → non_empty (with_review causes o) ≡ true
review_some causes none h = h
review_some causes (some r) h = unique_some causes _ _

pub kept_some :
    {A : Type 0} (p : A → Bool) (xs : List A) → any_of p xs ≡ true → non_empty (keep_if p xs) ≡ true
kept_some p [] h = absurd (cc h)
kept_some p (x ∷ xs) h = elim (Bool-cases (p x)) [
  | inl good ↦ rw good refl
  | inr bad ↦ rw bad (kept_some p xs (rw bad at h))
]

two_true : (a b : Bool) → a ≡ true → b ≡ true → (a && b && true) ≡ true
two_true a b h k = rw (h, k) refl

pub quality-valid :
    (s : OrderDiagnosisState) (issues : List (Indexed QualityIssue))
    (reviews : List (Indexed ReviewRecord))
    → non_empty issues ≡ true
    → is_diagnosis quality_review (quality_parts s issues reviews) ≡ true
quality-valid s [] reviews h = absurd (cc h)
quality-valid s ((t, (i, x)) ∷ xs) reviews h =
    two_true _ _
      (review_some (causes_from [] ((t, (i, x)) ∷ xs)) _ (causes_some ((t, (i, x)) ∷ xs) refl))
      (append_some
        (affected_from 0 (map (λ (y : Indexed QualityIssue). task_of y) ((t, (i, x)) ∷ xs)) s.tasks)
        _ refl)
