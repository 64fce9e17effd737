-- ===== src/Workflow/Generated.antt =====
-- On diagnoses that are always generated (agent-service/app/workflows/diagnosis_generation.py, on the
-- decisions of agent-service/app/workflows/diagnosis_rules.py).
use productline_agent.Base.{
  ℕ, suc, ◌≡◌, ◌⊎◌, inl, inr, refl, sym, ap, ◌∙◌, Bool, true, some_injective, Option, none, some,
  List, [], ◌∷◌, Text, text_eq, All, Member, any_of, Bool-cases, Result, ok,
}
use productline_agent.Base.Dict
use productline_agent.Base.Dict.{Dict, keys, values}
use productline_agent.Workflow.Facts.{
  TaskDetail, ProductionStep, ProgressResult, is_failed, is_active,
}
use productline_agent.Workflow.Rules.{BlockingStage, production_blocked}
use productline_agent.Workflow.Generation.{
  GenerationFault, DiagnosisParts, Evidence, is_diagnosis, first_index, active_step, step_or,
  blocked_from, blocked_step,
}
use productline_agent.Workflow.Found.{first_index-some}

-- The parts are built, and they are a diagnosis of the stage.
abbrev pub Builds : BlockingStage → Result GenerationFault DiagnosisParts → Type 0
Builds stage r = (p : DiagnosisParts) × (r ≡ ok p) × (is_diagnosis stage p ≡ true)

-- Every task has its progress.
abbrev pub AreLoaded : Dict Text ProgressResult → List TaskDetail → Type 0
AreLoaded progress ts =
    All (λ (t : TaskDetail). (p : ProgressResult) × (Dict.lookup t.task_id progress ≡ some p)) ts

-- Some task, or some step of its progress, passes.
abbrev pub HasStep : (ProductionStep → Bool) → Dict Text ProgressResult → TaskDetail → Type 0
HasStep f progress t =
    (p : ProgressResult) × (Dict.lookup t.task_id progress ≡ some p) × (any_of f p.steps ≡ true)

abbrev pub Works : {A : Type 0} → Result GenerationFault A → Type 0
Works {A} r = (a : A) × (r ≡ ok a)

step_or-Works :
    (o : Option (ℕ × ProductionStep)) (next : Result GenerationFault Evidence)
    → Works next
    → Works (step_or o next)
step_or-Works none next h = h
step_or-Works (some x) next h = (_, refl)

step_found :
    (o : Option (ℕ × ProductionStep)) (next : Result GenerationFault Evidence)
    → (r : ℕ × ProductionStep) × (o ≡ some r)
    → Works (step_or o next)
step_found none next (r, h) = absurd (cc h)
step_found (some x) next h = (_, refl)

blocked_step-Builds :
    (o : Option (ℕ × ProductionStep)) (next : Result GenerationFault DiagnosisParts)
    → Builds production_blocked next
    → Builds production_blocked (blocked_step o next)
blocked_step-Builds none next h = h
blocked_step-Builds (some x) next h = (_, refl, refl)

blocked_found :
    (o : Option (ℕ × ProductionStep)) (next : Result GenerationFault DiagnosisParts)
    → (r : ℕ × ProductionStep) × (o ≡ some r)
    → Builds production_blocked (blocked_step o next)
blocked_found none next (r, h) = absurd (cc h)
blocked_found (some x) next h = (_, refl, refl)

same_progress :
    (progress : Dict Text ProgressResult) (u t : TaskDetail) (r p : ProgressResult)
    → Dict.lookup u.task_id progress ≡ some r
    → Dict.lookup t.task_id progress ≡ some p
    → u ≡ t
    → p ≡ r
same_progress progress u t r p found given same =
    some_injective p r
      (sym given ∙ ap (λ (x : TaskDetail). Dict.lookup x.task_id progress) (sym same) ∙ found)

module _ (progress : Dict Text ProgressResult) where
  pub active_step-Works :
      (ts : List TaskDetail) (t : TaskDetail)
      → AreLoaded progress ts
      → Member t ts
      → HasStep (λ (x : ProductionStep). is_active x.status) progress t
      → Works (active_step progress ts)
  unfolding active_step
  active_step-Works [] t loaded m h = elim m [ ]
  active_step-Works (u ∷ ts) t ((r, found), loaded) (inl same) (p, given, good) = rw found (
      step_found _ (active_step progress ts) (
        first_index-some (λ (x : ProductionStep). is_active x.status) 0 r.steps
          (ap (λ (q : ProgressResult). any_of (λ (x : ProductionStep). is_active x.status) q.steps)
              (sym (same_progress progress u t r p found given same))
            ∙ good)))
  active_step-Works (u ∷ ts) t ((r, found), loaded) (inr at) h = rw found (
      step_or-Works (first_index (λ (x : ProductionStep). is_active x.status) 0 r.steps)
        (active_step progress ts) (active_step-Works ts t loaded at h))

  pub blocked_from-Builds :
      (i : ℕ) (ts : List TaskDetail) (t : TaskDetail)
      → AreLoaded progress ts
      → Member t ts
      → (is_failed t.status ≡ true)
        ⊎ HasStep (λ (x : ProductionStep). is_failed x.status) progress t
      → Builds production_blocked (blocked_from progress i ts)
  unfolding blocked_from
  blocked_from-Builds i [] t loaded m h = elim m [ ]
  blocked_from-Builds i (u ∷ ts) t ((r, found), loaded) m h =
      elim (Bool-cases (is_failed u.status)) [
        | inl bad ↦ rw bad (_, refl, refl)
        | inr fine ↦
            rw (fine, found)
              (elim m [
                | inr at ↦
                    blocked_step-Builds
                      (first_index (λ (x : ProductionStep). is_failed x.status) 0 r.steps)
                      (blocked_from progress (suc i) ts)
                      (blocked_from-Builds (suc i) ts t loaded at h)
                | inl same ↦ elim h [
                  | inl bad ↦
                      absurd (cc (fine, ap (λ (x : TaskDetail). is_failed x.status) same, bad))
                  | inr (p, given, good) ↦
                      blocked_found
                        (first_index (λ (x : ProductionStep). is_failed x.status) 0 r.steps)
                        (blocked_from progress (suc i) ts)
                        (first_index-some (λ (x : ProductionStep). is_failed x.status) 0 r.steps
                          (ap
                              (λ (q : ProgressResult).
                                any_of (λ (x : ProductionStep). is_failed x.status) q.steps)
                              (sym (same_progress progress u t r p found given same))
                            ∙ good))
                ]
              ])
      ]
