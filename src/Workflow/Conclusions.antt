-- ===== src/Workflow/Conclusions.antt =====
-- On the diagnosis that the fixed rules lead to (agent-service/app/workflows/diagnosis_rules.py and
-- agent-service/app/workflows/diagnosis_generation.py).
use productline_agent.Base.{
  ℕ, ◌≡◌, ◌⊎◌, inl, inr, refl, ap, Bool, true, false, not, ◌&&◌, ◌||◌, Option, none, some, List, [],
  ◌∷◌, map, Text, text_eq, All, Member, any_of, all_of, repeats, keep_if, non_empty, Bool-cases, ok,
  contains,
}
use productline_agent.Base.Dict.{keys, values}
use productline_agent.Workflow.Facts.{
  TaskDetail, ProductionStep, ProgressResult, QualityIssue, ReviewRecord, ReviewResult,
  OrderDiagnosisState, is_failed, is_active, is_unresolved, is_resolved, is_approved,
}
use productline_agent.Workflow.Rules.{
  production, production_blocked, quality_review, review, task_ids, task_complete, all_steps,
  all_issues, all_reviews, same_set, requires_review, has_complete_facts, progress_complete,
  issues_complete, reviews_complete, some_failure, some_production,
}
use productline_agent.Workflow.Generation.{first_index, active_step, production_diagnosis}
use productline_agent.Workflow.Diagnoses.{
  Indexed, item, chosen, issues_of, reviews_of, review_list, indexed_issues, indexed_reviews,
  first_item, quality_parts, quality_review_diagnosis, missing_review, review_diagnosis,
}
use productline_agent.Workflow.Report.{parts_of}
use productline_agent.Workflow.Found.{
  first_index-some, any-Member, both_true, value_of_task, step_within, issue_within, review_within,
  first_item-some, all_indexed-some,
}
use productline_agent.Workflow.Generated.{
  Builds, AreLoaded, HasStep, active_step-Works, blocked_from-Builds,
}
use productline_agent.Workflow.Conclusive.{
  active_found, with_evidence-Builds, missing_found, open_found, kept_some, quality-valid,
}

either : (a b : Bool) → (a || b) ≡ true → (a ≡ true) ⊎ (b ≡ true)
either true b h = inl refl
either false b h = inr h

-- All facts are loaded, and the dicts are over the tasks.
pub record IsLoaded (s : OrderDiagnosisState) : Type 0 where
  pub progress_loaded : AreLoaded s.progress s.tasks
  pub issues_loaded :
      All (λ (t : TaskDetail). (xs : List QualityIssue) × (issues_of s t.task_id ≡ some xs)) s.tasks
  pub reviews_loaded :
      All
        (λ (t : TaskDetail). (xs : List ReviewRecord) × (reviews_of s t.task_id ≡ some xs))
        s.tasks
  pub progress_keys : same_set (keys s.progress) (task_ids s) ≡ true
  pub issue_keys : same_set (keys s.quality_issues) (task_ids s) ≡ true
  pub review_keys : same_set (keys s.reviews) (task_ids s) ≡ true

-- The three dicts have no key twice.
pub record AreDicts (s : OrderDiagnosisState) : Type 0 where
  pub progress_once : repeats (keys s.progress) ≡ false
  pub issues_once : repeats (keys s.quality_issues) ≡ false
  pub reviews_once : repeats (keys s.reviews) ≡ false

progress_given :
    (id : Text) (o : Option ProgressResult)
    → progress_complete id o ≡ true
    → (p : ProgressResult) × (o ≡ some p)
progress_given id none h = absurd (cc h)
progress_given id (some p) h = (p, refl)

issues_given :
    (id : Text) (o : Option (List QualityIssue))
    → issues_complete id o ≡ true
    → (xs : List QualityIssue) × (o ≡ some xs)
issues_given id none h = absurd (cc h)
issues_given id (some xs) h = (xs, refl)

reviews_given :
    (id : Text) (known : List Text) (o : Option (Option ReviewResult))
    → reviews_complete id known o ≡ true
    → (xs : List ReviewRecord) × (review_list o ≡ some xs)
reviews_given id known none h = absurd (cc h)
reviews_given id known (some none) h = absurd (cc h)
reviews_given id known (some (some r)) h = (r.reviews, refl)

all_tasks :
    (f : Text → Bool) (P : TaskDetail → Type 0) (ts : List TaskDetail)
    → ((t : TaskDetail) → f t.task_id ≡ true → P t)
    → all_of f (map (λ (t : TaskDetail). t.task_id) ts) ≡ true
    → All P ts
all_tasks f P [] k h = tt
all_tasks f P (t ∷ ts) k h =
    let (here, later) = both_true (f t.task_id) _ h in (k t here, all_tasks f P ts k later)

-- The facts that are complete for the fixed rules are loaded.
pub complete-IsLoaded : (s : OrderDiagnosisState) → has_complete_facts s ≡ true → IsLoaded s
unfolding has_complete_facts task_complete
complete-IsLoaded s h =
    let (h8, each) = both_true _ (all_of (task_complete s) (task_ids s)) h in
    let (h7, review_keys) = both_true _ (same_set (keys s.reviews) (task_ids s)) h8 in
    let (h6, issue_keys) = both_true _ (same_set (keys s.quality_issues) (task_ids s)) h7 in
    let (h5, progress_keys) = both_true _ (same_set (keys s.progress) (task_ids s)) h6 in
    record {
      progress_loaded =
          all_tasks (task_complete s) _ s.tasks
            (λ t k. progress_given t.task_id _ (both_true _ _ (both_true _ _ k).0).0) each;
      issues_loaded =
          all_tasks (task_complete s) _ s.tasks
            (λ t k. issues_given t.task_id _ (both_true _ _ (both_true _ _ k).0).1) each;
      reviews_loaded =
          all_tasks (task_complete s) _ s.tasks
            (λ t k. reviews_given t.task_id _ _ (both_true _ _ k).1) each;
      progress_keys = progress_keys;
      issue_keys = issue_keys;
      review_keys = review_keys;
    }

module _ (s : OrderDiagnosisState) (dicts : AreDicts s) (loaded : IsLoaded s) where
  step_of_task :
      (f : ProductionStep → Bool)
      → any_of f (all_steps (values s.progress)) ≡ true
      → (t : TaskDetail) × Member t s.tasks × HasStep f s.progress t
  step_of_task f h =
      let (v, at, good) = step_within f (values s.progress) h in
      let (t, listed, found) =
        value_of_task v s.progress s.tasks dicts.progress_once loaded.progress_keys at in
      (t, listed, (v, found, good))

  pub blocked-Builds :
      some_failure s ≡ true → Builds production_blocked (parts_of production_blocked s)
  unfolding some_failure parts_of
  blocked-Builds h = elim (either (any_of (λ (t : TaskDetail). is_failed t.status) s.tasks) _ h) [
    | inl tasks ↦
        let (t, listed, bad) = any-Member (λ (t : TaskDetail). is_failed t.status) s.tasks tasks in
        blocked_from-Builds s.progress 0 s.tasks t loaded.progress_loaded listed (inl bad)
    | inr steps ↦
        let (t, listed, step) = step_of_task (λ (x : ProductionStep). is_failed x.status) steps in
        blocked_from-Builds s.progress 0 s.tasks t loaded.progress_loaded listed (inr step)
  ]

  pub production-Builds : some_production s ≡ true → Builds production (parts_of production s)
  unfolding some_production parts_of production_diagnosis
  production-Builds h = with_evidence-Builds _ (
      active_found (first_index (λ (t : TaskDetail). is_active t.status) 0 s.tasks)
        (active_step s.progress s.tasks)
        (elim (either (any_of (λ (t : TaskDetail). is_active t.status) s.tasks) _ h) [
          | inl tasks ↦
              inl (first_index-some (λ (t : TaskDetail). is_active t.status) 0 s.tasks tasks)
          | inr steps ↦
              let (t, listed, step) =
                step_of_task (λ (x : ProductionStep). is_active x.status) steps in
              inr (active_step-Works s.progress s.tasks t loaded.progress_loaded listed step)
        ]))

  -- The issues that pass can be listed, and some are, if one is loaded.
  issues_listed :
      (p : QualityIssue → Bool)
      → (ys : List (Indexed QualityIssue)) × (indexed_issues s p ≡ ok ys)
        × (any_of p (all_issues (values s.quality_issues)) ≡ true → non_empty ys ≡ true)
  unfolding indexed_issues
  issues_listed p =
      let (ys, made, holds) = all_indexed-some p (issues_of s) s.tasks loaded.issues_loaded in
      (
        keep_if (λ (x : Indexed QualityIssue). p (item x)) ys,
        ap (chosen p) made,
        λ h.
            let (v, at, good) = issue_within p (values s.quality_issues) h in
            let (t, listed, found) =
              value_of_task v s.quality_issues s.tasks dicts.issues_once loaded.issue_keys at in
            kept_some (λ (x : Indexed QualityIssue). p (item x)) ys (holds t v listed found good),
      )

  reviews_listed :
      (p : ReviewRecord → Bool)
      → (ys : List (Indexed ReviewRecord)) × (indexed_reviews s ≡ ok ys)
        × (any_of p (all_reviews (values s.reviews)) ≡ true
            → any_of (λ (x : Indexed ReviewRecord). p (item x)) ys ≡ true)
  unfolding indexed_reviews
  reviews_listed p =
      let (ys, made, holds) = all_indexed-some p (reviews_of s) s.tasks loaded.reviews_loaded in
      (
        ys,
        made,
        λ h.
            let (v, at, good) = review_within p (values s.reviews) h in
            let (t, listed, found) =
              value_of_task (some v) s.reviews s.tasks dicts.reviews_once loaded.review_keys at in
            holds t v.reviews listed (ap review_list found) good,
      )

  pub quality-Builds :
      any_of (λ (i : QualityIssue). is_unresolved i.status) (all_issues (values s.quality_issues))
        ≡ true
      → Builds quality_review (parts_of quality_review s)
  unfolding parts_of quality_review_diagnosis
  quality-Builds h =
      let (issues, made, some_issue) =
        issues_listed (λ (i : QualityIssue). is_unresolved i.status) in
      let (reviews, listed, _) = reviews_listed (λ r. true) in
      (
        quality_parts s issues reviews,
        rw (made, listed) refl,
        quality-valid s issues reviews (some_issue h),
      )

  first_any :
      (ys : List (Indexed QualityIssue))
      → non_empty ys ≡ true
      → (r : ℕ × QualityIssue) × (first_item (λ i. true) ys ≡ some r)
  first_any [] h = absurd (cc h)
  first_any ((t, (i, x)) ∷ ys) h = ((i, x), refl)

  any_weaker :
      (p q : QualityIssue → Bool) (xs : List QualityIssue)
      → any_of (λ x. p x && q x) xs ≡ true
      → any_of p xs ≡ true
  any_weaker p q [] h = h
  any_weaker p q (x ∷ xs) h = elim (Bool-cases (p x)) [
    | inl good ↦ rw good refl
    | inr bad ↦ rw bad (any_weaker p q xs (rw bad at h))
  ]

  pub review-Builds :
      requires_review (all_issues (values s.quality_issues)) (all_reviews (values s.reviews)) ≡ true
      → Builds review (parts_of review s)
  unfolding requires_review parts_of review_diagnosis
  review-Builds h =
      let (reviews, listed, some_review) =
        reviews_listed (λ (r : ReviewRecord). not (is_approved r.status)) in
      let (issues, made, some_issue) = issues_listed (λ (i : QualityIssue). is_resolved i.status) in
      rw (listed, made)
        (open_found (first_item (λ (r : ReviewRecord). not (is_approved r.status)) reviews)
          (missing_review (first_item (λ i. true) issues))
          (elim (either
            (any_of (λ (r : ReviewRecord). not (is_approved r.status))
              (all_reviews (values s.reviews)))
            _ h) [
              | inl waiting ↦ inl (first_item-some _ reviews (some_review waiting))
              | inr missing ↦ inr (
                  missing_found (first_item (λ i. true) issues) (
                    first_any issues (
                      some_issue (
                        any_weaker (λ (i : QualityIssue). is_resolved i.status)
                          (λ (i : QualityIssue). not (
                            contains i.issue_id (
                              map (λ (r : ReviewRecord). r.issue_id)
                                (keep_if (λ (r : ReviewRecord). is_approved r.status)
                                  (all_reviews (values s.reviews))))))
                          (all_issues (values s.quality_issues)) missing))))
            ]))
