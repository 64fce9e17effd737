-- ===== src/Workflow/Reviews.antt =====
-- The reviews that the rules ask for (agent-service/app/workflows/diagnosis_rules.py, `_requires_review`).
use productline_agent.Base.{
  ◌≡◌, refl, ◌↔◌, Bool, true, false, not, ◌&&◌, ◌||◌, List, [], ◌∷◌, map, Text, text_eq, ◌==◌,
  if◌then◌else◌, All, Member, any_of, keep_if, contains, eq_iff, arith, Bool-cases, inl, inr,
}
use productline_agent.Workflow.Facts.{
  pending, running, failed, blocked, open_, processing, closed, review_pending, rejected,
  rework_required, ProductionStatus, completed, QualityIssue, ReviewRecord, ReviewStatus, approved,
  is_failed, is_active, is_resolved, is_approved, resolved, QualityIssueStatus,
}
use productline_agent.Workflow.Rules.{requires_review}

module _ {A : Type 0} where
  pub any_of-none : (p : A → Bool) (xs : List A) → any_of p xs ≡ false → All (λ x. p x ≡ false) xs
  any_of-none p [] h = tt
  any_of-none p (x ∷ xs) h = (ground arith, any_of-none p xs (ground arith))

  pub none-any_of : (p : A → Bool) (xs : List A) → All (λ x. p x ≡ false) xs → any_of p xs ≡ false
  none-any_of p [] h = refl
  none-any_of p (x ∷ xs) h = ground (arith, none-any_of p xs h.1)

  -- Two lists that are clear of two tests are clear of what the tests leave.
  pub All-both :
      (P Q R : A → Type 0) (xs : List A)
      → ((x : A) → P x → Q x → R x)
      → All P xs
      → All Q xs
      → All R xs
  All-both P Q R [] f h k = tt
  All-both P Q R (x ∷ xs) f h k = (f x h.0 k.0, All-both P Q R xs f h.1 k.1)

  pub All-into : (P Q : A → Type 0) (xs : List A) → ((x : A) → P x → Q x) → All P xs → All Q xs
  All-into P Q [] f h = tt
  All-into P Q (x ∷ xs) f h = (f x h.0, All-into P Q xs f h.1)

-- An approved review of the issue.
abbrev pub HasApproval : Text → List ReviewRecord → Type 0
HasApproval issue_id reviews =
    (r : ReviewRecord) × Member r reviews × (r.issue_id ≡ issue_id) × (r.status ≡ approved)

approved_of : (s : ReviewStatus) → is_approved s ≡ true → s ≡ approved
approved_of approved h = refl
approved_of review_pending h = cc
approved_of rejected h = cc
approved_of rework_required h = cc

-- The issues that an approved review names.
abbrev pub approved_ids : List ReviewRecord → List Text
approved_ids reviews =
    map (λ (r : ReviewRecord). r.issue_id)
      (keep_if (λ (r : ReviewRecord). is_approved r.status) reviews)

approval-contains :
    (id : Text) (reviews : List ReviewRecord)
    → contains id (approved_ids reviews) ≡ true
    → HasApproval id reviews
approval-contains id [] h = cc
approval-contains id (r ∷ rs) h = elim (Bool-cases (is_approved r.status)) [
  | inr dropped ↦ later (approval-contains id rs (contains_dropped dropped h))
  | inl kept ↦ elim (Bool-cases (r.issue_id == id)) [
    | inl here ↦ (r, inl refl, (eq_iff r.issue_id id).0 here, approved_of r.status kept)
    | inr other ↦ later (approval-contains id rs (contains_other kept other h))
  ]
]
  where
    later : HasApproval id rs → HasApproval id (r ∷ rs)
    later (q, m, same, ok) = (q, inr m, same, ok)

    contains_dropped :
        is_approved r.status ≡ false
        → contains id (approved_ids (r ∷ rs)) ≡ true
        → contains id (approved_ids rs) ≡ true
    contains_dropped e h = ground arith

    contains_other :
        is_approved r.status ≡ true
        → (r.issue_id == id) ≡ false
        → contains id (approved_ids (r ∷ rs)) ≡ true
        → contains id (approved_ids rs) ≡ true
    contains_other e f h = ground arith

contains-approval :
    (id : Text) (reviews : List ReviewRecord)
    → HasApproval id reviews
    → contains id (approved_ids reviews) ≡ true
contains-approval id [] (r, m, same, ok) = elim m [ ]
contains-approval id (r ∷ rs) (q, inl e, same, ok) =
    first (is_approved r.status) (rw (e, ok) refl) ((eq_iff r.issue_id id).1 (rw e same))
  where
    first :
        (b : Bool)
        → b ≡ true
        → (r.issue_id == id) ≡ true
        → contains id (
            map
              (λ (r : ReviewRecord). r.issue_id)
              (let rest = keep_if (λ (r : ReviewRecord). is_approved r.status) rs in
                if b then r ∷ rest else rest))
          ≡ true
    first true f g = ground arith
    first false f g = cc
contains-approval id (r ∷ rs) (q, inr m, same, ok) =
    later (is_approved r.status) (contains-approval id rs (q, m, same, ok))
  where
    later :
        (b : Bool)
        → contains id (approved_ids rs) ≡ true
        → contains id (
            map
              (λ (r : ReviewRecord). r.issue_id)
              (let rest = keep_if (λ (r : ReviewRecord). is_approved r.status) rs in
                if b then r ∷ rest else rest))
          ≡ true
    later true h = ground arith
    later false h = h

pub completed_of :
    (s : ProductionStatus) → is_failed s ≡ false → is_active s ≡ false → s ≡ completed
completed_of pending h k = cc
completed_of running h k = cc
completed_of completed h k = refl
completed_of failed h k = cc
completed_of blocked h k = cc

resolved_is : (s : QualityIssueStatus) → s ≡ resolved → is_resolved s ≡ true
resolved_is s e = rw e

is_resolved_of : (s : QualityIssueStatus) → is_resolved s ≡ true → s ≡ resolved
is_resolved_of resolved h = refl
is_resolved_of open_ h = cc
is_resolved_of processing h = cc
is_resolved_of closed h = cc

-- What each of the rules' tests says, when it does not hold.
issue_reviewed :
    (reviews : List ReviewRecord) (i : QualityIssue)
    → (is_resolved i.status && not (contains i.issue_id (approved_ids reviews))) ≡ false
    → i.status ≡ resolved
    → HasApproval i.issue_id reviews
issue_reviewed reviews i h e = approval-contains i.issue_id reviews (
    both_off (is_resolved i.status) (contains i.issue_id (approved_ids reviews))
      (resolved_is i.status e) h)
  where
    both_off : (a b : Bool) → a ≡ true → (a && not b) ≡ false → b ≡ true
    both_off a b f g = ground arith

reviewed_issue :
    (reviews : List ReviewRecord) (i : QualityIssue)
    → (i.status ≡ resolved → HasApproval i.issue_id reviews)
    → (is_resolved i.status && not (contains i.issue_id (approved_ids reviews))) ≡ false
reviewed_issue reviews i h =
    both_off (is_resolved i.status) (contains i.issue_id (approved_ids reviews))
      (λ e. contains-approval i.issue_id reviews (h (is_resolved_of i.status e)))
  where
    both_off : (a b : Bool) → (a ≡ true → b ≡ true) → (a && not b) ≡ false
    both_off true b f = ground (arith, f refl)
    both_off false b f = refl

pub false_or : (a b : Bool) → (a || b) ≡ false → (a ≡ false) × (b ≡ false)
false_or a b h = ground arith

pub or_false : (a b : Bool) → a ≡ false → b ≡ false → (a || b) ≡ false
or_false a b h k = ground arith

pub false_of_not : (a : Bool) → not a ≡ false → a ≡ true
false_of_not a h = ground arith

approved_not : (s : ReviewStatus) → s ≡ approved → not (is_approved s) ≡ false
approved_not s e = rw e

pub no_review :
    (issues : List QualityIssue) (reviews : List ReviewRecord)
    → (requires_review issues reviews ≡ false) ↔ (
        All (λ (r : ReviewRecord). r.status ≡ approved) reviews
        × All (λ (i : QualityIssue). i.status ≡ resolved → HasApproval i.issue_id reviews) issues)
unfolding requires_review
no_review issues reviews = (
  λ h.
      let (a, b) =
        false_or (any_of (λ (r : ReviewRecord). not (is_approved r.status)) reviews) _ h in
      (
        All-into _ _ reviews (λ r e. approved_of r.status (false_of_not (is_approved r.status) e))
            (any_of-none (λ (r : ReviewRecord). not (is_approved r.status)) reviews a),
        All-into _ _ issues (issue_reviewed reviews) (any_of-none _ issues b),
      ),
  λ (a, b).
      or_false (any_of (λ (r : ReviewRecord). not (is_approved r.status)) reviews) _
        (none-any_of _ reviews (All-into _ _ reviews (λ r e. approved_not r.status e) a))
        (none-any_of _ issues (All-into _ _ issues (reviewed_issue reviews) b)),
)
