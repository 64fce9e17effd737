-- ===== src/Workflow/Found.antt =====
-- On finding what a diagnosis points at (agent-service/app/workflows/diagnosis_generation.py).
use productline_agent.Base.{
  ℕ, suc, ◌≡◌, ◌⊎◌, inl, inr, refl, sym, ap, ◌∙◌, Bool, true, false, ◌&&◌, ◌||◌, some_injective,
  Option, none, some, List, [], ◌∷◌, ◌++◌, map, Text, text_eq, ◌==◌, eq_iff, All, Member, any_of,
  all_of, contains, repeats, Bool-cases, ok,
}
use productline_agent.Base.Dict
use productline_agent.Base.Dict.{Dict, keys, values}
use productline_agent.Workflow.Facts.{
  TaskDetail, ProductionStep, ProgressResult, QualityIssue, ReviewRecord, ReviewResult,
}
use productline_agent.Workflow.Rules.{all_steps, all_issues, all_reviews, same_set}
use productline_agent.Workflow.Generation.{first_index}
use productline_agent.Workflow.Diagnoses.{Indexed, item, indexed, all_indexed, first_item}

pub first_index-some :
    {A : Type 0} (p : A → Bool) (i : ℕ) (xs : List A)
    → any_of p xs ≡ true
    → (r : ℕ × A) × (first_index p i xs ≡ some r)
unfolding first_index
first_index-some p i [] h = cc
first_index-some p i (x ∷ xs) h = elim (Bool-cases (p x)) [
  | inl good ↦ ((i, x), rw good refl)
  | inr bad ↦ let (r, found) = first_index-some p (suc i) xs (rw bad at h) in (r, rw bad found)
]

pub any-Member :
    {A : Type 0} (p : A → Bool) (xs : List A)
    → any_of p xs ≡ true
    → (x : A) × Member x xs × (p x ≡ true)
any-Member p [] h = cc
any-Member p (x ∷ xs) h = elim (Bool-cases (p x)) [
  | inl good ↦ (x, inl refl, good)
  | inr bad ↦ let (y, at, good) = any-Member p xs (rw bad at h) in (y, inr at, good)
]

pub Member-any :
    {A : Type 0} (p : A → Bool) (x : A) (xs : List A)
    → Member x xs
    → p x ≡ true
    → any_of p xs ≡ true
Member-any p x [] m h = elim m [ ]
Member-any p x (y ∷ xs) (inl e) h = let good : p y ≡ true = ap p e ∙ h in rw good refl
Member-any p x (y ∷ xs) (inr m) h = elim (Bool-cases (p y)) [
  | inl good ↦ rw good refl
  | inr bad ↦ rw bad (Member-any p x xs m h)
]

neither : (a b : Bool) → (a || b) ≡ false → (a ≡ false) × (b ≡ false)
neither true b h = absurd (cc h)
neither false b h = (refl, h)

pub both_true : (a b : Bool) → (a && b) ≡ true → (a ≡ true) × (b ≡ true)
both_true true b h = (refl, h)
both_true false b h = absurd (cc h)

task_named :
    (k : Text) (ts : List TaskDetail)
    → contains k (map (λ (t : TaskDetail). t.task_id) ts) ≡ true
    → (t : TaskDetail) × Member t ts × (t.task_id ≡ k)
task_named k [] h = absurd (cc h)
task_named k (t ∷ ts) h = elim (Bool-cases (t.task_id == k)) [
  | inl same ↦ (t, inl refl, (eq_iff t.task_id k).0 same)
  | inr other ↦ let (u, at, e) = task_named k ts (rw other at h) in (u, inr at, e)
]

module _ {V : Type 0} where
  value-Member : (v : V) (d : Dict Text V) → Member v (values d) → (k : Text) × Member (k, v) d
  value-Member v [] m = elim m [ ]
  value-Member v ((k, w) ∷ d) (inl e) = (k, inl (ap (λ (x : V). (k, x)) e))
  value-Member v ((k, w) ∷ d) (inr m) = let (j, at) = value-Member v d m in (j, inr at)

  key-contains : (k : Text) (v : V) (d : Dict Text V) → Member (k, v) d → contains k (keys d) ≡ true
  key-contains k v [] m = elim m [ ]
  key-contains k v ((j, w) ∷ d) (inl e) =
      let same : (j == k) ≡ true = (eq_iff j k).1 (ap (λ (x : Text × V). x.0) e) in rw same refl
  key-contains k v ((j, w) ∷ d) (inr m) = elim (Bool-cases (j == k)) [
    | inl same ↦ rw same refl
    | inr other ↦ rw other (key-contains k v d m)
  ]

  lookup-Member :
      (k : Text) (v : V) (d : Dict Text V)
      → repeats (keys d) ≡ false
      → Member (k, v) d
      → Dict.lookup k d ≡ some v
  unfolding Dict.lookup
  lookup-Member k v [] h m = elim m [ ]
  lookup-Member k v ((j, w) ∷ d) h (inl e) =
      let same : (j == k) ≡ true = (eq_iff j k).1 (ap (λ (x : Text × V). x.0) e) in
      rw same (ap (λ (x : Text × V). some x.1) e)
  lookup-Member k v ((j, w) ∷ d) h (inr m) =
      let (alone, rest) = neither (contains j (keys d)) (repeats (keys d)) h in
      elim (Bool-cases (j == k)) [
        | inl same ↦ absurd (
            cc (
              alone,
              ap (λ (x : Text). contains x (keys d)) ((eq_iff j k).0 same),
              key-contains k v d m,
            ))
        | inr other ↦ rw other (lookup-Member k v d rest m)
      ]

  -- Every value of a dict whose keys are the tasks is found under one of them.
  pub value_of_task :
      (v : V) (d : Dict Text V) (ts : List TaskDetail)
      → repeats (keys d) ≡ false
      → same_set (keys d) (map (λ (t : TaskDetail). t.task_id) ts) ≡ true
      → Member v (values d)
      → (t : TaskDetail) × Member t ts × (Dict.lookup t.task_id d ≡ some v)
  value_of_task v d ts alone same m =
      let (k, at) = value-Member v d m in
      let ids = map (λ (t : TaskDetail). t.task_id) ts in
      let (covered, back) =
        both_true (all_of (λ x. contains x ids) (keys d)) (all_of (λ y. contains y (keys d)) ids)
          same in
      let (t, listed, e) =
        task_named k ts
          (contained (λ x. contains x ids) k (keys d) covered (key-contains k v d at)) in
      (t, listed, ap (λ (x : Text). Dict.lookup x d) e ∙ lookup-Member k v d alone at)
    where
      contained :
          (p : Text → Bool) (k : Text) (ks : List Text)
          → all_of p ks ≡ true
          → contains k ks ≡ true
          → p k ≡ true
      contained p k [] h c = absurd (cc c)
      contained p k (j ∷ ks) h c =
          let (here, later) = both_true (p j) (all_of p ks) h in
          elim (Bool-cases (j == k)) [
            | inl same ↦ ap p (sym ((eq_iff j k).0 same)) ∙ here
            | inr other ↦ contained p k ks later (rw other at c)
          ]

any-append :
    {A : Type 0} (p : A → Bool) (xs ys : List A)
    → any_of p (xs ++ ys) ≡ true
    → (any_of p xs ≡ true) ⊎ (any_of p ys ≡ true)
any-append p [] ys h = inr h
any-append p (x ∷ xs) ys h = elim (Bool-cases (p x)) [
  | inl good ↦ inl (rw good refl)
  | inr bad ↦ elim (any-append p xs ys (rw bad at h)) [
    | inl early ↦ inl (rw bad early)
    | inr late ↦ inr late
  ]
]

pub step_within :
    (p : ProductionStep → Bool) (vs : List ProgressResult)
    → any_of p (all_steps vs) ≡ true
    → (v : ProgressResult) × Member v vs × (any_of p v.steps ≡ true)
step_within p [] h = absurd (cc h)
step_within p (v ∷ vs) h = elim (any-append p v.steps (all_steps vs) h) [
  | inl here ↦ (v, inl refl, here)
  | inr later ↦ let (u, at, good) = step_within p vs later in (u, inr at, good)
]

pub issue_within :
    (p : QualityIssue → Bool) (vs : List (List QualityIssue))
    → any_of p (all_issues vs) ≡ true
    → (v : List QualityIssue) × Member v vs × (any_of p v ≡ true)
issue_within p [] h = absurd (cc h)
issue_within p (v ∷ vs) h = elim (any-append p v (all_issues vs) h) [
  | inl here ↦ (v, inl refl, here)
  | inr later ↦ let (u, at, good) = issue_within p vs later in (u, inr at, good)
]

pub review_within :
    (p : ReviewRecord → Bool) (vs : List (Option ReviewResult))
    → any_of p (all_reviews vs) ≡ true
    → (r : ReviewResult) × Member (some r) vs × (any_of p r.reviews ≡ true)
review_within p [] h = absurd (cc h)
review_within p (none ∷ vs) h = let (u, at, good) = review_within p vs h in (u, inr at, good)
review_within p (some v ∷ vs) h = elim (any-append p v.reviews (all_reviews vs) h) [
  | inl here ↦ (v, inl refl, here)
  | inr later ↦ let (u, at, good) = review_within p vs later in (u, inr at, good)
]

any-both :
    {A : Type 0} (p : A → Bool) (xs ys : List A)
    → (any_of p xs ≡ true) ⊎ (any_of p ys ≡ true)
    → any_of p (xs ++ ys) ≡ true
any-both p [] ys (inl h) = absurd (cc h)
any-both p [] ys (inr h) = h
any-both p (x ∷ xs) ys h = elim (Bool-cases (p x)) [
  | inl good ↦ rw good refl
  | inr bad ↦
      rw bad (any-both p xs ys (elim h [ inl early ↦ inl (rw bad at early) | inr late ↦ inr late ]))
]

module _ {A : Type 0} (p : A → Bool) where
  abbrev on_item : Indexed A → Bool
  on_item x = p (item x)

  any-indexed :
      (task : Text) (i : ℕ) (xs : List A)
      → any_of p xs ≡ true
      → any_of on_item (indexed task i xs) ≡ true
  unfolding indexed
  any-indexed task i [] h = h
  any-indexed task i (x ∷ xs) h = elim (Bool-cases (p x)) [
    | inl good ↦ rw good refl
    | inr bad ↦ rw bad (any-indexed task (suc i) xs (rw bad at h))
  ]

  pub first_item-some :
      (xs : List (Indexed A)) → any_of on_item xs ≡ true → (r : ℕ × A) × (first_item p xs ≡ some r)
  first_item-some [] h = absurd (cc h)
  first_item-some ((task, (i, x)) ∷ xs) h = elim (Bool-cases (p x)) [
    | inl good ↦ ((i, x), rw good refl)
    | inr bad ↦ let (r, found) = first_item-some xs (rw bad at h) in (r, rw bad found)
  ]

  -- The list over all tasks, and that it holds what one of their lists holds.
  pub all_indexed-some :
      (of_task : Text → Option (List A)) (ts : List TaskDetail)
      → All (λ (t : TaskDetail). (xs : List A) × (of_task t.task_id ≡ some xs)) ts
      → (ys : List (Indexed A)) × (all_indexed of_task ts ≡ ok ys)
        × ((t : TaskDetail) (xs : List A)
            → Member t ts
            → of_task t.task_id ≡ some xs
            → any_of p xs ≡ true
            → any_of on_item ys ≡ true)
  unfolding all_indexed
  all_indexed-some of_task [] h = ([], refl, λ t xs m e good. elim m [ ])
  all_indexed-some of_task (t ∷ ts) (here, later) =
      let (xs, given) = here in
      let (ys, made, holds) = all_indexed-some of_task ts later in
      (
        indexed t.task_id 0 xs ++ ys,
        rw given (rw made refl),
        λ u zs m e good. any-both on_item (indexed t.task_id 0 xs) ys (elim m [
          | inl same ↦
              let one : xs ≡ zs =
                some_injective xs zs
                  (sym given ∙ ap (λ (x : TaskDetail). of_task x.task_id) same ∙ e) in
              inl (any-indexed t.task_id 0 xs (ap (λ (l : List A). any_of p l) one ∙ good))
          | inr at ↦ inr (holds u zs at e good)
        ]),
      )
