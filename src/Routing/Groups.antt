-- ===== src/Routing/Groups.antt =====
-- On the groups of the candidates by value (agent-service/app/routing/entity_merge.py).
use productline_agent.Base.{
  ◌≡◌, refl, sym, ◌∙◌, ◌≤◌, Bool, true, List, [], ◌∷◌, ◌++◌, Text, text_eq, ◌==◌, eq_iff, ltb,
  keep_if, All, Member, Bool-cases, inl, inr, ◌⊎◌, arith, some, some_injective,
}
use productline_agent.Base.Dict.{Dict, values}
use productline_agent.Base.Sorting.{insert_sorted, sorted, All-insert_sorted}
use productline_agent.Routing.Entities.{SourcedEntity}
use productline_agent.Routing.Merge.{
  priority, push, group, highest_from, highest_each, highest_priority, only,
}

module _ {A : Type 0} where
  pub Member-append_left : (x : A) (xs ys : List A) → Member x xs → Member x (xs ++ ys)
  Member-append_left x [] ys m = elim m [ ]
  Member-append_left x (z ∷ xs) ys (inl e) = inl e
  Member-append_left x (z ∷ xs) ys (inr m) = inr (Member-append_left x xs ys m)

  pub Member-append_last : (x : A) (xs : List A) → Member x (xs ++ (x ∷ []))
  Member-append_last x [] = inl refl
  Member-append_last x (z ∷ xs) = inr (Member-append_last x xs)

  pub All-append_last :
      (P : A → Type 0) (xs : List A) (x : A) → All P xs → P x → All P (xs ++ (x ∷ []))
  All-append_last P [] x h p = (p, tt)
  All-append_last P (z ∷ xs) x h p = (h.0, All-append_last P xs x h.1 p)

  pub Member-All : (P : A → Type 0) (x : A) (xs : List A) → Member x xs → All P xs → P x
  Member-All P x [] m h = elim m [ ]
  Member-All P x (z ∷ xs) (inl e) h = rw (sym e) h.0
  Member-All P x (z ∷ xs) (inr m) h = Member-All P x xs m h.1

  pub All-Member : (P : A → Type 0) (xs : List A) → ((x : A) → Member x xs → P x) → All P xs
  All-Member P [] f = tt
  All-Member P (x ∷ xs) f = (f x (inl refl), All-Member P xs (λ y m. f y (inr m)))

  Member-kept_first :
      (p : A → Bool) (z : A) (xs : List A) → p z ≡ true → Member z (keep_if p (z ∷ xs))
  Member-kept_first p z xs h = rw h (inl refl)

  pub Member-keep_if :
      (p : A → Bool) (x : A) (xs : List A) → Member x xs → p x ≡ true → Member x (keep_if p xs)
  Member-keep_if p x [] m h = elim m [ ]
  Member-keep_if p x (z ∷ xs) (inl e) h = rw (sym e) (Member-kept_first p z xs (rw e h))
  Member-keep_if p x (z ∷ xs) (inr m) h = elim (Bool-cases (p z)) [
    | inl kept ↦ rw kept (inr (Member-keep_if p x xs m h))
    | inr dropped ↦ rw dropped (Member-keep_if p x xs m h)
  ]

  pub All-kept :
      (p : A → Bool) (P : A → Type 0) (xs : List A)
      → All P xs
      → All (λ x. P x × (p x ≡ true)) (keep_if p xs)
  All-kept p P [] h = tt
  All-kept p P (x ∷ xs) h = elim (Bool-cases (p x)) [
    | inl kept ↦ rw kept ((h.0, kept), All-kept p P xs h.1)
    | inr dropped ↦ rw dropped (All-kept p P xs h.1)
  ]

  module _ (leq : A → A → Bool) where
    Member-insert_sorted :
        (x y : A) (ys : List A) → (x ≡ y) ⊎ Member y ys → Member y (insert_sorted leq x ys)
    unfolding insert_sorted
    Member-insert_sorted x y [] m = m
    Member-insert_sorted x y (z ∷ ys) m = elim (Bool-cases (leq x z)) [
      | inl before ↦ rw before m
      | inr after ↦ rw after (later (Member-insert_sorted x y ys) m)
    ]
      where
        later :
            ((x ≡ y) ⊎ Member y ys → Member y (insert_sorted leq x ys))
            → (x ≡ y) ⊎ ((z ≡ y) ⊎ Member y ys)
            → (z ≡ y) ⊎ Member y (insert_sorted leq x ys)
        later f (inl e) = inr (f (inl e))
        later f (inr (inl e)) = inl e
        later f (inr (inr m)) = inr (f (inr m))

    pub Member-sorted : (y : A) (ys : List A) → Member y ys → Member y (sorted leq ys)
    unfolding sorted
    Member-sorted y [] m = m
    Member-sorted y (x ∷ ys) (inl e) = Member-insert_sorted x y (sorted leq ys) (inl e)
    Member-sorted y (x ∷ ys) (inr m) =
        Member-insert_sorted x y (sorted leq ys) (inr (Member-sorted y ys m))

    pub All-sorted : (P : A → Type 0) (ys : List A) → All P ys → All P (sorted leq ys)
    unfolding sorted
    All-sorted P [] h = tt
    All-sorted P (y ∷ ys) h = All-insert_sorted leq P y (sorted leq ys) h.0 (All-sorted P ys h.1)

-- Every group holds elements with its value alone, all of which have a property.
abbrev pub AllGroups : (SourcedEntity → Type 0) → Dict Text (List SourcedEntity) → Type 0
AllGroups P [] = Unit
AllGroups P ((v, xs) ∷ d) = All (λ (x : SourcedEntity). P x × (x.value ≡ v)) xs × AllGroups P d

-- The group of its value has the element.
abbrev pub Has : SourcedEntity → Dict Text (List SourcedEntity) → Type 0
Has x [] = ⊥
Has x ((v, xs) ∷ d) = Member x xs ⊎ Has x d

push-AllGroups :
    (P : SourcedEntity → Type 0) (e : SourcedEntity) (d : Dict Text (List SourcedEntity))
    → P e
    → AllGroups P d
    → AllGroups P (push e d)
unfolding push
push-AllGroups P e [] p h = (((p, refl), tt), tt)
push-AllGroups P e ((v, xs) ∷ d) p h = elim (Bool-cases (v == e.value)) [
  | inl same ↦ rw same (All-append_last _ xs e h.0 (p, sym ((eq_iff v e.value).0 same)), h.1)
  | inr other ↦ rw other (h.0, push-AllGroups P e d p h.1)
]

push-Has : (e : SourcedEntity) (d : Dict Text (List SourcedEntity)) → Has e (push e d)
unfolding push
push-Has e [] = inl (inl refl)
push-Has e ((v, xs) ∷ d) = elim (Bool-cases (v == e.value)) [
  | inl same ↦ rw same (inl (Member-append_last e xs))
  | inr other ↦ rw other (inr (push-Has e d))
]

push-Has_old :
    (x e : SourcedEntity) (d : Dict Text (List SourcedEntity)) → Has x d → Has x (push e d)
unfolding push
push-Has_old x e [] h = elim h [ ]
push-Has_old x e ((v, xs) ∷ d) h = elim (Bool-cases (v == e.value)) [
  | inl same ↦ rw same (grown h)
  | inr other ↦ rw other (later (push-Has_old x e d) h)
]
  where
    grown : Member x xs ⊎ Has x d → Member x (xs ++ (e ∷ [])) ⊎ Has x d
    grown (inl m) = inl (Member-append_left x xs (e ∷ []) m)
    grown (inr m) = inr m

    later : (Has x d → Has x (push e d)) → Member x xs ⊎ Has x d → Member x xs ⊎ Has x (push e d)
    later f (inl m) = inl m
    later f (inr m) = inr (f m)

pub group-AllGroups :
    (P : SourcedEntity → Type 0) (es : List SourcedEntity) (d : Dict Text (List SourcedEntity))
    → All P es
    → AllGroups P d
    → AllGroups P (group es d)
unfolding group
group-AllGroups P [] d h k = k
group-AllGroups P (e ∷ es) d h k = group-AllGroups P es (push e d) h.1 (push-AllGroups P e d h.0 k)

pub group-Has :
    (x : SourcedEntity) (es : List SourcedEntity) (d : Dict Text (List SourcedEntity))
    → Member x es ⊎ Has x d
    → Has x (group es d)
unfolding group
group-Has x [] d (inl m) = elim m [ ]
group-Has x [] d (inr h) = h
group-Has x (e ∷ es) d (inl (inl same)) =
    group-Has x es (push e d) (inr (rw (sym same) (push-Has e d)))
group-Has x (e ∷ es) d (inl (inr m)) = group-Has x es (push e d) (inl m)
group-Has x (e ∷ es) d (inr h) = group-Has x es (push e d) (inr (push-Has_old x e d h))

pub highest_from-All :
    (P : SourcedEntity → Type 0) (best : SourcedEntity) (es : List SourcedEntity)
    → P best
    → All P es
    → P (highest_from best es)
unfolding highest_from
highest_from-All P best [] p h = p
highest_from-All P best (e ∷ es) p h = elim (Bool-cases (ltb (priority best) (priority e))) [
  | inl less ↦ rw less (highest_from-All P e es h.0 h.1)
  | inr more ↦ rw more (highest_from-All P best es p h.1)
]

highest_from-best :
    (best : SourcedEntity) (es : List SourcedEntity)
    → priority best ≤ priority (highest_from best es)
unfolding highest_from
highest_from-best best [] = omega arith
highest_from-best best (e ∷ es) = ground (arith, highest_from-best best es, highest_from-best e es)

highest_from-Member :
    (x best : SourcedEntity) (es : List SourcedEntity)
    → Member x es
    → priority x ≤ priority (highest_from best es)
unfolding highest_from
highest_from-Member x best [] m = elim m [ ]
highest_from-Member x best (e ∷ es) (inl same) =
    rw (sym same) (ground (arith, highest_from-best best es, highest_from-best e es))
highest_from-Member x best (e ∷ es) (inr m) =
    ground (arith, highest_from-Member x best es m, highest_from-Member x e es m)

pub highest_each-All :
    (P : SourcedEntity → Type 0) (d : Dict Text (List SourcedEntity))
    → AllGroups P d
    → All P (highest_each (values d))
unfolding highest_each
highest_each-All P [] h = tt
highest_each-All P ((v, []) ∷ d) h = highest_each-All P d h.1
highest_each-All P ((v, e ∷ es) ∷ d) h = (
  (highest_from-All (λ (x : SourcedEntity). P x × (x.value ≡ v)) e es h.0.0 h.0.1).0,
  highest_each-All P d h.1,
)

-- An element of a group is not above the highest of its value.
abbrev pub Covered : SourcedEntity → List SourcedEntity → Type 0
Covered x ys = (y : SourcedEntity) × Member y ys × (y.value ≡ x.value) × (priority x ≤ priority y)

pub highest_each-Covered :
    (P : SourcedEntity → Type 0) (x : SourcedEntity) (d : Dict Text (List SourcedEntity))
    → AllGroups P d
    → Has x d
    → Covered x (highest_each (values d))
unfolding highest_each
highest_each-Covered P x [] h m = elim m [ ]
highest_each-Covered P x ((v, []) ∷ d) h (inl m) = elim m [ ]
highest_each-Covered P x ((v, []) ∷ d) h (inr m) = highest_each-Covered P x d h.1 m
highest_each-Covered P x ((v, e ∷ es) ∷ d) h (inl m) = (
  highest_from e es,
  inl refl,
  (highest_from-All (λ (y : SourcedEntity). P y × (y.value ≡ v)) e es h.0.0 h.0.1).1
      ∙ sym (Member-All (λ (y : SourcedEntity). P y × (y.value ≡ v)) x (e ∷ es) m h.0).1,
  bound m,
)
  where
    bound : Member x (e ∷ es) → priority x ≤ priority (highest_from e es)
    bound (inl same) = rw (sym same) (highest_from-best e es)
    bound (inr m) = highest_from-Member x e es m
highest_each-Covered P x ((v, e ∷ es) ∷ d) h (inr m) =
    let (y, at, same, less) = highest_each-Covered P x d h.1 m in (y, inr at, same, less)

highest_priority-Member :
    (x : SourcedEntity) (es : List SourcedEntity) → Member x es → priority x ≤ highest_priority es
unfolding highest_priority
highest_priority-Member x [] m = elim m [ ]
highest_priority-Member x (e ∷ es) (inl same) = rw (sym same) (ground arith)
highest_priority-Member x (e ∷ es) (inr m) = ground (arith, highest_priority-Member x es m)

pub highest_priority-All :
    (es : List SourcedEntity) → All (λ x. priority x ≤ highest_priority es) es
highest_priority-All es = All-Member _ es (λ x m. highest_priority-Member x es m)

-- The only element of a list is all of it.
pub only-Member :
    (s y : SourcedEntity) (es : List SourcedEntity) → only es ≡ some s → Member y es → y ≡ s
only-Member s y [] h m = elim m [ ]
only-Member s y (e ∷ []) h (inl same) = sym same ∙ some_injective e s h
only-Member s y (e ∷ []) h (inr m) = elim m [ ]
only-Member s y (e ∷ f ∷ es) h m = cc

pub only-All :
    (P : SourcedEntity → Type 0) (s : SourcedEntity) (es : List SourcedEntity)
    → only es ≡ some s
    → All P es
    → P s
only-All P s [] h all = cc
only-All P s (e ∷ []) h all = rw (sym (some_injective e s h)) all.0
only-All P s (e ∷ f ∷ es) h all = cc
