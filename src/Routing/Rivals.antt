-- ===== src/Routing/Rivals.antt =====
-- On the fields that the merge leaves open (agent-service/app/routing/entity_merge.py).
use native.Mathlib.Nat.{le_trans}
use productline_agent.Base.{
  if◌then◌else◌, ℕ, ◌≡◌, ◌≢◌, refl, sym, ◌∙◌, ◌≤◌, Bool, true, false, Option, none, some, List, [],
  ◌∷◌, ◌++◌, Text, text_eq, ◌==◌, eq_iff, ltb, nat_beq, nat_beq_iff, keep_if, All, Member,
  Bool-cases, inl, inr, arith, Result, ok, err, ok_injective,
}
use productline_agent.Base.Dict.{Dict, values}
use productline_agent.Base.Sorting.{insert_sorted, sorted, All-insert_sorted}
use productline_agent.Routing.Entities.{
  RoutingEntityName, RouterEntities, SessionContext, InvalidEntityCandidate, all_names,
  SourcedEntity, Candidates, candidates_of,
}
use productline_agent.Routing.Merge.{
  priority, push, group, highest_from, highest_each, comes_first, distinct_candidates,
  highest_priority, highest_candidates, only, select, resolve, EntityMergeResult, add_field,
  unresolved, resolved, collect, merge_routing_entities,
}
use productline_agent.Routing.Groups.{
  Member-All, All-Member, Member-keep_if, All-kept, All-sorted, AllGroups, group-AllGroups,
  highest_from-All, Covered, highest_priority-All,
}
use productline_agent.Routing.Priority.{distinct-Covered, distinct-known}

-- No two of the elements have the same value.
abbrev pub AllDiff : List SourcedEntity → Type 0
AllDiff [] = Unit
AllDiff (x ∷ xs) = All (λ (y : SourcedEntity). y.value ≢ x.value) xs × AllDiff xs

abbrev IsFresh : Text → Dict Text (List SourcedEntity) → Type 0
IsFresh v [] = Unit
IsFresh v ((w, xs) ∷ d) = (w ≢ v) × IsFresh v d

abbrev AreDistinct : Dict Text (List SourcedEntity) → Type 0
AreDistinct [] = Unit
AreDistinct ((v, xs) ∷ d) = IsFresh v d × AreDistinct d

different : (v w : Text) → (v == w) ≡ false → w ≢ v
different v w h e = cc (h, (eq_iff v w).1 (sym e))

push-IsFresh :
    (v : Text) (e : SourcedEntity) (d : Dict Text (List SourcedEntity))
    → e.value ≢ v
    → IsFresh v d
    → IsFresh v (push e d)
unfolding push
push-IsFresh v e [] h k = (h, tt)
push-IsFresh v e ((w, xs) ∷ d) h k = elim (Bool-cases (w == e.value)) [
  | inl same ↦ rw same k
  | inr other ↦ rw other (k.0, push-IsFresh v e d h k.1)
]

push-AreDistinct :
    (e : SourcedEntity) (d : Dict Text (List SourcedEntity))
    → AreDistinct d
    → AreDistinct (push e d)
unfolding push
push-AreDistinct e [] h = (tt, tt)
push-AreDistinct e ((v, xs) ∷ d) h = elim (Bool-cases (v == e.value)) [
  | inl same ↦ rw same h
  | inr other ↦
      rw other (push-IsFresh v e d (different v e.value other) h.0, push-AreDistinct e d h.1)
]

group-AreDistinct :
    (es : List SourcedEntity) (d : Dict Text (List SourcedEntity))
    → AreDistinct d
    → AreDistinct (group es d)
unfolding group
group-AreDistinct [] d h = h
group-AreDistinct (e ∷ es) d h = group-AreDistinct es (push e d) (push-AreDistinct e d h)

module _ (P : SourcedEntity → Type 0) where
  group_value :
      (v : Text) (e : SourcedEntity) (es : List SourcedEntity)
      → All (λ (x : SourcedEntity). P x × (x.value ≡ v)) (e ∷ es)
      → (highest_from e es).value ≡ v
  group_value v e es h =
      (highest_from-All (λ (x : SourcedEntity). P x × (x.value ≡ v)) e es h.0 h.1).1

  each-IsFresh :
      (v : Text) (d : Dict Text (List SourcedEntity))
      → AllGroups P d
      → IsFresh v d
      → All (λ (y : SourcedEntity). y.value ≢ v) (highest_each (values d))
  unfolding highest_each
  each-IsFresh v [] h k = tt
  each-IsFresh v ((w, []) ∷ d) h k = each-IsFresh v d h.1 k.1
  each-IsFresh v ((w, e ∷ es) ∷ d) h k =
      (λ q. k.0 (sym (group_value w e es h.0) ∙ q), each-IsFresh v d h.1 k.1)

  each-AllDiff :
      (d : Dict Text (List SourcedEntity))
      → AllGroups P d
      → AreDistinct d
      → AllDiff (highest_each (values d))
  unfolding highest_each
  each-AllDiff [] h k = tt
  each-AllDiff ((v, []) ∷ d) h k = each-AllDiff d h.1 k.1
  each-AllDiff ((v, e ∷ es) ∷ d) h k =
      (rw (group_value v e es h.0) (each-IsFresh v d h.1 k.0), each-AllDiff d h.1 k.1)

insert_sorted-AllDiff :
    (leq : SourcedEntity → SourcedEntity → Bool) (x : SourcedEntity) (ys : List SourcedEntity)
    → All (λ (y : SourcedEntity). y.value ≢ x.value) ys
    → AllDiff ys
    → AllDiff (insert_sorted leq x ys)
unfolding insert_sorted
insert_sorted-AllDiff leq x [] h k = (tt, tt)
insert_sorted-AllDiff leq x (y ∷ ys) h k = elim (Bool-cases (leq x y)) [
  | inl before ↦ rw before (h, k)
  | inr after ↦ rw after (
    All-insert_sorted leq (λ (z : SourcedEntity). z.value ≢ y.value) x ys (λ q. h.0 (sym q)) k.0,
    insert_sorted-AllDiff leq x ys h.1 k.1,
  )
]

sorted-AllDiff :
    (leq : SourcedEntity → SourcedEntity → Bool) (ys : List SourcedEntity)
    → AllDiff ys
    → AllDiff (sorted leq ys)
unfolding sorted
sorted-AllDiff leq [] h = tt
sorted-AllDiff leq (y ∷ ys) h =
    insert_sorted-AllDiff leq y (sorted leq ys)
      (All-sorted leq (λ (z : SourcedEntity). z.value ≢ y.value) ys h.0) (sorted-AllDiff leq ys h.1)

All-keep :
    {A : Type 0} (p : A → Bool) (P : A → Type 0) (xs : List A) → All P xs → All P (keep_if p xs)
All-keep p P [] h = tt
All-keep p P (x ∷ xs) h = elim (Bool-cases (p x)) [
  | inl kept ↦ rw kept (h.0, All-keep p P xs h.1)
  | inr dropped ↦ rw dropped (All-keep p P xs h.1)
]

keep_if-AllDiff :
    (p : SourcedEntity → Bool) (xs : List SourcedEntity) → AllDiff xs → AllDiff (keep_if p xs)
keep_if-AllDiff p [] h = tt
keep_if-AllDiff p (x ∷ xs) h = elim (Bool-cases (p x)) [
  | inl kept ↦
      rw kept
        (All-keep p (λ (y : SourcedEntity). y.value ≢ x.value) xs h.0, keep_if-AllDiff p xs h.1)
  | inr dropped ↦ rw dropped (keep_if-AllDiff p xs h.1)
]

distinct-AllDiff : (es : List SourcedEntity) → AllDiff (distinct_candidates es)
unfolding distinct_candidates
distinct-AllDiff es = sorted-AllDiff comes_first (highest_each (values (group es []))) (
    each-AllDiff (λ e. Unit) (group es [])
      (group-AllGroups (λ e. Unit) es [] (All-Member _ es (λ e n. tt)) tt)
      (group-AreDistinct es [] tt))

top_above : (a b : ℕ) → ltb b a ≡ true → nat_beq a (if ltb b a then a else b) ≡ true
top_above a b h = ground arith

top_under :
    (a b y : ℕ) → ltb b a ≡ false → nat_beq y b ≡ true → nat_beq y (if ltb b a then a else b) ≡ true
top_under a b y h k = ground arith

-- Some element of a list that is not empty has the highest priority.
pub attained :
    (x : SourcedEntity) (es : List SourcedEntity)
    → Member x es
    → (y : SourcedEntity) × Member y es × (nat_beq (priority y) (highest_priority es) ≡ true)
unfolding highest_priority
attained x [] m = elim m [ ]
attained x (e ∷ []) m = (e, inl refl, ground arith)
attained x (e ∷ f ∷ es) m = elim (Bool-cases (ltb (highest_priority (f ∷ es)) (priority e))) [
  | inl above ↦ (e, inl refl, top_above (priority e) (highest_priority (f ∷ es)) above)
  | inr under ↦
      let (y, at, top) = attained f (f ∷ es) (inl refl) in
      (y, inr at, top_under (priority e) (highest_priority (f ∷ es)) (priority y) under top)
]

-- Two candidates with different values, which no candidate is above.
pub record IsRivalry (es : List SourcedEntity) : Type 0 where
  pub one : SourcedEntity
  pub other : SourcedEntity
  pub one_given : Member one es
  pub other_given : Member other es
  pub opposed : other.value ≢ one.value
  pub level : priority other ≡ priority one
  pub topmost : All (λ x. priority x ≤ priority one) es

below_top :
    (es : List SourcedEntity) (x a : SourcedEntity)
    → priority a ≡ highest_priority (distinct_candidates es)
    → Covered x (distinct_candidates es)
    → priority x ≤ priority a
below_top es x a e (y, at, same, less) = le_trans less (
    rw e
      (Member-All _ y (distinct_candidates es) at (highest_priority-All (distinct_candidates es))))

pub select-IsRivalry :
    (x : SourcedEntity) (es : List SourcedEntity) → Member x es → select es ≡ none → IsRivalry es
unfolding select highest_candidates
select-IsRivalry x es m h = go (highest_candidates (distinct_candidates es)) h inhabited diff known
  where
    top : ℕ
    top = highest_priority (distinct_candidates es)

    at_top : SourcedEntity → Bool
    at_top e = nat_beq (priority e) top

    found : Covered x (distinct_candidates es)
    found = distinct-Covered x es m

    inhabited : (y : SourcedEntity) × Member y (highest_candidates (distinct_candidates es))
    inhabited =
        let (y, at, highest) = attained found.0 (distinct_candidates es) found.1 in
        (y, Member-keep_if at_top y (distinct_candidates es) at highest)

    diff : AllDiff (highest_candidates (distinct_candidates es))
    diff = keep_if-AllDiff at_top (distinct_candidates es) (distinct-AllDiff es)

    Known : SourcedEntity → Type 0
    Known e = (Member e es × (priority e ≤ top)) × (at_top e ≡ true)

    known : All Known (highest_candidates (distinct_candidates es))
    known =
        All-kept at_top (λ e. Member e es × (priority e ≤ top)) (distinct_candidates es)
          (distinct-known es)

    go :
        (hs : List SourcedEntity)
        → only hs ≡ none
        → (y : SourcedEntity) × Member y hs
        → AllDiff hs
        → All Known hs
        → IsRivalry es
    go [] h (y, at) d k = elim at [ ]
    go (a ∷ []) h at d k = cc
    go (a ∷ b ∷ hs) h at d k = record {
      one = a;
      other = b;
      one_given = k.0.0.0;
      other_given = k.1.0.0.0;
      opposed = d.0.0;
      level =
          (nat_beq_iff (priority b) top).0 k.1.0.1 ∙ sym ((nat_beq_iff (priority a) top).0 k.0.1);
      topmost = All-Member _ es (λ z n.
          below_top es z a ((nat_beq_iff (priority a) top).0 k.0.1) (distinct-Covered z es n));
    }

abbrev pub AreRivalries : Candidates → List RoutingEntityName → Type 0
AreRivalries cs ns = All (λ n. IsRivalry (candidates_of n cs)) ns

add_field-AreRivalries :
    (n : RoutingEntityName) (cs : Candidates) (es : List SourcedEntity) (later : EntityMergeResult)
    → candidates_of n cs ≡ es
    → AreRivalries cs later.unresolved_fields
    → AreRivalries cs (add_field n es later).unresolved_fields
add_field-AreRivalries n cs [] later h rest = rest
add_field-AreRivalries n cs (e ∷ es) later h rest = go (select (e ∷ es)) refl
  where
    go :
        (o : Option SourcedEntity)
        → select (e ∷ es) ≡ o
        → AreRivalries cs (unresolved n o ++ later.unresolved_fields)
    go none q = (rw h (select-IsRivalry e (e ∷ es) (inl refl) q), rest)
    go (some s) q = rest

resolve-AreRivalries :
    (ns : List RoutingEntityName) (cs : Candidates)
    → AreRivalries cs (resolve ns cs).unresolved_fields
unfolding resolve
resolve-AreRivalries [] cs = tt
resolve-AreRivalries (n ∷ ns) cs =
    add_field-AreRivalries n cs (candidates_of n cs) (resolve ns cs) refl
      (resolve-AreRivalries ns cs)

-- If the merge returns a result, then the candidates of all sources were valid, and every field
-- that the result leaves unresolved has two candidates with different values whose sources have
-- the same priority, and no candidate of the field has a source of higher priority.
pub merge_routing_entities-AreRivalries :
    (extraction : RouterEntities) (page : Option RouterEntities) (session : Option SessionContext)
    (r : EntityMergeResult)
    → merge_routing_entities extraction page session ≡ ok r
    → (cs : Candidates) × (collect extraction page session ≡ ok cs)
      × AreRivalries cs r.unresolved_fields
unfolding merge_routing_entities
merge_routing_entities-AreRivalries extraction page session r h =
    go (collect extraction page session) refl h
  where
    go :
        (x : Result InvalidEntityCandidate Candidates)
        → collect extraction page session ≡ x
        → resolved x ≡ ok r
        → (cs : Candidates) × (collect extraction page session ≡ ok cs)
          × AreRivalries cs r.unresolved_fields
    go (ok cs) q e = (
      cs,
      q,
      rw (sym (ok_injective (resolve all_names cs) r e)) (resolve-AreRivalries all_names cs),
    )
    go (err x) q e = cc
