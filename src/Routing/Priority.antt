-- ===== src/Routing/Priority.antt =====
-- On the choice among the candidates (agent-service/app/routing/entity_merge.py).
use native.Mathlib.Nat.{le_trans}
use productline_agent.Base.{
  Result, ok, err, ok_injective, ap, ℕ, ◌≡◌, refl, sym, ◌∙◌, ◌≤◌, Bool, true, Option, none, some,
  List, [], ◌∷◌, ◌++◌, All, Member, arith, nat_beq, nat_beq_iff, inl,
}
use productline_agent.Base.Dict.{values}
use productline_agent.Routing.Entities.{
  RouterEntities, SessionContext, InvalidEntityCandidate, all_names, RoutingEntityName,
  SourcedEntity, Candidates, candidates_of,
}
use productline_agent.Routing.Merge.{
  EntityMergeResult, add_field, chosen_entities, resolved, collect, merge_routing_entities,
  priority, group, highest_each, comes_first, distinct_candidates, highest_priority,
  highest_candidates, select, resolve,
}
use productline_agent.Routing.Groups.{
  All-Member, Member-All, Member-keep_if, All-kept, Member-sorted, All-sorted, group-AllGroups,
  group-Has, highest_each-All, Covered, highest_each-Covered, highest_priority-All, only-Member,
  only-All,
}

pub distinct-All :
    (P : SourcedEntity → Type 0) (es : List SourcedEntity)
    → All P es
    → All P (distinct_candidates es)
unfolding distinct_candidates
distinct-All P es h =
    All-sorted comes_first P (highest_each (values (group es [])))
      (highest_each-All P (group es []) (group-AllGroups P es [] h tt))

pub distinct-Covered :
    (x : SourcedEntity) (es : List SourcedEntity) → Member x es → Covered x (distinct_candidates es)
unfolding distinct_candidates
distinct-Covered x es m =
    let (y, at, same, less) =
      highest_each-Covered (λ e. Unit) x (group es [])
        (group-AllGroups (λ e. Unit) es [] (All-Member _ es (λ e n. tt)) tt)
        (group-Has x es [] (inl m)) in
    (y, Member-sorted comes_first y (highest_each (values (group es []))) at, same, less)

-- The selected candidate is one of them, none is above it, and those that are level with it have its value.
pub record IsChoice (s : SourcedEntity) (es : List SourcedEntity) : Type 0 where
  pub given : Member s es
  pub highest : All (λ x. priority x ≤ priority s) es
  pub unrivalled : All (λ x. priority x ≡ priority s → x.value ≡ s.value) es

pub distinct-known :
    (es : List SourcedEntity)
    → All
        (λ e. Member e es × (priority e ≤ highest_priority (distinct_candidates es)))
        (distinct_candidates es)
distinct-known es = All-Member _ (distinct_candidates es) λ e m. (
  Member-All (λ z. Member z es) e (distinct_candidates es) m
      (distinct-All (λ z. Member z es) es (All-Member _ es (λ x n. n))),
  Member-All _ e (distinct_candidates es) m (highest_priority-All (distinct_candidates es)),
)

level_top : (x y s t : ℕ) → x ≤ y → y ≤ t → x ≡ s → s ≡ t → nat_beq y t ≡ true
level_top x y s t a b c d = ground arith

pub select-IsChoice :
    (s : SourcedEntity) (es : List SourcedEntity) → select es ≡ some s → IsChoice s es
unfolding select highest_candidates
select-IsChoice s es h = record {
  given = kept.0.0;
  highest = All-Member _ es (λ x m. below x (distinct-Covered x es m));
  unrivalled = All-Member _ es (λ x m level. rival x level (distinct-Covered x es m));
}
  where
    top : ℕ
    top = highest_priority (distinct_candidates es)

    at_top : SourcedEntity → Bool
    at_top e = nat_beq (priority e) top

    kept : (Member s es × (priority s ≤ top)) × (at_top s ≡ true)
    kept = only-All _ s (highest_candidates (distinct_candidates es)) h (
        All-kept at_top (λ e. Member e es × (priority e ≤ top)) (distinct_candidates es)
          (distinct-known es))

    below : (x : SourcedEntity) → Covered x (distinct_candidates es) → priority x ≤ priority s
    below x (y, at, same, less) = le_trans less (
        rw ((nat_beq_iff (priority s) top).0 kept.1) (
          Member-All _ y (distinct_candidates es) at
            (highest_priority-All (distinct_candidates es))))

    rival :
        (x : SourcedEntity)
        → priority x ≡ priority s
        → Covered x (distinct_candidates es)
        → x.value ≡ s.value
    rival x level (y, at, same, less) =
        sym same
        ∙ ap (λ (e : SourcedEntity). e.value)
            (only-Member s y (highest_candidates (distinct_candidates es)) h (
              Member-keep_if at_top y (distinct_candidates es) at (
                level_top (priority x) (priority y) (priority s) top less
                  (Member-All _ y (distinct_candidates es) at
                    (highest_priority-All (distinct_candidates es)))
                  level ((nat_beq_iff (priority s) top).0 kept.1))))

abbrev pub AreChoices : Candidates → List (RoutingEntityName × SourcedEntity) → Type 0
AreChoices cs [] = Unit
AreChoices cs ((n, s) ∷ rest) = IsChoice s (candidates_of n cs) × AreChoices cs rest

add_field-AreChoices :
    (n : RoutingEntityName) (cs : Candidates) (es : List SourcedEntity) (later : EntityMergeResult)
    → candidates_of n cs ≡ es
    → AreChoices cs later.entities
    → AreChoices cs (add_field n es later).entities
add_field-AreChoices n cs [] later h rest = rest
add_field-AreChoices n cs (e ∷ es) later h rest = go (select (e ∷ es)) refl
  where
    go :
        (o : Option SourcedEntity)
        → select (e ∷ es) ≡ o
        → AreChoices cs (chosen_entities n o ++ later.entities)
    go none q = rest
    go (some s) q = (rw h (select-IsChoice s (e ∷ es) q), rest)

pub resolve-AreChoices :
    (ns : List RoutingEntityName) (cs : Candidates) → AreChoices cs (resolve ns cs).entities
unfolding resolve
resolve-AreChoices [] cs = tt
resolve-AreChoices (n ∷ ns) cs =
    add_field-AreChoices n cs (candidates_of n cs) (resolve ns cs) refl (resolve-AreChoices ns cs)

-- If the merge returns a result, then the candidates of all sources were valid, and every entity
-- of the result is one of the candidates of its field, no candidate of the field has a source of
-- higher priority, and every candidate of the field whose source has the same priority has the
-- same value.
pub merge_routing_entities-AreChoices :
    (extraction : RouterEntities) (page : Option RouterEntities) (session : Option SessionContext)
    (r : EntityMergeResult)
    → merge_routing_entities extraction page session ≡ ok r
    → (cs : Candidates) × (collect extraction page session ≡ ok cs) × AreChoices cs r.entities
unfolding merge_routing_entities
merge_routing_entities-AreChoices extraction page session r h =
    go (collect extraction page session) refl h
  where
    go :
        (x : Result InvalidEntityCandidate Candidates)
        → collect extraction page session ≡ x
        → resolved x ≡ ok r
        → (cs : Candidates) × (collect extraction page session ≡ ok cs) × AreChoices cs r.entities
    go (ok cs) q e = (
      cs,
      q,
      rw (sym (ok_injective (resolve all_names cs) r e)) (resolve-AreChoices all_names cs),
    )
    go (err x) q e = cc
