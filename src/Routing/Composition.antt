-- ===== src/Routing/Composition.antt =====
-- On decisions over a merge (agent-service/app/routing/entity_merge.py and
-- agent-service/app/routing/decision.py): what the merge returns is what a decision asks for.
use productline_agent.Base.{
  ℕ, ◌≡◌, inl, inr, refl, ◌≤◌, Bool, true, false, not, ◌&&◌, Option, none, some, List, [], ◌∷◌,
  ◌++◌, All, Member, all_of, keep_if, length, ltb, nat_beq, trim, Bool-cases, Result, ok, err,
  arith, ok_injective, ◌==◌, non_empty,
}
use productline_agent.Routing.Entities.{
  RoutingEntityName, order_id, task_id, issue_id, batch_id, product_type, satellite_type, name_eq,
  SourcedEntity, RouterEntities, SessionContext, InvalidEntityCandidate, all_names, Candidates,
  candidates_of, is_entity,
}
use productline_agent.Routing.Merge.{
  priority, highest_priority, highest_candidates, distinct_candidates, only, select, EntityConflict,
  EntityMergeResult, conflict_of, unresolved, add_field, resolve, resolved, collect,
  merge_routing_entities,
}
use mathlib.Core.Path.{subst}
use productline_agent.Routing.Collection.{Holds}
use productline_agent.Routing.Groups.{Member-All, Member-keep_if}
use productline_agent.Routing.Priority.{AreChoices, resolve-AreChoices, distinct-Covered}
use productline_agent.Routing.Rivals.{attained}
use productline_agent.Routing.Consistency.{Fits, AllFit, collect-AllFit}
use productline_agent.Routing.Decision.{Scale, RoutingDecision, is_valid_entity, conflict_for}
use productline_agent.Routing.Router.{RouterResult, build_routing_decision}
use productline_agent.Routing.Totality.{HasConflict, IsConsistent, compose_decision_total}

length-keep_if : {A : Type 0} (p : A → Bool) (xs : List A) → length (keep_if p xs) ≤ length xs
length-keep_if p [] = omega arith
length-keep_if p (x ∷ xs) = elim (Bool-cases (p x)) [
  | inl kept ↦ rw kept (let less = length-keep_if p xs in omega arith)
  | inr dropped ↦ rw dropped (let less = length-keep_if p xs in omega arith)
]

several_left :
    (hs : List SourcedEntity) (y : SourcedEntity)
    → Member y hs
    → only hs ≡ none
    → ltb 1 (length hs) ≡ true
several_left [] y at h = elim at [ ]
several_left (a ∷ []) y at h = absurd (cc h)
several_left (a ∷ b ∷ hs) y at h = ground arith

more : (a b : ℕ) → ltb 1 a ≡ true → a ≤ b → ltb 1 b ≡ true
more a b h k = ground arith

select-several :
    (x : SourcedEntity) (es : List SourcedEntity)
    → Member x es
    → select es ≡ none
    → ltb 1 (length (distinct_candidates es)) ≡ true
unfolding select highest_candidates
select-several x es m h =
    let (z, listed, same, below) = distinct-Covered x es m in
    let (y, at, highest) = attained z (distinct_candidates es) listed in
    let at_top : SourcedEntity → Bool =
      λ e. nat_beq (priority e) (highest_priority (distinct_candidates es)) in
    more (length (highest_candidates (distinct_candidates es))) (length (distinct_candidates es))
      (several_left (highest_candidates (distinct_candidates es)) y
        (Member-keep_if at_top y (distinct_candidates es) at highest) h)
      (length-keep_if at_top (distinct_candidates es))

HasConflict-after :
    (c : EntityConflict) (cs : List EntityConflict) (n : RoutingEntityName)
    → ltb 1 (length c.candidates) ≡ true
    → HasConflict cs n
    → HasConflict (c ∷ cs) n
unfolding conflict_for
HasConflict-after c cs n several (d, found, long) = elim (Bool-cases (c.field == n)) [
  | inl same ↦ (c, rw same refl, several)
  | inr other ↦ (d, rw other found, long)
]

conflict_of-HasConflict :
    (n : RoutingEntityName) (o : Option SourcedEntity) (es : List SourcedEntity)
    (cs : List EntityConflict) (m : RoutingEntityName)
    → HasConflict cs m
    → HasConflict (conflict_of n o es ++ cs) m
conflict_of-HasConflict n o es cs m h = elim (Bool-cases (ltb 1 (length es))) [
  | inl several ↦ rw several (HasConflict-after _ cs m several h)
  | inr few ↦ rw few h
]

conflict_of-All :
    (n : RoutingEntityName) (o : Option SourcedEntity) (es : List SourcedEntity)
    (cs : List EntityConflict) (ms : List RoutingEntityName)
    → All (HasConflict cs) ms
    → All (HasConflict (conflict_of n o es ++ cs)) ms
conflict_of-All n o es cs [] h = tt
conflict_of-All n o es cs (m ∷ ms) h =
    (conflict_of-HasConflict n o es cs m h.0, conflict_of-All n o es cs ms h.1)

name_eq_self : (n : RoutingEntityName) → (n == n) ≡ true
name_eq_self order_id = refl
name_eq_self task_id = refl
name_eq_self issue_id = refl
name_eq_self batch_id = refl
name_eq_self product_type = refl
name_eq_self satellite_type = refl

own_conflict :
    (n : RoutingEntityName) (es : List SourcedEntity) (cs : List EntityConflict)
    → ltb 1 (length es) ≡ true
    → HasConflict (conflict_of n none es ++ cs) n
unfolding conflict_for
own_conflict n es cs several = (
  record { field = n; selected = none; candidates = es; resolved_by_priority = false },
  rw several (rw (name_eq_self n) refl),
  several,
)

add_field-HasConflict :
    (n : RoutingEntityName) (es : List SourcedEntity) (later : EntityMergeResult)
    → All (HasConflict later.conflicts) later.unresolved_fields
    → All (HasConflict (add_field n es later).conflicts) (add_field n es later).unresolved_fields
add_field-HasConflict n [] later rest = rest
add_field-HasConflict n (e ∷ es) later rest = go (select (e ∷ es)) refl
  where
    go :
        (o : Option SourcedEntity)
        → select (e ∷ es) ≡ o
        → All
            (HasConflict (conflict_of n o (distinct_candidates (e ∷ es)) ++ later.conflicts))
            (unresolved n o ++ later.unresolved_fields)
    go none q = (
      own_conflict n (distinct_candidates (e ∷ es)) later.conflicts
          (select-several e (e ∷ es) (inl refl) q),
      conflict_of-All n none (distinct_candidates (e ∷ es)) later.conflicts later.unresolved_fields
          rest,
    )
    go (some s) q =
        conflict_of-All n (some s) (distinct_candidates (e ∷ es)) later.conflicts
          later.unresolved_fields rest

resolve-HasConflict :
    (ns : List RoutingEntityName) (cs : Candidates)
    → All (HasConflict (resolve ns cs).conflicts) (resolve ns cs).unresolved_fields
unfolding resolve
resolve-HasConflict [] cs = tt
resolve-HasConflict (n ∷ ns) cs =
    add_field-HasConflict n (candidates_of n cs) (resolve ns cs) (resolve-HasConflict ns cs)

chosen_valid :
    (cs : Candidates) (es : List (RoutingEntityName × SourcedEntity))
    → AllFit cs
    → AreChoices cs es
    → all_of is_valid_entity es ≡ true
chosen_valid cs [] fit h = refl
chosen_valid cs ((n, s) ∷ es) fit h =
    let valid : is_entity n (trim s.value) ≡ true =
      Member-All (Fits n) s (candidates_of n cs) h.0.given (fit n) in
    let rest = chosen_valid cs es fit h.1 in rw (valid, rest) refl

resolve-IsConsistent : (cs : Candidates) → AllFit cs → IsConsistent (resolve all_names cs)
resolve-IsConsistent cs fit = record {
  valid = chosen_valid cs (resolve all_names cs).entities fit (resolve-AreChoices all_names cs);
  rivals = resolve-HasConflict all_names cs;
}

merge_routing_entities-IsConsistent :
    (extraction : RouterEntities) (page : Option RouterEntities) (session : Option SessionContext)
    (m : EntityMergeResult)
    → merge_routing_entities extraction page session ≡ ok m
    → IsConsistent m
unfolding merge_routing_entities
merge_routing_entities-IsConsistent extraction page session m h =
    go (collect extraction page session) (collect-AllFit extraction page session) h
  where
    go :
        (x : Result InvalidEntityCandidate Candidates)
        → Holds AllFit x
        → resolved x ≡ ok m
        → IsConsistent m
    go (ok cs) fit e =
        subst IsConsistent (ok_injective (resolve all_names cs) m e)
          (resolve-IsConsistent cs (fit cs refl))
    go (err x) fit e = absurd (cc e)

module _ (scale : Scale) where
  open scale use {F, at_most, zero_, one_}

  -- The router makes a decision, and raises no error, on every answer of its model whose
  -- confidence lies between 0 and 1, with the entities that the merge returns: no validator of the
  -- schemas refuses what the router puts together.
  pub build_routing_decision-merge_routing_entities :
      (raw : RouterResult F) (page : Option RouterEntities) (extraction : RouterEntities)
      (session : Option SessionContext) (m : EntityMergeResult)
      → (at_most zero_ raw.confidence && at_most raw.confidence one_) ≡ true
      → merge_routing_entities extraction page session ≡ ok m
      → (d : RoutingDecision scale) × (build_routing_decision scale raw m ≡ ok d)
  unfolding build_routing_decision
  build_routing_decision-merge_routing_entities raw page extraction session m bounded merged =
      compose_decision_total scale raw.intent raw.confidence m
        (raw.need_clarification && not (non_empty raw.missing_fields)) false bounded
        (merge_routing_entities-IsConsistent extraction page session m merged)
