-- ===== src/Routing/Merge.antt =====
-- The choice among the candidates (agent-service/app/routing/entity_merge.py, `merge_routing_entities`).
use productline_agent.Base.{
  ℕ, Bool, ◌&&◌, ◌||◌, Option, none, some, List, [], ◌∷◌, ◌++◌, Text, text_eq, ◌==◌, ltb, nat_beq,
  keep_if, is_some, length, if◌then◌else◌, Result, ok, err,
}
use productline_agent.Base.Dict.{Dict, values}
use productline_agent.Base.Sorting.{sorted, text_leb}
use productline_agent.Routing.Entities.{
  RoutingEntityName, user_message, page_context, all_names, source_priority, SourcedEntity,
  RouterEntities, SessionContext, InvalidEntityCandidate, Candidates, candidates_of, then_add,
  append_entities, append_confirmed_session, append_session_candidates,
}

abbrev pub priority : SourcedEntity → ℕ
priority e = source_priority e.source

-- `by_value.setdefault(e.value, []).append(e)`.
unfoldable pub push :
    SourcedEntity → Dict Text (List SourcedEntity) → Dict Text (List SourcedEntity)
push e [] = (e.value, e ∷ []) ∷ []
push e ((v, xs) ∷ d) =
    let rest = push e d in if v == e.value then (v, xs ++ (e ∷ [])) ∷ d else (v, xs) ∷ rest

unfoldable pub group :
    List SourcedEntity → Dict Text (List SourcedEntity) → Dict Text (List SourcedEntity)
unfolding push
group [] d = d
group (e ∷ es) d = group es (push e d)

-- `max(es, key=priority)`: the first of the highest, from the best so far.
unfoldable pub highest_from : SourcedEntity → List SourcedEntity → SourcedEntity
highest_from best [] = best
highest_from best (e ∷ es) =
    let replaced = highest_from e es in
    let kept = highest_from best es in if ltb (priority best) (priority e) then replaced else kept

-- `_highest_source_for_value` of each group; no group is empty.
unfoldable pub highest_each : List (List SourcedEntity) → List SourcedEntity
unfolding highest_from
highest_each [] = []
highest_each ([] ∷ gs) = highest_each gs
highest_each ((e ∷ es) ∷ gs) = highest_from e es ∷ highest_each gs

-- The order by falling priority, and then by value.
abbrev pub comes_first : SourcedEntity → SourcedEntity → Bool
comes_first a b =
    ltb (priority b) (priority a) || (nat_beq (priority a) (priority b) && text_leb a.value b.value)

unfoldable pub distinct_candidates : List SourcedEntity → List SourcedEntity
unfolding group highest_each
distinct_candidates es = sorted comes_first (highest_each (values (group es [])))

unfoldable pub highest_priority : List SourcedEntity → ℕ
highest_priority [] = 0
highest_priority (e ∷ es) =
    let rest = highest_priority es in if ltb rest (priority e) then priority e else rest

unfoldable pub highest_candidates : List SourcedEntity → List SourcedEntity
unfolding highest_priority
highest_candidates es = keep_if (λ e. nat_beq (priority e) (highest_priority es)) es

abbrev pub only : List SourcedEntity → Option SourcedEntity
only [] = none
only (e ∷ []) = some e
only (e ∷ f ∷ es) = none

pub record EntityConflict : Type 0 where
  pub field : RoutingEntityName
  pub selected : Option SourcedEntity
  pub candidates : List SourcedEntity
  pub resolved_by_priority : Bool

pub record EntityMergeResult : Type 0 where
  pub entities : Dict RoutingEntityName SourcedEntity
  pub conflicts : List EntityConflict
  pub unresolved_fields : List RoutingEntityName

-- What a field with these distinct candidates adds to the result.
abbrev pub chosen_entities :
    RoutingEntityName → Option SourcedEntity → Dict RoutingEntityName SourcedEntity
chosen_entities n none = []
chosen_entities n (some e) = (n, e) ∷ []

abbrev pub unresolved : RoutingEntityName → Option SourcedEntity → List RoutingEntityName
unresolved n none = n ∷ []
unresolved n (some e) = []

abbrev pub conflict_of :
    RoutingEntityName → Option SourcedEntity → List SourcedEntity → List EntityConflict
conflict_of n selected es =
    if ltb 1 (length es)
    then record {
      field = n;
      selected = selected;
      candidates = es;
      resolved_by_priority = is_some selected;
    }
      ∷ []
    else []

unfoldable pub select : List SourcedEntity → Option SourcedEntity
unfolding highest_candidates distinct_candidates
select es = only (highest_candidates (distinct_candidates es))

-- The body of the loop over the fields, before the results of the later fields.
abbrev pub add_field :
    RoutingEntityName → List SourcedEntity → EntityMergeResult → EntityMergeResult
add_field n [] later = later
add_field n (e ∷ es) later =
    let selected = select (e ∷ es) in
    record {
      entities = chosen_entities n selected ++ later.entities;
      conflicts = conflict_of n selected (distinct_candidates (e ∷ es)) ++ later.conflicts;
      unresolved_fields = unresolved n selected ++ later.unresolved_fields;
    }

unfoldable pub resolve : List RoutingEntityName → Candidates → EntityMergeResult
unfolding select
resolve [] cs = record { entities = []; conflicts = []; unresolved_fields = [] }
resolve (n ∷ ns) cs = add_field n (candidates_of n cs) (resolve ns cs)

abbrev pub if_given :
    {A : Type 0}
    → Option A
    → (A → Candidates → Result InvalidEntityCandidate Candidates)
    → Candidates
    → Result InvalidEntityCandidate Candidates
if_given none f cs = ok cs
if_given (some a) f cs = f a cs

-- The candidates of all sources.
unfoldable pub collect :
    RouterEntities
    → Option RouterEntities
    → Option SessionContext
    → Result InvalidEntityCandidate Candidates
unfolding append_entities append_confirmed_session append_session_candidates
collect extraction page session =
    then_add
      (then_add
        (then_add (append_entities extraction user_message [])
          (if_given session append_confirmed_session))
        (if_given page (λ p. append_entities p page_context)))
      (if_given session append_session_candidates)

abbrev pub resolved :
    Result InvalidEntityCandidate Candidates → Result InvalidEntityCandidate EntityMergeResult
resolved (ok cs) = ok (resolve all_names cs)
resolved (err e) = err e

unfoldable pub merge_routing_entities :
    RouterEntities
    → Option RouterEntities
    → Option SessionContext
    → Result InvalidEntityCandidate EntityMergeResult
unfolding collect resolve
merge_routing_entities extraction page session = resolved (collect extraction page session)
