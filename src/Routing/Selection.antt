-- ===== src/Routing/Selection.antt =====
-- On resuming a decision with what the user has selected (agent-service/app/routing/decision.py).
use productline_agent.Base.{
  ◌≡◌, ◌≢◌, inl, inr, refl, sym, ap, ◌∙◌, Bool, true, false, ◌&&◌, some, List, [], ◌∷◌, ◌++◌,
  text_eq, All, all_of, any_of, keep_if, length, ltb, trim, Bool-cases, ok, ok_injective, ◌==◌,
  ◌!=◌, eq_iff,
}
use productline_agent.Base.Dict
use productline_agent.Base.Dict.{Dict, lookup-insert_self, lookup-insert_cases}
use productline_agent.Base.Trim.{trim_idem}
use productline_agent.Routing.Entities.{
  RoutingEntityName, name_eq, SourcedEntity, user_message, is_entity,
}
use productline_agent.Routing.Merge.{EntityConflict, EntityMergeResult}
use productline_agent.Routing.Decision.{Scale, RoutingDecision, is_valid_entity, conflict_for}
use productline_agent.Routing.Router.{
  EntitySelection, validated_selection, conflicts_after, candidates_after, with_selected,
  apply_selection, is_pending, answers, resume_routing_after_selection,
}
use productline_agent.Routing.Dispatch.{IsComposed, compose_decision-IsComposed}
use productline_agent.Routing.Totality.{HasConflict, IsConsistent, compose_decision_total}

abbrev by_user : EntitySelection → SourcedEntity
by_user s = record { value = trim s.value; source = user_message }

insert_valid :
    (n : RoutingEntityName) (e : SourcedEntity) (d : Dict RoutingEntityName SourcedEntity)
    → is_valid_entity (n, e) ≡ true
    → all_of is_valid_entity d ≡ true
    → all_of is_valid_entity (Dict.insert n e d) ≡ true
unfolding Dict.insert
insert_valid n e [] h k = rw h refl
insert_valid n e ((m, f) ∷ d) h k = elim (Bool-cases (m == n)) [
  | inl same ↦
      let (this, rest) = and-parts (is_valid_entity (m, f)) (all_of is_valid_entity d) k in
      rw same (rw ((eq_iff m n).0 same) (rw (h, rest) refl))
  | inr other ↦
      let (this, rest) = and-parts (is_valid_entity (m, f)) (all_of is_valid_entity d) k in
      let later = insert_valid n e d h rest in rw other (rw (this, later) refl)
]
  where
    and-parts : (a b : Bool) → (a && b) ≡ true → (a ≡ true) × (b ≡ true)
    and-parts true b h = (refl, h)
    and-parts false b h = absurd (cc h)

unequal : (n m : RoutingEntityName) → n ≢ m → (n == m) ≡ false
unequal n m h = elim (Bool-cases (n == m)) [
  | inl same ↦ absurd (h ((eq_iff n m).0 same))
  | inr other ↦ other
]

turned : (n m : RoutingEntityName) → (n == m) ≡ false → (m == n) ≡ false
turned n m h = unequal m n (λ e. cc (h, (eq_iff n m).1 (sym e)))

-- The conflicts of the other fields are left as they are.
conflict_for-conflicts_after :
    (field n : RoutingEntityName) (e : SourcedEntity) (cs : List EntityConflict)
    → (field == n) ≡ false
    → conflict_for (conflicts_after field e cs) n ≡ conflict_for cs n
unfolding conflicts_after conflict_for
conflict_for-conflicts_after field n e [] h = refl
conflict_for-conflicts_after field n e (c ∷ cs) h =
    let rest = conflict_for-conflicts_after field n e cs h in
    elim (Bool-cases (c.field == field)) [
      | inl same ↦
          let apart : (c.field == n) ≡ false = rw ((eq_iff c.field field).0 same) h in
          elim (Bool-cases (ltb 1 (length (candidates_after e c.candidates)))) [
            | inl several ↦ rw same (rw several (rw apart rest))
            | inr few ↦ rw same (rw few (rw apart rest))
          ]
      | inr other ↦ rw other (rw rest refl)
    ]

conflict_for-append :
    (n : RoutingEntityName) (cs ds : List EntityConflict)
    → HasConflict cs n
    → HasConflict (cs ++ ds) n
unfolding conflict_for
conflict_for-append n [] ds (d, found, long) = absurd (cc found)
conflict_for-append n (c ∷ cs) ds (d, found, long) = elim (Bool-cases (c.field == n)) [
  | inl same ↦ (c, rw same refl, rw (ok_injective c d (rw same at found)) long)
  | inr other ↦
      let (f, later, many) = conflict_for-append n cs ds (d, rw other at found, long) in
      (f, rw other later, many)
]

-- What the fields other than the selected one are left with.
still_recorded :
    (m : EntityMergeResult) (field n : RoutingEntityName) (e : SourcedEntity)
    → (field == n) ≡ false
    → HasConflict m.conflicts n
    → HasConflict (with_selected field m e).conflicts n
still_recorded m field n e other h =
    elim (Bool-cases (any_of (λ (c : EntityConflict). c.field == field) m.conflicts)) [
      | inl known ↦
          let (c, found, long) = h in
          (c, rw known (conflict_for-conflicts_after field n e m.conflicts other ∙ found), long)
      | inr new ↦ rw new (conflict_for-append n m.conflicts _ h)
    ]

open_recorded :
    (m : EntityMergeResult) (field : RoutingEntityName) (e : SourcedEntity)
    (ns : List RoutingEntityName)
    → All (HasConflict m.conflicts) ns
    → All (HasConflict (with_selected field m e).conflicts) (keep_if (λ n. n != field) ns)
open_recorded m field e [] h = tt
open_recorded m field e (n ∷ ns) h = elim (Bool-cases (n == field)) [
  | inl same ↦ rw same (open_recorded m field e ns h.1)
  | inr other ↦
      let apart : (field == n) ≡ false = turned n field other in
      rw other (still_recorded m field n e apart h.0, open_recorded m field e ns h.1)
]

with_selected-IsConsistent :
    (m : EntityMergeResult) (field : RoutingEntityName) (e : SourcedEntity)
    → is_valid_entity (field, e) ≡ true
    → IsConsistent m
    → IsConsistent (with_selected field m e)
with_selected-IsConsistent m field e valid h = record {
  valid = insert_valid field e m.entities valid h.valid;
  rivals = open_recorded m field e m.unresolved_fields h.rivals;
}

no_longer :
    (field : RoutingEntityName) (ns : List RoutingEntityName)
    → All (λ n. n ≢ field) (keep_if (λ n. n != field) ns)
no_longer field [] = tt
no_longer field (n ∷ ns) = elim (Bool-cases (n == field)) [
  | inl same ↦ rw same (no_longer field ns)
  | inr other ↦ rw other ((λ e. cc (other, (eq_iff n field).1 e)), no_longer field ns)
]

module _ (scale : Scale) where
  open scale use {F, at_most, zero_, one_}

  -- What becomes of a pending decision when the user selects a value.
  pub record IsResumed (pending : RoutingDecision scale) (s : EntitySelection)
      (d : RoutingDecision scale) : Type 0 where
    pub held : Dict.lookup s.field d.entities.entities ≡ some (by_user s)
    pub kept :
        (n : RoutingEntityName)
        → n ≢ s.field
        → Dict.lookup n d.entities.entities ≡ Dict.lookup n pending.entities.entities
    pub settled : All (λ n. n ≢ s.field) d.entities.unresolved_fields
    pub consistent : IsConsistent d.entities
    pub intent_kept : d.intent ≡ pending.intent
    pub confirmed_kept : d.intent_confirmed ≡ pending.intent_confirmed

  abbrev after : RoutingDecision scale → EntitySelection → EntityMergeResult
  after pending s = with_selected s.field pending.entities (by_user s)

  composed-IsResumed :
      (pending : RoutingDecision scale) (s : EntitySelection) (d : RoutingDecision scale)
      → IsComposed scale pending.intent pending.confidence
          (after pending s)
          pending.model_requested_clarification
          pending.intent_confirmed
          d
      → IsConsistent (after pending s)
      → IsResumed pending s d
  composed-IsResumed pending s d c consistent = rw c.decision_is (record {
    held = lookup-insert_self s.field (by_user s) pending.entities.entities;
    kept = λ n apart. elim (lookup-insert_cases s.field n (by_user s) pending.entities.entities) [
      | inl (same, new) ↦ absurd (apart (sym same))
      | inr old ↦ old
    ];
    settled = no_longer s.field pending.entities.unresolved_fields;
    consistent = consistent;
    intent_kept = refl;
    confirmed_kept = refl;
  })

  -- If a decision waits for a value, the selection answers its question, the value satisfies the
  -- type of the field, the confidence lies between 0 and 1, and the entities of the decision are
  -- consistent, as those of a merge are, then the decision is resumed, without an error: the field
  -- holds the value, stripped, as the user's, the other fields, the intent and its confirmation
  -- are as before, the field is no longer unresolved, and the entities are consistent again.
  pub resume_routing_after_selection-IsResumed :
      (pending : RoutingDecision scale) (s : EntitySelection)
      → (at_most zero_ pending.confidence && at_most pending.confidence one_) ≡ true
      → IsConsistent pending.entities
      → (is_pending pending.status && answers pending.clarification s) ≡ true
      → is_entity s.field (trim s.value) ≡ true
      → (d : RoutingDecision scale) × (resume_routing_after_selection scale pending s ≡ ok d)
        × IsResumed pending s d
  unfolding resume_routing_after_selection apply_selection validated_selection
  resume_routing_after_selection-IsResumed pending s bounded consistent answered valid =
      let still : is_valid_entity (s.field, by_user s) ≡ true =
        ap (is_entity s.field) (trim_idem s.value) ∙ valid in
      let later =
        with_selected-IsConsistent pending.entities s.field (by_user s) still consistent in
      let (d, made) =
        compose_decision_total scale pending.intent pending.confidence (after pending s)
          pending.model_requested_clarification pending.intent_confirmed bounded later in
      (
        d,
        rw answered (rw valid made),
        composed-IsResumed pending s d
            (compose_decision-IsComposed scale pending.intent pending.confidence (after pending s)
              pending.model_requested_clarification pending.intent_confirmed d made)
            later,
      )
