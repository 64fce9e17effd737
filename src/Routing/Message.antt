-- ===== src/Routing/Message.antt =====
-- On the value that the user names in a message (agent-service/app/routing/entity_merge.py).
use native.Mathlib.Nat.{le_trans}
use productline_agent.Base.{
  ◌&&◌, ◌||◌, eq_iff, nat_beq, nat_beq_iff, ◌≡◌, refl, sym, ◌∙◌, ◌≤◌, Bool, true, false, some, List,
  [], ◌∷◌, Text, text_eq, ◌==◌, any_of, All, Member, Bool-cases, Option-cases, inl, inr, ◌⊎◌, arith,
}
use productline_agent.Base.Dict
use productline_agent.Base.Dict.{lookup-insert_cases, lookup-insert_self}
use productline_agent.Routing.Entities.{
  RoutingEntityName, name_eq, EntitySource, confirmed_session, page_context, session_candidate,
  source_priority, user_message, SourcedEntity, Candidates, candidates_of, with_entity, same_entity,
  source_priority,
}
use productline_agent.Routing.Groups.{
  Member-All, Member-append_left, Member-append_last, All-append_last,
}
use productline_agent.Routing.Merge.{priority, select}
use productline_agent.Routing.Priority.{select-IsChoice}
use productline_agent.Routing.Rivals.{select-IsRivalry}

-- The user named the value `v`, and no other.
abbrev pub IsListed : Text → List SourcedEntity → Type 0
IsListed v es = (x : SourcedEntity) × Member x es × (x.source ≡ user_message) × (x.value ≡ v)

abbrev pub IsAlone : Text → List SourcedEntity → Type 0
IsAlone v es = All (λ (x : SourcedEntity). x.source ≡ user_message → x.value ≡ v) es

top_source : (s : EntitySource) → 4 ≤ source_priority s → s ≡ user_message
top_source user_message h = refl
top_source confirmed_session h = ground arith
top_source page_context h = ground arith
top_source session_candidate h = ground arith

user_only :
    (e s : SourcedEntity)
    → e.source ≡ user_message
    → priority e ≤ priority s
    → s.source ≡ user_message
user_only e s h k = top_source s.source (le_trans (rw h (omega arith)) k)

pub select-IsAlone :
    (v : Text) (es : List SourcedEntity)
    → IsListed v es
    → IsAlone v es
    → (s : SourcedEntity) × (select es ≡ some s) × (s.value ≡ v) × (s.source ≡ user_message)
select-IsAlone v es (e, listed, user, same) alone = elim (Option-cases (select es)) [
  | inl undecided ↦
      let r = select-IsRivalry e es listed undecided in
      let below = Member-All _ e es listed r.topmost in
      absurd (
        r.opposed (
          Member-All _ r.other es r.other_given alone (user_only e r.other user (rw r.level below))
          ∙ sym (Member-All _ r.one es r.one_given alone (user_only e r.one user below))))
  | inr (s, chosen) ↦
      let c = select-IsChoice s es chosen in
      let by_user = user_only e s user (Member-All _ e es listed c.highest) in
      (s, chosen, Member-All _ s es c.given alone by_user, by_user)
]

pub with_entity-IsListed :
    (v : Text) (e : SourcedEntity) (es : List SourcedEntity)
    → IsListed v es
    → IsListed v (with_entity e es)
with_entity-IsListed v e es (x, m, user, same) = (
  x,
  elim (Bool-cases (any_of (same_entity e) es)) [
    | inl old ↦ rw old m
    | inr new ↦ rw new (Member-append_left x es (e ∷ []) m)
  ],
  user,
  same,
)

pub with_entity-IsAlone :
    (v : Text) (e : SourcedEntity) (es : List SourcedEntity)
    → (e.source ≡ user_message → e.value ≡ v)
    → IsAlone v es
    → IsAlone v (with_entity e es)
with_entity-IsAlone v e es h k = elim (Bool-cases (any_of (same_entity e) es)) [
  | inl old ↦ rw old k
  | inr new ↦ rw new (All-append_last _ es e k h)
]

both_true : (a b : Bool) → (a && b) ≡ true → (a ≡ true) × (b ≡ true)
both_true a b h = ground arith

second_true : (a b : Bool) → (a || b) ≡ true → a ≡ false → b ≡ true
second_true a b h k = ground arith

level_user :
    (s t : EntitySource)
    → s ≡ user_message
    → nat_beq (source_priority s) (source_priority t) ≡ true
    → t ≡ user_message
level_user s t e h =
    top_source t
      (rw (sym ((nat_beq_iff (source_priority s) (source_priority t)).0 h)) (rw e (omega arith)))

-- A candidate that is equal is the user's too.
found_same :
    (e : SourcedEntity) (es : List SourcedEntity)
    → e.source ≡ user_message
    → any_of (same_entity e) es ≡ true
    → IsListed e.value es
found_same e [] user h = cc
found_same e (x ∷ es) user h = elim (Bool-cases (same_entity e x)) [
  | inl same ↦
      let (values_same, level) = both_true (e.value == x.value) _ same in
      (
        x,
        inl refl,
        level_user e.source x.source user level,
        sym ((eq_iff e.value x.value).0 values_same),
      )
  | inr other ↦
      let (y, m, by_user, value) = found_same e es user (second_true (same_entity e x) _ h other) in
      (y, inr m, by_user, value)
]

pub with_entity_lists :
    (e : SourcedEntity) (es : List SourcedEntity)
    → e.source ≡ user_message
    → IsListed e.value (with_entity e es)
with_entity_lists e es user = elim (Bool-cases (any_of (same_entity e) es)) [
  | inl old ↦ rw old (found_same e es user old)
  | inr new ↦ rw new (e, Member-append_last e es, user, refl)
]

-- What `put` does to the candidates of a field.
pub put-cases :
    (n m : RoutingEntityName) (source : EntitySource) (value : Text) (cs : Candidates)
    → (let e : SourcedEntity = record { value = value; source = source } in
        let after = Dict.insert m (with_entity e (candidates_of m cs)) cs in
        ((m ≡ n) × (candidates_of n after ≡ with_entity e (candidates_of n cs)))
        ⊎ (candidates_of n after ≡ candidates_of n cs))
put-cases n m source value cs =
    elim (lookup-insert_cases m n
      (with_entity (record { value = value; source = source }) (candidates_of m cs)) cs) [
        | inl (same, new) ↦ inl (same, rw new (rw same refl))
        | inr old ↦ inr (rw old refl)
      ]
