-- ===== src/Routing/Entities.antt =====
-- The candidates for the entities of a message (agent-service/app/routing/entity_merge.py and
-- agent-service/app/schemas/routing.py): every value is validated for its field, and keeps its source.
use productline_agent.Base.{
  ℕ, ◌≡◌, ◌↔◌, Bool, true, ◌&&◌, Option, none, some, List, [], ◌∷◌, ◌++◌, Text, codes, text_eq,
  ◌==◌, trim, nat_beq, if◌then◌else◌, Result, ok, err, Eq, arith, any_of,
}
use productline_agent.Base.Dict
use productline_agent.Base.Dict.{Dict}
use productline_agent.Base.Pattern.{is_order_id, is_task_id, is_business_id, length_between}

pub data RoutingEntityName : Type 0 where
  order_id task_id issue_id batch_id product_type satellite_type : RoutingEntityName

pub data EntitySource : Type 0 where
  user_message confirmed_session page_context session_candidate : EntitySource

abbrev pub all_names : List RoutingEntityName
all_names = order_id ∷ task_id ∷ issue_id ∷ batch_id ∷ product_type ∷ satellite_type ∷ []

-- `field.value`.
abbrev pub name_value : RoutingEntityName → Text
name_value order_id = codes "order_id"
name_value task_id = codes "task_id"
name_value issue_id = codes "issue_id"
name_value batch_id = codes "batch_id"
name_value product_type = codes "product_type"
name_value satellite_type = codes "satellite_type"

abbrev pub rank : RoutingEntityName → ℕ
rank order_id = 0
rank task_id = 1
rank issue_id = 2
rank batch_id = 3
rank product_type = 4
rank satellite_type = 5

abbrev pub same_name : RoutingEntityName → RoutingEntityName → Bool
same_name a b = nat_beq (rank a) (rank b)

pub same_name_iff : (a b : RoutingEntityName) → (same_name a b ≡ true) ↔ (a ≡ b)
same_name_iff a b = ground arith

instance abbrev pub name_eq : Eq RoutingEntityName
name_eq = record { same = same_name; same_iff = same_name_iff }

-- `_SOURCE_PRIORITY`.
abbrev pub source_priority : EntitySource → ℕ
source_priority user_message = 4
source_priority confirmed_session = 3
source_priority page_context = 2
source_priority session_candidate = 1

pub record SourcedEntity : Type 0 where
  pub value : Text
  pub source : EntitySource

-- `==` of two sourced entities.
abbrev pub same_entity : SourcedEntity → SourcedEntity → Bool
same_entity a b =
    (a.value == b.value) && nat_beq (source_priority a.source) (source_priority b.source)

-- `RouterEntities`, and the same fields of a `PageContext`.
pub record RouterEntities : Type 0 where
  pub of_name : RoutingEntityName → Option Text

-- The parts of a `SessionContext` that are read. A confirmed value that is no text is none.
pub record SessionContext : Type 0 where
  pub current_order_id : Option Text
  pub current_task_id : Option Text
  pub confirmed_entities : Dict Text (Option Text)
  pub candidate_entities : Dict Text (List Text)

pub data InvalidEntityCandidate : Type 0 where
  invalid_candidate : RoutingEntityName → EntitySource → InvalidEntityCandidate

-- The type of a field of `RouterEntities`.
unfoldable pub is_entity : RoutingEntityName → Text → Bool
is_entity order_id = is_order_id
is_entity task_id = is_task_id
is_entity issue_id = is_business_id
is_entity batch_id = is_business_id
is_entity product_type = length_between 1 128
is_entity satellite_type = length_between 1 128

-- `_validated_value`: white space at the ends is taken off before the test.
unfoldable pub validated_value :
    RoutingEntityName → Option Text → EntitySource → Result InvalidEntityCandidate Text
unfolding is_entity
validated_value field none source = err (invalid_candidate field source)
validated_value field (some value) source =
    if is_entity field (trim value) then ok (trim value) else err (invalid_candidate field source)

abbrev pub Candidates : Type 0
Candidates = Dict RoutingEntityName (List SourcedEntity)

abbrev pub or_empty : Option (List SourcedEntity) → List SourcedEntity
or_empty none = []
or_empty (some xs) = xs

-- The candidates of a field.
abbrev pub candidates_of : RoutingEntityName → Candidates → List SourcedEntity
candidates_of field cs = or_empty (Dict.lookup field cs)

-- A value of a source is listed once.
abbrev pub with_entity : SourcedEntity → List SourcedEntity → List SourcedEntity
with_entity e xs = if any_of (same_entity e) xs then xs else xs ++ (e ∷ [])

abbrev pub put :
    RoutingEntityName
    → EntitySource
    → Candidates
    → Result InvalidEntityCandidate Text
    → Result InvalidEntityCandidate Candidates
put field source cs (ok v) = ok (
    Dict.insert field (with_entity (record { value = v; source = source }) (candidates_of field cs))
      cs)
put field source cs (err e) = err e

-- `_append_candidate`.
unfoldable pub append_candidate :
    RoutingEntityName
    → Option Text
    → EntitySource
    → Candidates
    → Result InvalidEntityCandidate Candidates
unfolding validated_value
append_candidate field value source cs = put field source cs (validated_value field value source)

-- A value that may be missing adds nothing.
abbrev pub append_optional :
    RoutingEntityName
    → Option Text
    → EntitySource
    → Candidates
    → Result InvalidEntityCandidate Candidates
append_optional field none source cs = ok cs
append_optional field (some v) source cs = append_candidate field (some v) source cs

abbrev pub then_add :
    Result InvalidEntityCandidate Candidates
    → (Candidates → Result InvalidEntityCandidate Candidates)
    → Result InvalidEntityCandidate Candidates
then_add (ok cs) f = f cs
then_add (err e) f = err e

-- A loop over the names.
abbrev pub for_names :
    (RoutingEntityName → Candidates → Result InvalidEntityCandidate Candidates)
    → List RoutingEntityName
    → Candidates
    → Result InvalidEntityCandidate Candidates
for_names f [] cs = ok cs
for_names f (n ∷ ns) cs = then_add (f n cs) (for_names f ns)

-- `_append_router_entities`, and `_append_page_context`.
unfoldable pub append_entities :
    RouterEntities → EntitySource → Candidates → Result InvalidEntityCandidate Candidates
unfolding append_candidate
append_entities entities source =
    for_names (λ n. append_optional n (entities.of_name n) source) all_names

abbrev pub confirmed_entity :
    RoutingEntityName → Option (Option Text) → Candidates → Result InvalidEntityCandidate Candidates
confirmed_entity n none cs = ok cs
confirmed_entity n (some v) cs = append_candidate n v confirmed_session cs

unfoldable pub append_confirmed_session :
    SessionContext → Candidates → Result InvalidEntityCandidate Candidates
unfolding append_candidate
append_confirmed_session context cs =
    then_add
      (then_add (append_optional order_id context.current_order_id confirmed_session cs)
        (append_optional task_id context.current_task_id confirmed_session))
      (for_names (λ n. confirmed_entity n (Dict.lookup (name_value n) context.confirmed_entities))
        all_names)

abbrev pub append_all :
    RoutingEntityName → List Text → Candidates → Result InvalidEntityCandidate Candidates
append_all n [] cs = ok cs
append_all n (v ∷ vs) cs =
    then_add (append_candidate n (some v) session_candidate cs) (append_all n vs)

abbrev pub texts_or_empty : Option (List Text) → List Text
texts_or_empty none = []
texts_or_empty (some vs) = vs

unfoldable pub append_session_candidates :
    SessionContext → Candidates → Result InvalidEntityCandidate Candidates
unfolding append_candidate
append_session_candidates context =
    for_names
      (λ n. append_all n (texts_or_empty (Dict.lookup (name_value n) context.candidate_entities)))
      all_names
