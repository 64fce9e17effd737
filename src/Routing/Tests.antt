-- ===== src/Routing/Tests.antt =====
-- The merge of entities on a message that names another order than the page.
use productline_agent.Base.{
  false, ◌≡◌, refl, Option, none, some, [], ◌∷◌, Text, codes, ok, true, text_beq, trim, is_white,
}
use productline_agent.Base.Dict
use productline_agent.Base.Pattern.{is_order_id}
use productline_agent.Base.Sorting.{sorted, text_leb}
use productline_agent.Routing.Entities.{
  name_eq, validated_value, RoutingEntityName, order_id, RouterEntities, SessionContext,
  SourcedEntity, user_message, page_context, Candidates, session_candidate,
}
use productline_agent.Routing.Merge.{merge_routing_entities, EntityMergeResult, collect}
use productline_agent.Routing.Precedence.{merge_routing_entities_message}
use productline_agent.Routing.Rivals.{AreRivalries, merge_routing_entities-AreRivalries}
use productline_agent.Routing.Priority.{AreChoices, merge_routing_entities-AreChoices}

abbrev order_named : Text → RoutingEntityName → Option Text
order_named t order_id = some t
order_named t _ = none

abbrev message : RouterEntities
message = record { of_name = order_named (codes "ORDER-2") }

abbrev page : RouterEntities
page = record { of_name = order_named (codes "ORDER-1") }

abbrev session : SessionContext
session = record {
  current_order_id = none;
  current_task_id = none;
  confirmed_entities = [];
  candidate_entities = (codes "order_id", codes "ORDER-2" ∷ []) ∷ [];
}

abbrev by_user : SourcedEntity
by_user = record { value = codes "ORDER-2"; source = user_message }

abbrev by_page : SourcedEntity
by_page = record { value = codes "ORDER-1"; source = page_context }

abbrev merged : EntityMergeResult
merged = record {
  entities = (order_id, by_user) ∷ [];
  conflicts =
      record {
        field = order_id;
        selected = some by_user;
        candidates = by_user ∷ by_page ∷ [];
        resolved_by_priority = true;
      }
      ∷ [];
  unresolved_fields = [];
}

message-merged : merge_routing_entities message (some page) (some session) ≡ ok merged
unfolding merge_routing_entities is_order_id trim is_white text_beq Dict.lookup Dict.insert sorted
message-merged = refl

merge_routing_entities-AreChoices_example :
    (cs : Candidates) × (collect message (some page) (some session) ≡ ok cs)
    × AreChoices cs ((order_id, by_user) ∷ [])
merge_routing_entities-AreChoices_example =
    merge_routing_entities-AreChoices message (some page) (some session) merged message-merged

abbrev silent : RouterEntities
silent = record { of_name = λ n. none }

abbrev doubtful : SessionContext
doubtful = record session {
  candidate_entities = (codes "order_id", codes "ORDER-2" ∷ codes "ORDER-3" ∷ []) ∷ [];
}

abbrev candidate : Text → SourcedEntity
candidate t = record { value = t; source = session_candidate }

abbrev open_order : EntityMergeResult
open_order = record {
  entities = [];
  conflicts =
      record {
        field = order_id;
        selected = none;
        candidates = candidate (codes "ORDER-2") ∷ candidate (codes "ORDER-3") ∷ [];
        resolved_by_priority = false;
      }
      ∷ [];
  unresolved_fields = order_id ∷ [];
}

silent-open_order : merge_routing_entities silent none (some doubtful) ≡ ok open_order
unfolding merge_routing_entities is_order_id trim is_white text_beq Dict.lookup Dict.insert sorted
    text_leb
silent-open_order = refl

merge_routing_entities-AreRivalries_example :
    (cs : Candidates) × (collect silent none (some doubtful) ≡ ok cs)
    × AreRivalries cs (order_id ∷ [])
merge_routing_entities-AreRivalries_example =
    merge_routing_entities-AreRivalries silent none (some doubtful) open_order silent-open_order

message-validated_value :
    validated_value order_id (some (codes "ORDER-2")) user_message ≡ ok (codes "ORDER-2")
unfolding validated_value is_order_id trim is_white text_beq
message-validated_value = refl

merge_routing_entities_message_example :
    (s : SourcedEntity) × (Dict.lookup order_id merged.entities ≡ some s)
    × (s.value ≡ codes "ORDER-2")
    × (s.source ≡ user_message)
merge_routing_entities_message_example =
    merge_routing_entities_message message (some page) (some session) order_id (codes "ORDER-2")
      (codes "ORDER-2") merged refl message-validated_value message-merged
