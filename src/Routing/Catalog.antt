-- ===== src/Routing/Catalog.antt =====
-- The catalogue of intents (agent-service/app/routing/intent_catalog.py).
use productline_agent.Base.{ℕ, Bool, Option, none, some, List, [], ◌∷◌, nat_beq}
use productline_agent.Routing.Entities.{RoutingEntityName, order_id, task_id}

pub data Intent : Type 0 where
  order_query order_diagnosis task_tracking spec_qa review_generation unknown : Intent

pub data RoutingParameter : Type 0 where
  order_parameter task_parameter : RoutingParameter

pub data BusinessSkill : Type 0 where
  order_status diagnosis specification review : BusinessSkill

abbrev intent_rank : Intent → ℕ
intent_rank order_query = 0
intent_rank order_diagnosis = 1
intent_rank task_tracking = 2
intent_rank spec_qa = 3
intent_rank review_generation = 4
intent_rank unknown = 5

abbrev pub same_intent : Intent → Intent → Bool
same_intent a b = nat_beq (intent_rank a) (intent_rank b)

-- `INTENT_DEFINITIONS`: the parameters that an intent requires, and its skill.
abbrev pub required_parameters_for : Intent → List RoutingParameter
required_parameters_for order_query = order_parameter ∷ []
required_parameters_for order_diagnosis = order_parameter ∷ []
required_parameters_for task_tracking = task_parameter ∷ []
required_parameters_for spec_qa = []
required_parameters_for review_generation = task_parameter ∷ []
required_parameters_for unknown = []

abbrev pub skill_for_intent : Intent → Option BusinessSkill
skill_for_intent order_query = some order_status
skill_for_intent order_diagnosis = some diagnosis
skill_for_intent task_tracking = some order_status
skill_for_intent spec_qa = some specification
skill_for_intent review_generation = some review
skill_for_intent unknown = none

-- `_PARAMETER_FIELDS`.
abbrev pub parameter_field : RoutingParameter → RoutingEntityName
parameter_field order_parameter = order_id
parameter_field task_parameter = task_id
