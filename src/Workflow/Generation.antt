-- ===== src/Workflow/Generation.antt =====
-- The diagnosis that the rules generate (agent-service/app/workflows/diagnosis_generation.py, with the
-- results of agent-service/app/schemas/workflow.py).
use productline_agent.Base.{
  ℕ, zero, suc, ◌+◌, ◌/◌, ◌%◌, Bool, true, false, not, ◌&&◌, ◌||◌, Option, none, some, List, [],
  ◌∷◌, ◌++◌, Text, codes, text_eq, ltb, non_empty, if◌then◌else◌, Result, ok, err,
}
use productline_agent.Base.Dict
use productline_agent.Base.Dict.{Dict}
use productline_agent.Workflow.Facts.{
  OrderStatus, created, producing, quality_checking, reviewing, ready_for_delivery,
  delivering_order, delivered_order, order_blocked, ProductionStatus, pending, running, completed,
  failed, blocked, QualityIssueStatus, open_, processing, resolved, closed, ReviewStatus,
  review_pending, approved, rejected, rework_required, DeliveryState, not_ready, ready, delivering,
  delivered, delivery_failed, delivery_blocked, TaskDetail, ProductionStep, ProgressResult,
  OrderDiagnosisState, is_failed, is_active,
}
use productline_agent.Workflow.Rules.{BlockingStage, nothing, insufficient_information}

-- `raise ValueError`, a missing key of a dict, and `next` without an element.
pub data GenerationFault : Type 0 where
  no_fact missing_key no_element : GenerationFault

pub record RootCause : Type 0 where
  pub code : Text
  pub description : Text

pub record Evidence : Type 0 where
  pub tool_name : Text
  pub field_path : Text
  pub value : Text
  pub description : Text

pub record Suggestion : Type 0 where
  pub action_type : Text
  pub description : Text

-- The confidence is 1 or 0.
pub record DiagnosisParts : Type 0 where
  pub summary : Text
  pub root_causes : List RootCause
  pub evidence : List Evidence
  pub suggestions : List Suggestion
  pub confidence : ℕ

pub record DiagnosisResult : Type 0 where
  pub order_id : Text
  pub blocking_stage : BlockingStage
  pub parts : DiagnosisParts

abbrev is_nothing : BlockingStage → Bool
is_nothing nothing = true
is_nothing _ = false

abbrev is_insufficient : BlockingStage → Bool
is_insufficient insufficient_information = true
is_insufficient _ = false

-- `validate_root_causes_for_blocking_stage`, and at least one suggestion. The texts and ids of the
-- parts satisfy their own constraints, since those of the state do.
abbrev pub is_diagnosis : BlockingStage → DiagnosisParts → Bool
is_diagnosis stage p =
    (if is_nothing stage then not (non_empty p.root_causes) else non_empty p.root_causes)
    && (is_insufficient stage || non_empty p.evidence)
    && non_empty p.suggestions

-- `str(n)`, with as many digits as the fuel has at most.
unfoldable pub decimal_from : ℕ → ℕ → Text
decimal_from zero n = []
decimal_from (suc f) n =
    let rest = decimal_from f (n / 10) in
    if ltb n 10 then (48 + n) ∷ [] else rest ++ ((48 + n % 10) ∷ [])

abbrev pub decimal : ℕ → Text
decimal n = decimal_from (suc n) n

abbrev pub order_text : OrderStatus → Text
order_text created = codes "CREATED"
order_text producing = codes "PRODUCING"
order_text quality_checking = codes "QUALITY_CHECKING"
order_text reviewing = codes "REVIEWING"
order_text ready_for_delivery = codes "READY_FOR_DELIVERY"
order_text delivering_order = codes "DELIVERING"
order_text delivered_order = codes "DELIVERED"
order_text order_blocked = codes "BLOCKED"

abbrev pub production_text : ProductionStatus → Text
production_text pending = codes "PENDING"
production_text running = codes "RUNNING"
production_text completed = codes "COMPLETED"
production_text failed = codes "FAILED"
production_text blocked = codes "BLOCKED"

abbrev pub issue_text : QualityIssueStatus → Text
issue_text open_ = codes "OPEN"
issue_text processing = codes "PROCESSING"
issue_text resolved = codes "RESOLVED"
issue_text closed = codes "CLOSED"

abbrev pub review_text : ReviewStatus → Text
review_text review_pending = codes "PENDING"
review_text approved = codes "APPROVED"
review_text rejected = codes "REJECTED"
review_text rework_required = codes "REWORK_REQUIRED"

abbrev pub delivery_text : DeliveryState → Text
delivery_text not_ready = codes "NOT_READY"
delivery_text ready = codes "READY"
delivery_text delivering = codes "DELIVERING"
delivery_text delivered = codes "DELIVERED"
delivery_text delivery_failed = codes "FAILED"
delivery_text delivery_blocked = codes "BLOCKED"

-- `f"{name}[{index}].status"`.
abbrev pub status_path : Text → ℕ → Text
status_path name index = name ++ (codes "[" ++ (decimal index ++ codes "].status"))

-- The first element that passes, with its index from `i` on.
unfoldable pub first_index : {A : Type 0} → (A → Bool) → ℕ → List A → Option (ℕ × A)
first_index p i [] = none
first_index p i (x ∷ xs) = let rest = first_index p (suc i) xs in if p x then some (i, x) else rest

abbrev pub task_evidence : ℕ → TaskDetail → Evidence
task_evidence index t = record {
  tool_name = codes "get_related_tasks";
  field_path = status_path (codes "tasks") index;
  value = production_text t.status;
  description = t.task_id ++ (codes "生产状态为" ++ production_text t.status);
}

abbrev pub step_evidence : ℕ × ProductionStep → Evidence
step_evidence (index, x) = record {
  tool_name = codes "get_production_progress";
  field_path = status_path (codes "steps") index;
  value = production_text x.status;
  description = x.step_id ++ (codes "生产步骤状态为" ++ production_text x.status);
}

-- The loop over the steps of the tasks in `_production_diagnosis`.
abbrev pub step_or :
    Option (ℕ × ProductionStep) → Result GenerationFault Evidence → Result GenerationFault Evidence
step_or none next = next
step_or (some x) next = ok (step_evidence x)

abbrev pub in_progress :
    (ProductionStep → Bool)
    → Option ProgressResult
    → Result GenerationFault Evidence
    → Result GenerationFault Evidence
in_progress p none next = err missing_key
in_progress p (some r) next = step_or (first_index p 0 r.steps) next

unfoldable pub active_step :
    Dict Text ProgressResult → List TaskDetail → Result GenerationFault Evidence
unfolding first_index Dict.lookup
active_step progress [] = err no_fact
active_step progress (t ∷ ts) =
    in_progress (λ x. is_active x.status) (Dict.lookup t.task_id progress) (active_step progress ts)

abbrev pub with_evidence :
    Result GenerationFault Evidence
    → (Evidence → DiagnosisParts)
    → Result GenerationFault DiagnosisParts
with_evidence (err e) f = err e
with_evidence (ok x) f = ok (f x)

abbrev pub active_task :
    Option (ℕ × TaskDetail) → Result GenerationFault Evidence → Result GenerationFault Evidence
active_task none next = next
active_task (some (index, t)) next = ok (task_evidence index t)

abbrev pub production_parts : Evidence → DiagnosisParts
production_parts x = record {
  summary = codes "订单当前处于正常生产环节。尚未发现异常阻塞。";
  root_causes =
      record { code = codes "PRODUCTION_IN_PROGRESS"; description = codes "关联生产任务尚未完成" } ∷ [];
  evidence = x ∷ [];
  suggestions =
      record { action_type = codes "WAIT_FOR_PRODUCTION"; description = codes "等待生产任务完成后再检查质检状态" }
      ∷ [];
  confidence = 1;
}

unfoldable pub production_diagnosis : OrderDiagnosisState → Result GenerationFault DiagnosisParts
unfolding active_step
production_diagnosis s =
    with_evidence
      (active_task (first_index (λ (t : TaskDetail). is_active t.status) 0 s.tasks)
        (active_step s.progress s.tasks))
      production_parts

abbrev pub blocked_parts : Text → Evidence → DiagnosisParts
blocked_parts description x = record {
  summary = codes "订单阻塞在生产环节。";
  root_causes =
      record { code = codes "PRODUCTION_EXECUTION_BLOCKED"; description = description } ∷ [];
  evidence = x ∷ [];
  suggestions =
      record { action_type = codes "RETRY_PRODUCTION"; description = codes "排查失败原因后重新执行生产任务" } ∷ [];
  confidence = 1;
}

abbrev pub blocked_step :
    Option (ℕ × ProductionStep)
    → Result GenerationFault DiagnosisParts
    → Result GenerationFault DiagnosisParts
blocked_step none next = next
blocked_step (some x) next = ok (blocked_parts (codes "关联生产步骤失败或被阻塞") (step_evidence x))

abbrev pub blocked_in :
    Option ProgressResult
    → Result GenerationFault DiagnosisParts
    → Result GenerationFault DiagnosisParts
blocked_in none next = err missing_key
blocked_in (some r) next =
    blocked_step (first_index (λ (x : ProductionStep). is_failed x.status) 0 r.steps) next

unfoldable pub blocked_from :
    Dict Text ProgressResult → ℕ → List TaskDetail → Result GenerationFault DiagnosisParts
unfolding first_index Dict.lookup
blocked_from progress i [] = err no_fact
blocked_from progress i (t ∷ ts) =
    let rest = blocked_from progress (suc i) ts in
    if is_failed t.status
    then ok (blocked_parts (codes "关联生产任务失败或被阻塞") (task_evidence i t))
    else blocked_in (Dict.lookup t.task_id progress) rest

-- `_production_blocked_diagnosis`.
abbrev pub production_blocked_diagnosis :
    OrderDiagnosisState → Result GenerationFault DiagnosisParts
production_blocked_diagnosis s = blocked_from s.progress 0 s.tasks
