-- ===== src/Agent/Equality.antt =====
-- The equality of the facts as Python compares them: models by their fields, dicts by their keys and
-- values (agent-service/app/schemas/tools.py).
use productline_agent.Base.{
  ℕ, Bool, true, false, ◌&&◌, Option, none, some, List, [], ◌∷◌, Text, text_eq, ◌==◌, nat_beq,
}
use productline_agent.Workflow.Facts.{
  OrderStatus, created, producing, quality_checking, reviewing, ready_for_delivery,
  delivering_order, delivered_order, order_blocked, ProductionStatus, pending, running, completed,
  failed, blocked, QualityIssueStatus, open_, processing, resolved, closed, ReviewStatus,
  review_pending, approved, rejected, rework_required, DeliveryState, not_ready, ready, delivering,
  delivered, delivery_failed, delivery_blocked, OrderDetail, TaskDetail, ProductionStep,
  ProgressResult, QualityIssue, ReviewRecord, ReviewResult, DeliveryRecord, DeliveryStatus,
}

abbrev order_rank : OrderStatus → ℕ
order_rank created = 0
order_rank producing = 1
order_rank quality_checking = 2
order_rank reviewing = 3
order_rank ready_for_delivery = 4
order_rank delivering_order = 5
order_rank delivered_order = 6
order_rank order_blocked = 7

abbrev production_rank : ProductionStatus → ℕ
production_rank pending = 0
production_rank running = 1
production_rank completed = 2
production_rank failed = 3
production_rank blocked = 4

abbrev issue_rank : QualityIssueStatus → ℕ
issue_rank open_ = 0
issue_rank processing = 1
issue_rank resolved = 2
issue_rank closed = 3

abbrev review_rank : ReviewStatus → ℕ
review_rank review_pending = 0
review_rank approved = 1
review_rank rejected = 2
review_rank rework_required = 3

abbrev delivery_rank : DeliveryState → ℕ
delivery_rank not_ready = 0
delivery_rank ready = 1
delivery_rank delivering = 2
delivery_rank delivered = 3
delivery_rank delivery_failed = 4
delivery_rank delivery_blocked = 5

module _ {A : Type 0} (same : A → A → Bool) where
  abbrev pub same_list : List A → List A → Bool
  same_list [] [] = true
  same_list (x ∷ xs) (y ∷ ys) = same x y && same_list xs ys
  same_list _ _ = false

  abbrev pub same_option : Option A → Option A → Bool
  same_option none none = true
  same_option (some x) (some y) = same x y
  same_option _ _ = false

abbrev same_text : Text → Text → Bool
same_text a b = a == b

abbrev pub same_order : OrderDetail → OrderDetail → Bool
same_order a b =
    (a.order_id == b.order_id)
    && (a.product_type == b.product_type)
    && nat_beq (order_rank a.status) (order_rank b.status)

abbrev pub same_task : TaskDetail → TaskDetail → Bool
same_task a b =
    (a.task_id == b.task_id)
    && (a.order_id == b.order_id)
    && nat_beq (production_rank a.status) (production_rank b.status)
    && nat_beq a.version b.version

abbrev same_step : ProductionStep → ProductionStep → Bool
same_step a b =
    (a.step_id == b.step_id)
    && (a.task_id == b.task_id)
    && (a.step_name == b.step_name)
    && nat_beq a.sequence_number b.sequence_number
    && nat_beq (production_rank a.status) (production_rank b.status)

abbrev pub same_progress : ProgressResult → ProgressResult → Bool
same_progress a b = (a.task_id == b.task_id) && same_list same_step a.steps b.steps

abbrev pub same_issue : QualityIssue → QualityIssue → Bool
same_issue a b =
    (a.issue_id == b.issue_id)
    && (a.task_id == b.task_id)
    && (a.issue_type == b.issue_type)
    && nat_beq (issue_rank a.status) (issue_rank b.status)
    && (a.description == b.description)

abbrev same_review_record : ReviewRecord → ReviewRecord → Bool
same_review_record a b =
    (a.review_id == b.review_id)
    && (a.issue_id == b.issue_id)
    && nat_beq (review_rank a.status) (review_rank b.status)
    && same_option same_text a.review_comment b.review_comment

abbrev pub same_review : ReviewResult → ReviewResult → Bool
same_review a b = (a.task_id == b.task_id) && same_list same_review_record a.reviews b.reviews

abbrev same_delivery_record : DeliveryRecord → DeliveryRecord → Bool
same_delivery_record a b =
    (a.delivery_id == b.delivery_id)
    && (a.order_id == b.order_id)
    && nat_beq (delivery_rank a.status) (delivery_rank b.status)

abbrev pub same_delivery : DeliveryStatus → DeliveryStatus → Bool
same_delivery a b = (a.order_id == b.order_id) && same_list same_delivery_record a.records b.records
