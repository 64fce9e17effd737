-- ===== src/Workflow/Facts.antt =====
-- The facts of a diagnosis (agent-service/app/schemas/tools.py) and the channels of its state that the
-- rules read (agent-service/app/schemas/workflow.py).
use productline_agent.Base.{ℕ, Bool, true, false, Option, List, Text}
use productline_agent.Base.Dict.{Dict}

pub data OrderStatus : Type 0 where
  created producing quality_checking reviewing ready_for_delivery delivering_order delivered_order
        order_blocked :
      OrderStatus

pub data ProductionStatus : Type 0 where
  pending running completed failed blocked : ProductionStatus

pub data QualityIssueStatus : Type 0 where
  open_ processing resolved closed : QualityIssueStatus

pub data ReviewStatus : Type 0 where
  review_pending approved rejected rework_required : ReviewStatus

pub data DeliveryState : Type 0 where
  not_ready ready delivering delivered delivery_failed delivery_blocked : DeliveryState

pub record OrderDetail : Type 0 where
  pub order_id : Text
  pub product_type : Text
  pub status : OrderStatus

pub record TaskDetail : Type 0 where
  pub task_id : Text
  pub order_id : Text
  pub status : ProductionStatus
  pub version : ℕ

pub record ProductionStep : Type 0 where
  pub step_id : Text
  pub task_id : Text
  pub step_name : Text
  pub sequence_number : ℕ
  pub status : ProductionStatus

pub record ProgressResult : Type 0 where
  pub task_id : Text
  pub steps : List ProductionStep

pub record QualityIssue : Type 0 where
  pub issue_id : Text
  pub task_id : Text
  pub issue_type : Text
  pub status : QualityIssueStatus
  pub description : Text

pub record ReviewRecord : Type 0 where
  pub review_id : Text
  pub issue_id : Text
  pub status : ReviewStatus
  pub review_comment : Option Text

pub record ReviewResult : Type 0 where
  pub task_id : Text
  pub reviews : List ReviewRecord

pub record DeliveryRecord : Type 0 where
  pub delivery_id : Text
  pub order_id : Text
  pub status : DeliveryState

pub record DeliveryStatus : Type 0 where
  pub order_id : Text
  pub records : List DeliveryRecord

-- The codes of `InformationGapDetector`.
pub data GapCode : Type 0 where
  order_required related_tasks_required delivery_status_required production_progress_required
        quality_issues_required review_result_required specification_result_required :
      GapCode

pub record InformationGap : Type 0 where
  pub code : GapCode
  pub description : Text

pub record StepError : Type 0 where
  pub step_name : Text
  pub code : Text
  pub message : Text
  pub retryable : Bool
  pub trace_id : Option Text

-- The channels of `OrderDiagnosisState` that the rules and the detector read.
pub record OrderDiagnosisState : Type 0 where
  pub order_id : Text
  pub order : Option OrderDetail
  pub tasks : List TaskDetail
  pub progress : Dict Text ProgressResult
  pub quality_issues : Dict Text (List QualityIssue)
  pub reviews : Dict Text (Option ReviewResult)
  pub delivery : Option DeliveryStatus
  pub errors : List StepError
  pub information_gaps : List InformationGap

abbrev pub is_failed : ProductionStatus → Bool
is_failed failed = true
is_failed blocked = true
is_failed _ = false

abbrev pub is_active : ProductionStatus → Bool
is_active pending = true
is_active running = true
is_active _ = false

abbrev pub is_completed : ProductionStatus → Bool
is_completed completed = true
is_completed _ = false

abbrev pub is_unresolved : QualityIssueStatus → Bool
is_unresolved open_ = true
is_unresolved processing = true
is_unresolved _ = false

abbrev pub is_resolved : QualityIssueStatus → Bool
is_resolved resolved = true
is_resolved _ = false

abbrev pub is_approved : ReviewStatus → Bool
is_approved approved = true
is_approved _ = false

abbrev pub is_delivery_blocked : DeliveryState → Bool
is_delivery_blocked not_ready = true
is_delivery_blocked delivery_failed = true
is_delivery_blocked delivery_blocked = true
is_delivery_blocked _ = false
