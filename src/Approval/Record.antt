-- ===== src/Approval/Record.antt =====
-- The row of a human confirmation (agent-service/app/models/approval.py).
use productline_agent.Base.{
  none, some, ℕ, ◌≡◌, refl, ◌↔◌, Bool, true, false, Option, arith, Text, nat_beq, if◌then◌else◌,
  non_empty, not, ◌||◌, is_some, is_none, ◌&&◌, some,
}

pub data ApprovalStatus : Type 0 where
  draft waiting_confirmation confirmed executing succeeded failed cancelled expired stale :
      ApprovalStatus

pub data OperationType : Type 0 where
  submit_review create_rework : OperationType

pub data PendingToolName : Type 0 where
  write_review_result create_rework_task : PendingToolName

abbrev rank : ApprovalStatus → ℕ
rank draft = 0
rank waiting_confirmation = 1
rank confirmed = 2
rank executing = 3
rank succeeded = 4
rank failed = 5
rank cancelled = 6
rank expired = 7
rank stale = 8

-- `is` and `==` on statuses.
abbrev pub same_status : ApprovalStatus → ApprovalStatus → Bool
same_status a b = nat_beq (rank a) (rank b)

abbrev of_rank : ℕ → ApprovalStatus
of_rank n =
    if nat_beq n 0
    then draft
    else if nat_beq n 1
    then waiting_confirmation
    else if nat_beq n 2
    then confirmed
    else if nat_beq n 3
    then executing
    else if nat_beq n 4
    then succeeded
    else if nat_beq n 5
    then failed
    else if nat_beq n 6
    then cancelled
    else if nat_beq n 7
    then expired
    else stale

of_rank-rank : (a : ApprovalStatus) → of_rank (rank a) ≡ a
of_rank-rank draft = refl
of_rank-rank _ = refl

rank-injective : (a b : ApprovalStatus) → rank a ≡ rank b → a ≡ b
rank-injective a b h = cc (of_rank-rank a, of_rank-rank b)

pub same_status_iff : (a b : ApprovalStatus) → (same_status a b ≡ true) ↔ (a ≡ b)
same_status_iff a b = (λ h. rank-injective a b (ground arith), λ p. rw p (ground arith))

abbrev pub tool_for : OperationType → PendingToolName
tool_for submit_review = write_review_result
tool_for create_rework = create_rework_task

abbrev pub same_tool : PendingToolName → PendingToolName → Bool
same_tool write_review_result write_review_result = true
same_tool create_rework_task create_rework_task = true
same_tool _ _ = false

-- The drafts and the result are JSON columns, and `Json` is the type of their values.
pub record ApprovalRecord (Json : Type 0) : Type 0 where
  pub approval_id : Text
  pub run_id : Option Text
  pub status : ApprovalStatus
  pub operation_type : OperationType
  pub original_draft : Json
  pub user_modified_draft : Option Json
  pub pending_tool_name : PendingToolName
  pub target_id : Text
  pub target_version : ℕ
  pub confirmed_by_user_id : Option Text
  pub confirmed_at : Option ℕ
  pub execution_result : Option Json
  pub updated_at : ℕ

-- The check constraints of the table, all of which a written row must meet.
abbrev pub same_presence : {A B : Type 0} → Option A → Option B → Bool
same_presence none b = is_none b
same_presence (some a) b = is_some b

abbrev pub may_hold_result : ApprovalStatus → Bool
may_hold_result executing = true
may_hold_result succeeded = true
may_hold_result _ = false

unfoldable pub row_checks : {Json : Type 0} → ApprovalRecord Json → Bool
row_checks r =
    non_empty r.approval_id
    && non_empty r.target_id
    && same_presence r.confirmed_by_user_id r.confirmed_at
    && same_tool r.pending_tool_name (tool_for r.operation_type)
    && (not (is_some r.execution_result) || may_hold_result r.status)
