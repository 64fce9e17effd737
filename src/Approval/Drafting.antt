-- ===== src/Approval/Drafting.antt =====
-- The operations on drafts (agent-service/app/services/approval_lifecycle.py): creation, the user's
-- modification, and the draft that is executed.
use productline_agent.Base.{
  ℕ, not, Option, none, some, Text, codes, text_eq, ◌!=◌, Result, pure, lift, raise_if, ◌>>=◌, ◌>>◌,
  Scalar, timestamp,
}
use productline_agent.Base.Pattern.{has_prefix}
use productline_agent.Approval.Draft.{ReviewDraft}
use productline_agent.Approval.Record.{
  draft, waiting_confirmation, OperationType, PendingToolName, tool_for, same_tool, same_status,
}
use productline_agent.Approval.Store.{create, save_user_modified_draft}
use productline_agent.Approval.Service.{
  Setup, Record, Action, ApprovalError, invalid_transition, validation, approval_id, run_id,
  target_id, pending_tool_name, original_draft, modified_draft, effective_draft, draft_task_id,
  draft_issue_id, timestamp_field, DraftInput, dict_of, identifier, checked_version, review_draft,
  require_current, report_conflict, returned_or, statement,
}

module _ (setup : Setup) where
  open setup use {codec, env, run_exists}

  abbrev pub new_record :
      Text → Text → OperationType → codec.Json → PendingToolName → Text → ℕ → Record setup
  new_record id run operation snapshot tool target version = record {
    approval_id = id;
    run_id = some run;
    status = draft;
    operation_type = operation;
    original_draft = snapshot;
    user_modified_draft = none;
    pending_tool_name = tool;
    target_id = target;
    target_version = version;
    confirmed_by_user_id = none;
    confirmed_at = none;
    execution_result = none;
    updated_at = 0;
  }

  abbrev pub insert_row : Record setup → Action setup (Record setup)
  insert_row r = statement setup (create run_exists r) >>= pure

  unfoldable pub create_draft :
      Text
      → Text
      → OperationType
      → DraftInput codec.Json
      → PendingToolName
      → Text
      → Scalar
      → Action setup (Record setup)
  create_draft given_id given_run operation original tool given_target version = do
    id ← lift (identifier approval_id given_id)
    run ← lift (identifier run_id given_run)
    target ← lift (identifier target_id given_target)
    raise_if (not (has_prefix (codes "TASK-") target)) (validation target_id)
    checked ← lift (checked_version version)
    raise_if (not (same_tool tool (tool_for operation))) (validation pending_tool_name)
    d ← lift (review_draft setup original_draft original)
    raise_if (d.task_id != target) (validation draft_task_id)
    insert_row (new_record id run operation (codec.dump d) tool target checked)

  -- `save_user_modification` from the row that was read.
  unfoldable pub modify_from :
      Text → DraftInput codec.Json → Record setup → Action setup (Record setup)
  unfolding report_conflict
  modify_from id modified current = do
    raise_if (not (same_status current.status waiting_confirmation))
        (invalid_transition id current.status waiting_confirmation)
    d ← lift (review_draft setup modified_draft modified)
    raise_if (d.task_id != current.target_id) (validation draft_task_id)
    original ← lift (review_draft setup original_draft (dict_of current.original_draft))
    raise_if (d.issue_id != original.issue_id) (validation draft_issue_id)
    at ← timestamp env (validation timestamp_field)
    row ← statement setup (save_user_modified_draft id waiting_confirmation (codec.dump d) at)
    returned_or setup (report_conflict setup id waiting_confirmation) row

  unfoldable pub save_user_modification : Text → DraftInput codec.Json → Action setup (Record setup)
  unfolding require_current modify_from
  save_user_modification given modified = do
    id ← lift (identifier approval_id given)
    current ← require_current setup id
    modify_from id modified current

  abbrev chosen : Option codec.Json → codec.Json → codec.Json
  chosen none original = original
  chosen (some modified) original = modified

  -- The draft that is executed: the user's modification, if there is one.
  unfoldable pub effective_review_draft : Record setup → Result ApprovalError ReviewDraft
  effective_review_draft r =
      review_draft setup effective_draft (dict_of (chosen r.user_modified_draft r.original_draft))
