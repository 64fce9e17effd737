-- ===== src/Runs/Operations.antt =====
-- The operations of `RunLifecycleService` (agent-service/app/services/run_lifecycle.py).
use productline_agent.Base.{
  ℕ, Bool, true, false, not, Option, none, some, List, [], ◌∷◌, ◌++◌, Text, codes, text_eq, ◌==◌,
  Result, ok, err, pure, lift, or_raise, raise_if, ◌>>=◌, ◌>>◌, Scalar, reads, timestamp, ◌&&◌,
  if◌then◌else◌,
}
use productline_agent.Base.Dict
use productline_agent.Base.Tables.{insert_new}
use productline_agent.Approval.Record.{ApprovalStatus}
use productline_agent.Runs.Record.{
  AgentRunStatus, pending, running, succeeded, failed, waiting_approval, same_run_status,
  is_finished, RunTokenUsage, run_checks,
}
use productline_agent.Runs.Service.{
  RunSetup, run_id_, session_id_, request_message_id_, source_run_id_, version_snapshot_,
  page_context_, router_result_, final_result_, target_status_, started_at_, timestamp_,
  error_code_, error_step_, RunError, run_not_found, run_validation, run_identifier,
  optional_identifier, checked_count, checked_reason, status_value, elapsed, nonnegative_ms, Change,
  source_run_id, termination_reason, error_code, error_step, started_at, finished_at, duration_ms,
  final_result, token_counts, tool_call_count, save_router_result, Run, RunAction, run_statement,
  json_snapshot, optional_snapshot, report_status, run_or, transition,
}

abbrev pub no_usage : RunTokenUsage
no_usage = record { input_tokens = 0; output_tokens = 0; total_tokens = 0 }

abbrev pub usage_or_zero : Option RunTokenUsage → RunTokenUsage
usage_or_zero none = no_usage
usage_or_zero (some u) = u

-- A `RunVersionSnapshot`: whether it is captured, and its `model_dump`.
pub record VersionSnapshot (Json : Type 0) : Type 0 where
  pub is_captured : Bool
  pub dump : Json

-- What the caller of a terminal transition passes on.
pub record Ending : Type 0 where
  pub token_usage : Option RunTokenUsage
  pub tool_calls : Scalar
  pub reason : Text

abbrev pub result_change : {Json : Type 0} → Option Json → List (Change Json)
result_change none = []
result_change (some j) = final_result (some j) ∷ []

module _ (setup : RunSetup) where
  open setup use {Json, with_approval, millis, session_exists, message_exists, env}

  abbrev pub message_found : Option Text → Bool
  message_found none = true
  message_found (some id) = message_exists id

  abbrev pub new_run : Text → Text → Option Text → Json → Option Json → Run setup
  new_run id session message version page = record {
    run_id = id;
    session_id = session;
    request_message_id = message;
    source_run_id = none;
    status = pending;
    version_snapshot = version;
    page_context_snapshot = page;
    router_result = none;
    input_token_count = 0;
    output_token_count = 0;
    total_token_count = 0;
    tool_call_count = 0;
    duration_ms = none;
    termination_reason = none;
    final_result = none;
    error_code = none;
    error_step = none;
    started_at = none;
    finished_at = none;
  }

  -- The checks of an insert, with the foreign keys.
  abbrev pub insert_checks : Run setup → Bool
  insert_checks r =
      run_checks r && session_exists r.session_id && message_found r.request_message_id

  unfoldable pub create_run :
      Text → Text → VersionSnapshot Json → Option Text → Option Json → RunAction setup (Run setup)
  create_run given session_id version message page = do
    id ← lift (run_identifier run_id_ 128 given)
    session ← lift (run_identifier session_id_ 128 session_id)
    message_id ← lift (optional_identifier request_message_id_ 128 message)
    raise_if (not version.is_captured) (run_validation version_snapshot_)
    snapshot ← lift (json_snapshot setup version_snapshot_ version.dump)
    context ← lift (optional_snapshot setup page_context_ page)
    run_statement setup
          (insert_new insert_checks id (new_run id session message_id snapshot context))
        >>= pure

  unfoldable pub record_router_result : Text → Json → RunAction setup (Run setup)
  unfolding report_status
  record_router_result given result = do
    id ← lift (run_identifier run_id_ 128 given)
    snapshot ← lift (json_snapshot setup router_result_ result)
    row ← run_statement setup (save_router_result id snapshot)
    run_or setup (report_status setup id (λ current. run_validation router_result_)) row

  unfoldable pub mark_running : Text → RunAction setup (Run setup)
  unfolding transition
  mark_running given = do
    at ← timestamp env (run_validation timestamp_)
    transition setup given pending running (
        started_at (some at)
        ∷ finished_at none
        ∷ final_result none
        ∷ error_code none
        ∷ error_step none
        ∷ token_counts no_usage
        ∷ tool_call_count 0
        ∷ duration_ms none
        ∷ termination_reason none
        ∷ [])

  abbrev pub present_start : Option ℕ → Result RunError ℕ
  present_start none = err (run_validation started_at_)
  present_start (some t) = ok t

  -- The duration of a run that was found, up to `finish`; one that is not running has none yet.
  abbrev pub found_duration : ℕ → Run setup → RunAction setup ℕ
  found_duration finish r = do
    start ← lift (present_start r.started_at)
    lift (nonnegative_ms (elapsed millis start finish))

  abbrev pub terminal_duration : ℕ → Option (Run setup) → RunAction setup ℕ
  terminal_duration finish none = pure 0
  terminal_duration finish (some r) =
      if same_run_status r.status running then found_duration finish r else pure 0

  -- `_terminal_changes`.
  unfoldable pub terminal_changes : Text → Ending → RunAction setup (List (Change Json))
  unfolding elapsed
  terminal_changes given ending = do
    id ← lift (run_identifier run_id_ 128 given)
    calls ← lift (checked_count ending.tool_calls)
    reason ← lift (checked_reason ending.reason)
    finish ← timestamp env (run_validation timestamp_)
    current ← reads env (Dict.lookup id)
    duration ← terminal_duration finish current
    pure (
        finished_at (some finish)
        ∷ token_counts (usage_or_zero ending.token_usage)
        ∷ tool_call_count calls
        ∷ duration_ms (some duration)
        ∷ termination_reason (some reason)
        ∷ [])

  unfoldable pub mark_succeeded : Text → Json → Ending → RunAction setup (Run setup)
  unfolding terminal_changes transition
  mark_succeeded given result ending = do
    snapshot ← lift (json_snapshot setup final_result_ result)
    changes ← terminal_changes given ending
    transition setup given running succeeded
        (changes ++ (final_result (some snapshot) ∷ error_code none ∷ error_step none ∷ []))

  unfoldable pub mark_failed : Text → Text → Text → Ending → RunAction setup (Run setup)
  unfolding terminal_changes transition
  mark_failed given code step ending = do
    error ← lift (run_identifier error_code_ 64 code)
    at_step ← lift (run_identifier error_step_ 128 step)
    changes ← terminal_changes given ending
    transition setup given running failed
        (changes ++ (final_result none ∷ error_code (some error) ∷ error_step (some at_step) ∷ []))

  -- The test compares the normalized identifier of the source with the run's as it was given.
  abbrev pub names_itself : Text → Option Text → Bool
  names_itself given none = false
  names_itself given (some source) = source == given

  unfoldable pub mark_waiting_approval :
      Text → Option Text → Option Json → RunAction setup (Run setup)
  unfolding transition
  mark_waiting_approval given source result = do
    source_id ← lift (optional_identifier source_run_id_ 128 source)
    raise_if (names_itself given source_id) (run_validation source_run_id_)
    snapshot ← lift (optional_snapshot setup final_result_ result)
    transition setup given running waiting_approval (
        source_run_id source_id
        ∷ finished_at none
        ∷ termination_reason (some (codes "WAITING_CONFIRMATION"))
        ∷ result_change snapshot)

  unfoldable pub record_waiting_observability :
      Text → RunTokenUsage → Scalar → RunAction setup (Run setup)
  unfolding transition
  record_waiting_observability given usage tool_calls = do
    calls ← lift (checked_count tool_calls)
    transition setup given waiting_approval waiting_approval
        (token_counts usage ∷ tool_call_count calls ∷ [])

  unfoldable pub resume_approval_execution : Text → RunAction setup (Run setup)
  unfolding transition
  resume_approval_execution given =
      transition setup given waiting_approval running (termination_reason none ∷ [])

  abbrev pub approved_result : ApprovalStatus → Option Json → Option Json
  approved_result status none = none
  approved_result status (some j) = some (with_approval status j)

  -- `finish_approval_run` from the row that was read.
  unfoldable pub finish_from :
      Text
      → AgentRunStatus
      → ApprovalStatus
      → Option Text
      → Option Text
      → AgentRunStatus
      → Run setup
      → RunAction setup (Run setup)
  unfolding elapsed transition
  finish_from given target approval code step expected current = do
    start ← lift (present_start current.started_at)
    finish ← timestamp env (run_validation timestamp_)
    duration ← lift (nonnegative_ms (elapsed millis start finish))
    error ← lift (optional_identifier error_code_ 64 code)
    at_step ← lift (optional_identifier error_step_ 128 step)
    transition setup given expected target (
        finished_at (some finish)
        ∷ duration_ms (some duration)
        ∷ termination_reason (some (codes "APPROVAL_" ++ status_value target))
        ∷ error_code error
        ∷ error_step at_step
        ∷ final_result (approved_result approval current.final_result)
        ∷ [])

  unfoldable pub finish_approval_run :
      Text
      → AgentRunStatus
      → ApprovalStatus
      → Option Text
      → Option Text
      → AgentRunStatus
      → RunAction setup (Run setup)
  unfolding finish_from
  finish_approval_run given target approval code step expected = do
    raise_if (not (is_finished target)) (run_validation target_status_)
    current ← or_raise (← reads env (Dict.lookup given)) (run_not_found given)
    finish_from given target approval code step expected current
