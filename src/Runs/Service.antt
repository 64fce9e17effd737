-- ===== src/Runs/Service.antt =====
-- The life of a run (agent-service/app/services/run_lifecycle.py) over its table
-- (agent-service/app/repositories/agent_runtime.py, `AgentRunRepository`).
use productline_agent.Base.{
  all_of, ℕ, ◌-◌, Bool, true, false, not, ◌&&◌, ◌||◌, Option, none, some, List, [], ◌∷◌, Text,
  codes, strip, length, non_empty, ltb, leb, nat_beq, if◌then◌else◌, text_eq, Result, ok, err, Exec,
  pure, raise, lift, or_raise, ◌>>=◌, Scalar, int, bool, ℤ, pos, negsuc, Env, World, reads, writes,
  is_some,
}
use productline_agent.Base.Dict
use productline_agent.Base.Dict.{Dict}
use productline_agent.Base.Pattern.{is_upper, is_digit}
use productline_agent.Base.Tables.{Written, Refusal, update_if}
use productline_agent.Approval.Record.{ApprovalStatus}
use productline_agent.Runs.Record.{
  AgentRunStatus, pending, running, succeeded, failed, waiting_approval, cancelled, same_run_status,
  AgentRun, RunTokenUsage, run_checks,
}

pub data RunField : Type 0 where
  run_id_ session_id_ request_message_id_ source_run_id_ version_snapshot_ page_context_
        router_result_ :
      RunField
  final_result_ target_status_ started_at_ timestamp_ tool_call_count_ termination_reason_
        error_code_ error_step_ :
      RunField

pub data RunError : Type 0 where
  run_not_found : Text → RunError
  invalid_run_transition : Text → AgentRunStatus → AgentRunStatus → RunError
  run_validation : RunField → RunError
  run_integrity : RunError

-- `_require_identifier`.
unfoldable pub run_identifier : RunField → ℕ → Text → Result RunError Text
run_identifier field most value =
    let normalized = strip value in
    if not (non_empty normalized) || ltb most (length normalized)
    then err (run_validation field)
    else ok normalized

-- The same of an argument that may be `None`.
abbrev pub optional_identifier : RunField → ℕ → Option Text → Result RunError (Option Text)
optional_identifier field most none = ok none
optional_identifier field most (some value) = elim (run_identifier field most value) [
  | ok t ↦ ok (some t)
  | err e ↦ err e
]

-- A nonnegative integer, and no `bool`.
unfoldable pub checked_count : Scalar → Result RunError ℕ
checked_count (bool b) = err (run_validation tool_call_count_)
checked_count (int (negsuc n)) = err (run_validation tool_call_count_)
checked_count (int (pos n)) = ok n

-- `_STABLE_REASON_PATTERN`, without its bound on the length.
unfoldable pub is_stable_code : Text → Bool
is_stable_code [] = false
is_stable_code (c ∷ s) = is_upper c && all_of (λ d. is_upper d || is_digit d || nat_beq d 95) s

-- `termination_reason.strip()`, if it is a stable code.
unfoldable pub checked_reason : Text → Result RunError Text
unfolding is_stable_code
checked_reason reason =
    let normalized = strip reason in
    if is_stable_code normalized && ltb (length normalized) 65
    then ok normalized
    else err (run_validation termination_reason_)

abbrev pub status_value : AgentRunStatus → Text
status_value pending = codes "PENDING"
status_value running = codes "RUNNING"
status_value succeeded = codes "SUCCEEDED"
status_value failed = codes "FAILED"
status_value waiting_approval = codes "WAITING_APPROVAL"
status_value cancelled = codes "CANCELLED"

-- What the service is built on. `Json` is the type of a JSON object. `snapshot` is `json.loads` of
-- `json.dumps`, none where they raise; `with_approval` is the result with the approval's status, where
-- the result is of the kind `APPROVAL`, and else the result. `millis` is `int(d.total_seconds() * 1000)`
-- of a duration of so many microseconds; Python truncates a negative one to the same number with a sign.
pub record RunSetup : Type 1 where
  pub Json : Type 0
  pub snapshot : Json → Option Json
  pub with_approval : ApprovalStatus → Json → Json
  pub millis : ℕ → ℕ
  pub session_exists : Text → Bool
  pub message_exists : Text → Bool
  pub env : Env (Dict Text (AgentRun Json))

-- `duration_ms`, from the start to the finish.
unfoldable pub elapsed : (ℕ → ℕ) → ℕ → ℕ → ℤ
elapsed millis start finish =
    if leb start finish
    then pos (millis (finish - start))
    else if nat_beq (millis (start - finish)) 0
    then pos 0
    else negsuc (millis (start - finish) - 1)

-- The test of its sign.
abbrev pub nonnegative_ms : ℤ → Result RunError ℕ
nonnegative_ms (pos n) = ok n
nonnegative_ms (negsuc n) = err (run_validation timestamp_)

abbrev pub is_open : AgentRunStatus → Bool
is_open s = same_run_status s pending || same_run_status s running

-- The columns that a transition may change, each with its new value.
pub data Change (Json : Type 0) : Type 0 where
  source_run_id termination_reason error_code error_step : Option Text → Change Json
  started_at finished_at duration_ms : Option ℕ → Change Json
  final_result : Option Json → Change Json
  token_counts : RunTokenUsage → Change Json
  tool_call_count : ℕ → Change Json

module _ {Json : Type 0} where
  abbrev pub apply_change : Change Json → AgentRun Json → AgentRun Json
  apply_change (source_run_id t) r = record r { source_run_id = t }
  apply_change (termination_reason t) r = record r { termination_reason = t }
  apply_change (error_code t) r = record r { error_code = t }
  apply_change (error_step t) r = record r { error_step = t }
  apply_change (started_at t) r = record r { started_at = t }
  apply_change (finished_at t) r = record r { finished_at = t }
  apply_change (duration_ms t) r = record r { duration_ms = t }
  apply_change (final_result j) r = record r { final_result = j }
  apply_change (token_counts u) r = record r {
    input_token_count = u.input_tokens;
    output_token_count = u.output_tokens;
    total_token_count = u.total_tokens;
  }
  apply_change (tool_call_count n) r = record r { tool_call_count = n }

  abbrev pub apply_all : List (Change Json) → AgentRun Json → AgentRun Json
  apply_all [] r = r
  apply_all (c ∷ cs) r = apply_all cs (apply_change c r)

  abbrev pub with_changes : AgentRunStatus → List (Change Json) → AgentRun Json → AgentRun Json
  with_changes target cs r = record (apply_all cs r) { status = target }

  -- The foreign key to the source run.
  abbrev pub source_found : Dict Text (AgentRun Json) → Option Text → Bool
  source_found db none = true
  source_found db (some id) = is_some (Dict.lookup id db)

  -- `AgentRunRepository.transition_status`.
  unfoldable pub transition_run :
      Text
      → AgentRunStatus
      → AgentRunStatus
      → List (Change Json)
      → Dict Text (AgentRun Json)
      → Written (AgentRun Json) (Option (AgentRun Json))
  transition_run id expected target cs db =
      update_if (λ (r : AgentRun Json). run_checks r && source_found db r.source_run_id) id
        (λ (r : AgentRun Json). same_run_status r.status expected) (with_changes target cs) db

  -- `AgentRunRepository.save_router_result`.
  unfoldable pub save_router_result :
      Text → Json → Dict Text (AgentRun Json) → Written (AgentRun Json) (Option (AgentRun Json))
  save_router_result id result =
      update_if run_checks id (λ (r : AgentRun Json). is_open r.status)
        (λ (r : AgentRun Json). record r { router_result = some result })

module _ (setup : RunSetup) where
  open setup use {Json, snapshot, with_approval, millis, session_exists, message_exists, env}

  abbrev pub Run : Type 0
  Run = AgentRun Json

  abbrev pub RunTable : Type 0
  RunTable = Dict Text Run

  abbrev pub RunAction : Type 0 → Type 0
  RunAction = Exec (World RunTable) RunError

  abbrev pub refused : {A : Type 0} → Result Refusal A → Result RunError A
  refused (ok a) = ok a
  refused (err r) = err run_integrity

  abbrev pub run_statement : {A : Type 0} → (RunTable → Written Run A) → RunAction A
  run_statement f = writes env (λ db. let (r, db') = f db in (refused r, db'))

  -- `_json_snapshot`.
  abbrev pub json_snapshot : RunField → Json → Result RunError Json
  json_snapshot field j = elim (snapshot j) [ none ↦ err (run_validation field) | some k ↦ ok k ]

  abbrev pub optional_snapshot : RunField → Option Json → Result RunError (Option Json)
  optional_snapshot field none = ok none
  optional_snapshot field (some j) = elim (snapshot j) [
    | none ↦ err (run_validation field)
    | some k ↦ ok (some k)
  ]

  -- After a statement that found no row: the run is missing, or in another status.
  unfoldable pub report_status : Text → (AgentRunStatus → RunError) → RunAction Run
  report_status id conflict = do
    current ← or_raise (← reads env (Dict.lookup id)) (run_not_found id)
    raise (conflict current.status)

  abbrev pub run_or : RunAction Run → Option Run → RunAction Run
  run_or conflict none = conflict
  run_or conflict (some r) = pure r

  -- `_transition`.
  unfoldable pub transition :
      Text → AgentRunStatus → AgentRunStatus → List (Change Json) → RunAction Run
  unfolding report_status
  transition given expected target cs = do
    id ← lift (run_identifier run_id_ 128 given)
    row ← run_statement (transition_run id expected target cs)
    run_or (report_status id (λ current. invalid_run_transition id current target)) row
