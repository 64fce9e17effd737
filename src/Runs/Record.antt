-- ===== src/Runs/Record.antt =====
-- The row of a run (agent-service/app/models/agent_runtime.py), and the usage that it counts
-- (agent-service/app/schemas/run_observability.py). `Json` is the type of its JSON objects.
use productline_agent.Base.{
  ℕ, ◌+◌, ◌≡◌, Bool, true, false, ◌&&◌, Option, none, some, Text, nat_beq, leb, non_empty, arith,
  text_eq,
}

pub data AgentRunStatus : Type 0 where
  pending running succeeded failed waiting_approval cancelled : AgentRunStatus

abbrev rank : AgentRunStatus → ℕ
rank pending = 0
rank running = 1
rank succeeded = 2
rank failed = 3
rank waiting_approval = 4
rank cancelled = 5

-- `is` and `==` on statuses.
abbrev pub same_run_status : AgentRunStatus → AgentRunStatus → Bool
same_run_status a b = nat_beq (rank a) (rank b)

pub same_run_status-eq : (a b : AgentRunStatus) → same_run_status a b ≡ true → a ≡ b
same_run_status-eq a b h = ground arith

abbrev pub is_finished : AgentRunStatus → Bool
is_finished succeeded = true
is_finished failed = true
is_finished cancelled = true
is_finished _ = false

pub record RunTokenUsage : Type 0 where
  pub input_tokens : ℕ
  pub output_tokens : ℕ
  pub total_tokens : ℕ

abbrev is_run_count : ℕ → Bool
is_run_count n = leb n 2147483647

-- `RunTokenUsage.require_exact_total`, and the bounds of its fields.
unfoldable pub is_usage : RunTokenUsage → Bool
is_usage u =
    is_run_count u.input_tokens
    && is_run_count u.output_tokens
    && is_run_count u.total_tokens
    && nat_beq u.total_tokens (u.input_tokens + u.output_tokens)

pub record AgentRun (Json : Type 0) : Type 0 where
  pub run_id : Text
  pub session_id : Text
  pub request_message_id : Option Text
  pub source_run_id : Option Text
  pub status : AgentRunStatus
  pub version_snapshot : Json
  pub page_context_snapshot : Option Json
  pub router_result : Option Json
  pub input_token_count : ℕ
  pub output_token_count : ℕ
  pub total_token_count : ℕ
  pub tool_call_count : ℕ
  pub duration_ms : Option ℕ
  pub termination_reason : Option Text
  pub final_result : Option Json
  pub error_code : Option Text
  pub error_step : Option Text
  pub started_at : Option ℕ
  pub finished_at : Option ℕ

abbrev none_or_filled : Option Text → Bool
none_or_filled none = true
none_or_filled (some t) = non_empty t

-- What a column of type INTEGER holds of numbers that are not negative.
abbrev pub fits_integer : ℕ → Bool
fits_integer n = leb n 2147483647

abbrev none_or_fits : Option ℕ → Bool
none_or_fits none = true
none_or_fits (some n) = fits_integer n

-- The check constraints of the table, and the ranges of its columns; counts and durations are
-- numbers that cannot be negative.
unfoldable pub run_checks : {Json : Type 0} → AgentRun Json → Bool
run_checks r =
    non_empty r.run_id
    && nat_beq r.total_token_count (r.input_token_count + r.output_token_count)
    && none_or_filled r.termination_reason
    && fits_integer r.input_token_count
    && fits_integer r.output_token_count
    && fits_integer r.total_token_count
    && fits_integer r.tool_call_count
    && none_or_fits r.duration_ms
