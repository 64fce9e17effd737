-- ===== src/Tools/Execute.antt =====
-- The execution of a tool (agent-service/app/tools/base.py, `BaseTool.execute`, with the results of
-- agent-service/app/tools/models.py).
use productline_agent.Base.{
  ℕ, suc, Bool, true, false, ◌&&◌, ◌||◌, Option, none, some, List, [], ◌∷◌, Text, codes, text_eq,
  contains, all_of, nat_beq, leb, is_some, is_none, if◌then◌else◌, Result, ok, err,
}
use productline_agent.Base.Pattern.{is_upper, is_lower, is_digit, length_between}
use productline_agent.Tools.Retry.{
  ToolErrorCode, permission_denied, param_validation_error, duplicate_call,
  response_validation_error, tool_timeout, unknown_tool_error, ToolException, Float, ValueError,
  value_error, RetryPolicy, Attempt, returned, failed, timed_out, crashed, Upstream, Finished,
  execute_with_retry,
}
use productline_agent.Tools.Ledger.{Ledger, try_reserve}

pub record ToolError : Type 0 where
  pub code : ToolErrorCode
  pub message : Text
  pub retryable : Bool
  pub trace_id : Option Text
  pub status_code : Option ℕ

-- `ContextIdentifier`.
unfoldable pub is_context_identifier : Text → Bool
is_context_identifier t =
    length_between 1 128 t
    && all_of
        (λ c.
          is_upper c
          || is_lower c
          || is_digit c
          || nat_beq c b'.'
          || nat_beq c b'_'
          || nat_beq c b':'
          || nat_beq c b'-')
        t

abbrev none_or : {A : Type 0} → (A → Bool) → Option A → Bool
none_or p none = true
none_or p (some a) = p a

-- The fields of a `ToolError`.
unfoldable pub is_tool_error : ToolError → Bool
unfolding is_context_identifier
is_tool_error e =
    length_between 1 2048 e.message
    && none_or is_context_identifier e.trace_id
    && none_or (λ n. leb 100 n && leb n 599) e.status_code

pub record ToolResult (D : Type 0) : Type 0 where
  pub success : Bool
  pub data_ : Option D
  pub error : Option ToolError

-- `ToolResult.validate_result_shape`.
abbrev pub is_shaped : {D : Type 0} → ToolResult D → Bool
is_shaped r =
    if r.success then is_some r.data_ && is_none r.error else is_none r.data_ && is_some r.error

-- `exception.trace_id or fallback_trace_id`.
abbrev pub trace_or : Option Text → Text → Text
trace_or none fallback = fallback
trace_or (some []) fallback = fallback
trace_or (some (c ∷ t)) fallback = c ∷ t

-- `ToolError.from_exception`.
abbrev pub from_exception : ToolException → Text → ToolError
from_exception e fallback = record {
  code = e.code;
  message = e.message;
  retryable = e.retryable;
  trace_id = some (trace_or e.trace_id fallback);
  status_code = e.status_code;
}

abbrev pub plain_error : ToolErrorCode → Text → Bool → Text → ToolError
plain_error code message retryable trace_id = record {
  code = code;
  message = message;
  retryable = retryable;
  trace_id = some trace_id;
  status_code = none;
}

-- `self._failure(ToolError(...))`, where the error may break its schema.
unfoldable pub failure : {D : Type 0} → ToolError → Result ValueError (ToolResult D)
unfolding is_tool_error
failure e =
    if is_tool_error e
    then ok record { success = false; data_ = none; error = some e }
    else err value_error

pub record ToolContext : Type 0 where
  pub permissions : List Text
  pub trace_id : Text

-- `required.issubset(given)`.
abbrev pub is_subset : List Text → List Text → Bool
is_subset required given = all_of (λ p. contains p given) required

-- One tool: its metadata, and the parts that the subclass and Pydantic bring. `fingerprint` is
-- `build_tool_call_fingerprint`, a digest of the name and the validated input.
pub record Tool (float : Float) : Type 1 where
  pub Raw : Type 0
  pub Input : Type 0
  pub Out : Type 0
  pub D : Type 0
  pub name : Text
  pub required_permissions : List Text
  pub retry_policy : Option (RetryPolicy float)
  pub validate_input : Raw → Option Input
  pub validate_output : Out → Option D
  pub fingerprint : Text → Input → Text

module _ {float : Float} (tool : Tool float) where
  open tool use {
    Raw, Input, Out, D, name, required_permissions, retry_policy, validate_input, validate_output,
    fingerprint,
  }

  -- What an execution leaves: its result, the ledger, and how often it called `_execute`.
  pub record Execution : Type 0 where
    pub result : Result ValueError (ToolResult D)
    pub ledger : Ledger
    pub calls : ℕ

  module _ (context : ToolContext) where
    abbrev fail_with : ToolErrorCode → Text → Bool → Result ValueError (ToolResult D)
    fail_with code message retryable = failure (plain_error code message retryable context.trace_id)

    abbrev pub checked_output : Option D → Result ValueError (ToolResult D)
    checked_output none =
        fail_with response_validation_error (codes "tool output validation failed") false
    checked_output (some d) = ok record { success = true; data_ = some d; error = none }

    -- The result of how the calls ended.
    unfoldable pub settle : Attempt float Out → Result ValueError (ToolResult D)
    settle (returned out) = checked_output (validate_output out)
    settle (failed e) = failure (from_exception e context.trace_id)
    settle timed_out = fail_with tool_timeout (codes "tool execution timed out") true
    settle crashed = fail_with unknown_tool_error (codes "tool execution failed unexpectedly") false

    abbrev pub finish : Ledger → Option (Finished float Out) → Option Execution
    finish ledger none = none
    finish ledger (some end) =
        some record { result = settle end.outcome; ledger = ledger; calls = suc end.last }

    abbrev pub blocked : Ledger → Result ValueError (ToolResult D) → Option Execution
    blocked ledger r = some record { result = r; ledger = ledger; calls = 0 }

    abbrev pub when_reserved :
        Upstream float Out → Ledger → Result ValueError (Bool × Ledger) → Option Execution
    when_reserved upstream ledger (err e) = blocked ledger (err e)
    when_reserved upstream ledger (ok (true, reserved)) =
        finish reserved (execute_with_retry float upstream retry_policy)
    when_reserved upstream ledger (ok (false, reserved)) =
        blocked reserved
          (fail_with duplicate_call (codes "duplicate tool call blocked within the same run") false)

    abbrev pub when_validated : Bool → Upstream float Out → Ledger → Option Input → Option Execution
    when_validated force_refresh upstream ledger none =
        blocked ledger
          (fail_with param_validation_error (codes "tool input validation failed") false)
    when_validated force_refresh upstream ledger (some input) =
        when_reserved upstream ledger (try_reserve (fingerprint name input) force_refresh ledger)

    unfoldable pub execute : Raw → Bool → Upstream float Out → Ledger → Option Execution
    execute raw force_refresh upstream ledger =
        if is_subset required_permissions context.permissions
        then when_validated force_refresh upstream ledger (validate_input raw)
        else blocked ledger (fail_with permission_denied (codes "tool permission denied") false)
