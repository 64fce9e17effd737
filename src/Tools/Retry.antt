-- ===== src/Tools/Retry.antt =====
-- The policy of retries (agent-service/app/tools/retry.py, agent-service/app/errors.py), and the loop
-- that follows it (agent-service/app/tools/base.py, `_execute_with_retry`).
use productline_agent.Base.{
  ℕ, zero, suc, ◌-◌, Bool, true, false, not, ◌&&◌, Option, none, some, Text, leb, ltb,
  if◌then◌else◌, Result, ok, err, Scalar, int, bool, pos, negsuc,
}

pub data ToolErrorCode : Type 0 where
  param_validation_error resource_not_found permission_denied business_conflict tool_timeout :
      ToolErrorCode
  upstream_unavailable response_validation_error duplicate_call unknown_tool_error : ToolErrorCode

pub record ToolException : Type 0 where
  pub code : ToolErrorCode
  pub message : Text
  pub retryable : Bool
  pub trace_id : Option Text
  pub status_code : Option ℕ

-- `_RETRYABLE_ERROR_CODES`.
abbrev pub is_recoverable : ToolErrorCode → Bool
is_recoverable tool_timeout = true
is_recoverable upstream_unavailable = true
is_recoverable _ = false

-- A Python float with the operations that the policy uses.
pub record Float : Type 1 where
  pub F : Type 0
  pub zero_ : F
  pub one_ : F
  pub mul : F → F → F
  pub less : F → F → Bool
  pub is_finite : F → Bool

pub data ValueError : Type 0 where
  value_error : ValueError

module _ (float : Float) where
  open float use {F, zero_, one_, mul, less, is_finite}

  pub record RetryPolicy : Type 0 where
    pub max_retries : ℕ
    pub initial_backoff_seconds : F
    pub backoff_multiplier : F
    pub max_backoff_seconds : F

  -- `_require_positive_finite`.
  abbrev pub is_positive_finite : F → Bool
  is_positive_finite x = is_finite x && less zero_ x

  -- `isinstance(n, int)` between two limits.
  abbrev pub within : ℕ → ℕ → Scalar → Bool
  within low high (int (pos n)) = leb low n && leb n high
  within low high (int (negsuc n)) = false
  within low high (bool b) = false

  abbrev pub number_of : Scalar → ℕ
  number_of (int (pos n)) = n
  number_of (int (negsuc n)) = 0
  number_of (bool b) = 0

  -- `RetryPolicy.__post_init__`.
  unfoldable pub new_policy : Scalar → F → F → F → Result ValueError RetryPolicy
  new_policy retries initial multiplier most =
      if within 0 10 retries
        && is_positive_finite initial
        && is_positive_finite multiplier
        && is_positive_finite most
        && not (less multiplier one_)
        && not (less most initial)
      then ok record {
        max_retries = number_of retries;
        initial_backoff_seconds = initial;
        backoff_multiplier = multiplier;
        max_backoff_seconds = most;
      }
      else err value_error

  abbrev pub is_count : Scalar → Bool
  is_count (int (pos n)) = true
  is_count (int (negsuc n)) = false
  is_count (bool b) = false

  unfoldable pub should_retry : RetryPolicy → ToolException → Scalar → Result ValueError Bool
  should_retry policy e completed =
      if is_count completed
      then ok (ltb (number_of completed) policy.max_retries && e.retryable && is_recoverable e.code)
      else err value_error

  -- Python's `min` of two floats.
  abbrev pub min_float : F → F → F
  min_float a b = if less b a then b else a

  -- The delay after so many rounds of the loop.
  unfoldable pub grown : RetryPolicy → ℕ → F → F
  grown policy zero delay = delay
  grown policy (suc n) delay =
      grown policy n (min_float (mul delay policy.backoff_multiplier) policy.max_backoff_seconds)

  unfoldable pub backoff_seconds : RetryPolicy → Scalar → Result ValueError F
  unfolding grown
  backoff_seconds policy number =
      if within 1 policy.max_retries number
      then ok (grown policy (number_of number - 1) policy.initial_backoff_seconds)
      else err value_error

  -- How a call of `_execute` ends. The time limit of the whole execution may end it, and so may an
  -- error that is no `ToolException`.
  pub data Attempt (Out : Type 0) : Type 0 where
    returned : Out → Attempt Out
    failed : ToolException → Attempt Out
    timed_out : Attempt Out
    crashed : Attempt Out

  -- What the calls meet: how the call behind so many others ends, and whether the time limit leaves
  -- room for a pause.
  pub record Upstream (Out : Type 0) : Type 0 where
    pub attempt : ℕ → Attempt Out
    pub sleeps : ℕ → F → Bool

  -- How the loop ends, and the number of its last call.
  pub record Finished (Out : Type 0) : Type 0 where
    pub outcome : Attempt Out
    pub last : ℕ

  module _ {Out : Type 0} (upstream : Upstream Out) where
    abbrev ends : Attempt Out → ℕ → Option (Finished Out)
    ends a n = some record { outcome = a; last = n }

    -- `self.retry_policy is not None and self.retry_policy.should_retry(...)`.
    abbrev pub asks_retry : Option RetryPolicy → ToolException → ℕ → Result ValueError Bool
    asks_retry none e n = ok false
    asks_retry (some policy) e n = should_retry policy e (int (pos n))

    abbrev pub pause : Option RetryPolicy → ℕ → Result ValueError F
    pause none n = err value_error
    pause (some policy) n = backoff_seconds policy (int (pos n))

    -- `await asyncio.sleep(delay_seconds)`, and what comes behind.
    abbrev pub after_pause : Result ValueError F → ℕ → Option (Finished Out) → Option (Finished Out)
    after_pause (err e) n rest = ends crashed n
    after_pause (ok delay) n rest = if upstream.sleeps (suc n) delay then rest else ends timed_out n

    abbrev pub after_failure :
        Option RetryPolicy
        → ToolException
        → ℕ
        → Result ValueError Bool
        → Option (Finished Out)
        → Option (Finished Out)
    after_failure policy e n (err v) rest = ends crashed n
    after_failure policy e n (ok false) rest = ends (failed e) n
    after_failure policy e n (ok true) rest = after_pause (pause policy (suc n)) n rest

    abbrev pub after_attempt :
        Option RetryPolicy → Attempt Out → ℕ → Option (Finished Out) → Option (Finished Out)
    after_attempt policy (failed e) n rest = after_failure policy e n (asks_retry policy e n) rest
    after_attempt policy (returned out) n rest = ends (returned out) n
    after_attempt policy timed_out n rest = ends timed_out n
    after_attempt policy crashed n rest = ends crashed n

    -- The loop of `_execute_with_retry`; none when the fuel runs out.
    unfoldable pub attempts_from : ℕ → Option RetryPolicy → ℕ → Option (Finished Out)
    unfolding should_retry backoff_seconds
    attempts_from zero policy n = none
    attempts_from (suc f) policy n =
        let rest = attempts_from f policy (suc n) in
        after_attempt policy (upstream.attempt n) n rest

    abbrev pub retries_of : Option RetryPolicy → ℕ
    retries_of none = 0
    retries_of (some policy) = policy.max_retries

    unfoldable pub execute_with_retry : Option RetryPolicy → Option (Finished Out)
    unfolding attempts_from
    execute_with_retry policy = attempts_from (suc (retries_of policy)) policy 0
