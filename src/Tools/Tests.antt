-- ===== src/Tools/Tests.antt =====
-- A tool that fails once in a way that another call mends, and a repeated call.
use productline_agent.Base.{
  ℕ, zero, suc, ◌*◌, ◌≤◌, ◌≡◌, refl, true, false, none, some, [], ◌∷◌, Text, codes, ltb, ok, int,
  pos, arith, Returns, text_beq,
}
use productline_agent.Tools.Retry.{
  Float, RetryPolicy, new_policy, backoff_seconds, ToolException, tool_timeout, Attempt, returned,
  failed, Upstream, execute_with_retry,
}
use productline_agent.Tools.Ledger.{Ledger, new_ledger, try_reserve}
use productline_agent.Tools.Execute.{ToolContext, Tool, Execution, execute, settle}
use productline_agent.Tools.Delays.{IsOrdered, IsDelay, backoff_seconds-IsDelay}
use productline_agent.Tools.Attempts.{IsFinished, execute_with_retry-IsFinished}
use productline_agent.Tools.Gates.{Fails}
use productline_agent.Tools.Repeats.{here, execute_repeated}

-- Whole tenths of a second.
abbrev tenths : Float
tenths = record {
  F = ℕ;
  zero_ = 0;
  one_ = 1;
  mul = λ a b. a * b;
  less = ltb;
  is_finite = λ a. true;
}

tenths_trans : (a b c : ℕ) → ltb b a ≡ false → ltb c b ≡ false → ltb c a ≡ false
tenths_trans a b c h k = ground arith

tenths_grow :
    (a m : ℕ)
    → ltb 0 a ≡ true
    → ltb 0 m ≡ true
    → ltb m 1 ≡ false
    → (ltb 0 (a * m) ≡ true) × (ltb (a * m) a ≡ false)
tenths_grow zero m h k l = absurd (ground arith)
tenths_grow (suc a) zero h k l = absurd (ground arith)
tenths_grow (suc a) (suc m) h k l =
    let more : suc a ≤ suc a * suc m = grind arith in (ground (arith, more), ground (arith, more))

tenths-IsOrdered : IsOrdered tenths
tenths-IsOrdered = record {
  asymmetric = λ a b h. ground arith;
  not_less_trans = λ a b c p. tenths_trans a b c;
  mul_grows = tenths_grow;
}

abbrev policy : RetryPolicy tenths
policy = record {
  max_retries = 3;
  initial_backoff_seconds = 1;
  backoff_multiplier = 2;
  max_backoff_seconds = 3;
}

policy_made : new_policy tenths (int (pos 3)) 1 2 3 ≡ ok policy
unfolding new_policy
policy_made = refl

third_pause : backoff_seconds tenths policy (int (pos 3)) ≡ ok 3
unfolding backoff_seconds
third_pause = refl

abbrev late : ToolException
late = record {
  code = tool_timeout;
  message = codes "late";
  retryable = true;
  trace_id = none;
  status_code = none;
}

abbrev once_late : ℕ → Attempt tenths ℕ
once_late zero = failed late
once_late (suc n) = returned 7

abbrev upstream : Upstream tenths ℕ
upstream = record { attempt = once_late; sleeps = λ n d. true }

abbrev digest : Text
digest = codes "0123456789abcdef0123456789abcdef0123456789abcdef0123456789abcdef"

abbrev tool : Tool tenths
tool = record {
  Raw = ℕ;
  Input = ℕ;
  Out = ℕ;
  D = ℕ;
  name = codes "get_order_detail";
  required_permissions = codes "ORDER_READ" ∷ [];
  retry_policy = some policy;
  validate_input = λ n. some n;
  validate_output = λ n. some n;
  fingerprint = λ t n. digest;
}

abbrev context : ToolContext
context = record { permissions = codes "ORDER_READ" ∷ []; trace_id = codes "t-1" }

abbrev reserved_once : Ledger
reserved_once = record { fingerprints = digest ∷ []; recorded_call_count = 1 }

abbrev first : Execution tool
first = record {
  result = ok record { success = true; data_ = some 7; error = none };
  ledger = reserved_once;
  calls = 2;
}

first_call : execute tool context 5 false upstream new_ledger ≡ some first
unfolding execute try_reserve text_beq settle execute_with_retry
first_call = refl

backoff_seconds-IsDelay_example :
    (d e : ℕ) × (backoff_seconds tenths policy (int (pos 2)) ≡ ok d)
    × (backoff_seconds tenths policy (int (pos 3)) ≡ ok e)
    × IsDelay tenths tenths-IsOrdered policy d
    × IsDelay tenths tenths-IsOrdered policy e
    × (ltb e d ≡ false)
backoff_seconds-IsDelay_example =
    backoff_seconds-IsDelay tenths tenths-IsOrdered (int (pos 3)) 1 2 3 policy 1 policy_made
      (omega arith)

execute_with_retry-IsFinished_example :
    Returns
      (execute_with_retry tenths upstream (some policy))
      (IsFinished tenths upstream (some policy) 0)
execute_with_retry-IsFinished_example = execute_with_retry-IsFinished tenths upstream (some policy)

execute_repeated_example :
    (y : Execution tool) × (execute tool context 5 false upstream reserved_once ≡ some y)
    × (y.calls ≡ 0)
    × (y.ledger ≡ reserved_once)
    × Fails y.result
execute_repeated_example =
    execute_repeated tool context 5 false upstream new_ledger reserved_once first first_call
      (omega arith) here context 5 upstream refl
