-- ===== src/Tools/Attempts.antt =====
-- On the loop of calls (agent-service/app/tools/base.py, `_execute_with_retry`).
use productline_agent.Base.{
  ℕ, zero, suc, ◌+◌, ◌-◌, ◌≤◌, ◌<◌, ◌≡◌, ◌⊎◌, refl, sym, true, ◌&&◌, Option, none, some, leb, ltb,
  Bool-cases, inl, inr, ok, int, pos, arith, Returns, Returns-map,
}
use productline_agent.Tools.Retry.{
  Float, RetryPolicy, ToolException, is_recoverable, should_retry, backoff_seconds, grown, Attempt,
  returned, failed, timed_out, crashed, Upstream, Finished, asks_retry, after_failure,
  after_attempt, attempts_from, retries_of, execute_with_retry,
}
use mathlib.Core.Path.{subst}

module _ (float : Float) {Out : Type 0} (upstream : Upstream float Out) where
  -- The call failed in a way that another call may mend.
  pub record IsRetried (i : ℕ) : Type 0 where
    pub exception : ToolException
    pub raised : upstream.attempt i ≡ failed exception
    pub retryable : exception.retryable ≡ true
    pub recoverable : is_recoverable exception.code ≡ true

  module _ (policy : Option (RetryPolicy float)) where
    -- The calls from number `n` on.
    pub record IsFinished (n : ℕ) (r : Finished float Out) : Type 0 where
      pub begun : n ≤ r.last
      pub bound : r.last ≤ retries_of float upstream policy
      pub retried : (i : ℕ) → n ≤ i → i < r.last → IsRetried i
      pub ended : (r.outcome ≡ upstream.attempt r.last) ⊎ (r.outcome ≡ timed_out)

    ends-IsFinished :
        (n : ℕ) (a : Attempt float Out)
        → n ≤ retries_of float upstream policy
        → (a ≡ upstream.attempt n) ⊎ (a ≡ timed_out)
        → IsFinished n (record { outcome = a; last = n })
    ends-IsFinished n a h e = record {
      begun = omega arith;
      bound = h;
      retried = λ i low high. absurd (omega arith);
      ended = e;
    }

    IsFinished-suc :
        (n : ℕ) (r : Finished float Out) → IsRetried n → IsFinished (suc n) r → IsFinished n r
    IsFinished-suc n r first h = record {
      begun = omega (arith, h.begun);
      bound = h.bound;
      retried = λ i low high. elim (Bool-cases (ltb n i)) [
        | inl later ↦ h.retried i (ground arith) high
        | inr not_later ↦ let same : n ≡ i = ground arith in subst IsRetried same first
      ];
      ended = h.ended;
    }

  can_pause :
      (policy : RetryPolicy float) (n : ℕ)
      → n < policy.max_retries
      → backoff_seconds float policy (int (pos (suc n)))
        ≡ ok (grown float policy (suc n - 1) policy.initial_backoff_seconds)
  unfolding backoff_seconds
  can_pause policy n h =
      let bounds : (leb 1 (suc n) && leb (suc n) policy.max_retries) ≡ true = ground arith in
      rw bounds refl

  after_failure-IsFinished :
      (policy : Option (RetryPolicy float)) (n : ℕ) (x : ToolException)
      (rest : Option (Finished float Out))
      → n ≤ retries_of float upstream policy
      → upstream.attempt n ≡ failed x
      → (n < retries_of float upstream policy → Returns rest (IsFinished policy (suc n)))
      → Returns
          (after_failure float upstream policy x n (asks_retry float upstream policy x n) rest)
          (IsFinished policy n)
  unfolding should_retry
  after_failure-IsFinished none n x rest h e k = ends-IsFinished none n _ h (inl (sym e))
  after_failure-IsFinished (some policy) n x rest h e k =
      elim (Bool-cases (ltb n policy.max_retries && x.retryable && is_recoverable x.code)) [
        | inl again ↦
            let room : n < policy.max_retries = ground arith in
            rw again (
              rw (can_pause policy n room)
                (elim (Bool-cases (
                  upstream.sleeps (suc n)
                    (grown float policy (suc n - 1) policy.initial_backoff_seconds))) [
                      | inl slept ↦ rw slept (
                          Returns-map (IsFinished (some policy) (suc n)) _ rest (k room) (λ r.
                            IsFinished-suc (some policy) n r (record {
                              exception = x;
                              raised = e;
                              retryable = ground arith;
                              recoverable = ground arith;
                            })))
                      | inr cut ↦ rw cut (ends-IsFinished (some policy) n _ h (inr refl))
                    ]))
        | inr over ↦ rw over (ends-IsFinished (some policy) n _ h (inl (sym e)))
      ]

  module _ (policy : Option (RetryPolicy float)) where
    after_attempt-IsFinished :
        (n : ℕ) (a : Attempt float Out) (rest : Option (Finished float Out))
        → n ≤ retries_of float upstream policy
        → upstream.attempt n ≡ a
        → (n < retries_of float upstream policy → Returns rest (IsFinished policy (suc n)))
        → Returns (after_attempt float upstream policy a n rest) (IsFinished policy n)
    after_attempt-IsFinished n (returned out) rest h e k =
        ends-IsFinished policy n _ h (inl (sym e))
    after_attempt-IsFinished n timed_out rest h e k = ends-IsFinished policy n _ h (inr refl)
    after_attempt-IsFinished n crashed rest h e k = ends-IsFinished policy n _ h (inl (sym e))
    after_attempt-IsFinished n (failed x) rest h e k =
        after_failure-IsFinished policy n x rest h e k

    attempts_from-IsFinished :
        (f n : ℕ)
        → n ≤ retries_of float upstream policy
        → retries_of float upstream policy < n + f
        → Returns (attempts_from float upstream f policy n) (IsFinished policy n)
    unfolding attempts_from
    attempts_from-IsFinished zero n h fuel = absurd (omega arith)
    attempts_from-IsFinished (suc f) n h fuel =
        after_attempt-IsFinished n (upstream.attempt n)
          (attempts_from float upstream f policy (suc n)) h refl
          (λ room. attempts_from-IsFinished f (suc n) room (omega arith))

    -- The loop of calls ends, whatever the calls meet: after as many retries as the policy has at
    -- most, every call but the last raised an exception that is marked as retryable and has a code
    -- of the white list, and the outcome is that of the last call or the time limit.
    pub execute_with_retry-IsFinished :
        Returns (execute_with_retry float upstream policy) (IsFinished policy 0)
    unfolding execute_with_retry
    execute_with_retry-IsFinished =
        attempts_from-IsFinished (suc (retries_of float upstream policy)) 0 (omega arith)
          (omega arith)
