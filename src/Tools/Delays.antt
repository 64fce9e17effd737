-- ===== src/Tools/Delays.antt =====
-- On the pauses between calls (agent-service/app/tools/retry.py).
use productline_agent.Base.{
  ℕ, zero, suc, ◌-◌, ◌≤◌, ◌<◌, ◌≡◌, refl, ap, ◌∙◌, true, false, ◌&&◌, leb, Bool-cases, inl, inr, ok,
  Scalar, int, pos, negsuc, bool, arith,
}
use productline_agent.Tools.Retry.{
  Float, RetryPolicy, new_policy, grown, backoff_seconds, min_float,
}

-- The comparison and the product of positive floats, an infinity included: what is not less is
-- greater or equal, and a factor of 1 at least makes no number smaller.
pub record IsOrdered (float : Float) : Type 0 where
  pub asymmetric : (a b : float.F) → float.less a b ≡ true → float.less b a ≡ false
  pub not_less_trans :
      (a b c : float.F)
      → float.less float.zero_ b ≡ true
      → float.less b a ≡ false
      → float.less c b ≡ false
      → float.less c a ≡ false
  pub mul_grows :
      (a m : float.F)
      → float.less float.zero_ a ≡ true
      → float.less float.zero_ m ≡ true
      → float.less m float.one_ ≡ false
      → (float.less float.zero_ (float.mul a m) ≡ true) × (float.less (float.mul a m) a ≡ false)

module _ (float : Float) (ordered : IsOrdered float) where
  open float use {F, zero_, one_, mul, less, is_finite}

  -- What the constructor has tested.
  pub record IsPolicy (policy : RetryPolicy float) : Type 0 where
    pub retries_bound : policy.max_retries ≤ 10
    pub initial_positive : less zero_ policy.initial_backoff_seconds ≡ true
    pub factor_positive : less zero_ policy.backoff_multiplier ≡ true
    pub most_positive : less zero_ policy.max_backoff_seconds ≡ true
    pub factor : less policy.backoff_multiplier one_ ≡ false
    pub limit : less policy.max_backoff_seconds policy.initial_backoff_seconds ≡ false

  pub new_policy-IsPolicy :
      (retries : Scalar) (initial multiplier most : F) (policy : RetryPolicy float)
      → new_policy float retries initial multiplier most ≡ ok policy
      → IsPolicy policy
  unfolding new_policy
  new_policy-IsPolicy (int (pos n)) initial multiplier most policy h = ground arith
  new_policy-IsPolicy (int (negsuc n)) initial multiplier most policy h = absurd (ground arith)
  new_policy-IsPolicy (bool b) initial multiplier most policy h = absurd (ground arith)

  not_less_self : (a : F) → less a a ≡ false
  not_less_self a = elim (Bool-cases (less a a)) [ inl h ↦ ordered.asymmetric a a h | inr h ↦ h ]

  -- A pause that the policy admits.
  pub record IsDelay (policy : RetryPolicy float) (d : F) : Type 0 where
    pub positive : less zero_ d ≡ true
    pub at_least : less d policy.initial_backoff_seconds ≡ false
    pub at_most : less policy.max_backoff_seconds d ≡ false

  module _ (policy : RetryPolicy float) (valid : IsPolicy policy) where
    -- One round of the loop.
    abbrev next_delay : F → F
    next_delay d = min_float float (mul d policy.backoff_multiplier) policy.max_backoff_seconds

    next_delay-IsDelay :
        (d : F) → IsDelay policy d → IsDelay policy (next_delay d) × (less (next_delay d) d ≡ false)
    next_delay-IsDelay d h =
        let (positive, grows) =
          ordered.mul_grows d policy.backoff_multiplier h.positive valid.factor_positive
            valid.factor in
        elim (Bool-cases (less policy.max_backoff_seconds (mul d policy.backoff_multiplier))) [
          | inl above ↦ rw above (
            record {
              positive = valid.most_positive;
              at_least = valid.limit;
              at_most = not_less_self policy.max_backoff_seconds;
            },
            h.at_most,
          )
          | inr below ↦ rw below (
            record {
              positive = positive;
              at_least =
                  ordered.not_less_trans policy.initial_backoff_seconds d _ h.positive h.at_least
                    grows;
              at_most = below;
            },
            grows,
          )
        ]

    grown-IsDelay : (n : ℕ) (d : F) → IsDelay policy d → IsDelay policy (grown float policy n d)
    unfolding grown
    grown-IsDelay zero d h = h
    grown-IsDelay (suc n) d h = grown-IsDelay n (next_delay d) (next_delay-IsDelay d h).0

    grown-suc : (n : ℕ) (d : F) → grown float policy (suc n) d ≡ next_delay (grown float policy n d)
    unfolding grown
    grown-suc zero d = refl
    grown-suc (suc n) d = grown-suc n (next_delay d)

    initial-IsDelay : IsDelay policy policy.initial_backoff_seconds
    initial-IsDelay = record {
      positive = valid.initial_positive;
      at_least = not_less_self policy.initial_backoff_seconds;
      at_most = valid.limit;
    }

    delay_at :
        (n : ℕ)
        → n < policy.max_retries
        → backoff_seconds float policy (int (pos (suc n)))
          ≡ ok (grown float policy n policy.initial_backoff_seconds)
    unfolding backoff_seconds
    delay_at n h =
        let bounds : (leb 1 (suc n) && leb (suc n) policy.max_retries) ≡ true = ground arith in
        let count : suc n - 1 ≡ n = omega arith in rw (bounds, count) refl

  -- With a policy that the constructor has accepted, and floats whose comparison and product are
  -- ordered on positive numbers, the pause before each admitted retry and the one before the next
  -- are at least the initial pause and at most the longest pause, and the second is not shorter
  -- than the first.
  pub backoff_seconds-IsDelay :
      (retries : Scalar) (initial multiplier most : F) (policy : RetryPolicy float) (n : ℕ)
      → new_policy float retries initial multiplier most ≡ ok policy
      → suc n < policy.max_retries
      → (d e : F) × (backoff_seconds float policy (int (pos (suc n))) ≡ ok d)
        × (backoff_seconds float policy (int (pos (suc (suc n)))) ≡ ok e)
        × IsDelay policy d
        × IsDelay policy e
        × (less e d ≡ false)
  backoff_seconds-IsDelay retries initial multiplier most policy n made h =
      let valid = new_policy-IsPolicy retries initial multiplier most policy made in
      let d : F = grown float policy n policy.initial_backoff_seconds in
      let e : F = grown float policy (suc n) policy.initial_backoff_seconds in
      let first =
        grown-IsDelay policy valid n policy.initial_backoff_seconds
          (initial-IsDelay policy valid) in
      let next = next_delay-IsDelay policy valid d first in
      let same = grown-suc policy valid n policy.initial_backoff_seconds in
      (
        d,
        e,
        delay_at policy valid n (omega arith),
        delay_at policy valid (suc n) h,
        first,
        grown-IsDelay policy valid (suc n) policy.initial_backoff_seconds
            (initial-IsDelay policy valid),
        ap (λ (x : F). less x d) same ∙ next.1,
      )
