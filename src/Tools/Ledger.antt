-- ===== src/Tools/Ledger.antt =====
-- The calls of a run that were let through (agent-service/app/tools/deduplication.py, `RunToolCallLedger`).
use productline_agent.Base.{
  ℕ, suc, Bool, true, false, not, ◌&&◌, ◌||◌, List, [], ◌∷◌, Text, text_eq, contains, length,
  all_of, nat_beq, leb, if◌then◌else◌, Result, ok, err, refl, ◌≡◌, arith, ◌⊎◌, Bool-cases, inl, inr,
  eq_iff,
}
use productline_agent.Base.Pattern.{is_digit}
use productline_agent.Tools.Retry.{ValueError, value_error}

pub record Ledger : Type 0 where
  pub fingerprints : List Text
  pub recorded_call_count : ℕ

abbrev pub new_ledger : Ledger
new_ledger = record { fingerprints = []; recorded_call_count = 0 }

-- `_FINGERPRINT_PATTERN`.
unfoldable pub is_fingerprint : Text → Bool
is_fingerprint t = nat_beq (length t) 64 && all_of (λ c. is_digit c || (leb b'a' c && leb c b'f')) t

abbrev pub with_fingerprint : Text → List Text → List Text
with_fingerprint t ts = if contains t ts then ts else t ∷ ts

-- `try_reserve`, one critical section: whether the call is let through.
unfoldable pub try_reserve : Text → Bool → Ledger → Result ValueError (Bool × Ledger)
unfolding is_fingerprint
try_reserve fingerprint force_refresh ledger =
    if is_fingerprint fingerprint
    then if contains fingerprint ledger.fingerprints && not force_refresh
      then ok (false, ledger)
      else ok (
        true,
        record {
          fingerprints = with_fingerprint fingerprint ledger.fingerprints;
          recorded_call_count = suc ledger.recorded_call_count;
        },
      )
    else err value_error

-- What a call that is let through leaves.
abbrev pub reserved : Text → Ledger → Ledger
reserved fingerprint ledger = record {
  fingerprints = with_fingerprint fingerprint ledger.fingerprints;
  recorded_call_count = suc ledger.recorded_call_count;
}

-- A call is refused with an error, held back as a repetition, or let through.
pub try_reserve_cases :
    (fingerprint : Text) (force_refresh : Bool) (ledger : Ledger)
    → ((is_fingerprint fingerprint ≡ false)
        × (try_reserve fingerprint force_refresh ledger ≡ err value_error))
      ⊎ (((contains fingerprint ledger.fingerprints && not force_refresh) ≡ true)
          × (try_reserve fingerprint force_refresh ledger ≡ ok (false, ledger)))
      ⊎ (((contains fingerprint ledger.fingerprints && not force_refresh) ≡ false)
          × (try_reserve fingerprint force_refresh ledger ≡ ok (true, reserved fingerprint ledger)))
unfolding try_reserve
try_reserve_cases fingerprint force_refresh ledger =
    elim (Bool-cases (is_fingerprint fingerprint)) [
      | inl valid ↦
          elim (Bool-cases (contains fingerprint ledger.fingerprints && not force_refresh)) [
            | inl repeated ↦ rw (valid, repeated) (inr (inl (refl, refl)))
            | inr fresh ↦ rw (valid, fresh) (inr (inr (refl, refl)))
          ]
      | inr invalid ↦ rw invalid (inl (refl, refl))
    ]

contains-cons : (t u : Text) (ts : List Text) → contains u ts ≡ true → contains u (t ∷ ts) ≡ true
contains-cons t u ts h = ground arith

-- A fingerprint that is reserved stays reserved.
pub contains-reserved :
    (t u : Text) (ledger : Ledger)
    → contains u ledger.fingerprints ≡ true
    → contains u (reserved t ledger).fingerprints ≡ true
contains-reserved t u ledger h = elim (Bool-cases (contains t ledger.fingerprints)) [
  | inl old ↦ rw old h
  | inr new ↦ rw new (contains-cons t u ledger.fingerprints h)
]

pub contains-reserved_self :
    (t : Text) (ledger : Ledger) → contains t (reserved t ledger).fingerprints ≡ true
contains-reserved_self t ledger = elim (Bool-cases (contains t ledger.fingerprints)) [
  | inl old ↦ rw old old
  | inr new ↦ rw new (ground (arith, eq_iff t t))
]
