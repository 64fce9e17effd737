-- ===== src/Tools/Gates.antt =====
-- On what an execution lets through (agent-service/app/tools/base.py, agent-service/app/tools/deduplication.py).
use productline_agent.Base.{
  suc, ◌≡◌, ◌⊎◌, refl, Bool, true, false, not, ◌&&◌, Option, none, some, text_eq, contains, is_some,
  Bool-cases, Option-cases, inl, inr, Result, ok, err, Returns,
}
use productline_agent.Tools.Retry.{
  ToolErrorCode, permission_denied, param_validation_error, duplicate_call,
  response_validation_error, tool_timeout, unknown_tool_error, Float, Attempt, returned, failed,
  timed_out, crashed, Upstream, Finished, value_error, ValueError,
}
use productline_agent.Tools.Ledger.{Ledger, is_fingerprint, reserved, try_reserve_cases}
use productline_agent.Tools.Attempts.{IsFinished, execute_with_retry-IsFinished}
use productline_agent.Tools.Execute.{
  ToolError, is_tool_error, ToolResult, failure, ToolContext, is_subset, Tool, Execution, settle,
  finish, blocked, when_validated, execute,
}

abbrev pub IsFailure : {D : Type 0} → ToolResult D → Type 0
IsFailure r = (r.success ≡ false) × (r.data_ ≡ none) × (is_some r.error ≡ true)

-- A result that comes back holds an error and no data.
unfoldable pub Fails : {D : Type 0} → Result ValueError (ToolResult D) → Type 0
Fails (ok r) = IsFailure r
Fails (err e) = Unit

refused : (D : Type 0) → Fails {D = D} (err value_error)
unfolding Fails
refused D = tt

-- The result holds an error with this code and no data; or an error that breaks the schema of errors
-- was to be reported, and a validation error escapes.
unfoldable pub Reports :
    {D : Type 0} → ToolErrorCode → Bool → Result ValueError (ToolResult D) → Type 0
Reports code retryable r =
    (e : ToolError) × (e.code ≡ code)
    × (e.retryable ≡ retryable)
    × (((is_tool_error e ≡ true)
          × (r ≡ ok record { success = false; data_ = none; error = some e }))
        ⊎ ((is_tool_error e ≡ false) × (r ≡ err value_error)))

failure-Reports : (D : Type 0) (e : ToolError) → Reports {D = D} e.code e.retryable (failure e)
unfolding failure Reports
failure-Reports D e = elim (Bool-cases (is_tool_error e)) [
  | inl valid ↦ rw valid (e, refl, refl, inl (valid, refl))
  | inr invalid ↦ rw invalid (e, refl, refl, inr (invalid, refl))
]

failure-Fails : (D : Type 0) (e : ToolError) → Fails (failure {D = D} e)
unfolding failure Fails
failure-Fails D e = elim (Bool-cases (is_tool_error e)) [
  | inl valid ↦ rw valid (refl, refl, refl)
  | inr invalid ↦ rw invalid tt
]

module _ {float : Float} (tool : Tool float) (context : ToolContext) where
  open tool use {
    Raw, Input, Out, D, name, required_permissions, retry_policy, validate_input, validate_output,
    fingerprint,
  }

  -- The result of the last call: its output exactly if it satisfies the schema, and else the error
  -- that says what happened.
  unfoldable pub Settles : Attempt float Out → Result ValueError (ToolResult D) → Type 0
  Settles (returned out) r =
      ((d : D) × (validate_output out ≡ some d)
        × (r ≡ ok record { success = true; data_ = some d; error = none }))
      ⊎ ((validate_output out ≡ none) × Reports response_validation_error false r)
  Settles (failed e) r = Reports e.code e.retryable r
  Settles timed_out r = Reports tool_timeout true r
  Settles crashed r = Reports unknown_tool_error false r

  settle-Settles : (a : Attempt float Out) → Settles a (settle tool context a)
  unfolding settle Settles
  settle-Settles (returned out) = elim (Option-cases (validate_output out)) [
    | inl invalid ↦ rw invalid (inr (refl, failure-Reports D _))
    | inr (d, valid) ↦ rw valid (inl (d, refl, refl))
  ]
  settle-Settles (failed e) = failure-Reports D _
  settle-Settles timed_out = failure-Reports D _
  settle-Settles crashed = failure-Reports D _

  module _ (raw : Raw) (force_refresh : Bool) (upstream : Upstream float Out)
      (ledger : Ledger) where
    -- Why no call is made: the permissions, the input, a repetition, or a fingerprint that the
    -- ledger refuses.
    abbrev pub IsHeld : Result ValueError (ToolResult D) → Type 0
    IsHeld r =
        ((is_subset required_permissions context.permissions ≡ false)
          × Reports permission_denied false r)
        ⊎ ((is_subset required_permissions context.permissions ≡ true)
            × (validate_input raw ≡ none)
            × Reports param_validation_error false r)
        ⊎ ((input : Input) × (is_subset required_permissions context.permissions ≡ true)
            × (validate_input raw ≡ some input)
            × ((((contains (fingerprint name input) ledger.fingerprints && not force_refresh)
                    ≡ true)
                  × Reports duplicate_call false r)
                ⊎ ((is_fingerprint (fingerprint name input) ≡ false) × (r ≡ err value_error))))

    -- No call is made, and nothing is recorded.
    pub record IsBlocked (x : Execution tool) : Type 0 where
      pub uncalled : x.calls ≡ 0
      pub unrecorded : x.ledger ≡ ledger
      pub fails : Fails x.result
      pub held : IsHeld x.result

    -- All gates are passed, the call is recorded, and the calls follow the policy.
    pub record IsLetThrough (x : Execution tool) : Type 0 where
      pub permitted : is_subset required_permissions context.permissions ≡ true
      pub input : Input
      pub validated : validate_input raw ≡ some input
      pub fresh :
          (contains (fingerprint name input) ledger.fingerprints && not force_refresh) ≡ false
      pub recorded : x.ledger ≡ reserved (fingerprint name input) ledger
      pub run : Finished float Out
      pub finished : IsFinished float upstream retry_policy 0 run
      pub counted : x.calls ≡ suc run.last
      pub settled : Settles run.outcome x.result

    abbrev Passes : Execution tool → Type 0
    Passes x = IsBlocked x ⊎ IsLetThrough x

    blocked-Passes :
        (r : Result ValueError (ToolResult D))
        → Fails r
        → IsHeld r
        → Returns (blocked tool context ledger r) Passes
    blocked-Passes r h why =
        inl (record { uncalled = refl; unrecorded = refl; fails = h; held = why })

    finish-Passes :
        (input : Input)
        → is_subset required_permissions context.permissions ≡ true
        → validate_input raw ≡ some input
        → (contains (fingerprint name input) ledger.fingerprints && not force_refresh) ≡ false
        → (o : Option (Finished float Out)) → Returns o (IsFinished float upstream retry_policy 0)
        → Returns (finish tool context (reserved (fingerprint name input) ledger) o) Passes
    finish-Passes input permitted validated fresh none h = h
    finish-Passes input permitted validated fresh (some run) h = inr (record {
      permitted = permitted;
      input = input;
      validated = validated;
      fresh = fresh;
      recorded = refl;
      run = run;
      finished = h;
      counted = refl;
      settled = settle-Settles run.outcome;
    })

    when_validated-Passes :
        is_subset required_permissions context.permissions ≡ true
        → (o : Option Input) → validate_input raw ≡ o
        → Returns (when_validated tool context force_refresh upstream ledger o) Passes
    when_validated-Passes permitted none e =
        blocked-Passes _ (failure-Fails D _) (inr (inl (permitted, e, failure-Reports D _)))
    when_validated-Passes permitted (some input) e =
        elim (try_reserve_cases (fingerprint name input) force_refresh ledger) [
          | inl (invalid, stopped) ↦ rw stopped (
              blocked-Passes (err value_error) (refused D)
                (inr (inr (input, permitted, e, inr (invalid, refl)))))
          | inr (inl (again, repeated)) ↦ rw repeated (
              blocked-Passes _ (failure-Fails D _)
                (inr (inr (input, permitted, e, inl (again, failure-Reports D _)))))
          | inr (inr (fresh, through)) ↦ rw through (
              finish-Passes input permitted e fresh _
                (execute_with_retry-IsFinished float upstream retry_policy))
        ]

    pub execute_lem : Returns (execute tool context raw force_refresh upstream ledger) Passes
    unfolding execute
    execute_lem = elim (Bool-cases (is_subset required_permissions context.permissions)) [
      | inl permitted ↦ rw permitted (when_validated-Passes permitted (validate_input raw) refl)
      | inr denied ↦
          rw denied (blocked-Passes _ (failure-Fails D _) (inl (denied, failure-Reports D _)))
    ]
