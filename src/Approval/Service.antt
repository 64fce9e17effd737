-- ===== src/Approval/Service.antt =====
-- The life of an approval (agent-service/app/services/approval_lifecycle.py): drafts, the user's
-- modification, and the state machine, each transition a read and then a compare-and-set.
use productline_agent.Base.{
  ℕ, ◌^◌, ◌-◌, Bool, true, false, not, ◌&&◌, ◌||◌, Option, none, some, List, [], ◌∷◌, Text, codes,
  strip, length, non_empty, all_of, ltb, if◌then◌else◌, text_eq, Result, ok, err, Exec, pure, raise,
  lift, or_raise, raise_if, ◌>>=◌, ◌>>◌, Scalar, int, bool, pos, negsuc, Env, World, reads, writes,
  timestamp, contains, nat_eq,
}
use productline_agent.Base.Pattern.{is_upper, is_lower, is_digit}
use productline_agent.Approval.Draft.{ReviewDraft, Codec, model_validate}
use productline_agent.Approval.Record.{
  ApprovalStatus, draft, waiting_confirmation, confirmed, executing, succeeded, failed, cancelled,
  expired, stale, same_status, ApprovalRecord,
}
use productline_agent.Approval.Store.{Table, Changes, get, transition_status, Violation}

-- The argument of an error that names a field.
pub data Field : Type 0 where
  approval_id run_id target_id target_version pending_tool_name original_draft modified_draft :
      Field
  effective_draft draft_task_id draft_issue_id confirmed_by_user_id timestamp_field : Field

pub data ApprovalError : Type 0 where
  not_found : Text → ApprovalError
  invalid_transition : Text → ApprovalStatus → ApprovalStatus → ApprovalError
  validation : Field → ApprovalError
  integrity : ApprovalError

-- `_ALLOWED_TRANSITIONS`: the statuses that may follow one.
unfoldable pub allowed_transitions : ApprovalStatus → List ApprovalStatus
allowed_transitions draft = waiting_confirmation ∷ cancelled ∷ []
allowed_transitions waiting_confirmation = confirmed ∷ cancelled ∷ expired ∷ stale ∷ []
allowed_transitions confirmed = executing ∷ expired ∷ stale ∷ []
allowed_transitions executing = succeeded ∷ failed ∷ stale ∷ []
allowed_transitions _ = []

abbrev one_of : ApprovalStatus → List ApprovalStatus → Bool
one_of s [] = false
one_of s (t ∷ ts) = same_status t s || one_of s ts

-- `target_status in _ALLOWED_TRANSITIONS[current_status]`.
unfoldable pub is_allowed : ApprovalStatus → ApprovalStatus → Bool
unfolding allowed_transitions
is_allowed current target = one_of target (allowed_transitions current)

abbrev is_alphanumeric : ℕ → Bool
is_alphanumeric d = is_upper d || is_lower d || is_digit d

-- `_APPROVAL_ID_PATTERN`.
unfoldable pub is_approval_id : Text → Bool
is_approval_id [] = false
is_approval_id (c ∷ s) =
    is_alphanumeric c && all_of (λ d. is_alphanumeric d || contains d (codes "._:-")) s

abbrev has_id_pattern : Field → Bool
has_id_pattern approval_id = true
has_id_pattern run_id = true
has_id_pattern _ = false

unfoldable pub identifier : Field → Text → Result ApprovalError Text
unfolding is_approval_id
identifier field value =
    let normalized = strip value in
    if not (non_empty normalized) || ltb 128 (length normalized)
    then err (validation field)
    else if has_id_pattern field && not (is_approval_id normalized)
    then err (validation field)
    else ok normalized

-- A nonnegative signed 64-bit integer, and no `bool`.
unfoldable pub checked_version : Scalar → Result ApprovalError ℕ
checked_version (bool b) = err (validation target_version)
checked_version (int (negsuc n)) = err (validation target_version)
checked_version (int (pos n)) = if ltb (2 ^ 63 - 1) n then err (validation target_version) else ok n

-- What the service is built on.
pub record Setup : Type 1 where
  pub codec : Codec
  pub open codec use *
  pub env : Env (Table Json)
  pub run_exists : Text → Bool

-- An argument that is a `ReviewDraft` or a dict.
pub data DraftInput (Json : Type 0) : Type 0 where
  instance_of : ReviewDraft → DraftInput Json
  dict_of : Json → DraftInput Json

module _ (setup : Setup) where
  open setup use {codec, env, run_exists}

  abbrev pub Record : Type 0
  Record = ApprovalRecord codec.Json

  abbrev pub Action : Type 0 → Type 0
  Action = Exec (World (Table codec.Json)) ApprovalError

  abbrev pub schema_or_raise : Field → Option ReviewDraft → Result ApprovalError ReviewDraft
  schema_or_raise field none = err (validation field)
  schema_or_raise field (some d) = ok d

  unfoldable pub review_draft : Field → DraftInput codec.Json → Result ApprovalError ReviewDraft
  review_draft field (instance_of d) = ok d
  review_draft field (dict_of j) = schema_or_raise field (model_validate codec j)

  unfoldable pub require_current : Text → Action Record
  require_current id = do or_raise (← reads env (get id)) (not_found id)

  -- After a statement that found no row in the expected status.
  unfoldable pub report_conflict : Text → ApprovalStatus → Action Record
  unfolding require_current
  report_conflict id target = do
    latest ← require_current id
    raise (invalid_transition id latest.status target)

  -- The row that a statement returned, or the conflict.
  abbrev pub returned_or : Action Record → Option Record → Action Record
  returned_or conflict none = conflict
  returned_or conflict (some r) = pure r

  abbrev pub refused : {A : Type 0} → Result Violation A → Result ApprovalError A
  refused (ok a) = ok a
  refused (err v) = err integrity

  -- A statement of the repository; a constraint's refusal is an `IntegrityError`.
  abbrev pub statement :
      {A : Type 0} → (Table codec.Json → Result Violation A × Table codec.Json) → Action A
  statement f = writes env (λ db. let (r, db') = f db in (refused r, db'))

  -- The compare-and-set of a transition, and the conflict when no row was in status `current`.
  unfoldable pub compare_and_set : Text → ApprovalStatus → ApprovalStatus → Changes → Action Record
  unfolding report_conflict
  compare_and_set id current target c = do
    row ← statement (transition_status id current target c)
    returned_or (report_conflict id target) row

  -- `_transition` from the status that was read. `changes` are those of the caller; without them
  -- the update time is taken here.
  unfoldable pub transition_from :
      Text → ApprovalStatus → Option Changes → ApprovalStatus → Action Record
  unfolding compare_and_set
  transition_from id target none current = do
    raise_if (not (is_allowed current target)) (invalid_transition id current target)
    now ← timestamp env (validation timestamp_field)
    compare_and_set id current target (record { confirmed = none; updated_at = now })
  transition_from id target (some c) current = do
    raise_if (not (is_allowed current target)) (invalid_transition id current target)
    compare_and_set id current target c

  unfoldable pub transition : Text → ApprovalStatus → Option Changes → Action Record
  unfolding transition_from require_current
  transition given target changes = do
    id ← lift (identifier approval_id given)
    current ← require_current id
    transition_from id target changes current.status

  unfoldable pub mark_waiting_confirmation : Text → Action Record
  unfolding transition
  mark_waiting_confirmation id = transition id waiting_confirmation none

  unfoldable pub confirm : Text → Text → Action Record
  unfolding transition
  confirm id user = do
    user_id ← lift (identifier confirmed_by_user_id user)
    at ← timestamp env (validation timestamp_field)
    transition id confirmed (some (record { confirmed = some (user_id, at); updated_at = at }))

  unfoldable pub mark_executing : Text → Action Record
  unfolding transition
  mark_executing id = transition id executing none

  unfoldable pub mark_succeeded : Text → Action Record
  unfolding transition
  mark_succeeded id = transition id succeeded none

  unfoldable pub mark_failed : Text → Action Record
  unfolding transition
  mark_failed id = transition id failed none

  unfoldable pub cancel : Text → Action Record
  unfolding transition
  cancel id = transition id cancelled none

  unfoldable pub mark_expired : Text → Action Record
  unfolding transition
  mark_expired id = transition id expired none

  unfoldable pub mark_stale : Text → Action Record
  unfolding transition
  mark_stale id = transition id stale none
