-- ===== src/Approval/Store.antt =====
-- The table of approvals (agent-service/app/repositories/approval.py). An `UPDATE ... WHERE ...
-- RETURNING` is one atomic statement; the rows live in an association list by primary key.
use productline_agent.Base.{
  ℕ, Bool, Option, none, some, Text, text_eq, if◌then◌else◌, is_some, true, Result, ok, ◌||◌, err,
  not,
}
use productline_agent.Base.Dict
use productline_agent.Base.Dict.{Dict}
use productline_agent.Approval.Record.{ApprovalStatus, ApprovalRecord, same_status, row_checks}

abbrev pub Table : Type 0 → Type 0
Table Json = Dict Text (ApprovalRecord Json)

-- The fields that a transition may change besides the status; `confirmed` is the pair of
-- `confirmed_by_user_id` and `confirmed_at`.
pub record Changes : Type 0 where
  pub confirmed : Option (Text × ℕ)
  pub updated_at : ℕ

-- A constraint of the table refuses the statement.
pub data Violation : Type 0 where
  violation : Violation

-- What a statement returns, and the table behind it.
abbrev pub Reply : Type 0 → Type 0 → Type 0
Reply Json A = Result Violation A × Table Json

-- The foreign key of the run.
abbrev pub run_found : (Text → Bool) → Option Text → Bool
run_found run_exists none = true
run_found run_exists (some run) = run_exists run

module _ {Json : Type 0} where
  -- `session.get`.
  abbrev pub get : Text → Table Json → Option (ApprovalRecord Json)
  get = Dict.lookup

  abbrev write_checked : {A : Type 0} → ApprovalRecord Json → A → Text → Table Json → Reply Json A
  write_checked r a id db =
      if row_checks r then (ok a, Dict.insert id r db) else (err violation, db)

  -- `add` and `flush`: the primary key, the foreign key and the checks are tested.
  unfoldable pub create :
      (Text → Bool) → ApprovalRecord Json → Table Json → Reply Json (ApprovalRecord Json)
  create run_exists r db =
      if is_some (Dict.lookup r.approval_id db) || not (run_found run_exists r.run_id)
      then (err violation, db)
      else write_checked r r r.approval_id db

  -- `update(...).where(approval_id == id, status == expected).values(...).returning(...)`.
  unfoldable pub update_where :
      Text
      → ApprovalStatus
      → (ApprovalRecord Json → ApprovalRecord Json)
      → Table Json
      → Reply Json (Option (ApprovalRecord Json))
  update_where id expected f db = elim (Dict.lookup id db) [
    | none ↦ (ok none, db)
    | some r ↦
        if same_status r.status expected
        then write_checked (f r) (some (f r)) id db
        else (ok none, db)
  ]

  abbrev confirm_fields : Option (Text × ℕ) → ApprovalRecord Json → ApprovalRecord Json
  confirm_fields none r = r
  confirm_fields (some (user, at)) r = record r {
    confirmed_by_user_id = some user;
    confirmed_at = some at;
  }

  abbrev pub apply_changes : ApprovalStatus → Changes → ApprovalRecord Json → ApprovalRecord Json
  apply_changes target c r = record (confirm_fields c.confirmed r) {
    status = target;
    updated_at = c.updated_at;
  }

  unfoldable pub transition_status :
      Text
      → ApprovalStatus
      → ApprovalStatus
      → Changes
      → Table Json
      → Reply Json (Option (ApprovalRecord Json))
  unfolding update_where
  transition_status id expected target c = update_where id expected (apply_changes target c)

  abbrev pub with_modification : Json → ℕ → ApprovalRecord Json → ApprovalRecord Json
  with_modification draft at r = record r { user_modified_draft = some draft; updated_at = at }

  unfoldable pub save_user_modified_draft :
      Text → ApprovalStatus → Json → ℕ → Table Json → Reply Json (Option (ApprovalRecord Json))
  unfolding update_where
  save_user_modified_draft id expected draft at =
      update_where id expected (with_modification draft at)

  abbrev pub with_result : Json → ℕ → ApprovalRecord Json → ApprovalRecord Json
  with_result result at r = record r { execution_result = some result; updated_at = at }

  -- Only a first result is saved: the row must hold none.
  unfoldable pub save_execution_result :
      Text → ApprovalStatus → Json → ℕ → Table Json → Reply Json (Option (ApprovalRecord Json))
  unfolding update_where
  save_execution_result id expected result at db = elim (Dict.lookup id db) [
    | none ↦ (ok none, db)
    | some r ↦ elim r.execution_result [
      | some old ↦ (ok none, db)
      | none ↦ update_where id expected (with_result result at) db
    ]
  ]
