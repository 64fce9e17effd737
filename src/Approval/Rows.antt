-- ===== src/Approval/Rows.antt =====
-- The rule of the rows of the approval table (agent-service/app/models/approval.py), and how a row
-- may change.
use productline_agent.Base.{◌≡◌, refl, ◌∙◌, sym, ◌<◌, ◌^◌, true, some, Text, is_some, text_eq}
use productline_agent.Base.Dict
use productline_agent.Base.Dict.{lookup-insert_cases}
use mathlib.Core.Path.{subst₂}
use productline_agent.Base.{some_injective}
use productline_agent.Base.{inl, inr}
use productline_agent.Base.Safety.{Protocol}
use productline_agent.Approval.Draft.{ReviewDraft, Codec, model_validate}
use productline_agent.Approval.Record.{ApprovalRecord, row_checks}
use productline_agent.Approval.Store.{Table}
use productline_agent.Approval.Diagram.{
  ◌⟶*◌, here, ⟶*-trans, is_settled, path_settled, needs_confirmation,
}

-- One life of a row: its status follows the diagram, what identifies the write stays, and what the
-- user decided on is fixed with the decision.
pub record RowEvolves {Json : Type 0} (r s : ApprovalRecord Json) : Type 0 where
  pub path : r.status ⟶* s.status
  pub same_id : s.approval_id ≡ r.approval_id
  pub same_run : s.run_id ≡ r.run_id
  pub same_operation : s.operation_type ≡ r.operation_type
  pub same_tool_name : s.pending_tool_name ≡ r.pending_tool_name
  pub same_target : s.target_id ≡ r.target_id
  pub same_version : s.target_version ≡ r.target_version
  pub same_original : s.original_draft ≡ r.original_draft
  pub settled_draft : is_settled r.status ≡ true → s.user_modified_draft ≡ r.user_modified_draft
  pub settled_user : is_settled r.status ≡ true → s.confirmed_by_user_id ≡ r.confirmed_by_user_id

module _ {Json : Type 0} where
  pub RowEvolves-refl : (r : ApprovalRecord Json) → RowEvolves r r
  RowEvolves-refl r = record {
    path = here;
    same_id = refl;
    same_run = refl;
    same_operation = refl;
    same_tool_name = refl;
    same_target = refl;
    same_version = refl;
    same_original = refl;
    settled_draft = λ h. refl;
    settled_user = λ h. refl;
  }

  pub RowEvolves-trans :
      (r s t : ApprovalRecord Json) → RowEvolves r s → RowEvolves s t → RowEvolves r t
  RowEvolves-trans r s t e f = record {
    path = ⟶*-trans e.path f.path;
    same_id = f.same_id ∙ e.same_id;
    same_run = f.same_run ∙ e.same_run;
    same_operation = f.same_operation ∙ e.same_operation;
    same_tool_name = f.same_tool_name ∙ e.same_tool_name;
    same_target = f.same_target ∙ e.same_target;
    same_version = f.same_version ∙ e.same_version;
    same_original = f.same_original ∙ e.same_original;
    settled_draft = λ h. f.settled_draft (path_settled e.path h) ∙ e.settled_draft h;
    settled_user = λ h. f.settled_user (path_settled e.path h) ∙ e.settled_user h;
  }

module _ (codec : Codec) where
  abbrev pub Row : Type 0
  Row = ApprovalRecord codec.Json

  -- `j` is a valid draft for the row's target.
  abbrev pub IsDraftFor : Row → codec.Json → ReviewDraft → Type 0
  IsDraftFor r j d = (model_validate codec j ≡ some d) × (d.task_id ≡ r.target_id)

  pub record IsValidRow (id : Text) (r : Row) : Type 0 where
    pub key : r.approval_id ≡ id
    pub checks : row_checks r ≡ true
    pub bounded : r.target_version < 2 ^ 63
    pub by_user : needs_confirmation r.status ≡ true → is_some r.confirmed_by_user_id ≡ true
    pub original : (d : ReviewDraft) × IsDraftFor r r.original_draft d
    pub modified :
        (j : codec.Json)
        → r.user_modified_draft ≡ some j
        → (d : ReviewDraft) × IsDraftFor r j d × (d.issue_id ≡ original.0.issue_id)

  abbrev pub Valid : Table codec.Json → Type 0
  Valid db = (id : Text) (r : Row) → Dict.lookup id db ≡ some r → IsValidRow id r

  abbrev pub Evolves : Table codec.Json → Table codec.Json → Type 0
  Evolves db later =
      (id : Text) (r : Row)
      → Dict.lookup id db ≡ some r
      → (s : Row) × (Dict.lookup id later ≡ some s) × RowEvolves r s

  pub Evolves-refl : (db : Table codec.Json) → Evolves db db
  Evolves-refl db id r h = (r, h, RowEvolves-refl r)

  pub Evolves-trans : (a b c : Table codec.Json) → Evolves a b → Evolves b c → Evolves a c
  Evolves-trans a b c e f id r h =
      let (s, hs, es) = e id r h in
      let (t, ht, et) = f id s hs in (t, ht, RowEvolves-trans r s t es et)

  abbrev pub protocol : Protocol (Table codec.Json)
  protocol = record {
    Valid = Valid;
    Evolves = Evolves;
    evolves_refl = Evolves-refl;
    evolves_trans = Evolves-trans;
  }

  -- A write of one valid row that continues the row before, if there was one.
  module _ (id : Text) (s : Row) (db : Table codec.Json) where
    pub insert-Valid : Valid db → IsValidRow id s → Valid (Dict.insert id s db)
    insert-Valid valid valid_row j r h = elim (lookup-insert_cases id j s db) [
      | inl (same, new) ↦ subst₂ IsValidRow same (some_injective s r (sym new ∙ h)) valid_row
      | inr old ↦ valid j r (sym old ∙ h)
    ]

    pub insert-Evolves :
        ((r : Row) → Dict.lookup id db ≡ some r → RowEvolves r s) → Evolves db (Dict.insert id s db)
    insert-Evolves continues j r h = elim (lookup-insert_cases id j s db) [
      | inl (same, new) ↦ (s, new, continues r (rw same h))
      | inr old ↦ (r, old ∙ h, RowEvolves-refl r)
    ]
