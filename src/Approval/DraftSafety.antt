-- ===== src/Approval/DraftSafety.antt =====
-- On the drafts of approvals and the protocol of their table
-- (agent-service/app/services/approval_lifecycle.py).
use productline_agent.Base.{
  eq_of_not_ne, ℕ, ◌≡◌, refl, sym, ◌∙◌, ◌<◌, ◌^◌, ap, Bool, true, not, Option, none, some, Text,
  codes, arith, Bool-cases, Option-cases, inl, inr, ok, text_eq, ◌!=◌, Scalar, int, bool, pos,
  negsuc, some_injective, ◌>>=◌, or_raise, pure, ok_injective,
}
use productline_agent.Base.Dict
use productline_agent.Base.Pattern.{has_prefix}
use productline_agent.Base.Safety.{
  Rely, SafeAt, Reaches, SafeAt-lift, SafeAt-guard, SafeAt-reads, SafeAt-or_raise, SafeAt-instant,
  SafeAt-writes, SafeAt-return,
}
use productline_agent.Approval.Draft.{
  ReviewDraft, Codec, is_review_draft, model_validate, model_validate-dump, model_validate_valid,
}
use productline_agent.Approval.Record.{
  waiting_confirmation, OperationType, PendingToolName, row_checks, tool_for, same_tool,
  same_status,
}
use productline_agent.Approval.Store.{
  Table, run_found, get, create, save_user_modified_draft, with_modification,
}
use productline_agent.Approval.Service.{
  Setup, Record, schema_or_raise, ApprovalError, DraftInput, instance_of, dict_of, Field,
  review_draft, checked_version, identifier, approval_id, run_id, target_id, refused, returned_or,
  report_conflict, validation, original_draft, modified_draft, draft_task_id, draft_issue_id,
  pending_tool_name, timestamp_field, not_found, invalid_transition, require_current,
}
use productline_agent.Approval.Drafting.{
  create_draft, new_record, save_user_modification, modify_from, insert_row,
}
use productline_agent.Approval.Diagram.{here}
use productline_agent.Approval.Rows.{
  Row, IsValidRow, Valid, Evolves, Evolves-refl, protocol, insert-Valid, insert-Evolves,
}
use productline_agent.Approval.Safety.{
  update_where-Reaches, IsSafe, returned_or-Safe, report_conflict-Safe,
}

checked_version-bounded : (v : Scalar) (n : ℕ) → checked_version v ≡ ok n → n < 2 ^ 63
unfolding checked_version
checked_version-bounded (bool b) n h = cc
checked_version-bounded (int (negsuc m)) n h = cc
checked_version-bounded (int (pos m)) n h = ground arith

module _ (codec : Codec) where
  -- A new valid row keeps the protocol.
  pub create-Reaches :
      (run_exists : Text → Bool) (r : Row codec) (db : Table codec.Json)
      → Valid codec db
      → (row_checks r ≡ true → IsValidRow codec r.approval_id r)
      → Reaches (protocol codec) db (create run_exists r db).1
  unfolding create
  create-Reaches run_exists r db valid fresh = elim (Option-cases (Dict.lookup r.approval_id db)) [
    | inl e ↦ elim (Bool-cases (run_found run_exists r.run_id)) [
      | inl found ↦ elim (Bool-cases (row_checks r)) [
        | inl passed ↦
            rw (e, create)
              (rw found (
                rw passed (
                  insert-Valid codec r.approval_id r db valid (fresh passed),
                  insert-Evolves codec r.approval_id r db (λ old h. cc (e, h)),
                )))
        | inr failed ↦ rw (e, create) (rw found (rw failed (valid, Evolves-refl codec db)))
      ]
      | inr missing ↦ rw (e, create) (rw missing (valid, Evolves-refl codec db))
    ]
    | inr (old, e) ↦ rw (e, create) (valid, Evolves-refl codec db)
  ]

  -- A modification for the same target and issue keeps the protocol.
  pub modification-Reaches :
      (id : Text) (d : ReviewDraft) (at : ℕ) (db : Table codec.Json)
      → Valid codec db
      → is_review_draft d ≡ true
      → ((r : Row codec)
          → Dict.lookup id db ≡ some r
          → (v : IsValidRow codec id r)
          → (d.task_id ≡ r.target_id) × (d.issue_id ≡ v.original.0.issue_id))
      → Reaches
          (protocol codec)
          db
          (save_user_modified_draft id waiting_confirmation (codec.dump d) at db).1
  unfolding save_user_modified_draft
  modification-Reaches id d at db valid good fits =
      update_where-Reaches codec id waiting_confirmation (with_modification (codec.dump d) at) db
        valid
        λ r found waiting checks.
          let v = valid id r found in
          let (task, issue) = fits r found v in
          (
            record {
              key = v.key;
              checks = checks;
              bounded = v.bounded;
              by_user = v.by_user;
              original = v.original;
              modified = λ j same. (
                d,
                (
                  rw (← some_injective (codec.dump d) j same) (model_validate-dump codec d good),
                  task,
                ),
                issue,
              );
            },
            record {
              path = here;
              same_id = refl;
              same_run = refl;
              same_operation = refl;
              same_tool_name = refl;
              same_target = refl;
              same_version = refl;
              same_original = refl;
              settled_draft = λ h. cc;
              settled_user = λ h. refl;
            },
          )

module _ (setup : Setup) where
  open setup use {codec, env, run_exists}

  -- An argument that is an instance of the schema's class was validated when it was built.
  abbrev pub IsInput : DraftInput codec.Json → Type 0
  IsInput (instance_of d) = is_review_draft d ≡ true
  IsInput (dict_of j) = Unit

  schema_or_raise-ok :
      (field : Field) (o : Option ReviewDraft) (d : ReviewDraft)
      → schema_or_raise setup field o ≡ ok d
      → o ≡ some d
  schema_or_raise-ok field none d h = cc
  schema_or_raise-ok field (some c) d h = cc

  pub review_draft-dict :
      (field : Field) (j : codec.Json) (d : ReviewDraft)
      → review_draft setup field (dict_of j) ≡ ok d
      → model_validate codec j ≡ some d
  unfolding review_draft
  review_draft-dict field j d = schema_or_raise-ok field (model_validate codec j) d

  review_draft_valid :
      (field : Field) (input : DraftInput codec.Json) (d : ReviewDraft)
      → IsInput input
      → review_draft setup field input ≡ ok d
      → is_review_draft d ≡ true
  unfolding review_draft
  review_draft_valid field (instance_of e) d good h = rw (← ok_injective e d h) good
  review_draft_valid field (dict_of j) d good h =
      model_validate_valid codec j d (review_draft-dict field j d h)

  new_record-IsValidRow :
      (id run : Text) (operation : OperationType) (d : ReviewDraft) (tool : PendingToolName)
      (target : Text) (version : ℕ)
      → is_review_draft d ≡ true
      → d.task_id ≡ target
      → version < 2 ^ 63
      → (let r = new_record setup id run operation (codec.dump d) tool target version in
          row_checks r ≡ true → IsValidRow codec id r)
  new_record-IsValidRow id run operation d tool target version good task bounded checks = record {
    key = refl;
    checks = checks;
    bounded = bounded;
    by_user = λ h. cc;
    original = (d, (model_validate-dump codec d good, task));
    modified = λ j h. cc;
  }

  module _ (rely : Rely (protocol codec) env) where
    insert_row-Safe :
        (r : Record setup)
        → (row_checks r ≡ true → IsValidRow codec r.approval_id r)
        → IsSafe setup (insert_row setup r)
    insert_row-Safe r fresh db =
        SafeAt-writes (protocol codec) env rely db
          (λ d. let (x, d') = create run_exists r d in (refused setup x, d')) pure
          (λ later reached. create-Reaches codec run_exists r later reached.0 fresh)
          λ row after. SafeAt-return (protocol codec) {E = ApprovalError} env rely after (ok row)

    pub create_draft-Safe :
        (given_id given_run : Text) (operation : OperationType) (original : DraftInput codec.Json)
        (tool : PendingToolName) (given_target : Text) (version : Scalar)
        → IsInput original
        → IsSafe setup
            (create_draft setup given_id given_run operation original tool given_target version)
    unfolding create_draft
    create_draft-Safe given_id given_run operation original tool given_target version good db =
        SafeAt-lift (protocol codec) env rely db (identifier approval_id given_id) _ λ id h_id.
          SafeAt-lift (protocol codec) env rely db (identifier run_id given_run) _ λ run h_run.
            SafeAt-lift (protocol codec) env rely db (identifier target_id given_target) _
              λ target h_target.
                SafeAt-guard (protocol codec) env rely db (not (has_prefix (codes "TASK-") target))
                  (validation target_id) _
                  λ is_task.
                    SafeAt-lift (protocol codec) env rely db (checked_version version) _ λ n h_n.
                      SafeAt-guard (protocol codec) env rely db
                        (not (same_tool tool (tool_for operation))) (validation pending_tool_name) _
                        λ is_tool.
                          SafeAt-lift (protocol codec) env rely db
                            (review_draft setup original_draft original) _
                            λ d h_d.
                              SafeAt-guard (protocol codec) env rely db (d.task_id != target)
                                (validation draft_task_id) _
                                λ on_target.
                                  insert_row-Safe
                                    (new_record setup id run operation (codec.dump d) tool target n)
                                    (new_record-IsValidRow id run operation d tool target n
                                      (review_draft_valid original_draft original d good h_d)
                                      (eq_of_not_ne d.task_id target on_target)
                                      (checked_version-bounded version n h_n))
                                    db

    -- What the row that was read says of the row that the statement finds.
    modification_fits :
        (id : Text) (d original : ReviewDraft) (current : Record setup)
        (db later : Table codec.Json)
        → Dict.lookup id db ≡ some current
        → Evolves codec db later
        → d.task_id ≡ current.target_id
        → model_validate codec current.original_draft ≡ some original
        → d.issue_id ≡ original.issue_id
        → (r : Record setup) → Dict.lookup id later ≡ some r
        → (v : IsValidRow codec id r)
        → (d.task_id ≡ r.target_id) × (d.issue_id ≡ v.original.0.issue_id)
    modification_fits id d original current db later found evolves task parsed issue r now v =
        let (s, at_s, e) = evolves id current found in
        let same : s ≡ r = some_injective s r (sym at_s ∙ now) in
        let target : r.target_id ≡ current.target_id = rw (← same) e.same_target in
        let text : r.original_draft ≡ current.original_draft = rw (← same) e.same_original in
        let one : original ≡ v.original.0 =
          some_injective original v.original.0 (sym parsed ∙ rw (← text) v.original.1.0) in
        (task ∙ sym target, issue ∙ ap (λ (x : ReviewDraft). x.issue_id) one)

    pub modify_from-Safe :
        (id : Text) (modified : DraftInput codec.Json) (current : Record setup)
        (db : Table codec.Json)
        → IsInput modified
        → Dict.lookup id db ≡ some current
        → SafeAt (protocol codec) db (modify_from setup id modified current)
    unfolding modify_from
    modify_from-Safe id modified current db good found =
        SafeAt-guard (protocol codec) env rely db
          (not (same_status current.status waiting_confirmation))
          (invalid_transition id current.status waiting_confirmation) _
          λ waiting.
            SafeAt-lift (protocol codec) env rely db (review_draft setup modified_draft modified) _
              λ d h_d.
                SafeAt-guard (protocol codec) env rely db (d.task_id != current.target_id)
                  (validation draft_task_id) _
                  λ on_target.
                    SafeAt-lift (protocol codec) env rely db
                      (review_draft setup original_draft (dict_of current.original_draft)) _
                      λ original h_o.
                        SafeAt-guard (protocol codec) env rely db (d.issue_id != original.issue_id)
                          (validation draft_issue_id) _
                          λ on_issue.
                            SafeAt-instant (protocol codec) env rely db (validation timestamp_field)
                              _
                              λ at.
                                SafeAt-writes (protocol codec) env rely db
                                  (λ x.
                                    let (r, x') =
                                      save_user_modified_draft id waiting_confirmation
                                        (codec.dump d) at x in
                                    (refused setup r, x'))
                                  (returned_or setup
                                    (report_conflict setup id waiting_confirmation))
                                  (λ later reached.
                                    modification-Reaches codec id d at later reached.0
                                      (review_draft_valid modified_draft modified d good h_d)
                                      (modification_fits id d original current db later found
                                        reached.1
                                        (eq_of_not_ne d.task_id current.target_id on_target)
                                        (review_draft-dict original_draft current.original_draft
                                          original h_o)
                                        (eq_of_not_ne d.issue_id original.issue_id on_issue)))
                                  λ row after.
                                    returned_or-Safe setup rely
                                      (report_conflict setup id waiting_confirmation) row
                                      (report_conflict-Safe setup rely id waiting_confirmation)
                                      after

    pub save_user_modification-Safe :
        (given : Text) (modified : DraftInput codec.Json)
        → IsInput modified
        → IsSafe setup (save_user_modification setup given modified)
    unfolding save_user_modification require_current
    save_user_modification-Safe given modified good db =
        SafeAt-lift (protocol codec) env rely db (identifier approval_id given) _ λ id h_id.
          SafeAt-reads (protocol codec) env rely db (get id)
            (λ o. or_raise o (not_found id) >>= modify_from setup id modified)
            λ later reached.
              SafeAt-or_raise (protocol codec) env rely later (get id later) (not_found id)
                (modify_from setup id modified)
                λ current found. modify_from-Safe id modified current later good found
