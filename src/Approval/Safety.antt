-- ===== src/Approval/Safety.antt =====
-- On the transitions of approvals and the protocol of their table
-- (agent-service/app/services/approval_lifecycle.py).
use productline_agent.Base.{
  err, or_raise, raise, ◌>>=◌, timestamp, ℕ, ◌≡◌, refl, true, false, not, Option, none, some, Text,
  is_some, arith, Bool-cases, Option-cases, inl, inr, err, text_eq, sym, some_injective, ◌∙◌,
}
use productline_agent.Base.Dict
use mathlib.Core.Path.{subst}
use productline_agent.Base.Safety.{
  SafeAt-reads, SafeAt-writes, SafeAt-guard, SafeAt-instant, SafeAt-lift, SafeAt-or_raise,
  SafeAt-return, Rely, Reaches, Safe,
}
use productline_agent.Approval.Draft.{Codec}
use productline_agent.Approval.Record.{
  ApprovalStatus, confirmed, same_status, same_status_iff, row_checks,
}
use productline_agent.Approval.Store.{
  get, Table, Changes, update_where, transition_status, apply_changes,
}
use productline_agent.Approval.Service.{
  require_current, validation, timestamp_field, approval_id, identifier, not_found,
  invalid_transition, returned_or, refused, report_conflict, transition_from, compare_and_set,
  is_allowed, Setup, report_conflict, transition, Action, require_current, transition_from, Record,
}
use productline_agent.Approval.Diagram.{is_allowed-⟶, then, here, is_settled, needs_confirmation}
use productline_agent.Approval.Rows.{
  Row, RowEvolves, IsValidRow, Valid, Evolves-refl, protocol, insert-Valid, insert-Evolves,
}

-- A transition confirms exactly when its target is `confirmed`.
abbrev pub IsLegal : ApprovalStatus → Changes → Type 0
IsLegal target c = is_some c.confirmed ≡ same_status target confirmed

-- The same of a call, whose changes may be left out.
abbrev pub IsLegalCall : ApprovalStatus → Option Changes → Type 0
IsLegalCall t none = same_status t confirmed ≡ false
IsLegalCall t (some c) = IsLegal t c

module _ (codec : Codec) where
  -- A compare-and-set keeps the protocol if it does so on the row.
  pub update_where-Reaches :
      (id : Text) (expected : ApprovalStatus) (f : Row codec → Row codec) (db : Table codec.Json)
      → Valid codec db
      → ((r : Row codec)
          → Dict.lookup id db ≡ some r
          → r.status ≡ expected
          → row_checks (f r) ≡ true
          → IsValidRow codec id (f r) × RowEvolves r (f r))
      → Reaches (protocol codec) db (update_where id expected f db).1
  unfolding update_where
  update_where-Reaches id expected f db valid keeps = elim (Option-cases (Dict.lookup id db)) [
    | inl e ↦ rw (e, update_where) (valid, Evolves-refl codec db)
    | inr (r, e) ↦ elim (Bool-cases (same_status r.status expected)) [
      | inl same ↦ elim (Bool-cases (row_checks (f r))) [
        | inl passed ↦
            let kept = keeps r e ((same_status_iff r.status expected).0 same) passed in
            rw (e, update_where)
              (rw same (
                rw passed (
                  insert-Valid codec id (f r) db valid kept.0,
                  insert-Evolves codec id (f r) db (λ r' h.
                      subst (λ x. RowEvolves x (f r)) (some_injective r r' (sym e ∙ h)) kept.1),
                )))
        | inr refused ↦ rw (e, update_where) (rw same (rw refused (valid, Evolves-refl codec db)))
      ]
      | inr other ↦ rw (e, update_where) (rw other (valid, Evolves-refl codec db))
    ]
  ]

  settled_not_confirmed :
      (s t : ApprovalStatus)
      → is_allowed s t ≡ true
      → is_settled s ≡ true
      → same_status t confirmed ≡ false
  unfolding is_allowed
  settled_not_confirmed s t a h = ground arith

  confirming-RowEvolves :
      (r : Row codec) (target : ApprovalStatus) (confirmation : Option (Text × ℕ)) (at : ℕ)
      → is_allowed r.status target ≡ true
      → is_some confirmation ≡ same_status target confirmed
      → RowEvolves r (apply_changes target (record { confirmed = confirmation; updated_at = at }) r)
  confirming-RowEvolves r target none at allowed legal = record {
    path = then (is_allowed-⟶ r.status target allowed) here;
    same_id = refl;
    same_run = refl;
    same_operation = refl;
    same_tool_name = refl;
    same_target = refl;
    same_version = refl;
    same_original = refl;
    settled_draft = λ h. refl;
    settled_user = λ h. refl;
  }
  confirming-RowEvolves r target (some (user, moment)) at allowed legal = record {
    path = then (is_allowed-⟶ r.status target allowed) here;
    same_id = refl;
    same_run = refl;
    same_operation = refl;
    same_tool_name = refl;
    same_target = refl;
    same_version = refl;
    same_original = refl;
    settled_draft = λ h. refl;
    settled_user = λ h. cc (settled_not_confirmed r.status target allowed h);
  }

  pub apply_changes-RowEvolves :
      (r : Row codec) (target : ApprovalStatus) (c : Changes)
      → is_allowed r.status target ≡ true
      → IsLegal target c
      → RowEvolves r (apply_changes target c r)
  apply_changes-RowEvolves r target c = confirming-RowEvolves r target c.confirmed c.updated_at

  confirmed_before :
      (s t : ApprovalStatus)
      → is_allowed s t ≡ true
      → same_status t confirmed ≡ false
      → needs_confirmation t ≡ true
      → needs_confirmation s ≡ true
  unfolding is_allowed
  confirmed_before s t a n h = ground arith

  confirming-IsValidRow :
      (id : Text) (r : Row codec) (target : ApprovalStatus) (confirmation : Option (Text × ℕ))
      (at : ℕ)
      → is_allowed r.status target ≡ true
      → is_some confirmation ≡ same_status target confirmed
      → (let s = apply_changes target (record { confirmed = confirmation; updated_at = at }) r in
          row_checks s ≡ true → IsValidRow codec id r → IsValidRow codec id s)
  confirming-IsValidRow id r target none at allowed legal checks v = record {
    key = v.key;
    checks = checks;
    bounded = v.bounded;
    by_user = λ h. v.by_user (confirmed_before r.status target allowed (sym legal) h);
    original = v.original;
    modified = v.modified;
  }
  confirming-IsValidRow id r target (some (user, moment)) at allowed legal checks v = record {
    key = v.key;
    checks = checks;
    bounded = v.bounded;
    by_user = λ h. refl;
    original = v.original;
    modified = v.modified;
  }

  -- A transition that the table of the code allows keeps the protocol.
  pub transition_status-Reaches :
      (id : Text) (s t : ApprovalStatus) (c : Changes) (db : Table codec.Json)
      → Valid codec db
      → is_allowed s t ≡ true
      → IsLegal t c
      → Reaches (protocol codec) db (transition_status id s t c db).1
  unfolding transition_status
  transition_status-Reaches id s t c db valid allowed legal =
      update_where-Reaches id s (apply_changes t c) db valid λ r found at_s checks.
        let allowed_r : is_allowed r.status t ≡ true = rw at_s allowed in
        (
          confirming-IsValidRow id r t c.confirmed c.updated_at allowed_r legal checks
              (valid id r found),
          apply_changes-RowEvolves r t c allowed_r legal,
        )

module _ (setup : Setup) where
  open setup use {codec, env}

  abbrev pub IsSafe : {A : Type 0} → Action setup A → Type 0
  IsSafe m = Safe (protocol codec) m

  module _ (rely : Rely (protocol codec) env) where
    pub report_conflict-Safe :
        (id : Text) (t : ApprovalStatus) → IsSafe (report_conflict setup id t)
    unfolding report_conflict require_current
    report_conflict-Safe id t db =
        SafeAt-reads (protocol codec) env rely db (get id)
          (λ o.
            or_raise o (not_found id) >>= λ latest. raise (invalid_transition id latest.status t))
          λ later reached.
            SafeAt-or_raise (protocol codec) env rely later (get id later) (not_found id)
              (λ latest. raise (invalid_transition id latest.status t))
              λ latest found.
                SafeAt-return (protocol codec) {A = Record setup} env rely later
                  (err (invalid_transition id latest.status t))

    pub returned_or-Safe :
        (conflict : Action setup (Record setup)) (o : Option (Record setup))
        → IsSafe conflict
        → IsSafe (returned_or setup conflict o)
    returned_or-Safe conflict none safe db turn ticks valid = safe db turn ticks valid
    returned_or-Safe conflict (some r) safe db turn ticks valid = (valid, Evolves-refl codec db)

    compare_and_set-Safe :
        (id : Text) (s t : ApprovalStatus) (c : Changes)
        → is_allowed s t ≡ true
        → IsLegal t c
        → IsSafe (compare_and_set setup id s t c)
    unfolding compare_and_set
    compare_and_set-Safe id s t c allowed legal db =
        SafeAt-writes (protocol codec) env rely db
          (λ d. let (r, d') = transition_status id s t c d in (refused setup r, d'))
          (returned_or setup (report_conflict setup id t))
          (λ later reached. transition_status-Reaches codec id s t c later reached.0 allowed legal)
          λ row after.
            returned_or-Safe (report_conflict setup id t) row (report_conflict-Safe id t) after

    transition_from-Safe :
        (id : Text) (t s : ApprovalStatus) (c : Option Changes)
        → IsLegalCall t c
        → IsSafe (transition_from setup id t c s)
    unfolding transition_from
    transition_from-Safe id t s none legal db =
        SafeAt-guard (protocol codec) env rely db (not (is_allowed s t)) (invalid_transition id s t)
          (timestamp env (validation timestamp_field) >>= λ now.
            compare_and_set setup id s t (record { confirmed = none; updated_at = now }))
          λ passed.
            SafeAt-instant (protocol codec) env rely db (validation timestamp_field)
              (λ now. compare_and_set setup id s t (record { confirmed = none; updated_at = now }))
              λ now.
                compare_and_set-Safe id s t (record { confirmed = none; updated_at = now })
                  (ground arith) (sym legal) db
    transition_from-Safe id t s (some c) legal db =
        SafeAt-guard (protocol codec) env rely db (not (is_allowed s t)) (invalid_transition id s t)
          (compare_and_set setup id s t c)
          λ passed. compare_and_set-Safe id s t c (ground arith) legal db

    pub transition-Safe :
        (given : Text) (t : ApprovalStatus) (c : Option Changes)
        → IsLegalCall t c
        → IsSafe (transition setup given t c)
    unfolding transition require_current
    transition-Safe given t c legal db =
        SafeAt-lift (protocol codec) env rely db (identifier approval_id given)
          (λ id.
            require_current setup id >>= λ current. transition_from setup id t c current.status)
          λ id parsed.
            SafeAt-reads (protocol codec) env rely db (get id)
              (λ o. or_raise o (not_found id) >>= λ current.
                transition_from setup id t c current.status)
              λ later reached.
                SafeAt-or_raise (protocol codec) env rely later (get id later) (not_found id)
                  (λ current. transition_from setup id t c current.status)
                  λ current found. transition_from-Safe id t current.status c legal later
