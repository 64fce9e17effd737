-- ===== src/Approval/Outcomes.antt =====
-- On the outcome of a compare-and-set of the approval table
-- (agent-service/app/services/approval_lifecycle.py, `_transition`).
use productline_agent.Base.{
  raise, or_raise, ◌>>=◌, continue, ◌≡◌, ◌≢◌, refl, sym, ap, ◌∙◌, Option, none, some, Text, World,
  Result, ok, err, text_eq, suc, ℕ, Option-cases, Bool-cases, inl, inr, ◌⊎◌,
}
use productline_agent.Base.Dict
use productline_agent.Base.Dict.{lookup-insert_self}
use productline_agent.Base.Safety.{Reaches}
use productline_agent.Approval.Record.{
  ApprovalStatus, ApprovalRecord, same_status, same_status_iff, row_checks,
}
use productline_agent.Approval.Store.{
  Table, Changes, Violation, violation, transition_status, update_where, apply_changes,
}
use productline_agent.Approval.Service.{
  returned_or, refused, Action, not_found, invalid_transition, Setup, Record, ApprovalError,
  compare_and_set, report_conflict,
}
use productline_agent.Base.Safety.{Reaches-trans}
use productline_agent.Approval.Rows.{protocol}

module _ {Json : Type 0} where
  -- The three outcomes of a compare-and-set: no such row in that status, a refusal by a constraint,
  -- or the update.
  pub update_where_cases :
      (id : Text) (expected : ApprovalStatus) (f : ApprovalRecord Json → ApprovalRecord Json)
      (db : Table Json)
      → (update_where id expected f db ≡ (ok none, db))
        ⊎ (update_where id expected f db ≡ (err violation, db))
        ⊎ ((old : ApprovalRecord Json) × (Dict.lookup id db ≡ some old)
            × (old.status ≡ expected)
            × (update_where id expected f db ≡ (ok (some (f old)), Dict.insert id (f old) db)))
  unfolding update_where
  update_where_cases id expected f db = elim (Option-cases (Dict.lookup id db)) [
    | inl e ↦ inl (rw (e, update_where))
    | inr (old, e) ↦ elim (Bool-cases (same_status old.status expected)) [
      | inl same ↦ elim (Bool-cases (row_checks (f old))) [
        | inl passed ↦ inr (
            inr (
              old,
              e,
              (same_status_iff old.status expected).0 same,
              rw (e, update_where) (rw same (rw passed)),
            ))
        | inr failed ↦ inr (inl (rw (e, update_where) (rw same (rw failed))))
      ]
      | inr other ↦ inl (rw (e, update_where) (rw other))
    ]
  ]

module _ (setup : Setup) where
  open setup use {codec, env}

  pub reported : Option (Record setup) → Text → ApprovalStatus → Action setup (Record setup)
  reported o id t =
      or_raise o (not_found id) >>= λ latest. raise (invalid_transition id latest.status t)

  pub reported-not_ok :
      (o : Option (Record setup)) (id : Text) (t : ApprovalStatus) (w : World (Table codec.Json))
      (r : Record setup)
      → (reported o id t w).0 ≢ ok r
  unfolding reported
  reported-not_ok none id t w r h = cc
  reported-not_ok (some old) id t w r h = cc

  pub report_conflict-not_ok :
      (id : Text) (t : ApprovalStatus) (w : World (Table codec.Json)) (r : Record setup)
      → (report_conflict setup id t w).0 ≢ ok r
  unfolding report_conflict reported
  report_conflict-not_ok id t w =
      let db = env.others w.turn w.db in
      reported-not_ok (Dict.lookup id db) id t (record w { db = db; turn = suc w.turn })

  -- A call that returned row `r` after it found the approval in status `s`, in a state that the
  -- table `start` had reached.
  pub record Moved (id : Text) (s t : ApprovalStatus) (start after : Table codec.Json)
      (r : Record setup) : Type 0 where
    pub before : Table codec.Json
    pub reached : Reaches (protocol codec) start before
    pub old : Record setup
    pub found : Dict.lookup id before ≡ some old
    pub in_status : old.status ≡ s
    pub target : r.status ≡ t
    pub saved : Dict.lookup id after ≡ some r

  -- What `compare_and_set` makes of the answer of its statement.
  pub concluded :
      Text
      → ApprovalStatus
      → ℕ
      → ℕ
      → Result Violation (Option (Record setup)) × Table codec.Json
      → Result ApprovalError (Record setup) × World (Table codec.Json)
  concluded id t turn ticks (answer, db) =
      continue (refused setup answer) (returned_or setup (report_conflict setup id t))
        (record { db = db; turn = turn; ticks = ticks })

  pub concluded-ok :
      (id : Text) (t : ApprovalStatus) (turn ticks : ℕ)
      (x : Result Violation (Option (Record setup)) × Table codec.Json) (r : Record setup)
      → (concluded id t turn ticks x).0 ≡ ok r
      → (x.0 ≡ ok (some r)) × ((concluded id t turn ticks x).1.db ≡ x.1)
  unfolding concluded
  concluded-ok id t turn ticks (ok none, db) r h =
      absurd (report_conflict-not_ok id t (record { db = db; turn = turn; ticks = ticks }) r h)
  concluded-ok id t turn ticks (ok (some q), db) r h = (cc, refl)
  concluded-ok id t turn ticks (err v, db) r h = cc

  pub compare_and_set-concluded :
      (id : Text) (s t : ApprovalStatus) (c : Changes) (w : World (Table codec.Json))
      → compare_and_set setup id s t c w
        ≡ concluded id t
            (suc w.turn)
            w.ticks
            (update_where id s (apply_changes t c) (env.others w.turn w.db))
  unfolding compare_and_set concluded transition_status
  compare_and_set-concluded id s t c w = refl

  abbrev pub Answer : Type 0
  Answer = Result Violation (Option (Record setup)) × Table codec.Json

  pub concluded-Moved :
      (id : Text) (s t : ApprovalStatus) (c : Changes) (start later : Table codec.Json)
      (turn ticks : ℕ) (r : Record setup) (x : Answer)
      → Reaches (protocol codec) start later
      → (x ≡ (ok none, later))
        ⊎ (x ≡ (err violation, later))
        ⊎ ((old : Record setup) × (Dict.lookup id later ≡ some old)
            × (old.status ≡ s)
            × (x ≡ (
              ok (some (apply_changes t c old)),
              Dict.insert id (apply_changes t c old) later,
            )))
      → (x.0 ≡ ok (some r)) × ((concluded id t turn ticks x).1.db ≡ x.1)
      → Moved id s t start (concluded id t turn ticks x).1.db r
  concluded-Moved id s t c start later turn ticks r x reached (inl missed) (answer, kept) =
      cc (ap (λ (y : Answer). y.0) missed, answer)
  concluded-Moved id s t c start later turn ticks r x reached (inr (inl rejected)) (answer, kept) =
      cc (ap (λ (y : Answer). y.0) rejected, answer)
  concluded-Moved id s t c start later turn ticks r x reached (inr (inr (old, found, at, e)))
        (answer, kept) =
      record {
        before = later;
        reached = reached;
        old = old;
        found = found;
        in_status = at;
        target = ap (λ (y : Record setup). y.status) (same old e);
        saved = kept_row old e;
      }
    where
      same :
          (old : Record setup)
          → x ≡ (ok (some (apply_changes t c old)), Dict.insert id (apply_changes t c old) later)
          → r ≡ apply_changes t c old
      same old e = cc (ap (λ (y : Answer). y.0) e, answer)

      kept_row :
          (old : Record setup)
          → x ≡ (ok (some (apply_changes t c old)), Dict.insert id (apply_changes t c old) later)
          → Dict.lookup id (concluded id t turn ticks x).1.db ≡ some r
      kept_row old e =
          ap (Dict.lookup id) (kept ∙ ap (λ (y : Answer). y.1) e)
          ∙ lookup-insert_self id (apply_changes t c old) later
          ∙ ap some (sym (same old e))

  pub Moved-earlier :
      (id : Text) (s t : ApprovalStatus) (a b after : Table codec.Json) (r : Record setup)
      → Reaches (protocol codec) a b
      → Moved id s t b after r
      → Moved id s t a after r
  Moved-earlier id s t a b after r reached m = record {
    before = m.before;
    reached = Reaches-trans (protocol codec) a b m.before reached.1 m.reached;
    old = m.old;
    found = m.found;
    in_status = m.in_status;
    target = m.target;
    saved = m.saved;
  }
