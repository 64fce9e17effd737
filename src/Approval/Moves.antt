-- ===== src/Approval/Moves.antt =====
-- On what a transition of an approval that returns has done
-- (agent-service/app/services/approval_lifecycle.py, `_transition`).
use productline_agent.Base.{
  Bool, true, false, not, Instant, aware, naive, aware_time, raise_if, ◌>>◌, timestamp, or_raise,
  ◌>>=◌, continue, ◌≡◌, refl, Option, none, some, Text, World, ok, text_eq, suc, true, Bool,
}
use productline_agent.Base.Dict
use productline_agent.Base.Dict.{lookup-insert_self}
use productline_agent.Base.Safety.{Rely}
use productline_agent.Approval.Record.{ApprovalStatus}
use productline_agent.Approval.Store.{Table, Changes, update_where, apply_changes}
use productline_agent.Approval.Service.{
  require_current, validation, timestamp_field, Action, not_found, invalid_transition, Setup,
  Record, compare_and_set, transition_from, is_allowed, transition, identifier, approval_id,
}
use productline_agent.Approval.Rows.{protocol, Valid}
use productline_agent.Approval.Outcomes.{
  update_where_cases, Moved, concluded-ok, compare_and_set-concluded, concluded-Moved,
  Moved-earlier,
}

module _ (setup : Setup) where
  open setup use {codec, env}

  module _ (rely : Rely (protocol codec) env) where
    compare_and_set-Moved :
        (id : Text) (s t : ApprovalStatus) (c : Changes) (w : World (Table codec.Json))
        (r : Record setup)
        → Valid codec w.db
        → (compare_and_set setup id s t c w).0 ≡ ok r
        → Moved setup id s t w.db (compare_and_set setup id s t c w).1.db r
    compare_and_set-Moved id s t c w r valid = rw (compare_and_set-concluded setup id s t c w) λ h.
        concluded-Moved setup id s t c w.db (env.others w.turn w.db) (suc w.turn) w.ticks r
          (update_where id s (apply_changes t c) (env.others w.turn w.db)) (rely w.turn w.db valid)
          (update_where_cases id s (apply_changes t c) (env.others w.turn w.db))
          (concluded-ok setup id t (suc w.turn) w.ticks
            (update_where id s (apply_changes t c) (env.others w.turn w.db)) r h)

    -- The rest of `transition_from` behind its guard and its clock.
    timed-Moved :
        (id : Text) (s t : ApprovalStatus) (i : Instant) (w : World (Table codec.Json))
        (r : Record setup)
        → Valid codec w.db
        → (continue
            (aware_time (validation timestamp_field) i)
            (λ now. compare_and_set setup id s t (record { confirmed = none; updated_at = now }))
            w).0
          ≡ ok r
        → Moved setup id s t w.db
            (continue
              (aware_time (validation timestamp_field) i)
              (λ now. compare_and_set setup id s t (record { confirmed = none; updated_at = now }))
              w).1.db
            r
    timed-Moved id s t (aware now) w r valid h =
        compare_and_set-Moved id s t (record { confirmed = none; updated_at = now }) w r valid h
    timed-Moved id s t naive w r valid h = cc

    transition_from-Moved :
        (id : Text) (s t : ApprovalStatus) (w : World (Table codec.Json)) (r : Record setup)
        → Valid codec w.db
        → (transition_from setup id t none s w).0 ≡ ok r
        → (is_allowed s t ≡ true)
          × Moved setup id s t w.db (transition_from setup id t none s w).1.db r
    unfolding transition_from
    transition_from-Moved id s t w r valid h = go (is_allowed s t) h
      where
        guarded : Bool → Action setup (Record setup)
        guarded b =
            raise_if (not b) (invalid_transition id s t)
            >> (timestamp env (validation timestamp_field) >>= λ now.
                compare_and_set setup id s t (record { confirmed = none; updated_at = now }))

        go :
            (b : Bool)
            → (guarded b w).0 ≡ ok r
            → (b ≡ true) × Moved setup id s t w.db (guarded b w).1.db r
        go true e = (
          refl,
          timed-Moved id s t (env.now w.ticks) (record w { ticks = suc w.ticks }) r valid e,
        )
        go false e = cc

    -- The rest of `transition` behind the read of the row.
    found-Moved :
        (id : Text) (t : ApprovalStatus) (o : Option (Record setup)) (w : World (Table codec.Json))
        (r : Record setup)
        → Valid codec w.db
        → ((or_raise o (not_found id) >>= λ current. transition_from setup id t none current.status)
            w).0
          ≡ ok r
        → (current : Record setup) × (is_allowed current.status t ≡ true)
          × Moved setup id current.status t w.db
              ((or_raise o (not_found id) >>= λ x. transition_from setup id t none x.status) w).1.db
              r
    found-Moved id t none w r valid h = cc
    found-Moved id t (some current) w r valid h =
        let (allowed, moved) = transition_from-Moved id current.status t w r valid h in
        (current, allowed, moved)

    -- With others that keep the rule of the table, if a transition without changes of its own
    -- returns a row, from a valid table, then it found the approval in a status from which the
    -- table of transitions allows the target, in a state that the table had reached; the row has
    -- the target status, and it is the row that the table holds afterwards.
    pub transition-Moved :
        (given id : Text) (t : ApprovalStatus) (w : World (Table codec.Json)) (r : Record setup)
        → Valid codec w.db
        → identifier approval_id given ≡ ok id
        → (transition setup given t none w).0 ≡ ok r
        → (s : ApprovalStatus) × (is_allowed s t ≡ true)
          × Moved setup id s t w.db (transition setup given t none w).1.db r
    unfolding transition require_current
    transition-Moved given id t w r valid named = rw named λ h.
        let later = env.others w.turn w.db in
        let reached = rely w.turn w.db valid in
        let (current, allowed, moved) =
          found-Moved id t (Dict.lookup id later) (record w { db = later; turn = suc w.turn }) r
            reached.0 h in
        (
          current.status,
          allowed,
          Moved-earlier setup id current.status t w.db later _ r reached moved,
        )
