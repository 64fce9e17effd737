-- ===== src/Approval/Guarantees.antt =====
-- On sequences of calls of the approval service
-- (agent-service/app/services/approval_lifecycle.py), with other transactions between their statements.
use productline_agent.Base.{
  ◌≡◌, refl, true, none, some, List, [], ◌∷◌, Text, Scalar, World, text_eq,
}
use productline_agent.Base.Dict
use productline_agent.Base.Safety.{Rely, Reaches-trans, SafeAt-lift, SafeAt-instant}
use productline_agent.Approval.Record.{
  OperationType, PendingToolName, confirmed, executing, succeeded, failed, cancelled, expired,
  stale, waiting_confirmation,
}
use productline_agent.Approval.Store.{Table}
use productline_agent.Approval.Service.{
  Setup, Record, Action, DraftInput, mark_waiting_confirmation, confirm, mark_executing,
  mark_succeeded, mark_failed, cancel, mark_expired, mark_stale, identifier, confirmed_by_user_id,
  validation, timestamp_field,
}
use productline_agent.Approval.Drafting.{
  create_draft, save_user_modification, effective_review_draft,
}
use productline_agent.Approval.Diagram.{is_settled, is_terminal, path_terminal}
use productline_agent.Base.{ok, Option, is_some}
use productline_agent.Approval.Draft.{ReviewDraft}
use productline_agent.Approval.Service.{review_draft}
use productline_agent.Approval.Diagram.{needs_confirmation}
use productline_agent.Approval.Rows.{IsValidRow, Valid, Evolves, protocol}
use productline_agent.Approval.Safety.{IsSafe, transition-Safe}
use productline_agent.Approval.DraftSafety.{IsInput, create_draft-Safe, save_user_modification-Safe}

module _ (setup : Setup) where
  open setup use {codec, env}

  -- The calls of the service.
  pub data Call : Type 0 where
    creating :
        Text → Text → OperationType → DraftInput codec.Json → PendingToolName → Text → Scalar → Call
    modifying : Text → DraftInput codec.Json → Call
    confirming : Text → Text → Call
    presenting executing_ succeeding failing cancelling expiring outdating : Text → Call

  unfoldable pub perform : Call → Action setup (Record setup)
  perform (creating id run operation d tool target version) =
      create_draft setup id run operation d tool target version
  perform (modifying id d) = save_user_modification setup id d
  perform (confirming id user) = confirm setup id user
  perform (presenting id) = mark_waiting_confirmation setup id
  perform (executing_ id) = mark_executing setup id
  perform (succeeding id) = mark_succeeded setup id
  perform (failing id) = mark_failed setup id
  perform (cancelling id) = cancel setup id
  perform (expiring id) = mark_expired setup id
  perform (outdating id) = mark_stale setup id

  -- The calls of one coroutine, one after another; an error of one does not stop the next.
  unfoldable pub serve : List Call → World (Table codec.Json) → World (Table codec.Json)
  serve [] w = w
  serve (c ∷ cs) w = serve cs (perform c w).1

  abbrev pub IsCall : Call → Type 0
  IsCall (creating id run operation d tool target version) = IsInput setup d
  IsCall (modifying id d) = IsInput setup d
  IsCall _ = Unit

  abbrev pub AreCalls : List Call → Type 0
  AreCalls [] = Unit
  AreCalls (c ∷ cs) = IsCall c × AreCalls cs

  module _ (rely : Rely (protocol codec) env) where
    confirm-Safe : (id user : Text) → IsSafe setup (confirm setup id user)
    unfolding confirm
    confirm-Safe id user db =
        SafeAt-lift (protocol codec) env rely db (identifier confirmed_by_user_id user) _ λ u h.
          SafeAt-instant (protocol codec) env rely db (validation timestamp_field) _ λ at.
            transition-Safe setup rely id confirmed
              (some (record { confirmed = some (u, at); updated_at = at })) refl db

    perform-Safe : (c : Call) → IsCall c → IsSafe setup (perform c)
    unfolding perform mark_waiting_confirmation mark_executing mark_succeeded mark_failed cancel
        mark_expired mark_stale
    perform-Safe (creating id run operation d tool target version) good =
        create_draft-Safe setup rely id run operation d tool target version good
    perform-Safe (modifying id d) good = save_user_modification-Safe setup rely id d good
    perform-Safe (confirming id user) good = confirm-Safe id user
    perform-Safe (presenting id) good = transition-Safe setup rely id waiting_confirmation none refl
    perform-Safe (executing_ id) good = transition-Safe setup rely id executing none refl
    perform-Safe (succeeding id) good = transition-Safe setup rely id succeeded none refl
    perform-Safe (failing id) good = transition-Safe setup rely id failed none refl
    perform-Safe (cancelling id) good = transition-Safe setup rely id cancelled none refl
    perform-Safe (expiring id) good = transition-Safe setup rely id expired none refl
    perform-Safe (outdating id) good = transition-Safe setup rely id stale none refl

    -- From a table of approvals whose rows are all valid, and with others that keep the rule of
    -- the table, every sequence of the ten calls of the service ends in a table whose rows are all
    -- valid, and each row of the first table is still there: its status has followed the diagram
    -- of the states, what identifies the write is unchanged, and what the user decided on is fixed
    -- once it is decided. Drafts that are given as instances satisfy their schema.
    pub serve-Reaches :
        (cs : List Call) (w : World (Table codec.Json))
        → AreCalls cs
        → Valid codec w.db
        → Valid codec (serve cs w).db × Evolves codec w.db (serve cs w).db
    unfolding serve
    serve-Reaches [] w calls valid = (valid, (protocol codec).evolves_refl w.db)
    serve-Reaches (c ∷ cs) w calls valid =
        let first = perform-Safe c calls.0 w.db w.turn w.ticks valid in
        Reaches-trans (protocol codec) w.db (perform c w).1.db (serve cs (perform c w).1).db first.1
          (serve-Reaches cs (perform c w).1 calls.1 first.0)

    -- With others that keep the rule of the table, the effective draft, the confirming user and
    -- the target version of an approval in a valid table that is past its confirmation stay what
    -- they are over every sequence of calls. Drafts that are given as instances satisfy their
    -- schema.
    pub serve-effective_draft :
        (cs : List Call) (w : World (Table codec.Json)) (id : Text) (r : Record setup)
        → AreCalls cs
        → Valid codec w.db
        → Dict.lookup id w.db ≡ some r
        → is_settled r.status ≡ true
        → (s : Record setup) × (Dict.lookup id (serve cs w).db ≡ some s)
          × (effective_review_draft setup s ≡ effective_review_draft setup r)
          × (s.confirmed_by_user_id ≡ r.confirmed_by_user_id)
          × (s.target_version ≡ r.target_version)
    unfolding effective_review_draft
    serve-effective_draft cs w id r calls valid found settled =
        let (s, at_s, e) = (serve-Reaches cs w calls valid).1 id r found in
        (
          s,
          at_s,
          rw (e.settled_draft settled, e.same_original) refl,
          e.settled_user settled,
          e.same_version,
        )

    -- With others that keep the rule of the table, the status of an approval in a valid table that
    -- has succeeded, failed, been cancelled, expired or gone stale is the same after every
    -- sequence of calls. Drafts that are given as instances satisfy their schema.
    pub serve-terminal :
        (cs : List Call) (w : World (Table codec.Json)) (id : Text) (r : Record setup)
        → AreCalls cs
        → Valid codec w.db
        → Dict.lookup id w.db ≡ some r
        → is_terminal r.status ≡ true
        → (s : Record setup) × (Dict.lookup id (serve cs w).db ≡ some s) × (s.status ≡ r.status)
    serve-terminal cs w id r calls valid found terminal =
        let (s, at_s, e) = (serve-Reaches cs w calls valid).1 id r found in
        (s, at_s, path_terminal e.path terminal)

  effective-IsValidRow :
      (id : Text) (r : Record setup) (modified : Option codec.Json)
      → r.user_modified_draft ≡ modified
      → IsValidRow codec id r
      → (d : ReviewDraft) × (effective_review_draft setup r ≡ ok d) × (d.task_id ≡ r.target_id)
  unfolding effective_review_draft review_draft
  effective-IsValidRow id r none e v =
      let (d, (valid, task)) = v.original in (d, rw e (rw valid), task)
  effective-IsValidRow id r (some j) e v =
      let (d, (valid, task), issue) = v.modified j e in (d, rw e (rw valid), task)

  module _ (rely : Rely (protocol codec) env) where
    -- With others that keep the rule of the table, after every sequence of calls from a valid
    -- table, each approval that is confirmed, executing, succeeded or failed has a confirming
    -- user, and its effective draft satisfies the schema and is for the target of the approval.
    -- Drafts that are given as instances satisfy their schema.
    pub serve-confirmed :
        (cs : List Call) (w : World (Table codec.Json)) (id : Text) (s : Record setup)
        → AreCalls cs
        → Valid codec w.db
        → Dict.lookup id (serve cs w).db ≡ some s
        → needs_confirmation s.status ≡ true
        → (is_some s.confirmed_by_user_id ≡ true)
          × ((d : ReviewDraft) × (effective_review_draft setup s ≡ ok d)
              × (d.task_id ≡ s.target_id))
    serve-confirmed cs w id s calls valid found past =
        let v = (serve-Reaches rely cs w calls valid).0 id s found in
        (v.by_user past, effective-IsValidRow id s s.user_modified_draft refl v)
