-- ===== src/Approval/Tests.antt =====
-- The approval service on concrete rows, clocks and calls.
use productline_agent.Base.{
  ap, ◌∙◌, Result, ◌≢◌, is_some, lstrip, rstrip, text_beq, strip, is_space, some_injective, sym,
  arith, ◌≡◌, refl, ℕ, true, none, some, List, [], ◌∷◌, Text, codes, World, aware, int, pos, ok,
  text_eq, false,
}
use productline_agent.Base.Dict
use productline_agent.Base.Dict.{lookup}
use productline_agent.Base.Dict.{lookup-insert_self}
use productline_agent.Base.Safety.{Reaches, Rely}
use productline_agent.Approval.Draft.{ReviewDraft, Codec, approved, rejected, is_review_draft}
use productline_agent.Approval.Record.{
  row_checks, ApprovalStatus, ApprovalRecord, confirmed, executing, succeeded, submit_review,
  write_review_result,
}
use productline_agent.Approval.Store.{update_where, transition_status, Table}
use productline_agent.Approval.Service.{
  ApprovalError, transition, is_approval_id, is_allowed, allowed_transitions, transition_from,
  compare_and_set, require_current, Setup, Record, instance_of, mark_executing, identifier,
  approval_id,
}
use productline_agent.Approval.Drafting.{effective_review_draft}
use productline_agent.Approval.Rows.{
  Valid, Evolves, Evolves-refl, IsValidRow, insert-Valid, protocol,
}
use productline_agent.Approval.Guarantees.{
  perform, Call, creating, modifying, confirming, presenting, executing_, succeeding, serve,
  AreCalls, serve-Reaches, serve-effective_draft, serve-terminal, serve-confirmed, perform,
}
use productline_agent.Approval.Execution.{mark_executing_once}
use productline_agent.Approval.Moves.{transition-Moved}
use productline_agent.Approval.Outcomes.{Moved}

abbrev reviewed : ReviewDraft
reviewed = record {
  task_id = codes "TASK-7";
  issue_id = codes "ISSUE-7";
  conclusion = approved;
  problem_summary = codes "the offset is gone";
  review_comment = codes "agreed";
  specification_references = [];
  suggested_rework = record { required = false; type = none };
}

abbrev declined : ReviewDraft
declined = record reviewed { conclusion = rejected; review_comment = codes "not yet" }

abbrev identity_codec : Codec
identity_codec = record {
  Json = ReviewDraft;
  dump = λ d. d;
  read = λ j. some j;
  read_dump = λ d h. refl;
}

abbrev alone : Setup
alone = record {
  codec = identity_codec;
  env = record { others = λ n db. db; now = λ n. aware n };
  run_exists = λ run. true;
}

alone-Rely : Rely (protocol identity_codec) alone.env
alone-Rely n db valid = (valid, Evolves-refl identity_codec db)

abbrev id_1 : Text
id_1 = codes "A1"

abbrev user : Text
user = codes "U1"

abbrev calls : List (Call alone)
calls =
    creating id_1 (codes "R1") submit_review (instance_of reviewed) write_review_result
      (codes "TASK-7") (int (pos 3))
    ∷ presenting id_1
    ∷ modifying id_1 (instance_of declined)
    ∷ confirming id_1 user
    ∷ executing_ id_1
    ∷ executing_ id_1
    ∷ succeeding id_1
    ∷ []

abbrev start : World (Table ReviewDraft)
start = record { db = []; turn = 0; ticks = 0 }

reviewed-is_review_draft : is_review_draft reviewed ≡ true
unfolding is_review_draft text_beq strip is_space
reviewed-is_review_draft = refl

declined-is_review_draft : is_review_draft declined ≡ true
unfolding is_review_draft text_beq strip is_space
declined-is_review_draft = refl

calls-AreCalls : AreCalls alone calls
calls-AreCalls =
    (reviewed-is_review_draft, (tt, (declined-is_review_draft, (tt, (tt, (tt, (tt, tt)))))))

nil-Valid : Valid identity_codec []
unfolding Dict.lookup
nil-Valid id r h = cc

abbrev after : ApprovalStatus → ApprovalRecord ReviewDraft
after s = record {
  approval_id = id_1;
  run_id = some (codes "R1");
  status = s;
  operation_type = submit_review;
  original_draft = reviewed;
  user_modified_draft = some declined;
  pending_tool_name = write_review_result;
  target_id = codes "TASK-7";
  target_version = 3;
  confirmed_by_user_id = some user;
  confirmed_at = some 9;
  execution_result = none;
  updated_at = 9;
}

abbrev holding : ApprovalRecord ReviewDraft → World (Table ReviewDraft)
holding r = record { db = Dict.insert id_1 r []; turn = 0; ticks = 0 }

after-IsValidRow :
    (s : ApprovalStatus) (at : ℕ)
    → IsValidRow identity_codec id_1 (record (after s) { updated_at = at })
unfolding row_checks
after-IsValidRow s at = record {
  key = refl;
  checks = refl;
  bounded = omega arith;
  by_user = λ h. refl;
  original = (reviewed, (rw reviewed-is_review_draft, refl));
  modified = λ j e. (
    declined,
    (rw (sym (some_injective declined j e)) (rw declined-is_review_draft), refl),
    refl,
  );
}

holding-Valid :
    (s : ApprovalStatus) (at : ℕ)
    → Valid identity_codec (holding (record (after s) { updated_at = at })).db
holding-Valid s at =
    insert-Valid identity_codec id_1 (record (after s) { updated_at = at }) [] nil-Valid
      (after-IsValidRow s at)

serve-Reaches_example :
    Valid identity_codec (serve alone calls start).db
    × Evolves identity_codec start.db (serve alone calls start).db
serve-Reaches_example = serve-Reaches alone alone-Rely calls start calls-AreCalls nil-Valid

abbrev late_calls : List (Call alone)
late_calls = modifying id_1 (instance_of reviewed) ∷ executing_ id_1 ∷ []

serve-effective_draft_example :
    (s : Record alone) × (Dict.lookup id_1 (serve alone late_calls (holding (after confirmed))).db
      ≡ some s)
    × (effective_review_draft alone s ≡ effective_review_draft alone (after confirmed))
    × (s.confirmed_by_user_id ≡ some user)
    × (s.target_version ≡ 3)
serve-effective_draft_example =
    serve-effective_draft alone alone-Rely late_calls (holding (after confirmed)) id_1
      (after confirmed) (reviewed-is_review_draft, (tt, tt)) (holding-Valid confirmed 9)
      (lookup-insert_self id_1 (after confirmed) []) refl

serve-terminal_example :
    (s : Record alone) × (Dict.lookup id_1 (serve alone late_calls (holding (after succeeded))).db
      ≡ some s)
    × (s.status ≡ succeeded)
serve-terminal_example =
    serve-terminal alone alone-Rely late_calls (holding (after succeeded)) id_1 (after succeeded)
      (reviewed-is_review_draft, (tt, tt)) (holding-Valid succeeded 9)
      (lookup-insert_self id_1 (after succeeded) []) refl

abbrev locked : Record alone
locked = record (after executing) { updated_at = 0 }

executed :
    mark_executing alone id_1 (holding (after confirmed))
    ≡ (ok locked, record { db = Dict.insert id_1 locked []; turn = 2; ticks = 1 })
unfolding mark_executing transition identifier is_approval_id is_allowed allowed_transitions
    transition_from compare_and_set transition_status update_where row_checks require_current
    Dict.lookup Dict.insert text_beq strip is_space lstrip rstrip
executed = refl

id_1-identifier : identifier approval_id id_1 ≡ ok id_1
unfolding identifier is_approval_id strip is_space lstrip rstrip
id_1-identifier = refl

abbrev executing_world : World (Table ReviewDraft)
executing_world = record { db = Dict.insert id_1 locked []; turn = 2; ticks = 1 }

executed-transition :
    (transition alone id_1 executing none (holding (after confirmed))).0 ≡ ok locked
unfolding mark_executing
executed-transition = rw executed

transition-Moved_example :
    (s : ApprovalStatus) × (is_allowed s executing ≡ true)
    × Moved alone id_1 s executing
        (holding (after confirmed)).db
        (transition alone id_1 executing none (holding (after confirmed))).1.db
        locked
transition-Moved_example =
    transition-Moved alone alone-Rely id_1 id_1 executing (holding (after confirmed)) locked
      (holding-Valid confirmed 9) id_1-identifier executed-transition

executed-Reaches :
    Reaches
      (protocol identity_codec)
      (mark_executing alone id_1 (holding (after confirmed))).1.db
      executing_world.db
executed-Reaches =
    rw executed (holding-Valid executing 0, Evolves-refl identity_codec executing_world.db)

executed-row : (mark_executing alone id_1 (holding (after confirmed))).0 ≡ ok locked
executed-row = rw executed

mark_executing_once_example : (mark_executing alone id_1 executing_world).0 ≢ ok locked
mark_executing_once_example =
    mark_executing_once alone id_1 id_1 id_1 (holding (after confirmed)) executing_world locked
      alone-Rely id_1-identifier id_1-identifier (holding-Valid confirmed 9) executed-row
      executed-Reaches locked

serve-executed :
    Dict.lookup id_1 (serve alone (executing_ id_1 ∷ []) (holding (after confirmed))).db
    ≡ some locked
unfolding serve perform
serve-executed =
    ap
      (λ (x : Result ApprovalError (Record alone) × World (Table ReviewDraft)).
        Dict.lookup id_1 x.1.db)
      executed
    ∙ lookup-insert_self id_1 locked []

serve-confirmed_example :
    (is_some locked.confirmed_by_user_id ≡ true)
    × ((d : ReviewDraft) × (effective_review_draft alone locked ≡ ok d)
        × (d.task_id ≡ codes "TASK-7"))
serve-confirmed_example =
    serve-confirmed alone alone-Rely (executing_ id_1 ∷ []) (holding (after confirmed)) id_1 locked
      (tt, tt) (holding-Valid confirmed 9) serve-executed refl
