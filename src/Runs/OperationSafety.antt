-- ===== src/Runs/OperationSafety.antt =====
-- On each operation of the run service and the protocol of its table
-- (agent-service/app/services/run_lifecycle.py).
use productline_agent.Base.{
  reads, ◌≡◌, refl, true, not, Option, none, some, [], ◌∷◌, ◌++◌, Text, codes, text_eq, arith, ok,
  pure, or_raise, ◌>>=◌, Scalar,
}
use productline_agent.Base.Dict
use productline_agent.Base.Tables.{insert_new, insert_new-Reaches}
use productline_agent.Base.Safety.{
  Rely, SafeAt-return, SafeAt-lift, SafeAt-or_raise, SafeAt-guard, SafeAt-instant, SafeAt-reads,
  SafeAt-writes,
}
use productline_agent.Approval.Record.{ApprovalStatus}
use productline_agent.Runs.Record.{
  AgentRunStatus, pending, running, succeeded, failed, waiting_approval, is_finished, RunTokenUsage,
}
use productline_agent.Runs.Service.{
  RunSetup, RunError, run_not_found, run_identifier, optional_identifier, run_id_, session_id_,
  request_message_id_, version_snapshot_, page_context_, router_result_, source_run_id_,
  final_result_, target_status_, error_code_, error_step_, timestamp_, run_validation,
  json_snapshot, optional_snapshot, Run, RunAction, refused, save_router_result, run_or,
  report_status, checked_count, elapsed, nonnegative_ms, status_value, transition, error_code,
  error_step, final_result,
}
use productline_agent.Runs.Operations.{
  VersionSnapshot, Ending, names_itself, new_run, insert_checks, present_start, approved_result,
  create_run, record_router_result, mark_running, mark_succeeded, mark_failed,
  mark_waiting_approval, record_waiting_observability, finish_from, finish_approval_run,
  usage_or_zero,
}
use productline_agent.Runs.Diagram.{is_under_way, IsValidRun, run_protocol}
use productline_agent.Runs.Changes.{
  start-IsSound, end-IsSound, approval-IsSound, suspend-IsSound, observe-IsSound,
}
use productline_agent.Runs.Safety.{
  runs_protocol, IsSafeRun, save_router_result-Reaches, report_status-Safe, run_or-Safe,
  transition-Safe, terminal_changes-Safe,
}

module _ (setup : RunSetup) where
  open setup use {Json, env, millis}

  new_run-IsValidRun :
      (id session : Text) (message : Option Text) (version : Json) (page : Option Json)
      → insert_checks setup (new_run setup id session message version page) ≡ true
      → IsValidRun id (new_run setup id session message version page)
  new_run-IsValidRun id session message version page passed = record {
    key = refl;
    checks = ground arith;
    started = refl;
    finished = refl;
    measured = λ h. cc;
    explained = λ h. cc;
  }

  module _ (rely : Rely (runs_protocol setup) env) where
    pub create_run-Safe :
        (id session : Text) (version : VersionSnapshot Json) (message : Option Text)
        (page : Option Json)
        → IsSafeRun setup (create_run setup id session version message page)
    unfolding create_run
    create_run-Safe given session version message page db =
        SafeAt-lift (runs_protocol setup) env rely db (run_identifier run_id_ 128 given) _ λ id h1.
          SafeAt-lift (runs_protocol setup) env rely db (run_identifier session_id_ 128 session) _
            λ session_id h2.
              SafeAt-lift (runs_protocol setup) env rely db
                (optional_identifier request_message_id_ 128 message) _
                λ message_id h3.
                  SafeAt-guard (runs_protocol setup) env rely db (not version.is_captured)
                    (run_validation version_snapshot_) _
                    λ captured.
                      SafeAt-lift (runs_protocol setup) env rely db
                        (json_snapshot setup version_snapshot_ version.dump) _
                        λ snapshot h4.
                          SafeAt-lift (runs_protocol setup) env rely db
                            (optional_snapshot setup page_context_ page) _
                            λ context h5.
                              SafeAt-writes (runs_protocol setup) env rely db
                                (λ d.
                                  let (r, d') =
                                    insert_new (insert_checks setup) id
                                      (new_run setup id session_id message_id snapshot context) d in
                                  (refused setup r, d'))
                                pure
                                (λ later reached.
                                  insert_new-Reaches run_protocol (insert_checks setup) id
                                    (new_run setup id session_id message_id snapshot context) later
                                    reached.0
                                    (new_run-IsValidRun id session_id message_id snapshot context))
                                λ row after.
                                  SafeAt-return (runs_protocol setup) {E = RunError} {A = Run setup}
                                    env rely after (ok row)

    pub record_router_result-Safe :
        (id : Text) (j : Json) → IsSafeRun setup (record_router_result setup id j)
    unfolding record_router_result
    record_router_result-Safe given j db =
        SafeAt-lift (runs_protocol setup) env rely db (run_identifier run_id_ 128 given) _ λ id h1.
          SafeAt-lift (runs_protocol setup) env rely db (json_snapshot setup router_result_ j) _
            λ snapshot h2.
              SafeAt-writes (runs_protocol setup) env rely db
                (λ d. let (r, d') = save_router_result id snapshot d in (refused setup r, d'))
                (run_or setup (report_status setup id (λ current. run_validation router_result_)))
                (λ later reached. save_router_result-Reaches setup id snapshot later reached.0)
                λ row after.
                  run_or-Safe setup rely
                    (report_status setup id (λ current. run_validation router_result_)) row
                    (report_status-Safe setup rely id (λ current. run_validation router_result_))
                    after

    pub mark_running-Safe : (id : Text) → IsSafeRun setup (mark_running setup id)
    unfolding mark_running
    mark_running-Safe given db =
        SafeAt-instant (runs_protocol setup) env rely db (run_validation timestamp_) _
          λ at. transition-Safe setup rely given pending running _ (start-IsSound at) db

    pub mark_succeeded-Safe :
        (id : Text) (j : Json) (e : Ending) → IsSafeRun setup (mark_succeeded setup id j e)
    unfolding mark_succeeded
    mark_succeeded-Safe given j e db =
        SafeAt-lift (runs_protocol setup) env rely db (json_snapshot setup final_result_ j) _
          λ snapshot h1.
            terminal_changes-Safe setup rely given e
              (λ changes. transition setup given running succeeded (
                changes ++ (final_result (some snapshot) ∷ error_code none ∷ error_step none ∷ [])))
              (λ finish calls duration reason.
                transition-Safe setup rely given running succeeded _ (
                  end-IsSound running succeeded finish calls duration (usage_or_zero e.token_usage)
                    reason (some snapshot) none none refl refl))
              db

    pub mark_failed-Safe :
        (id code at_step : Text) (e : Ending)
        → IsSafeRun setup (mark_failed setup id code at_step e)
    unfolding mark_failed
    mark_failed-Safe given code at_step e db =
        SafeAt-lift (runs_protocol setup) env rely db (run_identifier error_code_ 64 code) _ λ c h1.
          SafeAt-lift (runs_protocol setup) env rely db (run_identifier error_step_ 128 at_step) _
            λ s h2.
              terminal_changes-Safe setup rely given e
                (λ changes.
                  transition setup given running failed (
                    changes
                    ++ (final_result none ∷ error_code (some c) ∷ error_step (some s) ∷ [])))
                (λ finish calls duration reason. transition-Safe setup rely given running failed _ (
                  end-IsSound running failed finish calls duration (usage_or_zero e.token_usage)
                    reason none (some c) (some s) refl refl))
                db

    pub mark_waiting_approval-Safe :
        (id : Text) (source : Option Text) (j : Option Json)
        → IsSafeRun setup (mark_waiting_approval setup id source j)
    unfolding mark_waiting_approval
    mark_waiting_approval-Safe given source j db =
        SafeAt-lift (runs_protocol setup) env rely db
          (optional_identifier source_run_id_ 128 source) _
          λ source_id h1.
            SafeAt-guard (runs_protocol setup) env rely db (names_itself setup given source_id)
              (run_validation source_run_id_) _
              λ other.
                SafeAt-lift (runs_protocol setup) env rely db
                  (optional_snapshot setup final_result_ j) _
                  λ snapshot h2.
                    transition-Safe setup rely given running waiting_approval _
                      (suspend-IsSound source_id (codes "WAITING_CONFIRMATION") snapshot) db

    pub record_waiting_observability-Safe :
        (id : Text) (u : RunTokenUsage) (calls : Scalar)
        → IsSafeRun setup (record_waiting_observability setup id u calls)
    unfolding record_waiting_observability
    record_waiting_observability-Safe given u calls db =
        SafeAt-lift (runs_protocol setup) env rely db (checked_count calls) _ λ n h1.
          transition-Safe setup rely given waiting_approval waiting_approval _ (observe-IsSound u n)
            db

    pub finish_from-Safe :
        (id : Text) (target : AgentRunStatus) (approval : ApprovalStatus)
        (code at_step : Option Text) (expected : AgentRunStatus) (current : Run setup)
        → is_under_way expected ≡ true
        → is_finished target ≡ true
        → IsSafeRun setup (finish_from setup id target approval code at_step expected current)
    unfolding finish_from
    finish_from-Safe given target approval code at_step expected current way over db =
        SafeAt-lift (runs_protocol setup) env rely db (present_start setup current.started_at) _
          λ start h1.
            SafeAt-instant (runs_protocol setup) env rely db (run_validation timestamp_) _ λ finish.
              SafeAt-lift (runs_protocol setup) env rely db
                (nonnegative_ms (elapsed millis start finish)) _
                λ duration h2.
                  SafeAt-lift (runs_protocol setup) env rely db
                    (optional_identifier error_code_ 64 code) _
                    λ c h3.
                      SafeAt-lift (runs_protocol setup) env rely db
                        (optional_identifier error_step_ 128 at_step) _
                        λ s h4.
                          transition-Safe setup rely given expected target _
                            (approval-IsSound expected target finish duration
                              (codes "APPROVAL_" ++ status_value target) c s
                              (approved_result setup approval current.final_result) way over)
                            db

    pub finish_approval_run-Safe :
        (id : Text) (target : AgentRunStatus) (approval : ApprovalStatus)
        (code at_step : Option Text) (expected : AgentRunStatus)
        → is_under_way expected ≡ true
        → IsSafeRun setup (finish_approval_run setup id target approval code at_step expected)
    unfolding finish_approval_run
    finish_approval_run-Safe given target approval code at_step expected way db =
        SafeAt-guard (runs_protocol setup) env rely db (not (is_finished target))
          (run_validation target_status_)
          (reads env (Dict.lookup given) >>= λ o. or_raise o (run_not_found given) >>= finish)
          λ over.
            SafeAt-reads (runs_protocol setup) env rely db (Dict.lookup given)
              (λ o. or_raise o (run_not_found given) >>= finish)
              λ later reached.
                SafeAt-or_raise (runs_protocol setup) env rely later (Dict.lookup given later)
                  (run_not_found given) finish
                  λ current found.
                    finish_from-Safe given target approval code at_step expected current way
                      (ground arith) later
      where
        finish : Run setup → RunAction setup (Run setup)
        finish = finish_from setup given target approval code at_step expected
