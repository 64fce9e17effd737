-- ===== src/Runs/Guarantees.antt =====
-- On sequences of calls of the run service (agent-service/app/services/run_lifecycle.py), with
-- other transactions between their statements.
use productline_agent.Base.{◌≡◌, true, Option, List, [], ◌∷◌, Text, text_eq, Scalar, World}
use productline_agent.Base.Tables.{AllValid, Continues, Continues-refl}
use productline_agent.Base.Safety.{Rely, Reaches-trans}
use productline_agent.Approval.Record.{ApprovalStatus}
use productline_agent.Runs.Record.{AgentRunStatus, running, waiting_approval, RunTokenUsage}
use productline_agent.Runs.Service.{RunSetup, Run, RunTable, RunAction}
use productline_agent.Runs.Operations.{
  VersionSnapshot, Ending, create_run, record_router_result, mark_running, mark_succeeded,
  mark_failed, mark_waiting_approval, record_waiting_observability, resume_approval_execution,
  finish_approval_run,
}
use productline_agent.Runs.Diagram.{is_under_way, run_protocol}
use productline_agent.Runs.Changes.{resume-IsSound}
use productline_agent.Runs.Safety.{runs_protocol, IsSafeRun, transition-Safe}
use productline_agent.Runs.OperationSafety.{
  create_run-Safe, record_router_result-Safe, mark_running-Safe, mark_succeeded-Safe,
  mark_failed-Safe, mark_waiting_approval-Safe, record_waiting_observability-Safe,
  finish_approval_run-Safe,
}

module _ (setup : RunSetup) where
  open setup use {Json, env, millis}

  -- The calls of the service.
  pub data RunCall : Type 0 where
    creating_run : Text → Text → VersionSnapshot Json → Option Text → Option Json → RunCall
    routing : Text → Json → RunCall
    starting resuming : Text → RunCall
    succeeding_run : Text → Json → Ending → RunCall
    failing_run : Text → Text → Text → Ending → RunCall
    suspending : Text → Option Text → Option Json → RunCall
    observing : Text → RunTokenUsage → Scalar → RunCall
    finishing :
        Text
        → AgentRunStatus
        → ApprovalStatus
        → Option Text
        → Option Text
        → AgentRunStatus
        → RunCall

  unfoldable pub run_call : RunCall → RunAction setup (Run setup)
  run_call (creating_run id session version message page) =
      create_run setup id session version message page
  run_call (routing id result) = record_router_result setup id result
  run_call (starting id) = mark_running setup id
  run_call (resuming id) = resume_approval_execution setup id
  run_call (succeeding_run id result ending) = mark_succeeded setup id result ending
  run_call (failing_run id code step ending) = mark_failed setup id code step ending
  run_call (suspending id source result) = mark_waiting_approval setup id source result
  run_call (observing id usage calls) = record_waiting_observability setup id usage calls
  run_call (finishing id target approval code step expected) =
      finish_approval_run setup id target approval code step expected

  -- The calls of one coroutine, one after another; an error of one does not stop the next.
  unfoldable pub run_calls : List RunCall → World (RunTable setup) → World (RunTable setup)
  run_calls [] w = w
  run_calls (c ∷ cs) w = run_calls cs (run_call c w).1

  -- The callers of `finish_approval_run` expect a run that is under way.
  abbrev pub IsRunCall : RunCall → Type 0
  IsRunCall (finishing id target approval code step expected) = is_under_way expected ≡ true
  IsRunCall _ = Unit

  abbrev pub AreRunCalls : List RunCall → Type 0
  AreRunCalls [] = Unit
  AreRunCalls (c ∷ cs) = IsRunCall c × AreRunCalls cs

  module _ (rely : Rely (runs_protocol setup) env) where
    run_call-Safe : (c : RunCall) → IsRunCall c → IsSafeRun setup (run_call c)
    unfolding run_call resume_approval_execution
    run_call-Safe (creating_run id session version message page) good =
        create_run-Safe setup rely id session version message page
    run_call-Safe (routing id result) good = record_router_result-Safe setup rely id result
    run_call-Safe (starting id) good = mark_running-Safe setup rely id
    run_call-Safe (resuming id) good =
        transition-Safe setup rely id waiting_approval running _ resume-IsSound
    run_call-Safe (succeeding_run id result e) good = mark_succeeded-Safe setup rely id result e
    run_call-Safe (failing_run id code at_step e) good =
        mark_failed-Safe setup rely id code at_step e
    run_call-Safe (suspending id source result) good =
        mark_waiting_approval-Safe setup rely id source result
    run_call-Safe (observing id usage calls) good =
        record_waiting_observability-Safe setup rely id usage calls
    run_call-Safe (finishing id target approval code at_step expected) good =
        finish_approval_run-Safe setup rely id target approval code at_step expected good

    -- From a table of runs whose rows are all valid, and with others that keep the rule of the
    -- table, every sequence of the nine calls of the service, where a call that finishes an
    -- approval run expects a run that is under way, ends in a table whose rows are all valid, and
    -- each row of the first table is still there: its status has followed the diagram of the
    -- states, what it was created with and the time it started are unchanged, and nothing of a run
    -- that is over has changed.
    pub run_calls-Reaches :
        (cs : List RunCall) (w : World (RunTable setup))
        → AreRunCalls cs
        → AllValid run_protocol w.db
        → AllValid run_protocol (run_calls cs w).db
          × Continues run_protocol w.db (run_calls cs w).db
    unfolding run_calls
    run_calls-Reaches [] w calls valid = (valid, Continues-refl run_protocol w.db)
    run_calls-Reaches (c ∷ cs) w calls valid =
        let first = run_call-Safe c calls.0 w.db w.turn w.ticks valid in
        Reaches-trans (runs_protocol setup) w.db (run_call c w).1.db
          (run_calls cs (run_call c w).1).db first.1
          (run_calls-Reaches cs (run_call c w).1 calls.1 first.0)
