-- ===== src/Runs/Safety.antt =====
-- On the statements and transitions of runs and the protocol of their table
-- (agent-service/app/services/run_lifecycle.py).
use productline_agent.Base.{
  ℕ, ◌≡◌, refl, true, false, ◌&&◌, Option, none, some, List, [], ◌∷◌, Text, text_eq, arith, err,
  raise, lift, or_raise, ◌>>=◌, timestamp, Bool-cases, inl, inr, pure,
}
use productline_agent.Base.Dict
use productline_agent.Base.Tables.{table_protocol, AllValid, Continues-refl, update_if-Reaches}
use productline_agent.Base.Safety.{
  Protocol, Rely, Reaches, Safe, SafeAt, SafeAt-return, SafeAt-lift, SafeAt-or_raise,
  SafeAt-instant, SafeAt-reads, SafeAt-writes, SafeAt-assoc,
}
use productline_agent.Runs.Record.{
  AgentRunStatus, running, same_run_status, same_run_status-eq, is_finished, AgentRun, run_checks,
}
use productline_agent.Runs.Service.{
  RunSetup, RunError, run_not_found, invalid_run_transition, run_identifier, run_id_, Change,
  transition_run, save_router_result, with_changes, source_found, is_open, Run, RunTable, RunAction,
  refused, report_status, run_or, transition, timestamp_, run_validation, checked_count,
  checked_reason, nonnegative_ms, elapsed, finished_at, token_counts, tool_call_count, duration_ms,
  termination_reason,
}
use productline_agent.Runs.Operations.{
  Ending, usage_or_zero, terminal_changes, terminal_duration, found_duration, present_start,
}
use productline_agent.Runs.Diagram.{stay, run_protocol}
use productline_agent.Runs.Changes.{IsSound}

module _ (setup : RunSetup) where
  open setup use {Json, millis, env}

  abbrev pub runs_protocol : Protocol (RunTable setup)
  runs_protocol = table_protocol run_protocol

  abbrev pub IsSafeRun : {A : Type 0} → RunAction setup A → Type 0
  IsSafeRun m = Safe runs_protocol m

  transition_run-Reaches :
      (id : Text) (s t : AgentRunStatus) (cs : List (Change Json)) (db : RunTable setup)
      → AllValid run_protocol db
      → IsSound s t cs
      → Reaches runs_protocol db (transition_run id s t cs db).1
  unfolding transition_run
  transition_run-Reaches id s t cs db valid sound =
      update_if-Reaches run_protocol
        (λ (r : AgentRun Json). run_checks r && source_found db r.source_run_id) id
        (λ (r : AgentRun Json). same_run_status r.status s) (with_changes t cs) db valid
        λ r v same passed. sound id r v (same_run_status-eq r.status s same) (ground arith)

  open_unfinished : (s : AgentRunStatus) → is_open s ≡ true → is_finished s ≡ false
  open_unfinished s h = ground arith

  pub save_router_result-Reaches :
      (id : Text) (j : Json) (db : RunTable setup)
      → AllValid run_protocol db
      → Reaches runs_protocol db (save_router_result id j db).1
  unfolding save_router_result
  save_router_result-Reaches id j db valid =
      update_if-Reaches run_protocol run_checks id (λ (r : AgentRun Json). is_open r.status)
        (λ (r : AgentRun Json). record r { router_result = some j }) db valid
        λ r v opened passed. (
          record {
            key = v.key;
            checks = passed;
            started = v.started;
            finished = v.finished;
            measured = v.measured;
            explained = v.explained;
          },
          record {
            path = stay;
            same_id = refl;
            same_session = refl;
            same_request = refl;
            same_version = refl;
            same_page = refl;
            same_start = λ h. refl;
            final = λ h. cc (open_unfinished r.status opened, h);
          },
        )

  module _ (rely : Rely runs_protocol env) where
    pub report_status-Safe :
        (id : Text) (e : AgentRunStatus → RunError) → IsSafeRun (report_status setup id e)
    unfolding report_status
    report_status-Safe id e db =
        SafeAt-reads runs_protocol env rely db (Dict.lookup id)
          (λ o. or_raise o (run_not_found id) >>= λ current. raise (e current.status))
          λ later reached.
            SafeAt-or_raise runs_protocol env rely later (Dict.lookup id later) (run_not_found id)
              (λ current. raise (e current.status))
              λ current found.
                SafeAt-return runs_protocol {A = Run setup} env rely later (err (e current.status))

    pub run_or-Safe :
        (conflict : RunAction setup (Run setup)) (o : Option (Run setup))
        → IsSafeRun conflict
        → IsSafeRun (run_or setup conflict o)
    run_or-Safe conflict none safe db turn ticks valid = safe db turn ticks valid
    run_or-Safe conflict (some r) safe db turn ticks valid = (valid, Continues-refl run_protocol db)

    pub transition-Safe :
        (given : Text) (s t : AgentRunStatus) (cs : List (Change Json))
        → IsSound s t cs
        → IsSafeRun (transition setup given s t cs)
    unfolding transition
    transition-Safe given s t cs sound db =
        SafeAt-lift runs_protocol env rely db (run_identifier run_id_ 128 given) _ λ id parsed.
          SafeAt-writes runs_protocol env rely db
            (λ d. let (r, d') = transition_run id s t cs d in (refused setup r, d'))
            (run_or setup (report_status setup id (λ current. invalid_run_transition id current t)))
            (λ later reached. transition_run-Reaches id s t cs later reached.0 sound)
            λ row after.
              run_or-Safe (report_status setup id (λ current. invalid_run_transition id current t))
                row (report_status-Safe id (λ current. invalid_run_transition id current t)) after

    -- What `terminal_changes` returns is a full account of the end.
    abbrev pub account : Ending → ℕ → ℕ → ℕ → Text → List (Change Json)
    account ending finish calls duration reason =
        finished_at (some finish)
        ∷ token_counts (usage_or_zero ending.token_usage)
        ∷ tool_call_count calls
        ∷ duration_ms (some duration)
        ∷ termination_reason (some reason)
        ∷ []

    terminal_duration-Safe :
        {A : Type 0} (finish : ℕ) (o : Option (Run setup)) (k : ℕ → RunAction setup A)
        (db : RunTable setup)
        → ((n : ℕ) → SafeAt runs_protocol db (k n))
        → SafeAt runs_protocol db (terminal_duration setup finish o >>= k)
    terminal_duration-Safe finish none k db safe = safe 0
    terminal_duration-Safe finish (some r) k db safe =
        elim (Bool-cases (same_run_status r.status running)) [
          | inl now ↦ rw now (found)
          | inr before ↦ rw before (safe 0)
        ]
      where
        found : SafeAt runs_protocol db (found_duration setup finish r >>= k)
        found =
            SafeAt-assoc runs_protocol db (lift (present_start setup r.started_at))
              (λ start. lift (nonnegative_ms (elapsed millis start finish))) k
              (SafeAt-lift runs_protocol env rely db (present_start setup r.started_at) _ λ start h.
                SafeAt-lift runs_protocol env rely db (nonnegative_ms (elapsed millis start finish))
                  _ λ n h'. safe n)

    pub terminal_changes-Safe :
        {A : Type 0} (given : Text) (ending : Ending) (k : List (Change Json) → RunAction setup A)
        → ((finish calls duration : ℕ) (reason : Text)
            → IsSafeRun (k (account ending finish calls duration reason)))
        → IsSafeRun (terminal_changes setup given ending >>= k)
    unfolding terminal_changes
    terminal_changes-Safe given ending k safe db =
        SafeAt-assoc runs_protocol db (lift (run_identifier run_id_ 128 given)) _ k (
          SafeAt-lift runs_protocol env rely db (run_identifier run_id_ 128 given) _ λ id parsed.
            SafeAt-assoc runs_protocol db (lift (checked_count ending.tool_calls)) _ k (
              SafeAt-lift runs_protocol env rely db (checked_count ending.tool_calls) _
                λ calls counted.
                  SafeAt-assoc runs_protocol db (lift (checked_reason ending.reason)) _ k (
                    SafeAt-lift runs_protocol env rely db (checked_reason ending.reason) _
                      λ reason stable.
                        SafeAt-assoc runs_protocol db (timestamp env (run_validation timestamp_)) _
                          k
                          (SafeAt-instant runs_protocol env rely db (run_validation timestamp_) _
                            λ finish.
                              SafeAt-reads runs_protocol env rely db (Dict.lookup id)
                                (λ o.
                                  terminal_duration setup finish o
                                  >>= (λ n. full finish calls n reason)
                                  >>= k)
                                λ later reached.
                                  SafeAt-assoc runs_protocol later
                                    (terminal_duration setup finish (Dict.lookup id later))
                                    (λ n. full finish calls n reason) k
                                    (terminal_duration-Safe finish (Dict.lookup id later)
                                      (λ n. full finish calls n reason >>= k) later
                                      λ duration. safe finish calls duration reason later)))))
      where
        full : ℕ → ℕ → ℕ → Text → RunAction setup (List (Change Json))
        full finish calls duration reason = pure (account ending finish calls duration reason)
