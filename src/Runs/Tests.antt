-- ===== src/Runs/Tests.antt =====
-- The run service on concrete rows, clocks and calls.
use productline_agent.Base.{
  ◌≡◌, refl, ◌*◌, ◌/◌, true, none, some, List, [], ◌∷◌, Text, codes, World, aware, int, pos,
  text_eq,
}
use productline_agent.Base.Dict
use productline_agent.Base.Dict.{Dict, lookup-insert_self}
use productline_agent.Base.Safety.{Rely}
use productline_agent.Base.Tables.{AllValid, Continues, Continues-refl, insert-Reaches}
use productline_agent.Approval.Record.{cancelled}
use productline_agent.Runs.Record
use productline_agent.Runs.Record.{
  AgentRun, AgentRunStatus, succeeded, running, failed, waiting_approval, run_checks,
}
use productline_agent.Runs.Service.{RunSetup, Run}
use productline_agent.Runs.Operations.{Ending}
use productline_agent.Runs.Diagram.{IsValidRun, run_protocol}
use productline_agent.Runs.Safety.{runs_protocol}
use productline_agent.Runs.Guarantees.{
  RunCall, creating_run, routing, starting, resuming, succeeding_run, failing_run, suspending,
  observing, finishing, run_calls, AreRunCalls, run_calls-Reaches,
}

abbrev alone : RunSetup
alone = record {
  Json = Text;
  snapshot = λ j. some j;
  with_approval = λ status j. j;
  millis = λ n. n / 1000;
  session_exists = λ id. true;
  message_exists = λ id. true;
  env = record { others = λ n db. db; now = λ n. aware (1000 * n) };
}

alone-Rely : Rely (runs_protocol alone) alone.env
alone-Rely n db valid = (valid, Continues-refl run_protocol db)

abbrev run_1 : Text
run_1 = codes "R1"

abbrev done : Ending
done = record {
  token_usage = some (record { input_tokens = 3; output_tokens = 4; total_tokens = 7 });
  tool_calls = int (pos 2);
  reason = codes "COMPLETED";
}

-- A run that waits for an approval, is resumed, and ends; then it is to fail, in vain.
abbrev calls : List (RunCall alone)
calls =
    creating_run run_1 (codes "S1") (record { is_captured = true; dump = codes "v" }) none none
    ∷ routing run_1 (codes "route")
    ∷ starting run_1
    ∷ suspending run_1 none (some (codes "draft"))
    ∷ observing run_1 (record { input_tokens = 1; output_tokens = 1; total_tokens = 2 })
        (int (pos 1))
    ∷ resuming run_1
    ∷ succeeding_run run_1 (codes "result") done
    ∷ failing_run run_1 (codes "E") (codes "step") done
    ∷ finishing run_1 Record.cancelled cancelled none none waiting_approval
    ∷ []

calls-AreRunCalls : AreRunCalls alone calls
calls-AreRunCalls = (tt, (tt, (tt, (tt, (tt, (tt, (tt, (tt, (refl, tt)))))))))

nil-AllValid : AllValid {Row = AgentRun Text} run_protocol []
unfolding Dict.lookup
nil-AllValid id r h = cc

run_calls-Reaches_example :
    AllValid run_protocol (run_calls alone calls (record { db = []; turn = 0; ticks = 0 })).db
    × Continues run_protocol [] (run_calls alone calls (record { db = []; turn = 0; ticks = 0 })).db
run_calls-Reaches_example =
    run_calls-Reaches alone alone-Rely calls (record { db = []; turn = 0; ticks = 0 })
      calls-AreRunCalls nil-AllValid

abbrev finished : Run alone
finished = record {
  run_id = run_1;
  session_id = codes "S1";
  request_message_id = none;
  source_run_id = none;
  status = succeeded;
  version_snapshot = codes "v";
  page_context_snapshot = none;
  router_result = none;
  input_token_count = 3;
  output_token_count = 4;
  total_token_count = 7;
  tool_call_count = 2;
  duration_ms = some 5;
  termination_reason = some (codes "COMPLETED");
  final_result = some (codes "result");
  error_code = none;
  error_step = none;
  started_at = some 1000;
  finished_at = some 6000;
}

abbrev holding : World (Dict Text (Run alone))
holding = record { db = Dict.insert run_1 finished []; turn = 0; ticks = 0 }

finished-IsValidRun : IsValidRun run_1 finished
unfolding run_checks
finished-IsValidRun = record {
  key = refl;
  checks = refl;
  started = refl;
  finished = refl;
  measured = λ h. refl;
  explained = λ h. refl;
}

no_row : (r : Run alone) → Dict.lookup run_1 [] ≡ some r → ⊥
unfolding Dict.lookup
no_row r h = cc

holding-AllValid : AllValid run_protocol holding.db
holding-AllValid =
    (insert-Reaches run_protocol run_1 finished [] nil-AllValid finished-IsValidRun
      (λ r h. absurd (no_row r h))).0
