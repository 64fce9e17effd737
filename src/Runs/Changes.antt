-- ===== src/Runs/Changes.antt =====
-- On the changes that each transition of a run writes
-- (agent-service/app/services/run_lifecycle.py).
use productline_agent.Base.{
  ◌∙◌, ℕ, ◌≡◌, refl, true, false, Option, none, some, List, [], ◌∷◌, Text, is_some, text_eq,
}
use productline_agent.Runs.Record.{
  AgentRunStatus, pending, running, waiting_approval, is_finished, AgentRun, RunTokenUsage,
  run_checks,
}
use productline_agent.Runs.Service.{
  Change, source_run_id, termination_reason, error_code, error_step, started_at, finished_at,
  duration_ms, final_result, token_counts, tool_call_count, with_changes,
}
use productline_agent.Runs.Operations.{no_usage, result_change}
use productline_agent.Runs.Diagram.{
  stay, step, start, suspend, resume, is_under_way, IsValidRun, RunBecomes,
}
use productline_agent.Runs.Kept.{ended, moved}

module _ {Json : Type 0} where
  -- The transition from `expected` to `target` with these changes keeps the rule.
  abbrev pub IsSound : AgentRunStatus → AgentRunStatus → List (Change Json) → Type 0
  IsSound expected target cs =
      (id : Text) (r : AgentRun Json)
      → IsValidRun id r
      → r.status ≡ expected
      → run_checks (with_changes target cs r) ≡ true
      → IsValidRun id (with_changes target cs r) × RunBecomes r (with_changes target cs r)

  pub start-IsSound :
      (at : ℕ)
      → IsSound pending running (
          started_at (some at)
          ∷ finished_at none
          ∷ final_result none
          ∷ error_code none
          ∷ error_step none
          ∷ token_counts no_usage
          ∷ tool_call_count 0
          ∷ duration_ms none
          ∷ termination_reason none
          ∷ [])
  start-IsSound at id r v e checks = (
    record {
      key = v.key;
      checks = checks;
      started = refl;
      finished = refl;
      measured = λ h. cc;
      explained = λ h. cc;
    },
    record {
      path = rw e (step start stay);
      same_id = refl;
      same_session = refl;
      same_request = refl;
      same_version = refl;
      same_page = refl;
      same_start = λ h. cc (pending_unstarted e, h);
      final = λ h. cc (pending_open r.status e, h);
    },
  )
    where
      pending_unstarted : r.status ≡ pending → is_some r.started_at ≡ false
      pending_unstarted e = v.started ∙ rw e refl

      pending_open : (s : AgentRunStatus) → s ≡ pending → is_finished s ≡ false
      pending_open s e = rw e

  pub end-IsSound :
      (s t : AgentRunStatus) (at calls duration : ℕ) (u : RunTokenUsage) (reason : Text)
      (result : Option Json) (code at_step : Option Text)
      → is_under_way s ≡ true
      → is_finished t ≡ true
      → IsSound s t (
          finished_at (some at)
          ∷ token_counts u
          ∷ tool_call_count calls
          ∷ duration_ms (some duration)
          ∷ termination_reason (some reason)
          ∷ final_result result
          ∷ error_code code
          ∷ error_step at_step
          ∷ [])
  end-IsSound s t at calls duration u reason result code at_step way over id r v e checks =
      ended id r
        (with_changes t
          (finished_at (some at)
            ∷ token_counts u
            ∷ tool_call_count calls
            ∷ duration_ms (some duration)
            ∷ termination_reason (some reason)
            ∷ final_result result
            ∷ error_code code
            ∷ error_step at_step
            ∷ [])
          r)
        v (rw e way) over checks
        (record {
          keeps_id = refl;
          keeps_session = refl;
          keeps_request = refl;
          keeps_version = refl;
          keeps_page = refl;
          keeps_start = refl;
        })
        refl refl refl

  pub approval-IsSound :
      (s t : AgentRunStatus) (at duration : ℕ) (reason : Text) (code at_step : Option Text)
      (result : Option Json)
      → is_under_way s ≡ true
      → is_finished t ≡ true
      → IsSound s t (
          finished_at (some at)
          ∷ duration_ms (some duration)
          ∷ termination_reason (some reason)
          ∷ error_code code
          ∷ error_step at_step
          ∷ final_result result
          ∷ [])
  approval-IsSound s t at duration reason code at_step result way over id r v e checks =
      ended id r
        (with_changes t
          (finished_at (some at)
            ∷ duration_ms (some duration)
            ∷ termination_reason (some reason)
            ∷ error_code code
            ∷ error_step at_step
            ∷ final_result result
            ∷ [])
          r)
        v (rw e way) over checks
        (record {
          keeps_id = refl;
          keeps_session = refl;
          keeps_request = refl;
          keeps_version = refl;
          keeps_page = refl;
          keeps_start = refl;
        })
        refl refl refl

  pub suspend-IsSound :
      (source : Option Text) (reason : Text) (result : Option Json)
      → IsSound running waiting_approval (
          source_run_id source
          ∷ finished_at none
          ∷ termination_reason (some reason)
          ∷ result_change result)
  suspend-IsSound source reason none id r v e checks =
      moved id r
        (with_changes waiting_approval
          (source_run_id source ∷ finished_at none ∷ termination_reason (some reason) ∷ []) r)
        v (rw e) refl checks
        (record {
          keeps_id = refl;
          keeps_session = refl;
          keeps_request = refl;
          keeps_version = refl;
          keeps_page = refl;
          keeps_start = refl;
        })
        refl (rw e (step suspend stay))
  suspend-IsSound source reason (some j) id r v e checks =
      moved id r
        (with_changes waiting_approval
          (source_run_id source
            ∷ finished_at none
            ∷ termination_reason (some reason)
            ∷ final_result (some j)
            ∷ [])
          r)
        v (rw e) refl checks
        (record {
          keeps_id = refl;
          keeps_session = refl;
          keeps_request = refl;
          keeps_version = refl;
          keeps_page = refl;
          keeps_start = refl;
        })
        refl (rw e (step suspend stay))

  unfinished :
      (id : Text) (r : AgentRun Json)
      → IsValidRun id r
      → r.status ≡ waiting_approval
      → is_some r.finished_at ≡ false
  unfinished id r v e = v.finished ∙ rw e refl

  pub observe-IsSound :
      (u : RunTokenUsage) (calls : ℕ)
      → IsSound waiting_approval waiting_approval (token_counts u ∷ tool_call_count calls ∷ [])
  observe-IsSound u calls id r v e checks =
      moved id r (with_changes waiting_approval (token_counts u ∷ tool_call_count calls ∷ []) r) v
        (rw e) refl checks
        (record {
          keeps_id = refl;
          keeps_session = refl;
          keeps_request = refl;
          keeps_version = refl;
          keeps_page = refl;
          keeps_start = refl;
        })
        (unfinished id r v e) (rw e stay)

  pub resume-IsSound : IsSound waiting_approval running (termination_reason none ∷ [])
  resume-IsSound id r v e checks =
      moved id r (with_changes running (termination_reason none ∷ []) r) v (rw e) refl checks
        (record {
          keeps_id = refl;
          keeps_session = refl;
          keeps_request = refl;
          keeps_version = refl;
          keeps_page = refl;
          keeps_start = refl;
        })
        (unfinished id r v e) (rw e (step resume stay))
