-- ===== src/Runs/Kept.antt =====
-- On rows of runs that keep what they were created with (agent-service/app/services/run_lifecycle.py).
use productline_agent.Base.{◌∙◌, ap, ◌≡◌, sym, true, false, not, Text, is_some, arith, text_eq}
use productline_agent.Runs.Record.{
  AgentRunStatus, pending, same_run_status, is_finished, AgentRun, run_checks,
}
use productline_agent.Runs.Diagram.{◌⇢*◌, stay, step, is_under_way, ending, IsValidRun, RunBecomes}

under_way_started :
    (s : AgentRunStatus) → is_under_way s ≡ true → not (same_run_status s pending) ≡ true
under_way_started s h = ground arith

under_way_open : (s : AgentRunStatus) → is_under_way s ≡ true → is_finished s ≡ false
under_way_open s h = ground arith

finished_started :
    (s : AgentRunStatus) → is_finished s ≡ true → not (same_run_status s pending) ≡ true
finished_started s h = ground arith

module _ {Json : Type 0} where
  -- `s` has what `r` was created with, and its start.
  pub record Keeps (r s : AgentRun Json) : Type 0 where
    pub keeps_id : s.run_id ≡ r.run_id
    pub keeps_session : s.session_id ≡ r.session_id
    pub keeps_request : s.request_message_id ≡ r.request_message_id
    pub keeps_version : s.version_snapshot ≡ r.version_snapshot
    pub keeps_page : s.page_context_snapshot ≡ r.page_context_snapshot
    pub keeps_start : s.started_at ≡ r.started_at

  pub kept-RunBecomes :
      (r s : AgentRun Json)
      → Keeps r s
      → r.status ⇢* s.status
      → is_under_way r.status ≡ true
      → RunBecomes r s
  kept-RunBecomes r s k path way = record {
    path = path;
    same_id = k.keeps_id;
    same_session = k.keeps_session;
    same_request = k.keeps_request;
    same_version = k.keeps_version;
    same_page = k.keeps_page;
    same_start = λ h. k.keeps_start;
    final = λ h. cc (under_way_open r.status way, h);
  }

  -- The end of a run that is under way.
  pub ended :
      (id : Text) (r s : AgentRun Json)
      → IsValidRun id r
      → is_under_way r.status ≡ true
      → is_finished s.status ≡ true
      → run_checks s ≡ true
      → Keeps r s
      → is_some s.finished_at ≡ true
      → is_some s.duration_ms ≡ true
      → is_some s.termination_reason ≡ true
      → IsValidRun id s × RunBecomes r s
  ended id r s v way over checks k finish duration reason = (
    record {
      key = k.keeps_id ∙ v.key;
      checks = checks;
      started =
          ap is_some k.keeps_start
          ∙ v.started
          ∙ under_way_started r.status way
          ∙ sym (finished_started s.status over);
      finished = finish ∙ sym over;
      measured = λ h. duration;
      explained = λ h. reason;
    },
    kept-RunBecomes r s k (step (ending r.status s.status way over) stay) way,
  )

  -- A step between two statuses that are under way.
  pub moved :
      (id : Text) (r s : AgentRun Json)
      → IsValidRun id r
      → is_under_way r.status ≡ true
      → is_under_way s.status ≡ true
      → run_checks s ≡ true
      → Keeps r s
      → is_some s.finished_at ≡ false
      → r.status ⇢* s.status
      → IsValidRun id s × RunBecomes r s
  moved id r s v way still checks k finish path = (
    record {
      key = k.keeps_id ∙ v.key;
      checks = checks;
      started =
          ap is_some k.keeps_start
          ∙ v.started
          ∙ under_way_started r.status way
          ∙ sym (under_way_started s.status still);
      finished = finish ∙ sym (under_way_open s.status still);
      measured = λ h. cc (under_way_open s.status still, h);
      explained = λ h. cc (under_way_open s.status still, h);
    },
    kept-RunBecomes r s k path way,
  )
