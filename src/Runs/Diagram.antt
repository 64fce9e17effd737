-- ===== src/Runs/Diagram.antt =====
-- The states of a run as a diagram (agent-service/app/services/run_lifecycle.py), the rule of its
-- row, and how the row may change.
use productline_agent.Base.{◌≡◌, refl, ◌∙◌, Bool, true, false, not, Text, is_some, text_eq}
use productline_agent.Base.Tables.{RowProtocol}
use productline_agent.Runs.Record.{
  AgentRunStatus, pending, running, succeeded, failed, waiting_approval, cancelled, same_run_status,
  is_finished, AgentRun, run_checks,
}

infix 40 ◌⇢◌ ◌⇢*◌
pub data ◌⇢◌ : AgentRunStatus → AgentRunStatus → Type 0 where
  start : pending ⇢ running
  succeed : running ⇢ succeeded
  fail : running ⇢ failed
  abandon : running ⇢ cancelled
  suspend : running ⇢ waiting_approval
  resume : waiting_approval ⇢ running
  succeed_waiting : waiting_approval ⇢ succeeded
  fail_waiting : waiting_approval ⇢ failed
  abandon_waiting : waiting_approval ⇢ cancelled

pub data ◌⇢*◌ : AgentRunStatus → AgentRunStatus → Type 0 where
  stay : {s : AgentRunStatus} → s ⇢* s
  step : {s t u : AgentRunStatus} → s ⇢ t → t ⇢* u → s ⇢* u

pub ⇢*-trans : {s t u : AgentRunStatus} → s ⇢* t → t ⇢* u → s ⇢* u
⇢*-trans stay q = q
⇢*-trans (step e p) q = step e (⇢*-trans p q)

-- The run is under way: it can be ended.
abbrev pub is_under_way : AgentRunStatus → Bool
is_under_way running = true
is_under_way waiting_approval = true
is_under_way _ = false

-- Every end of a run that is under way is in the diagram.
pub ending : (s t : AgentRunStatus) → is_under_way s ≡ true → is_finished t ≡ true → s ⇢ t
ending running succeeded h k = succeed
ending running failed h k = fail
ending running cancelled h k = abandon
ending waiting_approval succeeded h k = succeed_waiting
ending waiting_approval failed h k = fail_waiting
ending waiting_approval cancelled h k = abandon_waiting
ending pending t h k = cc
ending succeeded t h k = cc
ending failed t h k = cc
ending cancelled t h k = cc
ending running pending h k = cc
ending running running h k = cc
ending running waiting_approval h k = cc
ending waiting_approval pending h k = cc
ending waiting_approval running h k = cc
ending waiting_approval waiting_approval h k = cc

module _ {Json : Type 0} where
  -- A run has a start from when it runs, and an end, a duration and a reason from when it is over.
  pub record IsValidRun (id : Text) (r : AgentRun Json) : Type 0 where
    pub key : r.run_id ≡ id
    pub checks : run_checks r ≡ true
    pub started : is_some r.started_at ≡ not (same_run_status r.status pending)
    pub finished : is_some r.finished_at ≡ is_finished r.status
    pub measured : is_finished r.status ≡ true → is_some r.duration_ms ≡ true
    pub explained : is_finished r.status ≡ true → is_some r.termination_reason ≡ true

  -- The status follows the diagram, what the run was created with stays, it starts once, and nothing
  -- of a run that is over changes.
  pub record RunBecomes (r s : AgentRun Json) : Type 0 where
    pub path : r.status ⇢* s.status
    pub same_id : s.run_id ≡ r.run_id
    pub same_session : s.session_id ≡ r.session_id
    pub same_request : s.request_message_id ≡ r.request_message_id
    pub same_version : s.version_snapshot ≡ r.version_snapshot
    pub same_page : s.page_context_snapshot ≡ r.page_context_snapshot
    pub same_start : is_some r.started_at ≡ true → s.started_at ≡ r.started_at
    pub final : is_finished r.status ≡ true → s ≡ r

  pub RunBecomes-refl : (r : AgentRun Json) → RunBecomes r r
  RunBecomes-refl r = record {
    path = stay;
    same_id = refl;
    same_session = refl;
    same_request = refl;
    same_version = refl;
    same_page = refl;
    same_start = λ h. refl;
    final = λ h. refl;
  }

  pub RunBecomes-trans : (r s t : AgentRun Json) → RunBecomes r s → RunBecomes s t → RunBecomes r t
  RunBecomes-trans r s t e f = record {
    path = ⇢*-trans e.path f.path;
    same_id = f.same_id ∙ e.same_id;
    same_session = f.same_session ∙ e.same_session;
    same_request = f.same_request ∙ e.same_request;
    same_version = f.same_version ∙ e.same_version;
    same_page = f.same_page ∙ e.same_page;
    same_start = λ h. f.same_start (rw (e.same_start h) h) ∙ e.same_start h;
    final = λ h. f.final (rw (e.final h) h) ∙ e.final h;
  }

  abbrev pub run_protocol : RowProtocol (AgentRun Json)
  run_protocol = record {
    IsValid = IsValidRun;
    Becomes = RunBecomes;
    becomes_refl = RunBecomes-refl;
    becomes_trans = RunBecomes-trans;
  }
