-- ===== src/Approval/Diagram.antt =====
-- The states of an approval as a diagram (agent-service/app/services/approval_lifecycle.py,
-- `_ALLOWED_TRANSITIONS`).
use productline_agent.Base.{◌≡◌, refl, Bool, true, false, arith}
use productline_agent.Approval.Record.{
  ApprovalStatus, draft, waiting_confirmation, confirmed, executing, succeeded, failed, cancelled,
  expired, stale,
}
use productline_agent.Approval.Service.{is_allowed}

infix 40 ◌⟶◌ ◌⟶*◌
pub data ◌⟶◌ : ApprovalStatus → ApprovalStatus → Type 0 where
  present : draft ⟶ waiting_confirmation
  discard : draft ⟶ cancelled
  accept : waiting_confirmation ⟶ confirmed
  refuse : waiting_confirmation ⟶ cancelled
  time_out : waiting_confirmation ⟶ expired
  outdate : waiting_confirmation ⟶ stale
  execute : confirmed ⟶ executing
  time_out_late : confirmed ⟶ expired
  outdate_late : confirmed ⟶ stale
  finish : executing ⟶ succeeded
  break : executing ⟶ failed
  outdate_running : executing ⟶ stale

pub ruleset edges = (
  present, discard, accept, refuse, time_out, outdate, execute, time_out_late, outdate_late, finish,
  break, outdate_running,
)

-- The table of the code and the diagram agree.
pub is_allowed-⟶ : (s t : ApprovalStatus) → is_allowed s t ≡ true → s ⟶ t
unfolding is_allowed
is_allowed-⟶ s t h = grind (arith, edges)

pub ⟶-is_allowed : {s t : ApprovalStatus} → s ⟶ t → is_allowed s t ≡ true
unfolding is_allowed
⟶-is_allowed present = refl
⟶-is_allowed _ = refl

pub data ◌⟶*◌ : ApprovalStatus → ApprovalStatus → Type 0 where
  here : {s : ApprovalStatus} → s ⟶* s
  then : {s t u : ApprovalStatus} → s ⟶ t → t ⟶* u → s ⟶* u

pub ⟶*-trans : {s t u : ApprovalStatus} → s ⟶* t → t ⟶* u → s ⟶* u
⟶*-trans here q = q
⟶*-trans (then e p) q = then e (⟶*-trans p q)

-- The user has decided, or nobody will: the content of the approval is fixed.
abbrev pub is_settled : ApprovalStatus → Bool
is_settled draft = false
is_settled waiting_confirmation = false
is_settled _ = true

abbrev pub is_terminal : ApprovalStatus → Bool
is_terminal succeeded = true
is_terminal failed = true
is_terminal cancelled = true
is_terminal expired = true
is_terminal stale = true
is_terminal _ = false

-- Behind a confirmation: nothing of it happens without one.
abbrev pub needs_confirmation : ApprovalStatus → Bool
needs_confirmation confirmed = true
needs_confirmation executing = true
needs_confirmation succeeded = true
needs_confirmation failed = true
needs_confirmation _ = false

step_settled : {s t : ApprovalStatus} → s ⟶ t → is_settled s ≡ true → is_settled t ≡ true
step_settled present h = cc
step_settled _ h = refl

pub path_settled : {s t : ApprovalStatus} → s ⟶* t → is_settled s ≡ true → is_settled t ≡ true
path_settled here h = h
path_settled (then e p) h = path_settled p (step_settled e h)

step_terminal : {s t : ApprovalStatus} → s ⟶ t → is_terminal s ≡ true → ⊥
step_terminal present h = cc
step_terminal _ h = cc

-- No path leaves a terminal status.
pub path_terminal : {s t : ApprovalStatus} → s ⟶* t → is_terminal s ≡ true → t ≡ s
path_terminal here h = refl
path_terminal (then e p) h = absurd (step_terminal e h)
