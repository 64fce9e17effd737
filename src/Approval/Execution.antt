-- ===== src/Approval/Execution.antt =====
-- On the execution lock (agent-service/app/services/approval_lifecycle.py, `mark_executing`).
use productline_agent.Base.{
  some_injective, Bool, true, ◌≡◌, ◌≢◌, refl, sym, ap, ◌∙◌, Text, World, ok, text_eq, true, Bool,
  arith,
}
use productline_agent.Base.Safety.{Rely, Reaches}
use productline_agent.Approval.Record.{ApprovalStatus, executing, confirmed}
use productline_agent.Approval.Store.{Table}
use productline_agent.Approval.Service.{
  Setup, Record, is_allowed, identifier, approval_id, mark_executing,
}
use productline_agent.Approval.Diagram.{
  present, accept, execute, finish, break, outdate_running, ◌⟶◌, ◌⟶*◌, here, then, is_terminal,
}
use productline_agent.Approval.Rows.{protocol, Valid}
use productline_agent.Approval.Moves.{transition-Moved}

only_confirmed : (s : ApprovalStatus) → is_allowed s executing ≡ true → s ≡ confirmed
unfolding is_allowed
only_confirmed s h = ground arith

-- The execution has begun, or the approval has ended.
abbrev past_lock : ApprovalStatus → Bool
past_lock executing = true
past_lock s = is_terminal s

step_past : {s t : ApprovalStatus} → s ⟶ t → past_lock s ≡ true → past_lock t ≡ true
step_past finish h = refl
step_past break h = refl
step_past outdate_running h = refl
step_past present h = cc
step_past accept h = cc
step_past execute h = refl
step_past _ h = refl

path_past : {s t : ApprovalStatus} → s ⟶* t → past_lock s ≡ true → past_lock t ≡ true
path_past here h = h
path_past (then e path) h = path_past path (step_past e h)

module _ (setup : Setup) where
  open setup use {codec, env}

  -- With others that keep the rule of the table, if `mark_executing` has returned for an approval
  -- in a valid table, then in no state that is reached afterwards does `mark_executing` return for
  -- the same approval.
  pub mark_executing_once :
      (given again id : Text) (w later : World (Table codec.Json)) (r : Record setup)
      → Rely (protocol codec) env
      → identifier approval_id given ≡ ok id
      → identifier approval_id again ≡ ok id
      → Valid codec w.db
      → (mark_executing setup given w).0 ≡ ok r
      → Reaches (protocol codec) (mark_executing setup given w).1.db later.db
      → (s : Record setup) → (mark_executing setup again later).0 ≢ ok s
  unfolding mark_executing
  mark_executing_once given again id w later r rely named renamed valid first reached s second =
      let (from, allowed, moved) =
        transition-Moved setup rely given id executing w r valid named first in
      let (since, reallowed, removed) =
        transition-Moved setup rely again id executing later s reached.0 renamed second in
      let (x, at_x, evolved) = reached.1 id r moved.saved in
      let (y, at_y, evolved') = removed.reached.1 id x at_x in
      let same : y ≡ removed.old = some_injective y removed.old (sym at_y ∙ removed.found) in
      let status : y.status ≡ confirmed =
        ap (λ (z : Record setup). z.status) same
        ∙ removed.in_status
        ∙ only_confirmed since reallowed in
      let locked : past_lock y.status ≡ true =
        path_past evolved'.path (path_past evolved.path (rw moved.target)) in
      cc (ap past_lock status, locked)
