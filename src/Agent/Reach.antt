-- ===== src/Agent/Reach.antt =====
-- On the states that a run of the dynamic diagnosis reaches
-- (agent-service/app/workflows/dynamic_diagnosis.py).
use productline_agent.Base.{
  ◌≡◌, ◌≢◌, inl, inr, refl, sym, ◌∙◌, false, ◌&&◌, Option, none, some, Text, text_eq, ◌==◌, trim,
  Bool-cases, arith, some_injective,
}
use mathlib.Core.Path.{subst}
use productline_agent.Base.Pattern.{is_order_id}
use productline_agent.Agent.Actions.{ActionDecision, is_finish}
use productline_agent.Agent.State.{PageContext, validated_page, Wiring}
use productline_agent.Agent.Nodes.{State, initialize, started, refused_start}
use productline_agent.Agent.Graph.{
  Node, at_execute, at_exceptional, at_end, route_after_initialize, step,
}
use productline_agent.Agent.Invariants.{IsWithin, IsFresh, IsRunnable, At}
use productline_agent.Agent.Guarantees.{step-Lands}

-- The nodes that a run comes to, with its state there, before the end.
pub data Reaches (w : Wiring) (order : Text) (page : PageContext) : Node → State w → Type 0 where
  begun :
      Reaches w order page
        (route_after_initialize w (initialize w order page))
        (initialize w order page)
  onward :
      (n m : Node) (s t : State w)
      → Reaches w order page n s
      → n ≢ at_end
      → step w n s ≡ some (m, t)
      → Reaches w order page m t

module _ (w : Wiring) where
  open w use {role}

  abbrev Holds : Node × State w → Type 0
  Holds p = IsWithin w p.1 × At w p.0 p.1

  refused-Holds : (order : Text) → Holds (at_exceptional, refused_start w order)
  refused-Holds order = (record { rounds = omega arith; calls = omega arith; once = tt }, λ e. cc e)

  started-Holds :
      (order : Text) (page : Option PageContext)
      → Holds (route_after_initialize w (started w order page), started w order page)
  started-Holds order none = refused-Holds order
  started-Holds order (some page) =
      elim (Bool-cases
        (is_order_id (trim order) && (page.order_id == trim order) && (page.user_role == role))) [
          | inl valid ↦
              rw valid (
                record { rounds = omega arith; calls = omega arith; once = tt },
                (refl, refl, refl),
              )
          | inr invalid ↦ rw invalid (refused-Holds order)
        ]

  reached-Holds :
      (order : Text) (page : PageContext) (n : Node) (s : State w)
      → Reaches w order page n s
      → Holds (n, s)
  unfolding initialize
  reached-Holds order page _ _ begun = started-Holds order (validated_page page)
  reached-Holds order page _ _ (onward n m s t before more made) =
      let (within, there) = reached-Holds order page n s before in
      elim (step-Lands w n s more within there) [
        | inl (p, gone, g) ↦
            subst Holds (some_injective p (m, t) (sym gone ∙ made)) (g.within, g.there)
        | inr (none_made, why) ↦ absurd (cc (none_made, made))
      ]

  -- Before a run executes an action that is not the end, the call was not made before, there is
  -- room for it in the budget, and it is either a question for the retrieval, or a call of a
  -- registered tool that only reads, with the permissions and a valid input, on the order or one
  -- of the tasks of the state.
  pub ainvoke-IsRunnable :
      (order : Text) (page : PageContext) (s : State w) (d : ActionDecision)
      → Reaches w order page at_execute s
      → s.current_decision ≡ some d
      → is_finish d.action ≡ false
      → (call : Text) × (s.current_call_fingerprint ≡ some call)
        × IsFresh w call s
        × IsRunnable w s.facts d
  ainvoke-IsRunnable order page s d reached decided more =
      let (within, (errors, reason, pending, checked)) =
        reached-Holds order page at_execute s reached in
      checked d decided more
