-- ===== src/Tools/Repeats.antt =====
-- On repeated calls within a run (agent-service/app/tools/base.py, agent-service/app/tools/deduplication.py).
use productline_agent.Base.{
  ◌<◌, ◌≡◌, ◌⊎◌, sym, ◌∙◌, Bool, true, false, some, Text, text_eq, contains, inl, inr, arith,
  Returns-some, some_injective,
}
use mathlib.Core.Path.{subst}
use productline_agent.Tools.Retry.{Float, Upstream}
use productline_agent.Tools.Ledger.{Ledger, contains-reserved, contains-reserved_self}
use productline_agent.Tools.Execute.{ToolContext, Tool, Execution, execute}
use productline_agent.Tools.Gates.{IsBlocked, IsLetThrough, execute_lem, Fails}

-- The ledgers of a run, from one on: every execution of any tool passes its ledger on.
pub data Later (float : Float) : Ledger → Ledger → Type 1 where
  here : {l : Ledger} → Later float l l
  next :
      {l m : Ledger} (tool : Tool float) (context : ToolContext) (raw : tool.Raw)
      (force_refresh : Bool) (upstream : Upstream float tool.Out) (x : Execution tool)
      → execute tool context raw force_refresh upstream l ≡ some x
      → Later float x.ledger m
      → Later float l m

module _ {float : Float} where
  -- What an execution leaves is one of the two.
  pub execute_cases :
      (tool : Tool float) (context : ToolContext) (raw : tool.Raw) (force_refresh : Bool)
      (upstream : Upstream float tool.Out) (ledger : Ledger) (x : Execution tool)
      → execute tool context raw force_refresh upstream ledger ≡ some x
      → IsBlocked tool context raw force_refresh upstream ledger x
        ⊎ IsLetThrough tool context raw force_refresh upstream ledger x
  execute_cases tool context raw force_refresh upstream ledger x e =
      rw e at (execute_lem tool context raw force_refresh upstream ledger)

  execute_keeps :
      (tool : Tool float) (context : ToolContext) (raw : tool.Raw) (force_refresh : Bool)
      (upstream : Upstream float tool.Out) (ledger : Ledger) (x : Execution tool)
      → execute tool context raw force_refresh upstream ledger ≡ some x
      → (t : Text) → contains t ledger.fingerprints ≡ true
      → contains t x.ledger.fingerprints ≡ true
  execute_keeps tool context raw force_refresh upstream ledger x e t h =
      elim (execute_cases tool context raw force_refresh upstream ledger x e) [
        | inl b ↦ subst (λ (l : Ledger). contains t l.fingerprints ≡ true) (sym b.unrecorded) h
        | inr p ↦
            subst (λ (l : Ledger). contains t l.fingerprints ≡ true) (sym p.recorded)
              (contains-reserved (tool.fingerprint tool.name p.input) t ledger h)
      ]

  Later-keeps :
      {l m : Ledger}
      → Later float l m
      → (t : Text) → contains t l.fingerprints ≡ true
      → contains t m.fingerprints ≡ true
  Later-keeps here t h = h
  Later-keeps (next tool context raw force_refresh upstream x e later) t h =
      Later-keeps later t (execute_keeps tool context raw force_refresh upstream _ x e t h)

  module _ (tool : Tool float) where
    -- A recorded call that is asked for again does not pass, unless a refresh is forced.
    stopped :
        (context : ToolContext) (raw : tool.Raw) (upstream : Upstream float tool.Out) (m : Ledger)
        (input : tool.Input) (y : Execution tool)
        → tool.validate_input raw ≡ some input
        → contains (tool.fingerprint tool.name input) m.fingerprints ≡ true
        → ¬ IsLetThrough tool context raw false upstream m y
    stopped context raw upstream m input y validated recorded q =
        let same : input ≡ q.input = some_injective input q.input (sym validated ∙ q.validated) in
        let known : contains (tool.fingerprint tool.name q.input) m.fingerprints ≡ true =
          subst (λ (i : tool.Input). contains (tool.fingerprint tool.name i) m.fingerprints ≡ true)
            same recorded in
        ground (arith, known, q.fresh)

    -- After an execution that made a call, and any executions of any tools of the same run, an
    -- execution of the same tool with the same validated input, where no refresh is forced, makes
    -- no call, leaves the ledger as it is and brings no data.
    pub execute_repeated :
        (context : ToolContext) (raw : tool.Raw) (force_refresh : Bool)
        (upstream : Upstream float tool.Out) (l m : Ledger) (x : Execution tool)
        → execute tool context raw force_refresh upstream l ≡ some x
        → 0 < x.calls
        → Later float x.ledger m
        → (again : ToolContext) (raw' : tool.Raw) (upstream' : Upstream float tool.Out)
        → tool.validate_input raw' ≡ tool.validate_input raw
        → (y : Execution tool) × (execute tool again raw' false upstream' m ≡ some y)
          × (y.calls ≡ 0)
          × (y.ledger ≡ m)
          × Fails y.result
    execute_repeated context raw force_refresh upstream l m x e called later again raw' upstream'
          same =
        elim (execute_cases tool context raw force_refresh upstream l x e) [
          | inl b ↦ absurd (omega (arith, b.uncalled))
          | inr p ↦
              let recorded = Later-keeps later (tool.fingerprint tool.name p.input) (
                subst
                  (λ (k : Ledger).
                    contains (tool.fingerprint tool.name p.input) k.fingerprints ≡ true)
                  (sym p.recorded)
                  (contains-reserved_self (tool.fingerprint tool.name p.input) l)) in
              let (y, returned, passes) =
                Returns-some _ (execute tool again raw' false upstream' m)
                  (execute_lem tool again raw' false upstream' m) in
              elim passes [
                | inl b ↦ (y, returned, b.uncalled, b.unrecorded, b.fails)
                | inr q ↦
                    absurd
                      (stopped again raw' upstream' m p.input y (same ∙ p.validated) recorded q)
              ]
        ]
