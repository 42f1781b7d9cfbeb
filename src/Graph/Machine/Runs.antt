-- ===== src/Graph/Machine/Runs.antt =====
-- What holds of every state in which a run of the graph ends.
use mathlib.Core.Path.{subst}
use causal_ops.Prelude.{
  ℕ, ◌≡◌, refl, Option, none, some, List, arith, Option-cases, inl, inr, Result, ok, raised,
}
use causal_ops.Domain.Receipts.{ToolProposal}
use causal_ops.Dispatch.{DispatchResult, Dispatching, Raised, Minted}
use causal_ops.Graph.State.{Env, GraphState, RunEvent}
use causal_ops.Graph.Investigate.{investigate}
use causal_ops.Graph.DispatchTool.{dispatch_tool, absorb, normalize_evidence}
use causal_ops.Graph.FinalAssessment.{final_assessment}
use causal_ops.Graph.Escalation.{
  ResumeValue, Interrupted, fault, paused, resumed, escalation_interrupt,
}
use causal_ops.Graph.Report.{final_report}
use causal_ops.Graph.Inversion.{dispatch_tool-some, escalation_interrupt-resumed, final_report-some}
use causal_ops.Graph.Machine.{
  Node, at_investigate, at_dispatch_tool, at_normalize_evidence, at_final_assessment,
  at_escalation_interrupt, at_final_report, at_end, Visit, visit, by_route, always,
  after_investigate, after_assessment, after_interrupt, run,
}
use causal_ops.Graph.Machine.Budgeted.{Counted, investigate-Counted, final_assessment-Counted}
use causal_ops.Graph.Machine.Invariant.{MovesIn, EndsIn, run_keeps}

abbrev pub AtAny : (GraphState → Type 0) → Node → GraphState → Type 0
AtAny P node st = P st

routed :
    (P : GraphState → Type 0) (node : Option Node) (st : GraphState)
    → P st
    → MovesIn (AtAny P) (by_route node st)
routed P none st p = tt
routed P (some node) st p = p

module _ (env : Env) where
  absorbed-Counted :
      (st : GraphState) (p : ToolProposal) (events : List RunEvent)
      (r : Result Raised DispatchResult × Dispatching)
      → Counted env st
      → Counted env (absorb env st p events r)
  unfolding absorb
  absorbed-Counted st p events (ok r, d) c = c
  absorbed-Counted st p events (raised e, d) c = c

  dispatched-Counted :
      (m : Minted) (st : GraphState)
      → Counted env st
      → MovesIn (AtAny (Counted env)) (always at_normalize_evidence (dispatch_tool env st m))
  dispatched-Counted m st c = elim (Option-cases (dispatch_tool env st m)) [
    | inl bad ↦ rw bad tt
    | inr (st', e) ↦
        let (p, receipts, l, _, _, _, same) = dispatch_tool-some env st st' m e in
        rw e (rw same (absorbed-Counted st p _ _ c))
  ]

  investigated-Counted :
      (now : ℕ) (st : GraphState)
      → Counted env st
      → MovesIn (AtAny (Counted env)) (after_investigate (investigate env st now))
  investigated-Counted now st c = elim (Option-cases (investigate env st now)) [
    | inl bad ↦ rw bad tt
    | inr (st', e) ↦ rw e (investigate-Counted env st st' now e c)
  ]

  assessed-Counted :
      (now : ℕ) (st : GraphState)
      → Counted env st
      → MovesIn (AtAny (Counted env)) (after_assessment env (final_assessment env st now))
  assessed-Counted now st c = elim (Option-cases (final_assessment env st now)) [
    | inl bad ↦ rw bad tt
    | inr (st', e) ↦ rw e (routed (Counted env) _ st' (final_assessment-Counted env st st' now e c))
  ]

  resumed_same : (st st' : GraphState) → resumed st ≡ resumed st' → Counted env st → Counted env st'
  resumed_same st st' e c = let same : st ≡ st' = ground arith in subst (Counted env) same c

  resumed-Counted :
      (values : List ResumeValue) (st : GraphState) (r : Interrupted)
      → escalation_interrupt env st values ≡ r
      → Counted env st
      → MovesIn (AtAny (Counted env)) (after_interrupt r)
  resumed-Counted values st fault h c = tt
  resumed-Counted values st (paused reason) h c = tt
  resumed-Counted values st (resumed st') h c =
      let (_, _, _, _, _, _, _, _, _, _, e) = escalation_interrupt-resumed env st st' values h in
      resumed_same _ st' e c

  interrupted-Counted :
      (values : List ResumeValue) (st : GraphState)
      → Counted env st
      → MovesIn (AtAny (Counted env)) (after_interrupt (escalation_interrupt env st values))
  interrupted-Counted values st c =
      resumed-Counted values st (escalation_interrupt env st values) refl c

  reported-Counted :
      (now : ℕ) (st : GraphState)
      → Counted env st
      → MovesIn (AtAny (Counted env)) (always at_end (final_report env st now))
  reported-Counted now st c = elim (Option-cases (final_report env st now)) [
    | inl bad ↦ rw bad tt
    | inr (st', e) ↦
        let (_, _, _, calls, repairs) = final_report-some env st st' now e in
        rw (e, calls, repairs) c
  ]

  visit-Counted :
      (values : List ResumeValue) (v : Visit) (node : Node) (st : GraphState)
      → Counted env st
      → MovesIn (AtAny (Counted env)) (visit env values v node st)
  unfolding visit normalize_evidence
  visit-Counted values v at_investigate st c = investigated-Counted v.now st c
  visit-Counted values v at_dispatch_tool st c = dispatched-Counted v.minted st c
  visit-Counted values v at_normalize_evidence st c = routed (Counted env) _ _ c
  visit-Counted values v at_final_assessment st c = assessed-Counted v.now st c
  visit-Counted values v at_escalation_interrupt st c = interrupted-Counted values st c
  visit-Counted values v at_final_report st c = reported-Counted v.now st c
  visit-Counted values v at_end st c = c

  -- A run that starts with its counts of model calls and repairs within the budgets ends, wherever it
  -- ends, with at most `repairs` repairs and at most `model_calls` calls besides the repairs, whatever
  -- the model, the backends, the clocks and the owner give.
  pub run_within_budgets :
      (values : List ResumeValue) (visits : ℕ → Visit) (fuel : ℕ) (node : Node) (st : GraphState)
      → Counted env st
      → EndsIn (AtAny (Counted env)) (run env values visits fuel node st)
  run_within_budgets values visits = run_keeps _ env values visits (visit-Counted values)
