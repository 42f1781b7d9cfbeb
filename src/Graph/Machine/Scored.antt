-- ===== src/Graph/Machine/Scored.antt =====
-- The mode of scored runs, `suppress_escalation` of src/causalops/graph.py.
use causal_ops.Prelude.{
  ℕ, zero, suc, ◌≡◌, ◌≢◌, refl, true, Option, none, some, List, is_some, Bool-cases, Option-cases,
  inl, inr,
}
use causal_ops.Graph.State.{Env, GraphState, rebuild_receipts, tools_left}
use causal_ops.Graph.Investigate.{investigate}
use causal_ops.Graph.DispatchTool.{dispatch_tool, normalize_evidence}
use causal_ops.Graph.FinalAssessment.{final_assessment}
use causal_ops.Graph.Escalation.{ResumeValue, Pause}
use causal_ops.Graph.Report.{final_report}
use causal_ops.Graph.Machine.{
  Node, at_investigate, at_dispatch_tool, at_normalize_evidence, at_final_assessment,
  at_escalation_interrupt, at_final_report, at_end, may_continue, route_after_investigate,
  route_after_normalize, route_after_final_assessment, Visit, visit, Moved, raised_in, waiting, to,
  by_route, always, after_investigate, after_assessment, Ended, awaiting, follow, run,
}

-- Neither a pause nor a step towards one.
abbrev Quiet : Moved → Type 0
Quiet raised_in = Unit
Quiet (waiting _) = ⊥
Quiet (to at_escalation_interrupt _) = ⊥
Quiet (to _ _) = Unit

module _ (env : Env) where
  investigate-Quiet : (st : Option GraphState) → Quiet (after_investigate st)
  unfolding route_after_investigate
  investigate-Quiet none = tt
  investigate-Quiet (some st) = elim (Bool-cases (is_some st.pending_proposal)) [
    | inl pending ↦ rw pending tt
    | inr idle ↦ elim (Bool-cases (is_some st.failure_reason)) [
      | inl ended ↦ rw (idle, ended) tt
      | inr open' ↦ rw (idle, open') tt
    ]
  ]

  normalize-Quiet :
      (st : GraphState) (now : ℕ) → Quiet (by_route (route_after_normalize st env.budgets now) st)
  unfolding route_after_normalize
  normalize-Quiet st now = elim (Bool-cases (is_some st.failure_reason)) [
    | inl ended ↦ rw ended tt
    | inr open' ↦ rw open' (elim (Option-cases (rebuild_receipts st)) [
      | inl bad ↦ rw bad tt
      | inr (receipts, e) ↦ rw e (elim (Option-cases (tools_left receipts env.budgets)) [
        | inl bad ↦ rw bad tt
        | inr (tools, e') ↦ rw e' (elim (Bool-cases (may_continue st env.budgets tools now)) [
          | inl more ↦ rw more tt
          | inr last ↦ rw last tt
        ])
      ])
    ])
  ]

  assessment-Quiet :
      env.suppress_escalation ≡ true → (st : Option GraphState) → Quiet (after_assessment env st)
  unfolding route_after_final_assessment
  assessment-Quiet scored none = tt
  assessment-Quiet scored (some st) = elim (Bool-cases (is_some st.failure_reason)) [
    | inl ended ↦ rw ended tt
    | inr open' ↦ rw (open', scored) tt
  ]

  dispatch-Quiet : (st : Option GraphState) → Quiet (always at_normalize_evidence st)
  dispatch-Quiet none = tt
  dispatch-Quiet (some st) = tt

  report-Quiet : (st : Option GraphState) → Quiet (always at_end st)
  report-Quiet none = tt
  report-Quiet (some st) = tt

  visit-Quiet :
      (values : List ResumeValue) (v : Visit) (node : Node) (st : GraphState)
      → env.suppress_escalation ≡ true
      → node ≢ at_escalation_interrupt
      → Quiet (visit env values v node st)
  unfolding visit
  visit-Quiet values v at_investigate st scored h = investigate-Quiet (investigate env st v.now)
  visit-Quiet values v at_dispatch_tool st scored h = dispatch-Quiet (dispatch_tool env st v.minted)
  visit-Quiet values v at_normalize_evidence st scored h =
      normalize-Quiet (normalize_evidence env st) v.route_now
  visit-Quiet values v at_final_assessment st scored h =
      assessment-Quiet scored (final_assessment env st v.now)
  visit-Quiet values v at_escalation_interrupt st scored h = absurd (h refl)
  visit-Quiet values v at_final_report st scored h = report-Quiet (final_report env st v.now)
  visit-Quiet values v at_end st scored h = tt

  module _ (values : List ResumeValue) (visits : ℕ → Visit) (pause : Pause)
      (left : GraphState) where
    follow_goes_on :
        (again : Node → GraphState → Ended) (node : Node) (st : GraphState) (m : Moved)
        → ((node' : Node) (st' : GraphState)
            → node' ≢ at_escalation_interrupt
            → again node' st' ≢ awaiting pause left)
        → Quiet m
        → follow env values visits again node st m ≢ awaiting pause left
    follow_goes_on again node st raised_in rest q = λ e. cc
    follow_goes_on again node st (waiting p) rest q = absurd q
    follow_goes_on again node st (to at_escalation_interrupt st') rest q = absurd q
    follow_goes_on again node st (to at_end st') rest q = λ e. cc
    follow_goes_on again node st (to at_investigate st') rest q = rest at_investigate st' (λ e. cc)
    follow_goes_on again node st (to at_dispatch_tool st') rest q =
        rest at_dispatch_tool st' (λ e. cc)
    follow_goes_on again node st (to at_normalize_evidence st') rest q =
        rest at_normalize_evidence st' (λ e. cc)
    follow_goes_on again node st (to at_final_assessment st') rest q =
        rest at_final_assessment st' (λ e. cc)
    follow_goes_on again node st (to at_final_report st') rest q =
        rest at_final_report st' (λ e. cc)

    -- A run of a graph that is built with `suppress_escalation`, from any node but the escalation
    -- interrupt, never ends in a pause for the owner.
    pub scored_run_never_waits :
        (fuel : ℕ) (node : Node) (st : GraphState)
        → env.suppress_escalation ≡ true
        → node ≢ at_escalation_interrupt
        → run env values visits fuel node st ≢ awaiting pause left
    unfolding run
    scored_run_never_waits zero node st scored h = λ e. cc
    scored_run_never_waits (suc fuel) node st scored h =
        follow_goes_on (run env values visits fuel) node st _
          (λ node' st' n. scored_run_never_waits fuel node' st' scored n)
          (visit-Quiet values (visits fuel) node st scored h)
