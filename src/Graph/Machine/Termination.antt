-- ===== src/Graph/Machine/Termination.antt =====
-- A run ends: every turn that proposes a check raises `model_turn`, and the router stops at the
-- budget of model calls.
use causal_ops.Prelude.{
  ℕ, zero, suc, ◌+◌, ◌-◌, ◌*◌, ◌≤◌, ◌<◌, ◌≡◌, ◌≢◌, refl, true, Option, none, some, List, arith,
  is_some, if◌then◌else◌, Option-cases, Bool-cases, inl, inr, Result, ok, raised,
}
use causal_ops.Domain.Receipts.{ToolReceipt, ToolProposal}
use causal_ops.Domain.Model.{Plan, FinalAssessment, check_assessment}
use causal_ops.Domain.Codes.{EscalationReason}
use causal_ops.Dispatch.{Minted, DispatchResult, Dispatching, Raised}
use causal_ops.Graph.State.{Env, GraphState, RunEvent, rebuild_receipts, tools_left}
use causal_ops.Graph.Asking.{Answer, answered, stopped, refused_request, crashed_request, Asking}
use causal_ops.Graph.Investigate.{investigate, conclude, stopped_state}
use causal_ops.Graph.DispatchTool.{dispatch_tool, absorb, normalize_evidence}
use causal_ops.Graph.FinalAssessment.{final_assessment}
use causal_ops.Graph.Escalation.{
  ResumeValue, Interrupted, fault, paused, resumed, escalation_interrupt, escalation_reason,
}
use causal_ops.Graph.Report.{final_report}
use causal_ops.Graph.Inversion.{investigate-some, dispatch_tool-some}
use causal_ops.Graph.Machine.{
  Node, at_investigate, at_dispatch_tool, at_normalize_evidence, at_final_assessment,
  at_escalation_interrupt, at_final_report, at_end, route_after_investigate, route_after_normalize,
  route_after_final_assessment, route_assessed, route_on, may_continue, Visit, Moved, raised_in,
  waiting, to, by_route, always, after_investigate, after_assessment, after_interrupt, visit, Ended,
  out_of_fuel, follow, run,
}

module _ (env : Env) where
  -- The visits that a run may still make from a node.
  abbrev pub enough : Node → GraphState → ℕ
  enough at_investigate st = 6 + 3 * (env.budgets.model_calls - (st.model_turn + 1))
  enough at_dispatch_tool st = 5 + 3 * (env.budgets.model_calls - st.model_turn)
  enough at_normalize_evidence st = 4 + 3 * (env.budgets.model_calls - st.model_turn)
  enough at_final_assessment st = 3
  enough at_escalation_interrupt st = 2
  enough at_final_report st = 1
  enough at_end st = 1

  enough_positive : (node : Node) (st : GraphState) → 1 ≤ enough node st
  enough_positive at_investigate st = omega arith
  enough_positive at_dispatch_tool st = omega arith
  enough_positive at_normalize_evidence st = omega arith
  enough_positive at_final_assessment st = omega arith
  enough_positive at_escalation_interrupt st = omega arith
  enough_positive at_final_report st = omega arith
  enough_positive at_end st = omega arith

  enough_bound : (node : Node) (st : GraphState) → enough node st ≤ 6 + 3 * env.budgets.model_calls
  enough_bound at_investigate st = omega arith
  enough_bound at_dispatch_tool st = omega arith
  enough_bound at_normalize_evidence st = omega arith
  enough_bound at_final_assessment st = omega arith
  enough_bound at_escalation_interrupt st = omega arith
  enough_bound at_final_report st = omega arith
  enough_bound at_end st = omega arith

  -- A visit that goes on leaves less to do.
  abbrev Progress : ℕ → Moved → Type 0
  Progress n raised_in = Unit
  Progress n (waiting _) = Unit
  Progress n (to at_end st) = Unit
  Progress n (to next st) = enough next st < n

  investigated_turn :
      (st : GraphState) (r : Answer Plan × Asking)
      → is_some (conclude env st r).pending_proposal ≡ true
      → (conclude env st r).model_turn ≡ st.model_turn + 1
  unfolding conclude stopped_state
  investigated_turn st (answered plan, a) h = refl
  investigated_turn st (stopped code, a) h = cc
  investigated_turn st (refused_request code, a) h = cc
  investigated_turn st (crashed_request, a) h = cc

  investigate_turn :
      (now : ℕ) (st st' : GraphState)
      → investigate env st now ≡ some st'
      → is_some st'.pending_proposal ≡ true
      → st'.model_turn ≡ st.model_turn + 1
  investigate_turn now st st' h pending =
      let (receipts, store, _, _, e) = investigate-some env st st' now h in
      let turned = investigated_turn st _ (rw e at pending) in rw e turned

  absorbed_turn :
      (st : GraphState) (p : ToolProposal) (events : List RunEvent)
      (r : Result Raised DispatchResult × Dispatching)
      → (absorb env st p events r).model_turn ≡ st.model_turn
  unfolding absorb
  absorbed_turn st p events (ok r, d) = refl
  absorbed_turn st p events (raised e, d) = refl

  dispatched_turn :
      (m : Minted) (st st' : GraphState)
      → dispatch_tool env st m ≡ some st'
      → st'.model_turn ≡ st.model_turn
  dispatched_turn m st st' h =
      let (p, receipts, l, _, _, _, e) = dispatch_tool-some env st st' m h in
      rw e (absorbed_turn st p _ _)

  investigated-Progress :
      (now : ℕ) (st : GraphState)
      → Progress (enough at_investigate st) (after_investigate (investigate env st now))
  unfolding route_after_investigate
  investigated-Progress now st = elim (Option-cases (investigate env st now)) [
    | inl bad ↦ rw bad tt
    | inr (st', e) ↦ rw e (elim (Bool-cases (is_some st'.pending_proposal)) [
      | inl pending ↦ rw pending (rw (investigate_turn now st st' e pending) (omega arith))
      | inr idle ↦ rw idle (elim (Bool-cases (is_some st'.failure_reason)) [
        | inl ended ↦ rw ended (omega arith)
        | inr open' ↦ rw open' (omega arith)
      ])
    ])
  ]

  turn_left :
      (st : GraphState) (tools now : ℕ)
      → may_continue st env.budgets tools now ≡ true
      → st.model_turn < env.budgets.model_calls
  unfolding may_continue
  turn_left st tools now h = ground arith

  -- After the choice between another turn and the assessment.
  chosen-Progress :
      (tools now : ℕ) (st st' : GraphState)
      → st'.model_turn ≡ st.model_turn
      → Progress (enough at_normalize_evidence st) (
          to
            (if may_continue st' env.budgets tools now then at_investigate else at_final_assessment)
            st')
  chosen-Progress tools now st st' same =
      elim (Bool-cases (may_continue st' env.budgets tools now)) [
        | inl more ↦ let left = turn_left st' tools now more in rw more (omega arith)
        | inr last ↦ rw last (omega arith)
      ]

  normalized-Progress :
      (now : ℕ) (st st' : GraphState)
      → st'.model_turn ≡ st.model_turn
      → Progress
          (enough at_normalize_evidence st)
          (by_route (route_after_normalize st' env.budgets now) st')
  unfolding route_after_normalize
  normalized-Progress now st st' same = elim (Bool-cases (is_some st'.failure_reason)) [
    | inl ended ↦ rw ended (omega arith)
    | inr open' ↦ rw open' (elim (Option-cases (rebuild_receipts st')) [
      | inl bad ↦ rw bad tt
      | inr (receipts, e) ↦ rw e (elim (Option-cases (tools_left receipts env.budgets)) [
        | inl bad ↦ rw bad tt
        | inr (tools, e') ↦ rw e' (chosen-Progress tools now st st' same)
      ])
    ])
  ]

  routed-Progress :
      (trigger : Option (Option EscalationReason)) (st : GraphState)
      → Progress 3 (by_route (route_on trigger) st)
  routed-Progress none st = tt
  routed-Progress (some none) st = omega arith
  routed-Progress (some (some reason)) st = omega arith

  assessed-Progress :
      (receipts : List ToolReceipt) (st : GraphState) (x : Option FinalAssessment)
      → Progress 3 (by_route (route_assessed st env.budgets receipts x) st)
  assessed-Progress receipts st none = tt
  assessed-Progress receipts st (some x) = elim (Bool-cases (check_assessment x)) [
    | inl valid ↦ rw valid (routed-Progress (escalation_reason receipts x env.budgets _) st)
    | inr bad ↦ rw bad tt
  ]

  after_assessment-Progress : (st : Option GraphState) → Progress 3 (after_assessment env st)
  unfolding route_after_final_assessment
  after_assessment-Progress none = tt
  after_assessment-Progress (some st) = elim (Bool-cases (is_some st.failure_reason)) [
    | inl ended ↦ rw ended (omega arith)
    | inr open' ↦ rw open' (elim (Bool-cases env.suppress_escalation) [
      | inl quiet ↦ rw quiet (omega arith)
      | inr asks ↦ rw asks (elim (Option-cases (rebuild_receipts st)) [
        | inl bad ↦ rw bad tt
        | inr (receipts, e) ↦ rw e (assessed-Progress receipts st st.assessment)
      ])
    ])
  ]

  after_interrupt-Progress : (r : Interrupted) → Progress 2 (after_interrupt r)
  after_interrupt-Progress fault = tt
  after_interrupt-Progress (paused reason) = tt
  after_interrupt-Progress (resumed st) = omega arith

  reported-Progress : (st : Option GraphState) → Progress 1 (always at_end st)
  reported-Progress none = tt
  reported-Progress (some st) = tt

  dispatched-Progress :
      (m : Minted) (st : GraphState)
      → Progress
          (enough at_dispatch_tool st)
          (always at_normalize_evidence (dispatch_tool env st m))
  dispatched-Progress m st = elim (Option-cases (dispatch_tool env st m)) [
    | inl bad ↦ rw bad tt
    | inr (st', e) ↦ rw (e, dispatched_turn m st st' e) (omega arith)
  ]

  visit-Progress :
      (values : List ResumeValue) (v : Visit) (node : Node) (st : GraphState)
      → Progress (enough node st) (visit env values v node st)
  unfolding visit normalize_evidence
  visit-Progress values v at_investigate st = investigated-Progress v.now st
  visit-Progress values v at_dispatch_tool st = dispatched-Progress v.minted st
  visit-Progress values v at_normalize_evidence st = normalized-Progress v.route_now st _ refl
  visit-Progress values v at_final_assessment st =
      after_assessment-Progress (final_assessment env st v.now)
  visit-Progress values v at_escalation_interrupt st =
      after_interrupt-Progress (escalation_interrupt env st values)
  visit-Progress values v at_final_report st = reported-Progress (final_report env st v.now)
  visit-Progress values v at_end st = tt

  module _ (values : List ResumeValue) (visits : ℕ → Visit) where
    follow_ends :
        (again : Node → GraphState → Ended) (fuel n : ℕ) (node : Node) (st : GraphState) (m : Moved)
        → ((node' : Node) (st' : GraphState)
            → enough node' st' ≤ fuel
            → again node' st' ≢ out_of_fuel)
        → n ≤ fuel + 1
        → Progress n m
        → follow env values visits again node st m ≢ out_of_fuel
    follow_ends again fuel n node st raised_in ends le p = λ e. cc
    follow_ends again fuel n node st (waiting reason) ends le p = λ e. cc
    follow_ends again fuel n node st (to at_end st') ends le p = λ e. cc
    follow_ends again fuel n node st (to at_investigate st') ends le p =
        ends at_investigate st' (omega arith)
    follow_ends again fuel n node st (to at_dispatch_tool st') ends le p =
        ends at_dispatch_tool st' (omega arith)
    follow_ends again fuel n node st (to at_normalize_evidence st') ends le p =
        ends at_normalize_evidence st' (omega arith)
    follow_ends again fuel n node st (to at_final_assessment st') ends le p =
        ends at_final_assessment st' (omega arith)
    follow_ends again fuel n node st (to at_escalation_interrupt st') ends le p =
        ends at_escalation_interrupt st' (omega arith)
    follow_ends again fuel n node st (to at_final_report st') ends le p =
        ends at_final_report st' (omega arith)

    run_ends :
        (fuel : ℕ) (node : Node) (st : GraphState)
        → enough node st ≤ fuel
        → run env values visits fuel node st ≢ out_of_fuel
    unfolding run
    run_ends zero node st le = absurd (omega (arith, enough_positive node st))
    run_ends (suc fuel) node st le =
        follow_ends (run env values visits fuel) fuel (enough node st) node st _ (run_ends fuel)
          (omega arith) (visit-Progress values (visits fuel) node st)

    -- A run that starts at any node in any state, as a fresh or a resumed run does, ends within 6 visits
    -- and 3 more for each model call of the budget: it fails, waits for the owner or is done, whatever
    -- the model, the backends, the clocks and the owner give.
    pub run_terminates :
        (fuel : ℕ) (node : Node) (st : GraphState)
        → 6 + 3 * env.budgets.model_calls ≤ fuel
        → run env values visits fuel node st ≢ out_of_fuel
    run_terminates fuel node st le = run_ends fuel node st (omega (arith, enough_bound node st))
