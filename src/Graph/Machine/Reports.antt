-- ===== src/Graph/Machine/Reports.antt =====
-- The report in the state in which a run of the graph is done.
use causal_ops.Prelude.{
  ℕ, String, Bool, ◌≡◌, ◌≢◌, refl, true, Option, none, some, List, arith, Option-cases, Bool-cases,
  inl, inr,
}
use causal_ops.Domain.Receipts.{ToolReceipt}
use causal_ops.Domain.Reports.{
  Decision, EscalationRecord, InvestigationReport, check_escalation, check_report,
}
use causal_ops.Domain.Model.{FinalAssessment, check_assessment}
use causal_ops.Domain.Codes.{EscalationReason}
use causal_ops.Graph.State.{rebuild_receipts, Env, GraphState}
use causal_ops.Graph.Investigate.{investigate}
use causal_ops.Graph.DispatchTool.{dispatch_tool, normalize_evidence}
use causal_ops.Graph.FinalAssessment.{final_assessment}
use causal_ops.Graph.Escalation.{
  ResumeValue, Interrupted, fault, paused, resumed, escalation_interrupt,
}
use causal_ops.Graph.Report.{escalation_record, final_report}
use causal_ops.Graph.Inversion.{final_report-some, build_report-some}
use causal_ops.Graph.Machine.{
  Node, at_investigate, at_dispatch_tool, at_normalize_evidence, at_final_assessment,
  at_escalation_interrupt, at_final_report, at_end, Visit, visit, route_after_investigate,
  route_after_normalize, route_after_final_assessment, route_assessed, route_on, by_route, always,
  after_investigate, after_assessment, after_interrupt, run,
}
use causal_ops.Graph.Machine.Invariant.{MovesIn, EndsIn, run_keeps}

-- The owner's decision in a report, if it has one, is one that `EscalationRecord` takes.
abbrev pub escalation_fits : Option EscalationRecord → Bool
escalation_fits none = true
escalation_fits (some r) = check_escalation r

-- A finished run carries a report that passes the checks of `InvestigationReport` and of the record in
-- it, and says how many calls and repairs the state has.
abbrev pub Reported : Node → GraphState → Type 0
Reported at_end st =
    (r : InvestigationReport) × (st.report ≡ some r)
    × (check_report r ≡ true)
    × (escalation_fits r.escalation ≡ true)
    × (r.model_calls_used ≡ st.model_calls_used)
    × (r.repairs_used ≡ st.repairs_used)
Reported _ st = Unit

escalation_record-fits :
    (reason : Option EscalationReason) (decision : Option Decision) (said : Option String)
    (escalation : Option EscalationRecord)
    → escalation_record reason decision said ≡ some escalation
    → escalation_fits escalation ≡ true
unfolding escalation_record
escalation_record-fits none decision said escalation h = ground arith
escalation_record-fits (some reason) none said escalation h = absurd (ground arith)
escalation_record-fits (some reason) (some decision) said escalation h =
    let r : EscalationRecord = record {
      reason = reason;
      decision = decision;
      rejection_note = said;
    } in
    elim (Bool-cases (check_escalation r)) [
      | inl valid ↦
          let h' = rw valid at h in let same : escalation ≡ some r = ground arith in rw same valid
      | inr bad ↦ absurd (ground arith)
    ]

module _ (env : Env) where
  routed-Reported :
      (node : Option Node) (st : GraphState)
      → node ≢ some at_end
      → MovesIn Reported (by_route node st)
  routed-Reported none st h = tt
  routed-Reported (some at_investigate) st h = tt
  routed-Reported (some at_dispatch_tool) st h = tt
  routed-Reported (some at_normalize_evidence) st h = tt
  routed-Reported (some at_final_assessment) st h = tt
  routed-Reported (some at_escalation_interrupt) st h = tt
  routed-Reported (some at_final_report) st h = tt
  routed-Reported (some at_end) st h = absurd (h refl)

  normalize_goes_on :
      (st : GraphState) (now : ℕ) → route_after_normalize st env.budgets now ≢ some at_end
  unfolding route_after_normalize
  normalize_goes_on st now h = ground arith

  trigger_goes_on : (trigger : Option (Option EscalationReason)) → route_on trigger ≢ some at_end
  trigger_goes_on none h = cc
  trigger_goes_on (some none) h = cc
  trigger_goes_on (some (some reason)) h = cc

  assessment_goes_on :
      (receipts : List ToolReceipt) (st : GraphState) (x : Option FinalAssessment)
      → route_assessed st env.budgets receipts x ≢ some at_end
  assessment_goes_on receipts st none h = cc
  assessment_goes_on receipts st (some x) h = elim (Bool-cases (check_assessment x)) [
    | inl valid ↦ trigger_goes_on _ (rw valid at h)
    | inr bad ↦ ground arith
  ]

  final_goes_on :
      (st : GraphState)
      → route_after_final_assessment st env.budgets env.suppress_escalation ≢ some at_end
  unfolding route_after_final_assessment
  final_goes_on st h = elim (Option-cases (rebuild_receipts st)) [
    | inl bad ↦ ground arith
    | inr (receipts, e) ↦ ground (arith, assessment_goes_on receipts st st.assessment)
  ]

  investigated-Reported : (st : Option GraphState) → MovesIn Reported (after_investigate st)
  unfolding route_after_investigate
  investigated-Reported none = tt
  investigated-Reported (some st) =
      routed-Reported (some (route_after_investigate st)) st (λ h. ground arith)

  dispatched-Reported :
      (st : Option GraphState) → MovesIn Reported (always at_normalize_evidence st)
  dispatched-Reported none = tt
  dispatched-Reported (some st) = tt

  assessed-Reported : (st : Option GraphState) → MovesIn Reported (after_assessment env st)
  assessed-Reported none = tt
  assessed-Reported (some st) = routed-Reported _ st (final_goes_on st)

  interrupted-Reported : (r : Interrupted) → MovesIn Reported (after_interrupt r)
  interrupted-Reported fault = tt
  interrupted-Reported (paused reason) = tt
  interrupted-Reported (resumed st) = tt

  final-Reported :
      (now : ℕ) (st : GraphState) → MovesIn Reported (always at_end (final_report env st now))
  final-Reported now st = elim (Option-cases (final_report env st now)) [
    | inl bad ↦ rw bad tt
    | inr (st', e) ↦
        let (r, built, carries, calls, repairs) = final_report-some env st st' now e in
        let (_, _, escalation, _, _, _, decided, _, passes, same) =
          build_report-some env st st' now none r built in
        let kept : r.escalation ≡ escalation = rw same refl in
        let fits = escalation_record-fits _ _ _ escalation decided in
        rw e (r, carries, passes, rw kept fits, rw (same, calls) refl, rw (same, repairs) refl)
  ]

  visit-Reported :
      (values : List ResumeValue) (v : Visit) (node : Node) (st : GraphState)
      → Reported node st
      → MovesIn Reported (visit env values v node st)
  unfolding visit
  visit-Reported values v at_investigate st c = investigated-Reported (investigate env st v.now)
  visit-Reported values v at_dispatch_tool st c =
      dispatched-Reported (dispatch_tool env st v.minted)
  visit-Reported values v at_normalize_evidence st c =
      routed-Reported _ _ (normalize_goes_on (normalize_evidence env st) v.route_now)
  visit-Reported values v at_final_assessment st c =
      assessed-Reported (final_assessment env st v.now)
  visit-Reported values v at_escalation_interrupt st c =
      interrupted-Reported (escalation_interrupt env st values)
  visit-Reported values v at_final_report st c = final-Reported v.now st
  visit-Reported values v at_end st c = c

  starts_anywhere : (node : Node) (st : GraphState) → node ≢ at_end → Reported node st
  starts_anywhere at_investigate st h = tt
  starts_anywhere at_dispatch_tool st h = tt
  starts_anywhere at_normalize_evidence st h = tt
  starts_anywhere at_final_assessment st h = tt
  starts_anywhere at_escalation_interrupt st h = tt
  starts_anywhere at_final_report st h = tt
  starts_anywhere at_end st h = absurd (h refl)

  -- A run that starts at one of the graph's nodes and is done ends in a state that carries a report,
  -- which passes the report's validator, with the owner's decision in it, if any, within the bound and the
  -- validator of its record, and which states the numbers of model calls and repairs that the
  -- state counts.
  pub run_reports :
      (values : List ResumeValue) (visits : ℕ → Visit) (fuel : ℕ) (node : Node) (st : GraphState)
      → node ≢ at_end
      → EndsIn Reported (run env values visits fuel node st)
  run_reports values visits fuel node st starts =
      run_keeps Reported env values visits (visit-Reported values) fuel node st
        (starts_anywhere node st starts)
