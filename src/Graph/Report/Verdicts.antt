-- ===== src/Graph/Report/Verdicts.antt =====
-- When `_build_report` gives a report.
use causal_ops.Prelude.{ℕ, ◌≡◌, refl, true, Option, none, some, List, arith}
use causal_ops.Domain.Codes.{ReasonCode, ModelDisposition}
use causal_ops.Domain.Receipts.{ToolReceipt}
use causal_ops.Domain.Model.{FinalAssessment, check_assessment, check_disposition}
use causal_ops.Domain.Reports.{InvestigationReport, EscalationRecord, check_report, check_outcome}
use causal_ops.EvidenceStore.{Store}
use causal_ops.Graph.State.{Env, GraphState, rebuild_receipts, rebuild_sources}
use causal_ops.Graph.Report.{
  verdict, carried, valid_assessment, first_reason, escalation_record, report_of, checked_report,
  build_report, disposition_of,
}

-- The three fields of a verdict fit the assessment they are made from.
checked_fits :
    (d : ModelDisposition) (x : FinalAssessment)
    → check_disposition d x.root_cause x.supporting_evidence_ids ≡ true
    → check_outcome (disposition_of d) x.root_cause (some x) none ≡ true
unfolding check_outcome check_disposition
checked_fits ModelDisposition.diagnosed x h = ground arith
checked_fits ModelDisposition.insufficient_evidence x h = ground arith

verdict_fits :
    (x : Option FinalAssessment) (code : Option ReasonCode)
    → valid_assessment x ≡ true
    → check_outcome
        (verdict x code).disposition
        (verdict x code).root_cause
        x
        (verdict x code).reason_code
      ≡ true
unfolding check_outcome verdict check_assessment
verdict_fits none code h = refl
verdict_fits (some x) code h = checked_fits x.disposition x (ground arith)

module _ (env : Env) (st : GraphState) (finished_at : ℕ) (forced : Option ReasonCode) where
  -- The report that the state calls for.
  abbrev pub due : List ToolReceipt → Store → Option EscalationRecord → ℕ → InvestigationReport
  due receipts store escalation latency =
      let x = carried forced st.assessment in
      report_of env st finished_at receipts store x
        (verdict x (first_reason forced st.failure_reason)) escalation latency

  passes :
      (r : ℕ → InvestigationReport) (n : ℕ)
      → check_report (r n) ≡ true
      → checked_report env st finished_at r (some n) ≡ some (r n)
  passes r n fits = rw fits refl

  -- A state whose receipts, evidence, passages and escalation fields can be read back, and whose assessment (if
  -- no failure is forced) passes its validators, gives its report, once the latency is not negative:
  -- the validator of the report never refuses it.
  pub build_report_succeeds :
      (receipts : List ToolReceipt) (store : Store) (escalation : Option EscalationRecord)
      (latency : ℕ)
      → rebuild_receipts st ≡ some receipts
      → rebuild_sources st ≡ some store
      → escalation_record st.escalation_reason st.escalation_decision st.rejection_note
        ≡ some escalation
      → valid_assessment (carried forced st.assessment) ≡ true
      → env.latency_ms st.started_at finished_at ≡ some latency
      → (build_report env st finished_at forced ≡ some (due receipts store escalation latency))
        × (check_report (due receipts store escalation latency) ≡ true)
  unfolding build_report check_report
  build_report_succeeds receipts store escalation latency e f g valid timed =
      let fits =
        verdict_fits (carried forced st.assessment) (first_reason forced st.failure_reason) valid in
      (
        rw (e, build_report)
            (rw (f, g, valid, timed) (passes (due receipts store escalation) latency fits)),
        fits,
      )
