-- ===== src/Graph/Inversion.antt =====
-- What a node has read and computed when it returns a state.
use causal_ops.Prelude.{
  ℕ, ◌≡◌, refl, String, true, Bool-cases, length, Option, none, some, List, arith, Option-cases,
  inl, inr, Result, ok, raised,
}
use causal_ops.Domain.Receipts.{ToolReceipt, ToolProposal, check_proposal}
use causal_ops.Ledger.{Ledger, LedgerError}
use causal_ops.Dispatch.{Minted}
use causal_ops.EvidenceStore.{Store}
use causal_ops.Graph.State.{
  Env, GraphState, rebuild_receipts, rebuild_store, rebuild_sources, rebuild_passages, ledger_of,
  tools_left,
}
use causal_ops.Graph.Investigate
use causal_ops.Graph.DispatchTool
use causal_ops.Graph.FinalAssessment
use causal_ops.Graph.Escalation
use causal_ops.Graph.Report
use causal_ops.Domain.Codes.{EscalationReason, ReasonCode}
use causal_ops.Domain.Model.{FinalAssessment, check_assessment}
use causal_ops.Domain.Reports.{Decision, InvestigationReport, EscalationRecord, check_report}

pub rebuild_sources-some :
    (st : GraphState) (store : Store)
    → rebuild_sources st ≡ some store
    → rebuild_store st ≡ some store
unfolding rebuild_sources
rebuild_sources-some st store h = elim (Option-cases (rebuild_store st)) [
  | inl bad ↦ absurd (ground arith)
  | inr (s, e) ↦ elim (Option-cases (rebuild_passages st)) [
    | inl bad ↦ absurd (ground arith)
    | inr (ps, f) ↦ ground arith
  ]
]

module _ (env : Env) (st st' : GraphState) where
  pub investigate-some :
      (now : ℕ)
      → Investigate.investigate env st now ≡ some st'
      → (receipts : List ToolReceipt) × (store : Store) × (rebuild_receipts st ≡ some receipts)
        × (rebuild_store st ≡ some store)
        × (st' ≡ Investigate.investigate_with env st now receipts store)
  unfolding Investigate.investigate
  investigate-some now h = elim (Option-cases (rebuild_receipts st)) [
    | inl bad ↦ absurd (ground arith)
    | inr (receipts, e) ↦ elim (Option-cases (rebuild_sources st)) [
      | inl bad ↦ absurd (ground arith)
      | inr (store, f) ↦ (receipts, store, e, rebuild_sources-some st store f, ground arith)
    ]
  ]

  pub final_assessment-some :
      (now : ℕ)
      → FinalAssessment.final_assessment env st now ≡ some st'
      → (receipts : List ToolReceipt) × (store : Store) × (rebuild_receipts st ≡ some receipts)
        × (rebuild_store st ≡ some store)
        × (st' ≡ FinalAssessment.assess_with env st now receipts store)
  unfolding FinalAssessment.final_assessment
  final_assessment-some now h = elim (Option-cases (rebuild_receipts st)) [
    | inl bad ↦ absurd (ground arith)
    | inr (receipts, e) ↦ elim (Option-cases (rebuild_sources st)) [
      | inl bad ↦ absurd (ground arith)
      | inr (store, f) ↦ (receipts, store, e, rebuild_sources-some st store f, ground arith)
    ]
  ]

  pub dispatch_over-some :
      (p : ToolProposal) (m : Minted) (r : Result LedgerError Ledger)
      → DispatchTool.dispatch_over env st p m r ≡ some st'
      → (l : Ledger) × (r ≡ ok l) × (st' ≡ DispatchTool.dispatch_with env st p m l)
  dispatch_over-some p m (ok l) h = (l, refl, ground arith)
  dispatch_over-some p m (raised e) h = absurd (ground arith)

  pub dispatch_tool-some :
      (m : Minted)
      → DispatchTool.dispatch_tool env st m ≡ some st'
      → (p : ToolProposal) × (receipts : List ToolReceipt) × (l : Ledger) × (st.pending_proposal
          ≡ some p)
        × (rebuild_receipts st ≡ some receipts)
        × (ledger_of receipts env.budgets ≡ ok l)
        × (st' ≡ DispatchTool.dispatch_with env st p m l)
  unfolding DispatchTool.dispatch_tool
  dispatch_tool-some m h = elim (Option-cases st.pending_proposal) [
    | inl bad ↦ absurd (ground arith)
    | inr (p, d) ↦ elim (Bool-cases (check_proposal p)) [
      | inr bad ↦ absurd (ground arith)
      | inl valid ↦ elim (Option-cases (rebuild_receipts st)) [
        | inl bad ↦ absurd (ground arith)
        | inr (receipts, e) ↦
            let (l, f, g) =
              dispatch_over-some p m (ledger_of receipts env.budgets) (ground arith) in
            (p, receipts, l, d, e, f, g)
      ]
    ]
  ]

  decide-resumed :
      (pause : Escalation.Pause) (d : Option (Decision × Option String))
      → Escalation.decide env st pause d ≡ Escalation.resumed st'
      → (decision : Decision) × (note : Option String) × (d ≡ some (decision, note))
        × (Escalation.decide env st pause (some (decision, note)) ≡ Escalation.resumed st')
  decide-resumed pause none h = absurd (ground arith)
  decide-resumed pause (some (decision, note)) h = (decision, note, refl, h)

  interrupt_at-resumed :
      (reason : EscalationReason) (store : Store) (values : List Escalation.ResumeValue)
      (left : Option ℕ)
      → Escalation.interrupt_at env st reason store values left ≡ Escalation.resumed st'
      → (n : ℕ) × (left ≡ some n)
        × (Escalation.decide env st
              (Escalation.pause_at reason store n values)
              (Escalation.first_decision values)
            ≡ Escalation.resumed st')
  interrupt_at-resumed reason store values none h = absurd (ground arith)
  interrupt_at-resumed reason store values (some n) h = (n, refl, h)

  interrupt_for-resumed :
      (receipts : List ToolReceipt) (store : Store) (values : List Escalation.ResumeValue)
      (trigger : Option (Option EscalationReason))
      → Escalation.interrupt_for env st receipts store values trigger ≡ Escalation.resumed st'
      → (reason : EscalationReason) × (trigger ≡ some (some reason))
        × (Escalation.interrupt_at env st reason store values (tools_left receipts env.budgets)
            ≡ Escalation.resumed st')
  interrupt_for-resumed receipts store values none h = absurd (ground arith)
  interrupt_for-resumed receipts store values (some none) h = absurd (ground arith)
  interrupt_for-resumed receipts store values (some (some reason)) h = (reason, refl, h)

  interrupt_with-resumed :
      (x : FinalAssessment) (receipts : List ToolReceipt) (store : Store)
      (values : List Escalation.ResumeValue)
      → Escalation.interrupt_with env st x receipts store values ≡ Escalation.resumed st'
      → Escalation.interrupt_for env st receipts store values
          (Escalation.escalation_reason receipts x env.budgets (length st.runbook_passages))
        ≡ Escalation.resumed st'
  interrupt_with-resumed x receipts store values h = elim (Bool-cases (check_assessment x)) [
    | inl valid ↦ rw valid at h
    | inr bad ↦ absurd (ground arith)
  ]

  pub escalation_interrupt-resumed :
      (values : List Escalation.ResumeValue)
      → Escalation.escalation_interrupt env st values ≡ Escalation.resumed st'
      → (receipts : List ToolReceipt) × (x : FinalAssessment) × (pause : Escalation.Pause)
        × (decision : Decision) × (note : Option String) × (rebuild_receipts st ≡ some receipts)
        × (st.assessment ≡ some x)
        × (Escalation.escalation_reason receipts x env.budgets (length st.runbook_passages)
            ≡ some (some pause.reason))
        × (tools_left receipts env.budgets ≡ some pause.remaining_check_count)
        × (Escalation.first_decision values ≡ some (decision, note))
        × (Escalation.decide env st pause (some (decision, note)) ≡ Escalation.resumed st')
  unfolding Escalation.escalation_interrupt
  escalation_interrupt-resumed values h = elim (Option-cases (rebuild_receipts st)) [
    | inl bad ↦ absurd (ground arith)
    | inr (receipts, e) ↦ elim (Option-cases st.assessment) [
      | inl bad ↦ absurd (ground arith)
      | inr (x, f) ↦ elim (Option-cases (rebuild_store st)) [
        | inl bad ↦ absurd (ground arith)
        | inr (store, g) ↦
            let (reason, t, h1) =
              interrupt_for-resumed receipts store values _
                (interrupt_with-resumed x receipts store values (ground arith)) in
            let (n, u, h2) = interrupt_at-resumed reason store values _ h1 in
            let pause = Escalation.pause_at reason store n values in
            let (decision, note, d, h3) = decide-resumed pause _ h2 in
            (receipts, x, pause, decision, note, e, f, t, u, d, h3)
      ]
    ]
  ]

  module _ (at : ℕ) where
    checked_report-some :
        (r : ℕ → InvestigationReport) (r' : InvestigationReport) (latency : Option ℕ)
        → Report.checked_report env st at r latency ≡ some r'
        → (n : ℕ) × (latency ≡ some n) × (r' ≡ r n) × (check_report r' ≡ true)
    checked_report-some r r' none h = absurd (ground arith)
    checked_report-some r r' (some n) h = elim (Bool-cases (check_report (r n))) [
      | inl valid ↦
          let h' = rw valid at h in
          let same : r' ≡ r n = ground arith in (n, refl, same, rw same valid)
      | inr bad ↦ absurd (ground arith)
    ]

    pub build_report-some :
        (forced : Option ReasonCode) (r : InvestigationReport)
        → Report.build_report env st at forced ≡ some r
        → (receipts : List ToolReceipt) × (store : Store) × (escalation : Option EscalationRecord)
          × (latency : ℕ) × (rebuild_receipts st ≡ some receipts)
          × (rebuild_store st ≡ some store)
          × (Report.escalation_record st.escalation_reason st.escalation_decision st.rejection_note
              ≡ some escalation)
          × (env.latency_ms st.started_at at ≡ some latency)
          × (check_report r ≡ true)
          × (r
              ≡ Report.report_of env st at receipts store
                  (Report.carried forced st.assessment)
                  (Report.verdict
                    (Report.carried forced st.assessment)
                    (Report.first_reason forced st.failure_reason))
                  escalation
                  latency)
    unfolding Report.build_report
    build_report-some forced r h = elim (Option-cases (rebuild_receipts st)) [
      | inl bad ↦ absurd (ground arith)
      | inr (receipts, e) ↦ elim (Option-cases (rebuild_sources st)) [
        | inl bad ↦ absurd (ground arith)
        | inr (store, f) ↦
            elim (Option-cases (
              Report.escalation_record st.escalation_reason st.escalation_decision
                st.rejection_note)) [
                  | inl bad ↦ absurd (ground arith)
                  | inr (escalation, g) ↦
                      elim (Bool-cases
                        (Report.valid_assessment (Report.carried forced st.assessment))) [
                          | inr bad ↦ absurd (ground arith)
                          | inl valid ↦
                              let (latency, k, same, passes) =
                                checked_report-some
                                  (Report.report_of env st at receipts store
                                    (Report.carried forced st.assessment)
                                    (Report.verdict (Report.carried forced st.assessment)
                                      (Report.first_reason forced st.failure_reason))
                                    escalation)
                                  r (env.latency_ms st.started_at at) (ground arith) in
                              (
                                receipts,
                                store,
                                escalation,
                                latency,
                                e,
                                rebuild_sources-some st store f,
                                g,
                                k,
                                passes,
                                same,
                              )
                        ]
                ]
      ]
    ]

    pub final_report-some :
        Report.final_report env st at ≡ some st'
        → (r : InvestigationReport) × (Report.build_report env st at none ≡ some r)
          × (st'.report ≡ some r)
          × (st'.model_calls_used ≡ st.model_calls_used)
          × (st'.repairs_used ≡ st.repairs_used)
    unfolding Report.final_report
    final_report-some h = elim (Option-cases (Report.build_report env st at none)) [
      | inl bad ↦ absurd (ground arith)
      | inr (r, e) ↦
          let h' = rw (e, Report.final_report) at h in
          (r, e, ground arith, ground arith, ground arith)
    ]
