-- ===== src/Graph/Report.antt =====
-- `_unresolved_runbook_citations`, `_build_report` and the `final_report` node of
-- src/causalops/graph.py.
pub mod Verdicts
use causal_ops.Prelude.{
  ℕ, ◌-◌, ◌/◌, String, Bool, true, false, not, Option, none, some, List, [], ◌∷◌, ◌++◌, ◌&&◌, any,
  keep_if, count_if, length, map, leb, is_some, if◌then◌else◌, ◌==◌,
}
use causal_ops.Domain.Codes.{
  Disposition, ModelDisposition, RootCauseCode, undetermined, ReasonCode, internal_error,
  GraphPhase, EscalationReason, is_allowed, is_settled,
}
use causal_ops.Domain.Receipts.{ToolReceipt, RunbookPassage, Evidence}
use causal_ops.Domain.Model.{FinalAssessment, check_assessment, ModelUsage}
use causal_ops.Domain.Reports.{
  Decision, EscalationRecord, check_escalation, InvestigationReport, check_report, Limitation,
  no_token_usage, unresolved_passages,
}
use causal_ops.EvidenceStore.{Store, ordered}
use causal_ops.Graph.State.{
  Env, GraphState, event, runbook_citation_unresolved, rebuild_receipts, rebuild_sources,
}

-- Whether a passage with this id was retrieved.
abbrev pub retrieved : List RunbookPassage → String → Bool
retrieved passages id = any (λ p. p.passage_id == id) passages

unfoldable pub unresolved_runbook_citations :
    Option FinalAssessment → List RunbookPassage → List String
unresolved_runbook_citations none passages = []
unresolved_runbook_citations (some x) passages =
    keep_if (λ id. not (retrieved passages id)) x.runbook_citations

-- Checks that finished: allowed and settled.
abbrev pub finished : ToolReceipt → Bool
finished r = is_allowed r.policy_result && is_settled r.state

abbrev pub usage_limits : Option ModelUsage → List Limitation
usage_limits none = no_token_usage ∷ []
usage_limits (some _) = []

abbrev pub passage_limits : List String → List Limitation
passage_limits [] = []
passage_limits (x ∷ xs) = unresolved_passages (length (x ∷ xs)) ∷ []

abbrev pub disposition_of : ModelDisposition → Disposition
disposition_of ModelDisposition.diagnosed = Disposition.diagnosed
disposition_of ModelDisposition.insufficient_evidence = Disposition.insufficient_evidence

-- The three fields that say how the run ended.
pub record Verdict : Type 0 where
  pub disposition : Disposition
  pub root_cause : RootCauseCode
  pub reason_code : Option ReasonCode

abbrev pub or_internal : Option ReasonCode → ReasonCode
or_internal none = internal_error
or_internal (some code) = code

-- `force_failure_reason`, else the state's `failure_reason`
abbrev pub first_reason : Option ReasonCode → Option ReasonCode → Option ReasonCode
first_reason (some forced) kept = some forced
first_reason none kept = kept

unfoldable pub verdict : Option FinalAssessment → Option ReasonCode → Verdict
verdict none code = record {
  disposition = Disposition.failed_safe;
  root_cause = undetermined;
  reason_code = some (or_internal code);
}
verdict (some x) code = record {
  disposition = disposition_of x.disposition;
  root_cause = x.root_cause;
  reason_code = none;
}

-- The assessment that a report carries: none where the failure is forced.
abbrev pub carried : Option ReasonCode → Option FinalAssessment → Option FinalAssessment
carried (some _) x = none
carried none x = x

abbrev pub valid_assessment : Option FinalAssessment → Bool
valid_assessment none = true
valid_assessment (some x) = check_assessment x

-- What the three fields on the owner's decision come to: `none` is a failed assertion or validator.
unfoldable pub escalation_record :
    Option EscalationReason → Option Decision → Option String → Option (Option EscalationRecord)
unfolding check_escalation
escalation_record none decision _ = some none
escalation_record (some reason) none _ = none
escalation_record (some reason) (some decision) note =
    let r : EscalationRecord = record {
      reason = reason;
      decision = decision;
      rejection_note = note;
    } in
    if check_escalation r then some (some r) else none

module _ (env : Env) (st : GraphState) (finished_at : ℕ) where
  abbrev pub report_of :
      List ToolReceipt
      → Store
      → Option FinalAssessment
      → Verdict
      → Option EscalationRecord
      → ℕ
      → InvestigationReport
  report_of receipts store x v escalation latency = record {
    investigation_id = st.investigation_id;
    incident_id = st.incident_id;
    disposition = v.disposition;
    root_cause = v.root_cause;
    assessment = x;
    reason_code = v.reason_code;
    budgets = env.budgets;
    started_at = st.started_at;
    finished_at = finished_at;
    latency_ms = latency;
    model_calls_used = st.model_calls_used;
    repairs_used = st.repairs_used;
    tools_executed = count_if finished receipts;
    invalid_responses = st.invalid_responses;
    usage = st.usage;
    final_context_digest = st.context_digest;
    evidence_ids = map (λ e. e.evidence_id) (ordered store);
    receipt_ids = map (λ r. r.receipt_id) receipts;
    retrieval_mode = st.retrieval_mode;
    runbook_passage_ids = map (λ p. p.passage_id) st.runbook_passages;
    limitations =
        usage_limits st.usage
        ++ passage_limits (unresolved_runbook_citations x st.runbook_passages);
    escalation = escalation;
  }

  -- Construction, with the validators of the report: `latency_ms` must not be negative.
  abbrev pub checked_report : (ℕ → InvestigationReport) → Option ℕ → Option InvestigationReport
  checked_report r none = none
  checked_report r (some latency) = if check_report (r latency) then some (r latency) else none

  unfoldable pub build_report : Option ReasonCode → Option InvestigationReport
  build_report forced = elim (rebuild_receipts st) [
    | none ↦ none
    | some receipts ↦ elim (rebuild_sources st) [
      | none ↦ none
      | some store ↦
          elim (escalation_record st.escalation_reason st.escalation_decision st.rejection_note) [
            | none ↦ none
            | some escalation ↦
                let x = carried forced st.assessment in
                if valid_assessment x
                then checked_report
                    (report_of receipts store x (verdict x (first_reason forced st.failure_reason))
                      escalation)
                    (env.latency_ms st.started_at finished_at)
                else none
          ]
    ]
  ]

  abbrev pub log_unresolved : List String → List causal_ops.Graph.State.RunEvent
  log_unresolved [] = st.events
  log_unresolved (x ∷ xs) =
      event env GraphPhase.final_report (runbook_citation_unresolved (length (x ∷ xs))) st.events

  unfoldable pub final_report : Option GraphState
  final_report = elim (build_report none) [
    | none ↦ none
    | some r ↦ some (record st {
      phase = GraphPhase.final_report;
      report = some r;
      events = log_unresolved (unresolved_runbook_citations st.assessment st.runbook_passages);
    })
  ]
