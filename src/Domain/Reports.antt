-- ===== src/Domain/Reports.antt =====
-- src/causalops/domain.py: the finalized report and the owner's decision inside it.
use Prim.Native.String.{count}
use causal_ops.Prelude.{
  ℕ, String, Bool, true, false, not, Option, none, some, List, ◌&&◌, leb, is_some, is_none,
}
use causal_ops.Text.{is_blank}
use causal_ops.Domain.Codes.{
  Disposition, RootCauseCode, ReasonCode, RetrievalMode, EscalationReason, is_undetermined,
}
use causal_ops.Domain.Receipts.{Budgets}
use causal_ops.Domain.Model.{FinalAssessment, ModelUsage}

-- `Literal["accept", "reject"]`
pub data Decision : Type 0 where
  accept reject : Decision

-- A reject carries a note with more than white space, an accept carries none.
unfoldable pub check_rejection_note_pairing : Decision → Option String → Bool
check_rejection_note_pairing accept note = is_none note
check_rejection_note_pairing reject none = false
check_rejection_note_pairing reject (some note) = not (is_blank note)

pub record EscalationRecord : Type 0 where
  pub reason : EscalationReason
  pub decision : Decision
  pub rejection_note : Option String

-- `rejection_note: str | None = Field(default=None, max_length=300)`
unfoldable pub check_note_length : Option String → Bool
check_note_length none = true
check_note_length (some note) = leb (count note) 300

-- What pydantic checks of an `EscalationRecord`: the field's bound, then the validator
unfoldable pub check_escalation : EscalationRecord → Bool
check_escalation r =
    check_note_length r.rejection_note && check_rejection_note_pairing r.decision r.rejection_note

-- The two sentences that a report's `limitations` may hold.
pub data Limitation : Type 0 where
  no_token_usage : Limitation
  unresolved_passages : ℕ → Limitation

pub record InvestigationReport : Type 0 where
  pub investigation_id : String
  pub incident_id : String
  pub disposition : Disposition
  pub root_cause : RootCauseCode
  pub assessment : Option FinalAssessment
  pub reason_code : Option ReasonCode
  pub budgets : Budgets
  pub started_at : ℕ
  pub finished_at : ℕ
  pub latency_ms : ℕ
  pub model_calls_used : ℕ
  pub repairs_used : ℕ
  pub tools_executed : ℕ
  pub invalid_responses : ℕ
  pub usage : Option ModelUsage
  pub final_context_digest : String
  pub evidence_ids : List String
  pub receipt_ids : List String
  pub retrieval_mode : RetrievalMode
  pub runbook_passage_ids : List String
  pub limitations : List Limitation
  pub escalation : Option EscalationRecord

unfoldable pub check_outcome :
    Disposition → RootCauseCode → Option FinalAssessment → Option ReasonCode → Bool
check_outcome Disposition.diagnosed cause assessment code =
    not (is_undetermined cause) && is_some assessment
check_outcome Disposition.insufficient_evidence cause assessment code =
    is_undetermined cause && is_some assessment
check_outcome Disposition.failed_safe cause assessment code =
    is_undetermined cause && is_none assessment && is_some code

-- `InvestigationReport.check_terminal_invariants`
unfoldable pub check_report : InvestigationReport → Bool
unfolding check_outcome
check_report r = check_outcome r.disposition r.root_cause r.assessment r.reason_code
