-- ===== src/Graph/State.antt =====
-- src/causalops/graph.py: `GraphState`, the events of a run (src/causalops/run_records.py), what the
-- model is asked and answers (src/causalops/models.py), and the pure reads of the state.
use causal_ops.Prelude.{
  ℕ, ◌+◌, ◌-◌, ◌*◌, String, Bool, Option, none, some, List, [], ◌∷◌, ◌++◌, ltb, length, all,
  if◌then◌else◌, ◌==◌, ◌&&◌, Result, ok, raised,
}
use causal_ops.Tools.{ToolName, ToolArguments}
use causal_ops.Domain.Codes.{
  ReasonCode, GraphPhase, EscalationReason, RetrievalMode, ToolOutcome, is_denied,
  cost_ceiling_exceeded, input_token_cap_exceeded, ambiguous_model_request,
}
use causal_ops.Domain.Json.{Payload}
use causal_ops.Domain.Receipts.{
  Budgets, IncidentScope, InitialAlertPacket, Evidence, ToolReceipt, ToolProposal, RunbookPassage,
  check_receipt, check_summary, check_passage,
}
use causal_ops.Domain.Model.{ModelUsage, Hypothesis, Plan, FinalAssessment}
use causal_ops.Domain.Reports.{Decision, InvestigationReport}
use causal_ops.Policy.{Message}
use causal_ops.Ledger.{Ledger, from_receipts, slots_left, runbook_slots_left}
use causal_ops.Dispatch.{Backends}
use causal_ops.EvidenceStore.{Store, Marker, add_all}

pub data Stage : Type 0 where
  initial_plan hypothesis_update final_assessment : Stage

-- An event's name with its fields; the name of an exception's class is left out.
pub data EventName : Type 0 where
  stage_started : Stage → EventName
  invalid_response : Stage → String → EventName
  stage_stopped : ReasonCode → EventName
  stage_finished : Bool → EventName
  proposal_recorded : ℕ → Stage → List Hypothesis → Option ToolProposal → EventName
  internal_error : EventName
  proposal_received : ToolName → EventName
  proposal_denied : ℕ → String → Option ReasonCode → Message → EventName
  check_started : ToolName → EventName
  check_finished : ℕ → String → Option ToolOutcome → ℕ → EventName
  backend_crashed : EventName
  evidence_normalized : ℕ → EventName
  forged_citation : ℕ → EventName
  escalation_decided : EscalationReason → Decision → EventName
  runbook_citation_unresolved : ℕ → EventName

pub record RunEvent : Type 0 where
  pub sequence : ℕ
  pub at : ℕ
  pub state : GraphPhase
  pub name : EventName

pub record GraphState : Type 0 where
  pub investigation_id : String
  pub run_id : String
  pub incident_id : String
  pub model_name : String
  pub phase : GraphPhase
  pub model_turn : ℕ
  pub model_calls_used : ℕ
  pub repairs_used : ℕ
  pub invalid_responses : ℕ
  pub started_at : ℕ
  pub context_digest : String
  pub seen_fingerprints : List String
  pub receipts : List ToolReceipt
  pub evidence : List Evidence
  pub runbook_passages : List RunbookPassage
  pub retrieval_mode : RetrievalMode
  pub events : List RunEvent
  pub pending_proposal : Option ToolProposal
  pub assessment : Option FinalAssessment
  pub usage : Option ModelUsage
  pub failure_reason : Option ReasonCode
  pub escalation_reason : Option EscalationReason
  pub escalation_decision : Option Decision
  pub rejection_note : Option String
  pub report : Option InvestigationReport

-- `DeniedCheckNote`; its guidance is a text made from these two and the budgets.
pub record DeniedCheckNote : Type 0 where
  pub tool : ToolName
  pub reason_code : ReasonCode

-- What `render_context` and the stage's instructions turn into the request's text.
pub record StageContext : Type 0 where
  pub stage : Stage
  pub packet : InitialAlertPacket
  pub scope : IncidentScope
  pub evidence : List Evidence
  pub markers : List Marker
  pub model_calls_left : ℕ
  pub tools_left : ℕ
  pub passages : List RunbookPassage
  pub denied_notes : List DeniedCheckNote
  pub runbook_searches_left : ℕ
  pub repair_errors : Option String

pub record ModelRequest : Type 0 where
  pub context : StageContext
  pub run_id : String
  pub graph_phase : GraphPhase
  pub model_turn : ℕ
  pub context_digest : String

-- `CostCeilingExceeded`, `InputTooLarge`, `AmbiguousReservationNotResent`
pub data Refusal : Type 0 where
  ceiling_exceeded input_too_large ambiguous_reservation : Refusal

unfoldable pub money_refusal_reason_code : Refusal → ReasonCode
money_refusal_reason_code ceiling_exceeded = cost_ceiling_exceeded
money_refusal_reason_code input_too_large = input_token_cap_exceeded
money_refusal_reason_code ambiguous_reservation = ambiguous_model_request

-- One turn of `propose`; each tool call is what `parse_tool_call` makes of it.
pub record ModelTurn : Type 0 where
  pub parsed : Option Plan
  pub errors : String
  pub tool_call : List (Result String ToolProposal)
  pub usage : Option ModelUsage

-- One reply of `respond`; the content is what JSON and the field types make of it.
pub record ModelResponse : Type 0 where
  pub content : Result String FinalAssessment
  pub usage : Option ModelUsage

-- A call of the model: refused before it is sent, raising, or replied to.
pub data Sent (A : Type 0) : Type 0 where
  refused_to_send : Refusal → Sent A
  crashed_in_call : Sent A
  replied : A → Sent A

-- What `build_graph` is given, and the libraries' functions. The model is asked with the number of
-- calls that the run has made, so that it may answer one request twice in different ways. `latency_ms` is
-- `int((finished_at - started_at).total_seconds() * 1000)`, a product of floats, and `none` where it is
-- negative.
pub record Env : Type 0 where
  pub budgets : Budgets
  pub scope : IncidentScope
  pub packet : InitialAlertPacket
  pub backends : Backends
  pub propose : ℕ → ModelRequest → Sent ModelTurn
  pub respond : ℕ → ModelRequest → Sent ModelResponse
  pub fingerprint : ToolArguments → String
  pub content_hash : Payload → String
  pub digest : StageContext → String
  pub validation_errors : FinalAssessment → String
  pub event_clock : ℕ → ℕ
  pub latency_ms : ℕ → ℕ → Option ℕ
  pub suppress_escalation : Bool
  pub no_tool_baseline : Bool

-- `RunRecorder.event`: the clock of events is read once for each.
unfoldable pub event : Env → GraphPhase → EventName → List RunEvent → List RunEvent
event env phase name events =
    let n = length events + 1 in
    events ++ record { sequence = n; at = env.event_clock n; state = phase; name = name } ∷ []

abbrev pub belongs : String → ToolReceipt → Bool
belongs incident_id r = r.incident_id == incident_id && check_receipt r

-- `none` is the assertion on a receipt of another incident, or a receipt that does not validate.
unfoldable pub rebuild_receipts : GraphState → Option (List ToolReceipt)
unfolding check_receipt
rebuild_receipts st = if all (belongs st.incident_id) st.receipts then some st.receipts else none

-- `none` is evidence that does not validate, or the `ValueError` on that of another incident.
unfoldable pub rebuild_store : GraphState → Option Store
unfolding check_summary
rebuild_store st =
    if all check_summary st.evidence
    then add_all st.evidence (record { incident_id = st.incident_id; records = [] })
    else none

-- `none` is a passage that does not validate.
unfoldable pub rebuild_passages : GraphState → Option (List RunbookPassage)
unfolding check_passage
rebuild_passages st =
    if all check_passage st.runbook_passages then some st.runbook_passages else none

-- `_rebuild_store` and, behind it, `_rebuild_passages`, whose list is the state's own
unfoldable pub rebuild_sources : GraphState → Option Store
unfolding rebuild_store rebuild_passages
rebuild_sources st = elim (rebuild_store st) [
  | none ↦ none
  | some store ↦ elim (rebuild_passages st) [ none ↦ none | some _ ↦ some store ]
]

abbrev pub ledger_of : List ToolReceipt → Budgets → Result causal_ops.Ledger.LedgerError Ledger
ledger_of receipts budgets = from_receipts receipts budgets.executed_tools budgets.runbook_searches

-- `_tools_left`; `none` where two receipts share an id.
unfoldable pub tools_left : List ToolReceipt → Budgets → Option ℕ
tools_left receipts budgets = elim (ledger_of receipts budgets) [
  | ok l ↦ some (slots_left l)
  | raised _ ↦ none
]

unfoldable pub runbook_searches_left : List ToolReceipt → Budgets → Option ℕ
runbook_searches_left receipts budgets = elim (ledger_of receipts budgets) [
  | ok l ↦ some (runbook_slots_left l)
  | raised _ ↦ none
]

-- `budgets.model_calls - (model_calls_used - repairs_used)`, or 0 where that is negative: the code
-- compares it with 0 and 2, and puts it into a request only when it is positive.
unfoldable pub model_calls_left : ℕ → ℕ → Budgets → ℕ
model_calls_left model_calls_used repairs_used budgets =
    (budgets.model_calls + repairs_used) - model_calls_used

abbrev pub cons_note : ToolReceipt → Option (List DeniedCheckNote) → Option (List DeniedCheckNote)
cons_note r none = none
cons_note r (some notes) = elim r.reason_code [
  | none ↦ none
  | some code ↦ some (record { tool = r.tool; reason_code = code } ∷ notes)
]

-- `none` is the assertion on a denial with no reason code.
unfoldable pub denied_check_notes : List ToolReceipt → Option (List DeniedCheckNote)
denied_check_notes [] = some []
denied_check_notes (r ∷ rs) =
    let rest = denied_check_notes rs in if is_denied r.policy_result then cons_note r rest else rest

-- The started instant and the seconds of the budget, against a reading of the clock.
unfoldable pub expired : ℕ → Budgets → ℕ → Bool
expired started_at budgets now = ltb (started_at + budgets.wall_clock_seconds * 1000000) now

unfoldable pub accumulate_usage : Option ModelUsage → Option ModelUsage → Option ModelUsage
accumulate_usage existing none = existing
accumulate_usage none (some latest) = some latest
accumulate_usage (some total) (some latest) = some (record {
  input_tokens = total.input_tokens + latest.input_tokens;
  output_tokens = total.output_tokens + latest.output_tokens;
})
