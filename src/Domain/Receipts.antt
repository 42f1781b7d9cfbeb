-- ===== src/Domain/Receipts.antt =====
-- src/causalops/domain.py: budgets, the incident's scope, evidence and tool receipts, with the
-- validators that pydantic runs at construction as Boolean tests.
use Prim.Native.String.{count}
use causal_ops.Prelude.{
  ℕ, String, Bool, true, not, Option, none, some, List, length, ◌&&◌, ◌||◌, leb, ltb, is_some, all,
  ◌==◌,
}
use causal_ops.Tools.{ToolName, ToolArguments, tool_of, within_schema}
use causal_ops.Domain.Codes.{
  EvidenceKind, GatewaySymptom, PolicyResult, ToolOutcome, ReasonCode, ReceiptState, RetrievalMode,
  is_reserved, is_settled,
}
use causal_ops.Domain.Json.{Payload}

pub record Budgets : Type 0 where
  pub wall_clock_seconds : ℕ
  pub tool_timeout_seconds : ℕ
  pub model_calls : ℕ
  pub executed_tools : ℕ
  pub runbook_searches : ℕ
  pub runbook_passages : ℕ
  pub repairs : ℕ
  pub log_rows : ℕ

abbrev pub default_budgets : Budgets
default_budgets = record {
  wall_clock_seconds = 360;
  tool_timeout_seconds = 10;
  model_calls = 4;
  executed_tools = 2;
  runbook_searches = 1;
  runbook_passages = 5;
  repairs = 2;
  log_rows = 40;
}

-- `repairs: int = Field(default=2, ge=0, le=2)`
unfoldable pub check_budgets : Budgets → Bool
check_budgets b = leb b.repairs 2

pub record IncidentScope : Type 0 where
  pub incident_id : String
  pub services : List String
  pub started_at : ℕ
  pub ended_at : ℕ
  pub endpoint : String

unfoldable pub check_window : IncidentScope → Bool
check_window s = leb 1 (length s.services) && ltb s.started_at s.ended_at

pub record Evidence : Type 0 where
  pub evidence_id : String
  pub incident_id : String
  pub kind : EvidenceKind
  pub source : String
  pub observed_at : ℕ
  pub summary : String
  pub payload : Payload
  pub receipt_id : Option String
  pub content_hash : String

-- `summary: str = Field(max_length=400)`
unfoldable pub check_summary : Evidence → Bool
check_summary e = leb (count e.summary) 400

pub record InitialAlertPacket : Type 0 where
  pub incident_id : String
  pub window_start : ℕ
  pub window_end : ℕ
  pub endpoint : String
  pub symptom : GatewaySymptom
  pub services : List String
  pub alerted_at : ℕ
  pub alert_source_version : String
  pub symptom_evidence_id : String
  pub topology_evidence_id : String

pub record StoredIncident : Type 0 where
  pub scope : IncidentScope
  pub packet : InitialAlertPacket
  pub evidence : List Evidence

unfoldable pub check_identity_agrees : StoredIncident → Bool
check_identity_agrees s =
    s.packet.incident_id == s.scope.incident_id
    && all (λ item. item.incident_id == s.scope.incident_id) s.evidence

pub record ToolProposal : Type 0 where
  pub arguments : ToolArguments
  pub evidence_gap : String
  pub expected_observation : String

-- `max_length=300` of both texts, and the bounds of the arguments
unfoldable pub check_proposal : ToolProposal → Bool
unfolding within_schema
check_proposal p =
    within_schema p.arguments
    && leb (count p.evidence_gap) 300
    && leb (count p.expected_observation) 300

abbrev pub tool : ToolProposal → ToolName
tool p = tool_of p.arguments

pub record ToolReceipt : Type 0 where
  pub receipt_id : String
  pub incident_id : String
  pub tool : ToolName
  pub fingerprint : String
  pub policy_result : PolicyResult
  pub state : ReceiptState
  pub outcome : Option ToolOutcome
  pub reason_code : Option ReasonCode
  pub requested_at : ℕ
  pub duration_ms : ℕ
  pub result_digest : Option String
  pub evidence_id : Option String
  pub arguments : Option ToolArguments

unfoldable pub check_lifecycle_coherence : ToolReceipt → Bool
check_lifecycle_coherence r =
    let carries_a_result = is_some r.outcome || is_some r.result_digest || is_some r.evidence_id in
    not (is_reserved r.state && carries_a_result)
    && not (is_settled r.state && not (is_some r.outcome))

abbrev pub within_schemas : Option ToolArguments → Bool
within_schemas none = true
within_schemas (some a) = within_schema a

-- `ToolReceipt.model_validate`: the bounds of the arguments, and the validator
unfoldable pub check_receipt : ToolReceipt → Bool
unfolding within_schema check_lifecycle_coherence
check_receipt r = within_schemas r.arguments && check_lifecycle_coherence r

pub record CheckOutcome : Type 0 where
  pub outcome : ToolOutcome
  pub kind : EvidenceKind
  pub source : String
  pub summary : String
  pub payload : Payload
  pub reason_code : Option ReasonCode
  pub duration_ms : ℕ

-- The field `score`, a float that nothing modelled here reads, is left out.
pub record RunbookPassage : Type 0 where
  pub passage_id : String
  pub content : String
  pub source_version : String
  pub content_hash : String
  pub retrieval_mode : RetrievalMode

-- `content: str = Field(max_length=800)`
unfoldable pub check_passage : RunbookPassage → Bool
check_passage p = leb (count p.content) 800

pub record RunbookCheckOutcome : Type 0 where
  pub outcome : ToolOutcome
  pub passages : List RunbookPassage
  pub retrieval_mode : RetrievalMode
  pub reason_code : Option ReasonCode
  pub duration_ms : ℕ
