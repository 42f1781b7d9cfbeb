-- ===== src/Domain/Codes.antt =====
-- src/causalops/domain.py: the closed vocabularies (`StrEnum` classes), and their `is` tests.
use causal_ops.Prelude.{Bool, true, false}

pub data RootCauseCode : Type 0 where
  config_change downstream_timeout_retry_amplification : RootCauseCode
  resource_pool_saturation undetermined : RootCauseCode

pub data Disposition : Type 0 where
  diagnosed insufficient_evidence failed_safe : Disposition

-- What a model may select: it cannot say `failed_safe`.
pub data ModelDisposition : Type 0 where
  diagnosed insufficient_evidence : ModelDisposition

pub data EvidenceKind : Type 0 where
  symptom topology metric log change : EvidenceKind

pub data RetrievalMode : Type 0 where
  disabled fts5_lexical pinecone_semantic : RetrievalMode

pub data GatewaySymptom : Type 0 where
  elevated_errors elevated_latency elevated_errors_and_latency : GatewaySymptom

pub data PolicyResult : Type 0 where
  allowed denied : PolicyResult

pub data ToolOutcome : Type 0 where
  executed timeout unavailable error not_executed : ToolOutcome

pub data ReasonCode : Type 0 where
  budget_exhausted cross_incident_request unknown_service : ReasonCode
  outside_incident_window unresolved_window result_limit_exceeded : ReasonCode
  duplicate_proposal tool_timeout tool_unavailable tool_error : ReasonCode
  model_output_invalid repair_exhausted model_call_budget_exhausted : ReasonCode
  wall_clock_expired forged_evidence_reference result_already_finalized : ReasonCode
  cost_ceiling_exceeded input_token_cap_exceeded : ReasonCode
  ambiguous_model_request internal_error : ReasonCode

pub data GraphPhase : Type 0 where
  created investigate dispatch_tool normalize_evidence : GraphPhase
  final_assessment escalation_interrupt final_report : GraphPhase

pub data EscalationReason : Type 0 where
  conflicting_evidence tool_unavailable : EscalationReason
  insufficient_evidence_with_check_remaining : EscalationReason
  retrieval_coverage_insufficient : EscalationReason

pub data ReceiptState : Type 0 where
  reserved settled : ReceiptState

abbrev pub is_allowed : PolicyResult → Bool
is_allowed allowed = true
is_allowed denied = false

abbrev pub is_denied : PolicyResult → Bool
is_denied allowed = false
is_denied denied = true

abbrev pub is_reserved : ReceiptState → Bool
is_reserved reserved = true
is_reserved settled = false

abbrev pub is_settled : ReceiptState → Bool
is_settled reserved = false
is_settled settled = true

abbrev pub is_executed : ToolOutcome → Bool
is_executed executed = true
is_executed _ = false

abbrev pub is_unavailable : ToolOutcome → Bool
is_unavailable unavailable = true
is_unavailable _ = false

abbrev pub is_undetermined : RootCauseCode → Bool
is_undetermined undetermined = true
is_undetermined _ = false
