-- ===== src/Tests/Samples.antt =====
-- The inputs of the tests: an incident, its budgets, proposals, backends and a model.
use causal_ops.Prelude.{◌-◌, ℕ, String, false, Option, none, some, [], ◌∷◌, ok, leb, if◌then◌else◌}
use causal_ops.Tools.{
  ToolArguments, metric_args, logs_args, changes_args, topology_args, runbooks_args,
  gateway_error_rate, query_metric, downstream_timeouts,
}
use causal_ops.Domain.Codes.{
  executed, timeout, metric, ModelDisposition, GraphPhase, GatewaySymptom, config_change,
  undetermined, symptom, disabled, fts5_lexical, tool_timeout,
}
use causal_ops.Domain.Json.{Payload}
use causal_ops.Domain.Receipts.{
  default_budgets, IncidentScope, ToolProposal, CheckOutcome, RunbookCheckOutcome, Evidence,
  InitialAlertPacket, ToolReceipt,
}
use causal_ops.Domain.Model.{Plan, FinalAssessment}
use causal_ops.Ledger.{Ledger, init, reserved_receipt}
use causal_ops.Dispatch.{Backends, Minted, Dispatching}
use causal_ops.EvidenceStore.{Store}
use causal_ops.Graph.State.{Env, GraphState, ModelRequest, ModelTurn, ModelResponse, Sent, replied}
use causal_ops.Graph.Machine.{Visit}

abbrev pub incident : IncidentScope
incident = record {
  incident_id = "inc_1";
  services = "gateway" ∷ "orders" ∷ [];
  started_at = 100;
  ended_at = 200;
  endpoint = "/orders";
}

abbrev pub metric_request : ToolArguments
metric_request = metric_args (record {
  template = gateway_error_rate;
  service = "gateway";
  window_start = some 50;
  window_end = none;
})

abbrev pub foreign_request : ToolArguments
foreign_request = metric_args (record {
  template = gateway_error_rate;
  service = "billing";
  window_start = none;
  window_end = none;
})

abbrev pub runbook_request : ToolArguments
runbook_request = runbooks_args (record { topic = downstream_timeouts; limit = 3 })

abbrev pub propose_check : ToolArguments → ToolProposal
propose_check a = record {
  arguments = a;
  evidence_gap = "the error rate is unknown";
  expected_observation = "a rise of errors";
}

-- Stands for the hash of the arguments.
abbrev pub print : ToolArguments → String
print (metric_args a) = a.service
print (logs_args a) = "logs"
print (changes_args a) = "changes"
print (topology_args a) = "topology"
print (runbooks_args a) = "runbooks"

abbrev pub hash : Payload → String
hash _ = "digest"

abbrev pub metric_outcome : CheckOutcome
metric_outcome = record {
  outcome = executed;
  kind = metric;
  source = "prometheus";
  summary = "errors rose";
  payload = [];
  reason_code = none;
  duration_ms = 12;
}

abbrev pub late_outcome : CheckOutcome
late_outcome = record metric_outcome { outcome = timeout; reason_code = some tool_timeout }

abbrev pub passages_outcome : RunbookCheckOutcome
passages_outcome = record {
  outcome = executed;
  passages =
      record {
        passage_id = "rb_1";
        content = "check the pool";
        source_version = "v1";
        content_hash = "h1";
        retrieval_mode = fts5_lexical;
      }
      ∷ [];
  retrieval_mode = fts5_lexical;
  reason_code = none;
  duration_ms = 3;
}

abbrev pub answering : Option CheckOutcome → Backends
answering o = record {
  run_metric = λ a scope. o;
  run_logs = λ a scope. o;
  run_changes = λ a scope. o;
  run_topology = λ a scope. o;
  run_search = λ a scope. some passages_outcome;
}

abbrev pub minted : String → Minted
minted id = record { receipt_id = id; evidence_id = "ev_2"; requested_at = 210; observed_at = 211 }

abbrev pub fresh_ledger : Ledger
fresh_ledger = init 2 1

abbrev pub fresh : Dispatching
fresh = record { seen = []; ledger = fresh_ledger }

abbrev pub first_receipt : ToolReceipt
first_receipt = reserved_receipt "r_1" "inc_1" query_metric "gateway" 205 metric_request

abbrev pub holding_one : Ledger
holding_one = record fresh_ledger { receipts = first_receipt ∷ [] }

abbrev pub symptom_evidence : Evidence
symptom_evidence = record {
  evidence_id = "ev_1";
  incident_id = "inc_1";
  kind = symptom;
  source = "alert";
  observed_at = 100;
  summary = "elevated errors";
  payload = [];
  receipt_id = none;
  content_hash = "digest";
}

abbrev pub metric_evidence : Evidence
metric_evidence = record symptom_evidence { evidence_id = "ev_2"; kind = metric; observed_at = 211 }

abbrev pub two_records : Store
two_records = record { incident_id = "inc_1"; records = symptom_evidence ∷ metric_evidence ∷ [] }

abbrev pub packet : InitialAlertPacket
packet = record {
  incident_id = "inc_1";
  window_start = 100;
  window_end = 200;
  endpoint = "/orders";
  symptom = GatewaySymptom.elevated_errors;
  services = "gateway" ∷ [];
  alerted_at = 150;
  alert_source_version = "v1";
  symptom_evidence_id = "ev_1";
  topology_evidence_id = "ev_0";
}

abbrev pub plan : Plan
plan = record { hypotheses = []; proposal = none; stop_reason = none }

abbrev pub assessment_of : String → FinalAssessment
assessment_of id = record {
  disposition = ModelDisposition.diagnosed;
  root_cause = config_change;
  supporting_evidence_ids = id ∷ [];
  contrary_evidence_ids = [];
  runbook_citations = [];
  uncertainty = "little";
  next_step = "roll back";
}

abbrev pub abstention : FinalAssessment
abstention = record (assessment_of "ev_1") {
  disposition = ModelDisposition.insufficient_evidence;
  root_cause = undetermined;
}

-- A model that proposes the metric check once and then assesses.
abbrev pub proposing : ℕ → ModelRequest → Sent ModelTurn
proposing n request = replied (record {
  parsed = some plan;
  errors = "";
  tool_call = ok (propose_check metric_request) ∷ [];
  usage = none;
})

abbrev pub assessing : FinalAssessment → ℕ → ModelRequest → Sent ModelResponse
assessing x n request = replied (record { content = ok x; usage = none })

abbrev pub env_with : FinalAssessment → Env
env_with x = record {
  budgets = default_budgets;
  scope = incident;
  packet = packet;
  backends = answering (some metric_outcome);
  propose = proposing;
  respond = assessing x;
  fingerprint = print;
  content_hash = hash;
  digest = λ c. "context";
  validation_errors = λ a. "invalid";
  event_clock = λ n. n;
  latency_ms = λ a b. if leb a b then some (b - a) else none;
  suppress_escalation = false;
  no_tool_baseline = false;
}

abbrev pub created : GraphState
created = record {
  investigation_id = "inv_1";
  run_id = "run_1";
  incident_id = "inc_1";
  model_name = "fixture";
  phase = GraphPhase.created;
  model_turn = 0;
  model_calls_used = 0;
  repairs_used = 0;
  invalid_responses = 0;
  started_at = 200;
  context_digest = "none";
  seen_fingerprints = [];
  receipts = [];
  evidence = symptom_evidence ∷ [];
  runbook_passages = [];
  retrieval_mode = disabled;
  events = [];
  pending_proposal = none;
  assessment = none;
  usage = none;
  failure_reason = none;
  escalation_reason = none;
  escalation_decision = none;
  rejection_note = none;
  report = none;
}

abbrev pub id_at : ℕ → String
id_at n = if leb 15 n then "r_2" else if leb 12 n then "r_3" else "r_4"

-- The clock does not move, and each turn of a run with 18 visits mints its own id.
abbrev pub visiting : ℕ → Visit
visiting n = record { now = 300; route_now = 300; minted = minted (id_at n) }
