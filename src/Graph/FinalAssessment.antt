-- ===== src/Graph/FinalAssessment.antt =====
-- The `final_assessment` node of src/causalops/graph.py.
pub mod Citations
use causal_ops.Prelude.{
  ℕ, String, Bool, true, false, Option, none, some, List, [], ◌∷◌, ◌++◌, length, if◌then◌else◌,
  Result, ok, raised,
}
use causal_ops.Domain.Codes.{
  ReasonCode, GraphPhase, forged_evidence_reference, internal_error as internal_error_code,
}
use causal_ops.Domain.Receipts.{ToolReceipt}
use causal_ops.Domain.Model.{FinalAssessment, check_assessment}
use causal_ops.EvidenceStore.{Store, unknown_ids}
use causal_ops.Graph.State.{
  Env, GraphState, RunEvent, EventName, Stage, ModelRequest, ModelResponse, Sent, refused_to_send,
  crashed_in_call, replied, event, stage_started, forged_citation, internal_error,
  money_refusal_reason_code, rebuild_receipts, rebuild_sources,
}
use causal_ops.Graph.Asking.{
  Asking, start, record_call, record_usage, render_stage_request, Asked, parsed, invalid, refused,
  crashed, Answer, answered, stopped, refused_request, crashed_request, note_stop, ask_with_repair,
}

abbrev pub cited : FinalAssessment → List String
cited a = a.supporting_evidence_ids ++ a.contrary_evidence_ids

module _ (env : Env) (st : GraphState) where
  -- `parse_response(FinalAssessment, content)`, which runs the validators.
  unfoldable pub read_content :
      Result String FinalAssessment → Asking → Asked FinalAssessment × Asking
  read_content (raised errors) a = (invalid errors, a)
  read_content (ok x) a =
      if check_assessment x then (parsed x, a) else (invalid (env.validation_errors x), a)

  unfoldable pub read_sent : Sent ModelResponse → Asking → Asked FinalAssessment × Asking
  read_sent (refused_to_send r) a = (refused r, a)
  read_sent crashed_in_call a = (crashed, a)
  read_sent (replied response) a = read_content response.content (record_usage response.usage a)

  abbrev pub respond_with : Option ModelRequest → Asking → Asked FinalAssessment × Asking
  respond_with none a = (crashed, a)
  respond_with (some request) a =
      read_sent (env.respond a.model_calls_used request) (record_call request.context_digest a)

  -- The node's `ask_once`.
  unfoldable pub ask_once :
      List ToolReceipt → Store → Option String → Asking → Asked FinalAssessment × Asking
  ask_once receipts store errors a =
      respond_with
        (render_stage_request env st receipts store Stage.final_assessment
          GraphPhase.final_assessment errors a)
        a

  -- The fields that every return of the node writes.
  abbrev pub counted : Asking → GraphState
  counted a = record st {
    phase = GraphPhase.final_assessment;
    model_calls_used = a.model_calls_used;
    repairs_used = a.repairs_used;
    invalid_responses = a.invalid_responses;
    context_digest = a.context_digest;
    usage = a.usage;
    events = a.events;
  }

  unfoldable pub failed_state : ReasonCode → Asking → GraphState
  failed_state code a = record (counted a) { assessment = none; failure_reason = some code }

  abbrev pub log : EventName → List RunEvent → List RunEvent
  log = event env GraphPhase.final_assessment

  -- The check of the citations against the evidence of this run.
  abbrev pub check_citations : FinalAssessment → List String → Asking → GraphState
  check_citations x [] a = record (counted a) { assessment = some x; failure_reason = none }
  check_citations x (f ∷ fs) a =
      failed_state forged_evidence_reference
        (record a { events = log (forged_citation (length (f ∷ fs))) a.events })

  unfoldable pub conclude : Store → Answer FinalAssessment × Asking → GraphState
  conclude store (answered x, a) = check_citations x (unknown_ids (cited x) store) a
  conclude store (stopped code, a) = failed_state code a
  conclude store (refused_request r, a) =
      let code = money_refusal_reason_code r in
      failed_state code (note_stop env GraphPhase.final_assessment Stage.final_assessment code a)
  conclude store (crashed_request, a) =
      failed_state internal_error_code (record a { events = log internal_error a.events })

  abbrev pub first_asking : Asking
  first_asking = start st (log (stage_started Stage.final_assessment) st.events)

  abbrev pub assess_with : ℕ → List ToolReceipt → Store → GraphState
  assess_with now receipts store = conclude store (
      ask_with_repair env GraphPhase.final_assessment Stage.final_assessment now st.started_at
        (ask_once receipts store) first_asking)

  -- `none` is an exception that leaves the node: a corrupted checkpoint.
  unfoldable pub final_assessment : ℕ → Option GraphState
  final_assessment now = elim (rebuild_receipts st) [
    | none ↦ none
    | some receipts ↦ elim (rebuild_sources st) [
      | none ↦ none
      | some store ↦ some (assess_with now receipts store)
    ]
  ]
