-- ===== src/Graph/Investigate.antt =====
-- The `investigate` node of src/causalops/graph.py.
use causal_ops.Prelude.{
  ℕ, zero, suc, ◌+◌, String, Option, none, some, List, [], ◌∷◌, is_some, Result, ok, raised,
}
use causal_ops.Domain.Codes.{ReasonCode, GraphPhase, internal_error as internal_error_code}
use causal_ops.Domain.Receipts.{ToolReceipt, ToolProposal}
use causal_ops.Domain.Model.{Plan}
use causal_ops.EvidenceStore.{Store}
use causal_ops.Graph.State.{
  Env, GraphState, RunEvent, Stage, initial_plan, hypothesis_update, ModelTurn, Sent,
  refused_to_send, crashed_in_call, replied, event, stage_started, stage_finished,
  proposal_recorded, internal_error, stage_stopped, money_refusal_reason_code, rebuild_receipts,
  rebuild_sources, ModelRequest,
}
use causal_ops.Graph.Asking.{
  Asking, start, record_call, record_usage, render_stage_request, Asked, parsed, invalid, refused,
  crashed, Answer, answered, stopped, refused_request, crashed_request, note_stop, ask_with_repair,
}

-- `Stage.INITIAL_PLAN if turn_index == 0 else Stage.HYPOTHESIS_UPDATE`
abbrev pub stage_at : ℕ → Stage
stage_at zero = initial_plan
stage_at (suc _) = hypothesis_update

-- The refusal of two or more calls in one turn; their number, which the text quotes, is left out.
abbrev pub too_many_checks : String
too_many_checks = "the model proposed several checks in one turn; exactly one is allowed"

-- `select_single_tool_call` and `parse_tool_call` on the turn's tool calls.
unfoldable pub select_call : Plan → List (Result String ToolProposal) → Asking → Asked Plan × Asking
select_call plan [] a = (parsed plan, record a { last_proposal = none })
select_call plan (ok proposal ∷ []) a = (parsed plan, record a { last_proposal = some proposal })
select_call plan (raised reason ∷ []) a = (invalid reason, a)
select_call plan (_ ∷ _ ∷ _) a = (invalid too_many_checks, a)

abbrev pub read_turn : Option Plan → ModelTurn → Asking → Asked Plan × Asking
read_turn none turn a = (invalid turn.errors, a)
read_turn (some plan) turn a = select_call plan turn.tool_call a

unfoldable pub read_sent : Sent ModelTurn → Asking → Asked Plan × Asking
read_sent (refused_to_send r) a = (refused r, a)
read_sent crashed_in_call a = (crashed, a)
read_sent (replied turn) a = read_turn turn.parsed turn (record_usage turn.usage a)

module _ (env : Env) (st : GraphState) where
  abbrev pub propose_with : Option ModelRequest → Asking → Asked Plan × Asking
  propose_with none a = (crashed, a)
  propose_with (some request) a =
      read_sent (env.propose a.model_calls_used request) (record_call request.context_digest a)

  -- The node's `ask_once`.
  unfoldable pub ask_once : List ToolReceipt → Store → Option String → Asking → Asked Plan × Asking
  ask_once receipts store errors a =
      propose_with
        (render_stage_request env st receipts store (stage_at st.model_turn) GraphPhase.investigate
          errors a)
        a

  -- The fields that every return of the node writes.
  abbrev pub counted : Asking → GraphState
  counted a = record st {
    phase = GraphPhase.investigate;
    model_calls_used = a.model_calls_used;
    repairs_used = a.repairs_used;
    invalid_responses = a.invalid_responses;
    context_digest = a.context_digest;
    usage = a.usage;
    events = a.events;
  }

  -- Only a stop on the first turn is a failure of the run.
  abbrev pub first_turn_failure : ℕ → ReasonCode → Option ReasonCode
  first_turn_failure zero code = some code
  first_turn_failure (suc _) code = none

  unfoldable pub stopped_state : ReasonCode → Asking → GraphState
  stopped_state code a = record (counted a) {
    pending_proposal = none;
    failure_reason = first_turn_failure st.model_turn code;
  }

  abbrev pub log : causal_ops.Graph.State.EventName → List RunEvent → List RunEvent
  log = event env GraphPhase.investigate

  unfoldable pub conclude : Answer Plan × Asking → GraphState
  conclude (answered plan, a) = record (counted a) {
    model_turn = st.model_turn + 1;
    pending_proposal = a.last_proposal;
    failure_reason = none;
    events =
        log
          (proposal_recorded st.model_turn (stage_at st.model_turn) plan.hypotheses a.last_proposal)
          (log (stage_finished (is_some a.last_proposal)) a.events);
  }
  conclude (stopped code, a) = stopped_state code a
  conclude (refused_request r, a) =
      let code = money_refusal_reason_code r in
      stopped_state code (note_stop env GraphPhase.investigate (stage_at st.model_turn) code a)
  conclude (crashed_request, a) = record (counted a) {
    pending_proposal = none;
    failure_reason = some internal_error_code;
    events = log internal_error a.events;
  }

  abbrev pub first_asking : Asking
  first_asking = start st (log (stage_started (stage_at st.model_turn)) st.events)

  abbrev pub investigate_with : ℕ → List ToolReceipt → Store → GraphState
  investigate_with now receipts store = conclude (
      ask_with_repair env GraphPhase.investigate (stage_at st.model_turn) now st.started_at
        (ask_once receipts store) first_asking)

  -- `none` is an exception that leaves the node: a corrupted checkpoint.
  unfoldable pub investigate : ℕ → Option GraphState
  investigate now = elim (rebuild_receipts st) [
    | none ↦ none
    | some receipts ↦ elim (rebuild_sources st) [
      | none ↦ none
      | some store ↦ some (investigate_with now receipts store)
    ]
  ]
