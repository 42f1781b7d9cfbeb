-- ===== src/Graph/DispatchTool.antt =====
-- The `dispatch_tool` and `normalize_evidence` nodes of src/causalops/graph.py. The set of seen
-- fingerprints is written back in the order of its insertions, not sorted: only membership is read.
use causal_ops.Prelude.{
  ℕ, ◌-◌, String, Option, none, some, List, ◌++◌, [], ◌∷◌, map, length, if◌then◌else◌, Result, ok,
  raised,
}
use causal_ops.Domain.Codes.{
  GraphPhase, RetrievalMode, PolicyResult, allowed, denied, internal_error as internal_error_code,
}
use causal_ops.Domain.Receipts.{ToolProposal, tool, Evidence, check_proposal}
use causal_ops.Ledger.{Ledger, from_receipts}
use causal_ops.Dispatch.{DispatchResult, Dispatching, Minted, Raised, dispatch}
use causal_ops.Graph.State.{
  Env, GraphState, RunEvent, EventName, event, proposal_received, proposal_denied, check_started,
  check_finished, backend_crashed, evidence_normalized, rebuild_receipts, ledger_of,
}

-- `_proposal_turn`
unfoldable pub proposal_turn : GraphState → ℕ
proposal_turn st = st.model_turn - 1

abbrev pub or_keep : Option RetrievalMode → RetrievalMode → RetrievalMode
or_keep none old = old
or_keep (some new) old = new

abbrev pub with_evidence : Option Evidence → List Evidence → List Evidence
with_evidence none es = es
with_evidence (some e) es = es ++ e ∷ []

abbrev pub second : String × Evidence → Evidence
second (_, e) = e

module _ (env : Env) (st : GraphState) where
  abbrev pub log : EventName → List RunEvent → List RunEvent
  log = event env GraphPhase.dispatch_tool

  -- A denial has one event, an executed check two.
  abbrev pub log_result :
      ToolProposal → PolicyResult → DispatchResult → List RunEvent → List RunEvent
  log_result proposal denied r events =
      log (proposal_denied (proposal_turn st) r.receipt.receipt_id r.receipt.reason_code r.message)
        events
  log_result proposal allowed r events =
      log
        (check_finished (proposal_turn st) r.receipt.receipt_id r.receipt.outcome
          r.receipt.duration_ms)
        (log (check_started (tool proposal)) events)

  unfoldable pub absorb :
      ToolProposal → List RunEvent → Result Raised DispatchResult × Dispatching → GraphState
  absorb proposal events (ok r, d) = record st {
    phase = GraphPhase.dispatch_tool;
    receipts = d.ledger.receipts;
    seen_fingerprints = d.seen;
    pending_proposal = none;
    evidence = with_evidence r.evidence st.evidence;
    runbook_passages = st.runbook_passages ++ r.passages;
    retrieval_mode = or_keep r.retrieval_mode st.retrieval_mode;
    events = log_result proposal r.receipt.policy_result r events;
  }
  absorb proposal events (raised _, d) = record st {
    phase = GraphPhase.dispatch_tool;
    receipts = d.ledger.receipts;
    seen_fingerprints = d.seen;
    pending_proposal = none;
    evidence = st.evidence ++ map second d.ledger.evidence;
    failure_reason = some internal_error_code;
    events = log backend_crashed events;
  }

  abbrev pub dispatch_with : ToolProposal → Minted → Ledger → GraphState
  dispatch_with proposal m ledger =
      absorb proposal (log (proposal_received (tool proposal)) st.events) (
        dispatch env.fingerprint env.content_hash env.backends (tool proposal) proposal env.scope
          env.budgets m (record { seen = st.seen_fingerprints; ledger = ledger }))

  abbrev pub dispatch_over :
      ToolProposal → Minted → Result causal_ops.Ledger.LedgerError Ledger → Option GraphState
  dispatch_over proposal m (raised _) = none
  dispatch_over proposal m (ok ledger) = some (dispatch_with proposal m ledger)

  abbrev pub dispatch_rebuilt : ToolProposal → Minted → Option GraphState
  dispatch_rebuilt proposal m = elim (rebuild_receipts st) [
    | none ↦ none
    | some receipts ↦ dispatch_over proposal m (ledger_of receipts env.budgets)
  ]

  -- `none` is an exception that leaves the node: no pending proposal or one that does not
  -- validate, or a corrupted checkpoint.
  unfoldable pub dispatch_tool : Minted → Option GraphState
  dispatch_tool m = elim st.pending_proposal [
    | none ↦ none
    | some proposal ↦ if check_proposal proposal then dispatch_rebuilt proposal m else none
  ]

  unfoldable pub normalize_evidence : GraphState
  normalize_evidence = record st {
    phase = GraphPhase.normalize_evidence;
    events =
        event env GraphPhase.normalize_evidence (evidence_normalized (length st.evidence))
          st.events;
  }
