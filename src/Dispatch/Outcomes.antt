-- ===== src/Dispatch/Outcomes.antt =====
-- What an allowed dispatch returns and stores, by what the backend did.
use mathlib.Core.Path.{subst}
use causal_ops.Policy.{empty}
use causal_ops.Prelude.{
  String, ◌≡◌, refl, ap, ◌∙◌, true, false, Option, none, some, List, [], Result, ok, raised,
}
use causal_ops.Tools.{ToolName, ToolArguments, same_tool}
use causal_ops.Domain.Codes.{RetrievalMode, allowed, executed, settled, reserved, is_executed}
use causal_ops.Domain.Json.{Payload}
use causal_ops.Domain.Receipts.{
  Budgets, IncidentScope, ToolProposal, tool, ToolReceipt, Evidence, CheckOutcome,
  RunbookCheckOutcome, RunbookPassage, check_lifecycle_coherence,
}
use causal_ops.Ledger.{Ledger, find, settled_receipt, put}
use causal_ops.Ledger.Receipts.{find-put_self}
use causal_ops.Dispatch.{
  Backends, Dispatching, DispatchResult, Raised, Minted, conclude, CheckResult, check, guidance,
  crash, build_evidence, backend_crashed,
}
use causal_ops.Dispatch.Calls.{decision_at}
use causal_ops.Dispatch.Paths.{
  dispatched, reservation, holding, answer, dispatch_allowed, outcome_of, conclude_executed,
  conclude_failed, conclude_guidance,
}

abbrev pub id_of : Option Evidence → Option String
id_of none = none
id_of (some e) = some e.evidence_id

-- A returned result, its receipt settled and stored under the minted id, and what else it holds.
pub record IsSettledAs (result : Result Raised DispatchResult) (l : Ledger) (m : Minted)
    (evidence : Option Evidence) (passages : List RunbookPassage) (mode : Option RetrievalMode)
    : Type 0 where
  pub value : DispatchResult
  pub returned : result ≡ ok value
  pub is_settled : value.receipt.state ≡ settled
  pub coherent : check_lifecycle_coherence value.receipt ≡ true
  pub stored : find m.receipt_id l.receipts ≡ some value.receipt
  pub evidence_is : value.evidence ≡ evidence
  pub cited : value.receipt.evidence_id ≡ id_of evidence
  pub passages_are : value.passages ≡ passages
  pub mode_is : value.retrieval_mode ≡ mode

module _ (fingerprint : ToolArguments → String) (content_hash : Payload → String) (b : Backends)
    (wrapper : ToolName) (p : ToolProposal) (scope : IncidentScope) (budgets : Budgets) (m : Minted)
    (s : Dispatching) (same : same_tool wrapper (tool p) ≡ true)
    (passed : (decision_at fingerprint wrapper p scope budgets s).result ≡ allowed) where
  abbrev ended : Result Raised DispatchResult × Dispatching
  ended = dispatched fingerprint content_hash b wrapper p scope budgets m s

  abbrev before : Ledger
  before = holding fingerprint content_hash b wrapper p scope budgets m s

  abbrev kept : ToolReceipt
  kept = reservation fingerprint content_hash b wrapper p scope budgets m s

  abbrev reply : CheckResult
  reply = answer fingerprint content_hash b wrapper p scope budgets m s

  -- For an allowed proposal of the wrapper's tool, a backend that raises leaves the receipt reserved in the ledger: the attempt is on record.
  pub crash_leaves_reserved :
      reply ≡ crash
      → (ended.0 ≡ raised backend_crashed)
        × (find m.receipt_id ended.1.ledger.receipts ≡ some kept)
        × (kept.state ≡ reserved)
  unfolding conclude
  crash_leaves_reserved crashed =
      let (result, left) =
        dispatch_allowed fingerprint content_hash b wrapper p scope budgets m s same passed in
      (
        result ∙ ap (λ a. (conclude content_hash a scope m before).0) crashed,
        rw (left, crashed) (find-put_self kept s.ledger.receipts),
        refl,
      )

  IsSettledAs-outcome :
      (receipt : ToolReceipt) (evidence : Option Evidence) (passages : List RunbookPassage)
      (mode : Option RetrievalMode)
      → conclude content_hash reply scope m before
        ≡ outcome_of before kept receipt evidence passages mode
      → receipt.receipt_id ≡ m.receipt_id
      → receipt.state ≡ settled
      → check_lifecycle_coherence receipt ≡ true
      → receipt.evidence_id ≡ id_of evidence
      → IsSettledAs ended.0 ended.1.ledger m evidence passages mode
  IsSettledAs-outcome receipt evidence passages mode concluded own is coherent cited =
      let (result, left) =
        dispatch_allowed fingerprint content_hash b wrapper p scope budgets m s same passed in
      record {
        value = record {
          receipt = receipt;
          evidence = evidence;
          passages = passages;
          retrieval_mode = mode;
          message = empty;
        };
        returned = result ∙ ap (λ (r : Result Raised DispatchResult × Ledger). r.0) concluded;
        is_settled = is;
        coherent = coherent;
        stored =
            rw (left, concluded)
              (subst (λ k. find k (put receipt before.receipts) ≡ some receipt) own
                (find-put_self receipt before.receipts));
        evidence_is = refl;
        cited = cited;
        passages_are = refl;
        mode_is = refl;
      }

  abbrev found : find m.receipt_id before.receipts ≡ some kept
  found = find-put_self kept s.ledger.receipts

  -- An allowed check of the wrapper's tool that executed, and whose summary fits, returns its evidence; the settled receipt is
  -- stored under the minted id and cites that evidence.
  pub executed_check_settles :
      (o : CheckOutcome) (e : Evidence)
      → reply ≡ check o
      → o.outcome ≡ executed
      → build_evidence content_hash o scope m ≡ some e
      → IsSettledAs ended.0 ended.1.ledger m (some e) [] none
  unfolding check_lifecycle_coherence
  executed_check_settles o e answered ran built =
      IsSettledAs-outcome
        (settled_receipt kept o.outcome o.reason_code o.duration_ms (some e.content_hash)
          (some e.evidence_id))
        (some e) [] none
        (rw answered
          (conclude_executed content_hash scope m before kept found refl refl o e ran built))
        refl refl refl refl

  -- An allowed check of the wrapper's tool that did not execute (a timeout, an unavailable backend, an error) returns no evidence,
  -- and its receipt is settled and cites none.
  pub failed_check_settles :
      (o : CheckOutcome)
      → reply ≡ check o
      → is_executed o.outcome ≡ false
      → IsSettledAs ended.0 ended.1.ledger m none [] none
  unfolding check_lifecycle_coherence
  failed_check_settles o answered failed =
      IsSettledAs-outcome (settled_receipt kept o.outcome o.reason_code o.duration_ms none none)
        none [] none
        (rw answered (conclude_failed content_hash scope m before kept found refl refl o failed))
        refl refl refl refl

  -- An allowed runbook search, whatever its outcome, returns its passages and the mode it ran in, and never
  -- evidence.
  pub guidance_is_no_evidence :
      (o : RunbookCheckOutcome)
      → reply ≡ guidance o
      → IsSettledAs ended.0 ended.1.ledger m none o.passages (some o.retrieval_mode)
  unfolding check_lifecycle_coherence
  guidance_is_no_evidence o answered =
      IsSettledAs-outcome (settled_receipt kept o.outcome o.reason_code o.duration_ms none none)
        none o.passages (some o.retrieval_mode)
        (rw answered (conclude_guidance content_hash scope m before kept found refl refl o)) refl
        refl refl refl
