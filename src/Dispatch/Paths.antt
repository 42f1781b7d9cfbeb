-- ===== src/Dispatch/Paths.antt =====
-- What an allowed dispatch leaves: the reserved receipt is settled with the backend's answer, and a
-- backend that raises leaves it reserved.
use causal_ops.Prelude.{
  ◌<◌, String, ◌≡◌, refl, true, false, Option, none, some, List, [], arith, leb, Result, ok,
}
use causal_ops.Tools.{ToolName, ToolArguments, same_tool}
use causal_ops.Domain.Codes.{RetrievalMode, allowed, executed, is_executed, reserved}
use causal_ops.Domain.Json.{Payload}
use causal_ops.Domain.Receipts.{
  Budgets, IncidentScope, ToolProposal, tool, ToolReceipt, Evidence, CheckOutcome,
  RunbookCheckOutcome, RunbookPassage,
}
use causal_ops.Policy.{empty}
use causal_ops.Policy.Decisions.{authorize-allowed_iff}
use causal_ops.Ledger.{
  Ledger, find, put, slots_left_for, reserve, reserved_receipt, settle, settled_receipt,
  keep_evidence,
}
use causal_ops.Dispatch.{
  Backends, Dispatching, DispatchResult, Raised, Minted, dispatch, carry_out, conclude, run_check,
  CheckResult, check, guidance, build_evidence,
}
use causal_ops.Dispatch.Window.{tool-resolve}
use causal_ops.Dispatch.Calls.{effective, decision_at}

pub same_tool_eq : (a b : ToolName) → same_tool a b ≡ true → a ≡ b
same_tool_eq a b h = ground arith

-- The returned value and the ledger once `current` has been settled to `r`.
module _ (l : Ledger) (current : ToolReceipt) where
  abbrev pub outcome_of :
      ToolReceipt
      → Option Evidence
      → List RunbookPassage
      → Option RetrievalMode
      → Result Raised DispatchResult × Ledger
  outcome_of r e passages mode = (
    ok (record {
      receipt = r;
      evidence = e;
      passages = passages;
      retrieval_mode = mode;
      message = empty;
    }),
    record l {
      receipts = put r l.receipts;
      evidence = keep_evidence current.receipt_id e l.evidence;
    },
  )

-- The backend's answer over a ledger where the receipt waits to be settled.
module _ (content_hash : Payload → String) (scope : IncidentScope) (m : Minted) (l : Ledger)
    (current : ToolReceipt) (found : find m.receipt_id l.receipts ≡ some current)
    (waiting : current.state ≡ reserved) (own : current.receipt_id ≡ m.receipt_id) where
  pub conclude_executed :
      (o : CheckOutcome) (e : Evidence)
      → o.outcome ≡ executed
      → build_evidence content_hash o scope m ≡ some e
      → conclude content_hash (check o) scope m l
        ≡ outcome_of l current
            (settled_receipt current o.outcome o.reason_code o.duration_ms
              (some e.content_hash)
              (some e.evidence_id))
            (some e)
            []
            none
  unfolding conclude settle
  conclude_executed o e ran built = ground arith

  pub conclude_failed :
      (o : CheckOutcome)
      → is_executed o.outcome ≡ false
      → conclude content_hash (check o) scope m l
        ≡ outcome_of l current
            (settled_receipt current o.outcome o.reason_code o.duration_ms none none)
            none
            []
            none
  unfolding conclude settle
  conclude_failed o failed = ground arith

  pub conclude_guidance :
      (o : RunbookCheckOutcome)
      → conclude content_hash (guidance o) scope m l
        ≡ outcome_of l current
            (settled_receipt current o.outcome o.reason_code o.duration_ms none none)
            none
            o.passages
            (some o.retrieval_mode)
  unfolding conclude settle
  conclude_guidance o = ground arith

module _ (fingerprint : ToolArguments → String) (content_hash : Payload → String) (b : Backends)
    (wrapper : ToolName) (p : ToolProposal) (scope : IncidentScope) (budgets : Budgets) (m : Minted)
    (s : Dispatching) where
  abbrev pub dispatched : Result Raised DispatchResult × Dispatching
  dispatched = dispatch fingerprint content_hash b wrapper p scope budgets m s

  -- The receipt that an allowed dispatch reserves, and the ledger that holds it.
  abbrev pub reservation : ToolReceipt
  reservation =
      reserved_receipt m.receipt_id scope.incident_id (tool (effective p scope))
        (decision_at fingerprint wrapper p scope budgets s).fingerprint m.requested_at
        (effective p scope).arguments

  abbrev pub holding : Ledger
  holding = record s.ledger { receipts = put reservation s.ledger.receipts }

  -- The backend's answer at the effective arguments.
  abbrev pub answer : CheckResult
  answer = run_check b (effective p scope).arguments scope

  pub slot_left :
      same_tool wrapper (tool p) ≡ true
      → (decision_at fingerprint wrapper p scope budgets s).result ≡ allowed
      → leb (slots_left_for (tool (effective p scope)) s.ledger) 0 ≡ false
  slot_left same ok' =
      let room : 0 < slots_left_for wrapper s.ledger =
        ((authorize-allowed_iff fingerprint (effective p scope) scope s.seen budgets
            (slots_left_for wrapper s.ledger)).0
          ok').0 in
      rw (tool-resolve p.arguments scope, ← same_tool_eq wrapper (tool p) same) (ground arith)

  pub dispatch_allowed :
      same_tool wrapper (tool p) ≡ true
      → (decision_at fingerprint wrapper p scope budgets s).result ≡ allowed
      → (dispatched.0 ≡ (conclude content_hash answer scope m holding).0)
        × (dispatched.1.ledger ≡ (conclude content_hash answer scope m holding).1)
  unfolding dispatch carry_out reserve
  dispatch_allowed same ok' = rw (slot_left same ok', same, ok') (refl, refl)

  -- With the policy's consent there is a slot, and `reserve` leaves the holding ledger.
  pub reserve_holds :
      same_tool wrapper (tool p) ≡ true
      → (decision_at fingerprint wrapper p scope budgets s).result ≡ allowed
      → (reserve m.receipt_id scope.incident_id
          (tool (effective p scope))
          (decision_at fingerprint wrapper p scope budgets s).fingerprint
          m.requested_at
          (effective p scope).arguments
          s.ledger).1
        ≡ holding
  unfolding reserve
  reserve_holds same ok' = rw (slot_left same ok')
