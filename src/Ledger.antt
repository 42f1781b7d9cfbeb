-- ===== src/Ledger.antt =====
-- class ReservationLedger of src/causalops/tool_wrappers.py. The dict of receipts is the list of its
-- values in insertion order, keyed by their `receipt_id`. `uuid4` gives each new receipt its id: an
-- argument of `reserve`. The slots left are native numbers: the code asks only whether any is left.
pub mod Receipts
pub mod Slots
pub mod Lifecycle
pub mod Rebuilding
use causal_ops.Prelude.{
  ℕ, ◌-◌, String, Bool, true, false, not, Option, none, some, List, [], ◌∷◌, ◌++◌, ◌&&◌, leb,
  is_some, count_if, if◌then◌else◌, ◌==◌, Result, ok, raised,
}
use causal_ops.Tools.{ToolName, ToolArguments, is_search_runbooks}
use causal_ops.Domain.Codes.{
  PolicyResult, allowed, denied, ToolOutcome, ReasonCode, ReceiptState, reserved, settled,
  is_allowed, is_denied, is_reserved, is_settled,
}
use causal_ops.Domain.Receipts.{ToolReceipt, Evidence}

pub record Ledger : Type 0 where
  pub budget : ℕ
  pub runbook_budget : ℕ
  pub receipts : List ToolReceipt
  pub evidence : List (String × Evidence)

-- What its methods raise: `ReceiptAlreadySettled`, and the three `ValueError`s of `record` and
-- `from_receipts`.
pub data LedgerError : Type 0 where
  receipt_already_settled not_settled already_recorded not_a_denial : String → LedgerError
  duplicate_receipt : String → LedgerError

-- `self._receipts.get(receipt_id)`
unfoldable pub find : String → List ToolReceipt → Option ToolReceipt
find id [] = none
find id (r ∷ rs) = if r.receipt_id == id then some r else find id rs

-- `self._receipts[receipt.receipt_id] = receipt`
unfoldable pub put : ToolReceipt → List ToolReceipt → List ToolReceipt
put new [] = new ∷ []
put new (r ∷ rs) =
    let rest = put new rs in if r.receipt_id == new.receipt_id then new ∷ rs else r ∷ rest

-- `self._evidence[receipt_id] = evidence`
unfoldable pub put_evidence :
    String → Evidence → List (String × Evidence) → List (String × Evidence)
put_evidence id e [] = (id, e) ∷ []
put_evidence id e ((j, f) ∷ es) =
    let rest = put_evidence id e es in if j == id then (j, e) ∷ es else (j, f) ∷ rest

abbrev pub init : ℕ → ℕ → Ledger
init executed_tools_budget runbook_searches_budget = record {
  budget = executed_tools_budget;
  runbook_budget = runbook_searches_budget;
  receipts = [];
  evidence = [];
}

unfoldable pub insert_all : List ToolReceipt → Ledger → Result LedgerError Ledger
insert_all [] l = ok l
insert_all (r ∷ rs) l =
    let rest = insert_all rs (record l { receipts = put r l.receipts }) in
    if is_some (find r.receipt_id l.receipts) then raised (duplicate_receipt r.receipt_id) else rest

unfoldable pub from_receipts : List ToolReceipt → ℕ → ℕ → Result LedgerError Ledger
from_receipts receipts executed_tools_budget runbook_searches_budget =
    insert_all receipts (init executed_tools_budget runbook_searches_budget)

abbrev pub same_pool : Bool → Bool → Bool
same_pool true b = b
same_pool false b = not b

-- A receipt that counts against the pool of runbook searches, or against that of the other checks.
unfoldable pub charges : Bool → ToolReceipt → Bool
charges runbook r = is_allowed r.policy_result && same_pool (is_search_runbooks r.tool) runbook

-- `_spent(runbook=...)`
unfoldable pub spent : Bool → List ToolReceipt → ℕ
unfolding charges
spent runbook receipts = count_if (charges runbook) receipts

abbrev pub pool : Bool → Ledger → ℕ
pool runbook l = if runbook then l.runbook_budget else l.budget

-- `slots_left` for `false`, `runbook_slots_left` for `true`
unfoldable pub slots : Bool → Ledger → ℕ
slots runbook l = pool runbook l - spent runbook l.receipts

unfoldable pub slots_left : Ledger → ℕ
slots_left l = slots false l

unfoldable pub runbook_slots_left : Ledger → ℕ
runbook_slots_left l = slots true l

unfoldable pub slots_left_for : ToolName → Ledger → ℕ
slots_left_for tool l = if is_search_runbooks tool then runbook_slots_left l else slots_left l

-- The receipt that `reserve` writes.
abbrev pub reserved_receipt : String → String → ToolName → String → ℕ → ToolArguments → ToolReceipt
reserved_receipt id incident_id tool fingerprint requested_at arguments = record {
  receipt_id = id;
  incident_id = incident_id;
  tool = tool;
  fingerprint = fingerprint;
  policy_result = allowed;
  state = reserved;
  outcome = none;
  reason_code = none;
  requested_at = requested_at;
  duration_ms = 0;
  result_digest = none;
  evidence_id = none;
  arguments = some arguments;
}

-- `none` is the refusal, which leaves the ledger alone.
unfoldable pub reserve :
    String → String → ToolName → String → ℕ → ToolArguments → Ledger → Option ToolReceipt × Ledger
reserve id incident_id tool fingerprint requested_at arguments l =
    let receipt = reserved_receipt id incident_id tool fingerprint requested_at arguments in
    if leb (slots_left_for tool l) 0
    then (none, l)
    else (some receipt, record l { receipts = put receipt l.receipts })

-- The receipt that `settle` writes over the reserved one.
abbrev pub settled_receipt :
    ToolReceipt → ToolOutcome → Option ReasonCode → ℕ → Option String → Option String → ToolReceipt
settled_receipt current outcome code duration_ms digest evidence_id = record current {
  state = settled;
  outcome = some outcome;
  reason_code = code;
  duration_ms = duration_ms;
  result_digest = digest;
  evidence_id = evidence_id;
}

abbrev pub keep_evidence :
    String → Option Evidence → List (String × Evidence) → List (String × Evidence)
keep_evidence id none es = es
keep_evidence id (some e) es = put_evidence id e es

-- `settle` once the receipt is found to be reserved.
abbrev pub settle_found :
    ToolReceipt
    → ToolOutcome
    → Option ReasonCode
    → ℕ
    → Option String
    → Option String
    → Option Evidence
    → Ledger
    → ToolReceipt × Ledger
settle_found current outcome code duration_ms digest evidence_id evidence l =
    let receipt = settled_receipt current outcome code duration_ms digest evidence_id in
    (
      receipt,
      record l {
        receipts = put receipt l.receipts;
        evidence = keep_evidence current.receipt_id evidence l.evidence;
      },
    )

unfoldable pub settle :
    String
    → ToolOutcome
    → Option ReasonCode
    → ℕ
    → Option String
    → Option String
    → Option Evidence
    → Ledger
    → Result LedgerError (ToolReceipt × Ledger)
settle id outcome code duration_ms digest evidence_id evidence l = elim (find id l.receipts) [
  | none ↦ raised (receipt_already_settled id)
  | some current ↦
      if is_reserved current.state
      then ok (settle_found current outcome code duration_ms digest evidence_id evidence l)
      else raised (receipt_already_settled id)
]

-- `record` of the source, for a denial that never spends a slot.
unfoldable pub record_denial : ToolReceipt → Ledger → Result LedgerError Ledger
record_denial r l =
    if not (is_settled r.state)
    then raised (not_settled r.receipt_id)
    else if is_some (find r.receipt_id l.receipts)
    then raised (already_recorded r.receipt_id)
    else if not (is_denied r.policy_result)
    then raised (not_a_denial r.receipt_id)
    else ok (record l { receipts = put r l.receipts })
