-- ===== src/Tests/Slots.antt =====
-- The ledger of slots (class ReservationLedger of src/causalops/tool_wrappers.py).
use causal_ops.Prelude.{◌≡◌, ◌↔◌, refl, true, none, some, [], ◌∷◌, ok, raised, arith}
use causal_ops.Tools.{query_metric}
use causal_ops.Domain.Codes.{executed, timeout, denied, settled, not_executed, budget_exhausted}
use causal_ops.Domain.Receipts.{ToolReceipt, check_lifecycle_coherence}
use causal_ops.Ledger.{
  Ledger, find, put, init, slots, slots_left, slots_left_for, spent, charges, reserve,
  settled_receipt, settle, settle_found, record_denial, from_receipts, insert_all,
  receipt_already_settled, duplicate_receipt,
}
use causal_ops.Ledger.Slots.{IsWithinBudget, init-IsWithinBudget}
use causal_ops.Ledger.Lifecycle.{
  SameSlots, settle_keeps_slots, settle-settle, record_denial_keeps_slots,
}
use causal_ops.Ledger.Rebuilding.{from_receipts_rebuilds, from_receipts-ok_iff}
use causal_ops.Ledger.Receipts.{Distinct}
use causal_ops.Tests.Samples.{
  metric_request, fresh_ledger, holding_one, first_receipt, metric_evidence,
}

-- A run of the ledger: no slot is left.
full_is_refused :
    reserve "r_1" "inc_1" query_metric "gateway" 206 metric_request (init 0 1) ≡ (none, init 0 1)
unfolding slots_left_for slots_left slots spent reserve
full_is_refused = refl

empty_within : IsWithinBudget fresh_ledger
empty_within = init-IsWithinBudget 2 1

holding_within : IsWithinBudget holding_one
unfolding spent charges find
holding_within = record {
  distinct = (refl, tt);
  checks_fit = omega arith;
  searches_fit = omega arith;
}

abbrev settled_first : ToolReceipt
settled_first = settled_receipt first_receipt executed none 12 (some "digest") (some "ev_2")

abbrev after_settling : Ledger
after_settling =
    (settle_found first_receipt executed none 12 (some "digest") (some "ev_2")
      (some metric_evidence) holding_one).1

settle_keeps_slots_example :
    SameSlots holding_one after_settling
    × IsWithinBudget after_settling
    × find "r_1" after_settling.receipts ≡ some settled_first
    × check_lifecycle_coherence settled_first ≡ true
unfolding settle find
settle_keeps_slots_example =
    settle_keeps_slots "r_1" executed none 12 (some "digest") (some "ev_2") (some metric_evidence)
      holding_one settled_first after_settling refl holding_within

settle-settle_example :
    settle "r_1" timeout none 9 none none none after_settling
    ≡ raised (receipt_already_settled "r_1")
unfolding settle find
settle-settle_example =
    settle-settle "r_1" executed none 12 (some "digest") (some "ev_2") (some metric_evidence)
      holding_one settled_first after_settling refl timeout none 9 none none none

abbrev refused_receipt : ToolReceipt
refused_receipt = record first_receipt {
  receipt_id = "r_2";
  policy_result = denied;
  state = settled;
  outcome = some not_executed;
  reason_code = some budget_exhausted;
}

abbrev after_denial : Ledger
after_denial = record holding_one { receipts = first_receipt ∷ refused_receipt ∷ [] }

record_denial_keeps_slots_example :
    SameSlots holding_one after_denial
    × IsWithinBudget after_denial
    × find "r_2" after_denial.receipts ≡ some refused_receipt
unfolding record_denial find put
record_denial_keeps_slots_example =
    record_denial_keeps_slots refused_receipt holding_one after_denial refl holding_within

from_receipts_rebuilds_example :
    (l' : Ledger) × (from_receipts holding_one.receipts 2 1 ≡ ok l')
    × (l'.receipts ≡ holding_one.receipts)
    × SameSlots holding_one l'
from_receipts_rebuilds_example = from_receipts_rebuilds holding_one holding_within

from_receipts-ok_iff_example :
    ((l : Ledger) × (from_receipts (first_receipt ∷ refused_receipt ∷ []) 2 1 ≡ ok l))
    ↔ Distinct (first_receipt ∷ refused_receipt ∷ [])
from_receipts-ok_iff_example = from_receipts-ok_iff (first_receipt ∷ refused_receipt ∷ []) 2 1

-- A run of the ledger: an id that occurs twice.
twice_is_refused :
    from_receipts (first_receipt ∷ first_receipt ∷ []) 2 1 ≡ raised (duplicate_receipt "r_1")
unfolding from_receipts insert_all find put
twice_is_refused = refl
