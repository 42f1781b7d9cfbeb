-- ===== src/Ledger/Slots.antt =====
-- The two pools of slots under the ledger's operations.
use causal_ops.Prelude.{
  ℕ, ◌+◌, ◌≤◌, ◌<◌, String, ◌≡◌, refl, Bool, true, false, not, Option, none, some, arith,
  if◌then◌else◌, leb, Bool-cases, inl, inr,
}
use causal_ops.Tools.{ToolName, ToolArguments, is_search_runbooks}
use causal_ops.Domain.Receipts.{ToolReceipt}
use causal_ops.Ledger.{
  Ledger, find, charges, same_pool, spent, slots, slots_left, runbook_slots_left, slots_left_for,
  reserved_receipt, reserve, init,
}
use causal_ops.Ledger.Receipts.{Distinct, charge, find-put_self, spent-put_new, put_new-Distinct}

-- Receipts have distinct ids, and neither pool is overspent.
pub record IsWithinBudget (l : Ledger) : Type 0 where
  pub distinct : Distinct l.receipts
  pub checks_fit : spent false l.receipts ≤ l.budget
  pub searches_fit : spent true l.receipts ≤ l.runbook_budget

pub init-IsWithinBudget : (a b : ℕ) → IsWithinBudget (init a b)
unfolding spent
init-IsWithinBudget a b = record {
  distinct = tt;
  checks_fit = omega arith;
  searches_fit = omega arith;
}

-- `slots_left_for` is the pool of its tool.
pub slots_left_for-eq-slots :
    (tool : ToolName) (l : Ledger) → slots_left_for tool l ≡ slots (is_search_runbooks tool) l
unfolding slots_left_for slots_left runbook_slots_left
slots_left_for-eq-slots tool l = ground arith

module _ (id incident_id : String) (tool : ToolName) (fingerprint : String) (at : ℕ)
    (arguments : ToolArguments) (l : Ledger) where
  abbrev receipt : ToolReceipt
  receipt = reserved_receipt id incident_id tool fingerprint at arguments

  abbrev reservation : Option ToolReceipt × Ledger
  reservation = reserve id incident_id tool fingerprint at arguments l

  charge_reserved :
      (runbook : Bool)
      → charge runbook receipt ≡ (if same_pool (is_search_runbooks tool) runbook then 1 else 0)
  unfolding charges
  charge_reserved runbook = refl

  spent-reserve :
      (runbook : Bool)
      → find id l.receipts ≡ none
      → 0 < slots_left_for tool l
      → spent runbook reservation.1.receipts
        ≡ spent runbook l.receipts + (if same_pool (is_search_runbooks tool) runbook then 1 else 0)
  unfolding reserve
  spent-reserve runbook fresh room =
      ground (arith, spent-put_new runbook receipt l.receipts fresh, charge_reserved runbook)

  -- With a slot left in the tool's pool and a new id, `reserve` writes the reserved receipt under that
  -- id, takes exactly one slot from the tool's pool, and takes none from the other.
  pub reserve_spends_one :
      find id l.receipts ≡ none
      → 0 < slots_left_for tool l
      → (reservation.0 ≡ some receipt)
        × (find id reservation.1.receipts ≡ some receipt)
        × (slots (is_search_runbooks tool) reservation.1 + 1 ≡ slots (is_search_runbooks tool) l)
        × (slots (not (is_search_runbooks tool)) reservation.1
            ≡ slots (not (is_search_runbooks tool)) l)
  unfolding reserve slots
  reserve_spends_one fresh room =
      let room' : 0 < slots (is_search_runbooks tool) l =
        ground (arith, slots_left_for-eq-slots tool l) in
      (
        ground arith,
        ground (arith, find-put_self receipt l.receipts),
        ground (arith, spent-reserve (is_search_runbooks tool) fresh room),
        ground (arith, spent-reserve (not (is_search_runbooks tool)) fresh room),
      )

  -- In a ledger of distinct ids and no overspent pool, reserving under a new id, whether it is granted
  -- or refused, keeps the ids distinct and both pools within their budgets.
  pub reserve-IsWithinBudget :
      find id l.receipts ≡ none → IsWithinBudget l → IsWithinBudget reservation.1
  unfolding reserve slots
  reserve-IsWithinBudget fresh v = elim (Bool-cases (leb (slots_left_for tool l) 0)) [
    | inl full ↦ rw full v
    | inr room ↦ record {
      distinct = rw room (put_new-Distinct receipt l.receipts v.distinct fresh);
      checks_fit = ground (
        arith,
        v.checks_fit,
        spent-put_new false receipt l.receipts fresh,
        charge_reserved false,
        slots_left_for-eq-slots tool l,
      );
      searches_fit = ground (
        arith,
        v.searches_fit,
        spent-put_new true receipt l.receipts fresh,
        charge_reserved true,
        slots_left_for-eq-slots tool l,
      );
    }
  ]
