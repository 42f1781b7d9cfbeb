-- ===== src/Ledger/Lifecycle.antt =====
-- A receipt's way through the ledger: settled once, or denied for free.
use causal_ops.Prelude.{
  ℕ, String, ◌≡◌, ap, ◌∙◌, Bool, true, false, Option, none, some, arith, Result, ok, raised,
  Option-cases, inl, inr,
}
use causal_ops.Domain.Codes.{ToolOutcome, ReasonCode, reserved}
use causal_ops.Domain.Receipts.{ToolReceipt, Evidence, check_lifecycle_coherence}
use causal_ops.Ledger.{
  Ledger, LedgerError, find, put, charges, spent, slots, slots_left, runbook_slots_left,
  settled_receipt, settle, record_denial, receipt_already_settled,
}
use causal_ops.Ledger.Receipts.{
  charge, find_id, find-put_self, spent-put_new, spent-put_old, put_new-Distinct, put_old-Distinct,
}
use causal_ops.Ledger.Slots.{IsWithinBudget}

-- Both pools have the slots that they had.
abbrev pub SameSlots : Ledger → Ledger → Type 0
SameSlots before after =
    (slots_left after ≡ slots_left before) × (runbook_slots_left after ≡ runbook_slots_left before)

module _ (id : String) (outcome : ToolOutcome) (code : Option ReasonCode) (duration : ℕ)
    (digest evidence_id : Option String) (evidence : Option Evidence) (l : Ledger) where
  abbrev settlement : Result LedgerError (ToolReceipt × Ledger)
  settlement = settle id outcome code duration digest evidence_id evidence l

  abbrev over : ToolReceipt → ToolReceipt
  over current = settled_receipt current outcome code duration digest evidence_id

  found_own :
      (current : ToolReceipt)
      → find id l.receipts ≡ some current
      → find current.receipt_id l.receipts ≡ some current
  found_own current found =
      ap (λ k. find k l.receipts) (find_id id current l.receipts found) ∙ found

  settled_over :
      (current : ToolReceipt)
      → find id l.receipts ≡ some current
      → (runbook : Bool) → spent runbook (put (over current) l.receipts) ≡ spent runbook l.receipts
  unfolding charges
  settled_over current found runbook =
      ground
        (arith, spent-put_old runbook (over current) current l.receipts (found_own current found))

  settle_found_lem :
      (r : ToolReceipt) (l' : Ledger)
      → settlement ≡ ok (r, l')
      → (current : ToolReceipt) × (find id l.receipts ≡ some current)
        × (current.state ≡ reserved)
        × (r ≡ over current)
        × (l'.receipts ≡ put (over current) l.receipts)
        × (l'.budget ≡ l.budget)
        × (l'.runbook_budget ≡ l.runbook_budget)
  unfolding settle
  settle_found_lem r l' h = elim (Option-cases (find id l.receipts)) [
    | inl missing ↦ absurd (ground arith)
    | inr (current, found) ↦
        (current, found, ground arith, ground arith, ground arith, ground arith, ground arith)
  ]

  -- A settlement that a ledger of distinct ids and no overspent pool accepts leaves both pools as they
  -- were, keeps the ledger so, and writes a receipt that the lifecycle validator accepts under the id.
  pub settle_keeps_slots :
      (r : ToolReceipt) (l' : Ledger)
      → settlement ≡ ok (r, l')
      → IsWithinBudget l
      → SameSlots l l'
        × IsWithinBudget l'
        × (find id l'.receipts ≡ some r)
        × (check_lifecycle_coherence r ≡ true)
  unfolding slots slots_left runbook_slots_left check_lifecycle_coherence
  settle_keeps_slots r l' h v =
      let (current, found, was, made, wrote, same, same') = settle_found_lem r l' h in
      let own = found_own current found in
      (
        (
          ground (arith, settled_over current found false),
          ground (arith, settled_over current found true),
        ),
        record {
          distinct = rw wrote (put_old-Distinct (over current) current l.receipts v.distinct own);
          checks_fit = ground (arith, v.checks_fit, settled_over current found false);
          searches_fit = ground (arith, v.searches_fit, settled_over current found true);
        },
        cc (
          wrote,
          made,
          find_id id current l.receipts found,
          find-put_self (over current) l.receipts,
        ),
        ground arith,
      )

  -- What has been settled cannot be settled again, with whatever result.
  pub settle-settle :
      (r : ToolReceipt) (l' : Ledger)
      → settlement ≡ ok (r, l')
      → (outcome' : ToolOutcome) (code' : Option ReasonCode) (duration' : ℕ)
        (digest' evidence_id' : Option String) (evidence' : Option Evidence)
      → settle id outcome' code' duration' digest' evidence_id' evidence' l'
        ≡ raised (receipt_already_settled id)
  unfolding settle
  settle-settle r l' h outcome' code' duration' digest' evidence_id' evidence' =
      let (current, found, was, made, wrote, same, same') = settle_found_lem r l' h in
      let now : find id l'.receipts ≡ some r = cc (
        wrote,
        made,
        find_id id current l.receipts found,
        find-put_self (over current) l.receipts,
      ) in
      ground arith

-- A denial that a ledger of distinct ids and no overspent pool records spends nothing from either pool,
-- keeps the ledger so, and is stored under its id.
pub record_denial_keeps_slots :
    (r : ToolReceipt) (l l' : Ledger)
    → record_denial r l ≡ ok l'
    → IsWithinBudget l
    → SameSlots l l' × IsWithinBudget l' × (find r.receipt_id l'.receipts ≡ some r)
unfolding record_denial slots slots_left runbook_slots_left
record_denial_keeps_slots r l l' h v =
    let fresh : find r.receipt_id l.receipts ≡ none = ground arith in
    let wrote : l' ≡ record l { receipts = put r l.receipts } = ground arith in
    let free : (runbook : Bool) → charge runbook r ≡ 0 =
      λ runbook. unfold charges in ground arith in
    (
      (
        ground (arith, spent-put_new false r l.receipts fresh, free false),
        ground (arith, spent-put_new true r l.receipts fresh, free true),
      ),
      record {
        distinct = rw wrote (put_new-Distinct r l.receipts v.distinct fresh);
        checks_fit = ground (arith, spent-put_new false r l.receipts fresh, free false);
        searches_fit = ground (arith, spent-put_new true r l.receipts fresh, free true);
      },
      rw wrote (find-put_self r l.receipts),
    )
