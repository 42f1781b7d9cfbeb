-- ===== src/Ledger/Rebuilding.antt =====
-- `from_receipts`: which lists of receipts a ledger is rebuilt from, and what it then holds.
use mathlib.Core.List.{append-nil, append_assoc}
use causal_ops.Prelude.{
  ℕ, String, ◌≡◌, ◌↔◌, refl, sym, ap, ◌∙◌, none, List, [], ◌∷◌, ◌++◌, arith, eq_iff, ok,
  Option-cases, inl, inr,
}
use causal_ops.Domain.Receipts.{ToolReceipt}
use causal_ops.Ledger.{
  Ledger, find, put, slots, slots_left, runbook_slots_left, init, insert_all, from_receipts,
}
use causal_ops.Ledger.Receipts.{Distinct, find-put, put_new}
use causal_ops.Ledger.Slots.{IsWithinBudget}
use causal_ops.Ledger.Lifecycle.{SameSlots}

-- None of the receipts' ids is in use.
abbrev New : List ToolReceipt → List ToolReceipt → Type 0
New [] old = Unit
New (r ∷ rs) old = (find r.receipt_id old ≡ none) × New rs old

New-put :
    (r : ToolReceipt) (rs old : List ToolReceipt)
    → find r.receipt_id rs ≡ none
    → find r.receipt_id old ≡ none
    → New rs old
    → New rs (put r old)
unfolding find
New-put r [] old apart fresh new = tt
New-put r (x ∷ xs) old apart fresh new =
    let apart' : ¬ (r.receipt_id ≡ x.receipt_id) =
      λ e. ground (arith, eq_iff x.receipt_id r.receipt_id) in
    (
      find-put x.receipt_id r old fresh new.0 apart',
      New-put r xs old (ground (arith, eq_iff x.receipt_id r.receipt_id)) fresh new.1,
    )

insert_all-New :
    (rs : List ToolReceipt) (l : Ledger)
    → Distinct rs
    → New rs l.receipts
    → insert_all rs l ≡ ok (record l { receipts = l.receipts ++ rs })
unfolding insert_all
insert_all-New [] l d new = ap (λ rs. ok (record l { receipts = rs })) (sym (append-nil l.receipts))
insert_all-New (r ∷ rs) l d new =
    let l' : Ledger = record l { receipts = put r l.receipts } in
    let rest : insert_all rs l' ≡ ok (record l { receipts = put r l.receipts ++ rs }) =
      insert_all-New rs l' d.1 (New-put r rs l.receipts d.0 new.0 new.1) in
    let step : put r l.receipts ++ rs ≡ l.receipts ++ r ∷ rs =
      ap (λ xs. xs ++ rs) (put_new r l.receipts new.0) ∙ append_assoc l.receipts (r ∷ []) rs in
    rw new.0 (rest ∙ ap (λ xs. ok (record l { receipts = xs })) step)

New-nil : (rs : List ToolReceipt) → New rs []
unfolding find
New-nil [] = tt
New-nil (r ∷ rs) = (refl, New-nil rs)

-- A ledger that is rebuilt from the receipts that a valid one dumped holds the same receipts in the
-- same order, and has the same slots left in both pools.
pub from_receipts_rebuilds :
    (l : Ledger)
    → IsWithinBudget l
    → (l' : Ledger) × (from_receipts l.receipts l.budget l.runbook_budget ≡ ok l')
      × (l'.receipts ≡ l.receipts)
      × SameSlots l l'
unfolding from_receipts slots slots_left runbook_slots_left
from_receipts_rebuilds l v = (
  record l { evidence = [] },
  insert_all-New l.receipts (init l.budget l.runbook_budget) v.distinct (New-nil l.receipts),
  refl,
  (refl, refl),
)

find-put-none :
    (id : String) (r : ToolReceipt) (rs : List ToolReceipt)
    → find id (put r rs) ≡ none
    → (find id rs ≡ none) × ¬ (r.receipt_id ≡ id)
unfolding find put
find-put-none id r [] h = (refl, λ e. ground (arith, eq_iff r.receipt_id id))
find-put-none id r (x ∷ xs) h =
    let rest = find-put-none id r xs in
    (
      ground (
        arith,
        rest,
        eq_iff x.receipt_id r.receipt_id,
        eq_iff x.receipt_id id,
        eq_iff r.receipt_id id,
      ),
      λ e. ground (
        arith,
        rest,
        eq_iff x.receipt_id r.receipt_id,
        eq_iff x.receipt_id id,
        eq_iff r.receipt_id id,
      ),
    )

New-put-New :
    (r : ToolReceipt) (rs old : List ToolReceipt)
    → New rs (put r old)
    → New rs old × (find r.receipt_id rs ≡ none)
unfolding find
New-put-New r [] old new = (tt, refl)
New-put-New r (x ∷ xs) old new =
    let (absent, apart) = find-put-none x.receipt_id r old new.0 in
    let (rest, none_left) = New-put-New r xs old new.1 in
    ((absent, rest), ground (arith, eq_iff x.receipt_id r.receipt_id))

insert_all-ok :
    (rs : List ToolReceipt) (l l' : Ledger)
    → insert_all rs l ≡ ok l'
    → New rs l.receipts × Distinct rs
unfolding insert_all
insert_all-ok [] l l' h = (tt, tt)
insert_all-ok (r ∷ rs) l l' h = elim (Option-cases (find r.receipt_id l.receipts)) [
  | inr (found, e) ↦ absurd (let h' = rw e at h in ground arith)
  | inl absent ↦
      let h' = rw absent at h in
      let (new, distinct) = insert_all-ok rs (record l { receipts = put r l.receipts }) l' h' in
      let (old, apart) = New-put-New r rs l.receipts new in ((absent, old), (apart, distinct))
]

-- A ledger is rebuilt from a list of receipts exactly when no id occurs twice in the list.
pub from_receipts-ok_iff :
    (receipts : List ToolReceipt) (budget runbook_budget : ℕ)
    → ((l : Ledger) × (from_receipts receipts budget runbook_budget ≡ ok l)) ↔ Distinct receipts
unfolding from_receipts
from_receipts-ok_iff receipts budget runbook_budget = (
  λ (l, h). (insert_all-ok receipts (init budget runbook_budget) l h).1,
  λ distinct. (
    record (init budget runbook_budget) { receipts = receipts },
    insert_all-New receipts (init budget runbook_budget) distinct (New-nil receipts),
  ),
)
