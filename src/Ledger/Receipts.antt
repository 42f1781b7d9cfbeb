-- ===== src/Ledger/Receipts.antt =====
-- The dict of receipts under lookup and assignment, and the slots that its entries charge.
use causal_ops.Prelude.{
  ℕ, ◌+◌, String, ◌≡◌, Bool, none, some, List, [], ◌∷◌, arith, eq_iff, if◌then◌else◌, ◌++◌,
}
use causal_ops.Domain.Receipts.{ToolReceipt}
use causal_ops.Ledger.{find, put, charges, spent}

-- No two entries of the dict have one key.
abbrev pub Distinct : List ToolReceipt → Type 0
Distinct [] = Unit
Distinct (r ∷ rs) = (find r.receipt_id rs ≡ none) × Distinct rs

abbrev pub charge : Bool → ToolReceipt → ℕ
charge runbook r = if charges runbook r then 1 else 0

pub find_id :
    (id : String) (r : ToolReceipt) (rs : List ToolReceipt)
    → find id rs ≡ some r
    → r.receipt_id ≡ id
unfolding find
find_id id r [] h = ground arith
find_id id r (x ∷ xs) h = ground (arith, find_id id r xs, eq_iff x.receipt_id id)

pub find-put_self :
    (r : ToolReceipt) (rs : List ToolReceipt) → find r.receipt_id (put r rs) ≡ some r
unfolding find put
find-put_self r [] = ground (arith, eq_iff r.receipt_id r.receipt_id)
find-put_self r (x ∷ xs) =
    ground (
      arith,
      find-put_self r xs,
      eq_iff x.receipt_id r.receipt_id,
      eq_iff r.receipt_id r.receipt_id,
    )

pub find-put :
    (id : String) (r : ToolReceipt) (rs : List ToolReceipt)
    → find r.receipt_id rs ≡ none
    → find id rs ≡ none
    → ¬ (r.receipt_id ≡ id)
    → find id (put r rs) ≡ none
unfolding find put
find-put id r [] h k n = ground (arith, eq_iff r.receipt_id id)
find-put id r (x ∷ xs) h k n =
    ground (arith, find-put id r xs, eq_iff x.receipt_id r.receipt_id, eq_iff x.receipt_id id)

-- A new key goes to the end.
pub put_new :
    (r : ToolReceipt) (rs : List ToolReceipt)
    → find r.receipt_id rs ≡ none
    → put r rs ≡ rs ++ r ∷ []
unfolding find put
put_new r [] h = ground arith
put_new r (x ∷ xs) h = ground (arith, put_new r xs, eq_iff x.receipt_id r.receipt_id)

pub spent-put_new :
    (b : Bool) (r : ToolReceipt) (rs : List ToolReceipt)
    → find r.receipt_id rs ≡ none
    → spent b (put r rs) ≡ spent b rs + charge b r
unfolding find put spent
spent-put_new b r [] h = omega arith
spent-put_new b r (x ∷ xs) h =
    ground (arith, spent-put_new b r xs, eq_iff x.receipt_id r.receipt_id)

-- Writing over an entry swaps its charge for the new one.
pub spent-put_old :
    (b : Bool) (r old : ToolReceipt) (rs : List ToolReceipt)
    → find r.receipt_id rs ≡ some old
    → spent b (put r rs) + charge b old ≡ spent b rs + charge b r
unfolding find put spent
spent-put_old b r old [] h = ground arith
spent-put_old b r old (x ∷ xs) h =
    ground (arith, spent-put_old b r old xs, eq_iff x.receipt_id r.receipt_id)

find-put_old :
    (id : String) (r old : ToolReceipt) (rs : List ToolReceipt)
    → find r.receipt_id rs ≡ some old
    → find id rs ≡ none
    → find id (put r rs) ≡ none
unfolding find put
find-put_old id r old [] h k = ground arith
find-put_old id r old (x ∷ xs) h k = ground (
  arith,
  find-put_old id r old xs,
  eq_iff x.receipt_id r.receipt_id,
  eq_iff x.receipt_id id,
  eq_iff r.receipt_id id,
)

pub put_new-Distinct :
    (r : ToolReceipt) (rs : List ToolReceipt)
    → Distinct rs
    → find r.receipt_id rs ≡ none
    → Distinct (put r rs)
unfolding find put
put_new-Distinct r [] d h = ground arith
put_new-Distinct r (x ∷ xs) d h =
    ground (
      arith,
      put_new-Distinct r xs d.1,
      find-put x.receipt_id r xs,
      eq_iff x.receipt_id r.receipt_id,
    )

pub put_old-Distinct :
    (r old : ToolReceipt) (rs : List ToolReceipt)
    → Distinct rs
    → find r.receipt_id rs ≡ some old
    → Distinct (put r rs)
unfolding find put
put_old-Distinct r old [] d h = ground arith
put_old-Distinct r old (x ∷ xs) d h = ground (
  arith,
  put_old-Distinct r old xs d.1,
  find-put_old x.receipt_id r old xs,
  eq_iff x.receipt_id r.receipt_id,
)
