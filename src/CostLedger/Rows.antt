-- ===== src/CostLedger/Rows.antt =====
-- The rows of the table under an INSERT and an UPDATE, and what a reservation may do.
use causal_ops.Prelude.{
  ℕ, ◌+◌, ◌≤◌, ◌≡◌, refl, Bool, true, false, Option, none, some, is_some, List, [], ◌∷◌, ◌++◌,
  arith, Option-cases, Bool-cases, inl, inr, ltb, sum_by, eq_iff, eq_refl, Result, ok, raised,
  Result-cases,
}
use causal_ops.CostLedger.{
  RequestKey, CostLedgerRow, CostFault, ceiling_buffer, same_key, find_row, read_row, parse_row,
  reserved_and_settled_total, new_row, reserve_new, record_reservation_before_request, settled_row,
  update_row, settle_reservation, is_reserved,
}

pub same_key-≡ : (a b : RequestKey) → same_key a b ≡ true → a ≡ b
unfolding same_key
same_key-≡ a b h = ground (
  arith,
  eq_iff a.run_id b.run_id,
  eq_iff a.graph_phase b.graph_phase,
  eq_iff a.context_digest b.context_digest,
)

pub same_key_refl : (a : RequestKey) → same_key a a ≡ true
unfolding same_key
same_key_refl a = ground (arith, eq_refl a.run_id, eq_refl a.graph_phase, eq_refl a.context_digest)

abbrev pub has_row : RequestKey → List CostLedgerRow → Bool
has_row key rows = is_some (find_row key rows)

pub has_row-append :
    (key : RequestKey) (row : CostLedgerRow) (rows : List CostLedgerRow)
    → has_row key rows ≡ true
    → has_row key (rows ++ row ∷ []) ≡ true
unfolding find_row
has_row-append key row [] h = absurd (ground arith)
has_row-append key row (x ∷ xs) h = ground (arith, has_row-append key row xs)

pub has_row-appended :
    (row : CostLedgerRow) (rows : List CostLedgerRow) → has_row row.key (rows ++ row ∷ []) ≡ true
unfolding find_row
has_row-appended row [] = rw (same_key_refl row.key) refl
has_row-appended row (x ∷ xs) = ground (arith, has_row-appended row xs)

pub has_row-update :
    (key k : RequestKey) (a i o t : ℕ) (rows : List CostLedgerRow)
    → has_row key (update_row k (settled_row a i o t) rows) ≡ has_row key rows
unfolding find_row update_row
has_row-update key k a i o t [] = refl
has_row-update key k a i o t (x ∷ xs) = ground (arith, has_row-update key k a i o t xs)

abbrev pub reserved_sum : List CostLedgerRow → ℕ
reserved_sum rows = sum_by (λ row. row.reserved_usd) rows

pub reserved_sum-update :
    (k : RequestKey) (a i o t : ℕ) (rows : List CostLedgerRow)
    → reserved_sum (update_row k (settled_row a i o t) rows) ≡ reserved_sum rows
unfolding update_row
reserved_sum-update k a i o t [] = refl
reserved_sum-update k a i o t (x ∷ xs) = ground (arith, reserved_sum-update k a i o t xs)

-- A row that is there is not read as missing.
read_row-found :
    (key : RequestKey) (row : CostLedgerRow) (rows : List CostLedgerRow)
    → find_row key rows ≡ some row
    → ¬ (read_row key rows ≡ ok none)
unfolding read_row
read_row-found key row rows e f = elim (Result-cases (parse_row row)) [
  | inl (parsed, g) ↦ ground arith
  | inr (bad, g) ↦ ground arith
]

-- A settlement leaves the table or settles one row of it.
pub settle_reservation-keeps :
    (Q : List CostLedgerRow → Type 0) (key : RequestKey) (actual_usd : Option ℕ) (i o t : ℕ)
    (rows : List CostLedgerRow)
    → Q rows
    → ((a : ℕ) → Q (update_row key (settled_row a i o t) rows))
    → Q (settle_reservation key actual_usd i o t rows).1
unfolding settle_reservation
settle_reservation-keeps Q key none i o t rows same changed = same
settle_reservation-keeps Q key (some a) i o t rows same changed =
    elim (Bool-cases (is_reserved key rows)) [
      | inl waits ↦ rw waits (changed a)
      | inr other ↦ rw other same
    ]

module _ (Q : Result CostFault (CostLedgerRow × Bool) × List CostLedgerRow → Type 0)
    (key : RequestKey) (requested_at : ℕ) (rows : List CostLedgerRow)
    (refused : (e : CostFault) → Q (raised e, rows))
    (known : (row : CostLedgerRow) → Q (ok (row, false), rows)) where
  reserve_new-cases :
      (reserved_usd ceiling_usd : ℕ)
      → ((spent : ℕ)
          → reserved_and_settled_total rows ≡ ok spent
          → ceiling_buffer + spent + reserved_usd ≤ ceiling_usd
          → Q (
            ok (new_row key reserved_usd requested_at, true),
            rows ++ new_row key reserved_usd requested_at ∷ [],
          ))
      → Q (reserve_new key reserved_usd requested_at ceiling_usd rows)
  unfolding reserve_new
  reserve_new-cases reserved_usd ceiling_usd granted =
      elim (Result-cases (reserved_and_settled_total rows)) [
        | inr (e, bad) ↦ rw (bad, reserve_new) (refused e)
        | inl (spent, e) ↦
            rw (e, reserve_new)
              (elim (Bool-cases (ltb ceiling_usd (ceiling_buffer + spent + reserved_usd))) [
                | inl over ↦ rw over (refused _)
                | inr within ↦ rw within (granted spent e (ground arith))
              ])
      ]

  -- A reservation is refused, or finds its row, or adds it within the ceiling.
  pub record_reservation_before_request-cases :
      (reserved : Option ℕ) (ceiling_usd : ℕ)
      → (find_row key rows ≡ none
          → (reserved_usd spent : ℕ) → reserved_and_settled_total rows ≡ ok spent
          → ceiling_buffer + spent + reserved_usd ≤ ceiling_usd
          → Q (
            ok (new_row key reserved_usd requested_at, true),
            rows ++ new_row key reserved_usd requested_at ∷ [],
          ))
      → Q (record_reservation_before_request key reserved requested_at (some ceiling_usd) rows)
  unfolding record_reservation_before_request read_row
  record_reservation_before_request-cases none ceiling_usd granted = refused _
  record_reservation_before_request-cases (some reserved_usd) ceiling_usd granted =
      elim (Option-cases (find_row key rows)) [
        | inl new ↦
            let e : read_row key rows ≡ ok none = rw (new, read_row) refl in
            rw (e, record_reservation_before_request)
              (reserve_new-cases reserved_usd ceiling_usd (granted new reserved_usd))
        | inr (row, e) ↦ elim (Result-cases (read_row key rows)) [
          | inr (bad, f) ↦ rw (f, record_reservation_before_request) (refused bad)
          | inl (none, f) ↦ absurd (read_row-found key row rows e f)
          | inl (some parsed, f) ↦ rw (f, record_reservation_before_request) (known parsed)
        ]
      ]
