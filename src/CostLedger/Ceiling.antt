-- ===== src/CostLedger/Ceiling.antt =====
-- What may be spent under the ceiling.
use causal_ops.Prelude.{
  ℕ, ◌+◌, ◌-◌, ◌≤◌, ◌≡◌, ap, Option, List, [], ◌∷◌, ◌++◌, arith, Bool-cases, inl, inr, ltb, sum_by,
  sum_by-append, if◌then◌else◌, Result, ok, raised, Result-cases,
}
use causal_ops.CostLedger.{
  RequestKey, CostLedgerRow, CostFault, Adapter, Request, failed, without_usage, with_usage,
  Spending, ceiling_buffer, parse_row, parse_rows, lifecycle_is_complete, is_settled, actual,
  accounted, reserved_and_settled_total, finish, receive, send_reserved, send, send_all, new_row,
}
use causal_ops.CostLedger.Rows.{
  reserved_sum, reserved_sum-update, settle_reservation-keeps,
  record_reservation_before_request-cases,
}
use causal_ops.CostLedger.Once.{unspent}

parse_row-ok : (row parsed : CostLedgerRow) → parse_row row ≡ ok parsed → parsed ≡ row
unfolding parse_row
parse_row-ok row parsed h = elim (Bool-cases (lifecycle_is_complete row)) [
  | inl good ↦ ground arith
  | inr bad ↦ absurd (ground arith)
]

parse_rows-ok : (rows parsed : List CostLedgerRow) → parse_rows rows ≡ ok parsed → parsed ≡ rows
unfolding parse_rows
parse_rows-ok [] parsed h = ground arith
parse_rows-ok (row ∷ rows) parsed h = elim (Result-cases (parse_row row)) [
  | inr (e, bad) ↦ absurd (ground arith)
  | inl (r, e) ↦ elim (Result-cases (parse_rows rows)) [
    | inr (e', bad) ↦ absurd (ground arith)
    | inl (rs, f) ↦ ground (arith, parse_row-ok row r e, parse_rows-ok rows rs f)
  ]
]

-- What is billed above the reservation
unfoldable pub overrun : CostLedgerRow → ℕ
overrun row = if is_settled row then actual row - row.reserved_usd else 0

accounted_sum :
    (rows : List CostLedgerRow)
    → (reserved_sum rows ≤ sum_by accounted rows)
      × (sum_by accounted rows ≤ reserved_sum rows + sum_by overrun rows)
unfolding accounted overrun
accounted_sum [] = (omega arith, omega arith)
accounted_sum (row ∷ rows) =
    let (low, high) = accounted_sum rows in
    elim (Bool-cases (is_settled row)) [
      | inl settled ↦ (ground (arith, low), ground (arith, high))
      | inr waits ↦ (ground (arith, low), ground (arith, high))
    ]

total-reserved :
    (rows : List CostLedgerRow) (spent : ℕ)
    → reserved_and_settled_total rows ≡ ok spent
    → reserved_sum rows ≤ spent
unfolding reserved_and_settled_total
total-reserved rows spent h = elim (Result-cases (parse_rows rows)) [
  | inr (e, bad) ↦ absurd (ground arith)
  | inl (parsed, e) ↦
      let same : sum_by accounted parsed ≡ sum_by accounted rows =
        ap (sum_by accounted) (parse_rows-ok rows parsed e) in
      let told : sum_by accounted parsed ≡ spent = ground arith in
      omega (arith, (accounted_sum rows).0, same, told)
]

module _ (a : Adapter) where
  abbrev Within : List CostLedgerRow → Type 0
  Within rows = reserved_sum rows ≤ a.ceiling_usd - ceiling_buffer

  finish-Within :
      (invoked : List RequestKey) (r : Result CostFault (Option CostLedgerRow) × List CostLedgerRow)
      → Within r.1
      → Within (finish invoked r).1.rows
  unfolding finish
  finish-Within invoked (raised e, after) h = h
  finish-Within invoked (ok row, after) h = h

  receive-Within : (r : Request) (s : Spending) → Within s.rows → Within (receive a r s).1.rows
  unfolding receive
  receive-Within r s h =
      elim r.reply as (λ reply. Within (receive a (record r { reply = reply }) s).1.rows) [
        | failed ↦ h
        | without_usage ↦ h
        | with_usage i o ↦ finish-Within s.invoked _ (
            settle_reservation-keeps Within r.key (a.actual_cost_usd i o) i o r.settled_at s.rows h
              (λ amount. rw (reserved_sum-update r.key amount i o r.settled_at s.rows) h))
      ]

  granted-Within :
      (key : RequestKey) (amount at spent : ℕ) (rows : List CostLedgerRow)
      → reserved_and_settled_total rows ≡ ok spent
      → ceiling_buffer + spent + amount ≤ a.ceiling_usd
      → Within (rows ++ new_row key amount at ∷ [])
  granted-Within key amount at spent rows e within = omega (
    arith,
    sum_by-append (λ row. row.reserved_usd) rows (new_row key amount at ∷ []),
    total-reserved rows spent e,
    within,
  )

  send-Within : (r : Request) (s : Spending) → Within s.rows → Within (send a r s).1.rows
  unfolding send send_reserved receive
  send-Within r s h = elim (Bool-cases a.credential_present) [
    | inr missing ↦ rw missing h
    | inl present ↦
        rw present (elim (Bool-cases (ltb a.max_input_tokens r.estimated_input_tokens)) [
          | inl large ↦ rw large h
          | inr fits ↦ rw fits (
              record_reservation_before_request-cases
                (λ x. Within (send_reserved a r s.invoked x).1.rows) r.key r.requested_at s.rows
                (λ e. h) (λ row. h)
                (a.reservation_usd (r.estimated_input_tokens + r.tool_definition_tokens))
                a.ceiling_usd
                (λ new amount spent e within.
                  receive-Within r _
                    (granted-Within r.key amount r.requested_at spent s.rows e within)))
        ])
  ]

  send_all-Within :
      (rs : List Request) (s : Spending) → Within s.rows → Within (send_all a rs s).rows
  unfolding send_all
  send_all-Within [] s h = h
  send_all-Within (r ∷ rs) s h = send_all-Within rs (send a r s).1 (send-Within r s h)

-- However often and in whatever order requests are sent from an empty ledger, all that it ever reserves
-- stays below the ceiling by the buffer, and what it accounts for exceeds that by the overruns at most:
-- what the provider billed above the reservations of requests that are settled.
pub send_all_within_ceiling :
    (a : Adapter) (rs : List Request)
    → (reserved_sum (send_all a rs unspent).rows ≤ a.ceiling_usd - ceiling_buffer)
      × (sum_by accounted (send_all a rs unspent).rows
          ≤ a.ceiling_usd - ceiling_buffer + sum_by overrun (send_all a rs unspent).rows)
send_all_within_ceiling a rs =
    let within = send_all-Within a rs unspent (omega arith) in
    (within, omega (arith, within, (accounted_sum (send_all a rs unspent).rows).1))
