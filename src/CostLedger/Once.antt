-- ===== src/CostLedger/Once.antt =====
-- No request reaches the provider twice under one key.
use causal_ops.Prelude.{
  ℕ, ◌+◌, ◌≤◌, ◌≡◌, ap, ◌∙◌, true, false, Option, none, is_some, List, [], ◌∷◌, ◌++◌, arith,
  Bool-cases, inl, inr, ltb, count_if, if◌then◌else◌, Result, ok, raised,
}
use causal_ops.CostLedger.{
  RequestKey, CostLedgerRow, CostFault, Adapter, Request, failed, without_usage, with_usage,
  Spending, same_key, find_row, settle_reservation, finish, receive, send_reserved, send, send_all,
  new_row,
}
use causal_ops.CostLedger.Rows.{
  same_key-≡, has_row, has_row-append, has_row-appended, has_row-update, settle_reservation-keeps,
  record_reservation_before_request-cases,
}

-- The provider got each request once at most, and only requests with a row.
abbrev pub IsOnce : Spending → Type 0
IsOnce s = (k : RequestKey) → count_if (same_key k) s.invoked ≤ (if has_row k s.rows then 1 else 0)

abbrev Covered : List RequestKey → List CostLedgerRow → Type 0
Covered invoked rows =
    (k : RequestKey) → count_if (same_key k) invoked ≤ (if has_row k rows then 1 else 0)

finish-IsOnce :
    (invoked : List RequestKey) (r : Result CostFault (Option CostLedgerRow) × List CostLedgerRow)
    → Covered invoked r.1
    → IsOnce (finish invoked r).1
unfolding finish
finish-IsOnce invoked (raised e, after) h = h
finish-IsOnce invoked (ok row, after) h = h

settled-Covered :
    (a : Adapter) (r : Request) (s : Spending) (i o : ℕ)
    → IsOnce s
    → IsOnce
        (finish s.invoked
          (settle_reservation r.key (a.actual_cost_usd i o) i o r.settled_at s.rows)).1
settled-Covered a r s i o h = finish-IsOnce s.invoked _ (
    settle_reservation-keeps (Covered s.invoked) r.key (a.actual_cost_usd i o) i o r.settled_at
      s.rows h (λ amount k. rw (has_row-update k r.key amount i o r.settled_at s.rows) (h k)))

receive-IsOnce : (a : Adapter) (r : Request) (s : Spending) → IsOnce s → IsOnce (receive a r s).1
unfolding receive
receive-IsOnce a r s h =
    elim r.reply as (λ reply. IsOnce (receive a (record r { reply = reply }) s).1) [
      | failed ↦ h
      | without_usage ↦ h
      | with_usage i o ↦ settled-Covered a r s i o h
    ]

-- A key whose row is new has not been sent.
granted-Covered :
    (s : Spending) (key : RequestKey) (reserved_usd requested_at : ℕ)
    → IsOnce s
    → find_row key s.rows ≡ none
    → Covered (key ∷ s.invoked) (s.rows ++ new_row key reserved_usd requested_at ∷ [])
granted-Covered s key reserved_usd requested_at h new k =
    let row = new_row key reserved_usd requested_at in
    elim (Bool-cases (same_key k key)) [
      | inl same ↦
          let e = same_key-≡ k key same in
          let now : has_row k (s.rows ++ row ∷ []) ≡ true =
            ap (λ x. has_row x (s.rows ++ row ∷ [])) e ∙ has_row-appended row s.rows in
          let before : has_row k s.rows ≡ false = ap (λ x. has_row x s.rows) e ∙ ap is_some new in
          ground (arith, h k, now, before, same)
      | inr other ↦ elim (Bool-cases (has_row k s.rows)) [
        | inl had ↦ ground (arith, h k, had, other, has_row-append k row s.rows had)
        | inr had ↦ ground (arith, h k, had, other)
      ]
    ]

send-IsOnce : (a : Adapter) (r : Request) (s : Spending) → IsOnce s → IsOnce (send a r s).1
unfolding send send_reserved receive
send-IsOnce a r s h = elim (Bool-cases a.credential_present) [
  | inr missing ↦ rw missing h
  | inl present ↦ rw present (elim (Bool-cases (ltb a.max_input_tokens r.estimated_input_tokens)) [
    | inl large ↦ rw large h
    | inr fits ↦ rw fits (
        record_reservation_before_request-cases (λ x. IsOnce (send_reserved a r s.invoked x).1)
          r.key r.requested_at s.rows (λ e. h) (λ row. h)
          (a.reservation_usd (r.estimated_input_tokens + r.tool_definition_tokens)) a.ceiling_usd
          (λ new amount spent e within.
            receive-IsOnce a r _ (granted-Covered s r.key amount r.requested_at h new)))
  ])
]

send_all-IsOnce :
    (a : Adapter) (rs : List Request) (s : Spending) → IsOnce s → IsOnce (send_all a rs s)
unfolding send_all
send_all-IsOnce a [] s h = h
send_all-IsOnce a (r ∷ rs) s h = send_all-IsOnce a rs (send a r s).1 (send-IsOnce a r s h)

abbrev pub unspent : Spending
unspent = record { rows = []; invoked = [] }

-- However often and in whatever order requests are sent from an empty ledger, whether the provider
-- answers them, fails or gives no usage, it gets at most one request under each key.
pub send_all_once :
    (a : Adapter) (rs : List Request) (k : RequestKey)
    → count_if (same_key k) (send_all a rs unspent).invoked ≤ 1
send_all_once a rs k =
    let once = send_all-IsOnce a rs unspent (λ _. omega arith) k in ground (arith, once)
