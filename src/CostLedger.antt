-- ===== src/CostLedger.antt =====
-- The ledger of what requests to the provider cost (src/causalops/cost_ledger.py), and the gate that it
-- keeps in front of the provider (`_send` of src/causalops/live_model.py). The table is the list of its
-- rows. An amount is a whole number of micro-dollars and an instant one of microseconds, where the code
-- has floats and dates; `none` stands for an amount that `_valid_money` refuses. Each operation is one
-- transaction. The estimate of a text's tokens and the two prices are parameters.
pub mod Rows
pub mod Once
pub mod Ceiling
use causal_ops.Prelude.{
  ℕ, ◌+◌, ◌-◌, max, String, Bool, true, false, not, Option, none, some, is_none, is_some, List, [],
  ◌∷◌, ◌++◌, ◌&&◌, ltb, leb, all, keep_if, sum_by, if◌then◌else◌, ◌==◌, Result, ok, raised, ◌>>=◌,
}

-- The primary key of the table
pub record RequestKey : Type 0 where
  pub run_id : String
  pub graph_phase : String
  pub model_turn : ℕ
  pub context_digest : String

pub record CostLedgerRow : Type 0 where
  pub key : RequestKey
  pub state : String
  pub reserved_usd : ℕ
  pub actual_usd : Option ℕ
  pub input_tokens : Option ℕ
  pub output_tokens : Option ℕ
  pub reserved_at : ℕ
  pub settled_at : Option ℕ

-- CostCeilingExceeded, and CheckpointStoreError with its two reasons here
pub data CostFault : Type 0 where
  ceiling_exceeded : ℕ → ℕ → CostFault
  store_unavailable reservation_not_settleable : CostFault

-- `RESERVATION_CEILING_BUFFER_USD`
abbrev pub ceiling_buffer : ℕ
ceiling_buffer = 100000

unfoldable pub same_key : RequestKey → RequestKey → Bool
same_key a b =
    a.run_id == b.run_id
    && a.graph_phase == b.graph_phase
    && leb a.model_turn b.model_turn
    && leb b.model_turn a.model_turn
    && a.context_digest == b.context_digest

-- `lifecycle_is_complete`, with the two texts that `state` may be
unfoldable pub lifecycle_is_complete : CostLedgerRow → Bool
lifecycle_is_complete row =
    if row.state == "RESERVED"
    then is_none row.actual_usd
      && is_none row.input_tokens
      && is_none row.output_tokens
      && is_none row.settled_at
    else row.state == "SETTLED"
      && is_some row.actual_usd
      && is_some row.input_tokens
      && is_some row.output_tokens
      && is_some row.settled_at

-- `_parse_cost_ledger_row`, with what its callers make of a ValidationError
unfoldable pub parse_row : CostLedgerRow → Result CostFault CostLedgerRow
parse_row row = if lifecycle_is_complete row then ok row else raised store_unavailable

unfoldable pub find_row : RequestKey → List CostLedgerRow → Option CostLedgerRow
find_row key [] = none
find_row key (row ∷ rows) =
    let rest = find_row key rows in if same_key row.key key then some row else rest

-- `_read_row`
unfoldable pub read_row : RequestKey → List CostLedgerRow → Result CostFault (Option CostLedgerRow)
read_row key rows = elim (find_row key rows) [
  | none ↦ ok none
  | some row ↦ parse_row row >>= λ parsed. ok (some parsed)
]

unfoldable pub parse_rows : List CostLedgerRow → Result CostFault (List CostLedgerRow)
parse_rows [] = ok []
parse_rows (row ∷ rows) = parse_row row >>= λ parsed. parse_rows rows >>= λ rest. ok (parsed ∷ rest)

unfoldable pub is_settled : CostLedgerRow → Bool
is_settled row = row.state == "SETTLED"

-- `actual_usd or 0.0`
unfoldable pub actual : CostLedgerRow → ℕ
actual row = elim row.actual_usd [ none ↦ 0 | some amount ↦ amount ]

-- What a row counts for
unfoldable pub accounted : CostLedgerRow → ℕ
accounted row = if is_settled row then max row.reserved_usd (actual row) else row.reserved_usd

-- `_reserved_and_settled_total`, the public `application_wide_spend_usd`
unfoldable pub reserved_and_settled_total : List CostLedgerRow → Result CostFault ℕ
reserved_and_settled_total rows = parse_rows rows >>= λ parsed. ok (sum_by accounted parsed)

-- `run_cost_totals`: reserved, actual, and whether every row is settled
unfoldable pub run_cost_totals : String → List CostLedgerRow → Result CostFault (ℕ × ℕ × Bool)
run_cost_totals run_id rows =
    parse_rows (keep_if (λ row. row.key.run_id == run_id) rows) >>= λ parsed. ok (
      sum_by (λ row. row.reserved_usd) parsed,
      sum_by actual (keep_if is_settled parsed),
      all is_settled parsed,
    )

abbrev pub new_row : RequestKey → ℕ → ℕ → CostLedgerRow
new_row key reserved_usd requested_at = record {
  key = key;
  state = "RESERVED";
  reserved_usd = reserved_usd;
  actual_usd = none;
  input_tokens = none;
  output_tokens = none;
  reserved_at = requested_at;
  settled_at = none;
}

-- `record_reservation_before_request`, behind the read of the key
unfoldable pub reserve_new :
    RequestKey
    → ℕ
    → ℕ
    → ℕ
    → List CostLedgerRow
    → Result CostFault (CostLedgerRow × Bool) × List CostLedgerRow
reserve_new key reserved_usd requested_at ceiling_usd rows =
    elim (reserved_and_settled_total rows) [
      | raised e ↦ (raised e, rows)
      | ok spent ↦
          if ltb ceiling_usd (ceiling_buffer + spent + reserved_usd)
          then (
            raised (ceiling_exceeded reserved_usd (ceiling_usd - (ceiling_buffer + spent))),
            rows,
          )
          else (
            ok (new_row key reserved_usd requested_at, true),
            rows ++ new_row key reserved_usd requested_at ∷ [],
          )
    ]

unfoldable pub record_reservation_before_request :
    RequestKey
    → Option ℕ
    → ℕ
    → Option ℕ
    → List CostLedgerRow
    → Result CostFault (CostLedgerRow × Bool) × List CostLedgerRow
record_reservation_before_request key (some reserved_usd) requested_at (some ceiling_usd) rows =
    elim (read_row key rows) [
      | raised e ↦ (raised e, rows)
      | ok (some existing) ↦ (ok (existing, false), rows)
      | ok none ↦ reserve_new key reserved_usd requested_at ceiling_usd rows
    ]
record_reservation_before_request key _ requested_at _ rows = (raised store_unavailable, rows)

abbrev pub settled_row : ℕ → ℕ → ℕ → ℕ → CostLedgerRow → CostLedgerRow
settled_row actual_usd input_tokens output_tokens settled_at row = record row {
  state = "SETTLED";
  actual_usd = some actual_usd;
  input_tokens = some input_tokens;
  output_tokens = some output_tokens;
  settled_at = some settled_at;
}

-- The UPDATE of `settle_reservation`; the key names one row at most.
unfoldable pub update_row :
    RequestKey → (CostLedgerRow → CostLedgerRow) → List CostLedgerRow → List CostLedgerRow
update_row key f [] = []
update_row key f (row ∷ rows) =
    let rest = update_row key f rows in if same_key row.key key then f row ∷ rows else row ∷ rest

-- Whether the key's row waits for its settlement: the UPDATE's `state = 'RESERVED'`
unfoldable pub is_reserved : RequestKey → List CostLedgerRow → Bool
is_reserved key rows = elim (find_row key rows) [
  | none ↦ false
  | some row ↦ row.state == "RESERVED"
]

unfoldable pub settle_reservation :
    RequestKey
    → Option ℕ
    → ℕ
    → ℕ
    → ℕ
    → List CostLedgerRow
    → Result CostFault (Option CostLedgerRow) × List CostLedgerRow
settle_reservation key none input_tokens output_tokens settled_at rows =
    (raised reservation_not_settleable, rows)
settle_reservation key (some actual_usd) input_tokens output_tokens settled_at rows =
    let after =
      update_row key (settled_row actual_usd input_tokens output_tokens settled_at) rows in
    if is_reserved key rows
    then (read_row key after, after)
    else (raised reservation_not_settleable, rows)

-- What the provider does with a request
pub data Reply : Type 0 where
  failed without_usage : Reply
  with_usage : ℕ → ℕ → Reply

-- What `_send` raises
pub data SendFault : Type 0 where
  missing_credential input_too_large ambiguous provider_failed missing_usage : SendFault
  cost : CostFault → SendFault

-- The adapter's settings; the two prices are `_pricing`'s.
pub record Adapter : Type 0 where
  pub credential_present : Bool
  pub max_input_tokens : ℕ
  pub ceiling_usd : ℕ
  pub reservation_usd : ℕ → Option ℕ
  pub actual_cost_usd : ℕ → ℕ → Option ℕ

-- A request as `_send` sees it, with the clock's readings and the provider's reply
pub record Request : Type 0 where
  pub key : RequestKey
  pub estimated_input_tokens : ℕ
  pub tool_definition_tokens : ℕ
  pub requested_at : ℕ
  pub settled_at : ℕ
  pub reply : Reply

-- The table, and the requests that the provider has got
pub record Spending : Type 0 where
  pub rows : List CostLedgerRow
  pub invoked : List RequestKey

-- The end of `_send`
unfoldable pub finish :
    List RequestKey
    → Result CostFault (Option CostLedgerRow) × List CostLedgerRow
    → Result SendFault Unit × Spending
finish invoked (raised e, rows) = (raised (cost e), record { rows = rows; invoked = invoked })
finish invoked (ok row, rows) = (ok tt, record { rows = rows; invoked = invoked })

-- `_send`, behind the call of the provider
unfoldable pub receive : Adapter → Request → Spending → Result SendFault Unit × Spending
receive a r s = elim r.reply [
  | failed ↦ (raised provider_failed, s)
  | without_usage ↦ (raised missing_usage, s)
  | with_usage input_tokens output_tokens ↦ finish s.invoked (
      settle_reservation r.key (a.actual_cost_usd input_tokens output_tokens) input_tokens
        output_tokens r.settled_at s.rows)
]

-- `_send`, behind the reservation
unfoldable pub send_reserved :
    Adapter
    → Request
    → List RequestKey
    → Result CostFault (CostLedgerRow × Bool) × List CostLedgerRow
    → Result SendFault Unit × Spending
send_reserved a r invoked (raised e, rows) =
    (raised (cost e), record { rows = rows; invoked = invoked })
send_reserved a r invoked (ok (row, false), rows) =
    (raised ambiguous, record { rows = rows; invoked = invoked })
send_reserved a r invoked (ok (row, true), rows) =
    receive a r (record { rows = rows; invoked = r.key ∷ invoked })

unfoldable pub send : Adapter → Request → Spending → Result SendFault Unit × Spending
send a r s =
    if not a.credential_present
    then (raised missing_credential, s)
    else if ltb a.max_input_tokens r.estimated_input_tokens
    then (raised input_too_large, s)
    else send_reserved a r s.invoked (
        record_reservation_before_request r.key
          (a.reservation_usd (r.estimated_input_tokens + r.tool_definition_tokens)) r.requested_at
          (some a.ceiling_usd) s.rows)

unfoldable pub send_all : Adapter → List Request → Spending → Spending
send_all a [] s = s
send_all a (r ∷ rs) s = send_all a rs (send a r s).1
