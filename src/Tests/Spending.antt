-- ===== src/Tests/Spending.antt =====
-- What requests cost (src/causalops/cost_ledger.py, `_send` of src/causalops/live_model.py).
use causal_ops.Prelude.{
  ◌+◌, ◌-◌, ◌*◌, ◌≤◌, ◌≡◌, refl, true, some, [], ◌∷◌, sum_by, count_if, raised,
}
use causal_ops.CostLedger.{
  RequestKey, Adapter, Request, failed, with_usage, ceiling_exceeded, ambiguous, cost,
  ceiling_buffer, same_key, find_row, read_row, parse_row, parse_rows, lifecycle_is_complete,
  is_settled, actual, accounted, reserved_and_settled_total, reserve_new,
  record_reservation_before_request, settle_reservation, update_row, is_reserved, finish, receive,
  send_reserved, send, send_all,
}
use causal_ops.CostLedger.Rows.{reserved_sum}
use causal_ops.CostLedger.Once.{unspent, send_all_once}
use causal_ops.CostLedger.Ceiling.{overrun, send_all_within_ceiling}

-- Two dollars to spend, at one micro-dollar a token
abbrev adapter : Adapter
adapter = record {
  credential_present = true;
  max_input_tokens = 24000;
  ceiling_usd = 2000000;
  reservation_usd = λ tokens. some (tokens + 4000);
  actual_cost_usd = λ input_tokens output_tokens. some (input_tokens + 2 * output_tokens);
}

abbrev first_key : RequestKey
first_key = record {
  run_id = "run-1";
  graph_phase = "investigate";
  model_turn = 1;
  context_digest = "d1";
}

abbrev crashing : Request
crashing = record {
  key = first_key;
  estimated_input_tokens = 9000;
  tool_definition_tokens = 13716;
  requested_at = 100;
  settled_at = 200;
  reply = failed;
}

abbrev answered : Request
answered = record crashing { reply = with_usage 22000 900 }

-- A run: a request that crashed is not sent again.
crashed_is_ambiguous :
    (send adapter answered (send adapter crashing unspent).1).0 ≡ raised ambiguous
unfolding same_key find_row read_row parse_row parse_rows lifecycle_is_complete is_settled actual
    accounted reserved_and_settled_total reserve_new record_reservation_before_request
    settle_reservation update_row is_reserved finish receive send_reserved send
crashed_is_ambiguous = refl

-- A run: under the buffer nothing is granted.
buffer_is_kept :
    (send (record adapter { ceiling_usd = 120000 }) crashing unspent).0
    ≡ raised (cost (ceiling_exceeded 26716 20000))
unfolding same_key find_row read_row parse_row parse_rows lifecycle_is_complete is_settled actual
    accounted reserved_and_settled_total reserve_new record_reservation_before_request receive
    send_reserved send
buffer_is_kept = refl

send_all_once_example :
    count_if (same_key first_key) (send_all adapter (crashing ∷ answered ∷ []) unspent).invoked ≤ 1
send_all_once_example = send_all_once adapter (crashing ∷ answered ∷ []) first_key

send_all_within_ceiling_example :
    (reserved_sum (send_all adapter (answered ∷ crashing ∷ []) unspent).rows
      ≤ 2000000 - ceiling_buffer)
    × (sum_by accounted (send_all adapter (answered ∷ crashing ∷ []) unspent).rows
        ≤ 2000000
          - ceiling_buffer
          + sum_by overrun (send_all adapter (answered ∷ crashing ∷ []) unspent).rows)
send_all_within_ceiling_example = send_all_within_ceiling adapter (answered ∷ crashing ∷ [])
