-- ===== src/Tests/Calls.antt =====
-- The dispatch of a proposal (src/causalops/tool_wrappers.py).
use causal_ops.Prelude.{◌+◌, ◌≡◌, refl, true, false, none, some, [], ok, raised, Result}
use causal_ops.Tools.{query_metric, search_runbooks}
use causal_ops.Domain.Codes.{denied, allowed, reserved, not_executed, metric, fts5_lexical}
use causal_ops.Domain.Receipts.{ToolProposal, Evidence, default_budgets, check_summary}
use causal_ops.Policy.{
  authorize, authorize_arguments, authorize_service, authorize_window, authorize_rows, allow,
}
use causal_ops.Ledger.{find, slots, slots_left, runbook_slots_left, slots_left_for, spent}
use causal_ops.Ledger.Slots.{IsWithinBudget, init-IsWithinBudget}
use causal_ops.Dispatch.{
  Backends, Dispatching, DispatchResult, Raised, backend_crashed, dispatch, run_check,
  build_evidence, resolve_effective_window,
}
use causal_ops.Dispatch.Calls.{denied_calls_no_backend, second_dispatch_denied, decision_at}
use causal_ops.Dispatch.Budget.{dispatch-IsWithinBudget, allowed_costs_one}
use causal_ops.Dispatch.Paths.{reservation}
use causal_ops.Dispatch.Outcomes.{
  IsSettledAs, crash_leaves_reserved, executed_check_settles, failed_check_settles,
  guidance_is_no_evidence,
}
use causal_ops.Tests.Samples.{
  incident, metric_request, foreign_request, runbook_request, propose_check, print, hash, answering,
  minted, fresh, fresh_ledger, metric_outcome, late_outcome, passages_outcome,
}

abbrev proposal : ToolProposal
proposal = propose_check metric_request

abbrev outsider : ToolProposal
outsider = propose_check foreign_request

abbrev sent : Backends → Result Raised DispatchResult × Dispatching
sent b = dispatch print hash b query_metric proposal incident default_budgets (minted "r_2") fresh

denied_calls_no_backend_example :
    dispatch print hash
      (answering none)
      query_metric
      outsider
      incident
      default_budgets
      (minted "r_2")
      fresh
    ≡ dispatch print hash
        (answering (some metric_outcome))
        query_metric
        outsider
        incident
        default_budgets
        (minted "r_2")
        fresh
unfolding resolve_effective_window
denied_calls_no_backend_example =
    denied_calls_no_backend print hash query_metric outsider incident default_budgets
      (answering none) (answering (some metric_outcome)) (minted "r_2") fresh (λ p. cc (p.2.0))

second_dispatch_denied_example :
    (r : DispatchResult) × ((dispatch print hash
        (answering none)
        query_metric
        proposal
        incident
        default_budgets
        (minted "r_3")
        (record {
          seen = (sent (answering (some metric_outcome))).1.seen;
          ledger = fresh_ledger;
        })).0
      ≡ ok r)
    × (r.receipt.policy_result ≡ denied)
    × (r.receipt.outcome ≡ some not_executed)
unfolding find
second_dispatch_denied_example =
    second_dispatch_denied print hash query_metric proposal incident default_budgets
      (answering (some metric_outcome)) (answering none) (minted "r_2") (minted "r_3") fresh
      fresh_ledger refl refl

dispatch-IsWithinBudget_example : IsWithinBudget (sent (answering (some metric_outcome))).1.ledger
unfolding find
dispatch-IsWithinBudget_example =
    dispatch-IsWithinBudget print hash (answering (some metric_outcome)) query_metric proposal
      incident default_budgets (minted "r_2") fresh refl (init-IsWithinBudget 2 1)

is_allowed :
    (decision_at print query_metric proposal incident default_budgets fresh).result ≡ allowed
unfolding authorize authorize_arguments authorize_service authorize_window authorize_rows allow
    resolve_effective_window slots_left_for slots_left slots spent
is_allowed = refl

allowed_costs_one_example :
    (slots false (sent (answering none)).1.ledger + 1 ≡ slots false fresh_ledger)
    × (slots true (sent (answering none)).1.ledger ≡ slots true fresh_ledger)
unfolding find
allowed_costs_one_example =
    allowed_costs_one print hash (answering none) query_metric proposal incident default_budgets
      (minted "r_2") fresh refl is_allowed refl (init-IsWithinBudget 2 1)

crash_leaves_reserved_example :
    ((sent (answering none)).0 ≡ raised backend_crashed)
    × (find "r_2" (sent (answering none)).1.ledger.receipts
        ≡ some (
            reservation print hash
              (answering none)
              query_metric
              proposal
              incident
              default_budgets
              (minted "r_2")
              fresh))
    × ((reservation print hash
          (answering none)
          query_metric
          proposal
          incident
          default_budgets
          (minted "r_2")
          fresh).state
        ≡ reserved)
unfolding run_check resolve_effective_window
crash_leaves_reserved_example =
    crash_leaves_reserved print hash (answering none) query_metric proposal incident default_budgets
      (minted "r_2") fresh refl is_allowed refl

abbrev built : Evidence
built = record {
  evidence_id = "ev_2";
  incident_id = "inc_1";
  kind = metric;
  source = "prometheus";
  observed_at = 211;
  summary = "errors rose";
  payload = [];
  receipt_id = some "r_2";
  content_hash = "digest";
}

executed_check_settles_example :
    IsSettledAs
      (sent (answering (some metric_outcome))).0
      (sent (answering (some metric_outcome))).1.ledger
      (minted "r_2")
      (some built)
      []
      none
unfolding run_check resolve_effective_window build_evidence check_summary
executed_check_settles_example =
    executed_check_settles print hash (answering (some metric_outcome)) query_metric proposal
      incident default_budgets (minted "r_2") fresh refl is_allowed metric_outcome built refl refl
      refl

failed_check_settles_example :
    IsSettledAs
      (sent (answering (some late_outcome))).0
      (sent (answering (some late_outcome))).1.ledger
      (minted "r_2")
      none
      []
      none
unfolding run_check resolve_effective_window
failed_check_settles_example =
    failed_check_settles print hash (answering (some late_outcome)) query_metric proposal incident
      default_budgets (minted "r_2") fresh refl is_allowed late_outcome refl refl

abbrev search : ToolProposal
search = propose_check runbook_request

abbrev searched : Result Raised DispatchResult × Dispatching
searched =
    dispatch print hash (answering none) search_runbooks search incident default_budgets
      (minted "r_2") fresh

search_is_allowed :
    (decision_at print search_runbooks search incident default_budgets fresh).result ≡ allowed
unfolding authorize authorize_arguments allow resolve_effective_window slots_left_for
    runbook_slots_left slots spent
search_is_allowed = refl

guidance_is_no_evidence_example :
    IsSettledAs searched.0 searched.1.ledger
      (minted "r_2")
      none
      passages_outcome.passages
      (some fts5_lexical)
unfolding run_check resolve_effective_window
guidance_is_no_evidence_example =
    guidance_is_no_evidence print hash (answering none) search_runbooks search incident
      default_budgets (minted "r_2") fresh refl search_is_allowed passages_outcome refl
