-- ===== src/Tests/Checks.antt =====
-- The policy and the resolution of windows (src/causalops/policy.py, src/causalops/tool_wrappers.py).
use causal_ops.Prelude.{◌≡◌, ◌≢◌, refl, ◌<◌, ◌↔◌, true, false, none, some, [], ◌∷◌, contains}
use causal_ops.Tools.{ToolArguments}
use causal_ops.Domain.Codes.{
  allowed, unknown_service, duplicate_proposal, budget_exhausted, unresolved_window,
}
use causal_ops.Domain.Receipts.{default_budgets}
use causal_ops.Policy.{
  authorize, authorize_arguments, authorize_service, authorize_window, authorize_rows, deny, allow,
  check_reason_code,
}
use causal_ops.Policy.Permitted.{IsPermitted}
use causal_ops.Policy.Decisions.{authorize-allowed_iff, authorize_coherent}
use causal_ops.Dispatch.{resolve_effective_window}
use causal_ops.Dispatch.Window.{IsNarrowed, resolve_narrows, wrapper_resolves}
use causal_ops.Tests.Samples.{
  incident, metric_request, foreign_request, runbook_request, propose_check, print,
}

abbrev resolved : ToolArguments
resolved = resolve_effective_window metric_request incident

authorize-allowed_iff_example :
    ((authorize print (propose_check resolved) incident [] default_budgets 2).result ≡ allowed) ↔ (
      (0 < 2)
      × (contains [] (print resolved) ≡ false)
      × IsPermitted incident default_budgets resolved)
authorize-allowed_iff_example =
    authorize-allowed_iff print (propose_check resolved) incident [] default_budgets 2

authorize_coherent_example :
    (check_reason_code
        (authorize print (propose_check foreign_request) incident [] default_budgets 2)
      ≡ true)
    × ((authorize print (propose_check foreign_request) incident [] default_budgets 2).fingerprint
        ≡ print foreign_request)
authorize_coherent_example =
    authorize_coherent print (propose_check foreign_request) incident [] default_budgets 2

resolve_narrows_example :
    IsNarrowed incident (some 50) none (resolve_effective_window metric_request incident) 250
resolve_narrows_example = resolve_narrows metric_request incident (some 50) none 250 refl

wrapper_resolves_example :
    (authorize print (propose_check resolved) incident [] default_budgets 2).reason_code
    ≢ some unresolved_window
wrapper_resolves_example =
    wrapper_resolves print (propose_check metric_request) incident [] default_budgets 2

-- Runs of the policy.
clamped_is_allowed :
    (authorize print (propose_check resolved) incident [] default_budgets 2).result ≡ allowed
unfolding authorize authorize_arguments authorize_service authorize_window authorize_rows allow
    resolve_effective_window
clamped_is_allowed = refl

outside_is_denied :
    (authorize print (propose_check foreign_request) incident [] default_budgets 2).reason_code
    ≡ some unknown_service
unfolding authorize authorize_arguments authorize_service deny
outside_is_denied = refl

unresolved_is_denied :
    (authorize print (propose_check metric_request) incident [] default_budgets 2).reason_code
    ≡ some unresolved_window
unfolding authorize authorize_arguments authorize_service authorize_window deny
unresolved_is_denied = refl

repeated_is_denied :
    (authorize print
      (propose_check resolved)
      incident
      ("gateway" ∷ [])
      default_budgets
      2).reason_code
    ≡ some duplicate_proposal
unfolding authorize deny resolve_effective_window
repeated_is_denied = refl

exhausted_is_denied :
    (authorize print (propose_check runbook_request) incident [] default_budgets 0).reason_code
    ≡ some budget_exhausted
unfolding authorize deny
exhausted_is_denied = refl
