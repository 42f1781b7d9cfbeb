-- ===== src/Policy/Decisions.antt =====
-- What `authorize` decides: exactly the permitted requests pass, and each denial names a reason.
use causal_ops.Prelude.{
  ℕ, String, ◌≡◌, refl, ◌↔◌, true, false, Option, none, some, List, contains, ◌<◌, arith, eq_iff,
}
use causal_ops.Tools.{
  ToolArguments, metric_args, logs_args, changes_args, topology_args, runbooks_args,
}
use causal_ops.Domain.Codes.{allowed}
use causal_ops.Domain.Receipts.{Budgets, IncidentScope, ToolProposal}
use causal_ops.Policy.{
  PolicyDecision, check_reason_code, authorize_rows, authorize_window, authorize_service,
  authorize_arguments, authorize, allow, deny,
}
use causal_ops.Policy.Permitted.{IsInside, IsScoped, IsPermitted}

module _ (mark : String) (scope : IncidentScope) (budgets : Budgets) where
  window_allows :
      (start end rows : Option ℕ)
      → (authorize_window mark scope budgets start end rows).result ≡ allowed
      → IsInside scope start end × ((authorize_rows mark budgets rows).result ≡ allowed)
  unfolding authorize_window deny
  window_allows none none rows h = ground arith
  window_allows none (some e) rows h = ground arith
  window_allows (some s) none rows h = ground arith
  window_allows (some s) (some e) rows h = (
    record {
      from = s;
      until = e;
      start_known = refl;
      end_known = refl;
      starts_inside = ground arith;
      ends_inside = ground arith;
      not_empty = ground arith;
    },
    ground arith,
  )

  inside_allows :
      (start end rows : Option ℕ)
      → IsInside scope start end
      → (authorize_rows mark budgets rows).result ≡ allowed
      → (authorize_window mark scope budgets start end rows).result ≡ allowed
  unfolding authorize_window deny
  inside_allows start end rows i h = ground arith

  service_allows :
      (service : String) (start end rows : Option ℕ)
      → (authorize_service mark scope budgets service start end rows).result ≡ allowed
      → IsScoped scope service start end × ((authorize_rows mark budgets rows).result ≡ allowed)
  unfolding authorize_service deny
  service_allows service start end rows h =
      let known : contains scope.services service ≡ true = ground arith in
      let passed : (authorize_window mark scope budgets start end rows).result ≡ allowed =
        ground arith in
      let (inside, fits) = window_allows start end rows passed in ((known, inside), fits)

  scoped_allows :
      (service : String) (start end rows : Option ℕ)
      → IsScoped scope service start end
      → (authorize_rows mark budgets rows).result ≡ allowed
      → (authorize_service mark scope budgets service start end rows).result ≡ allowed
  unfolding authorize_service deny
  scoped_allows service start end rows i h = rw i.0 (inside_allows start end rows i.1 h)

  arguments_allow :
      (a : ToolArguments)
      → (authorize_arguments mark scope budgets a).result ≡ allowed
      → IsPermitted scope budgets a
  unfolding authorize_arguments authorize_rows allow deny
  arguments_allow (metric_args a) h =
      (service_allows a.service a.window_start a.window_end none h).0
  arguments_allow (logs_args a) h =
      let (scoped, fits) =
        service_allows a.service a.window_start a.window_end (some a.row_limit) h in
      (scoped, ground arith)
  arguments_allow (changes_args a) h =
      (service_allows a.service a.window_start a.window_end none h).0
  arguments_allow (topology_args a) h = ground (arith, eq_iff a.incident_id scope.incident_id)
  arguments_allow (runbooks_args a) h = ground arith

  permitted_allows :
      (a : ToolArguments)
      → IsPermitted scope budgets a
      → (authorize_arguments mark scope budgets a).result ≡ allowed
  unfolding authorize_arguments authorize_rows allow deny
  permitted_allows (metric_args a) h =
      scoped_allows a.service a.window_start a.window_end none h refl
  permitted_allows (logs_args a) h =
      scoped_allows a.service a.window_start a.window_end (some a.row_limit) h.0 (ground arith)
  permitted_allows (changes_args a) h =
      scoped_allows a.service a.window_start a.window_end none h refl
  permitted_allows (topology_args a) h = ground (arith, eq_iff a.incident_id scope.incident_id)
  permitted_allows (runbooks_args a) h = ground arith

  -- Every decision is one of the two constructors' shapes, for the same mark.
  abbrev pub IsCoherent : PolicyDecision → Type 0
  IsCoherent d = (check_reason_code d ≡ true) × (d.fingerprint ≡ mark)

  window-IsCoherent :
      (start end rows : Option ℕ) → IsCoherent (authorize_window mark scope budgets start end rows)
  unfolding authorize_window authorize_rows allow deny check_reason_code
  window-IsCoherent start end rows = (ground arith, ground arith)

  arguments-IsCoherent : (a : ToolArguments) → IsCoherent (authorize_arguments mark scope budgets a)
  unfolding authorize_arguments authorize_service allow deny check_reason_code
  arguments-IsCoherent (metric_args a) =
      ground (arith, window-IsCoherent a.window_start a.window_end none)
  arguments-IsCoherent (logs_args a) =
      ground (arith, window-IsCoherent a.window_start a.window_end (some a.row_limit))
  arguments-IsCoherent (changes_args a) =
      ground (arith, window-IsCoherent a.window_start a.window_end none)
  arguments-IsCoherent (topology_args a) = ground arith
  arguments-IsCoherent (runbooks_args a) = ground arith

module _ (fingerprint : ToolArguments → String) (proposal : ToolProposal) (scope : IncidentScope)
    (seen : List String) (budgets : Budgets) (remaining : ℕ) where
  abbrev mark : String
  mark = fingerprint proposal.arguments

  abbrev decision : PolicyDecision
  decision = authorize fingerprint proposal scope seen budgets remaining

  -- A proposal is allowed exactly when a check slot remains, its fingerprint has not been seen, and
  -- its arguments are permitted: the incident's own id for a topology, a passage limit within the
  -- budget for runbooks, and for the other tools a service of the incident with a known, non-empty
  -- window inside it (and, for logs, a row limit within the budget).
  pub authorize-allowed_iff : (decision.result ≡ allowed) ↔ (
      (0 < remaining) × (contains seen mark ≡ false) × IsPermitted scope budgets proposal.arguments)
  unfolding authorize deny
  authorize-allowed_iff = (
    λ h. (
      ground arith,
      ground arith,
      arguments_allow mark scope budgets proposal.arguments (ground arith),
    ),
    λ h. ground (arith, permitted_allows mark scope budgets proposal.arguments h.2),
  )

  -- Every decision carries the fingerprint of the arguments, and a reason code exactly when it is a
  -- denial.
  pub authorize_coherent :
      (check_reason_code decision ≡ true) × (decision.fingerprint ≡ fingerprint proposal.arguments)
  unfolding authorize deny check_reason_code
  authorize_coherent = ground (arith, arguments-IsCoherent mark scope budgets proposal.arguments)
