-- ===== src/Policy/Permitted.antt =====
-- An independent description of the requests that the policy lets through.
use causal_ops.Prelude.{ℕ, String, ◌≡◌, true, Option, some, contains, ◌≤◌, ◌<◌}
use causal_ops.Tools.{
  ToolArguments, metric_args, logs_args, changes_args, topology_args, runbooks_args,
}
use causal_ops.Domain.Receipts.{Budgets, IncidentScope}

-- A window that is known, is not empty and lies inside the incident.
pub record IsInside (scope : IncidentScope) (start end : Option ℕ) : Type 0 where
  pub from : ℕ
  pub until : ℕ
  pub start_known : start ≡ some from
  pub end_known : end ≡ some until
  pub starts_inside : scope.started_at ≤ from
  pub ends_inside : until ≤ scope.ended_at
  pub not_empty : from < until

-- A service of the incident, over a window inside it.
abbrev pub IsScoped : IncidentScope → String → Option ℕ → Option ℕ → Type 0
IsScoped scope service start end =
    (contains scope.services service ≡ true) × IsInside scope start end

abbrev pub IsPermitted : IncidentScope → Budgets → ToolArguments → Type 0
IsPermitted scope budgets (metric_args a) = IsScoped scope a.service a.window_start a.window_end
IsPermitted scope budgets (logs_args a) =
    IsScoped scope a.service a.window_start a.window_end × (a.row_limit ≤ budgets.log_rows)
IsPermitted scope budgets (changes_args a) = IsScoped scope a.service a.window_start a.window_end
IsPermitted scope budgets (topology_args a) = a.incident_id ≡ scope.incident_id
IsPermitted scope budgets (runbooks_args a) = a.limit ≤ budgets.runbook_passages
