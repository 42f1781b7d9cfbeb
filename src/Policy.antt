-- ===== src/Policy.antt =====
-- src/causalops/policy.py: deterministic authorization of a proposed check. `fingerprint` is the
-- SHA-256 of the arguments' JSON (src/causalops/tools.py), which hashlib and pydantic compute: it is
-- a parameter. `tools_remaining` is a native number: the code asks only whether it is positive.
pub mod Permitted
pub mod Decisions
use causal_ops.Prelude.{
  ℕ, String, Bool, true, false, not, Option, none, some, List, ◌&&◌, ◌||◌, ltb, leb, is_some,
  contains, if◌then◌else◌, ◌==◌,
}
use causal_ops.Tools.{
  ToolArguments, metric_args, logs_args, changes_args, topology_args, runbooks_args,
}
use causal_ops.Domain.Codes.{
  PolicyResult, allowed, denied, ReasonCode, budget_exhausted, duplicate_proposal,
  cross_incident_request, unknown_service, unresolved_window, outside_incident_window,
  result_limit_exceeded,
}
use causal_ops.Domain.Receipts.{Budgets, IncidentScope, ToolProposal}

-- The sentences of the decisions; `above` is the one that quotes a field, the request and the budget.
pub data Message : Type 0 where
  empty : Message
  text : String → Message
  above : String → ℕ → ℕ → Message

pub record PolicyDecision : Type 0 where
  pub result : PolicyResult
  pub fingerprint : String
  pub reason_code : Option ReasonCode
  pub message : Message

-- `PolicyDecision.check_reason_code`
unfoldable pub check_reason_code : PolicyDecision → Bool
check_reason_code d = elim d.result [
  | denied ↦ is_some d.reason_code
  | allowed ↦ not (is_some d.reason_code)
]

unfoldable pub deny : String → ReasonCode → Message → PolicyDecision
deny mark code message = record {
  result = denied;
  fingerprint = mark;
  reason_code = some code;
  message = message;
}

unfoldable pub allow : String → PolicyDecision
allow mark = record { result = allowed; fingerprint = mark; reason_code = none; message = empty }

-- The limit on log rows, which only `query_logs` has.
unfoldable pub authorize_rows : String → Budgets → Option ℕ → PolicyDecision
unfolding deny allow
authorize_rows mark budgets none = allow mark
authorize_rows mark budgets (some rows) =
    if ltb budgets.log_rows rows
    then deny mark result_limit_exceeded (above "row_limit" rows budgets.log_rows)
    else allow mark

unfoldable pub authorize_window :
    String → IncidentScope → Budgets → Option ℕ → Option ℕ → Option ℕ → PolicyDecision
authorize_window mark scope budgets (some start) (some end) rows =
    if ltb start scope.started_at || ltb scope.ended_at end
    then deny mark outside_incident_window (text "that window leaves the incident")
    else if leb end start
    then deny mark outside_incident_window (text "that window ends before it starts")
    else authorize_rows mark budgets rows
authorize_window mark scope budgets _ _ rows =
    deny mark unresolved_window
      (text "a direct caller must resolve the window before calling authorize")

-- The three tools with a service and a window.
unfoldable pub authorize_service :
    String → IncidentScope → Budgets → String → Option ℕ → Option ℕ → Option ℕ → PolicyDecision
authorize_service mark scope budgets service start end rows =
    if not (contains scope.services service)
    then deny mark unknown_service (text "that service is out of scope")
    else authorize_window mark scope budgets start end rows

unfoldable pub authorize_arguments :
    String → IncidentScope → Budgets → ToolArguments → PolicyDecision
authorize_arguments mark scope budgets (topology_args a) =
    if a.incident_id == scope.incident_id
    then allow mark
    else deny mark cross_incident_request (text "that is another incident")
authorize_arguments mark scope budgets (runbooks_args a) =
    if ltb budgets.runbook_passages a.limit
    then deny mark result_limit_exceeded (above "limit" a.limit budgets.runbook_passages)
    else allow mark
authorize_arguments mark scope budgets (metric_args a) =
    authorize_service mark scope budgets a.service a.window_start a.window_end none
authorize_arguments mark scope budgets (logs_args a) =
    authorize_service mark scope budgets a.service a.window_start a.window_end (some a.row_limit)
authorize_arguments mark scope budgets (changes_args a) =
    authorize_service mark scope budgets a.service a.window_start a.window_end none

module _ (fingerprint : ToolArguments → String) where
  unfoldable pub authorize :
      ToolProposal → IncidentScope → List String → Budgets → ℕ → PolicyDecision
  authorize proposal scope seen budgets tools_remaining =
      let mark = fingerprint proposal.arguments in
      if leb tools_remaining 0
      then deny mark budget_exhausted (text "no diagnostic check budget left")
      else if contains seen mark
      then deny mark duplicate_proposal (text "this check was proposed already")
      else authorize_arguments mark scope budgets proposal.arguments
