-- ===== src/Dispatch/Window.antt =====
-- The clamped window: what the incident and the asked window share, with bounds that are known.
use causal_ops.Prelude.{ℕ, ◌≤◌, ◌↔◌, String, ◌≡◌, ◌≢◌, refl, Option, none, some, List, arith}
use causal_ops.Tools.{
  ToolArguments, metric_args, logs_args, changes_args, topology_args, runbooks_args, tool_of,
}
use causal_ops.Domain.Codes.{unresolved_window}
use causal_ops.Domain.Receipts.{Budgets, IncidentScope, ToolProposal}
use causal_ops.Policy.{
  authorize_rows, authorize_window, authorize_service, authorize_arguments, authorize, allow, deny,
}
use causal_ops.Dispatch.{resolve_effective_window, effective_start, effective_end}

-- The two bounds of a tool that has a window.
abbrev pub bounds : ToolArguments → Option (Option ℕ × Option ℕ)
bounds (metric_args a) = some (a.window_start, a.window_end)
bounds (logs_args a) = some (a.window_start, a.window_end)
bounds (changes_args a) = some (a.window_start, a.window_end)
bounds (topology_args a) = none
bounds (runbooks_args a) = none

abbrev pub NotBefore : Option ℕ → ℕ → Type 0
NotBefore none s = Unit
NotBefore (some t) s = t ≤ s

abbrev pub NotAfter : Option ℕ → ℕ → Type 0
NotAfter none e = Unit
NotAfter (some t) e = e ≤ t

start_narrows :
    (start : Option ℕ) (scope : IncidentScope) (t : ℕ)
    → (effective_start start scope ≤ t) ↔ ((scope.started_at ≤ t) × NotBefore start t)
start_narrows none scope t = (λ h. (omega arith, tt), λ h. omega arith)
start_narrows (some asked) scope t = (λ h. (omega arith, omega arith), λ h. omega arith)

end_narrows :
    (end : Option ℕ) (scope : IncidentScope) (t : ℕ)
    → (t ≤ effective_end end scope) ↔ ((t ≤ scope.ended_at) × NotAfter end t)
end_narrows none scope t = (λ h. (omega arith, tt), λ h. omega arith)
end_narrows (some asked) scope t = (λ h. (omega arith, omega arith), λ h. omega arith)

-- The window of `a` has two known bounds, and the instant lies between them exactly when it lies in
-- the incident and between the bounds that were supplied.
pub record IsNarrowed (scope : IncidentScope) (start end : Option ℕ) (a : ToolArguments) (t : ℕ)
    : Type 0 where
  pub from : ℕ
  pub until : ℕ
  pub known : bounds a ≡ some (some from, some until)
  pub after_both : (from ≤ t) ↔ ((scope.started_at ≤ t) × NotBefore start t)
  pub before_both : (t ≤ until) ↔ ((t ≤ scope.ended_at) × NotAfter end t)

abbrev narrowed :
    (scope : IncidentScope) (start end : Option ℕ) (a : ToolArguments) (t : ℕ)
    → bounds a ≡ some (some (effective_start start scope), some (effective_end end scope))
    → IsNarrowed scope start end a t
narrowed scope start end a t known = record {
  from = effective_start start scope;
  until = effective_end end scope;
  known = known;
  after_both = start_narrows start scope t;
  before_both = end_narrows end scope t;
}

-- Resolving the window of a tool that has one gives two known bounds. An instant is not before the
-- first exactly when it is before neither the incident's start nor a start that was supplied, and not
-- after the second exactly when it is after neither the incident's end nor an end that was supplied: an
-- instant lies in the window exactly when it lies in the incident and in the window that was asked.
pub resolve_narrows :
    (a : ToolArguments) (scope : IncidentScope) (start end : Option ℕ) (t : ℕ)
    → bounds a ≡ some (start, end)
    → IsNarrowed scope start end (resolve_effective_window a scope) t
unfolding resolve_effective_window
resolve_narrows (metric_args a) scope start end t h =
    narrowed scope start end (resolve_effective_window (metric_args a) scope) t (cc)
resolve_narrows (logs_args a) scope start end t h =
    narrowed scope start end (resolve_effective_window (logs_args a) scope) t (cc)
resolve_narrows (changes_args a) scope start end t h =
    narrowed scope start end (resolve_effective_window (changes_args a) scope) t (cc)
resolve_narrows (topology_args a) scope start end t h = cc
resolve_narrows (runbooks_args a) scope start end t h = cc

start_idem :
    (start : Option ℕ) (scope : IncidentScope)
    → effective_start (some (effective_start start scope)) scope ≡ effective_start start scope
start_idem none scope = omega arith
start_idem (some t) scope = omega arith

end_idem :
    (end : Option ℕ) (scope : IncidentScope)
    → effective_end (some (effective_end end scope)) scope ≡ effective_end end scope
end_idem none scope = omega arith
end_idem (some t) scope = omega arith

-- A resolved window is its own resolution, so a clamped proposal has one fingerprint.
pub resolve_idem :
    (a : ToolArguments) (scope : IncidentScope)
    → resolve_effective_window (resolve_effective_window a scope) scope
      ≡ resolve_effective_window a scope
unfolding resolve_effective_window
resolve_idem (metric_args a) scope =
    cc (start_idem a.window_start scope, end_idem a.window_end scope)
resolve_idem (logs_args a) scope = cc (start_idem a.window_start scope, end_idem a.window_end scope)
resolve_idem (changes_args a) scope =
    cc (start_idem a.window_start scope, end_idem a.window_end scope)
resolve_idem (topology_args a) scope = refl
resolve_idem (runbooks_args a) scope = refl

pub tool-resolve :
    (a : ToolArguments) (scope : IncidentScope)
    → tool_of (resolve_effective_window a scope) ≡ tool_of a
unfolding resolve_effective_window
tool-resolve (metric_args a) scope = refl
tool-resolve (logs_args a) scope = refl
tool-resolve (changes_args a) scope = refl
tool-resolve (topology_args a) scope = refl
tool-resolve (runbooks_args a) scope = refl

resolved_service :
    (mark : String) (scope : IncidentScope) (budgets : Budgets) (service : String) (s e : ℕ)
    (rows : Option ℕ)
    → (authorize_service mark scope budgets service (some s) (some e) rows).reason_code
      ≢ some unresolved_window
unfolding authorize_service authorize_window authorize_rows allow deny
resolved_service mark scope budgets service s e rows = ground arith

resolved_arguments :
    (mark : String) (scope : IncidentScope) (budgets : Budgets) (a : ToolArguments)
    → (authorize_arguments mark scope budgets (resolve_effective_window a scope)).reason_code
      ≢ some unresolved_window
unfolding resolve_effective_window authorize_arguments allow deny
resolved_arguments mark scope budgets (metric_args a) =
    resolved_service mark scope budgets a.service (effective_start a.window_start scope)
      (effective_end a.window_end scope) none
resolved_arguments mark scope budgets (logs_args a) =
    resolved_service mark scope budgets a.service (effective_start a.window_start scope)
      (effective_end a.window_end scope) (some a.row_limit)
resolved_arguments mark scope budgets (changes_args a) =
    resolved_service mark scope budgets a.service (effective_start a.window_start scope)
      (effective_end a.window_end scope) none
resolved_arguments mark scope budgets (topology_args a) = ground arith
resolved_arguments mark scope budgets (runbooks_args a) = ground arith

-- On a resolved proposal, as the wrapper hands it over, the policy never answers that the window is
-- unresolved.
pub wrapper_resolves :
    (fingerprint : ToolArguments → String) (proposal : ToolProposal) (scope : IncidentScope)
    (seen : List String) (budgets : Budgets) (remaining : ℕ)
    → (authorize fingerprint
        (record proposal { arguments = resolve_effective_window proposal.arguments scope })
        scope
        seen
        budgets
        remaining).reason_code
      ≢ some unresolved_window
unfolding authorize deny
wrapper_resolves fingerprint proposal scope seen budgets remaining = ground (
  arith,
  resolved_arguments (fingerprint (resolve_effective_window proposal.arguments scope)) scope budgets
      proposal.arguments,
)
