-- ===== src/Dispatch.antt =====
-- src/causalops/tool_wrappers.py: the one path from a parsed proposal to a backend. The order is
-- authorize, reserve, run, settle. `fingerprint` (tools.py) and `content_hash` (evidence.py) end in
-- hashlib and json, so they are parameters; so are the backends, which return `none` where they
-- raise. The two opaque ids (uuid4) and the readings of the clock come in a `Minted`.
pub mod Window
pub mod Calls
pub mod Paths
pub mod Budget
pub mod Outcomes
use Prim.Native.String.{count}
use causal_ops.Prelude.{
  ℕ, String, Bool, not, Option, none, some, List, [], ◌∷◌, min, max, leb, contains, if◌then◌else◌,
  Result, ok, raised,
}
use causal_ops.Tools.{
  ToolName, ToolArguments, metric_args, logs_args, changes_args, topology_args, runbooks_args,
  QueryMetricArguments, QueryLogsArguments, ListRecentChangesArguments, GetTopologyArguments,
  SearchRunbooksArguments, tool_of, same_tool,
}
use causal_ops.Domain.Codes.{
  PolicyResult, allowed, denied, ToolOutcome, not_executed, ReasonCode, EvidenceKind, RetrievalMode,
  settled, is_executed, is_denied,
}
use causal_ops.Domain.Json.{Payload}
use causal_ops.Domain.Receipts.{
  Budgets, IncidentScope, ToolProposal, tool, ToolReceipt, Evidence, check_summary, CheckOutcome,
  RunbookCheckOutcome, RunbookPassage,
}
use causal_ops.Policy.{PolicyDecision, Message, empty, authorize}
use causal_ops.Ledger.{Ledger, LedgerError, slots_left_for, reserve, settle, record_denial}

-- `max(arguments.window_start or scope.started_at, scope.started_at)`
abbrev pub effective_start : Option ℕ → IncidentScope → ℕ
effective_start none scope = max scope.started_at scope.started_at
effective_start (some t) scope = max t scope.started_at

-- `min(arguments.window_end or scope.ended_at, scope.ended_at)`
abbrev pub effective_end : Option ℕ → IncidentScope → ℕ
effective_end none scope = min scope.ended_at scope.ended_at
effective_end (some t) scope = min t scope.ended_at

unfoldable pub resolve_effective_window : ToolArguments → IncidentScope → ToolArguments
resolve_effective_window (metric_args a) scope = metric_args (record a {
  window_start = some (effective_start a.window_start scope);
  window_end = some (effective_end a.window_end scope);
})
resolve_effective_window (logs_args a) scope = logs_args (record a {
  window_start = some (effective_start a.window_start scope);
  window_end = some (effective_end a.window_end scope);
})
resolve_effective_window (changes_args a) scope = changes_args (record a {
  window_start = some (effective_start a.window_start scope);
  window_end = some (effective_end a.window_end scope);
})
resolve_effective_window (topology_args a) scope = topology_args a
resolve_effective_window (runbooks_args a) scope = runbooks_args a

pub record DispatchResult : Type 0 where
  pub receipt : ToolReceipt
  pub evidence : Option Evidence
  pub passages : List RunbookPassage
  pub retrieval_mode : Option RetrievalMode
  pub message : Message

-- The keyword arguments of `dispatch_registry`; `none` is a backend that raises.
pub record Backends : Type 0 where
  pub run_metric : QueryMetricArguments → IncidentScope → Option CheckOutcome
  pub run_logs : QueryLogsArguments → IncidentScope → Option CheckOutcome
  pub run_changes : ListRecentChangesArguments → IncidentScope → Option CheckOutcome
  pub run_topology : GetTopologyArguments → IncidentScope → Option CheckOutcome
  pub run_search : SearchRunbooksArguments → IncidentScope → Option RunbookCheckOutcome

-- What a backend seam comes back with.
pub data CheckResult : Type 0 where
  check : CheckOutcome → CheckResult
  guidance : RunbookCheckOutcome → CheckResult
  crash : CheckResult

abbrev pub as_check : Option CheckOutcome → CheckResult
as_check none = crash
as_check (some o) = check o

abbrev pub as_guidance : Option RunbookCheckOutcome → CheckResult
as_guidance none = crash
as_guidance (some o) = guidance o

-- The registered wrapper's backend, at the arguments that its tool takes.
unfoldable pub run_check : Backends → ToolArguments → IncidentScope → CheckResult
run_check b (metric_args a) scope = as_check (b.run_metric a scope)
run_check b (logs_args a) scope = as_check (b.run_logs a scope)
run_check b (changes_args a) scope = as_check (b.run_changes a scope)
run_check b (topology_args a) scope = as_check (b.run_topology a scope)
run_check b (runbooks_args a) scope = as_guidance (b.run_search a scope)

-- The exceptions that leave `dispatch`.
pub data Raised : Type 0 where
  wrong_arguments reservation_refused invalid_evidence backend_crashed : Raised
  ledger_error : LedgerError → Raised

pub record Minted : Type 0 where
  pub receipt_id : String
  pub evidence_id : String
  pub requested_at : ℕ
  pub observed_at : ℕ

-- `seen_fingerprints` and the ledger, which `dispatch` mutates.
pub record Dispatching : Type 0 where
  pub seen : List String
  pub ledger : Ledger

unfoldable pub denied_receipt : ToolProposal → IncidentScope → PolicyDecision → Minted → ToolReceipt
denied_receipt proposal scope decision m = record {
  receipt_id = m.receipt_id;
  incident_id = scope.incident_id;
  tool = tool proposal;
  fingerprint = decision.fingerprint;
  policy_result = denied;
  state = settled;
  outcome = some not_executed;
  reason_code = decision.reason_code;
  requested_at = m.requested_at;
  duration_ms = 0;
  result_digest = none;
  evidence_id = none;
  arguments = some proposal.arguments;
}

-- `seen_fingerprints.add(mark)`
abbrev pub add : String → List String → List String
add mark seen = if contains seen mark then seen else mark ∷ seen

-- What follows `ledger.settle`: its exception goes on.
abbrev pub settled_as :
    Result LedgerError (ToolReceipt × Ledger)
    → (ToolReceipt → DispatchResult)
    → Ledger
    → Result Raised DispatchResult × Ledger
settled_as (ok (receipt, l')) result l = (ok (result receipt), l')
settled_as (raised e) result l = (raised (ledger_error e), l)

abbrev pub denied_as :
    Result LedgerError Ledger → DispatchResult → Ledger → Result Raised DispatchResult × Ledger
denied_as (ok l') result l = (ok result, l')
denied_as (raised e) result l = (raised (ledger_error e), l)

module _ (content_hash : Payload → String) where
  -- `none` where the summary is longer than `Evidence` allows.
  unfoldable pub build_evidence : CheckOutcome → IncidentScope → Minted → Option Evidence
  build_evidence o scope m =
      let e : Evidence = record {
        evidence_id = m.evidence_id;
        incident_id = scope.incident_id;
        kind = o.kind;
        source = o.source;
        observed_at = m.observed_at;
        summary = o.summary;
        payload = o.payload;
        receipt_id = some m.receipt_id;
        content_hash = content_hash o.payload;
      } in
      if check_summary e then some e else none

  abbrev pub settle_check :
      CheckOutcome → Option Evidence → Minted → Ledger → Result Raised DispatchResult × Ledger
  settle_check o none m l =
      settled_as (settle m.receipt_id o.outcome o.reason_code o.duration_ms none none none l)
        (λ r. record {
          receipt = r;
          evidence = none;
          passages = [];
          retrieval_mode = none;
          message = empty;
        })
        l
  settle_check o (some e) m l =
      settled_as
        (settle m.receipt_id o.outcome o.reason_code o.duration_ms (some e.content_hash)
          (some e.evidence_id) (some e) l)
        (λ r. record {
          receipt = r;
          evidence = some e;
          passages = [];
          retrieval_mode = none;
          message = empty;
        })
        l

  -- From the backend's answer to the settled receipt.
  unfoldable pub conclude :
      CheckResult → IncidentScope → Minted → Ledger → Result Raised DispatchResult × Ledger
  conclude crash scope m l = (raised backend_crashed, l)
  conclude (guidance o) scope m l =
      settled_as (settle m.receipt_id o.outcome o.reason_code o.duration_ms none none none l)
        (λ r. record {
          receipt = r;
          evidence = none;
          passages = o.passages;
          retrieval_mode = some o.retrieval_mode;
          message = empty;
        })
        l
  conclude (check o) scope m l =
      if is_executed o.outcome
      then elim (build_evidence o scope m) [
        | none ↦ (raised invalid_evidence, l)
        | some e ↦ settle_check o (some e) m l
      ]
      else settle_check o none m l

  -- From the reservation on; the ledger is the one that `reserve` left.
  abbrev pub run_reserved :
      Option ToolReceipt
      → CheckResult
      → IncidentScope
      → Minted
      → Ledger
      → Result Raised DispatchResult × Ledger
  run_reserved none answer scope m l = (raised reservation_refused, l)
  run_reserved (some _) answer scope m l = conclude answer scope m l

  -- From the policy's decision on the effective proposal.
  unfoldable pub carry_out :
      PolicyDecision
      → Backends
      → ToolProposal
      → IncidentScope
      → Minted
      → Ledger
      → Result Raised DispatchResult × Ledger
  carry_out decision backends proposal scope m l =
      let receipt = denied_receipt proposal scope decision m in
      let (reservation, l') =
        reserve m.receipt_id scope.incident_id (tool proposal) decision.fingerprint m.requested_at
          proposal.arguments l in
      if is_denied decision.result
      then denied_as (record_denial receipt l)
          (record {
            receipt = receipt;
            evidence = none;
            passages = [];
            retrieval_mode = none;
            message = decision.message;
          })
          l
      else run_reserved reservation (run_check backends proposal.arguments scope) scope m l'

module _ (fingerprint : ToolArguments → String) (content_hash : Payload → String) where
  -- The `dispatch` of the wrapper that is registered for `wrapper`.
  unfoldable pub dispatch :
      Backends
      → ToolName
      → ToolProposal
      → IncidentScope
      → Budgets
      → Minted
      → Dispatching
      → Result Raised DispatchResult × Dispatching
  dispatch backends wrapper proposal scope budgets m s =
      let effective = record proposal {
        arguments = resolve_effective_window proposal.arguments scope;
      } in
      let decision =
        authorize fingerprint effective scope s.seen budgets (slots_left_for wrapper s.ledger) in
      let (result, l') = carry_out content_hash decision backends effective scope m s.ledger in
      if not (same_tool wrapper (tool proposal))
      then (raised wrong_arguments, s)
      else (result, record { seen = add decision.fingerprint s.seen; ledger = l' })
