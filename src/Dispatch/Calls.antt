-- ===== src/Dispatch/Calls.antt =====
-- When a backend is called: never for a denied proposal, and never twice for one proposal.
use causal_ops.Prelude.{
  ◌<◌, String, ◌≡◌, refl, true, false, none, some, List, [], arith, eq_iff, contains, ok,
}
use causal_ops.Tools.{ToolName, ToolArguments, same_tool}
use causal_ops.Domain.Codes.{PolicyResult, allowed, denied, not_executed, is_denied}
use causal_ops.Domain.Json.{Payload}
use causal_ops.Domain.Receipts.{Budgets, IncidentScope, ToolProposal, tool}
use causal_ops.Policy.{PolicyDecision, authorize, deny}
use causal_ops.Policy.Permitted.{IsPermitted}
use causal_ops.Policy.Decisions.{authorize-allowed_iff, authorize_coherent}
use causal_ops.Ledger.{Ledger, find, slots_left_for, record_denial, put}
use causal_ops.Dispatch.{
  Backends, Dispatching, DispatchResult, Minted, resolve_effective_window, dispatch, carry_out,
  denied_receipt, add,
}

pub contains-add : (mark : String) (seen : List String) → contains (add mark seen) mark ≡ true
contains-add mark seen = ground (arith, eq_iff mark mark)

-- The proposal that the wrapper authorizes.
abbrev pub effective : ToolProposal → IncidentScope → ToolProposal
effective p scope = record p { arguments = resolve_effective_window p.arguments scope }

module _ (fingerprint : ToolArguments → String) (wrapper : ToolName) (p : ToolProposal)
    (scope : IncidentScope) (budgets : Budgets) where
  -- The policy's decision inside `dispatch`.
  abbrev pub decision_at : Dispatching → PolicyDecision
  decision_at s =
      authorize fingerprint (effective p scope) scope s.seen budgets
        (slots_left_for wrapper s.ledger)

module _ (fingerprint : ToolArguments → String) (content_hash : Payload → String)
    (wrapper : ToolName) (p : ToolProposal) (scope : IncidentScope) (budgets : Budgets) where
  -- A proposal that is not permitted, was seen before, or finds no slot left gives one and the same
  -- result, fingerprints and ledger whatever the backends are: none of them is called.
  pub denied_calls_no_backend :
      (b b' : Backends) (m : Minted) (s : Dispatching)
      → ¬ (
          (0 < slots_left_for wrapper s.ledger)
          × (contains s.seen (fingerprint (effective p scope).arguments) ≡ false)
          × IsPermitted scope budgets (effective p scope).arguments)
      → dispatch fingerprint content_hash b wrapper p scope budgets m s
        ≡ dispatch fingerprint content_hash b' wrapper p scope budgets m s
  unfolding dispatch carry_out
  denied_calls_no_backend b b' m s h =
      let refused : (decision_at fingerprint wrapper p scope budgets s).result ≡ denied =
        not_allowed (decision_at fingerprint wrapper p scope budgets s).result (λ e. h (
          (authorize-allowed_iff fingerprint (effective p scope) scope s.seen budgets
              (slots_left_for wrapper s.ledger)).0
            e)) in
      rw (refused, is_denied) refl
    where
      not_allowed : (r : PolicyResult) → ¬ (r ≡ allowed) → r ≡ denied
      not_allowed allowed n = absurd (n refl)
      not_allowed denied n = refl

  -- The fingerprint of the effective arguments is seen once `dispatch` is through.
  pub seen-dispatch :
      (b : Backends) (m : Minted) (s : Dispatching)
      → same_tool wrapper (tool p) ≡ true
      → contains
          (dispatch fingerprint content_hash b wrapper p scope budgets m s).1.seen
          (fingerprint (effective p scope).arguments)
        ≡ true
  unfolding dispatch
  seen-dispatch b m s same =
      let mark : (decision_at fingerprint wrapper p scope budgets s).fingerprint
          ≡ fingerprint (effective p scope).arguments =
        (authorize_coherent fingerprint (effective p scope) scope s.seen budgets
          (slots_left_for wrapper s.ledger)).1 in
      rw (same, mark) (contains-add (fingerprint (effective p scope).arguments) s.seen)

  seen_denied :
      (s : Dispatching)
      → contains s.seen (fingerprint (effective p scope).arguments) ≡ true
      → (decision_at fingerprint wrapper p scope budgets s).result ≡ denied
  unfolding authorize deny
  seen_denied s h = ground arith

  abbrev pub denial : Minted → Dispatching → DispatchResult
  denial m s = record {
    receipt =
        denied_receipt (effective p scope) scope (decision_at fingerprint wrapper p scope budgets s)
          m;
    evidence = none;
    passages = [];
    retrieval_mode = none;
    message = (decision_at fingerprint wrapper p scope budgets s).message;
  }

  -- What a denied dispatch returns and leaves.
  pub dispatch_denied :
      (b : Backends) (m : Minted) (s : Dispatching)
      → same_tool wrapper (tool p) ≡ true
      → (decision_at fingerprint wrapper p scope budgets s).result ≡ denied
      → find m.receipt_id s.ledger.receipts ≡ none
      → ((dispatch fingerprint content_hash b wrapper p scope budgets m s).0 ≡ ok (denial m s))
        × ((dispatch fingerprint content_hash b wrapper p scope budgets m s).1.ledger
            ≡ record s.ledger { receipts = put (denial m s).receipt s.ledger.receipts })
  unfolding dispatch carry_out record_denial denied_receipt
  dispatch_denied b m s same refused fresh = (ground arith, ground arith)

  -- After a first dispatch of a proposal by its tool's wrapper, a second one of the same proposal, with
  -- a receipt id that the ledger it meets does not have, is denied, and its receipt says that nothing
  -- was executed.
  pub second_dispatch_denied :
      (b b' : Backends) (m m' : Minted) (s : Dispatching) (l : Ledger)
      → same_tool wrapper (tool p) ≡ true
      → find m'.receipt_id l.receipts ≡ none
      → (r : DispatchResult) × ((dispatch fingerprint content_hash b' wrapper p scope budgets m'
            (record {
              seen = (dispatch fingerprint content_hash b wrapper p scope budgets m s).1.seen;
              ledger = l;
            })).0
          ≡ ok r)
        × (r.receipt.policy_result ≡ denied)
        × (r.receipt.outcome ≡ some not_executed)
  unfolding denied_receipt
  second_dispatch_denied b b' m m' s l same fresh =
      let s' : Dispatching = record {
        seen = (dispatch fingerprint content_hash b wrapper p scope budgets m s).1.seen;
        ledger = l;
      } in
      let refused : (decision_at fingerprint wrapper p scope budgets s').result ≡ denied =
        seen_denied s' (seen-dispatch b m s same) in
      (denial m' s', (dispatch_denied b' m' s' same refused fresh).0, refl, refl)
