-- ===== src/Dispatch/Budget.antt =====
-- On every path, errors included, `dispatch` keeps both pools of slots within their budgets, and an
-- allowed check costs exactly one slot of its own pool.
use mathlib.Core.Path.{subst}
use causal_ops.Prelude.{
  ℕ, ◌<◌, ◌+◌, String, ◌≡◌, refl, Bool, true, false, not, Option, none, some, arith, ◌⊎◌, Result,
  ok, raised, Bool-cases, Option-cases, inl, inr,
}
use causal_ops.Tools.{ToolName, ToolArguments, same_tool, is_search_runbooks}
use causal_ops.Domain.Codes.{ToolOutcome, ReasonCode, allowed, is_denied, is_executed}
use causal_ops.Domain.Json.{Payload}
use causal_ops.Domain.Receipts.{Budgets, IncidentScope, ToolProposal, tool, ToolReceipt, Evidence}
use causal_ops.Ledger.{
  Ledger, LedgerError, find, slots, slots_left, runbook_slots_left, slots_left_for, settle,
  record_denial,
}
use causal_ops.Ledger.Slots.{IsWithinBudget, reserve-IsWithinBudget, reserve_spends_one}
use causal_ops.Ledger.Lifecycle.{SameSlots, settle_keeps_slots, record_denial_keeps_slots}
use causal_ops.Dispatch.{
  Backends, Dispatching, DispatchResult, Raised, Minted, dispatch, carry_out, conclude, CheckResult,
  check, guidance, crash, build_evidence, settled_as, denied_as, run_reserved, denied_receipt,
}
use causal_ops.Dispatch.Window.{tool-resolve}
use causal_ops.Dispatch.Calls.{effective, decision_at}
use causal_ops.Dispatch.Paths.{
  dispatched, holding, answer, slot_left, reserve_holds, dispatch_allowed,
}

-- What settling does to a valid ledger, whether or not it raises.
abbrev Keeps : Ledger → Ledger → Type 0
Keeps l l' = SameSlots l l' × IsWithinBudget l'

settled_as-Keeps :
    (outcome : Result LedgerError (ToolReceipt × Ledger)) (f : ToolReceipt → DispatchResult)
    (l : Ledger)
    → IsWithinBudget l
    → ((r : ToolReceipt) (l' : Ledger) → outcome ≡ ok (r, l') → Keeps l l')
    → Keeps l (settled_as outcome f l).1
settled_as-Keeps (ok (r, l')) f l v k = k r l' refl
settled_as-Keeps (raised e) f l v k = ((refl, refl), v)

module _ (id : String) (outcome : ToolOutcome) (code : Option ReasonCode) (duration : ℕ)
    (digest evidence_id : Option String) (evidence : Option Evidence)
    (f : ToolReceipt → DispatchResult) (l : Ledger) (v : IsWithinBudget l) where
  settle-Keeps :
      Keeps l (settled_as (settle id outcome code duration digest evidence_id evidence l) f l).1
  settle-Keeps =
      settled_as-Keeps (settle id outcome code duration digest evidence_id evidence l) f l v
        (λ r l' h.
          let (same, valid, _, _) =
            settle_keeps_slots id outcome code duration digest evidence_id evidence l r l' h v in
          (same, valid))

slots_at : (l l' : Ledger) → SameSlots l l' → (runbook : Bool) → slots runbook l' ≡ slots runbook l
unfolding slots_left runbook_slots_left
slots_at l l' h true = h.1
slots_at l l' h false = h.0

module _ (content_hash : Payload → String) (scope : IncidentScope) (m : Minted) (l : Ledger) where
  conclude-Keeps :
      (a : CheckResult) → IsWithinBudget l → Keeps l (conclude content_hash a scope m l).1
  unfolding conclude
  conclude-Keeps crash v = ((refl, refl), v)
  conclude-Keeps (guidance o) v =
      settle-Keeps m.receipt_id o.outcome o.reason_code o.duration_ms none none none _ l v
  conclude-Keeps (check o) v = elim (Bool-cases (is_executed o.outcome)) [
    | inr failed ↦
        rw failed
          (settle-Keeps m.receipt_id o.outcome o.reason_code o.duration_ms none none none _ l v)
    | inl ran ↦ elim (Option-cases (build_evidence content_hash o scope m)) [
      | inl invalid ↦ rw ran (rw invalid ((refl, refl), v))
      | inr (e, built) ↦ rw ran (
          rw built (
            settle-Keeps m.receipt_id o.outcome o.reason_code o.duration_ms (some e.content_hash)
              (some e.evidence_id) (some e) _ l v))
    ]
  ]

denied_as_within :
    (receipt : ToolReceipt) (r : DispatchResult) (l : Ledger)
    → IsWithinBudget l
    → IsWithinBudget (denied_as (record_denial receipt l) r l).1
denied_as_within receipt r l v = go (record_denial receipt l) refl
  where
    go :
        (outcome : Result LedgerError Ledger)
        → record_denial receipt l ≡ outcome
        → IsWithinBudget (denied_as outcome r l).1
    go (ok l') h = (record_denial_keeps_slots receipt l l' h v).1
    go (raised e) h = v

run_reserved_within :
    (content_hash : Payload → String) (reservation : Option ToolReceipt) (a : CheckResult)
    (scope : IncidentScope) (m : Minted) (l : Ledger)
    → IsWithinBudget l
    → IsWithinBudget (run_reserved content_hash reservation a scope m l).1
run_reserved_within content_hash none a scope m l v = v
run_reserved_within content_hash (some _) a scope m l v =
    (conclude-Keeps content_hash scope m l a v).1

module _ (fingerprint : ToolArguments → String) (content_hash : Payload → String) (b : Backends)
    (wrapper : ToolName) (p : ToolProposal) (scope : IncidentScope) (budgets : Budgets) (m : Minted)
    (s : Dispatching) where
  abbrev after : Dispatching
  after = (dispatched fingerprint content_hash b wrapper p scope budgets m s).1

  abbrev carried : Result Raised DispatchResult × Ledger
  carried =
      carry_out content_hash (decision_at fingerprint wrapper p scope budgets s) b
        (effective p scope) scope m s.ledger

  ledger_cases : (after.ledger ≡ s.ledger) ⊎ (after.ledger ≡ carried.1)
  unfolding dispatch
  ledger_cases = ground arith

  carried_within :
      find m.receipt_id s.ledger.receipts ≡ none
      → IsWithinBudget s.ledger
      → IsWithinBudget carried.1
  unfolding carry_out
  carried_within fresh v =
      let d = decision_at fingerprint wrapper p scope budgets s in
      elim (Bool-cases (is_denied d.result)) [
        | inl refused ↦
            rw refused
              (denied_as_within (denied_receipt (effective p scope) scope d m) _ s.ledger v)
        | inr passed ↦ rw passed (
            run_reserved_within content_hash _ _ scope m _ (
              reserve-IsWithinBudget m.receipt_id scope.incident_id (tool (effective p scope))
                d.fingerprint m.requested_at (effective p scope).arguments s.ledger fresh v))
      ]

  -- From a ledger of distinct ids and with neither pool overspent, and with a new receipt id: whatever
  -- the policy decides and the backend does, a raise included, the receipts keep distinct ids and
  -- neither pool of slots is overspent.
  pub dispatch-IsWithinBudget :
      find m.receipt_id s.ledger.receipts ≡ none
      → IsWithinBudget s.ledger
      → IsWithinBudget after.ledger
  dispatch-IsWithinBudget fresh v = elim ledger_cases [
    | inl same ↦ rw same v
    | inr moved ↦ rw moved (carried_within fresh v)
  ]

  -- From a ledger of distinct ids and no overspent pool, an allowed proposal of the wrapper's tool with
  -- a new receipt id costs exactly one slot of its tool's pool and none of the other, whether its
  -- backend succeeds, fails or raises.
  pub allowed_costs_one :
      same_tool wrapper (tool p) ≡ true
      → (decision_at fingerprint wrapper p scope budgets s).result ≡ allowed
      → find m.receipt_id s.ledger.receipts ≡ none
      → IsWithinBudget s.ledger
      → (slots (is_search_runbooks (tool p)) after.ledger + 1
          ≡ slots (is_search_runbooks (tool p)) s.ledger)
        × (slots (not (is_search_runbooks (tool p))) after.ledger
            ≡ slots (not (is_search_runbooks (tool p))) s.ledger)
  allowed_costs_one same passed fresh v =
      let d = decision_at fingerprint wrapper p scope budgets s in
      let t = tool (effective p scope) in
      let room : 0 < slots_left_for t s.ledger =
        ground
          (arith, slot_left fingerprint content_hash b wrapper p scope budgets m s same passed) in
      let held = reserve_holds fingerprint content_hash b wrapper p scope budgets m s same passed in
      let l' = holding fingerprint content_hash b wrapper p scope budgets m s in
      let (_, _, one, others) =
        reserve_spends_one m.receipt_id scope.incident_id t d.fingerprint m.requested_at
          (effective p scope).arguments s.ledger fresh room in
      let valid : IsWithinBudget l' = subst IsWithinBudget held (
        reserve-IsWithinBudget m.receipt_id scope.incident_id t d.fingerprint m.requested_at
          (effective p scope).arguments s.ledger fresh v) in
      let (_, moved) =
        dispatch_allowed fingerprint content_hash b wrapper p scope budgets m s same passed in
      let kept =
        (conclude-Keeps content_hash scope m l'
          (answer fingerprint content_hash b wrapper p scope budgets m s) valid).0 in
      let same_pool = tool-resolve p.arguments scope in
      (
        rw moved (cc (same_pool, one, held, slots_at l' _ kept (is_search_runbooks (tool p)))),
        rw moved
            (cc (same_pool, others, held, slots_at l' _ kept (not (is_search_runbooks (tool p))))),
      )
