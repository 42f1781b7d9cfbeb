-- ===== src/Graph/Escalation.antt =====
-- `_escalation_reason`, `_parse_resume_decision` and the `escalation_interrupt` node of
-- src/causalops/graph.py.
pub mod Decisions
use causal_ops.Prelude.{
  map, not, ℕ, zero, suc, String, Bool, true, false, Option, none, some, List, [], ◌∷◌, ◌&&◌, any,
  length, ltb, leb, if◌then◌else◌, ◌==◌,
}
use causal_ops.Text.{strip, is_empty_text}
use causal_ops.Tools.{is_search_runbooks}
use causal_ops.Domain.Codes.{
  ToolOutcome, EscalationReason, GraphPhase, ModelDisposition, is_unavailable, is_allowed,
  is_settled, retrieval_coverage_insufficient, insufficient_evidence_with_check_remaining,
  conflicting_evidence,
}
use causal_ops.Domain.Receipts.{Budgets, ToolReceipt}
use causal_ops.Domain.Model.{FinalAssessment, check_assessment, is_empty}
use causal_ops.Domain.Reports.{Decision, accept, reject}
use causal_ops.EvidenceStore.{Store, ordered}
use causal_ops.Graph.State.{
  Env, GraphState, event, escalation_decided, rebuild_receipts, rebuild_store, tools_left,
}

abbrev pub outcome_unavailable : Option ToolOutcome → Bool
outcome_unavailable none = false
outcome_unavailable (some o) = is_unavailable o

-- `receipt.outcome is ToolOutcome.UNAVAILABLE`
abbrev pub went_unavailable : ToolReceipt → Bool
went_unavailable r = outcome_unavailable r.outcome

-- A runbook search that was allowed and has settled.
abbrev pub searched : ToolReceipt → Bool
searched r = is_search_runbooks r.tool && is_allowed r.policy_result && is_settled r.state

abbrev pub abstains : ModelDisposition → Bool
abstains ModelDisposition.diagnosed = false
abstains ModelDisposition.insufficient_evidence = true

abbrev pub conflict : FinalAssessment → Option EscalationReason
conflict x = if is_empty x.contrary_evidence_ids then none else some conflicting_evidence

-- The last two triggers; the outer `none` is the exception of counting the slots, which is read only
-- for an abstention.
unfoldable pub check_remaining :
    List ToolReceipt → FinalAssessment → Budgets → Option (Option EscalationReason)
check_remaining receipts x budgets =
    if abstains x.disposition
    then elim (tools_left receipts budgets) [
      | none ↦ none
      | some n ↦
          some (if ltb 0 n then some insufficient_evidence_with_check_remaining else conflict x)
    ]
    else some (conflict x)

unfoldable pub escalation_reason :
    List ToolReceipt → FinalAssessment → Budgets → ℕ → Option (Option EscalationReason)
escalation_reason receipts x budgets retrieved =
    if any went_unavailable receipts
    then some (some EscalationReason.tool_unavailable)
    else if any searched receipts && leb retrieved 0
    then some (some retrieval_coverage_insufficient)
    else check_remaining receipts x budgets

-- A value under a key of the resume mapping: missing or `None`, a text, or of another type.
pub data Field : Type 0 where
  absent : Field
  text : String → Field
  other : Field

pub data ResumeValue : Type 0 where
  no_mapping : ResumeValue
  mapping : Field → Field → ResumeValue

abbrev pub accept_pair : Field → Option (Decision × Option String)
accept_pair absent = some (accept, none)
accept_pair _ = none

abbrev pub reject_pair : Field → Option (Decision × Option String)
reject_pair (text note) =
    if is_empty_text (strip note) then none else some (reject, some (strip note))
reject_pair _ = none

abbrev pub resume_pair : Field → Field → Option (Decision × Option String)
resume_pair (text decision) note =
    if decision == "accept"
    then accept_pair note
    else if decision == "reject"
    then reject_pair note
    else none
resume_pair _ note = none

unfoldable pub parse_resume_decision : ResumeValue → Option (Decision × Option String)
parse_resume_decision no_mapping = none
parse_resume_decision (mapping decision note) = resume_pair decision note

-- The `while resolved is None` loop over the resume values that arrive: the first that parses, or
-- `none` while the run stays paused.
unfoldable pub first_decision : List ResumeValue → Option (Decision × Option String)
first_decision [] = none
first_decision (v ∷ vs) = elim (parse_resume_decision v) [
  | some d ↦ some d
  | none ↦ first_decision vs
]

-- What `interrupt` shows the owner, first or again after a value that does not parse.
pub record Pause : Type 0 where
  pub reason : EscalationReason
  pub evidence_ids : List String
  pub remaining_check_count : ℕ
  pub retry : Bool

abbrev pub pause_at : EscalationReason → Store → ℕ → List ResumeValue → Pause
pause_at reason store remaining values = record {
  reason = reason;
  evidence_ids = map (λ e. e.evidence_id) (ordered store);
  remaining_check_count = remaining;
  retry = not (is_empty values);
}

-- A visit of the node: an exception, still waiting for the owner, or resumed.
pub data Interrupted : Type 0 where
  fault : Interrupted
  paused : Pause → Interrupted
  resumed : GraphState → Interrupted

module _ (env : Env) (st : GraphState) where
  abbrev pub decide : Pause → Option (Decision × Option String) → Interrupted
  decide pause none = paused pause
  decide pause (some (decision, note)) = resumed (record st {
    phase = GraphPhase.escalation_interrupt;
    escalation_reason = some pause.reason;
    escalation_decision = some decision;
    rejection_note = note;
    events =
        event env GraphPhase.escalation_interrupt (escalation_decided pause.reason decision)
          st.events;
  })

  -- `none` is the exception of counting the slots for the payload.
  abbrev pub interrupt_at : EscalationReason → Store → List ResumeValue → Option ℕ → Interrupted
  interrupt_at reason store values none = fault
  interrupt_at reason store values (some remaining) =
      decide (pause_at reason store remaining values) (first_decision values)

  -- The first `none` is the exception of the trigger check, the second its assertion.
  abbrev pub interrupt_for :
      List ToolReceipt → Store → List ResumeValue → Option (Option EscalationReason) → Interrupted
  interrupt_for receipts store values none = fault
  interrupt_for receipts store values (some none) = fault
  interrupt_for receipts store values (some (some reason)) =
      interrupt_at reason store values (tools_left receipts env.budgets)

  abbrev pub interrupt_with :
      FinalAssessment → List ToolReceipt → Store → List ResumeValue → Interrupted
  interrupt_with x receipts store values =
      if check_assessment x
      then interrupt_for receipts store values
          (escalation_reason receipts x env.budgets (length st.runbook_passages))
      else fault

  unfoldable pub escalation_interrupt : List ResumeValue → Interrupted
  escalation_interrupt values = elim (rebuild_receipts st) [
    | none ↦ fault
    | some receipts ↦ elim st.assessment [
      | none ↦ fault
      | some x ↦ elim (rebuild_store st) [
        | none ↦ fault
        | some store ↦ interrupt_with x receipts store values
      ]
    ]
  ]
