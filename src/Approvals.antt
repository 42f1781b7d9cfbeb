-- ===== src/Approvals.antt =====
-- The owner's decision as the command line and the HTTP service take it (class OwnerDecision of
-- src/causalops/approvals.py, which DecisionRequest of src/causalops/api.py extends).
pub mod Notes
pub mod Store
use Prim.Native.String.{len}
use causal_ops.Prelude.{
  String, Bool, true, false, not, Option, none, some, is_none, ◌&&◌, leb, if◌then◌else◌, ◌==◌,
}
use causal_ops.Text.{strip, is_empty_text}
use causal_ops.Domain.Reports.{Decision, accept, reject}

pub record OwnerDecision : Type 0 where
  pub decision : Decision
  pub rejection_note : Option String

-- The `Literal["accept", "reject"]` and its texts
unfoldable pub parse_decision : String → Option Decision
parse_decision word =
    if word == "accept" then some accept else if word == "reject" then some reject else none

unfoldable pub decision_text : Decision → String
decision_text accept = "accept"
decision_text reject = "reject"

-- `note.strip() or None`
unfoldable pub normalize_note : Option String → Option String
normalize_note none = none
normalize_note (some note) = if is_empty_text (strip note) then none else some (strip note)

-- `max_length=300`, counted in code points
unfoldable pub note_fits : Option String → Bool
note_fits none = true
note_fits (some note) = leb (len note) 300

unfoldable pub check_pairing : Decision → Option String → Bool
check_pairing accept note = is_none note
check_pairing reject none = false
check_pairing reject (some note) = not (is_empty_text note)

-- `OwnerDecision(decision=..., rejection_note=...)`; `none` is its `ValidationError`.
unfoldable pub owner_decision : String → Option String → Option OwnerDecision
owner_decision word note = elim (parse_decision word) [
  | none ↦ none
  | some choice ↦
      if note_fits (normalize_note note) && check_pairing choice (normalize_note note)
      then some (record { decision = choice; rejection_note = normalize_note note })
      else none
]

unfoldable pub same_note : Option String → Option String → Bool
same_note none none = true
same_note (some a) (some b) = a == b
same_note _ _ = false

-- `==` of two decisions
unfoldable pub same_decision : OwnerDecision → OwnerDecision → Bool
same_decision a b =
    decision_text a.decision == decision_text b.decision
    && same_note a.rejection_note b.rejection_note
