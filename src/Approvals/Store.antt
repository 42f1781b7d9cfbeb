-- ===== src/Approvals/Store.antt =====
-- The table of owner decisions that the command line writes (`DecisionRow`, `read_decision_for_thread`
-- and `record_decision_before_resume` of src/causalops/approvals.py): the list of its rows, oldest first.
-- An instant is a natural number, ordered as its ISO text is. Failures of SQLite itself are left out.
pub mod Recorded
use causal_ops.Prelude.{
  ℕ, String, Bool, true, false, not, Option, none, some, is_none, List, [], ◌∷◌, ◌++◌, ◌&&◌, ◌||◌,
  ltb, any, if◌then◌else◌, ◌==◌, Result, ok, raised,
}
use causal_ops.Text.{is_blank}
use causal_ops.Domain.Reports.{Decision, accept, reject, check_rejection_note_pairing}
use causal_ops.Approvals.{OwnerDecision, parse_decision, decision_text, same_note}

pub record DecisionRow : Type 0 where
  pub thread_id : String
  pub checkpoint_id : String
  pub decision : String
  pub rejection_note : Option String
  pub decided_at : ℕ

-- CheckpointStoreError with its reasons here
pub data StoreFault : Type 0 where
  store_unavailable conflicting_decision : StoreFault

-- Whether `DecisionRow(...)` validates
unfoldable pub is_readable : DecisionRow → Bool
is_readable row = elim (parse_decision row.decision) [
  | none ↦ false
  | some choice ↦ check_rejection_note_pairing choice row.rejection_note
]

-- `matches`
unfoldable pub matches : DecisionRow → OwnerDecision → Bool
matches row d =
    row.decision == decision_text d.decision && same_note row.rejection_note d.rejection_note

unfoldable pub newer : DecisionRow → Option DecisionRow → DecisionRow
newer row none = row
newer row (some other) = if ltb row.decided_at other.decided_at then other else row

-- The SELECT: the row of the thread that was decided last
unfoldable pub latest : String → List DecisionRow → Option DecisionRow
latest thread_id [] = none
latest thread_id (row ∷ rows) =
    let rest = latest thread_id rows in
    if row.thread_id == thread_id then some (newer row rest) else rest

unfoldable pub read_decision_for_thread :
    String → List DecisionRow → Result StoreFault (Option DecisionRow)
read_decision_for_thread thread_id rows = elim (latest thread_id rows) [
  | none ↦ ok none
  | some row ↦ if is_readable row then ok (some row) else raised store_unavailable
]

-- The primary key
unfoldable pub is_keyed : String → String → DecisionRow → Bool
is_keyed thread_id checkpoint_id row =
    row.thread_id == thread_id && row.checkpoint_id == checkpoint_id

abbrev pub decision_row : String → String → OwnerDecision → ℕ → DecisionRow
decision_row thread_id checkpoint_id d decided_at = record {
  thread_id = thread_id;
  checkpoint_id = checkpoint_id;
  decision = decision_text d.decision;
  rejection_note = d.rejection_note;
  decided_at = decided_at;
}

unfoldable pub record_decision_before_resume :
    String
    → String
    → OwnerDecision
    → ℕ
    → List DecisionRow
    → Result StoreFault Unit × List DecisionRow
record_decision_before_resume thread_id checkpoint_id d decided_at rows =
    if any (is_keyed thread_id checkpoint_id) rows
    then (raised conflicting_decision, rows)
    else (ok tt, rows ++ decision_row thread_id checkpoint_id d decided_at ∷ [])
