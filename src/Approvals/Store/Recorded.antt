-- ===== src/Approvals/Store/Recorded.antt =====
-- A recorded decision reads back as itself, and a second one under its key is refused.
use causal_ops.Prelude.{
  ℕ, String, ◌≡◌, refl, ap, ◌∙◌, true, false, Option, none, some, List, [], ◌∷◌, ◌++◌, arith,
  Option-cases, Bool-cases, inl, inr, any, eq_iff, eq_refl, ok, raised,
}
use causal_ops.Text.{strip, is_empty_text, is_blank-strip}
use causal_ops.Domain.Reports.{Decision, accept, reject, check_rejection_note_pairing}
use causal_ops.Approvals.{
  OwnerDecision, owner_decision, decision_text, normalize_note, check_pairing,
}
use causal_ops.Approvals.Notes.{parse-text, owner_decision-some, same_note_refl}
use causal_ops.Approvals.Store.{
  DecisionRow, conflicting_decision, is_readable, matches, newer, latest, read_decision_for_thread,
  is_keyed, decision_row, record_decision_before_resume,
}

latest-append :
    (thread_id : String) (row : DecisionRow) (rows : List DecisionRow)
    → row.thread_id ≡ thread_id
    → latest thread_id rows ≡ none
    → latest thread_id (rows ++ row ∷ []) ≡ some row
unfolding latest newer
latest-append thread_id row [] e h = ground (arith, eq_iff row.thread_id thread_id)
latest-append thread_id row (x ∷ xs) e h = ground (arith, latest-append thread_id row xs e)

unkeyed :
    (thread_id checkpoint_id : String) (rows : List DecisionRow)
    → latest thread_id rows ≡ none
    → any (is_keyed thread_id checkpoint_id) rows ≡ false
unfolding latest is_keyed
unkeyed thread_id checkpoint_id [] h = refl
unkeyed thread_id checkpoint_id (x ∷ xs) h = ground (arith, unkeyed thread_id checkpoint_id xs)

keyed-append :
    (thread_id checkpoint_id : String) (row : DecisionRow) (rows : List DecisionRow)
    → is_keyed thread_id checkpoint_id row ≡ true
    → any (is_keyed thread_id checkpoint_id) (rows ++ row ∷ []) ≡ true
keyed-append thread_id checkpoint_id row [] h = rw h refl
keyed-append thread_id checkpoint_id row (x ∷ xs) h =
    ground (arith, keyed-append thread_id checkpoint_id row xs h)

-- A note that was normalized suits the stricter reader of rows.
normalized_pairing :
    (choice : Decision) (note : Option String)
    → check_pairing choice (normalize_note note) ≡ true
    → check_rejection_note_pairing choice (normalize_note note) ≡ true
unfolding check_pairing check_rejection_note_pairing normalize_note
normalized_pairing accept said h = h
normalized_pairing reject none h = h
normalized_pairing reject (some note) h = elim (Bool-cases (is_empty_text (strip note))) [
  | inl blank ↦ absurd (ground arith)
  | inr written ↦ rw written (rw (is_blank-strip note, written) refl)
]

decision_row-readable :
    (thread_id checkpoint_id word : String) (note : Option String) (d : OwnerDecision)
    (decided_at : ℕ)
    → owner_decision word note ≡ some d
    → is_readable (decision_row thread_id checkpoint_id d decided_at) ≡ true
unfolding is_readable
decision_row-readable thread_id checkpoint_id word note d decided_at h =
    let (parsed, noted, good) = owner_decision-some word note d h in
    rw (parse-text d.decision, is_readable)
      (ap (check_rejection_note_pairing d.decision) noted
        ∙ normalized_pairing d.decision note (ground arith))

unread_none :
    (thread_id : String) (rows : List DecisionRow)
    → read_decision_for_thread thread_id rows ≡ ok none
    → latest thread_id rows ≡ none
unfolding read_decision_for_thread
unread_none thread_id rows h = elim (Option-cases (latest thread_id rows)) [
  | inl e ↦ e
  | inr (row, e) ↦ elim (Bool-cases (is_readable row)) [
    | inl good ↦ absurd (ground arith)
    | inr bad ↦ absurd (ground arith)
  ]
]

own_key :
    (thread_id checkpoint_id : String) (d : OwnerDecision) (decided_at : ℕ)
    → is_keyed thread_id checkpoint_id (decision_row thread_id checkpoint_id d decided_at) ≡ true
unfolding is_keyed
own_key thread_id checkpoint_id d decided_at = rw (eq_refl thread_id, eq_refl checkpoint_id) refl

-- A decision that was validated and recorded for a thread without one reads back as a row that matches
-- it, and recording any decision under the same thread and checkpoint again is refused and changes
-- nothing.
pub read-record_decision :
    (thread_id checkpoint_id word : String) (note : Option String) (d other : OwnerDecision)
    (decided_at later : ℕ) (rows : List DecisionRow)
    → owner_decision word note ≡ some d
    → read_decision_for_thread thread_id rows ≡ ok none
    → (row : DecisionRow) × (read_decision_for_thread thread_id
          (record_decision_before_resume thread_id checkpoint_id d decided_at rows).1
        ≡ ok (some row))
      × (matches row d ≡ true)
      × (record_decision_before_resume thread_id checkpoint_id other later
            (record_decision_before_resume thread_id checkpoint_id d decided_at rows).1
          ≡ (
            raised conflicting_decision,
            (record_decision_before_resume thread_id checkpoint_id d decided_at rows).1,
          ))
unfolding read_decision_for_thread record_decision_before_resume matches
read-record_decision thread_id checkpoint_id word note d other decided_at later rows valid unread =
    let row = decision_row thread_id checkpoint_id d decided_at in
    let none_yet : latest thread_id rows ≡ none = unread_none thread_id rows unread in
    let keyed : is_keyed thread_id checkpoint_id row ≡ true =
      own_key thread_id checkpoint_id d decided_at in
    (
      row,
      rw (unkeyed thread_id checkpoint_id rows none_yet) (
          rw (latest-append thread_id row rows refl none_yet, read_decision_for_thread)
            (rw (decision_row-readable thread_id checkpoint_id word note d decided_at valid) refl)),
      rw (eq_refl (decision_text d.decision), same_note_refl d.rejection_note) refl,
      rw (unkeyed thread_id checkpoint_id rows none_yet)
          (rw (keyed-append thread_id checkpoint_id row rows keyed) refl),
    )
