-- ===== src/Tests/Decisions.antt =====
-- The command line's table of decisions (src/causalops/approvals.py).
use causal_ops.Prelude.{◌≡◌, refl, true, some, [], ok, raised}
use causal_ops.Text.{is_space, is_blank, lstrip, rstrip, strip}
use causal_ops.Approvals.{parse_decision, normalize_note, note_fits, check_pairing, owner_decision}
use causal_ops.Approvals.Store.{
  DecisionRow, conflicting_decision, matches, latest, read_decision_for_thread,
  record_decision_before_resume,
}
use causal_ops.Approvals.Store.Recorded.{read-record_decision}
use causal_ops.Tests.Planes.{acceptance, refusal}

read-record_decision_example :
    (row : DecisionRow) × (read_decision_for_thread "thread-1"
        (record_decision_before_resume "thread-1" "c1" refusal 500 []).1
      ≡ ok (some row))
    × (matches row refusal ≡ true)
    × (record_decision_before_resume "thread-1" "c1" acceptance 600
          (record_decision_before_resume "thread-1" "c1" refusal 500 []).1
        ≡ (
          raised conflicting_decision,
          (record_decision_before_resume "thread-1" "c1" refusal 500 []).1,
        ))
unfolding owner_decision parse_decision normalize_note note_fits check_pairing strip lstrip rstrip
    is_blank is_space latest read_decision_for_thread
read-record_decision_example =
    read-record_decision "thread-1" "c1" "reject" (some " too thin") refusal acceptance 500 600 []
      refl refl
