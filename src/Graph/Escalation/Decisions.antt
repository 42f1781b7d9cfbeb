-- ===== src/Graph/Escalation/Decisions.antt =====
-- The owner's decision, from the resume value to the record in the report.
use causal_ops.Prelude.{
  ◌≡◌, refl, String, true, Option, none, some, List, [], ◌∷◌, arith, Option-cases, Bool-cases, inl,
  inr, length, ◌==◌, if◌then◌else◌,
}
use causal_ops.Text.{strip, is_empty_text, is_blank-strip}
use causal_ops.Domain.Codes.{EscalationReason}
use causal_ops.Domain.Receipts.{ToolReceipt}
use causal_ops.Domain.Model.{FinalAssessment}
use causal_ops.Domain.Reports.{
  Decision, check_rejection_note_pairing, check_note_length, EscalationRecord,
}
use causal_ops.Graph.State.{Env, GraphState, rebuild_receipts}
use causal_ops.Graph.Escalation.{
  Field, absent, text, other, ResumeValue, no_mapping, mapping, accept_pair, reject_pair,
  resume_pair, parse_resume_decision, first_decision, escalation_interrupt, escalation_reason,
  resumed, decide, Pause,
}
use causal_ops.Graph.Report.{escalation_record}
use causal_ops.Graph.Inversion.{escalation_interrupt-resumed}

-- A pair that the record's validator accepts.
abbrev Paired : Option (Decision × Option String) → Type 0
Paired none = Unit
Paired (some (decision, note)) = check_rejection_note_pairing decision note ≡ true

accepts-Paired : (note : Field) → Paired (accept_pair note)
unfolding check_rejection_note_pairing
accepts-Paired absent = refl
accepts-Paired (text note) = tt
accepts-Paired other = tt

rejects-Paired : (note : Field) → Paired (reject_pair note)
unfolding check_rejection_note_pairing
rejects-Paired absent = tt
rejects-Paired other = tt
rejects-Paired (text note) = elim (Bool-cases (is_empty_text (strip note))) [
  | inl blank ↦ rw blank tt
  | inr written ↦ rw written (rw (is_blank-strip note, written) refl)
]

resume-Paired : (decision note : Field) → Paired (resume_pair decision note)
resume-Paired absent note = tt
resume-Paired other note = tt
resume-Paired (text word) note = elim (Bool-cases (word == "accept")) [
  | inl yes' ↦ rw yes' (accepts-Paired note)
  | inr no' ↦ elim (Bool-cases (word == "reject")) [
    | inl yes' ↦ rw (no', yes') (rejects-Paired note)
    | inr neither ↦ rw (no', neither) tt
  ]
]

parse-Paired : (v : ResumeValue) → Paired (parse_resume_decision v)
unfolding parse_resume_decision
parse-Paired no_mapping = tt
parse-Paired (mapping decision note) = resume-Paired decision note

first-Paired : (vs : List ResumeValue) → Paired (first_decision vs)
unfolding first_decision
first-Paired [] = tt
first-Paired (v ∷ vs) = elim (Option-cases (parse_resume_decision v)) [
  | inl bad ↦ rw (bad, first_decision) (first-Paired vs)
  | inr (d, e) ↦ rw (e, first_decision) (let p = parse-Paired v in rw e at p)
]

record_of :
    (reason : EscalationReason) (decision : Decision) (said : Option String)
    → check_rejection_note_pairing decision said ≡ true
    → escalation_record (some reason) (some decision) said ≡ (
        if check_note_length said
        then some (some (record { reason = reason; decision = decision; rejection_note = said }))
        else none)
unfolding escalation_record
record_of reason decision said h = elim (Bool-cases (check_note_length said)) [
  | inl short ↦ rw (short, h) refl
  | inr long ↦ rw long refl
]

decided_fields :
    (env : Env) (st st' : GraphState) (pause : Pause) (decision : Decision) (said : Option String)
    → decide env st pause (some (decision, said)) ≡ resumed st'
    → (st'.escalation_reason ≡ some pause.reason)
      × (st'.escalation_decision ≡ some decision)
      × (st'.rejection_note ≡ said)
decided_fields env st st' pause decision said h = (ground arith, ground arith, ground arith)

-- Where the state says who decided what, as the record in the report.
abbrev pub recorded : GraphState → Option (Option EscalationRecord)
recorded st = escalation_record st.escalation_reason st.escalation_decision st.rejection_note

-- When the escalation node resumes, its state holds the owner's decision: the reason is the trigger
-- that the receipts and the assessment give, the decision and the note are those of the first resume
-- value that parses, and a rejection has a note with more than white space, an acceptance none. With a
-- note of at most 300 characters, or none, that is a valid record for the report; with a longer one,
-- which the node takes too, the record for the report is refused.
pub resumed_is_recorded :
    (env : Env) (st st' : GraphState) (values : List ResumeValue)
    → escalation_interrupt env st values ≡ resumed st'
    → (receipts : List ToolReceipt) × (x : FinalAssessment) × (rec : EscalationRecord)
      × (rebuild_receipts st ≡ some receipts)
      × (st.assessment ≡ some x)
      × (escalation_reason receipts x env.budgets (length st.runbook_passages)
          ≡ some (some rec.reason))
      × (first_decision values ≡ some (rec.decision, rec.rejection_note))
      × (check_rejection_note_pairing rec.decision rec.rejection_note ≡ true)
      × (recorded st' ≡ (if check_note_length rec.rejection_note then some (some rec) else none))
resumed_is_recorded env st st' values h =
    let (receipts, x, pause, decision, note, e, f, trigger, left, first, same) =
      escalation_interrupt-resumed env st st' values h in
    let paired : check_rejection_note_pairing decision note ≡ true =
      let p = first-Paired values in rw first at p in
    let (a, b, c) = decided_fields env st st' pause decision note same in
    (
      receipts,
      x,
      record { reason = pause.reason; decision = decision; rejection_note = note },
      e,
      f,
      trigger,
      first,
      paired,
      rw (a, b, c) (record_of pause.reason decision note paired),
    )
