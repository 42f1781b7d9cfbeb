-- ===== src/Tests/Runs.antt =====
-- The graph of an investigation (src/causalops/graph.py).
use causal_ops.Prelude.{
  ℕ, zero, suc, String, ◌≡◌, ◌≢◌, refl, true, Option, none, some, List, [], ◌∷◌, arith, length,
  if◌then◌else◌,
}
use causal_ops.Domain.Codes.{GraphPhase, insufficient_evidence_with_check_remaining}
use causal_ops.Domain.Receipts.{ToolReceipt}
use causal_ops.Domain.Model.{Plan, FinalAssessment, check_assessment, check_disposition}
use causal_ops.Domain.Reports.{
  reject, EscalationRecord, check_rejection_note_pairing, check_note_length, check_report,
}
use causal_ops.EvidenceStore.{Store, add_all, add, put}
use causal_ops.Graph.State.{
  Env, GraphState, rebuild_receipts, rebuild_store, rebuild_sources, tools_left, event,
  escalation_decided, initial_plan,
}
use causal_ops.Graph.Asking.{Asking, Answer, ask_with_repair, start}
use causal_ops.Graph.Investigate.{ask_once}
use causal_ops.Text.{strip, lstrip, rstrip, is_blank, is_space}
use causal_ops.Ledger.{from_receipts, insert_all, slots_left, slots, spent}
use causal_ops.Graph.FinalAssessment.{final_assessment, assess_with}
use causal_ops.Graph.FinalAssessment.Citations.{Assessed, assessment_is_checked}
use causal_ops.Graph.Escalation.{
  ResumeValue, mapping, text, no_mapping, escalation_interrupt, escalation_reason, first_decision,
  check_remaining, parse_resume_decision,
}
use causal_ops.Graph.Escalation.Decisions.{resumed_is_recorded, recorded}
use causal_ops.Graph.Report.{build_report, escalation_record}
use causal_ops.Graph.Report.Verdicts.{due, build_report_succeeds}
use causal_ops.Graph.Machine.{at_investigate, run, out_of_fuel}
use causal_ops.Graph.Machine.Budgeted.{Counted}
use causal_ops.Graph.Machine.Invariant.{EndsIn}
use causal_ops.Graph.Machine.Runs.{AtAny, run_within_budgets}
use causal_ops.Graph.Machine.Reports.{Reported, run_reports}
use causal_ops.Graph.Machine.Scored.{scored_run_never_waits}
use causal_ops.Graph.Machine.{awaiting}
use causal_ops.Graph.Escalation.{Pause, pause_at}
use causal_ops.Graph.Machine.Termination.{run_terminates}
use causal_ops.Tests.Samples.{
  env_with, assessment_of, abstention, created, visiting, symptom_evidence,
}

abbrev env : Env
env = env_with (assessment_of "ev_1")

abbrev answers : List ResumeValue
answers = no_mapping ∷ mapping (text "reject") (text " too early ") ∷ []

run_terminates_example : run env answers visiting 18 at_investigate created ≢ out_of_fuel
run_terminates_example = run_terminates env answers visiting 18 at_investigate created (omega arith)

run_within_budgets_example :
    EndsIn (AtAny (Counted env)) (run env answers visiting 18 at_investigate created)
run_within_budgets_example =
    run_within_budgets env answers visiting 18 at_investigate created
      (record { repairs_fit = omega arith; calls_fit = omega arith })

run_reports_example : EndsIn Reported (run env answers visiting 18 at_investigate created)
run_reports_example = run_reports env answers visiting 18 at_investigate created (λ e. cc e)

abbrev store : Store
store = record { incident_id = "inc_1"; records = symptom_evidence ∷ [] }

-- The model abstains while a check is left.
abbrev abstained : GraphState
abstained = record created { assessment = some abstention; model_turn = 1; model_calls_used = 2 }

abbrev decided : GraphState
decided = record abstained {
  phase = GraphPhase.escalation_interrupt;
  escalation_reason = some insufficient_evidence_with_check_remaining;
  escalation_decision = some reject;
  rejection_note = some "too early";
  events =
      record {
        sequence = 1;
        at = 1;
        state = GraphPhase.escalation_interrupt;
        name = escalation_decided insufficient_evidence_with_check_remaining reject;
      }
      ∷ [];
}

resumed_is_recorded_example :
    (receipts : List ToolReceipt) × (x : FinalAssessment) × (rec : EscalationRecord)
    × (rebuild_receipts abstained ≡ some receipts)
    × (abstained.assessment ≡ some x)
    × (escalation_reason receipts x env.budgets (length abstained.runbook_passages)
        ≡ some (some rec.reason))
    × (first_decision answers ≡ some (rec.decision, rec.rejection_note))
    × (check_rejection_note_pairing rec.decision rec.rejection_note ≡ true)
    × (recorded decided ≡ (if check_note_length rec.rejection_note then some (some rec) else none))
unfolding escalation_interrupt rebuild_receipts rebuild_store add_all add put escalation_reason
    check_remaining tools_left from_receipts insert_all slots_left slots spent first_decision
    parse_resume_decision strip lstrip rstrip is_blank is_space check_assessment check_disposition
    event
resumed_is_recorded_example = resumed_is_recorded env abstained decided answers refl

abbrev assess : Option GraphState
assess = final_assessment env created 300

abbrev assessed_now : GraphState
assessed_now = assess_with env created 300 [] store

assessment_is_checked_example :
    (kept : Store) × (rebuild_store created ≡ some kept) × Assessed env created kept assessed_now
unfolding final_assessment rebuild_receipts rebuild_sources rebuild_store add_all add put
assessment_is_checked_example = assessment_is_checked env created 300 assessed_now refl

build_report_succeeds_example :
    (build_report env abstained 400 none ≡ some (due env abstained 400 none [] store none 200))
    × (check_report (due env abstained 400 none [] store none 200) ≡ true)
unfolding rebuild_receipts rebuild_sources add_all add put escalation_record check_assessment
    check_disposition
build_report_succeeds_example =
    build_report_succeeds env abstained 400 none [] store none 200 refl refl refl refl refl

abbrev planned : Answer Plan × Asking
planned =
    ask_with_repair env GraphPhase.investigate initial_plan 300 200 (ask_once env created [] store)
      (start created [])

abbrev scored_env : Env
scored_env = record (env_with abstention) { suppress_escalation = true }

abbrev some_pause : Pause
some_pause = pause_at insufficient_evidence_with_check_remaining store 1 []

scored_run_never_waits_example :
    run scored_env [] visiting 18 at_investigate created ≢ awaiting some_pause abstained
scored_run_never_waits_example =
    scored_run_never_waits scored_env [] visiting some_pause abstained 18 at_investigate created
      refl (λ e. cc)

-- A rejection note of 301 characters resumes the run, and the report's record of it is refused.
abbrev noise : ℕ → String
noise zero = ""
noise (suc n) = String.◌∷◌ "x" (noise n)

abbrev long_answer : List ResumeValue
long_answer = mapping (text "reject") (text (noise 301)) ∷ []

long_note_resumes : first_decision long_answer ≡ some (reject, some (noise 301))
unfolding first_decision parse_resume_decision strip lstrip rstrip is_space
long_note_resumes = refl

long_note_refused : recorded (record decided { rejection_note = some (noise 301) }) ≡ none
unfolding escalation_record check_note_length
long_note_refused = refl
