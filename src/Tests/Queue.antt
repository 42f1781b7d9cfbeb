-- ===== src/Tests/Queue.antt =====
-- The control plane's jobs (class FirestoreReplayControlPlane of
-- src/causalops/firestore_control_plane.py).
use causal_ops.Prelude.{
  arith, sym, ◌∙◌, ap, ◌++◌, ◌==◌, Option, Bool, ◌≡◌, refl, true, false, none, some, List, [], ◌∷◌,
  ok, raised,
}
use causal_ops.Text.{is_blank, is_space, strip, lstrip, rstrip}
use causal_ops.Domain.Reports.{reject}
use causal_ops.Approvals.{
  OwnerDecision, owner_decision, parse_decision, decision_text, normalize_note, note_fits,
  check_pairing,
}
use causal_ops.Approvals.Notes.{owner_decision-decision_text}
use causal_ops.ControlPlane.Documents.{fetch, store, insert_by, sort_by}
use causal_ops.ControlPlane.{
  configuration_change, queued, is_running, is_held, token_is, not_found, InvestigationView,
  StoredDecision, job_ref, decision_ref, Job, TimelineEvent, Plane, integrity, event,
}
use causal_ops.ControlPlane.Owner.{find_request, create, decide, report, status, events, is_unset}
use causal_ops.ControlPlane.Claims.{
  goes_before, claim_next, claimed, claim_of, reclaim_each, reclaim_expired_investigations,
  is_queued, holds_scenario, is_due, candidates, read_decision, claim_row, claim_first,
  claim_queued,
}
use causal_ops.ControlPlane.Worker.{
  mark_paused, finalize, renew_running, reserve_incident, requeue_running, retry_running,
}
use causal_ops.ControlPlane.Requests.{creating, claiming, deciding, perform, perform_all, empty}
use causal_ops.ControlPlane.Requests.Refine.{
  perform-Follows, perform_all-IsWellFormed, empty-IsWellFormed,
}
use causal_ops.ControlPlane.Requests.Lasting.{perform_all-settled}
use causal_ops.ControlPlane.Requests.Repeats.{create-create}
use causal_ops.ControlPlane.Requests.Decisions.{decide-decide, Holds}
use causal_ops.ControlPlane.Requests.Finalized.{report-finalize}
use causal_ops.ControlPlane.Requests.Holders.{foreign_requests, fenced_requests, Refused}
use causal_ops.ControlPlane.Requests.Liveness.{claim_next_claims}
use causal_ops.ControlPlane.Requests.Timelines.{events-perform_all}
use causal_ops.ControlPlane.Diagram.{Follows}
use causal_ops.ControlPlane.Diagram.Lasting.{is_settled}
use causal_ops.ControlPlane.Diagram.Timelines.{Numbered}
use causal_ops.ControlPlane.Diagram.WellFormed.{IsWellFormed}
use causal_ops.Tests.Planes.{
  config, platform, valid_config, busy_requests, busy, busy_held, busy-fresh, busy-IsWellFormed,
  held_job, waiting_job, finalizing_report, finished_job, finished, finished-IsWellFormed,
  finished_found, finalize_accepted, waiting, waiting-IsWellFormed, acceptance, refusal,
  decide_answered, busy_expired, crashed_clear, crashed_found, crashed_waiting, crashed_due,
  crashed_fit, shown_first, shown_later, created, created-IsWellFormed, created-AllNumbered,
  shown_first_is, shown_later_is,
}

perform-Follows_example :
    Follows config platform busy (perform config platform finalizing_report busy)
perform-Follows_example =
    perform-Follows config platform finalizing_report busy valid_config busy-IsWellFormed tt

perform_all-IsWellFormed_example :
    IsWellFormed config platform (perform_all config platform busy_requests empty)
perform_all-IsWellFormed_example =
    perform_all-IsWellFormed config platform busy_requests valid_config busy-fresh

perform_all-settled_example :
    job_ref "j1" (perform_all config platform (claiming "t2" 200 ∷ []) finished) ≡ some finished_job
unfolding is_settled
perform_all-settled_example =
    perform_all-settled config platform (claiming "t2" 200 ∷ []) finished valid_config
      finished-IsWellFormed (tt, tt) "j1" finished_job finished_found refl

report-finalize_example :
    report platform "ada" "j1"
      (perform_all config platform (finalizing_report ∷ claiming "t2" 200 ∷ []) busy)
    ≡ ok "the report"
report-finalize_example =
    report-finalize config platform (claiming "t2" 200 ∷ []) busy "j1" "j1/report.md" "t1"
      "the report" 120 held_job valid_config busy-IsWellFormed (tt, (tt, tt)) busy_held
      finalize_accepted

fenced_requests_example :
    Refused (renew_running config "j1" "t2" 120 busy) busy
    × Refused (reserve_incident platform "j1" "t2" 120 busy) busy
    × Refused (mark_paused "j1" "thread-1" "t2" 120 busy) busy
    × Refused (requeue_running "j1" "t2" busy) busy
    × Refused (retry_running config "j1" "t2" "LabError" 120 busy) busy
    × Refused (finalize platform "j1" "thread-1" "t2" none 120 busy) busy
unfolding is_held token_is is_running
fenced_requests_example =
    fenced_requests config platform busy "j1" "t1" held_job "j1" "t2" "thread-1" "LabError" none 120
      busy-IsWellFormed busy_held refl (λ e. ground (arith, ap (λ x. x == "t1") e))

abbrev eves : Option Job → Bool
eves none = false
eves (some j) = j.owner == "eve"

not_eve : (j : Job) → some held_job ≡ some j → (j.owner == "eve") ≡ false
not_eve j e = sym (ap eves e)

foreign_requests_example :
    (status "eve" "j1" busy ≡ raised (not_found "investigation not found"))
    × (events "eve" "j1" busy ≡ raised (not_found "investigation not found"))
    × (report platform "eve" "j1" busy ≡ raised (not_found "investigation not found"))
    × (decide "eve" "j1" acceptance busy ≡ (raised (not_found "investigation not found"), busy))
foreign_requests_example =
    foreign_requests platform "eve" "j1" acceptance busy
      (λ j found. not_eve j (sym busy_held ∙ found))

-- The same key of the same owner, asked again when a worker has the job
create-create_example :
    (again : InvestigationView) × (again.investigation_id ≡ "j1")
    × (status "ada" "j1" (
          perform_all config platform
            (creating "ada" configuration_change "k1" "j1" ∷ claiming "t1" 100 ∷ [])
            empty)
        ≡ ok again)
    × (create "ada" configuration_change "k1" "j9" (
          perform_all config platform
            (creating "ada" configuration_change "k1" "j1" ∷ claiming "t1" 100 ∷ [])
            empty)
        ≡ (
          ok again,
          perform_all config platform
              (creating "ada" configuration_change "k1" "j1" ∷ claiming "t1" 100 ∷ [])
              empty,
        ))
unfolding fetch create find_request
create-create_example =
    create-create config platform (claiming "t1" 100 ∷ []) empty "ada" "k1" "j1" "j9"
      configuration_change configuration_change
      (record { investigation_id = "j1"; status = queued }) valid_config
      (empty-IsWellFormed config platform) (refl, (tt, tt)) refl

decide-decide_example :
    (s : StoredDecision) × (decision_ref "j1" (
        perform_all config platform
          (deciding "ada" "j1" acceptance ∷ claiming "t2" 200 ∷ [])
          waiting)
      ≡ some s)
    × Holds acceptance s
    × ((decide "eve" "j1" refusal (
          perform_all config platform
            (deciding "ada" "j1" acceptance ∷ claiming "t2" 200 ∷ [])
            waiting)).1
        ≡ perform_all config platform
            (deciding "ada" "j1" acceptance ∷ claiming "t2" 200 ∷ [])
            waiting)
unfolding owner_decision parse_decision decision_text normalize_note note_fits check_pairing
decide-decide_example =
    decide-decide config platform (claiming "t2" 200 ∷ []) waiting "ada" "j1" acceptance
      (record { investigation_id = "j1"; status = queued }) "eve" refusal valid_config
      waiting-IsWellFormed (tt, (tt, tt)) refl decide_answered

owner_decision-decision_text_example :
    owner_decision (decision_text reject) (some "too thin") ≡ some refusal
unfolding owner_decision parse_decision decision_text normalize_note note_fits check_pairing strip
    lstrip rstrip is_blank is_space
owner_decision-decision_text_example =
    owner_decision-decision_text "reject" (some "  too thin ") refusal refl

-- The first worker has crashed: behind its lease, the next gets the second job.
claim_next_claims_example :
    (k : Job) × (o : Option OwnerDecision) × ((claim_next config "t2" 1000 busy).0
      ≡ ok (some (claim_of k "t2" o)))
    × (job_ref k.id (claim_next config "t2" 1000 busy).1 ≡ some (claimed config "t2" 1000 k))
    × (goes_before k waiting_job ≡ true)
claim_next_claims_example =
    claim_next_claims config platform "t2" 1000 busy "j2" waiting_job valid_config busy-IsWellFormed
      busy_expired crashed_clear crashed_found crashed_waiting crashed_due crashed_fit

events-perform_all_example :
    (extra : List TimelineEvent) × (shown_later ≡ shown_first ++ extra) × Numbered 0 shown_later
events-perform_all_example =
    events-perform_all config platform (claiming "t1" 100 ∷ []) created "ada" "j1" shown_first
      shown_later valid_config created-IsWellFormed (tt, tt) created-AllNumbered shown_first_is
      shown_later_is

-- A stored decision that fits no checkpoint: the claim raises, and leaves the job to the token that
-- nobody was told.
abbrev misplaced : Plane
misplaced = record {
  jobs = waiting_job ∷ [];
  deliveries = [];
  decisions =
      record {
        investigation_id = "j2";
        checkpoint_id = "thread-2";
        decision = "accept";
        rejection_note = none;
      }
      ∷ [];
  timelines = [];
}

misplaced_raises :
    ((claim_next config "t2" 100 misplaced).0
      ≡ raised (integrity "resumed investigation has no checkpoint"))
    × (job_ref "j2" (claim_next config "t2" 100 misplaced).1
        ≡ some (claimed config "t2" 100 waiting_job))
unfolding fetch store insert_by sort_by event is_running reclaim_each reclaim_expired_investigations
    is_queued holds_scenario is_due goes_before candidates read_decision claim_row claim_first
    claim_queued claim_next owner_decision parse_decision normalize_note note_fits check_pairing
    is_unset
misplaced_raises = (refl, refl)
