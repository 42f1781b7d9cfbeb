-- ===== src/Tests/Planes.antt =====
-- The control plane at work, as test data: two jobs of one owner, of which a worker holds the first.
use Prim.Native.String.{◌++◌}
use causal_ops.Prelude.{
  String, ◌≡◌, refl, true, none, some, List, [], ◌∷◌, ◌==◌, ok, sym, ap, ◌∙◌, Bool-cases, inl, inr,
  any, keep_if, false, arith,
}
use causal_ops.Text.{is_blank, is_space}
use causal_ops.Domain.Reports.{accept, reject}
use causal_ops.Approvals.{OwnerDecision}
use causal_ops.ControlPlane.Documents.{fetch, store, insert_by, sort_by}
use causal_ops.ControlPlane.{
  configuration_change, Job, Plane, Config, Platform, event, set_event, next_event_ordinal,
  is_running, TimelineEvent, flag, queued, validate_positive, is_held, is_current, token_is,
  is_unexpired, is_expired, retry_delay, owned,
}
use causal_ops.ControlPlane.Owner.{find_request, create, new_job, decide, decide_first, events}
use causal_ops.ControlPlane.Claims.{
  reclaim_each, reclaim, reclaim_expired_investigations, is_queued, holds_scenario, is_due,
  goes_before, candidates, read_decision, claimed, claim_row, claim_first, claim_queued, claim_next,
}
use causal_ops.ControlPlane.Worker.{mark_paused, finalized, finalize, read_report_snapshot}
use causal_ops.ControlPlane.Requests.{
  Request, creating, claiming, pausing, finalizing, perform, perform_all, empty, AreFresh,
}
use causal_ops.ControlPlane.Requests.Refine.{perform_all-IsWellFormed, perform-IsWellFormed}
use causal_ops.ControlPlane.Requests.Liveness.{DecisionsFit, AllExpired}
use causal_ops.ControlPlane.Diagram.Timelines.{AllNumbered}
use causal_ops.ControlPlane.Diagram.WellFormed.{IsWellFormed}

abbrev pub config : Config
config = record {
  claim_lease_seconds = 60;
  retry_base_seconds = 30;
  max_replay_attempts = 3;
  max_delivery_attempts = 3;
}

abbrev pub platform : Platform
platform = record {
  sha256 = λ text. "digest of " ++ text;
  is_alnum = λ _. true;
  is_own_report = λ id artifact. artifact == id ++ "/report.md";
}

pub valid_config : validate_positive config ≡ true
unfolding validate_positive
valid_config = refl

abbrev pub waiting_job : Job
waiting_job = new_job "j2" 1 "ada" configuration_change "k2"

abbrev pub held_job : Job
held_job = claimed config "t1" 100 (new_job "j1" 0 "ada" configuration_change "k1")

abbrev pub busy_requests : List Request
busy_requests =
    creating "ada" configuration_change "k1" "j1"
    ∷ creating "ada" configuration_change "k2" "j2"
    ∷ claiming "t1" 100
    ∷ []

abbrev pub busy : Plane
busy = perform_all config platform busy_requests empty

pub busy_held : (fetch (λ j. j.id) "j1" busy.jobs ≡ some held_job)
unfolding fetch store insert_by sort_by event find_request create is_running reclaim_each
    reclaim_expired_investigations is_queued holds_scenario is_due goes_before candidates
    read_decision claim_row claim_first claim_queued claim_next perform perform_all
busy_held = refl

pub busy-fresh : AreFresh config platform busy_requests empty
unfolding fetch store event find_request create perform
busy-fresh = (refl, (refl, (tt, tt)))

pub busy-IsWellFormed : IsWellFormed config platform busy
busy-IsWellFormed = perform_all-IsWellFormed config platform busy_requests valid_config busy-fresh

-- The worker finalizes its report.
abbrev pub finalizing_report : Request
finalizing_report = finalizing "j1" "j1/report.md" "t1" (some "the report") 120

abbrev pub finished_job : Job
finished_job = finalized platform "j1/report.md" "the report" held_job

abbrev pub finished : Plane
finished = perform config platform finalizing_report busy

pub finished-IsWellFormed : IsWellFormed config platform finished
finished-IsWellFormed =
    perform-IsWellFormed config platform finalizing_report busy valid_config busy-IsWellFormed tt

pub finalize_accepted :
    (finalize platform "j1" "j1/report.md" "t1" (some "the report") 120 busy).0 ≡ ok tt
unfolding fetch store insert_by sort_by event find_request create is_running reclaim_each
    reclaim_expired_investigations is_queued holds_scenario is_due goes_before candidates
    read_decision claim_row claim_first claim_queued claim_next perform perform_all finalize
    read_report_snapshot is_held is_current token_is is_unexpired is_blank is_space
finalize_accepted = refl

pub finished_found : (fetch (λ j. j.id) "j1" finished.jobs ≡ some finished_job)
unfolding fetch store insert_by sort_by event find_request create is_running reclaim_each
    reclaim_expired_investigations is_queued holds_scenario is_due goes_before candidates
    read_decision claim_row claim_first claim_queued claim_next perform perform_all finalize
    read_report_snapshot is_held is_current token_is is_unexpired is_blank is_space
finished_found = refl

-- The worker pauses for the owner instead.
abbrev pub pausing_job : Request
pausing_job = pausing "j1" "thread-1" "t1" 120

abbrev pub waiting : Plane
waiting = perform config platform pausing_job busy

pub waiting-IsWellFormed : IsWellFormed config platform waiting
waiting-IsWellFormed =
    perform-IsWellFormed config platform pausing_job busy valid_config busy-IsWellFormed tt

abbrev pub acceptance : OwnerDecision
acceptance = record { decision = accept; rejection_note = none }

abbrev pub refusal : OwnerDecision
refusal = record { decision = reject; rejection_note = some "too thin" }

pub decide_answered :
    (decide "ada" "j1" acceptance waiting).0
    ≡ ok (record { investigation_id = "j1"; status = queued })
unfolding fetch store insert_by sort_by event find_request create is_running reclaim_each
    reclaim_expired_investigations is_queued holds_scenario is_due goes_before candidates
    read_decision claim_row claim_first claim_queued claim_next perform perform_all mark_paused
    is_held is_current token_is is_unexpired is_blank is_space decide decide_first owned
decide_answered = refl

-- The leases have run out at 1000.
abbrev pub crashed : Plane
crashed = reclaim_expired_investigations config 1000 busy

pub crashed_found : fetch (λ j. j.id) "j2" crashed.jobs ≡ some waiting_job
unfolding fetch store insert_by sort_by event find_request create is_running reclaim_each
    reclaim_expired_investigations is_queued holds_scenario is_due goes_before candidates
    read_decision claim_row claim_first claim_queued claim_next perform perform_all reclaim
    is_expired retry_delay
crashed_found = refl

pub crashed_clear : any (holds_scenario 1000) (keep_if is_queued crashed.jobs) ≡ false
unfolding fetch store insert_by sort_by event find_request create is_running reclaim_each
    reclaim_expired_investigations is_queued holds_scenario is_due goes_before candidates
    read_decision claim_row claim_first claim_queued claim_next perform perform_all reclaim
    is_expired retry_delay
crashed_clear = refl

pub crashed_waiting : is_queued waiting_job ≡ true
unfolding is_queued
crashed_waiting = refl

pub crashed_due : is_due 1000 waiting_job ≡ true
unfolding is_due
crashed_due = refl

crashed_undecided : crashed.decisions ≡ []
unfolding fetch store insert_by sort_by event find_request create is_running reclaim_each
    reclaim_expired_investigations is_queued holds_scenario is_due goes_before candidates
    read_decision claim_row claim_first claim_queued claim_next perform perform_all reclaim
    is_expired retry_delay
crashed_undecided = refl

pub crashed_fit : DecisionsFit crashed
unfolding fetch read_decision
crashed_fit k found waits = (none, rw (crashed_undecided, fetch) refl)

busy_expired_each :
    (id : String) (j : Job)
    → fetch (λ k. k.id) id (held_job ∷ waiting_job ∷ []) ≡ some j
    → is_unexpired j.claim_expires_at 1000 ≡ false
unfolding fetch is_unexpired
busy_expired_each id j found = ground arith

busy_jobs : busy.jobs ≡ held_job ∷ waiting_job ∷ []
unfolding fetch store insert_by sort_by event find_request create is_running reclaim_each
    reclaim_expired_investigations is_queued holds_scenario is_due goes_before candidates
    read_decision claim_row claim_first claim_queued claim_next perform perform_all
busy_jobs = refl

pub busy_expired : AllExpired 1000 busy
busy_expired id j found on =
    busy_expired_each id j (ap (λ js. fetch (λ k. k.id) id js) (sym busy_jobs) ∙ found)

-- One job, before and after it is claimed
abbrev pub created : Plane
created = perform_all config platform (creating "ada" configuration_change "k1" "j1" ∷ []) empty

pub created-IsWellFormed : IsWellFormed config platform created
unfolding fetch
created-IsWellFormed =
    perform_all-IsWellFormed config platform (creating "ada" configuration_change "k1" "j1" ∷ [])
      valid_config (refl, tt)

pub created-AllNumbered : AllNumbered created
unfolding fetch store insert_by sort_by event find_request create is_running reclaim_each
    reclaim_expired_investigations is_queued holds_scenario is_due goes_before candidates
    read_decision claim_row claim_first claim_queued claim_next perform perform_all
    next_event_ordinal set_event
created-AllNumbered id = elim (Bool-cases ("j1" == id)) [
  | inl here ↦ rw here (refl, tt)
  | inr apart ↦ rw apart tt
]

abbrev pub shown_first : List TimelineEvent
shown_first =
    record { ordinal = 0; name = "investigation_queued"; fields = ("replay_only", flag true) ∷ [] }
    ∷ []

abbrev pub shown_later : List TimelineEvent
shown_later =
    record { ordinal = 0; name = "investigation_queued"; fields = ("replay_only", flag true) ∷ [] }
    ∷ record { ordinal = 1; name = "investigation_started"; fields = [] }
    ∷ []

pub shown_first_is : events "ada" "j1" created ≡ ok shown_first
unfolding fetch store insert_by sort_by event find_request create is_running reclaim_each
    reclaim_expired_investigations is_queued holds_scenario is_due goes_before candidates
    read_decision claim_row claim_first claim_queued claim_next perform perform_all
    next_event_ordinal set_event events owned
shown_first_is = refl

pub shown_later_is :
    events "ada" "j1" (perform_all config platform (claiming "t1" 100 ∷ []) created)
    ≡ ok shown_later
unfolding fetch store insert_by sort_by event find_request create is_running reclaim_each
    reclaim_expired_investigations is_queued holds_scenario is_due goes_before candidates
    read_decision claim_row claim_first claim_queued claim_next perform perform_all
    next_event_ordinal set_event events owned
shown_later_is = refl
