-- ===== src/ControlPlane/Claims.antt =====
-- How a worker gets a job: `_reclaim_expired_investigations` and `claim_next` of
-- src/causalops/firestore_control_plane.py. The claim is written before the owner's decision is read, so
-- that a decision that does not fit raises and leaves the job claimed.
use causal_ops.Prelude.{
  ℕ, ◌+◌, String, Bool, true, false, not, Option, none, some, is_none, is_some, List, [], ◌∷◌, ◌&&◌,
  ltb, leb, any, keep_if, if◌then◌else◌, ◌==◌, Result, ok, raised,
}
use causal_ops.Approvals.{OwnerDecision, owner_decision}
use causal_ops.ControlPlane.Documents.{sort_by}
use causal_ops.ControlPlane.{
  ScenarioFamily, ReplaySeed, number, Job, StoredDecision, Plane, Config, Fault, integrity,
  decision_ref, set_job, event, retry_delay, is_expired, is_running,
}
use causal_ops.ControlPlane.Owner.{is_unset, is_text}

pub record WorkerClaim : Type 0 where
  pub investigation_id : String
  pub owner_email : String
  pub scenario_family : ScenarioFamily
  pub seed : ReplaySeed
  pub checkpoint_id : Option String
  pub incident_id : Option String
  pub owner_decision : Option OwnerDecision
  pub claim_token : String

-- A job that has used up its attempts: back in the queue, with the reason for which it is not claimed
abbrev pub failed : ℕ → String → Job → Job
failed attempt reason j = record j {
  status = "QUEUED";
  claim_token = none;
  claim_expires_at = none;
  attempt_count = attempt;
  failure_reason = some reason;
}

-- A job that waits for its next attempt
abbrev pub deferred : ℕ → ℕ → Job → Job
deferred attempt retry_at j = record j {
  status = "QUEUED";
  claim_token = none;
  claim_expires_at = none;
  attempt_count = attempt;
  available_at = retry_at;
}

-- One turn of the loop of `_reclaim_expired_investigations`
unfoldable pub reclaim : Config → ℕ → Job → Plane → Plane
reclaim c now j p =
    let attempt = j.attempt_count + 1 in
    let retry_at = now + retry_delay c attempt in
    if not (is_expired j.claim_expires_at now)
    then p
    else if leb c.max_replay_attempts attempt
    then event j.id "investigation_failed" (("attempt_count", number attempt) ∷ [])
        (set_job (failed attempt "retry_limit:lease_expired" j) p)
    else event j.id "investigation_lease_expired"
        (("attempt_count", number attempt) ∷ ("retry_at", number retry_at) ∷ [])
        (set_job (deferred attempt retry_at j) p)

unfoldable pub reclaim_each : Config → ℕ → List Job → Plane → Plane
reclaim_each c now [] p = p
reclaim_each c now (j ∷ js) p = reclaim_each c now js (reclaim c now j p)

unfoldable pub reclaim_expired_investigations : Config → ℕ → Plane → Plane
reclaim_expired_investigations c now p = reclaim_each c now (keep_if is_running p.jobs) p

-- A job in the queue that has not failed
unfoldable pub is_queued : Job → Bool
is_queued j = j.status == "QUEUED" && is_none j.failure_reason

-- A queued job that keeps the lab's scenario while it waits
unfoldable pub holds_scenario : ℕ → Job → Bool
holds_scenario now j = is_some j.incident_id && ltb now j.available_at

unfoldable pub is_due : ℕ → Job → Bool
is_due now j = leb j.available_at now

-- The order of the keys (no incident, `available_at`, `sequence`)
unfoldable pub goes_before : Job → Job → Bool
goes_before a b =
    if is_some a.incident_id && is_none b.incident_id
    then true
    else if is_none a.incident_id && is_some b.incident_id
    then false
    else if ltb a.available_at b.available_at
    then true
    else leb a.available_at b.available_at && leb a.sequence b.sequence

-- `candidates`, in order
unfoldable pub candidates : ℕ → Plane → List Job
candidates now p = sort_by goes_before (keep_if (is_due now) (keep_if is_queued p.jobs))

-- The owner's decision that the claim hands over
unfoldable pub read_decision : Job → Option StoredDecision → Result Fault (Option OwnerDecision)
read_decision j none = ok none
read_decision j (some stored) = elim (owner_decision stored.decision stored.rejection_note) [
  | none ↦ raised (integrity "stored owner decision is invalid")
  | some decision ↦
      if is_unset j.checkpoint_id
      then raised (integrity "resumed investigation has no checkpoint")
      else if is_text j.checkpoint_id stored.checkpoint_id
      then ok (some decision)
      else raised (integrity "stored owner decision belongs to a different checkpoint")
]

abbrev pub claimed : Config → String → ℕ → Job → Job
claimed c token now j = record j {
  status = "RUNNING";
  claim_token = some token;
  claim_expires_at = some (now + c.claim_lease_seconds);
}

abbrev pub claim_of : Job → String → Option OwnerDecision → WorkerClaim
claim_of j token decision = record {
  investigation_id = j.id;
  owner_email = j.owner;
  scenario_family = j.scenario_family;
  seed = j.seed;
  checkpoint_id = j.checkpoint_id;
  incident_id = j.incident_id;
  owner_decision = decision;
  claim_token = token;
}

-- The plane when the chosen job has been marked
abbrev pub started : Config → String → ℕ → Job → Plane → Plane
started c token now j p = event j.id "investigation_started" [] (set_job (claimed c token now j) p)

-- `claim_next`, from the choice of the row on
unfoldable pub claim_row :
    Config → String → ℕ → Job → Plane → Result Fault (Option WorkerClaim) × Plane
claim_row c token now j p = elim (read_decision j (decision_ref j.id p)) [
  | raised e ↦ (raised e, started c token now j p)
  | ok decision ↦ (ok (some (claim_of j token decision)), started c token now j p)
]

-- `claim_next`, from the test for candidates on
unfoldable pub claim_first :
    Config → String → ℕ → List Job → Plane → Result Fault (Option WorkerClaim) × Plane
claim_first c token now [] p = (ok none, p)
claim_first c token now (j ∷ _) p = claim_row c token now j p

-- `claim_next`, behind the reclaiming of expired leases
unfoldable pub claim_queued :
    Config → String → ℕ → Plane → Result Fault (Option WorkerClaim) × Plane
claim_queued c token now p =
    if any is_running p.jobs
    then (ok none, p)
    else if any (holds_scenario now) (keep_if is_queued p.jobs)
    then (ok none, p)
    else claim_first c token now (candidates now p) p

-- `token` is the new `uuid4().hex`.
unfoldable pub claim_next : Config → String → ℕ → Plane → Result Fault (Option WorkerClaim) × Plane
claim_next c token now p = claim_queued c token now (reclaim_expired_investigations c now p)
