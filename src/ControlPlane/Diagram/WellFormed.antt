-- ===== src/ControlPlane/Diagram/WellFormed.antt =====
-- What holds of every document of the control plane.
use causal_ops.Prelude.{
  ◌≤◌, ◌<◌, String, ◌≡◌, true, false, some, is_none, is_some, count_if, ◌==◌, ok,
}
use causal_ops.ControlPlane.{
  Job, Delivery, Plane, Config, Platform, job_ref, delivery_ref, is_running, investigation_status,
}
use causal_ops.ControlPlane.Documents.Laws.{Distinct}
use causal_ops.ControlPlane.Owner.{is_unset, snapshot}

-- A job's status is one of the five, a failed job stays in the queue, below the limit no other job has used up its attempts, a lease is
-- held exactly while the job runs, and a finalized job has the report that its owner may read.
pub record IsSound (c : Config) (w : Platform) (j : Job) : Type 0 where
  pub attempts_capped : j.attempt_count ≤ c.max_replay_attempts
  pub attempts_left : is_none j.failure_reason ≡ true → j.attempt_count < c.max_replay_attempts
  pub failed_queued : is_some j.failure_reason ≡ true → (j.status == "QUEUED") ≡ true
  pub held : is_some j.claim_token ≡ is_running j
  pub leased : is_some j.claim_expires_at ≡ is_running j
  pub known : is_some (investigation_status j.status) ≡ true
  pub pausable : (j.status == "PAUSED_APPROVAL") ≡ true → is_unset j.checkpoint_id ≡ false
  pub reported :
      (j.status == "COMPLETED") ≡ true
      → (content : String) × (j.report_content ≡ some content)
        × (snapshot w j.id j.report_artifact j.report_content j.report_sha256 ≡ ok content)

-- A delivery goes to the owner of a finalized job, and its attempts are bounded.
pub record IsAddressed (c : Config) (p : Plane) (d : Delivery) : Type 0 where
  pub job : Job
  pub found : job_ref d.id p ≡ some job
  pub finished : (job.status == "COMPLETED") ≡ true
  pub owned_by : d.destination_email ≡ job.owner
  pub attempts_capped : d.attempt_count ≤ c.max_delivery_attempts
  pub attempts_left : is_none d.failure_reason ≡ true → d.attempt_count < c.max_delivery_attempts
  pub failed_pending : is_some d.failure_reason ≡ true → (d.status == "PENDING") ≡ true

pub record IsWellFormed (c : Config) (w : Platform) (p : Plane) : Type 0 where
  pub jobs_distinct : Distinct (λ j. j.id) p.jobs
  pub deliveries_distinct : Distinct (λ d. d.id) p.deliveries
  pub one_running : count_if is_running p.jobs ≤ 1
  pub jobs_sound : (id : String) (j : Job) → job_ref id p ≡ some j → IsSound c w j
  pub outbox_addressed :
      (id : String) (d : Delivery) → delivery_ref id p ≡ some d → IsAddressed c p d
