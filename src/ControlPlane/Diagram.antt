-- ===== src/ControlPlane/Diagram.antt =====
-- The life of a job, of a delivery and of a decision in the control plane
-- (src/causalops/firestore_control_plane.py), as a diagram that says nothing of tokens, clocks or
-- requests: which writes there are, and from which documents.
pub mod WellFormed
pub mod Keeps
pub mod Outbox
pub mod Invariant
pub mod Lasting
pub mod Repeats
pub mod Timelines
pub mod Owner
pub mod Claims
pub mod Worker
pub mod Deliveries
use causal_ops.Prelude.{
  ℕ, ◌+◌, ◌≤◌, ◌<◌, String, ◌≡◌, Bool, true, false, none, some, List, any, ◌==◌,
}
use causal_ops.Text.{is_blank}
use causal_ops.ControlPlane.{
  FieldValue, Job, Delivery, StoredDecision, Plane, Config, Platform, job_ref, delivery_ref,
  decision_ref, set_job, set_delivery, set_decision, event, is_running,
}
use causal_ops.ControlPlane.Owner.{new_job, is_unset}
use causal_ops.ControlPlane.Claims.{failed, deferred, is_queued, claimed}
use causal_ops.ControlPlane.Worker.{renewed, paused, requeued, finalized, new_delivery}
use causal_ops.ControlPlane.Deliveries.{
  is_sending, failed_delivery, deferred_delivery, sending, sent, extended, released,
}
use causal_ops.ControlPlane.{ScenarioFamily}

module _ (c : Config) (w : Platform) where
  pub data Move : Job → Job → Type 0 where
    renews : (j : Job) (now : ℕ) → is_running j ≡ true → Move j (renewed c now j)
    reserves :
        (j : Job) (incident_id : String)
        → is_running j ≡ true
        → j.incident_id ≡ none
        → Move j (record j { incident_id = some incident_id })
    pauses :
        (j : Job) (checkpoint_id : String)
        → is_running j ≡ true
        → is_blank checkpoint_id ≡ false
        → Move j (paused checkpoint_id j)
    requeues : (j : Job) → is_running j ≡ true → Move j (requeued j)
    defers :
        (j : Job) (retry_at : ℕ)
        → is_running j ≡ true
        → j.attempt_count + 1 < c.max_replay_attempts
        → Move j (deferred (j.attempt_count + 1) retry_at j)
    fails :
        (j : Job) (reason : String)
        → is_running j ≡ true
        → c.max_replay_attempts ≤ j.attempt_count + 1
        → Move j (failed (j.attempt_count + 1) reason j)
    resumes :
        (j : Job) → (j.status == "PAUSED_APPROVAL") ≡ true → Move j (record j { status = "QUEUED" })
    finalizes :
        (j : Job) (artifact content : String)
        → is_running j ≡ true
        → is_blank artifact ≡ false
        → w.is_own_report j.id artifact ≡ true
        → Move j (finalized w artifact content j)

  pub data DeliveryMove : Delivery → Delivery → Type 0 where
    sends :
        (d : Delivery) (token : String) (now : ℕ)
        → (d.status == "PENDING") ≡ true
        → d.failure_reason ≡ none
        → DeliveryMove d (sending c token now d)
    extends : (d : Delivery) (now : ℕ) → is_sending d ≡ true → DeliveryMove d (extended c now d)
    arrives : (d : Delivery) → is_sending d ≡ true → DeliveryMove d (sent d)
    returns : (d : Delivery) → is_sending d ≡ true → DeliveryMove d (released d)
    waits :
        (d : Delivery) (retry_at : ℕ)
        → is_sending d ≡ true
        → d.attempt_count + 1 < c.max_delivery_attempts
        → DeliveryMove d (deferred_delivery (d.attempt_count + 1) retry_at d)
    gives_up :
        (d : Delivery) (reason : String)
        → is_sending d ≡ true
        → c.max_delivery_attempts ≤ d.attempt_count + 1
        → DeliveryMove d (failed_delivery (d.attempt_count + 1) reason d)

  pub data Change : Plane → Plane → Type 0 where
    adds :
        (p : Plane) (id : String) (sequence : ℕ) (owner_email : String) (family : ScenarioFamily)
        (key : String)
        → job_ref id p ≡ none
        → Change p (set_job (new_job id sequence owner_email family key) p)
    starts :
        (p : Plane) (j : Job) (token : String) (now : ℕ)
        → job_ref j.id p ≡ some j
        → any is_running p.jobs ≡ false
        → is_queued j ≡ true
        → Change p (set_job (claimed c token now j) p)
    moves : (p : Plane) (j j' : Job) → job_ref j.id p ≡ some j → Move j j' → Change p (set_job j' p)
    enqueues :
        (p : Plane) (j : Job) (sequence : ℕ)
        → job_ref j.id p ≡ some j
        → (j.status == "COMPLETED") ≡ true
        → delivery_ref j.id p ≡ none
        → Change p (set_delivery (new_delivery j.id sequence j.owner) p)
    delivers :
        (p : Plane) (d d' : Delivery)
        → delivery_ref d.id p ≡ some d
        → DeliveryMove d d'
        → Change p (set_delivery d' p)
    records :
        (p : Plane) (d : StoredDecision)
        → decision_ref d.investigation_id p ≡ none
        → Change p (set_decision d p)
    notes :
        (p : Plane) (id name : String) (fields : List (String × FieldValue))
        → Change p (event id name fields p)

  -- What a run of writes leads to
  pub data Follows (p : Plane) : Plane → Type 0 where
    here : Follows p p
    more : {q r : Plane} → Follows p q → Change q r → Follows p r

  pub join : {p q r : Plane} → Follows p q → Follows q r → Follows p r
  join f here = f
  join f (more g s) = more (join f g) s
