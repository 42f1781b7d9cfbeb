-- ===== src/ControlPlane/Requests.antt =====
-- The requests that owners, workers and senders make of the control plane, as one type, and what each
-- does to the plane.
pub mod Refine
pub mod Lasting
pub mod Repeats
pub mod Decisions
pub mod Finalized
pub mod Sending
pub mod Holders
pub mod Candidates
pub mod Liveness
pub mod Timelines
use causal_ops.Prelude.{ℕ, String, ◌≡◌, Option, none, List, [], ◌∷◌}
use causal_ops.Approvals.{OwnerDecision}
use causal_ops.ControlPlane.{ScenarioFamily, Plane, Config, Platform, job_ref}
use causal_ops.ControlPlane.Owner.{create, decide}
use causal_ops.ControlPlane.Claims.{claim_next}
use causal_ops.ControlPlane.Worker.{
  renew_running, reserve_incident, mark_paused, requeue_running, retry_running, finalize,
}
use causal_ops.ControlPlane.Deliveries.{
  claim_delivery, mark_delivered, renew_delivery, release_delivery, retry_delivery,
}

pub data Request : Type 0 where
  creating : String → ScenarioFamily → String → String → Request
  deciding : String → String → OwnerDecision → Request
  claiming : String → ℕ → Request
  renewing : String → String → ℕ → Request
  reserving : String → String → ℕ → Request
  pausing : String → String → String → ℕ → Request
  requeuing : String → String → Request
  retrying : String → String → String → ℕ → Request
  finalizing : String → String → String → Option String → ℕ → Request
  claiming_delivery : String → ℕ → Request
  delivering : String → String → ℕ → Request
  renewing_delivery : String → String → ℕ → Request
  releasing_delivery : String → String → Request
  retrying_delivery : String → String → String → ℕ → Request

-- The plane after a request, whether it is answered or refused
unfoldable pub perform : Config → Platform → Request → Plane → Plane
perform c w (creating owner_email family key id) p = (create owner_email family key id p).1
perform c w (deciding owner_email id decision) p = (decide owner_email id decision p).1
perform c w (claiming token now) p = (claim_next c token now p).1
perform c w (renewing id token now) p = (renew_running c id token now p).1
perform c w (reserving id token now) p = (reserve_incident w id token now p).1
perform c w (pausing id checkpoint_id token now) p = (mark_paused id checkpoint_id token now p).1
perform c w (requeuing id token) p = (requeue_running id token p).1
perform c w (retrying id token error now) p = (retry_running c id token error now p).1
perform c w (finalizing id artifact token text now) p = (finalize w id artifact token text now p).1
perform c w (claiming_delivery token now) p = (claim_delivery c token now p).1
perform c w (delivering id token now) p = (mark_delivered id token now p).1
perform c w (renewing_delivery id token now) p = (renew_delivery c id token now p).1
perform c w (releasing_delivery id token) p = (release_delivery id token p).1
perform c w (retrying_delivery id token error now) p = (retry_delivery c id token error now p).1

-- `uuid4` gives no id twice.
abbrev pub IsFresh : Request → Plane → Type 0
IsFresh (creating owner_email family key id) p = job_ref id p ≡ none
IsFresh _ p = Unit

unfoldable pub perform_all : Config → Platform → List Request → Plane → Plane
perform_all c w [] p = p
perform_all c w (r ∷ rs) p = perform_all c w rs (perform c w r p)

abbrev pub AreFresh : Config → Platform → List Request → Plane → Type 0
AreFresh c w [] p = Unit
AreFresh c w (r ∷ rs) p = IsFresh r p × AreFresh c w rs (perform c w r p)

abbrev pub empty : Plane
empty = record { jobs = []; deliveries = []; decisions = []; timelines = [] }
