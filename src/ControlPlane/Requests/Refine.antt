-- ===== src/ControlPlane/Requests/Refine.antt =====
-- Every request follows the diagram, so that every plane that requests lead to is well-formed.
use causal_ops.Prelude.{◌≡◌, true, List, [], ◌∷◌, arith}
use causal_ops.ControlPlane.{Plane, Config, Platform, validate_positive}
use causal_ops.ControlPlane.Documents.{fetch}
use causal_ops.ControlPlane.Requests.{
  Request, creating, deciding, claiming, renewing, reserving, pausing, requeuing, retrying,
  finalizing, claiming_delivery, delivering, renewing_delivery, releasing_delivery,
  retrying_delivery, perform, IsFresh, perform_all, AreFresh, empty,
}
use causal_ops.ControlPlane.Diagram.{Follows, here, join}
use causal_ops.ControlPlane.Diagram.WellFormed.{IsWellFormed}
use causal_ops.ControlPlane.Diagram.Invariant.{Follows-IsWellFormed}
use causal_ops.ControlPlane.Diagram.Owner.{create-Follows, decide-Follows}
use causal_ops.ControlPlane.Diagram.Claims.{claim_next-Follows}
use causal_ops.ControlPlane.Diagram.Worker.{
  renew_running-Follows, reserve_incident-Follows, mark_paused-Follows, requeue_running-Follows,
  retry_running-Follows, finalize-Follows,
}
use causal_ops.ControlPlane.Diagram.Deliveries.{
  claim_delivery-Follows, mark_delivered-Follows, renew_delivery-Follows, release_delivery-Follows,
  retry_delivery-Follows,
}

-- Of a well-formed plane with valid settings and new ids unused, whatever an owner, a worker or a sender
-- asks, answered or refused, amounts to writes of the diagram.
pub perform-Follows :
    (c : Config) (w : Platform) (r : Request) (p : Plane)
    → validate_positive c ≡ true
    → IsWellFormed c w p
    → IsFresh r p
    → Follows c w p (perform c w r p)
unfolding perform
perform-Follows c w (creating o f k id) p good v fresh = create-Follows c w o f k id p fresh
perform-Follows c w (deciding o id d) p good v fresh = decide-Follows c w o id d p
perform-Follows c w (claiming token now) p good v fresh = claim_next-Follows c w token now p good v
perform-Follows c w (renewing id token now) p good v fresh =
    renew_running-Follows c w id token now p
perform-Follows c w (reserving id token now) p good v fresh =
    reserve_incident-Follows c w id token now p
perform-Follows c w (pausing id checkpoint_id token now) p good v fresh =
    mark_paused-Follows c w id checkpoint_id token now p
perform-Follows c w (requeuing id token) p good v fresh = requeue_running-Follows c w id token p
perform-Follows c w (retrying id token error now) p good v fresh =
    retry_running-Follows c w id token error now p
perform-Follows c w (finalizing id artifact token text now) p good v fresh =
    finalize-Follows c w id artifact token text now p v
perform-Follows c w (claiming_delivery token now) p good v fresh =
    claim_delivery-Follows c w token now p good v
perform-Follows c w (delivering id token now) p good v fresh =
    mark_delivered-Follows c w id token now p
perform-Follows c w (renewing_delivery id token now) p good v fresh =
    renew_delivery-Follows c w id token now p
perform-Follows c w (releasing_delivery id token) p good v fresh =
    release_delivery-Follows c w id token p
perform-Follows c w (retrying_delivery id token error now) p good v fresh =
    retry_delivery-Follows c w id token error now p

pub perform-IsWellFormed :
    (c : Config) (w : Platform) (r : Request) (p : Plane)
    → validate_positive c ≡ true
    → IsWellFormed c w p
    → IsFresh r p
    → IsWellFormed c w (perform c w r p)
perform-IsWellFormed c w r p good v fresh =
    Follows-IsWellFormed c w good (perform-Follows c w r p good v fresh) v

pub perform_all-Follows :
    (c : Config) (w : Platform) (rs : List Request) (p : Plane)
    → validate_positive c ≡ true
    → IsWellFormed c w p
    → AreFresh c w rs p
    → Follows c w p (perform_all c w rs p)
unfolding perform_all
perform_all-Follows c w [] p good v fresh = here
perform_all-Follows c w (r ∷ rs) p good v (now, later) =
    join c w (perform-Follows c w r p good v now) (
      perform_all-Follows c w rs (perform c w r p) good (perform-IsWellFormed c w r p good v now)
        later)

pub empty-IsWellFormed : (c : Config) (w : Platform) → IsWellFormed c w empty
unfolding fetch
empty-IsWellFormed c w = record {
  jobs_distinct = tt;
  deliveries_distinct = tt;
  one_running = omega arith;
  jobs_sound = λ id j h. absurd (ground arith);
  outbox_addressed = λ id d h. absurd (ground arith);
}

-- With valid settings and new ids unused, whatever is asked of an empty plane, and in whatever order, it
-- stays well-formed: every job's status is one of the service's five, at most one job runs, a lease is
-- held exactly while its job runs, attempts stay within their limits, every finalized job has its own
-- report with the digest of its text, and every delivery goes to the owner of a finalized job.
pub perform_all-IsWellFormed :
    (c : Config) (w : Platform) (rs : List Request)
    → validate_positive c ≡ true
    → AreFresh c w rs empty
    → IsWellFormed c w (perform_all c w rs empty)
perform_all-IsWellFormed c w rs good fresh =
    Follows-IsWellFormed c w good
      (perform_all-Follows c w rs empty good (empty-IsWellFormed c w) fresh)
      (empty-IsWellFormed c w)
