-- ===== src/ControlPlane/Diagram/Lasting.antt =====
-- What no later write takes back: a settled job, a recorded decision, a sent delivery, and the job that
-- answers to an owner's idempotency key.
use causal_ops.Prelude.{
  String, ◌≡◌, refl, sym, ap, ◌∙◌, Bool, true, false, some, is_some, arith, ◌==◌, ◌||◌,
}
use causal_ops.ControlPlane.Documents.Laws.{fetch-store_other}
use causal_ops.ControlPlane.{
  Job, Delivery, StoredDecision, Plane, Config, Platform, job_ref, delivery_ref, decision_ref,
  set_job, is_running, event,
}
use causal_ops.ControlPlane.Owner.{new_job}
use causal_ops.ControlPlane.Claims.{is_queued, claimed}
use causal_ops.ControlPlane.Deliveries.{is_sending}
use causal_ops.ControlPlane.Diagram.{
  Move, renews, reserves, pauses, requeues, defers, fails, resumes, finalizes, DeliveryMove, sends,
  extends, arrives, returns, waits, gives_up, Change, adds, starts, moves, enqueues, delivers,
  records, notes,
}
use causal_ops.ControlPlane.Diagram.WellFormed.{IsSound, IsWellFormed}
use causal_ops.ControlPlane.Diagram.Keeps.{same_text, Move-id}
use causal_ops.ControlPlane.Diagram.Outbox.{DeliveryMove-id}

-- A job that is finalized or has failed
unfoldable pub is_settled : Job → Bool
is_settled j = j.status == "COMPLETED" || is_some j.failure_reason

-- Two versions of one job
abbrev pub SameRequest : Job → Job → Type 0
SameRequest j j' = (j'.id ≡ j.id) × (j'.owner ≡ j.owner) × (j'.idempotency_key ≡ j.idempotency_key)

module _ (c : Config) (w : Platform) where
  pub Move-SameRequest : {j j' : Job} → Move c w j j' → SameRequest j j'
  Move-SameRequest (renews j now h) = (refl, refl, refl)
  Move-SameRequest (reserves j i h k) = (refl, refl, refl)
  Move-SameRequest (pauses j i h k) = (refl, refl, refl)
  Move-SameRequest (requeues j h) = (refl, refl, refl)
  Move-SameRequest (defers j t h k) = (refl, refl, refl)
  Move-SameRequest (fails j r h k) = (refl, refl, refl)
  Move-SameRequest (resumes j h) = (refl, refl, refl)
  Move-SameRequest (finalizes j a t h k l) = (refl, refl, refl)

  running_unsettled : (j : Job) → IsSound c w j → is_running j ≡ true → is_settled j ≡ false
  unfolding is_running is_settled
  running_unsettled j s h = ground (
    arith,
    s.failed_queued,
    same_text j.status "RUNNING" "QUEUED" h,
    same_text j.status "RUNNING" "COMPLETED" h,
  )

  paused_unsettled :
      (j : Job) → IsSound c w j → (j.status == "PAUSED_APPROVAL") ≡ true → is_settled j ≡ false
  unfolding is_settled
  paused_unsettled j s h = ground (
    arith,
    s.failed_queued,
    same_text j.status "PAUSED_APPROVAL" "QUEUED" h,
    same_text j.status "PAUSED_APPROVAL" "COMPLETED" h,
  )

  queued_unsettled : (j : Job) → is_queued j ≡ true → is_settled j ≡ false
  unfolding is_queued is_settled
  queued_unsettled j h = ground (arith, same_text j.status "QUEUED" "COMPLETED")

  Move-unsettled : {j j' : Job} → Move c w j j' → IsSound c w j → is_settled j ≡ false
  Move-unsettled (renews j now h) s = running_unsettled j s h
  Move-unsettled (reserves j i h k) s = running_unsettled j s h
  Move-unsettled (pauses j i h k) s = running_unsettled j s h
  Move-unsettled (requeues j h) s = running_unsettled j s h
  Move-unsettled (defers j t h k) s = running_unsettled j s h
  Move-unsettled (fails j r h k) s = running_unsettled j s h
  Move-unsettled (resumes j h) s = paused_unsettled j s h
  Move-unsettled (finalizes j a t h k l) s = running_unsettled j s h

  DeliveryMove-unsent : {d d' : Delivery} → DeliveryMove c w d d' → (d.status == "SENT") ≡ false
  unfolding is_sending
  DeliveryMove-unsent (sends d token now h k) = same_text d.status "PENDING" "SENT" h
  DeliveryMove-unsent (extends d now h) = same_text d.status "SENDING" "SENT" h
  DeliveryMove-unsent (arrives d h) = same_text d.status "SENDING" "SENT" h
  DeliveryMove-unsent (returns d h) = same_text d.status "SENDING" "SENT" h
  DeliveryMove-unsent (waits d t h k) = same_text d.status "SENDING" "SENT" h
  DeliveryMove-unsent (gives_up d r h k) = same_text d.status "SENDING" "SENT" h

  -- A write over another job leaves this one.
  job_apart :
      (id : String) (k j j' : Job) (p : Plane)
      → job_ref id p ≡ some k
      → job_ref j.id p ≡ some j
      → j'.id ≡ j.id
      → is_settled k ≡ true
      → is_settled j ≡ false
      → job_ref id (set_job j' p) ≡ some k
  job_apart id k j j' p found from same done live =
      let apart : ¬ (j'.id ≡ id) =
        λ e. ground (arith, found, from, ap (λ x. job_ref x p) (sym same ∙ e), done, live) in
      fetch-store_other (λ x. x.id) id j' p.jobs apart ∙ found

  pub Change-settled :
      {p q : Plane} (id : String) (k : Job)
      → Change c w p q
      → IsWellFormed c w p
      → job_ref id p ≡ some k
      → is_settled k ≡ true
      → job_ref id q ≡ some k
  unfolding event
  Change-settled id k (adds p i n o f y fresh) v found done =
      fetch-store_other (λ x. x.id) id (new_job i n o f y) p.jobs
        (λ e. ground (arith, found, fresh, ap (λ x. job_ref x p) e))
      ∙ found
  Change-settled id k (starts p j token now from idle waiting) v found done =
      job_apart id k j (claimed c token now j) p found from refl done (queued_unsettled j waiting)
  Change-settled id k (moves p j j' from m) v found done =
      job_apart id k j j' p found from (Move-id c w m) done
        (Move-unsettled m (v.jobs_sound j.id j from))
  Change-settled id k (enqueues p j n from done' fresh) v found done = found
  Change-settled id k (delivers p d d' from m) v found done = found
  Change-settled id k (records p d fresh) v found done = found
  Change-settled id k (notes p i name fields) v found done = found

  pub Change-decision :
      {p q : Plane} (id : String) (d : StoredDecision)
      → Change c w p q
      → decision_ref id p ≡ some d
      → decision_ref id q ≡ some d
  unfolding event
  Change-decision id d (adds p i n o f y fresh) found = found
  Change-decision id d (starts p j token now from idle waiting) found = found
  Change-decision id d (moves p j j' from m) found = found
  Change-decision id d (enqueues p j n from done' fresh) found = found
  Change-decision id d (delivers p e e' from m) found = found
  Change-decision id d (records p e fresh) found =
      fetch-store_other (λ x. x.investigation_id) id e p.decisions
        (λ same. ground (arith, found, fresh, ap (λ x. decision_ref x p) same))
      ∙ found
  Change-decision id d (notes p i name fields) found = found

  pub Change-sent :
      {p q : Plane} (id : String) (d : Delivery)
      → Change c w p q
      → delivery_ref id p ≡ some d
      → (d.status == "SENT") ≡ true
      → delivery_ref id q ≡ some d
  unfolding event
  Change-sent id d (adds p i n o f y fresh) found done = found
  Change-sent id d (starts p j token now from idle waiting) found done = found
  Change-sent id d (moves p j j' from m) found done = found
  Change-sent id d (enqueues p j n from done' fresh) found done =
      fetch-store_other (λ x. x.id) id _ p.deliveries
        (λ e. ground (arith, found, fresh, ap (λ x. delivery_ref x p) e))
      ∙ found
  Change-sent id d (delivers p e e' from m) found done =
      fetch-store_other (λ x. x.id) id e' p.deliveries
        (λ same. ground (
          arith,
          found,
          from,
          ap (λ x. delivery_ref x p) (sym (DeliveryMove-id c w m) ∙ same),
          done,
          DeliveryMove-unsent m,
        ))
      ∙ found
  Change-sent id d (records p e fresh) found done = found
  Change-sent id d (notes p i name fields) found done = found
