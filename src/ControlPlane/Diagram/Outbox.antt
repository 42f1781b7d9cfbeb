-- ===== src/ControlPlane/Diagram/Outbox.antt =====
-- Every write of the diagram to the outbox keeps what holds of a delivery.
use causal_ops.Prelude.{◌≡◌, refl, true, false, is_none, is_some, arith, Bool-cases, inl, inr}
use causal_ops.ControlPlane.{Delivery, Plane, Config, Platform, set_delivery}
use causal_ops.ControlPlane.Documents.Laws.{store-Distinct, fetch-store_cases}
use causal_ops.ControlPlane.Deliveries.{is_sending}
use causal_ops.ControlPlane.Diagram.{
  DeliveryMove, sends, extends, arrives, returns, waits, gives_up,
}
use causal_ops.ControlPlane.Diagram.WellFormed.{IsAddressed, IsWellFormed}
use causal_ops.ControlPlane.Diagram.Keeps.{same_text}

module _ (c : Config) (w : Platform) where
  -- An address is in the jobs alone.
  pub readdressed :
      (p q : Plane) (d : Delivery) → q.jobs ≡ p.jobs → IsAddressed c p d → IsAddressed c q d
  readdressed p q d same a = record {
    job = a.job;
    found = rw same a.found;
    finished = a.finished;
    owned_by = a.owned_by;
    attempts_capped = a.attempts_capped;
    attempts_left = a.attempts_left;
    failed_pending = a.failed_pending;
  }

  pub outbox-IsWellFormed :
      (p : Plane) (d : Delivery)
      → IsWellFormed c w p
      → IsAddressed c p d
      → IsWellFormed c w (set_delivery d p)
  outbox-IsWellFormed p d v a = record {
    jobs_distinct = v.jobs_distinct;
    deliveries_distinct = store-Distinct (λ k. k.id) d p.deliveries v.deliveries_distinct;
    one_running = v.one_running;
    jobs_sound = v.jobs_sound;
    outbox_addressed = λ id e h. elim (fetch-store_cases (λ k. k.id) id d e p.deliveries h) [
      | inl same ↦ rw same (readdressed p (set_delivery d p) d refl a)
      | inr (_, old) ↦ readdressed p (set_delivery d p) e refl (v.outbox_addressed id e old)
    ];
  }

  pub DeliveryMove-id : {d d' : Delivery} → DeliveryMove c w d d' → d'.id ≡ d.id
  DeliveryMove-id (sends d token now h k) = refl
  DeliveryMove-id (extends d now h) = refl
  DeliveryMove-id (arrives d h) = refl
  DeliveryMove-id (returns d h) = refl
  DeliveryMove-id (waits d t h k) = refl
  DeliveryMove-id (gives_up d r h k) = refl

  sending_unfailed :
      (p : Plane) (d : Delivery)
      → IsAddressed c p d
      → is_sending d ≡ true
      → is_some d.failure_reason ≡ false
  unfolding is_sending
  sending_unfailed p d a h = elim (Bool-cases (is_some d.failure_reason)) [
    | inl failed' ↦
        absurd (ground (arith, a.failed_pending failed', same_text d.status "SENDING" "PENDING" h))
    | inr unset ↦ unset
  ]

  unfailed :
      (p : Plane) (d : Delivery)
      → is_some d.failure_reason ≡ false
      → is_none d.failure_reason ≡ true
  unfailed p d h = ground arith

  pub DeliveryMove-IsAddressed :
      (p : Plane) {d d' : Delivery} → DeliveryMove c w d d' → IsAddressed c p d → IsAddressed c p d'
  DeliveryMove-IsAddressed p (sends d token now h k) a = record {
    job = a.job;
    found = a.found;
    finished = a.finished;
    owned_by = a.owned_by;
    attempts_capped = a.attempts_capped;
    attempts_left = a.attempts_left;
    failed_pending = λ f. absurd (ground arith);
  }
  DeliveryMove-IsAddressed p (extends d now h) a = record {
    job = a.job;
    found = a.found;
    finished = a.finished;
    owned_by = a.owned_by;
    attempts_capped = a.attempts_capped;
    attempts_left = a.attempts_left;
    failed_pending = a.failed_pending;
  }
  DeliveryMove-IsAddressed p (arrives d h) a = record {
    job = a.job;
    found = a.found;
    finished = a.finished;
    owned_by = a.owned_by;
    attempts_capped = a.attempts_capped;
    attempts_left = a.attempts_left;
    failed_pending = λ f. absurd (ground (arith, sending_unfailed p d a h));
  }
  DeliveryMove-IsAddressed p (returns d h) a = record {
    job = a.job;
    found = a.found;
    finished = a.finished;
    owned_by = a.owned_by;
    attempts_capped = a.attempts_capped;
    attempts_left = a.attempts_left;
    failed_pending = λ f. refl;
  }
  DeliveryMove-IsAddressed p (waits d t h k) a = record {
    job = a.job;
    found = a.found;
    finished = a.finished;
    owned_by = a.owned_by;
    attempts_capped = omega arith;
    attempts_left = λ _. k;
    failed_pending = λ f. refl;
  }
  DeliveryMove-IsAddressed p (gives_up d r h k) a = record {
    job = a.job;
    found = a.found;
    finished = a.finished;
    owned_by = a.owned_by;
    attempts_capped = omega (arith, a.attempts_left (unfailed p d (sending_unfailed p d a h)));
    attempts_left = λ f. absurd (ground arith);
    failed_pending = λ f. refl;
  }
