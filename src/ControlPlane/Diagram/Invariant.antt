-- ===== src/ControlPlane/Diagram/Invariant.antt =====
-- Every write of the diagram keeps what holds of the plane's documents, and so does a run of writes.
use causal_ops.Prelude.{
  ℕ, ◌+◌, ◌≤◌, ◌<◌, String, ◌≡◌, refl, ap, ◌∙◌, Bool, true, false, none, some, count_if, any, List,
  [], ◌∷◌, ◌==◌, arith, Bool-cases, inl, inr, if◌then◌else◌,
}
use causal_ops.ControlPlane.{
  Job, Plane, Config, Platform, job_ref, set_job, is_running, event, validate_positive,
  ScenarioFamily,
}
use causal_ops.ControlPlane.Documents.Laws.{
  store-Distinct, fetch-store_cases, fetch-store_other, count_if-store_old, count_if-store_new,
}
use causal_ops.ControlPlane.Owner.{new_job}
use causal_ops.ControlPlane.Claims.{is_queued, claimed}
use causal_ops.ControlPlane.Worker.{new_delivery}
use causal_ops.ControlPlane.Diagram.{
  Change, adds, starts, moves, enqueues, delivers, records, notes,
}
use causal_ops.ControlPlane.Diagram.WellFormed.{IsSound, IsWellFormed}
use causal_ops.ControlPlane.Diagram.{Follows, here, more}
use causal_ops.ControlPlane.Diagram.Keeps.{
  same_text, Move-id, Move-IsSound, claimed-IsSound, Move-unfinished, Move-running, queued-IsSound,
}
use causal_ops.ControlPlane.Diagram.Outbox.{
  readdressed, outbox-IsWellFormed, DeliveryMove-IsAddressed,
}

abbrev one : Job → ℕ
one j = if is_running j then 1 else 0

module _ (c : Config) (w : Platform) where
  -- Writing over a job that is not finalized.
  set_job-IsWellFormed :
      (p : Plane) (j j' : Job)
      → IsWellFormed c w p
      → job_ref j.id p ≡ some j
      → j'.id ≡ j.id
      → (j.status == "COMPLETED") ≡ false
      → IsSound c w j'
      → count_if is_running p.jobs + one j' ≤ 1 + one j
      → IsWellFormed c w (set_job j' p)
  set_job-IsWellFormed p j j' v found same live sound fits =
      let found' : job_ref j'.id p ≡ some j = ap (λ k. job_ref k p) same ∙ found in
      record {
        jobs_distinct = store-Distinct (λ k. k.id) j' p.jobs v.jobs_distinct;
        deliveries_distinct = v.deliveries_distinct;
        one_running =
            omega (arith, count_if-store_old (λ k. k.id) is_running j' j p.jobs found', fits);
        jobs_sound = λ id k h. elim (fetch-store_cases (λ k. k.id) id j' k p.jobs h) [
          | inl e ↦ rw e sound
          | inr (_, old) ↦ v.jobs_sound id k old
        ];
        outbox_addressed = λ id d h.
            let a = v.outbox_addressed id d h in
            let apart : ¬ (j'.id ≡ d.id) =
              λ e. ground (arith, a.found, a.finished, found', ap (λ k. job_ref k p) e, live) in
            record {
              job = a.job;
              found = fetch-store_other (λ k. k.id) d.id j' p.jobs apart ∙ a.found;
              finished = a.finished;
              owned_by = a.owned_by;
              attempts_capped = a.attempts_capped;
              attempts_left = a.attempts_left;
              failed_pending = a.failed_pending;
            };
      }

  fits_or_stops :
      (a b : Bool) (n : ℕ)
      → n ≤ 1
      → (b ≡ false → a ≡ false)
      → n + (if a then 1 else 0) ≤ 1 + (if b then 1 else 0)
  fits_or_stops a b n h k = elim (Bool-cases b) [
    | inl on ↦ ground (arith, on)
    | inr off ↦ ground (arith, off, k off)
  ]

  count_none : (js : List Job) → any is_running js ≡ false → count_if is_running js ≡ 0
  count_none [] h = refl
  count_none (j ∷ js) h = ground (arith, count_none js)

  queued_open : (j : Job) → is_queued j ≡ true → (j.status == "COMPLETED") ≡ false
  unfolding is_queued
  queued_open j h = same_text j.status "QUEUED" "COMPLETED" (ground arith)

  added-IsWellFormed :
      (p : Plane) (j : Job)
      → IsWellFormed c w p
      → job_ref j.id p ≡ none
      → IsSound c w j
      → is_running j ≡ false
      → IsWellFormed c w (set_job j p)
  added-IsWellFormed p j v fresh sound off = record {
    jobs_distinct = store-Distinct (λ k. k.id) j p.jobs v.jobs_distinct;
    deliveries_distinct = v.deliveries_distinct;
    one_running =
        ground
          (arith, count_if-store_new (λ k. k.id) is_running j p.jobs fresh, off, v.one_running);
    jobs_sound = λ id k h. elim (fetch-store_cases (λ k. k.id) id j k p.jobs h) [
      | inl e ↦ rw e sound
      | inr (_, old) ↦ v.jobs_sound id k old
    ];
    outbox_addressed = λ id d h.
        let a = v.outbox_addressed id d h in
        let apart : ¬ (j.id ≡ d.id) =
          λ e. ground (arith, a.found, fresh, ap (λ k. job_ref k p) e) in
        record {
          job = a.job;
          found = fetch-store_other (λ k. k.id) d.id j p.jobs apart ∙ a.found;
          finished = a.finished;
          owned_by = a.owned_by;
          attempts_capped = a.attempts_capped;
          attempts_left = a.attempts_left;
          failed_pending = a.failed_pending;
        };
  }

  new_job-IsSound :
      (id : String) (n : ℕ) (owner_email : String) (family : ScenarioFamily) (key : String)
      → 0 < c.max_replay_attempts
      → IsSound c w (new_job id n owner_email family key)
  new_job-IsSound id n owner_email family key h =
      queued-IsSound c w (new_job id n owner_email family key) refl refl refl (omega arith) (λ _. h)

  -- One write keeps the plane well-formed.
  pub Change-IsWellFormed :
      {p q : Plane}
      → validate_positive c ≡ true
      → Change c w p q
      → IsWellFormed c w p
      → IsWellFormed c w q
  unfolding validate_positive is_running event
  Change-IsWellFormed good (adds p id n o f k fresh) v =
      added-IsWellFormed p (new_job id n o f k) v fresh (new_job-IsSound id n o f k (ground arith))
        refl
  Change-IsWellFormed good (starts p j token now found idle waiting) v =
      set_job-IsWellFormed p j (claimed c token now j) v found refl (queued_open j waiting)
        (claimed-IsSound c w j token now waiting (v.jobs_sound j.id j found))
        (omega (arith, count_none p.jobs idle))
  Change-IsWellFormed good (moves p j j' found m) v =
      set_job-IsWellFormed p j j' v found (Move-id c w m) (Move-unfinished c w m)
        (Move-IsSound c w m (v.jobs_sound j.id j found))
        (fits_or_stops (is_running j') (is_running j) (count_if is_running p.jobs) v.one_running
          (Move-running c w m))
  Change-IsWellFormed good (enqueues p j n found done fresh) v =
      outbox-IsWellFormed c w p (new_delivery j.id n j.owner) v (record {
        job = j;
        found = found;
        finished = done;
        owned_by = refl;
        attempts_capped = omega arith;
        attempts_left = λ _. ground arith;
        failed_pending = λ _. refl;
      })
  Change-IsWellFormed good (delivers p d d' found m) v =
      outbox-IsWellFormed c w p d' v
        (DeliveryMove-IsAddressed c w p m (v.outbox_addressed d.id d found))
  Change-IsWellFormed good (records p d fresh) v = record {
    jobs_distinct = v.jobs_distinct;
    deliveries_distinct = v.deliveries_distinct;
    one_running = v.one_running;
    jobs_sound = v.jobs_sound;
    outbox_addressed = λ id d h. readdressed c w p _ d refl (v.outbox_addressed id d h);
  }
  Change-IsWellFormed good (notes p id name fields) v = record {
    jobs_distinct = v.jobs_distinct;
    deliveries_distinct = v.deliveries_distinct;
    one_running = v.one_running;
    jobs_sound = v.jobs_sound;
    outbox_addressed = λ id d h. readdressed c w p _ d refl (v.outbox_addressed id d h);
  }

  pub Follows-IsWellFormed :
      {p q : Plane}
      → validate_positive c ≡ true
      → Follows c w p q
      → IsWellFormed c w p
      → IsWellFormed c w q
  Follows-IsWellFormed good here v = v
  Follows-IsWellFormed good (more f m) v =
      Change-IsWellFormed good m (Follows-IsWellFormed good f v)
