-- ===== src/ControlPlane/Diagram/Worker.antt =====
-- What the holder of a claim does with its job follows the diagram.
use causal_ops.Prelude.{
  ℕ, ◌+◌, String, ◌≡◌, refl, ap, ◌∙◌, true, false, Option, none, some, arith, Option-cases,
  Bool-cases, inl, inr, ◌==◌, leb, leb→le,
}
use causal_ops.Text.{is_blank}
use causal_ops.ControlPlane.Documents.Laws.{fetch_name, fetch-store_self}
use causal_ops.ControlPlane.{
  Job, Plane, Config, Platform, job_ref, delivery_ref, set_job, is_running, is_held, is_current,
}
use causal_ops.ControlPlane.Worker.{
  renewed, renew_running, incident_of, reserve_incident, mark_paused, requeue_running, retry_job,
  retry_running, read_report_snapshot, finalized, delivered_to_outbox, finalize,
}
use causal_ops.ControlPlane.Diagram.WellFormed.{IsWellFormed}
use causal_ops.ControlPlane.Diagram.{
  Follows, here, more, moves, enqueues, notes, renews, reserves, pauses, requeues, defers, fails,
  finalizes,
}
use causal_ops.ControlPlane.Diagram.Claims.{own, moved}

held-running : (token : String) (j : Job) → is_held token j ≡ true → is_running j ≡ true
unfolding is_held
held-running token j h = ground arith

pub current-running :
    (token : String) (now : ℕ) (j : Job) → is_current token now j ≡ true → is_running j ≡ true
unfolding is_current is_held
current-running token now j h = ground arith

module _ (c : Config) (w : Platform) where
  pub renew_running-Follows :
      (id token : String) (now : ℕ) (p : Plane) → Follows c w p (renew_running c id token now p).1
  unfolding renew_running
  renew_running-Follows id token now p = elim (Option-cases (job_ref id p)) [
    | inl missing ↦ rw (missing, renew_running) here
    | inr (j, found) ↦
        rw (found, renew_running)
          (elim (Bool-cases (is_current token now j)) [
            | inr stale ↦ rw stale here
            | inl good ↦ rw good (
                more here (
                  moves p j (renewed c now j) (own id j p found)
                    (renews j now (current-running token now j good))))
          ])
  ]

  incident_of-Follows :
      (incident_id : String) (j : Job) (p : Plane)
      → job_ref j.id p ≡ some j
      → is_running j ≡ true
      → Follows c w p (incident_of w incident_id j p).1
  unfolding incident_of
  incident_of-Follows incident_id j p found on = elim (Option-cases j.incident_id) [
    | inl new ↦
        rw (new, incident_of) (moved c w j.id _ _ p j _ found (reserves j incident_id on new))
    | inr (held, e) ↦
        rw (e, incident_of)
          (elim (Bool-cases (w.is_alnum held)) [ inl good ↦ rw good here | inr bad ↦ rw bad here ])
  ]

  pub reserve_incident-Follows :
      (id token : String) (now : ℕ) (p : Plane)
      → Follows c w p (reserve_incident w id token now p).1
  unfolding reserve_incident
  reserve_incident-Follows id token now p = elim (Option-cases (job_ref id p)) [
    | inl missing ↦ rw (missing, reserve_incident) here
    | inr (j, found) ↦
        rw (found, reserve_incident)
          (elim (Bool-cases (is_current token now j)) [
            | inr stale ↦ rw stale here
            | inl good ↦
                rw good
                  (incident_of-Follows _ j p (own id j p found) (current-running token now j good))
          ])
  ]

  pub mark_paused-Follows :
      (id checkpoint_id token : String) (now : ℕ) (p : Plane)
      → Follows c w p (mark_paused id checkpoint_id token now p).1
  unfolding mark_paused
  mark_paused-Follows id checkpoint_id token now p = elim (Bool-cases (is_blank checkpoint_id)) [
    | inl blank ↦ rw blank here
    | inr written ↦ rw written (elim (Option-cases (job_ref id p)) [
      | inl missing ↦ rw missing here
      | inr (j, found) ↦ rw found (elim (Bool-cases (is_current token now j)) [
        | inr stale ↦ rw stale here
        | inl good ↦ rw good (
            moved c w id _ _ p j _ found
              (pauses j checkpoint_id (current-running token now j good) written))
      ])
    ])
  ]

  pub requeue_running-Follows :
      (id token : String) (p : Plane) → Follows c w p (requeue_running id token p).1
  unfolding requeue_running
  requeue_running-Follows id token p = elim (Option-cases (job_ref id p)) [
    | inl missing ↦ rw (missing, requeue_running) here
    | inr (j, found) ↦
        rw (found, requeue_running)
          (elim (Bool-cases (is_held token j)) [
            | inr lost ↦ rw lost here
            | inl good ↦
                rw good (moved c w id _ _ p j _ found (requeues j (held-running token j good)))
          ])
  ]

  retry_job-Follows :
      (reason : String) (now : ℕ) (j : Job) (p : Plane)
      → job_ref j.id p ≡ some j
      → is_running j ≡ true
      → Follows c w p (retry_job c reason now j p).1
  unfolding retry_job
  retry_job-Follows reason now j p found on =
      elim (Bool-cases (leb c.max_replay_attempts (j.attempt_count + 1))) [
        | inl last ↦ rw last (moved c w j.id _ _ p j _ found (fails j _ on (leb→le _ _ last)))
        | inr again ↦ rw again (moved c w j.id _ _ p j _ found (defers j _ on (ground arith)))
      ]

  pub retry_running-Follows :
      (id token error : String) (now : ℕ) (p : Plane)
      → Follows c w p (retry_running c id token error now p).1
  unfolding retry_running
  retry_running-Follows id token error now p = elim (Option-cases (job_ref id p)) [
    | inl missing ↦ rw (missing, retry_running) here
    | inr (j, found) ↦
        rw (found, retry_running)
          (elim (Bool-cases (is_held token j)) [
            | inr lost ↦ rw lost here
            | inl good ↦
                rw good (retry_job-Follows _ now j p (own id j p found) (held-running token j good))
          ])
  ]

  -- No delivery waits for a job that is not finalized.
  undelivered :
      (id : String) (j : Job) (p : Plane)
      → IsWellFormed c w p
      → job_ref id p ≡ some j
      → (j.status == "COMPLETED") ≡ false
      → delivery_ref j.id p ≡ none
  undelivered id j p v found live = elim (Option-cases (delivery_ref j.id p)) [
    | inl e ↦ e
    | inr (d, e) ↦
        let a = v.outbox_addressed j.id d e in
        absurd (
          ground (
            arith,
            a.found,
            a.finished,
            live,
            own id j p found,
            ap (λ k. job_ref k p) (fetch_name (λ k. k.id) j.id d p.deliveries e),
          ))
  ]

  -- The report that was read is the job's own.
  read_own :
      (id artifact : String) (text : Option String) (content : String) (j : Job) (p : Plane)
      → job_ref id p ≡ some j
      → read_report_snapshot w id artifact text ≡ some content
      → w.is_own_report j.id artifact ≡ true
  unfolding read_report_snapshot
  read_own id artifact text content j p found read =
      let fits : w.is_own_report id artifact ≡ true = ground arith in
      ap (λ k. w.is_own_report k artifact) (fetch_name (λ k. k.id) id j p.jobs found) ∙ fits

  finalized-Follows :
      (id artifact content : String) (j : Job) (p : Plane)
      → IsWellFormed c w p
      → job_ref id p ≡ some j
      → (j.status == "COMPLETED") ≡ false
      → is_running j ≡ true
      → is_blank artifact ≡ false
      → w.is_own_report j.id artifact ≡ true
      → Follows c w p (delivered_to_outbox j (finalized w artifact content j) p)
  finalized-Follows id artifact content j p v found live on written fits =
      let done = finalized w artifact content j in
      more
        (more
          (more here
            (moves p j done (own id j p found) (finalizes j artifact content on written fits)))
          (enqueues (set_job done p) done _ (fetch-store_self (λ k. k.id) done p.jobs) refl
            (undelivered id j p v found live)))
        (notes _ j.id _ _)

  pub finalize-Follows :
      (id artifact token : String) (text : Option String) (now : ℕ) (p : Plane)
      → IsWellFormed c w p
      → Follows c w p (finalize w id artifact token text now p).1
  unfolding finalize
  finalize-Follows id artifact token text now p v = elim (Bool-cases (is_blank artifact)) [
    | inl blank ↦ rw blank here
    | inr written ↦ rw written (elim (Option-cases (job_ref id p)) [
      | inl missing ↦ rw missing here
      | inr (j, found) ↦ rw found (elim (Bool-cases (j.status == "COMPLETED")) [
        | inl done ↦ rw done here
        | inr live ↦ rw live (elim (Bool-cases (is_current token now j)) [
          | inr stale ↦ rw stale here
          | inl good ↦ rw good (elim (Option-cases (read_report_snapshot w id artifact text)) [
            | inl unread ↦ rw unread here
            | inr (content, read) ↦ rw read (
                finalized-Follows id artifact content j p v found live
                  (current-running token now j good) written
                  (read_own id artifact text content j p found read))
          ])
        ])
      ])
    ])
  ]
