-- ===== src/ControlPlane/Requests/Holders.antt =====
-- Who may act on a job: the owner, and the holder of the one lease that has not run out.
use causal_ops.Prelude.{
  ℕ, ◌≤◌, String, ◌≡◌, refl, sym, ◌∙◌, true, false, Option, some, List, [], ◌∷◌, arith,
  Option-cases, Bool-cases, inl, inr, ◌==◌, Result, raised, count_if, eq_iff,
}
use causal_ops.Text.{is_blank}
use causal_ops.Approvals.{OwnerDecision}
use causal_ops.ControlPlane.Documents.{fetch}
use causal_ops.ControlPlane.{
  Job, Plane, Config, Platform, Fault, not_found, job_ref, owned, is_running, is_held, is_current,
  token_is,
}
use causal_ops.ControlPlane.Owner.{status, events, decide, report}
use causal_ops.ControlPlane.Worker.{
  renew_running, reserve_incident, mark_paused, requeue_running, retry_running, finalize,
}
use causal_ops.ControlPlane.Diagram.WellFormed.{IsWellFormed}

foreign :
    (owner_email id : String) (p : Plane)
    → ((j : Job) → job_ref id p ≡ some j → (j.owner == owner_email) ≡ false)
    → owned id owner_email p ≡ raised (not_found "investigation not found")
unfolding owned
foreign owner_email id p h = elim (Option-cases (job_ref id p)) [
  | inl missing ↦ rw (missing, owned) refl
  | inr (j, found) ↦ rw (found, owned) (rw (h j found) refl)
]

-- Whoever does not own the investigation, known or not, is told on every request that there is none, and
-- changes nothing.
pub foreign_requests :
    (w : Platform) (owner_email id : String) (d : OwnerDecision) (p : Plane)
    → ((j : Job) → job_ref id p ≡ some j → (j.owner == owner_email) ≡ false)
    → (status owner_email id p ≡ raised (not_found "investigation not found"))
      × (events owner_email id p ≡ raised (not_found "investigation not found"))
      × (report w owner_email id p ≡ raised (not_found "investigation not found"))
      × (decide owner_email id d p ≡ (raised (not_found "investigation not found"), p))
unfolding status events report decide
foreign_requests w owner_email id d p h =
    let refused = foreign owner_email id p h in
    (rw refused refl, rw refused refl, rw refused refl, rw (refused, decide) refl)

running_counted :
    (id : String) (j : Job) (js : List Job)
    → fetch (λ k. k.id) id js ≡ some j
    → is_running j ≡ true
    → 1 ≤ count_if is_running js
unfolding fetch
running_counted id j [] found on = absurd (ground arith)
running_counted id j (x ∷ xs) found on = ground (arith, running_counted id j xs)

two_running :
    (id id' : String) (j j' : Job) (js : List Job)
    → fetch (λ k. k.id) id js ≡ some j
    → fetch (λ k. k.id) id' js ≡ some j'
    → is_running j ≡ true
    → is_running j' ≡ true
    → count_if is_running js ≤ 1
    → j ≡ j'
unfolding fetch
two_running id id' j j' [] found found' on on' h = absurd (ground arith)
two_running id id' j j' (x ∷ xs) found found' on on' h =
    ground (arith, two_running id id' j j' xs, running_counted id j xs, running_counted id' j' xs)

-- The call raised, and left the plane as it was.
abbrev pub Refused : {A : Type 0} → Result Fault A × Plane → Plane → Type 0
Refused (r, q) p = (e : Fault) × ((r ≡ raised e) × (q ≡ p))

unheld :
    (id holder token : String) (j k : Job) (js : List Job) (id' : String)
    → fetch (λ x. x.id) id js ≡ some j
    → is_held holder j ≡ true
    → ¬ (token ≡ holder)
    → count_if is_running js ≤ 1
    → fetch (λ x. x.id) id' js ≡ some k
    → is_held token k ≡ false
unfolding is_held token_is
unheld id holder token j k js id' found held other one found' = elim (Bool-cases (is_running k)) [
  | inr idle ↦ rw idle refl
  | inl on ↦
      let same : j ≡ k = two_running id id' j k js found found' (ground arith) on one in
      elim (Option-cases k.claim_token) [
        | inl free ↦ rw (on, free) refl
        | inr (t, e) ↦ elim (Bool-cases (t == token)) [
          | inr apart ↦ rw (on, e) apart
          | inl matches ↦
              let a : t ≡ token = (eq_iff t token).0 matches in
              let b : t ≡ holder = (eq_iff t holder).0 (ground (arith, same, e, held)) in
              absurd (other (sym a ∙ b))
        ]
      ]
]

abbrev IsLost : String → String → Plane → Type 0
IsLost id token p = (k : Job) → job_ref id p ≡ some k → is_held token k ≡ false

lost-stale :
    (token : String) (now : ℕ) (k : Job) → is_held token k ≡ false → is_current token now k ≡ false
unfolding is_current
lost-stale token now k h = rw h refl

module _ (id token : String) (p : Plane) (lost : IsLost id token p) where
  renew_running-Refused : (c : Config) (now : ℕ) → Refused (renew_running c id token now p) p
  unfolding renew_running
  renew_running-Refused c now = elim (Option-cases (job_ref id p)) [
    | inl missing ↦ rw (missing, renew_running) (_, (refl, refl))
    | inr (k, e) ↦ rw (e, renew_running) (rw (lost-stale token now k (lost k e)) (_, (refl, refl)))
  ]

  reserve_incident-Refused :
      (w : Platform) (now : ℕ) → Refused (reserve_incident w id token now p) p
  unfolding reserve_incident
  reserve_incident-Refused w now = elim (Option-cases (job_ref id p)) [
    | inl missing ↦ rw (missing, reserve_incident) (_, (refl, refl))
    | inr (k, e) ↦
        rw (e, reserve_incident) (rw (lost-stale token now k (lost k e)) (_, (refl, refl)))
  ]

  mark_paused-Refused :
      (checkpoint_id : String) (now : ℕ) → Refused (mark_paused id checkpoint_id token now p) p
  unfolding mark_paused
  mark_paused-Refused checkpoint_id now = elim (Bool-cases (is_blank checkpoint_id)) [
    | inl blank ↦ rw blank (_, (refl, refl))
    | inr written ↦ rw written (elim (Option-cases (job_ref id p)) [
      | inl missing ↦ rw missing (_, (refl, refl))
      | inr (k, e) ↦ rw e (rw (lost-stale token now k (lost k e)) (_, (refl, refl)))
    ])
  ]

  requeue_running-Refused : Refused (requeue_running id token p) p
  unfolding requeue_running
  requeue_running-Refused = elim (Option-cases (job_ref id p)) [
    | inl missing ↦ rw (missing, requeue_running) (_, (refl, refl))
    | inr (k, e) ↦ rw (e, requeue_running) (rw (lost k e) (_, (refl, refl)))
  ]

  retry_running-Refused :
      (c : Config) (error : String) (now : ℕ) → Refused (retry_running c id token error now p) p
  unfolding retry_running
  retry_running-Refused c error now = elim (Option-cases (job_ref id p)) [
    | inl missing ↦ rw (missing, retry_running) (_, (refl, refl))
    | inr (k, e) ↦ rw (e, retry_running) (rw (lost k e) (_, (refl, refl)))
  ]

  finalize-Refused :
      (w : Platform) (artifact : String) (file : Option String) (now : ℕ)
      → Refused (finalize w id artifact token file now p) p
  unfolding finalize
  finalize-Refused w artifact file now = elim (Bool-cases (is_blank artifact)) [
    | inl blank ↦ rw blank (_, (refl, refl))
    | inr written ↦ rw written (elim (Option-cases (job_ref id p)) [
      | inl missing ↦ rw missing (_, (refl, refl))
      | inr (k, e) ↦ rw e (elim (Bool-cases (k.status == "COMPLETED")) [
        | inl done ↦ rw done (_, (refl, refl))
        | inr live ↦ rw live (rw (lost-stale token now k (lost k e)) (_, (refl, refl)))
      ])
    ])
  ]

-- While one worker holds a job of a well-formed plane, no other token gets anything done, on this job or
-- another: each request of its bearer raises and leaves the plane as it is.
pub fenced_requests :
    (c : Config) (w : Platform) (p : Plane) (holding holder : String) (j : Job)
    (id token text error : String) (file : Option String) (now : ℕ)
    → IsWellFormed c w p
    → job_ref holding p ≡ some j
    → is_held holder j ≡ true
    → ¬ (token ≡ holder)
    → Refused (renew_running c id token now p) p
      × Refused (reserve_incident w id token now p) p
      × Refused (mark_paused id text token now p) p
      × Refused (requeue_running id token p) p
      × Refused (retry_running c id token error now p) p
      × Refused (finalize w id text token file now p) p
fenced_requests c w p holding holder j id token text error file now v found held other =
    let lost : IsLost id token p =
      λ k found'. unheld holding holder token j k p.jobs id found held other v.one_running found' in
    (
      renew_running-Refused id token p lost c now,
      reserve_incident-Refused id token p lost w now,
      mark_paused-Refused id token p lost text now,
      requeue_running-Refused id token p lost,
      retry_running-Refused id token p lost c error now,
      finalize-Refused id token p lost w text file now,
    )
