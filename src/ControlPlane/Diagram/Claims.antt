-- ===== src/ControlPlane/Diagram/Claims.antt =====
-- Reclaiming and claiming jobs follows the diagram.
use causal_ops.Prelude.{
  ℕ, ◌+◌, String, ◌≡◌, ap, ◌∙◌, true, false, none, some, List, [], ◌∷◌, arith, Bool-cases, inl, inr,
  Result-cases, leb, leb→le, any, keep_if,
}
use causal_ops.ControlPlane.Documents.Sorting.{All, All-keep_if, keep_if-All, All-sort_by, All-both}
use causal_ops.ControlPlane.Documents.Laws.{
  fetch_name, Distinct, Stored, keep_if-Stored, keep_if-Distinct, Stored-store,
}
use causal_ops.ControlPlane.{
  Job, Plane, Config, Platform, job_ref, decision_ref, set_job, event, is_running, is_expired,
  FieldValue, validate_positive,
}
use causal_ops.ControlPlane.Claims.{
  reclaim, reclaim_each, reclaim_expired_investigations, is_queued, is_due, holds_scenario,
  goes_before, candidates, read_decision, started, claim_row, claim_queued, claim_next, claim_first,
}
use causal_ops.ControlPlane.Diagram.WellFormed.{IsWellFormed}
use causal_ops.ControlPlane.Diagram.Invariant.{Follows-IsWellFormed}
use causal_ops.ControlPlane.Documents.{fetch}
use causal_ops.ControlPlane.Diagram.{
  Move, Follows, here, more, join, starts, moves, notes, defers, fails,
}

-- The document that a name finds is found by its own.
pub own : (id : String) (j : Job) (p : Plane) → job_ref id p ≡ some j → job_ref j.id p ≡ some j
own id j p h = ap (λ k. job_ref k p) (fetch_name (λ k. k.id) id j p.jobs h) ∙ h

-- The first of the candidates is a stored job that waits in the queue.
pub candidates-queued :
    (now : ℕ) (p : Plane)
    → Distinct (λ j. j.id) p.jobs
    → All (λ j. (job_ref j.id p ≡ some j) × (is_queued j ≡ true)) (candidates now p)
unfolding candidates
candidates-queued now p d = All-sort_by _ goes_before _ (
    All-keep_if _ (is_due now) _ (
      All-both _ _ (keep_if is_queued p.jobs) (keep_if-Stored (λ j. j.id) is_queued p.jobs d)
        (keep_if-All is_queued p.jobs)))

module _ (c : Config) (w : Platform) where
  -- A move of a stored job, with its event
  pub moved :
      (id name : String) (fields : List (String × FieldValue)) (p : Plane) (j j' : Job)
      → job_ref id p ≡ some j
      → Move c w j j'
      → Follows c w p (event j.id name fields (set_job j' p))
  moved id name fields p j j' found m =
      more (more here (moves p j j' (own id j p found) m)) (notes (set_job j' p) j.id name fields)

  reclaim-Follows :
      (now : ℕ) (j : Job) (p : Plane)
      → job_ref j.id p ≡ some j
      → is_running j ≡ true
      → Follows c w p (reclaim c now j p)
  unfolding reclaim
  reclaim-Follows now j p found on = elim (Bool-cases (is_expired j.claim_expires_at now)) [
    | inr alive ↦ rw alive here
    | inl over ↦ rw over (elim (Bool-cases (leb c.max_replay_attempts (j.attempt_count + 1))) [
      | inl last ↦ rw last (moved j.id _ _ p j _ found (fails j _ on (leb→le _ _ last)))
      | inr again ↦ rw again (moved j.id _ _ p j _ found (defers j _ on (ground arith)))
    ])
  ]

  -- The turn for one job leaves the others to be found.
  Stored-reclaim :
      (now : ℕ) (j : Job) (js : List Job) (p : Plane)
      → fetch (λ k. k.id) j.id js ≡ none
      → Stored (λ k. k.id) js p.jobs
      → Stored (λ k. k.id) js (reclaim c now j p).jobs
  unfolding reclaim event
  Stored-reclaim now j js p fresh s = elim (Bool-cases (is_expired j.claim_expires_at now)) [
    | inr alive ↦ rw alive s
    | inl over ↦ rw over (elim (Bool-cases (leb c.max_replay_attempts (j.attempt_count + 1))) [
      | inl last ↦ rw last (Stored-store (λ k. k.id) _ js p.jobs fresh s)
      | inr again ↦ rw again (Stored-store (λ k. k.id) _ js p.jobs fresh s)
    ])
  ]

  reclaim_each-Follows :
      (now : ℕ) (js : List Job) (p : Plane)
      → Distinct (λ k. k.id) js
      → Stored (λ k. k.id) js p.jobs
      → All (λ j. is_running j ≡ true) js
      → Follows c w p (reclaim_each c now js p)
  unfolding reclaim_each
  reclaim_each-Follows now [] p d s r = here
  reclaim_each-Follows now (j ∷ js) p (fresh, d) (found, s) (on, r) =
      join c w (reclaim-Follows now j p found on)
        (reclaim_each-Follows now js (reclaim c now j p) d (Stored-reclaim now j js p fresh s) r)

  pub reclaim_expired_investigations-Follows :
      (now : ℕ) (p : Plane)
      → Distinct (λ k. k.id) p.jobs
      → Follows c w p (reclaim_expired_investigations c now p)
  unfolding reclaim_expired_investigations
  reclaim_expired_investigations-Follows now p d =
      reclaim_each-Follows now (keep_if is_running p.jobs) p
        (keep_if-Distinct (λ k. k.id) is_running p.jobs d)
        (keep_if-Stored (λ k. k.id) is_running p.jobs d) (keep_if-All is_running p.jobs)

  claim_row-Follows :
      (token : String) (now : ℕ) (j : Job) (p : Plane)
      → job_ref j.id p ≡ some j
      → any is_running p.jobs ≡ false
      → is_queued j ≡ true
      → Follows c w p (claim_row c token now j p).1
  unfolding claim_row
  claim_row-Follows token now j p found idle waiting =
      let go : Follows c w p (started c token now j p) =
        more (more here (starts p j token now found idle waiting)) (notes _ j.id _ _) in
      elim (Result-cases (read_decision j (decision_ref j.id p))) [
        | inl (d, e) ↦ rw (e, claim_row) go
        | inr (bad, e) ↦ rw (e, claim_row) go
      ]

  first_row-Follows :
      (token : String) (now : ℕ) (js : List Job) (p : Plane)
      → All (λ j. (job_ref j.id p ≡ some j) × (is_queued j ≡ true)) js
      → any is_running p.jobs ≡ false
      → Follows c w p (claim_first c token now js p).1
  unfolding claim_first
  first_row-Follows token now [] p h idle = here
  first_row-Follows token now (j ∷ js) p ((found, waiting), h) idle =
      claim_row-Follows token now j p found idle waiting

  pub claim_queued-Follows :
      (token : String) (now : ℕ) (p : Plane)
      → Distinct (λ k. k.id) p.jobs
      → Follows c w p (claim_queued c token now p).1
  unfolding claim_queued
  claim_queued-Follows token now p d = elim (Bool-cases (any is_running p.jobs)) [
    | inl busy ↦ rw busy here
    | inr idle ↦ rw idle (elim (Bool-cases (any (holds_scenario now) (keep_if is_queued p.jobs))) [
      | inl held ↦ rw held here
      | inr clear ↦
          rw clear
            (first_row-Follows token now (candidates now p) p (candidates-queued now p d) idle)
    ])
  ]

  pub claim_next-Follows :
      (token : String) (now : ℕ) (p : Plane)
      → validate_positive c ≡ true
      → IsWellFormed c w p
      → Follows c w p (claim_next c token now p).1
  unfolding claim_next
  claim_next-Follows token now p good v =
      let reclaimed = reclaim_expired_investigations-Follows now p v.jobs_distinct in
      join c w reclaimed (
        claim_queued-Follows token now (reclaim_expired_investigations c now p)
          (Follows-IsWellFormed c w good reclaimed v).jobs_distinct)
