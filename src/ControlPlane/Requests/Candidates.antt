-- ===== src/ControlPlane/Requests/Candidates.antt =====
-- The order in which jobs are claimed.
use mathlib.Core.Path.{subst}
use causal_ops.Prelude.{
  ℕ, String, ◌≡◌, true, false, some, List, [], ◌∷◌, arith, Bool-cases, inl, inr, keep_if,
}
use causal_ops.ControlPlane.Documents.{sort_by}
use causal_ops.ControlPlane.Documents.Sorting.{
  All, sort_by-each, sort_by-Ordered, keep_if-each, fetch-each, Ordered,
}
use causal_ops.ControlPlane.{Job, Plane, job_ref}
use causal_ops.ControlPlane.Claims.{is_queued, is_due, goes_before, candidates}

goes_before-total : (a b : Job) → goes_before a b ≡ false → goes_before b a ≡ true
unfolding goes_before
goes_before-total a b h = ground arith

goes_before_trans :
    (a b d : Job) → goes_before a b ≡ true → goes_before b d ≡ true → goes_before a d ≡ true
unfolding goes_before
goes_before_trans a b d h k = ground arith

goes_before_refl : (a : Job) → goes_before a a ≡ true
goes_before_refl a = elim (Bool-cases (goes_before a a)) [
  | inl e ↦ e
  | inr e ↦ goes_before-total a a e
]

-- The first candidate goes before every job that may be claimed.
pub candidates_first :
    (now : ℕ) (q : Plane) (k : Job) (ks : List Job)
    → candidates now q ≡ k ∷ ks
    → (id : String) (j : Job) → job_ref id q ≡ some j
    → is_queued j ≡ true
    → is_due now j ≡ true
    → goes_before k j ≡ true
unfolding candidates
candidates_first now q k ks e id j found waiting due =
    let due_jobs = keep_if (is_due now) (keep_if is_queued q.jobs) in
    let ordered = sort_by-Ordered goes_before goes_before-total goes_before_trans due_jobs in
    let least : All (λ x. goes_before k x ≡ true) (sort_by goes_before due_jobs) =
      rw e (goes_before_refl k, (subst (Ordered goes_before) e ordered).0) in
    fetch-each (λ x. is_queued x ≡ true → is_due now x ≡ true → goes_before k x ≡ true) (λ x. x.id)
      id j q.jobs
      (keep_if-each (λ x. is_due now x ≡ true → goes_before k x ≡ true) is_queued q.jobs
        (keep_if-each (λ x. goes_before k x ≡ true) (is_due now) (keep_if is_queued q.jobs)
          (sort_by-each (λ x. goes_before k x ≡ true) goes_before due_jobs least)))
      found waiting due

-- A job that may be claimed is among the candidates.
pub candidates-some :
    (now : ℕ) (q : Plane) (id : String) (j : Job)
    → job_ref id q ≡ some j
    → is_queued j ≡ true
    → is_due now j ≡ true
    → ¬ (candidates now q ≡ [])
unfolding candidates
candidates-some now q id j found waiting due e =
    let due_jobs = keep_if (is_due now) (keep_if is_queued q.jobs) in
    let none_of : All (λ _. ⊥) (sort_by goes_before due_jobs) = rw e tt in
    fetch-each (λ x. is_queued x ≡ true → is_due now x ≡ true → ⊥) (λ x. x.id) id j q.jobs
      (keep_if-each (λ x. is_due now x ≡ true → ⊥) is_queued q.jobs
        (keep_if-each (λ _. ⊥) (is_due now) (keep_if is_queued q.jobs)
          (sort_by-each (λ _. ⊥) goes_before due_jobs none_of)))
      found waiting due
