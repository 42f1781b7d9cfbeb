-- ===== src/ControlPlane/Diagram/Owner.antt =====
-- What owners ask for follows the diagram.
use causal_ops.Prelude.{
  String, ◌≡◌, true, none, some, arith, Option-cases, Bool-cases, inl, inr, ok, Result-cases,
  eq_iff, ap, ◌∙◌, ◌==◌,
}
use causal_ops.Text.{is_empty_text}
use causal_ops.Approvals.{OwnerDecision}
use causal_ops.ControlPlane.Documents.Laws.{fetch_name}
use causal_ops.ControlPlane.{
  ScenarioFamily, Job, Plane, Config, Platform, job_ref, decision_ref, set_decision, owned,
}
use causal_ops.ControlPlane.Owner.{
  find_request, create, decide, decide_first, decided, stored_decision,
}
use causal_ops.ControlPlane.Diagram.{Follows, here, more, adds, moves, records, notes, resumes}

-- The job that an owner may see.
pub owned-ok :
    (id owner_email : String) (j : Job) (p : Plane)
    → owned id owner_email p ≡ ok j
    → (job_ref id p ≡ some j) × ((j.owner == owner_email) ≡ true)
unfolding owned
owned-ok id owner_email j p h = elim (Option-cases (job_ref id p)) [
  | inl missing ↦ absurd (ground arith)
  | inr (k, e) ↦ elim (Bool-cases (k.owner == owner_email)) [
    | inl own ↦ ground arith
    | inr foreign ↦ absurd (ground arith)
  ]
]

pub owned-found :
    (id owner_email : String) (j : Job) (p : Plane)
    → job_ref id p ≡ some j
    → j.owner ≡ owner_email
    → owned id owner_email p ≡ ok j
unfolding owned
owned-found id owner_email j p found own =
    rw (found, owned) (ground (arith, eq_iff j.owner owner_email))

module _ (c : Config) (w : Platform) where
  pub create-Follows :
      (owner_email : String) (family : ScenarioFamily) (key id : String) (p : Plane)
      → job_ref id p ≡ none
      → Follows c w p (create owner_email family key id p).1
  unfolding create
  create-Follows owner_email family key id p fresh =
      elim (Option-cases (find_request owner_email key p.jobs)) [
        | inr (j, e) ↦ rw (e, create) here
        | inl new ↦
            rw (new, create)
              (more (more here (adds p id _ owner_email family key fresh)) (notes _ id _ _))
      ]

  decided-Follows :
      (j : Job) (id checkpoint_id : String) (d : OwnerDecision) (p : Plane)
      → job_ref id p ≡ some j
      → decision_ref id p ≡ none
      → (j.status == "PAUSED_APPROVAL") ≡ true
      → Follows c w p (decided j checkpoint_id d p)
  decided-Follows j id checkpoint_id d p found fresh paused =
      let same : j.id ≡ id = fetch_name (λ k. k.id) id j p.jobs found in
      more
        (more
          (more here (
            records p (stored_decision j.id checkpoint_id d)
              (ap (λ k. decision_ref k p) same ∙ fresh)))
          (moves (set_decision (stored_decision j.id checkpoint_id d) p) j
            (record j { status = "QUEUED" }) (ap (λ k. job_ref k p) same ∙ found)
            (resumes j paused)))
        (notes _ j.id _ _)

  decide_first-Follows :
      (j : Job) (id : String) (d : OwnerDecision) (p : Plane)
      → job_ref id p ≡ some j
      → decision_ref id p ≡ none
      → Follows c w p (decide_first j d p).1
  unfolding decide_first
  decide_first-Follows j id d p found fresh = elim (Bool-cases (j.status == "PAUSED_APPROVAL")) [
    | inr other ↦ rw (other, decide_first) here
    | inl paused ↦
        rw (paused, decide_first)
          (elim (Option-cases j.checkpoint_id) [
            | inl unset ↦ rw unset here
            | inr (checkpoint_id, e) ↦ rw e (elim (Bool-cases (is_empty_text checkpoint_id)) [
              | inl blank ↦ rw blank here
              | inr written ↦ rw written (decided-Follows j id checkpoint_id d p found fresh paused)
            ])
          ])
  ]

  pub decide-Follows :
      (owner_email id : String) (d : OwnerDecision) (p : Plane)
      → Follows c w p (decide owner_email id d p).1
  unfolding decide
  decide-Follows owner_email id d p = elim (Result-cases (owned id owner_email p)) [
    | inr (e, bad) ↦ rw (bad, decide) here
    | inl (j, own) ↦
        rw (own, decide)
          (elim (Option-cases (decision_ref id p)) [
            | inr (prior, e) ↦ rw e here
            | inl fresh ↦
                rw fresh (decide_first-Follows j id d p (owned-ok id owner_email j p own).0 fresh)
          ])
  ]
