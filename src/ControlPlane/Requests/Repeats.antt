-- ===== src/ControlPlane/Requests/Repeats.antt =====
-- A repeated `create` is answered for the investigation that the first one made.
use mathlib.Core.Path.{subst}
use causal_ops.Prelude.{
  ℕ, String, ◌≡◌, refl, sym, ap, true, none, some, List, [], ◌∷◌, arith, Option-cases, Bool-cases,
  inl, inr, ◌==◌, ◌&&◌, is_some, ok, length, eq_refl, keep_if, ◌∙◌,
}
use causal_ops.ControlPlane.Documents.{fetch, store}
use causal_ops.ControlPlane.{
  ScenarioFamily, InvestigationView, investigation_status, Job, Plane, Config, Platform,
  validate_positive, view, event, job_ref, owned, failed_safe,
}
use causal_ops.ControlPlane.Owner.{find_request, create, new_job, status}
use causal_ops.ControlPlane.Documents.Laws.{keep_if-Stored}
use causal_ops.ControlPlane.Documents.Sorting.{All}
use causal_ops.ControlPlane.Diagram.Invariant.{Follows-IsWellFormed}
use causal_ops.ControlPlane.Requests.{Request, creating, perform, perform_all, AreFresh}
use causal_ops.ControlPlane.Requests.Lasting.{Follows-find_request}
use causal_ops.ControlPlane.Diagram.WellFormed.{IsSound, IsWellFormed}
use causal_ops.ControlPlane.Diagram.Repeats.{id_of}
use causal_ops.ControlPlane.Requests.Refine.{perform_all-Follows, perform-IsWellFormed}

view_id : (j : Job) (v : InvestigationView) → view j ≡ ok v → v.investigation_id ≡ j.id
unfolding view
view_id j v h = elim (Bool-cases (is_some j.failure_reason)) [
  | inl failed ↦ ground arith
  | inr live ↦ elim (Option-cases (investigation_status j.status)) [
    | inl bad ↦ absurd (ground arith)
    | inr (s, e) ↦ ground arith
  ]
]

find_request-store_fresh :
    (o y id : String) (n : ℕ) (f : ScenarioFamily) (js : List Job)
    → find_request o y js ≡ none
    → fetch (λ x. x.id) id js ≡ none
    → find_request o y (store (λ x. x.id) (new_job id n o f y) js) ≡ some (new_job id n o f y)
unfolding find_request fetch store
find_request-store_fresh o y id n f [] h k = rw (eq_refl o, eq_refl y) refl
find_request-store_fresh o y id n f (x ∷ xs) h k = elim (Bool-cases (x.id == id)) [
  | inl here ↦ absurd (ground arith)
  | inr there ↦ rw there (elim (Bool-cases (x.owner == o && x.idempotency_key == y)) [
    | inl hit ↦ absurd (ground arith)
    | inr miss ↦ rw miss (find_request-store_fresh o y id n f xs (ground arith) (ground arith))
  ])
]

-- Behind a `create`, the key answers with the investigation of its answer.
created :
    (o key id : String) (f : ScenarioFamily) (p : Plane) (v : InvestigationView)
    → job_ref id p ≡ none
    → (create o f key id p).0 ≡ ok v
    → id_of (find_request o key (create o f key id p).1.jobs) ≡ some v.investigation_id
unfolding create event
created o key id f p v fresh h = elim (Option-cases (find_request o key p.jobs)) [
  | inr (j, e) ↦
      let same = view_id j v (ground arith) in rw (e, create) (rw (e, id_of) (ap some (sym same)))
  | inl new ↦
      let made = find_request-store_fresh o key id (length p.jobs) f p.jobs new fresh in
      ground (arith, made, new)
]

-- The job that answers to a key is the stored one of its id, and its owner's.
find_request-first :
    (o y : String) (j : Job) (js : List Job)
    → find_request o y js ≡ some j
    → (rest : List Job) × (keep_if (λ x. x.owner == o && x.idempotency_key == y) js ≡ j ∷ rest)
      × ((j.owner == o) ≡ true)
unfolding find_request
find_request-first o y j [] h = absurd (ground arith)
find_request-first o y j (x ∷ xs) h = elim (Bool-cases (x.owner == o && x.idempotency_key == y)) [
  | inl hit ↦
      let same : x ≡ j = ground arith in
      (
        keep_if (λ k. k.owner == o && k.idempotency_key == y) xs,
        rw hit (rw same refl),
        ground arith,
      )
  | inr miss ↦
      let (rest, e, own) = find_request-first o y j xs (ground arith) in (rest, rw miss e, own)
]

view-known :
    (c : Config) (w : Platform) (j : Job)
    → IsSound c w j
    → (v : InvestigationView) × (view j ≡ ok v) × (v.investigation_id ≡ j.id)
unfolding view
view-known c w j s = elim (Bool-cases (is_some j.failure_reason)) [
  | inl failed ↦ (record { investigation_id = j.id; status = failed_safe }, rw failed refl, refl)
  | inr live ↦ elim (Option-cases (investigation_status j.status)) [
    | inl bad ↦ absurd (ground (arith, s.known))
    | inr (t, e) ↦ (record { investigation_id = j.id; status = t }, rw (live, e) refl, refl)
  ]
]

status_found :
    (o id : String) (j : Job) (p : Plane)
    → job_ref id p ≡ some j
    → (j.owner == o) ≡ true
    → status o id p ≡ view j
unfolding status owned
status_found o id j p found own = ground arith

create_found :
    (c : Config) (w : Platform) (o key id : String) (f : ScenarioFamily) (p : Plane) (id' : String)
    → IsWellFormed c w p
    → id_of (find_request o key p.jobs) ≡ some id'
    → (v : InvestigationView) × (v.investigation_id ≡ id')
      × (status o id' p ≡ ok v)
      × (create o f key id p ≡ (ok v, p))
unfolding create
create_found c w o key id f p id' g h = elim (Option-cases (find_request o key p.jobs)) [
  | inl missing ↦ absurd (ground arith)
  | inr (j, e) ↦
      let (rest, firsts, own) = find_request-first o key j p.jobs e in
      let held : All (λ k. job_ref k.id p ≡ some k) (j ∷ rest) =
        subst (All (λ k. job_ref k.id p ≡ some k)) firsts (
          keep_if-Stored (λ k. k.id) (λ x. x.owner == o && x.idempotency_key == key) p.jobs
            g.jobs_distinct) in
      let (v, shown, named) = view-known c w j (g.jobs_sound j.id j held.0) in
      let same : j.id ≡ id' = ground arith in
      let found : job_ref id' p ≡ some j = rw (← same) held.0 in
      (
        v,
        named ∙ same,
        status_found o id' j p found own ∙ shown,
        rw (e, create) (ap (λ r. (r, p)) shown),
      )
]

-- A `create` that a well-formed plane has answered, asked again by the same owner with the same key
-- after whatever other requests, does not raise and changes nothing: it is answered with what `status`
-- then shows the owner of the first answer's investigation.
pub create-create :
    (c : Config) (w : Platform) (rs : List Request) (p : Plane) (owner_email key id id' : String)
    (family family' : ScenarioFamily) (first : InvestigationView)
    → validate_positive c ≡ true
    → IsWellFormed c w p
    → AreFresh c w (creating owner_email family key id ∷ rs) p
    → (create owner_email family key id p).0 ≡ ok first
    → (again : InvestigationView) × (again.investigation_id ≡ first.investigation_id)
      × (status owner_email first.investigation_id
            (perform_all c w (creating owner_email family key id ∷ rs) p)
          ≡ ok again)
      × (create owner_email family' key id'
            (perform_all c w (creating owner_email family key id ∷ rs) p)
          ≡ (ok again, perform_all c w (creating owner_email family key id ∷ rs) p))
unfolding perform_all perform
create-create c w rs p owner_email key id id' family family' first good v (new, fresh) h =
    let q = (create owner_email family key id p).1 in
    let v' : IsWellFormed c w q =
      perform-IsWellFormed c w (creating owner_email family key id) p good v new in
    let f = perform_all-Follows c w rs q good v' fresh in
    create_found c w owner_email key id' family' (perform_all c w rs q) first.investigation_id
      (Follows-IsWellFormed c w good f v')
      (Follows-find_request c w owner_email key first.investigation_id f
        (created owner_email key id family p first new h))
