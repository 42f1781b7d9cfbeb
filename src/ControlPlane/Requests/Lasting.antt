-- ===== src/ControlPlane/Requests/Lasting.antt =====
-- What no later request takes back.
use causal_ops.Prelude.{
  String, ◌≡◌, true, some, List, arith, Option-cases, Bool-cases, inl, inr, ◌==◌, ok,
}
use causal_ops.ControlPlane.{
  Job, Delivery, StoredDecision, Plane, Config, Platform, job_ref, delivery_ref, decision_ref,
  validate_positive, owned,
}
use causal_ops.ControlPlane.Owner.{find_request, report}
use causal_ops.ControlPlane.Requests.{Request, perform_all, AreFresh}
use causal_ops.ControlPlane.Requests.Refine.{perform_all-Follows}
use causal_ops.ControlPlane.Diagram.{Follows, here, more}
use causal_ops.ControlPlane.Diagram.WellFormed.{IsWellFormed}
use causal_ops.ControlPlane.Diagram.Invariant.{Follows-IsWellFormed}
use causal_ops.ControlPlane.Diagram.Lasting.{
  is_settled, Change-settled, Change-decision, Change-sent,
}
use causal_ops.ControlPlane.Diagram.Repeats.{id_of, Change-find_request}

module _ (c : Config) (w : Platform) where
  Follows-settled :
      {p q : Plane} (id : String) (j : Job)
      → validate_positive c ≡ true
      → Follows c w p q
      → IsWellFormed c w p
      → job_ref id p ≡ some j
      → is_settled j ≡ true
      → job_ref id q ≡ some j
  Follows-settled id j good here v found done = found
  Follows-settled id j good (more f m) v found done =
      Change-settled c w id j m (Follows-IsWellFormed c w good f v)
        (Follows-settled id j good f v found done) done

  pub Follows-decision :
      {p q : Plane} (id : String) (d : StoredDecision)
      → Follows c w p q
      → decision_ref id p ≡ some d
      → decision_ref id q ≡ some d
  Follows-decision id d here found = found
  Follows-decision id d (more f m) found =
      Change-decision c w id d m (Follows-decision id d f found)

  Follows-sent :
      {p q : Plane} (id : String) (d : Delivery)
      → Follows c w p q
      → delivery_ref id p ≡ some d
      → (d.status == "SENT") ≡ true
      → delivery_ref id q ≡ some d
  Follows-sent id d here found done = found
  Follows-sent id d (more f m) found done =
      Change-sent c w id d m (Follows-sent id d f found done) done

  pub Follows-find_request :
      {p q : Plane} (o y id : String)
      → Follows c w p q
      → id_of (find_request o y p.jobs) ≡ some id
      → id_of (find_request o y q.jobs) ≡ some id
  Follows-find_request o y id here found = found
  Follows-find_request o y id (more f m) found =
      Change-find_request c w o y id m (Follows-find_request o y id f found)

module _ (c : Config) (w : Platform) (rs : List Request) (p : Plane)
    (good : validate_positive c ≡ true) (v : IsWellFormed c w p) (fresh : AreFresh c w rs p) where
  abbrev pub later : Plane
  later = perform_all c w rs p

  pub follows : Follows c w p later
  follows = perform_all-Follows c w rs p good v fresh

  -- A job that is finalized or has failed stays as it is, whatever is asked of a well-formed plane from
  -- then on.
  pub perform_all-settled :
      (id : String) (j : Job)
      → job_ref id p ≡ some j
      → is_settled j ≡ true
      → job_ref id later ≡ some j
  perform_all-settled id j found done = Follows-settled c w id j good follows v found done

  -- So does a delivery that was sent.
  pub perform_all-sent :
      (id : String) (d : Delivery)
      → delivery_ref id p ≡ some d
      → (d.status == "SENT") ≡ true
      → delivery_ref id later ≡ some d
  perform_all-sent id d found done = Follows-sent c w id d follows found done

  -- A report that its owner could read of a well-formed plane reads the same, to the letter, whatever
  -- is asked of the plane from then on.
  pub report-perform_all :
      (owner_email id content : String)
      → report w owner_email id p ≡ ok content
      → report w owner_email id later ≡ ok content
  unfolding report owned is_settled
  report-perform_all owner_email id content h = elim (Option-cases (job_ref id p)) [
    | inl missing ↦ absurd (ground arith)
    | inr (j, found) ↦ elim (Bool-cases (j.owner == owner_email)) [
      | inr foreign ↦ absurd (ground arith)
      | inl own ↦ elim (Bool-cases (j.status == "COMPLETED")) [
        | inr live ↦ absurd (ground arith)
        | inl done ↦
            let still = Follows-settled c w id j good follows v found (ground arith) in ground arith
      ]
    ]
  ]
