-- ===== src/ControlPlane/Requests/Finalized.antt =====
-- What `finalize` read from the file is what the owner reads, and what goes out to the owner.
use causal_ops.Prelude.{
  ℕ, String, ◌≡◌, sym, ap, ◌∙◌, true, false, some, List, ◌∷◌, arith, Option-cases, Bool-cases, inl,
  inr, ◌==◌, ok,
}
use causal_ops.Text.{is_blank}
use causal_ops.ControlPlane.Documents.Laws.{fetch_name, fetch-store_self}
use causal_ops.ControlPlane.{
  Job, Plane, Config, Platform, validate_positive, event, job_ref, is_current,
}
use causal_ops.ControlPlane.Owner.{report}
use causal_ops.ControlPlane.Worker.{finalize, read_report_snapshot, finalized, delivered_to_outbox}
use causal_ops.ControlPlane.Requests.{Request, finalizing, perform, perform_all, AreFresh}
use causal_ops.ControlPlane.Diagram.WellFormed.{IsWellFormed}
use causal_ops.ControlPlane.Diagram.Keeps.{finalized_snapshot}
use causal_ops.ControlPlane.Diagram.Owner.{owned-found}
use causal_ops.ControlPlane.Requests.Refine.{perform-IsWellFormed}
use causal_ops.ControlPlane.Requests.Lasting.{report-perform_all}

-- What an accepted `finalize` has checked, and the job that it leaves.
finalize-ok :
    (w : Platform) (id artifact token content : String) (now : ℕ) (p : Plane)
    → (finalize w id artifact token (some content) now p).0 ≡ ok tt
    → (j : Job) × (job_ref id p ≡ some j)
      × (is_current token now j ≡ true)
      × (is_blank artifact ≡ false)
      × (w.is_own_report id artifact ≡ true)
      × (job_ref id (finalize w id artifact token (some content) now p).1
          ≡ some (finalized w artifact content j))
unfolding finalize read_report_snapshot event
finalize-ok w id artifact token content now p h = elim (Bool-cases (is_blank artifact)) [
  | inl blank ↦ absurd (ground arith)
  | inr written ↦ elim (Option-cases (job_ref id p)) [
    | inl missing ↦ absurd (ground arith)
    | inr (j, found) ↦ elim (Bool-cases (j.status == "COMPLETED")) [
      | inl done ↦ absurd (ground arith)
      | inr live ↦ elim (Bool-cases (is_current token now j)) [
        | inr stale ↦ absurd (ground arith)
        | inl good ↦ elim (Bool-cases (w.is_own_report id artifact)) [
          | inr foreign ↦ absurd (ground arith)
          | inl fits ↦
              let same = fetch_name (λ k. k.id) id j p.jobs found in
              (
                j,
                found,
                good,
                written,
                fits,
                rw (written, found, live, good, fits)
                    (ap (λ k. job_ref k (delivered_to_outbox j (finalized w artifact content j) p))
                        (sym same)
                      ∙ fetch-store_self (λ k. k.id) (finalized w artifact content j) p.jobs),
              )
        ]
      ]
    ]
  ]
]

report-finalized :
    (w : Platform) (owner_email id artifact content : String) (j : Job) (p : Plane)
    → is_blank artifact ≡ false
    → w.is_own_report id artifact ≡ true
    → j.owner ≡ owner_email
    → job_ref id p ≡ some (finalized w artifact content j)
    → report w owner_email id p ≡ ok content
unfolding report
report-finalized w owner_email id artifact content j p written fits own found =
    rw (owned-found id owner_email (finalized w artifact content j) p found own, report)
      (finalized_snapshot w id artifact content written fits)

-- When a well-formed plane has accepted a `finalize` with the text that the report's file had, its owner
-- reads exactly that text, after whatever other requests.
pub report-finalize :
    (c : Config) (w : Platform) (rs : List Request) (p : Plane) (id artifact token content : String)
    (now : ℕ) (j : Job)
    → validate_positive c ≡ true
    → IsWellFormed c w p
    → AreFresh c w (finalizing id artifact token (some content) now ∷ rs) p
    → job_ref id p ≡ some j
    → (finalize w id artifact token (some content) now p).0 ≡ ok tt
    → report w j.owner id (perform_all c w (finalizing id artifact token (some content) now ∷ rs) p)
      ≡ ok content
unfolding perform_all perform
report-finalize c w rs p id artifact token content now j good v (first, fresh) found h =
    let q = (finalize w id artifact token (some content) now p).1 in
    let v' : IsWellFormed c w q =
      perform-IsWellFormed c w (finalizing id artifact token (some content) now) p good v first in
    let (k, found', held, written, fits, made) = finalize-ok w id artifact token content now p h in
    report-perform_all c w rs q good v' fresh j.owner id content
      (report-finalized w j.owner id artifact content k q written fits (ground arith) made)
