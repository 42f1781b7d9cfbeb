-- ===== src/ControlPlane/Requests/Sending.antt =====
-- A report goes out to its owner only.
use causal_ops.Prelude.{
  ℕ, String, ◌≡◌, sym, ap, ◌∙◌, true, some, List, [], ◌∷◌, arith, Option-cases, inl, inr, ◌==◌, ok,
  Result-cases,
}
use causal_ops.ControlPlane.Documents.Sorting.{All}
use causal_ops.ControlPlane.Documents.Laws.{fetch_name}
use causal_ops.ControlPlane.{
  InvestigationStatus, completed, investigation_status, Job, Delivery, Plane, Config, Platform,
  validate_positive, job_ref, delivery_ref, set_delivery,
}
use causal_ops.ControlPlane.Owner.{report, snapshot}
use causal_ops.ControlPlane.Deliveries.{
  DeliveryClaim, delivery_claim, send, send_first, sending, pending, is_pending, claim_delivery,
  reclaim_expired_deliveries,
}
use causal_ops.ControlPlane.Diagram.WellFormed.{IsWellFormed}
use causal_ops.ControlPlane.Diagram.Keeps.{same_text}
use causal_ops.ControlPlane.Diagram.Invariant.{Follows-IsWellFormed}
use causal_ops.ControlPlane.Diagram.Owner.{owned-found}
use causal_ops.ControlPlane.Diagram.Deliveries.{pending-stored, reclaim_expired_deliveries-Follows}

delivery_claim-ok :
    (j : Job) (d : Delivery) (token : String) (claim : DeliveryClaim)
    → delivery_claim j d token ≡ ok claim
    → (claim.investigation_id ≡ d.id)
      × (claim.destination_email ≡ d.destination_email)
      × (j.report_content ≡ some claim.report_content)
      × (investigation_status j.status ≡ some claim.status)
unfolding delivery_claim
delivery_claim-ok j d token claim h = elim (Option-cases (investigation_status j.status)) [
  | inl bad ↦ absurd (ground arith)
  | inr (s, e) ↦ elim (Option-cases j.report_artifact) [
    | inl bad ↦ absurd (ground arith)
    | inr (artifact, f) ↦ elim (Option-cases j.report_content) [
      | inl bad ↦ absurd (ground arith)
      | inr (content, g) ↦ elim (Option-cases j.report_sha256) [
        | inl bad ↦ absurd (ground arith)
        | inr (sha256, k) ↦ (ground arith, ground arith, ground arith, ground arith)
      ]
    ]
  ]
]

completed_status :
    (j : Job) (s : InvestigationStatus)
    → (j.status == "COMPLETED") ≡ true
    → investigation_status j.status ≡ some s
    → s ≡ completed
unfolding investigation_status
completed_status j s h e = ground (
  arith,
  same_text j.status "COMPLETED" "QUEUED" h,
  same_text j.status "COMPLETED" "RUNNING" h,
  same_text j.status "COMPLETED" "PAUSED_APPROVAL" h,
)

-- What a claim says of its delivery, in the plane that the claim leaves.
abbrev Faithful : Platform → DeliveryClaim → Plane → Type 0
Faithful w claim q =
    (claim.status ≡ completed)
    × (report w claim.destination_email claim.investigation_id q ≡ ok claim.report_content)

module _ (c : Config) (w : Platform) (token : String) (now : ℕ) where
  send-Faithful :
      (d : Delivery) (p : Plane) (claim : DeliveryClaim)
      → IsWellFormed c w p
      → delivery_ref d.id p ≡ some d
      → (send c token now d p).0 ≡ ok (some claim)
      → Faithful w claim (send c token now d p).1
  unfolding send report
  send-Faithful d p claim v stored h =
      let a = v.outbox_addressed d.id d stored in
      let (content, held, shown) = (v.jobs_sound d.id a.job a.found).reported a.finished in
      elim (Result-cases (delivery_claim a.job d token)) [
        | inr (bad, e) ↦ absurd (ground (arith, a.found))
        | inl (claim', e) ↦
            let same : claim' ≡ claim = ground (arith, a.found) in
            let (about, whom, what, how) = delivery_claim-ok a.job d token claim (e ∙ ap ok same) in
            let q = set_delivery (sending c token now d) p in
            let own =
              owned-found claim.investigation_id claim.destination_email a.job q
                (ap (λ k. job_ref k p) about ∙ a.found) (sym (whom ∙ a.owned_by)) in
            let named : claim.investigation_id ≡ a.job.id =
              about ∙ sym (fetch_name (λ k. k.id) d.id a.job p.jobs a.found) in
            let told : content ≡ claim.report_content = ground (arith, held, what) in
            rw (a.found, send)
              (rw e (
                completed_status a.job claim.status a.finished how,
                rw (own, report)
                    (rw a.finished (
                      ap
                        (λ k.
                          snapshot w k a.job.report_artifact a.job.report_content
                            a.job.report_sha256)
                        named
                      ∙ shown
                      ∙ ap ok told)),
              ))
      ]

  send_first-Faithful :
      (ds : List Delivery) (p : Plane) (claim : DeliveryClaim)
      → IsWellFormed c w p
      → All (λ d. (delivery_ref d.id p ≡ some d) × (is_pending now d ≡ true)) ds
      → (send_first c token now ds p).0 ≡ ok (some claim)
      → Faithful w claim (send_first c token now ds p).1
  unfolding send_first
  send_first-Faithful [] p claim v stored h = absurd (ground arith)
  send_first-Faithful (d ∷ ds) p claim v ((stored, _), rest) h = send-Faithful d p claim v stored h

-- A delivery that a well-formed plane hands to a sender is of a finalized investigation, and its address
-- is the one whose owner reads, under that investigation, exactly the text that the sender got.
pub report-claim_delivery :
    (c : Config) (w : Platform) (token : String) (now : ℕ) (p : Plane) (claim : DeliveryClaim)
    → validate_positive c ≡ true
    → IsWellFormed c w p
    → (claim_delivery c token now p).0 ≡ ok (some claim)
    → (claim.status ≡ completed)
      × (report w claim.destination_email claim.investigation_id (claim_delivery c token now p).1
          ≡ ok claim.report_content)
unfolding claim_delivery
report-claim_delivery c w token now p claim good v h =
    let q = reclaim_expired_deliveries c now p in
    let v' : IsWellFormed c w q =
      Follows-IsWellFormed c w good
        (reclaim_expired_deliveries-Follows c w now p v.deliveries_distinct) v in
    send_first-Faithful c w token now (pending now q) q claim v'
      (pending-stored now q v'.deliveries_distinct) h
