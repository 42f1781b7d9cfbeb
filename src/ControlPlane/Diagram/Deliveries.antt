-- ===== src/ControlPlane/Diagram/Deliveries.antt =====
-- What the senders of reports ask for follows the diagram.
use causal_ops.Prelude.{
  ℕ, ◌+◌, String, ◌≡◌, ap, ◌∙◌, true, none, some, List, [], ◌∷◌, arith, Option-cases, Bool-cases,
  inl, inr, Result-cases, leb, leb→le, keep_if,
}
use causal_ops.ControlPlane.Documents.{fetch}
use causal_ops.ControlPlane.Documents.Sorting.{All, keep_if-All, All-sort_by, All-both}
use causal_ops.ControlPlane.Documents.Laws.{
  fetch_name, Distinct, Stored, keep_if-Stored, keep_if-Distinct, Stored-store,
}
use causal_ops.ControlPlane.{
  FieldValue, Delivery, Plane, Config, Platform, job_ref, delivery_ref, set_delivery, event,
  is_expired, validate_positive,
}
use causal_ops.ControlPlane.Deliveries.{
  is_sending, is_claimed, is_claim_current, reclaim_delivery, reclaim_each_delivery,
  reclaim_expired_deliveries, is_pending, is_sent_before, pending, sending, delivery_claim, send,
  send_first, claim_delivery, mark_delivered, renew_delivery, release_delivery, retry_sending,
  retry_delivery,
}
use causal_ops.ControlPlane.Diagram.{
  DeliveryMove, Follows, here, more, join, delivers, notes, sends, extends, arrives, returns, waits,
  gives_up,
}
use causal_ops.ControlPlane.Diagram.WellFormed.{IsWellFormed}
use causal_ops.ControlPlane.Diagram.Invariant.{Follows-IsWellFormed}

claimed-sending : (token : String) (d : Delivery) → is_claimed token d ≡ true → is_sending d ≡ true
unfolding is_claimed
claimed-sending token d h = ground arith

current-sending :
    (token : String) (now : ℕ) (d : Delivery)
    → is_claim_current token now d ≡ true
    → is_sending d ≡ true
unfolding is_claim_current is_claimed
current-sending token now d h = ground arith

own_delivery :
    (id : String) (d : Delivery) (p : Plane)
    → delivery_ref id p ≡ some d
    → delivery_ref d.id p ≡ some d
own_delivery id d p h = ap (λ k. delivery_ref k p) (fetch_name (λ k. k.id) id d p.deliveries h) ∙ h

-- Every delivery that may be sent is stored.
pub pending-stored :
    (now : ℕ) (p : Plane)
    → Distinct (λ d. d.id) p.deliveries
    → All (λ d. (delivery_ref d.id p ≡ some d) × (is_pending now d ≡ true)) (pending now p)
unfolding pending
pending-stored now p d = All-sort_by _ is_sent_before _ (
    All-both _ _ (keep_if (is_pending now) p.deliveries)
      (keep_if-Stored (λ k. k.id) (is_pending now) p.deliveries d)
      (keep_if-All (is_pending now) p.deliveries))

module _ (c : Config) (w : Platform) where
  -- A move of a stored delivery, with its event
  moved :
      (id name : String) (fields : List (String × FieldValue)) (p : Plane) (d d' : Delivery)
      → delivery_ref id p ≡ some d
      → DeliveryMove c w d d'
      → Follows c w p (event d.id name fields (set_delivery d' p))
  moved id name fields p d d' found m =
      more (more here (delivers p d d' (own_delivery id d p found) m))
        (notes (set_delivery d' p) d.id name fields)

  reclaim_delivery-Follows :
      (now : ℕ) (d : Delivery) (p : Plane)
      → delivery_ref d.id p ≡ some d
      → is_sending d ≡ true
      → Follows c w p (reclaim_delivery c now d p)
  unfolding reclaim_delivery
  reclaim_delivery-Follows now d p found on =
      elim (Bool-cases (is_expired d.claim_expires_at now)) [
        | inr alive ↦ rw alive here
        | inl over ↦
            rw over (elim (Bool-cases (leb c.max_delivery_attempts (d.attempt_count + 1))) [
              | inl last ↦ rw last (moved d.id _ _ p d _ found (gives_up d _ on (leb→le _ _ last)))
              | inr again ↦ rw again (moved d.id _ _ p d _ found (waits d _ on (ground arith)))
            ])
      ]

  Stored-reclaim_delivery :
      (now : ℕ) (d : Delivery) (ds : List Delivery) (p : Plane)
      → fetch (λ k. k.id) d.id ds ≡ none
      → Stored (λ k. k.id) ds p.deliveries
      → Stored (λ k. k.id) ds (reclaim_delivery c now d p).deliveries
  unfolding reclaim_delivery event
  Stored-reclaim_delivery now d ds p fresh s =
      elim (Bool-cases (is_expired d.claim_expires_at now)) [
        | inr alive ↦ rw alive s
        | inl over ↦
            rw over (elim (Bool-cases (leb c.max_delivery_attempts (d.attempt_count + 1))) [
              | inl last ↦ rw last (Stored-store (λ k. k.id) _ ds p.deliveries fresh s)
              | inr again ↦ rw again (Stored-store (λ k. k.id) _ ds p.deliveries fresh s)
            ])
      ]

  reclaim_each_delivery-Follows :
      (now : ℕ) (ds : List Delivery) (p : Plane)
      → Distinct (λ k. k.id) ds
      → Stored (λ k. k.id) ds p.deliveries
      → All (λ d. is_sending d ≡ true) ds
      → Follows c w p (reclaim_each_delivery c now ds p)
  unfolding reclaim_each_delivery
  reclaim_each_delivery-Follows now [] p u s r = here
  reclaim_each_delivery-Follows now (d ∷ ds) p (fresh, u) (found, s) (on, r) =
      join c w (reclaim_delivery-Follows now d p found on) (
        reclaim_each_delivery-Follows now ds (reclaim_delivery c now d p) u
          (Stored-reclaim_delivery now d ds p fresh s) r)

  pub reclaim_expired_deliveries-Follows :
      (now : ℕ) (p : Plane)
      → Distinct (λ k. k.id) p.deliveries
      → Follows c w p (reclaim_expired_deliveries c now p)
  unfolding reclaim_expired_deliveries
  reclaim_expired_deliveries-Follows now p u =
      reclaim_each_delivery-Follows now (keep_if is_sending p.deliveries) p
        (keep_if-Distinct (λ k. k.id) is_sending p.deliveries u)
        (keep_if-Stored (λ k. k.id) is_sending p.deliveries u) (keep_if-All is_sending p.deliveries)

  send-Follows :
      (token : String) (now : ℕ) (d : Delivery) (p : Plane)
      → delivery_ref d.id p ≡ some d
      → is_pending now d ≡ true
      → Follows c w p (send c token now d p).1
  unfolding send is_pending
  send-Follows token now d p found waiting =
      let go : Follows c w p (set_delivery (sending c token now d) p) =
        more here (delivers p d _ found (sends d token now (ground arith) (ground arith))) in
      elim (Option-cases (job_ref d.id p)) [
        | inl missing ↦ rw (missing, send) here
        | inr (j, e) ↦
            rw (e, send)
              (elim (Result-cases (delivery_claim j d token)) [
                | inl (claim, f) ↦ rw f go
                | inr (bad, f) ↦ rw f go
              ])
      ]

  send_each-Follows :
      (token : String) (now : ℕ) (ds : List Delivery) (p : Plane)
      → All (λ d. (delivery_ref d.id p ≡ some d) × (is_pending now d ≡ true)) ds
      → Follows c w p (send_first c token now ds p).1
  unfolding send_first
  send_each-Follows token now [] p h = here
  send_each-Follows token now (d ∷ ds) p ((found, waiting), h) =
      send-Follows token now d p found waiting

  pub claim_delivery-Follows :
      (token : String) (now : ℕ) (p : Plane)
      → validate_positive c ≡ true
      → IsWellFormed c w p
      → Follows c w p (claim_delivery c token now p).1
  unfolding claim_delivery
  claim_delivery-Follows token now p good v =
      let q = reclaim_expired_deliveries c now p in
      let reclaimed = reclaim_expired_deliveries-Follows now p v.deliveries_distinct in
      join c w reclaimed (
        send_each-Follows token now (pending now q) q
          (pending-stored now q (Follows-IsWellFormed c w good reclaimed v).deliveries_distinct))

  pub mark_delivered-Follows :
      (id token : String) (now : ℕ) (p : Plane) → Follows c w p (mark_delivered id token now p).1
  unfolding mark_delivered
  mark_delivered-Follows id token now p = elim (Option-cases (delivery_ref id p)) [
    | inl missing ↦ rw (missing, mark_delivered) here
    | inr (d, found) ↦
        rw (found, mark_delivered)
          (elim (Bool-cases (is_claim_current token now d)) [
            | inr stale ↦ rw stale here
            | inl good ↦
                rw good (moved id _ _ p d _ found (arrives d (current-sending token now d good)))
          ])
  ]

  pub renew_delivery-Follows :
      (id token : String) (now : ℕ) (p : Plane) → Follows c w p (renew_delivery c id token now p).1
  unfolding renew_delivery
  renew_delivery-Follows id token now p = elim (Option-cases (delivery_ref id p)) [
    | inl missing ↦ rw (missing, renew_delivery) here
    | inr (d, found) ↦
        rw (found, renew_delivery)
          (elim (Bool-cases (is_claim_current token now d)) [
            | inr stale ↦ rw stale here
            | inl good ↦ rw good (
                more here (
                  delivers p d _ (own_delivery id d p found)
                    (extends d now (current-sending token now d good))))
          ])
  ]

  pub release_delivery-Follows :
      (id token : String) (p : Plane) → Follows c w p (release_delivery id token p).1
  unfolding release_delivery
  release_delivery-Follows id token p = elim (Option-cases (delivery_ref id p)) [
    | inl missing ↦ rw (missing, release_delivery) here
    | inr (d, found) ↦
        rw (found, release_delivery)
          (elim (Bool-cases (is_claimed token d)) [
            | inr lost ↦ rw lost here
            | inl good ↦
                rw good (moved id _ _ p d _ found (returns d (claimed-sending token d good)))
          ])
  ]

  retry_sending-Follows :
      (reason : String) (now : ℕ) (d : Delivery) (p : Plane)
      → delivery_ref d.id p ≡ some d
      → is_sending d ≡ true
      → Follows c w p (retry_sending c reason now d p).1
  unfolding retry_sending
  retry_sending-Follows reason now d p found on =
      elim (Bool-cases (leb c.max_delivery_attempts (d.attempt_count + 1))) [
        | inl last ↦ rw last (moved d.id _ _ p d _ found (gives_up d _ on (leb→le _ _ last)))
        | inr again ↦ rw again (moved d.id _ _ p d _ found (waits d _ on (ground arith)))
      ]

  pub retry_delivery-Follows :
      (id token error : String) (now : ℕ) (p : Plane)
      → Follows c w p (retry_delivery c id token error now p).1
  unfolding retry_delivery
  retry_delivery-Follows id token error now p = elim (Option-cases (delivery_ref id p)) [
    | inl missing ↦ rw (missing, retry_delivery) here
    | inr (d, found) ↦
        rw (found, retry_delivery)
          (elim (Bool-cases (is_claimed token d)) [
            | inr lost ↦ rw lost here
            | inl good ↦ rw good (
                retry_sending-Follows _ now d p (own_delivery id d p found)
                  (claimed-sending token d good))
          ])
  ]
