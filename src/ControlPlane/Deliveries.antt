-- ===== src/ControlPlane/Deliveries.antt =====
-- The outbox of finalized reports: `_reclaim_expired_deliveries`, `claim_delivery`, `mark_delivered`,
-- `renew_delivery`, `release_delivery` and `retry_delivery` of
-- src/causalops/firestore_control_plane.py.
use Prim.Native.String.{◌++◌}
use causal_ops.Prelude.{
  ℕ, ◌+◌, String, Bool, true, false, not, Option, none, some, is_none, List, [], ◌∷◌, ◌&&◌, ltb,
  leb, keep_if, if◌then◌else◌, ◌==◌, Result, ok, raised,
}
use causal_ops.ControlPlane.Documents.{sort_by}
use causal_ops.ControlPlane.{
  InvestigationStatus, investigation_status, number, Job, Delivery, Plane, Config, Fault, not_found,
  conflict, integrity, bad_value, job_ref, delivery_ref, set_delivery, event, retry_delay, token_is,
  is_unexpired, is_expired,
}

pub record DeliveryClaim : Type 0 where
  pub investigation_id : String
  pub status : InvestigationStatus
  pub report_artifact : String
  pub report_content : String
  pub report_sha256 : String
  pub destination_email : String
  pub delivery_id : String
  pub claim_token : String

unfoldable pub is_sending : Delivery → Bool
is_sending d = d.status == "SENDING"

-- A delivery in sending that this token holds.
unfoldable pub is_claimed : String → Delivery → Bool
is_claimed token d = is_sending d && token_is d.claim_token token

unfoldable pub is_claim_current : String → ℕ → Delivery → Bool
is_claim_current token now d = is_claimed token d && is_unexpired d.claim_expires_at now

abbrev pub failed_delivery : ℕ → String → Delivery → Delivery
failed_delivery attempt reason d = record d {
  status = "PENDING";
  claim_token = none;
  claim_expires_at = none;
  attempt_count = attempt;
  failure_reason = some reason;
}

abbrev pub deferred_delivery : ℕ → ℕ → Delivery → Delivery
deferred_delivery attempt retry_at d = record d {
  status = "PENDING";
  claim_token = none;
  claim_expires_at = none;
  attempt_count = attempt;
  available_at = retry_at;
}

-- One turn of the loop of `_reclaim_expired_deliveries`
unfoldable pub reclaim_delivery : Config → ℕ → Delivery → Plane → Plane
reclaim_delivery c now d p =
    let attempt = d.attempt_count + 1 in
    let retry_at = now + retry_delay c attempt in
    if not (is_expired d.claim_expires_at now)
    then p
    else if leb c.max_delivery_attempts attempt
    then event d.id "report_delivery_failed" (("attempt_count", number attempt) ∷ [])
        (set_delivery (failed_delivery attempt "retry_limit:lease_expired" d) p)
    else event d.id "report_delivery_lease_expired"
        (("attempt_count", number attempt) ∷ ("retry_at", number retry_at) ∷ [])
        (set_delivery (deferred_delivery attempt retry_at d) p)

unfoldable pub reclaim_each_delivery : Config → ℕ → List Delivery → Plane → Plane
reclaim_each_delivery c now [] p = p
reclaim_each_delivery c now (d ∷ ds) p = reclaim_each_delivery c now ds (reclaim_delivery c now d p)

unfoldable pub reclaim_expired_deliveries : Config → ℕ → Plane → Plane
reclaim_expired_deliveries c now p = reclaim_each_delivery c now (keep_if is_sending p.deliveries) p

unfoldable pub is_pending : ℕ → Delivery → Bool
is_pending now d = d.status == "PENDING" && is_none d.failure_reason && leb d.available_at now

-- The order of the keys (`available_at`, `sequence`)
unfoldable pub is_sent_before : Delivery → Delivery → Bool
is_sent_before a b =
    if ltb a.available_at b.available_at
    then true
    else leb a.available_at b.available_at && leb a.sequence b.sequence

unfoldable pub pending : ℕ → Plane → List Delivery
pending now p = sort_by is_sent_before (keep_if (is_pending now) p.deliveries)

abbrev pub sending : Config → String → ℕ → Delivery → Delivery
sending c token now d = record d {
  status = "SENDING";
  claim_token = some token;
  claim_expires_at = some (now + c.claim_lease_seconds);
}

abbrev invalid_job : Fault
invalid_job = bad_value "the delivery's investigation is no delivery claim"

-- `DeliveryClaim(...)`, which requires a known status and the three texts of the report
unfoldable pub delivery_claim : Job → Delivery → String → Result Fault DeliveryClaim
delivery_claim j d token = elim (investigation_status j.status) [
  | none ↦ raised invalid_job
  | some s ↦ elim j.report_artifact [
    | none ↦ raised invalid_job
    | some artifact ↦ elim j.report_content [
      | none ↦ raised invalid_job
      | some content ↦ elim j.report_sha256 [
        | none ↦ raised invalid_job
        | some sha256 ↦ ok (record {
          investigation_id = d.id;
          status = s;
          report_artifact = artifact;
          report_content = content;
          report_sha256 = sha256;
          destination_email = d.destination_email;
          delivery_id = d.id;
          claim_token = token;
        })
      ]
    ]
  ]
]

-- `claim_delivery`, from the choice of the delivery on
unfoldable pub send :
    Config → String → ℕ → Delivery → Plane → Result Fault (Option DeliveryClaim) × Plane
send c token now d p = elim (job_ref d.id p) [
  | none ↦ (raised (integrity "delivery references a missing investigation"), p)
  | some j ↦ elim (delivery_claim j d token) [
    | raised e ↦ (raised e, set_delivery (sending c token now d) p)
    | ok claim ↦ (ok (some claim), set_delivery (sending c token now d) p)
  ]
]

-- `claim_delivery`, from the test for candidates on
unfoldable pub send_first :
    Config → String → ℕ → List Delivery → Plane → Result Fault (Option DeliveryClaim) × Plane
send_first c token now [] p = (ok none, p)
send_first c token now (d ∷ _) p = send c token now d p

unfoldable pub claim_delivery :
    Config → String → ℕ → Plane → Result Fault (Option DeliveryClaim) × Plane
claim_delivery c token now p =
    let reclaimed = reclaim_expired_deliveries c now p in
    send_first c token now (pending now reclaimed) reclaimed

abbrev not_claimed : Fault
not_claimed = conflict "delivery is not currently claimed"

abbrev pub sent : Delivery → Delivery
sent d = record d { status = "SENT"; claim_token = none; claim_expires_at = none }

unfoldable pub mark_delivered : String → String → ℕ → Plane → Result Fault Unit × Plane
mark_delivered id token now p = elim (delivery_ref id p) [
  | none ↦ (raised not_claimed, p)
  | some d ↦
      if is_claim_current token now d
      then (ok tt, event d.id "report_delivered" [] (set_delivery (sent d) p))
      else (raised not_claimed, p)
]

abbrev pub extended : Config → ℕ → Delivery → Delivery
extended c now d = record d { claim_expires_at = some (now + c.claim_lease_seconds) }

unfoldable pub renew_delivery : Config → String → String → ℕ → Plane → Result Fault Unit × Plane
renew_delivery c id token now p = elim (delivery_ref id p) [
  | none ↦ (raised not_claimed, p)
  | some d ↦
      if is_claim_current token now d
      then (ok tt, set_delivery (extended c now d) p)
      else (raised not_claimed, p)
]

abbrev pub released : Delivery → Delivery
released d = record d { status = "PENDING"; claim_token = none; claim_expires_at = none }

unfoldable pub release_delivery : String → String → Plane → Result Fault Unit × Plane
release_delivery id token p = elim (delivery_ref id p) [
  | none ↦ (raised not_claimed, p)
  | some d ↦
      if is_claimed token d
      then (ok tt, event d.id "report_delivery_requeued" [] (set_delivery (released d) p))
      else (raised not_claimed, p)
]

-- The two ends of `retry_delivery`; `reason` is "retry_limit:" with the name of the error's type.
unfoldable pub retry_sending : Config → String → ℕ → Delivery → Plane → Result Fault Bool × Plane
retry_sending c reason now d p =
    let attempt = d.attempt_count + 1 in
    let retry_at = now + retry_delay c attempt in
    if leb c.max_delivery_attempts attempt
    then (
      ok false,
      event d.id "report_delivery_failed" (("attempt_count", number attempt) ∷ [])
          (set_delivery (failed_delivery attempt reason d) p),
    )
    else (
      ok true,
      event d.id "report_delivery_retry_scheduled"
          (("attempt_count", number attempt) ∷ ("retry_at", number retry_at) ∷ [])
          (set_delivery (deferred_delivery attempt retry_at d) p),
    )

unfoldable pub retry_delivery :
    Config → String → String → String → ℕ → Plane → Result Fault Bool × Plane
retry_delivery c id token error now p = elim (delivery_ref id p) [
  | none ↦ (raised (not_found "report delivery not found"), p)
  | some d ↦
      if is_claimed token d
      then retry_sending c ("retry_limit:" ++ error) now d p
      else (raised not_claimed, p)
]
