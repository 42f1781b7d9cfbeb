-- ===== src/ControlPlane/Worker.antt =====
-- What the holder of a claim may do with its job: `renew_running`, `reserve_incident`, `mark_paused`,
-- `requeue_running`, `retry_running` and `finalize` of src/causalops/firestore_control_plane.py, and the
-- two look-ups of incidents. `finalize` reads the report's file: its text is an argument, none where
-- the read raises.
use causal_ops.Prelude.{
  ℕ, ◌+◌, String, Bool, true, false, Option, none, some, is_some, List, [], ◌∷◌, leb, length,
  if◌then◌else◌, ◌==◌, Result, ok, raised,
}
use causal_ops.Text.{is_blank}
use causal_ops.ControlPlane.{
  InvestigationStatus, failed_safe, investigation_status, word, number, Job, Delivery, Plane,
  Config, Platform, Fault, not_found, conflict, integrity, bad_value, job_ref, set_job,
  set_delivery, event, retry_delay, is_held, is_current,
}
use causal_ops.ControlPlane.Claims.{failed, deferred}
use causal_ops.ControlPlane.Owner.{is_text}
use Prim.Native.String.{◌++◌ as ◌+++◌}

abbrev no_claim : Fault
no_claim = conflict "investigation claim is no longer current"

abbrev pub renewed : Config → ℕ → Job → Job
renewed c now j = record j { claim_expires_at = some (now + c.claim_lease_seconds) }

unfoldable pub renew_running : Config → String → String → ℕ → Plane → Result Fault Unit × Plane
renew_running c id token now p = elim (job_ref id p) [
  | none ↦ (raised no_claim, p)
  | some j ↦
      if is_current token now j then (ok tt, set_job (renewed c now j) p) else (raised no_claim, p)
]

abbrev pub reserved : String → Job → Plane → Plane
reserved incident_id j p =
    event j.id "scenario_reserved" (("incident_id", word incident_id) ∷ [])
      (set_job (record j { incident_id = some incident_id }) p)

-- The incident that the job holds, or a new one
unfoldable pub incident_of : Platform → String → Job → Plane → Result Fault String × Plane
incident_of w incident_id j p = elim j.incident_id [
  | none ↦ (ok incident_id, reserved incident_id j p)
  | some held ↦
      if w.is_alnum held
      then (ok held, p)
      else (raised (integrity "stored incident id is invalid"), p)
]

unfoldable pub reserve_incident :
    Platform → String → String → ℕ → Plane → Result Fault String × Plane
reserve_incident w id token now p = elim (job_ref id p) [
  | none ↦ (raised (not_found "investigation not found"), p)
  | some j ↦
      if is_current token now j then incident_of w ("scenario" +++ id) j p else (raised no_claim, p)
]

-- The first job with the incident
unfoldable pub find_incident : String → List Job → Option Job
find_incident incident_id [] = none
find_incident incident_id (j ∷ js) =
    let rest = find_incident incident_id js in
    if is_text j.incident_id incident_id then some j else rest

unfoldable pub scenario_status : String → Plane → Result Fault (Option InvestigationStatus)
scenario_status incident_id p = elim (find_incident incident_id p.jobs) [
  | none ↦ ok none
  | some j ↦
      if is_some j.failure_reason
      then ok (some failed_safe)
      else elim (investigation_status j.status) [
        | none ↦ raised (integrity "invalid stored investigation status")
        | some s ↦ ok (some s)
      ]
]

unfoldable pub incident_id_for : Platform → String → Plane → Result Fault (Option String)
incident_id_for w id p = elim (job_ref id p) [
  | none ↦ raised (not_found "investigation not found")
  | some j ↦ elim j.incident_id [
    | none ↦ ok none
    | some held ↦
        if w.is_alnum held
        then ok (some held)
        else raised (integrity "stored incident id is invalid")
  ]
]

abbrev pub paused : String → Job → Job
paused checkpoint_id j = record j {
  status = "PAUSED_APPROVAL";
  checkpoint_id = some checkpoint_id;
  claim_token = none;
  claim_expires_at = none;
}

unfoldable pub mark_paused : String → String → String → ℕ → Plane → Result Fault Unit × Plane
mark_paused id checkpoint_id token now p =
    if is_blank checkpoint_id
    then (raised (bad_value "checkpoint_id must not be blank"), p)
    else elim (job_ref id p) [
      | none ↦ (raised (not_found "investigation not found"), p)
      | some j ↦
          if is_current token now j
          then (
            ok tt,
            event j.id "owner_decision_requested" (("checkpoint_id", word checkpoint_id) ∷ [])
                (set_job (paused checkpoint_id j) p),
          )
          else (raised no_claim, p)
    ]

abbrev pub requeued : Job → Job
requeued j = record j { status = "QUEUED"; claim_token = none; claim_expires_at = none }

unfoldable pub requeue_running : String → String → Plane → Result Fault Unit × Plane
requeue_running id token p = elim (job_ref id p) [
  | none ↦ (raised (conflict "only a running investigation may be requeued"), p)
  | some j ↦
      if is_held token j
      then (ok tt, event j.id "investigation_requeued" [] (set_job (requeued j) p))
      else (raised (conflict "only a running investigation may be requeued"), p)
]

-- The two ends of `retry_running`; `reason` is "retry_limit:" with the name of the error's type.
unfoldable pub retry_job : Config → String → ℕ → Job → Plane → Result Fault Bool × Plane
retry_job c reason now j p =
    let attempt = j.attempt_count + 1 in
    let retry_at = now + retry_delay c attempt in
    if leb c.max_replay_attempts attempt
    then (
      ok false,
      event j.id "investigation_failed" (("attempt_count", number attempt) ∷ [])
          (set_job (failed attempt reason j) p),
    )
    else (
      ok true,
      event j.id "investigation_retry_scheduled"
          (("attempt_count", number attempt) ∷ ("retry_at", number retry_at) ∷ [])
          (set_job (deferred attempt retry_at j) p),
    )

unfoldable pub retry_running :
    Config → String → String → String → ℕ → Plane → Result Fault Bool × Plane
retry_running c id token error now p = elim (job_ref id p) [
  | none ↦ (raised (not_found "investigation not found"), p)
  | some j ↦
      if is_held token j
      then retry_job c ("retry_limit:" +++ error) now j p
      else (raised (conflict "only a running investigation may be retried"), p)
]

-- `read_report_snapshot`: the artifact must be the investigation's own report, and its file readable.
unfoldable pub read_report_snapshot : Platform → String → String → Option String → Option String
read_report_snapshot w id artifact text = if w.is_own_report id artifact then text else none

abbrev pub finalized : Platform → String → String → Job → Job
finalized w artifact content j = record j {
  status = "COMPLETED";
  report_artifact = some artifact;
  report_content = some content;
  report_sha256 = some (w.sha256 content);
  claim_token = none;
  claim_expires_at = none;
}

abbrev pub new_delivery : String → ℕ → String → Delivery
new_delivery id sequence destination_email = record {
  id = id;
  sequence = sequence;
  destination_email = destination_email;
  status = "PENDING";
  claim_token = none;
  claim_expires_at = none;
  attempt_count = 0;
  available_at = 0;
  failure_reason = none;
}

-- The commit of `finalize`
abbrev pub delivered_to_outbox : Job → Job → Plane → Plane
delivered_to_outbox j done p =
    event j.id "report_finalized" []
      (set_delivery (new_delivery j.id (length p.deliveries) j.owner) (set_job done p))

unfoldable pub finalize :
    Platform → String → String → String → Option String → ℕ → Plane → Result Fault Unit × Plane
finalize w id artifact token text now p =
    if is_blank artifact
    then (raised (bad_value "report_artifact must not be blank"), p)
    else elim (job_ref id p) [
      | none ↦ (raised (not_found "investigation not found"), p)
      | some j ↦
          if j.status == "COMPLETED"
          then (raised (conflict "investigation is already finalized"), p)
          else if is_current token now j
          then elim (read_report_snapshot w id artifact text) [
            | none ↦ (raised (bad_value "report snapshot is unavailable"), p)
            | some content ↦ (ok tt, delivered_to_outbox j (finalized w artifact content j) p)
          ]
          else (raised no_claim, p)
    ]
