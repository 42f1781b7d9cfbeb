-- ===== src/ControlPlane.antt =====
-- The job queue and delivery outbox of the HTTP service (class FirestoreReplayControlPlane of
-- src/causalops/firestore_control_plane.py, with the types of src/causalops/api.py). A collection is the
-- list of its documents. An operation holds the lock throughout, so that it is one step of the plane; it
-- answers or raises, and leaves the plane as it is then. Clock readings and new ids (`uuid4`) are
-- arguments; times are whole seconds.
pub mod Documents
pub mod Owner
pub mod Claims
pub mod Worker
pub mod Deliveries
pub mod Diagram
pub mod Requests
use Prim.Native.Nat.{◌^◌}
use causal_ops.Prelude.{
  ℕ, ◌+◌, ◌-◌, ◌*◌, min, String, Bool, true, false, not, Option, none, some, is_none, is_some, List,
  [], ◌∷◌, ◌&&◌, ◌||◌, ltb, leb, length, if◌then◌else◌, ◌==◌, Result, ok, raised,
}
use causal_ops.Approvals.{OwnerDecision}
use causal_ops.ControlPlane.Documents.{fetch, store}

pub data ScenarioFamily : Type 0 where
  configuration_change downstream_timeout_retry_amplification : ScenarioFamily
  resource_pool_saturation ambiguous_telemetry : ScenarioFamily

pub data ReplaySeed : Type 0 where
  development : ReplaySeed

pub data InvestigationStatus : Type 0 where
  queued running paused_approval completed failed_safe : InvestigationStatus

-- `InvestigationStatus(text)`; `none` is its `ValueError`.
unfoldable pub investigation_status : String → Option InvestigationStatus
investigation_status text =
    if text == "QUEUED"
    then some queued
    else if text == "RUNNING"
    then some running
    else if text == "PAUSED_APPROVAL"
    then some paused_approval
    else if text == "COMPLETED"
    then some completed
    else if text == "FAILED_SAFE"
    then some failed_safe
    else none

pub record InvestigationView : Type 0 where
  pub investigation_id : String
  pub status : InvestigationStatus

-- A value among an event's `fields`
pub data FieldValue : Type 0 where
  flag : Bool → FieldValue
  number : ℕ → FieldValue
  word : String → FieldValue

pub record TimelineEvent : Type 0 where
  pub ordinal : ℕ
  pub name : String
  pub fields : List (String × FieldValue)

-- A document of the jobs' collection, named by its `id`
pub record Job : Type 0 where
  pub id : String
  pub sequence : ℕ
  pub owner : String
  pub status : String
  pub scenario_family : ScenarioFamily
  pub seed : ReplaySeed
  pub idempotency_key : String
  pub checkpoint_id : Option String
  pub incident_id : Option String
  pub report_artifact : Option String
  pub report_content : Option String
  pub report_sha256 : Option String
  pub attempt_count : ℕ
  pub available_at : ℕ
  pub failure_reason : Option String
  pub claim_token : Option String
  pub claim_expires_at : Option ℕ

-- A document of the deliveries' collection, named by its `id`
pub record Delivery : Type 0 where
  pub id : String
  pub sequence : ℕ
  pub destination_email : String
  pub status : String
  pub claim_token : Option String
  pub claim_expires_at : Option ℕ
  pub attempt_count : ℕ
  pub available_at : ℕ
  pub failure_reason : Option String

-- A document of the decisions' collection, with the investigation that names it
pub record StoredDecision : Type 0 where
  pub investigation_id : String
  pub checkpoint_id : String
  pub decision : String
  pub rejection_note : Option String

-- The events below one job, in the order of their names, with the job's name
pub record Timeline : Type 0 where
  pub investigation_id : String
  pub events : List TimelineEvent

pub record Plane : Type 0 where
  pub jobs : List Job
  pub deliveries : List Delivery
  pub decisions : List StoredDecision
  pub timelines : List Timeline

-- The constructor's settings, which are positive
pub record Config : Type 0 where
  pub claim_lease_seconds : ℕ
  pub retry_base_seconds : ℕ
  pub max_replay_attempts : ℕ
  pub max_delivery_attempts : ℕ

-- Python's own: `hashlib.sha256(text.encode("utf-8")).hexdigest()`, `text.isalnum()` and whether
-- `Path(artifact) == Path(investigation_id) / "report.md"` and stays below the root.
pub record Platform : Type 0 where
  pub sha256 : String → String
  pub is_alnum : String → Bool
  pub is_own_report : String → String → Bool

-- What an operation raises: ControlPlaneNotFoundError, ControlPlaneConflictError,
-- ControlPlaneIntegrityError, and ValueError
pub data Fault : Type 0 where
  not_found conflict integrity bad_value : String → Fault

-- `__init__`: `_validate_positive` of the settings
unfoldable pub validate_positive : Config → Bool
validate_positive c =
    ltb 0 c.claim_lease_seconds
    && ltb 0 c.retry_base_seconds
    && ltb 0 c.max_replay_attempts
    && ltb 0 c.max_delivery_attempts

abbrev pub job_ref : String → Plane → Option Job
job_ref id p = fetch (λ j. j.id) id p.jobs

abbrev pub delivery_ref : String → Plane → Option Delivery
delivery_ref id p = fetch (λ d. d.id) id p.deliveries

abbrev pub decision_ref : String → Plane → Option StoredDecision
decision_ref id p = fetch (λ d. d.investigation_id) id p.decisions

abbrev pub set_job : Job → Plane → Plane
set_job j p = record p { jobs = store (λ k. k.id) j p.jobs }

abbrev pub set_delivery : Delivery → Plane → Plane
set_delivery d p = record p { deliveries = store (λ k. k.id) d p.deliveries }

abbrev pub set_decision : StoredDecision → Plane → Plane
set_decision d p = record p { decisions = store (λ k. k.investigation_id) d p.decisions }

abbrev pub events_of : Option Timeline → List TimelineEvent
events_of none = []
events_of (some t) = t.events

-- `_events(investigation_id).stream()`
abbrev pub stream_events : String → Plane → List TimelineEvent
stream_events id p = events_of (fetch (λ t. t.investigation_id) id p.timelines)

-- `_events(investigation_id).document(f"{ordinal:010d}").set(event)`
unfoldable pub set_event : TimelineEvent → List TimelineEvent → List TimelineEvent
set_event new [] = new ∷ []
set_event new (e ∷ es) =
    let rest = set_event new es in
    if ltb new.ordinal e.ordinal
    then new ∷ e ∷ es
    else if leb new.ordinal e.ordinal
    then new ∷ es
    else e ∷ rest

unfoldable pub next_event_ordinal : String → Plane → ℕ
next_event_ordinal id p = length (stream_events id p)

-- `_event`, and `_stage_event` at its batch's commit
unfoldable pub event : String → String → List (String × FieldValue) → Plane → Plane
event id name fields p =
    let new : TimelineEvent = record {
      ordinal = next_event_ordinal id p;
      name = name;
      fields = fields;
    } in
    let line : Timeline = record {
      investigation_id = id;
      events = set_event new (stream_events id p);
    } in
    record p { timelines = store (λ t. t.investigation_id) line p.timelines }

-- `_view`
unfoldable pub view : Job → Result Fault InvestigationView
view j =
    if is_some j.failure_reason
    then ok (record { investigation_id = j.id; status = failed_safe })
    else elim (investigation_status j.status) [
      | none ↦ raised (integrity "invalid stored investigation status")
      | some s ↦ ok (record { investigation_id = j.id; status = s })
    ]

-- `_owned`
unfoldable pub owned : String → String → Plane → Result Fault Job
owned id owner_email p = elim (job_ref id p) [
  | none ↦ raised (not_found "investigation not found")
  | some j ↦ if j.owner == owner_email then ok j else raised (not_found "investigation not found")
]

-- `_retry_delay`
unfoldable pub retry_delay : Config → ℕ → ℕ
retry_delay c attempt = min (c.retry_base_seconds * 2 ^ (attempt - 1)) 3600

-- `data.get("claim_token") == claim_token`
unfoldable pub token_is : Option String → String → Bool
token_is none token = false
token_is (some held) token = held == token

-- `expires_at is not None and expires_at > now`
unfoldable pub is_unexpired : Option ℕ → ℕ → Bool
is_unexpired none now = false
is_unexpired (some expires_at) now = ltb now expires_at

-- `expires_at is not None and expires_at <= now`
unfoldable pub is_expired : Option ℕ → ℕ → Bool
is_expired none now = false
is_expired (some expires_at) now = leb expires_at now

unfoldable pub is_running : Job → Bool
is_running j = j.status == "RUNNING"

-- A running job that this token holds.
unfoldable pub is_held : String → Job → Bool
is_held token j = is_running j && token_is j.claim_token token

-- The same, with a lease that has not run out.
unfoldable pub is_current : String → ℕ → Job → Bool
is_current token now j = is_held token j && is_unexpired j.claim_expires_at now
