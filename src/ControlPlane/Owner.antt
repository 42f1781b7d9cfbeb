-- ===== src/ControlPlane/Owner.antt =====
-- What an owner may ask of the control plane: `create`, `status`, `events`, `decide` and `report` of
-- src/causalops/firestore_control_plane.py.
use causal_ops.Prelude.{
  ℕ, String, Bool, true, false, Option, none, some, List, [], ◌∷◌, ◌&&◌, not, leb, length,
  if◌then◌else◌, ◌==◌, Result, ok, raised, ◌>>=◌,
}
use causal_ops.Text.{is_empty_text}
use causal_ops.Approvals.{OwnerDecision, owner_decision, decision_text, same_decision}
use causal_ops.ControlPlane.Documents.{sort_by}
use causal_ops.ControlPlane.{
  ScenarioFamily, development, InvestigationView, queued, flag, word, TimelineEvent, Job,
  StoredDecision, Plane, Platform, Fault, conflict, integrity, bad_value, decision_ref, set_job,
  set_decision, stream_events, event, view, owned,
}

-- The first job of the owner with the idempotency key
unfoldable pub find_request : String → String → List Job → Option Job
find_request owner_email key [] = none
find_request owner_email key (j ∷ js) =
    let rest = find_request owner_email key js in
    if j.owner == owner_email && j.idempotency_key == key then some j else rest

abbrev pub new_job : String → ℕ → String → ScenarioFamily → String → Job
new_job id sequence owner_email family key = record {
  id = id;
  sequence = sequence;
  owner = owner_email;
  status = "QUEUED";
  scenario_family = family;
  seed = development;
  idempotency_key = key;
  checkpoint_id = none;
  incident_id = none;
  report_artifact = none;
  report_content = none;
  report_sha256 = none;
  attempt_count = 0;
  available_at = 0;
  failure_reason = none;
  claim_token = none;
  claim_expires_at = none;
}

-- `id` is the new `uuid4().hex`.
unfoldable pub create :
    String → ScenarioFamily → String → String → Plane → Result Fault InvestigationView × Plane
create owner_email family key id p = elim (find_request owner_email key p.jobs) [
  | some j ↦ (view j, p)
  | none ↦ (
    ok (record { investigation_id = id; status = queued }),
    event id "investigation_queued" (("replay_only", flag true) ∷ [])
        (set_job (new_job id (length p.jobs) owner_email family key) p),
  )
]

unfoldable pub status : String → String → Plane → Result Fault InvestigationView
status owner_email id p = owned id owner_email p >>= view

unfoldable pub events : String → String → Plane → Result Fault (List TimelineEvent)
events owner_email id p = owned id owner_email p >>= λ _.
    ok (sort_by (λ a b. leb a.ordinal b.ordinal) (stream_events id p))

-- `not checkpoint_id`, for one that may be missing
unfoldable pub is_unset : Option String → Bool
is_unset none = true
is_unset (some text) = is_empty_text text

unfoldable pub is_text : Option String → String → Bool
is_text none text = false
is_text (some held) text = held == text

-- The branch of `decide` where a decision is on record
unfoldable pub decide_again :
    Job → StoredDecision → OwnerDecision → Plane → Result Fault InvestigationView
decide_again j prior decision p = elim (owner_decision prior.decision prior.rejection_note) [
  | none ↦ raised (bad_value "stored owner decision is invalid")
  | some prior_decision ↦
      if is_unset j.checkpoint_id
      then raised (integrity "decision record has no paused checkpoint")
      else if not (is_text j.checkpoint_id prior.checkpoint_id)
      then raised (integrity "decision record belongs to a different checkpoint")
      else if not (same_decision prior_decision decision)
      then raised (conflict "a different owner decision is recorded")
      else view j
]

abbrev pub stored_decision : String → String → OwnerDecision → StoredDecision
stored_decision id checkpoint_id d = record {
  investigation_id = id;
  checkpoint_id = checkpoint_id;
  decision = decision_text d.decision;
  rejection_note = d.rejection_note;
}

-- The commit of a new decision
abbrev pub decided : Job → String → OwnerDecision → Plane → Plane
decided j checkpoint_id d p =
    event j.id "owner_decision_recorded"
      (("checkpoint_id", word checkpoint_id) ∷ ("decision", word (decision_text d.decision)) ∷ [])
      (set_job (record j { status = "QUEUED" })
        (set_decision (stored_decision j.id checkpoint_id d) p))

-- The branch of `decide` where none is
unfoldable pub decide_first : Job → OwnerDecision → Plane → Result Fault InvestigationView × Plane
decide_first j decision p =
    if not (j.status == "PAUSED_APPROVAL")
    then (raised (conflict "investigation is not waiting for a decision"), p)
    else elim j.checkpoint_id [
      | none ↦ (raised (integrity "paused investigation has no checkpoint"), p)
      | some checkpoint_id ↦
          if is_empty_text checkpoint_id
          then (raised (integrity "paused investigation has no checkpoint"), p)
          else (
            ok (record { investigation_id = j.id; status = queued }),
            decided j checkpoint_id decision p,
          )
    ]

unfoldable pub decide :
    String → String → OwnerDecision → Plane → Result Fault InvestigationView × Plane
decide owner_email id decision p = elim (owned id owner_email p) [
  | raised e ↦ (raised e, p)
  | ok j ↦ elim (decision_ref id p) [
    | some prior ↦ (decide_again j prior decision p, p)
    | none ↦ decide_first j decision p
  ]
]

-- `report`, from its own check of the stored snapshot on
unfoldable pub snapshot :
    Platform → String → Option String → Option String → Option String → Result Fault String
snapshot w id (some artifact) (some content) (some sha256) =
    if is_empty_text artifact
    then raised (integrity "finalized investigation has no report artifact")
    else if not (w.is_own_report id artifact)
    then raised (integrity "finalized investigation report is unavailable")
    else if w.sha256 content == sha256
    then ok content
    else raised (integrity "finalized investigation report is corrupt")
snapshot w id none content sha256 =
    raised (integrity "finalized investigation has no report artifact")
snapshot w id (some artifact) content sha256 =
    if is_empty_text artifact
    then raised (integrity "finalized investigation has no report artifact")
    else raised (integrity "finalized investigation has no report snapshot")

unfoldable pub report : Platform → String → String → Plane → Result Fault String
report w owner_email id p = owned id owner_email p >>= λ j.
    if j.status == "COMPLETED"
    then snapshot w id j.report_artifact j.report_content j.report_sha256
    else raised (conflict "report is not finalized")
