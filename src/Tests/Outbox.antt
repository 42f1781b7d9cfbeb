-- ===== src/Tests/Outbox.antt =====
-- The control plane's outbox (class FirestoreReplayControlPlane of
-- src/causalops/firestore_control_plane.py).
use causal_ops.Prelude.{◌≡◌, refl, some, ok}
use causal_ops.Text.{is_blank, is_space}
use causal_ops.ControlPlane.Documents.{fetch, store, insert_by, sort_by}
use causal_ops.ControlPlane.{
  completed, investigation_status, event, is_running, is_held, is_current, token_is, is_unexpired,
}
use causal_ops.ControlPlane.Owner.{find_request, create, report}
use causal_ops.ControlPlane.Claims.{
  reclaim_each, reclaim_expired_investigations, is_queued, holds_scenario, is_due, goes_before,
  candidates, read_decision, claim_row, claim_first, claim_queued, claim_next,
}
use causal_ops.ControlPlane.Worker.{finalize, read_report_snapshot}
use causal_ops.ControlPlane.Deliveries.{
  DeliveryClaim, is_sending, reclaim_each_delivery, reclaim_expired_deliveries, is_pending,
  is_sent_before, pending, delivery_claim, send, send_first, claim_delivery,
}
use causal_ops.ControlPlane.Requests.{perform, perform_all}
use causal_ops.ControlPlane.Requests.Sending.{report-claim_delivery}
use causal_ops.Tests.Planes.{config, platform, valid_config, finished, finished-IsWellFormed}

abbrev handed_over : DeliveryClaim
handed_over = record {
  investigation_id = "j1";
  status = completed;
  report_artifact = "j1/report.md";
  report_content = "the report";
  report_sha256 = "digest of the report";
  destination_email = "ada";
  delivery_id = "j1";
  claim_token = "d1";
}

delivery_answered : (claim_delivery config "d1" 300 finished).0 ≡ ok (some handed_over)
unfolding fetch store insert_by sort_by event find_request create is_running reclaim_each
    reclaim_expired_investigations is_queued holds_scenario is_due goes_before candidates
    read_decision claim_row claim_first claim_queued claim_next perform perform_all finalize
    read_report_snapshot is_held is_current token_is is_unexpired is_blank is_space
    investigation_status is_sending reclaim_each_delivery reclaim_expired_deliveries is_pending
    is_sent_before pending delivery_claim send send_first claim_delivery
delivery_answered = refl

report-claim_delivery_example :
    (completed ≡ completed)
    × (report platform "ada" "j1" (claim_delivery config "d1" 300 finished).1 ≡ ok "the report")
report-claim_delivery_example =
    report-claim_delivery config platform "d1" 300 finished handed_over valid_config
      finished-IsWellFormed delivery_answered
