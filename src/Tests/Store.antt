-- ===== src/Tests/Store.antt =====
-- The evidence store (src/causalops/evidence.py).
use causal_ops.Prelude.{◌+◌, ◌≡◌, refl, String, [], ◌∷◌, min, List, ltb, if◌then◌else◌}
use causal_ops.Domain.Codes.{metric}
use causal_ops.Domain.Receipts.{Evidence}
use causal_ops.EvidenceStore.{
  Store, quota, knows, unknown_ids, ordered, sorted, place, key_le, context_evidence,
}
use causal_ops.EvidenceStore.Quotas.{count_kind, omitted_of, markers_of, context_keeps_quota}
use causal_ops.Tests.Samples.{two_records, metric_evidence, symptom_evidence}

abbrev citations : List String
citations = "ev_1" ∷ "ev_9" ∷ []

abbrev third : Evidence
third = record metric_evidence { evidence_id = "ev_3" }

abbrev three_records : Store
three_records = record two_records { records = symptom_evidence ∷ metric_evidence ∷ third ∷ [] }

-- One of the two metrics has no room.
context_keeps_quota_example :
    (count_kind metric (context_evidence (quota 0) three_records).0
      ≡ min (quota 0 metric) (count_kind metric three_records.records))
    × (omitted_of metric (context_evidence (quota 0) three_records).1
          + count_kind metric (context_evidence (quota 0) three_records).0
        ≡ count_kind metric three_records.records)
    × (markers_of metric (context_evidence (quota 0) three_records).1
        ≡ (if ltb (quota 0 metric) (count_kind metric three_records.records) then 1 else 0))
context_keeps_quota_example = context_keeps_quota (quota 0) metric three_records

-- Runs of the store.
forged_is_found : unknown_ids citations two_records ≡ "ev_9" ∷ []
unfolding unknown_ids knows
forged_is_found = refl

oldest_first :
    ordered (record two_records { records = metric_evidence ∷ symptom_evidence ∷ [] })
    ≡ symptom_evidence ∷ metric_evidence ∷ []
unfolding ordered sorted place key_le
oldest_first = refl
