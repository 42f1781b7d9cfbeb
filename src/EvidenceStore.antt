-- ===== src/EvidenceStore.antt =====
-- src/causalops/evidence.py: class EvidenceStore and the quotas of the model's context. The dict of
-- records is the list of its values in insertion order, keyed by `evidence_id`.
pub mod Quotas
pub mod Citations
use Prim.Native.String.{compare}
use Prim.Native.Nat.{Ordering, compare as compare_nat}
use causal_ops.Prelude.{
  ℕ, ◌+◌, ◌-◌, String, Bool, true, false, not, Option, none, some, List, [], ◌∷◌, ◌++◌, ltb, leb,
  ◌&&◌, keep_if, any, map, if◌then◌else◌, ◌==◌,
}
use causal_ops.Domain.Codes.{EvidenceKind, symptom, topology, metric, log, change}
use causal_ops.Domain.Receipts.{Evidence}

pub record Store : Type 0 where
  pub incident_id : String
  pub records : List Evidence

-- `derive_context_quotas(executed_tools)[kind]`
unfoldable pub quota : ℕ → EvidenceKind → ℕ
quota executed_tools symptom = 2
quota executed_tools topology = 2
quota executed_tools _ = executed_tools + 1

-- `self.records[evidence.evidence_id] = evidence`
unfoldable pub put : Evidence → List Evidence → List Evidence
put e [] = e ∷ []
put e (x ∷ xs) = let rest = put e xs in if x.evidence_id == e.evidence_id then e ∷ xs else x ∷ rest

-- `none` is the `ValueError` on evidence of another incident.
unfoldable pub add : Evidence → Store → Option Store
add e s =
    if e.incident_id == s.incident_id then some (record s { records = put e s.records }) else none

unfoldable pub add_all : List Evidence → Store → Option Store
add_all [] s = some s
add_all (e ∷ es) s = elim (add e s) [ none ↦ none | some s' ↦ add_all es s' ]

-- `cited_id in self.records`
unfoldable pub knows : List Evidence → String → Bool
knows records id = any (λ e. e.evidence_id == id) records

unfoldable pub unknown_ids : List String → Store → List String
unknown_ids cited s = keep_if (λ id. not (knows s.records id)) cited

-- The order of the `StrEnum` values: CHANGE, LOG, METRIC, SYMPTOM, TOPOLOGY.
abbrev pub rank : EvidenceKind → ℕ
rank change = 0
rank log = 1
rank metric = 2
rank symptom = 3
rank topology = 4

abbrev pub text_le : String → String → Bool
text_le a b = elim (compare a b) [ Ordering.gt ↦ false | _ ↦ true ]

-- Not after, by the key `(observed_at, kind, evidence_id)`.
unfoldable pub key_le : Evidence → Evidence → Bool
key_le a b = elim (compare_nat a.observed_at b.observed_at) [
  | Ordering.lt ↦ true
  | Ordering.gt ↦ false
  | Ordering.eq ↦ elim (compare_nat (rank a.kind) (rank b.kind)) [
    | Ordering.lt ↦ true
    | Ordering.gt ↦ false
    | Ordering.eq ↦ text_le a.evidence_id b.evidence_id
  ]
]

-- `sorted`, which is stable: each element, from the last to the first, goes before those that it is
-- not after.
unfoldable pub place : Evidence → List Evidence → List Evidence
place e [] = e ∷ []
place e (x ∷ xs) = let rest = place e xs in if key_le e x then e ∷ x ∷ xs else x ∷ rest

unfoldable pub sorted : List Evidence → List Evidence
sorted [] = []
sorted (x ∷ xs) = place x (sorted xs)

unfoldable pub ordered : Store → List Evidence
ordered s = sorted s.records

abbrev pub same_kind : EvidenceKind → EvidenceKind → Bool
same_kind a b = leb (rank a) (rank b) && leb (rank b) (rank a)

-- The dict `used`, or `dropped`: how often each kind was met.
abbrev pub Tally : Type 0
Tally = EvidenceKind → ℕ

abbrev pub bump : EvidenceKind → Tally → Tally
bump k t j = if same_kind k j then t j + 1 else t j

-- The loop of `context_evidence`: what is kept, and how many of each kind are left out.
unfoldable pub select : (EvidenceKind → ℕ) → List Evidence → Tally → Tally → List Evidence × Tally
select quotas [] used dropped = ([], dropped)
select quotas (x ∷ xs) used dropped =
    let keep = select quotas xs (bump x.kind used) dropped in
    let skip = select quotas xs used (bump x.kind dropped) in
    if ltb (used x.kind) (quotas x.kind) then (x ∷ keep.0, keep.1) else skip

abbrev pub zero_tally : Tally
zero_tally _ = 0

-- A marker `[truncated: count more kind records omitted]`
pub record Marker : Type 0 where
  pub kind : EvidenceKind
  pub omitted : ℕ

abbrev pub markers : Tally → List Marker
markers t =
    map (λ k. record { kind = k; omitted = t k })
      (keep_if (λ k. ltb 0 (t k)) (change ∷ log ∷ metric ∷ symptom ∷ topology ∷ []))

unfoldable pub context_evidence : (EvidenceKind → ℕ) → Store → List Evidence × List Marker
context_evidence quotas s =
    let (kept, dropped) = select quotas (ordered s) zero_tally zero_tally in (kept, markers dropped)
