-- ===== src/EvidenceStore/Quotas.antt =====
-- What the model's context keeps of the evidence: the first of each kind, up to its quota.
use causal_ops.Prelude.{
  ℕ, ◌+◌, ◌-◌, ◌<◌, ◌≤◌, ◌≡◌, refl, Bool, true, false, List, [], ◌∷◌, arith, Bool-cases, inl, inr,
  ltb, count_if, min, ap, sum_by, map, keep_if, ◌&&◌, if◌then◌else◌,
}
use causal_ops.Domain.Codes.{EvidenceKind, symptom, topology, metric, log, change}
use causal_ops.Domain.Receipts.{Evidence}
use causal_ops.EvidenceStore.{
  Store, same_kind, Tally, bump, select, place, sorted, ordered, key_le, context_evidence,
  zero_tally, Marker, markers,
}

same_kind_eq : (a b : EvidenceKind) → same_kind a b ≡ true → a ≡ b
same_kind_eq change change h = refl
same_kind_eq change log h = cc
same_kind_eq change metric h = cc
same_kind_eq change symptom h = cc
same_kind_eq change topology h = cc
same_kind_eq log change h = cc
same_kind_eq log log h = refl
same_kind_eq log metric h = cc
same_kind_eq log symptom h = cc
same_kind_eq log topology h = cc
same_kind_eq metric change h = cc
same_kind_eq metric log h = cc
same_kind_eq metric metric h = refl
same_kind_eq metric symptom h = cc
same_kind_eq metric topology h = cc
same_kind_eq symptom change h = cc
same_kind_eq symptom log h = cc
same_kind_eq symptom metric h = cc
same_kind_eq symptom symptom h = refl
same_kind_eq symptom topology h = cc
same_kind_eq topology change h = cc
same_kind_eq topology log h = cc
same_kind_eq topology metric h = cc
same_kind_eq topology symptom h = cc
same_kind_eq topology topology h = refl

-- How many there are of a kind.
abbrev pub count_kind : EvidenceKind → List Evidence → ℕ
count_kind k = count_if (λ e. same_kind e.kind k)

-- Sorting keeps the number of elements with any given property.
count_if-place :
    (p : Evidence → Bool) (e : Evidence) (xs : List Evidence)
    → count_if p (place e xs) ≡ count_if p (e ∷ xs)
unfolding place
count_if-place p e [] = refl
count_if-place p e (x ∷ xs) = elim (Bool-cases (key_le e x)) [
  | inl before ↦ rw before refl
  | inr after ↦ rw after (omega (arith, count_if-place p e xs))
]

pub count_if-sorted :
    (p : Evidence → Bool) (xs : List Evidence) → count_if p (sorted xs) ≡ count_if p xs
unfolding sorted
count_if-sorted p [] = refl
count_if-sorted p (x ∷ xs) =
    let step = count_if-place p x (sorted xs) in omega (arith, step, count_if-sorted p xs)

bump_here :
    (j : EvidenceKind) (t : Tally) (k : EvidenceKind) → same_kind j k ≡ true → bump j t k ≡ t k + 1
bump_here j t k h = rw h refl

bump_there :
    (j : EvidenceKind) (t : Tally) (k : EvidenceKind) → same_kind j k ≡ false → bump j t k ≡ t k
bump_there j t k h = rw h refl

module _ (quotas : EvidenceKind → ℕ) (k : EvidenceKind) where
  -- Of one kind, the loop keeps what the quota has left, and counts the rest as dropped.
  select_counts :
      (xs : List Evidence) (used dropped : Tally)
      → (count_kind k (select quotas xs used dropped).0 ≡ min (quotas k - used k) (count_kind k xs))
        × ((select quotas xs used dropped).1 k
            ≡ dropped k + (count_kind k xs - (quotas k - used k)))
  unfolding select
  select_counts [] used dropped = (omega arith, omega arith)
  select_counts (x ∷ xs) used dropped =
      let kept = select_counts xs (bump x.kind used) dropped in
      let skipped = select_counts xs used (bump x.kind dropped) in
      let here : same_kind x.kind k ≡ true → (used x.kind ≡ used k) × (quotas x.kind ≡ quotas k) =
        λ same. (ap used (same_kind_eq x.kind k same), ap quotas (same_kind_eq x.kind k same)) in
      elim (Bool-cases (ltb (used x.kind) (quotas x.kind))) [
        | inl room ↦ elim (Bool-cases (same_kind x.kind k)) [
          | inl same ↦
              let (p, q) = here same in
              let left : used x.kind < quotas x.kind = ground arith in
              rw (room, same) (omega (arith, kept, bump_here x.kind used k same))
          | inr another ↦ rw (room, another) (omega (arith, kept, bump_there x.kind used k another))
        ]
        | inr full ↦ elim (Bool-cases (same_kind x.kind k)) [
          | inl same ↦
              let (p, q) = here same in
              let none_left : quotas x.kind ≤ used x.kind = ground arith in
              rw (full, same) (omega (arith, skipped, bump_here x.kind dropped k same))
          | inr another ↦
              rw (full, another) (omega (arith, skipped, bump_there x.kind dropped k another))
        ]
      ]

-- How many are left out of a kind, by what the markers say
abbrev pub omitted_of : EvidenceKind → List Marker → ℕ
omitted_of k = sum_by (λ m. if same_kind m.kind k then m.omitted else 0)

-- How many markers a kind has
abbrev pub markers_of : EvidenceKind → List Marker → ℕ
markers_of k = count_if (λ m. same_kind m.kind k)

module _ (k : EvidenceKind) (t : Tally) where
  abbrev all_omitted : List EvidenceKind → ℕ
  all_omitted = sum_by (λ j. if same_kind j k then t j else 0)

  abbrev dropped_kinds : List EvidenceKind → ℕ
  dropped_kinds = count_if (λ j. same_kind j k && ltb 0 (t j))

  abbrev marked : List EvidenceKind → List Marker
  marked ks = map (λ j. record { kind = j; omitted = t j }) (keep_if (λ j. ltb 0 (t j)) ks)

  marked_counts :
      (ks : List EvidenceKind)
      → (omitted_of k (marked ks) ≡ all_omitted ks) × (markers_of k (marked ks) ≡ dropped_kinds ks)
  marked_counts [] = (refl, refl)
  marked_counts (j ∷ ks) =
      let (p, q) = marked_counts ks in
      elim (Bool-cases (ltb 0 (t j))) [
        | inl some_left ↦ rw some_left (ground arith, ground arith)
        | inr none_left ↦ rw none_left (ground arith, ground arith)
      ]

abbrev kinds : List EvidenceKind
kinds = change ∷ log ∷ metric ∷ symptom ∷ topology ∷ []

every_kind :
    (k : EvidenceKind) (t : Tally)
    → (omitted_of k (markers t) ≡ t k) × (markers_of k (markers t) ≡ (if ltb 0 (t k) then 1 else 0))
every_kind change t =
    let (p, q) = marked_counts change t kinds in (omega (arith, p), ground (arith, q))
every_kind log t = let (p, q) = marked_counts log t kinds in (omega (arith, p), ground (arith, q))
every_kind metric t =
    let (p, q) = marked_counts metric t kinds in (omega (arith, p), ground (arith, q))
every_kind symptom t =
    let (p, q) = marked_counts symptom t kinds in (omega (arith, p), ground (arith, q))
every_kind topology t =
    let (p, q) = marked_counts topology t kinds in (omega (arith, p), ground (arith, q))

-- Of each kind of evidence, the context of the model holds as many items as the store, up to the quota
-- of the kind. What the markers say is left out of a kind makes up, with what is kept, the number in the
-- store, and a kind has one marker if something of it is left out, and else none.
pub context_keeps_quota :
    (quotas : EvidenceKind → ℕ) (k : EvidenceKind) (s : Store)
    → (count_kind k (context_evidence quotas s).0 ≡ min (quotas k) (count_kind k s.records))
      × (omitted_of k (context_evidence quotas s).1 + count_kind k (context_evidence quotas s).0
          ≡ count_kind k s.records)
      × (markers_of k (context_evidence quotas s).1
          ≡ (if ltb (quotas k) (count_kind k s.records) then 1 else 0))
unfolding context_evidence ordered
context_keeps_quota quotas k s =
    let (kept, left_out) = select_counts quotas k (sorted s.records) zero_tally zero_tally in
    let same = count_if-sorted (λ e. same_kind e.kind k) s.records in
    let (said, marks) = every_kind k (select quotas (sorted s.records) zero_tally zero_tally).1 in
    (omega arith, omega arith, ground arith)
