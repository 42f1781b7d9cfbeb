-- ===== src/EvidenceStore/Citations.antt =====
-- Which evidence ids the store knows, and which citations it finds forged.
use causal_ops.Prelude.{
  ◌≡◌, refl, String, Bool, true, false, some, List, [], ◌∷◌, arith, Bool-cases, inl, inr, all, ◌==◌,
  ◌||◌, eq_iff,
}
use causal_ops.Domain.Receipts.{Evidence}
use causal_ops.Domain.Model.{is_empty}
use causal_ops.EvidenceStore.{Store, put, add, knows, unknown_ids}

-- No citation is found forged exactly when the store knows each of them.
pub is_empty-unknown_ids :
    (cited : List String) (s : Store) → is_empty (unknown_ids cited s) ≡ all (knows s.records) cited
unfolding unknown_ids knows
is_empty-unknown_ids [] s = refl
is_empty-unknown_ids (id ∷ ids) s = elim (Bool-cases (knows s.records id)) [
  | inl known ↦ rw known (is_empty-unknown_ids ids s)
  | inr forged ↦ rw forged refl
]

or_absorb : (a b : Bool) → a || b ≡ a || (a || b)
or_absorb true b = refl
or_absorb false b = refl

or_swap : (a b c : Bool) → a || (b || c) ≡ b || (a || c)
or_swap true true c = refl
or_swap true false c = refl
or_swap false b c = refl

knows-put :
    (e : Evidence) (records : List Evidence) (id : String)
    → knows (put e records) id ≡ (e.evidence_id == id || knows records id)
unfolding put knows
knows-put e [] id = refl
knows-put e (x ∷ xs) id = elim (Bool-cases (x.evidence_id == e.evidence_id)) [
  | inl same ↦ rw same (
      rw ((eq_iff x.evidence_id e.evidence_id).0 same)
        (or_absorb (e.evidence_id == id) (knows xs id)))
  | inr another ↦
      rw another
        (rw (knows-put e xs id) (or_swap (x.evidence_id == id) (e.evidence_id == id) (knows xs id)))
]

-- Adding evidence of the store's own incident makes its id known, and changes what is known of no
-- other id.
pub knows-add :
    (e : Evidence) (s s' : Store) (id : String)
    → add e s ≡ some s'
    → knows s'.records id ≡ (e.evidence_id == id || knows s.records id)
unfolding add
knows-add e s s' id h = elim (Bool-cases (e.incident_id == s.incident_id)) [
  | inl own ↦
      let moved : s' ≡ record s { records = put e s.records } = ground arith in
      rw moved (knows-put e s.records id)
  | inr foreign ↦ absurd (ground arith)
]
