-- ===== src/Approvals/Notes.antt =====
-- A decision that was validated once is what its own two fields validate to.
use Prim.Native.Char.{code}
use causal_ops.Prelude.{
  String, ◌≡◌, refl, ◌∙◌, ap, true, false, Option, none, some, ◌&&◌, arith, Bool-cases,
  Option-cases, inl, inr, eq_refl,
}
use causal_ops.Text.{strip, lstrip, rstrip, is_space, is_blank, is_empty_text}
use causal_ops.Domain.Reports.{Decision, accept, reject}
use causal_ops.Approvals.{
  OwnerDecision, parse_decision, decision_text, normalize_note, note_fits, check_pairing,
  owner_decision, same_note, same_decision,
}

-- The text does not start with white space.
abbrev StartsSolid : String → Type 0
StartsSolid String.[] = Unit
StartsSolid (String.◌∷◌ c s) = is_space (code c) ≡ false

lstrip-StartsSolid : (s : String) → StartsSolid (lstrip s)
unfolding lstrip
lstrip-StartsSolid String.[] = tt
lstrip-StartsSolid (String.◌∷◌ c s) = elim (Bool-cases (is_space (code c))) [
  | inl space ↦ rw space (lstrip-StartsSolid s)
  | inr solid ↦ rw solid solid
]

rstrip-StartsSolid : (s : String) → StartsSolid s → StartsSolid (rstrip s)
unfolding rstrip
rstrip-StartsSolid String.[] h = tt
rstrip-StartsSolid (String.◌∷◌ c s) h = rw h h

lstrip_solid : (s : String) → StartsSolid s → lstrip s ≡ s
unfolding lstrip
lstrip_solid String.[] h = refl
lstrip_solid (String.◌∷◌ c s) h = rw h refl

blank-rstrip : (s : String) → is_blank (rstrip s) ≡ is_blank s
unfolding is_blank rstrip
blank-rstrip String.[] = refl
blank-rstrip (String.◌∷◌ c s) = elim (Bool-cases (is_space (code c) && is_blank s)) [
  | inl blank ↦ rw blank
  | inr solid ↦ rw solid (rw (blank-rstrip s) solid)
]

rstrip_idem : (s : String) → rstrip (rstrip s) ≡ rstrip s
unfolding rstrip
rstrip_idem String.[] = refl
rstrip_idem (String.◌∷◌ c s) = elim (Bool-cases (is_space (code c) && is_blank s)) [
  | inl blank ↦ rw blank
  | inr solid ↦ rw solid (rw (blank-rstrip s, solid, rstrip_idem s) refl)
]

pub strip_idem : (s : String) → strip (strip s) ≡ strip s
unfolding strip
strip_idem s =
    ap rstrip
      (lstrip_solid (rstrip (lstrip s)) (rstrip-StartsSolid (lstrip s) (lstrip-StartsSolid s)))
    ∙ rstrip_idem (lstrip s)

normalize_idem : (note : Option String) → normalize_note (normalize_note note) ≡ normalize_note note
unfolding normalize_note
normalize_idem none = refl
normalize_idem (some note) = elim (Bool-cases (is_empty_text (strip note))) [
  | inl blank ↦ rw blank
  | inr written ↦ rw written (rw (strip_idem note, written) refl)
]

pub parse-text : (d : Decision) → parse_decision (decision_text d) ≡ some d
unfolding parse_decision decision_text
parse-text accept = refl
parse-text reject = refl

pub owner_decision-some :
    (word : String) (note : Option String) (d : OwnerDecision)
    → owner_decision word note ≡ some d
    → (parse_decision word ≡ some d.decision)
      × (d.rejection_note ≡ normalize_note note)
      × ((note_fits (normalize_note note) && check_pairing d.decision (normalize_note note)) ≡ true)
unfolding owner_decision
owner_decision-some word note d h = elim (Option-cases (parse_decision word)) [
  | inl bad ↦ absurd (ground arith)
  | inr (choice, e) ↦
      elim (Bool-cases
        (note_fits (normalize_note note) && check_pairing choice (normalize_note note))) [
          | inl good ↦ (ground arith, ground arith, ground arith)
          | inr bad ↦ absurd (ground arith)
        ]
]

-- The two texts of a validated decision validate to that decision again: a stored decision is read back
-- as it was taken.
pub owner_decision-decision_text :
    (word : String) (note : Option String) (d : OwnerDecision)
    → owner_decision word note ≡ some d
    → owner_decision (decision_text d.decision) d.rejection_note ≡ some d
unfolding owner_decision
owner_decision-decision_text word note d h =
    let (parsed, noted, good) = owner_decision-some word note d h in
    rw (parse-text d.decision, owner_decision)
      (rw (noted, owner_decision) (rw (normalize_idem note, good) (ground (arith, noted))))

pub same_note_refl : (note : Option String) → same_note note note ≡ true
unfolding same_note
same_note_refl none = refl
same_note_refl (some note) = eq_refl note

pub same_decision_refl : (d : OwnerDecision) → same_decision d d ≡ true
unfolding same_decision
same_decision_refl d = rw (eq_refl (decision_text d.decision), same_note_refl d.rejection_note) refl
