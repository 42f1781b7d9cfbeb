-- ===== src/ControlPlane/Requests/Decisions.antt =====
-- An owner's decision is recorded once.
use causal_ops.Prelude.{
  String, ◌≡◌, refl, sym, ap, ◌∙◌, true, Option, none, some, List, ◌∷◌, arith, Option-cases,
  Bool-cases, inl, inr, ◌==◌, ok, Result-cases, eq_iff,
}
use causal_ops.Text.{is_empty_text}
use causal_ops.Approvals.{
  OwnerDecision, owner_decision, decision_text, same_note, same_decision, parse_decision,
}
use causal_ops.Approvals.Notes.{parse-text}
use causal_ops.ControlPlane.Documents.Laws.{fetch_name, fetch-store_self}
use causal_ops.ControlPlane.{
  InvestigationView, Job, StoredDecision, Plane, Config, Platform, validate_positive, event, owned,
  decision_ref,
}
use causal_ops.ControlPlane.Owner.{decide, decide_again, decide_first, stored_decision}
use causal_ops.ControlPlane.Requests.{Request, deciding, perform, perform_all, AreFresh}
use causal_ops.ControlPlane.Requests.Lasting.{Follows-decision}
use causal_ops.ControlPlane.Diagram.WellFormed.{IsWellFormed}
use causal_ops.ControlPlane.Diagram.Owner.{owned-ok}
use causal_ops.ControlPlane.Requests.Refine.{perform_all-Follows, perform-IsWellFormed}

same_note-≡ : (a b : Option String) → same_note a b ≡ true → a ≡ b
unfolding same_note
same_note-≡ none none h = refl
same_note-≡ none (some b) h = absurd (ground arith)
same_note-≡ (some a) none h = absurd (ground arith)
same_note-≡ (some a) (some b) h = ap some ((eq_iff a b).0 h)

same_decision-≡ : (a b : OwnerDecision) → same_decision a b ≡ true → a ≡ b
unfolding same_decision
same_decision-≡ a b h =
    let texts : decision_text a.decision ≡ decision_text b.decision =
      (eq_iff (decision_text a.decision) (decision_text b.decision)).0 (ground arith) in
    let notes = same_note-≡ a.rejection_note b.rejection_note (ground arith) in
    let decisions : some a.decision ≡ some b.decision =
      sym (parse-text a.decision) ∙ ap parse_decision texts ∙ parse-text b.decision in
    ground (arith, notes, decisions)

-- The record holds this decision.
abbrev pub Holds : OwnerDecision → StoredDecision → Type 0
Holds d s = owner_decision s.decision s.rejection_note ≡ some d

again-Holds :
    (j : Job) (s : StoredDecision) (d : OwnerDecision) (p : Plane) (v : InvestigationView)
    → decide_again j s d p ≡ ok v
    → Holds d s
unfolding decide_again
again-Holds j s d p v h = elim (Option-cases (owner_decision s.decision s.rejection_note)) [
  | inl bad ↦ absurd (ground arith)
  | inr (prior, e) ↦ elim (Bool-cases (same_decision prior d)) [
    | inl same ↦ e ∙ ap some (same_decision-≡ prior d same)
    | inr other ↦ absurd (ground arith)
  ]
]

first-Holds :
    (j : Job) (d : OwnerDecision) (p : Plane) (v : InvestigationView)
    → owner_decision (decision_text d.decision) d.rejection_note ≡ some d
    → (decide_first j d p).0 ≡ ok v
    → (s : StoredDecision) × (decision_ref j.id (decide_first j d p).1 ≡ some s) × Holds d s
unfolding decide_first event
first-Holds j d p v valid h = elim (Bool-cases (j.status == "PAUSED_APPROVAL")) [
  | inr other ↦ absurd (ground arith)
  | inl paused ↦ elim (Option-cases j.checkpoint_id) [
    | inl unset ↦ absurd (ground arith)
    | inr (checkpoint_id, e) ↦ elim (Bool-cases (is_empty_text checkpoint_id)) [
      | inl blank ↦ absurd (ground arith)
      | inr written ↦
          let s = stored_decision j.id checkpoint_id d in
          (
            s,
            rw (paused, decide_first)
                (rw (e, written) (fetch-store_self (λ x. x.investigation_id) s p.decisions)),
            valid,
          )
    ]
  ]
]

decide-Holds :
    (owner_email id : String) (d : OwnerDecision) (p : Plane) (v : InvestigationView)
    → owner_decision (decision_text d.decision) d.rejection_note ≡ some d
    → (decide owner_email id d p).0 ≡ ok v
    → (s : StoredDecision) × (decision_ref id (decide owner_email id d p).1 ≡ some s) × Holds d s
unfolding decide
decide-Holds owner_email id d p v valid h = elim (Result-cases (owned id owner_email p)) [
  | inr (e, bad) ↦ absurd (ground arith)
  | inl (j, own) ↦ elim (Option-cases (decision_ref id p)) [
    | inr (s, e) ↦ (s, rw (own, decide) (rw e e), again-Holds j s d p v (ground arith))
    | inl fresh ↦
        let same = fetch_name (λ k. k.id) id j p.jobs (owned-ok id owner_email j p own).0 in
        let (s, found, holds) = first-Holds j d p v valid (ground arith) in
        (
          s,
          rw (own, decide)
              (rw fresh (ap (λ k. decision_ref k (decide_first j d p).1) (sym same) ∙ found)),
          holds,
        )
  ]
]

decide_recorded :
    (owner_email id : String) (d : OwnerDecision) (p : Plane) (s : StoredDecision)
    → decision_ref id p ≡ some s
    → (decide owner_email id d p).1 ≡ p
unfolding decide
decide_recorded owner_email id d p s found = elim (Result-cases (owned id owner_email p)) [
  | inr (e, bad) ↦ rw (bad, decide) refl
  | inl (j, own) ↦ rw (own, decide) (rw found refl)
]

-- When a well-formed plane has answered a `decide` with a validated decision, then after whatever other
-- requests the investigation's record still reads back as that decision, and a `decide` on it, by
-- whomever and with whatever decision, changes nothing.
pub decide-decide :
    (c : Config) (w : Platform) (rs : List Request) (p : Plane) (owner_email id : String)
    (d : OwnerDecision) (answer : InvestigationView) (anyone : String) (other : OwnerDecision)
    → validate_positive c ≡ true
    → IsWellFormed c w p
    → AreFresh c w (deciding owner_email id d ∷ rs) p
    → owner_decision (decision_text d.decision) d.rejection_note ≡ some d
    → (decide owner_email id d p).0 ≡ ok answer
    → (s : StoredDecision) × (decision_ref id (perform_all c w (deciding owner_email id d ∷ rs) p)
        ≡ some s)
      × Holds d s
      × ((decide anyone id other (perform_all c w (deciding owner_email id d ∷ rs) p)).1
          ≡ perform_all c w (deciding owner_email id d ∷ rs) p)
unfolding perform_all perform
decide-decide c w rs p owner_email id d answer anyone other good v (now, fresh) valid h =
    let q = (decide owner_email id d p).1 in
    let v' : IsWellFormed c w q =
      perform-IsWellFormed c w (deciding owner_email id d) p good v now in
    let (s, found, holds) = decide-Holds owner_email id d p answer valid h in
    let still = Follows-decision c w id s (perform_all-Follows c w rs q good v' fresh) found in
    (s, still, holds, decide_recorded anyone id other (perform_all c w rs q) s still)
