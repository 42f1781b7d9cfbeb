-- ===== src/ControlPlane/Requests/Timelines.antt =====
-- What an owner reads of a timeline stays there.
use mathlib.Core.Path.{subst}
use causal_ops.Prelude.{
  String, ◌≡◌, sym, ap, ◌∙◌, true, List, ◌++◌, arith, inl, inr, ok, Result-cases,
}
use causal_ops.ControlPlane.Documents.{fetch}
use causal_ops.ControlPlane.{
  TimelineEvent, Plane, Config, Platform, validate_positive, owned, stream_events,
}
use causal_ops.ControlPlane.Owner.{events}
use causal_ops.ControlPlane.Requests.{Request, perform_all, AreFresh, empty}
use causal_ops.ControlPlane.Requests.Refine.{perform_all-Follows}
use causal_ops.ControlPlane.Diagram.WellFormed.{IsWellFormed}
use causal_ops.ControlPlane.Diagram.Timelines.{
  Numbered, AllNumbered, sort_by-Numbered, Follows-Extends,
}

events-stream :
    (owner_email id : String) (p : Plane) (es : List TimelineEvent)
    → AllNumbered p
    → events owner_email id p ≡ ok es
    → es ≡ stream_events id p
unfolding events
events-stream owner_email id p es n h = elim (Result-cases (owned id owner_email p)) [
  | inr (e, bad) ↦ absurd (ground arith)
  | inl (j, own) ↦ let sorted = sort_by-Numbered 0 (stream_events id p) (n id) in ground arith
]

pub empty-AllNumbered : AllNumbered empty
unfolding fetch
empty-AllNumbered id = tt

-- The events that an owner was shown of a well-formed plane with numbered timelines come first, unchanged
-- and in the same order, in whatever its owner is shown after other requests, which is numbered from zero
-- without a gap.
pub events-perform_all :
    (c : Config) (w : Platform) (rs : List Request) (p : Plane) (owner_email id : String)
    (es es' : List TimelineEvent)
    → validate_positive c ≡ true
    → IsWellFormed c w p
    → AreFresh c w rs p
    → AllNumbered p
    → events owner_email id p ≡ ok es
    → events owner_email id (perform_all c w rs p) ≡ ok es'
    → (extra : List TimelineEvent) × (es' ≡ es ++ extra) × Numbered 0 es'
events-perform_all c w rs p owner_email id es es' good v fresh n h h' =
    let q = perform_all c w rs p in
    let grown = Follows-Extends c w (perform_all-Follows c w rs p good v fresh) n in
    let (extra, e, numbered) = grown id in
    let was = events-stream owner_email id p es n h in
    let is = events-stream owner_email id q es' (λ k. (grown k).2) h' in
    (extra, is ∙ e ∙ ap (λ xs. xs ++ extra) (sym was), subst (Numbered 0) (sym is) numbered)
