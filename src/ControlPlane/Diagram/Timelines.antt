-- ===== src/ControlPlane/Diagram/Timelines.antt =====
-- A timeline is numbered from zero without a gap, and only grows.
use mathlib.Core.Path.{subst}
use causal_ops.Prelude.{
  ℕ, suc, ◌+◌, String, ◌≡◌, refl, sym, ap, ◌∙◌, true, false, List, [], ◌∷◌, ◌++◌, arith, Bool-cases,
  inl, inr, ◌==◌, length, eq_iff, ltb, leb,
}
use causal_ops.ControlPlane.Documents.{sort_by, insert_by}
use causal_ops.ControlPlane.Documents.Laws.{fetch-store_self, fetch-store_other}
use causal_ops.ControlPlane.{
  FieldValue, TimelineEvent, Timeline, Plane, Config, Platform, events_of, stream_events, set_event,
  next_event_ordinal, event,
}
use causal_ops.ControlPlane.Diagram.{
  Change, adds, starts, moves, enqueues, delivers, records, notes, Follows, here, more,
}

abbrev pub Numbered : ℕ → List TimelineEvent → Type 0
Numbered n [] = Unit
Numbered n (e ∷ es) = (e.ordinal ≡ n) × Numbered (suc n) es

append_nil : {A : Type 0} (xs : List A) → xs ++ [] ≡ xs
append_nil [] = refl
append_nil (x ∷ xs) = ap (λ ys. x ∷ ys) (append_nil xs)

append_assoc : {A : Type 0} (xs ys zs : List A) → (xs ++ ys) ++ zs ≡ xs ++ (ys ++ zs)
append_assoc [] ys zs = refl
append_assoc (x ∷ xs) ys zs = ap (λ rest. x ∷ rest) (append_assoc xs ys zs)

set_event-append :
    (n : ℕ) (new : TimelineEvent) (es : List TimelineEvent)
    → Numbered n es
    → new.ordinal ≡ n + length es
    → (set_event new es ≡ es ++ new ∷ []) × Numbered n (es ++ new ∷ [])
unfolding set_event
set_event-append n new [] h e = (refl, (omega (arith, e), tt))
set_event-append n new (x ∷ xs) (this, h) e =
    let (put, numbered) = set_event-append (suc n) new xs h (omega (arith, e)) in
    let low : ltb new.ordinal x.ordinal ≡ false = ground (arith, this, e) in
    let high : leb new.ordinal x.ordinal ≡ false = ground (arith, this, e) in
    (rw (low, high) (ap (λ rest. x ∷ rest) put), (this, numbered))

-- Sorting a numbered timeline by its numbers changes nothing.
insert_by-first :
    (n : ℕ) (e : TimelineEvent) (es : List TimelineEvent)
    → e.ordinal ≡ n
    → Numbered (suc n) es
    → insert_by (λ a b. leb a.ordinal b.ordinal) e es ≡ e ∷ es
unfolding insert_by
insert_by-first n e [] h k = refl
insert_by-first n e (x ∷ xs) h (this, k) =
    let first : leb e.ordinal x.ordinal ≡ true = ground (arith, this, h) in rw first refl

pub sort_by-Numbered :
    (n : ℕ) (es : List TimelineEvent)
    → Numbered n es
    → sort_by (λ a b. leb a.ordinal b.ordinal) es ≡ es
unfolding sort_by
sort_by-Numbered n [] h = refl
sort_by-Numbered n (e ∷ es) (this, h) =
    rw (sort_by-Numbered (suc n) es h) (insert_by-first n e es this h)

abbrev pub AllNumbered : Plane → Type 0
AllNumbered p = (id : String) → Numbered 0 (stream_events id p)

-- The timeline of `q` starts with that of `p`, and is numbered.
abbrev pub ExtendsAt : Plane → Plane → String → Type 0
ExtendsAt p q id =
    (extra : List TimelineEvent) × (stream_events id q ≡ stream_events id p ++ extra)
    × Numbered 0 (stream_events id q)

abbrev pub Extends : Plane → Plane → Type 0
Extends p q = (id : String) → ExtendsAt p q id

same : (p : Plane) → AllNumbered p → Extends p p
same p n id = ([], sym (append_nil (stream_events id p)), n id)

module _ (id name : String) (fields : List (String × FieldValue)) (p : Plane) where
  abbrev new_event : TimelineEvent
  new_event = record { ordinal = length (stream_events id p); name = name; fields = fields }

  abbrev line : Timeline
  line = record { investigation_id = id; events = set_event new_event (stream_events id p) }

  event-own : AllNumbered p → ExtendsAt p (event id name fields p) id
  unfolding event next_event_ordinal
  event-own n =
      let (put, numbered) =
        set_event-append 0 new_event (stream_events id p) (n id) (omega arith) in
      let e : stream_events id (event id name fields p) ≡ stream_events id p ++ new_event ∷ [] =
        ap events_of (fetch-store_self (λ t. t.investigation_id) line p.timelines) ∙ put in
      (new_event ∷ [], e, subst (Numbered 0) (sym e) numbered)

  event-Extends : AllNumbered p → Extends p (event id name fields p)
  unfolding event next_event_ordinal
  event-Extends n k = elim (Bool-cases (id == k)) [
    | inl here' ↦ subst (ExtendsAt p (event id name fields p)) ((eq_iff id k).0 here') (event-own n)
    | inr apart ↦
        let e : stream_events k (event id name fields p) ≡ stream_events k p = ap events_of (
          fetch-store_other (λ t. t.investigation_id) k line p.timelines
            (λ e. ground (arith, apart, eq_iff id k, e))) in
        ([], e ∙ sym (append_nil (stream_events k p)), subst (Numbered 0) (sym e) (n k))
  ]

module _ (c : Config) (w : Platform) where
  Change-Extends : {p q : Plane} → Change c w p q → AllNumbered p → Extends p q
  Change-Extends (adds p i n o f y fresh) h = same p h
  Change-Extends (starts p j token now from idle waiting) h = same p h
  Change-Extends (moves p j j' from m) h = same p h
  Change-Extends (enqueues p j n from done fresh) h = same p h
  Change-Extends (delivers p d d' from m) h = same p h
  Change-Extends (records p d fresh) h = same p h
  Change-Extends (notes p i name fields) h = event-Extends i name fields p h

  pub Follows-Extends : {p q : Plane} → Follows c w p q → AllNumbered p → Extends p q
  Follows-Extends {p = p} here h = same p h
  Follows-Extends {p = p} (more f m) h = λ id.
      let before = Follows-Extends f h in
      let (extra, e, numbered) = before id in
      let (extra', e', numbered') = Change-Extends m (λ k. (before k).2) id in
      (
        extra ++ extra',
        e' ∙ ap (λ es. es ++ extra') e ∙ append_assoc (stream_events id p) extra extra',
        numbered',
      )
