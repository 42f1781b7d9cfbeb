-- ===== src/ControlPlane/Diagram/Repeats.antt =====
-- An owner's idempotency key keeps answering with the job that it first made.
use causal_ops.Prelude.{
  String, ◌≡◌, refl, sym, ap, ◌∙◌, Bool, true, false, Option, none, some, List, [], ◌∷◌, arith,
  Bool-cases, inl, inr, ◌==◌, ◌&&◌,
}
use causal_ops.ControlPlane.Documents.{fetch, store}
use causal_ops.ControlPlane.{Job, Plane, Config, Platform, event}
use causal_ops.ControlPlane.Owner.{find_request, new_job}
use causal_ops.ControlPlane.Claims.{claimed}
use causal_ops.ControlPlane.Diagram.{
  Change, adds, starts, moves, enqueues, delivers, records, notes,
}
use causal_ops.ControlPlane.Diagram.Keeps.{Move-id}
use causal_ops.ControlPlane.Diagram.Lasting.{SameRequest, Move-SameRequest}

abbrev pub id_of : Option Job → Option String
id_of none = none
id_of (some j) = some j.id

abbrev asks : String → String → Job → Bool
asks owner_email key j = j.owner == owner_email && j.idempotency_key == key

asks_same : (o y : String) (j j' : Job) → SameRequest j j' → asks o y j' ≡ asks o y j
asks_same o y j j' (i, e, f) = rw (e, f) refl

fetch_head :
    (x j : Job) (xs : List Job) (id : String)
    → (x.id == id) ≡ true
    → fetch (λ k. k.id) id (x ∷ xs) ≡ some j
    → x ≡ j
unfolding fetch
fetch_head x j xs id h from = ground arith

fetch_tail :
    (x j : Job) (xs : List Job) (id : String)
    → (x.id == id) ≡ false
    → fetch (λ k. k.id) id (x ∷ xs) ≡ some j
    → fetch (λ k. k.id) id xs ≡ some j
unfolding fetch
fetch_tail x j xs id h from = ground arith

find_head :
    (o y : String) (x x' : Job) (xs : List Job)
    → SameRequest x x'
    → id_of (find_request o y (x' ∷ xs)) ≡ id_of (find_request o y (x ∷ xs))
unfolding find_request
find_head o y x x' xs same = elim (Bool-cases (asks o y x)) [
  | inl hit ↦ rw (asks_same o y x x' same ∙ hit, hit) (ap some same.0)
  | inr miss ↦ rw (asks_same o y x x' same ∙ miss, miss) refl
]

find_request-store_old :
    (o y : String) (j j' : Job) (js : List Job)
    → fetch (λ x. x.id) j'.id js ≡ some j
    → SameRequest j j'
    → id_of (find_request o y (store (λ x. x.id) j' js)) ≡ id_of (find_request o y js)
unfolding find_request fetch store
find_request-store_old o y j j' [] from same = absurd (ground arith)
find_request-store_old o y j j' (x ∷ xs) from same = elim (Bool-cases (x.id == j'.id)) [
  | inl here ↦
      let e = fetch_head x j xs j'.id here from in
      rw here (
        find_head o y x j' xs (
          same.0 ∙ ap (λ k. k.id) (sym e),
          same.1 ∙ ap (λ k. k.owner) (sym e),
          same.2 ∙ ap (λ k. k.idempotency_key) (sym e),
        ))
  | inr there ↦ rw there (elim (Bool-cases (asks o y x)) [
    | inl hit ↦ rw hit refl
    | inr miss ↦
        rw miss (find_request-store_old o y j j' xs (fetch_tail x j xs j'.id there from) same)
  ])
]

find_request-store_new :
    (o y : String) (new : Job) (id : String) (js : List Job)
    → fetch (λ x. x.id) new.id js ≡ none
    → id_of (find_request o y js) ≡ some id
    → id_of (find_request o y (store (λ x. x.id) new js)) ≡ some id
unfolding find_request fetch store
find_request-store_new o y new id [] from found = absurd (ground arith)
find_request-store_new o y new id (x ∷ xs) from found = elim (Bool-cases (x.id == new.id)) [
  | inl here ↦ absurd (ground arith)
  | inr there ↦ rw there (elim (Bool-cases (asks o y x)) [
    | inl hit ↦ ground arith
    | inr miss ↦ ground (arith, find_request-store_new o y new id xs)
  ])
]

module _ (c : Config) (w : Platform) where
  pub Change-find_request :
      {p q : Plane} (o y id : String)
      → Change c w p q
      → id_of (find_request o y p.jobs) ≡ some id
      → id_of (find_request o y q.jobs) ≡ some id
  unfolding event
  Change-find_request o y id (adds p i n o' f y' fresh) found =
      find_request-store_new o y (new_job i n o' f y') id p.jobs fresh found
  Change-find_request o y id (starts p j token now from idle waiting) found =
      find_request-store_old o y j (claimed c token now j) p.jobs from (refl, refl, refl) ∙ found
  Change-find_request o y id (moves p j j' from m) found =
      find_request-store_old o y j j' p.jobs
        (ap (λ k. fetch (λ x. x.id) k p.jobs) (Move-id c w m) ∙ from) (Move-SameRequest c w m)
      ∙ found
  Change-find_request o y id (enqueues p j n from done fresh) found = found
  Change-find_request o y id (delivers p d d' from m) found = found
  Change-find_request o y id (records p d fresh) found = found
  Change-find_request o y id (notes p i name fields) found = found
