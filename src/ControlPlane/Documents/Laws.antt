-- ===== src/ControlPlane/Documents/Laws.antt =====
-- Reading back what was written to a collection, and what a write leaves alone.
use causal_ops.Prelude.{
  sym, ◌∙◌, ◌⊎◌, ◌+◌, String, ◌≡◌, refl, Bool, none, some, List, [], ◌∷◌, arith, eq_iff,
  if◌then◌else◌, ◌==◌, count_if, keep_if, Bool-cases, inl, inr,
}
use causal_ops.ControlPlane.Documents.Sorting.{All}
use causal_ops.ControlPlane.Documents.{fetch, store}

module _ {A : Type 0} (name_of : A → String) where
  -- No two documents have one name.
  abbrev pub Distinct : List A → Type 0
  Distinct [] = Unit
  Distinct (x ∷ xs) = (fetch name_of (name_of x) xs ≡ none) × Distinct xs

  -- Each of the listed documents is the one that its name finds.
  abbrev pub Stored : List A → List A → Type 0
  Stored xs docs = All (λ x. fetch name_of (name_of x) docs ≡ some x) xs

  pub fetch_name :
      (id : String) (x : A) (xs : List A) → fetch name_of id xs ≡ some x → name_of x ≡ id
  unfolding fetch
  fetch_name id x [] h = ground arith
  fetch_name id x (y ∷ ys) h = ground (arith, fetch_name id x ys, eq_iff (name_of y) id)

  pub fetch-store_self :
      (x : A) (xs : List A) → fetch name_of (name_of x) (store name_of x xs) ≡ some x
  unfolding fetch store
  fetch-store_self x [] = ground (arith, eq_iff (name_of x) (name_of x))
  fetch-store_self x (y ∷ ys) =
      ground (
        arith,
        fetch-store_self x ys,
        eq_iff (name_of y) (name_of x),
        eq_iff (name_of x) (name_of x),
      )

  pub fetch-store_other :
      (id : String) (x : A) (xs : List A)
      → ¬ (name_of x ≡ id)
      → fetch name_of id (store name_of x xs) ≡ fetch name_of id xs
  unfolding fetch store
  fetch-store_other id x [] n = ground (arith, eq_iff (name_of x) id)
  fetch-store_other id x (y ∷ ys) n = ground (
    arith,
    fetch-store_other id x ys n,
    eq_iff (name_of y) (name_of x),
    eq_iff (name_of y) id,
    eq_iff (name_of x) id,
  )

  -- What is found after a write is what was written, under its name, or was found before.
  pub fetch-store_cases :
      (id : String) (x y : A) (xs : List A)
      → fetch name_of id (store name_of x xs) ≡ some y
      → (y ≡ x) ⊎ ((¬ (name_of x ≡ id)) × (fetch name_of id xs ≡ some y))
  fetch-store_cases id x y xs h = elim (Bool-cases (name_of x == id)) [
    | inl same ↦
        let e : name_of x ≡ id = (eq_iff (name_of x) id).0 same in
        inl (ground (arith, fetch-store_self x xs, e))
    | inr apart ↦
        let n : ¬ (name_of x ≡ id) = λ e. ground (arith, eq_iff (name_of x) id) in
        inr (n, sym (fetch-store_other id x xs n) ∙ h)
  ]

  -- A write counts for the document that it replaces.
  pub count_if-store_old :
      (p : A → Bool) (new old : A) (xs : List A)
      → fetch name_of (name_of new) xs ≡ some old
      → count_if p (store name_of new xs) + (if p old then 1 else 0)
        ≡ count_if p xs + (if p new then 1 else 0)
  unfolding fetch store
  count_if-store_old p new old [] h = ground arith
  count_if-store_old p new old (y ∷ ys) h =
      ground (arith, count_if-store_old p new old ys, eq_iff (name_of y) (name_of new))

  pub count_if-store_new :
      (p : A → Bool) (new : A) (xs : List A)
      → fetch name_of (name_of new) xs ≡ none
      → count_if p (store name_of new xs) ≡ count_if p xs + (if p new then 1 else 0)
  unfolding fetch store
  count_if-store_new p new [] h = ground arith
  count_if-store_new p new (y ∷ ys) h =
      ground (arith, count_if-store_new p new ys, eq_iff (name_of y) (name_of new))

  pub store-Distinct : (new : A) (xs : List A) → Distinct xs → Distinct (store name_of new xs)
  unfolding fetch store
  store-Distinct new [] d = (refl, tt)
  store-Distinct new (y ∷ ys) (fresh, d) = elim (Bool-cases (name_of y == name_of new)) [
    | inl same ↦ rw same (ground (arith, eq_iff (name_of y) (name_of new)), d)
    | inr apart ↦ rw apart (
      ground (arith, fetch-store_other (name_of y) new ys, eq_iff (name_of y) (name_of new)),
      store-Distinct new ys d,
    )
  ]

  Stored-weaken :
      (y : A) (xs ys : List A)
      → fetch name_of (name_of y) ys ≡ none
      → Stored xs ys
      → Stored xs (y ∷ ys)
  unfolding fetch
  Stored-weaken y [] ys fresh s = tt
  Stored-weaken y (x ∷ xs) ys fresh (here, s) =
      (ground (arith, eq_iff (name_of y) (name_of x)), Stored-weaken y xs ys fresh s)

  -- What a query streams is what the names find.
  pub keep_if-Stored : (p : A → Bool) (xs : List A) → Distinct xs → Stored (keep_if p xs) xs
  unfolding fetch
  keep_if-Stored p [] d = tt
  keep_if-Stored p (x ∷ xs) (fresh, d) =
      let rest = Stored-weaken x (keep_if p xs) xs fresh (keep_if-Stored p xs d) in
      elim (Bool-cases (p x)) [
        | inl kept ↦ rw kept (ground (arith, eq_iff (name_of x) (name_of x)), rest)
        | inr dropped ↦ rw dropped rest
      ]

  fetch-keep_if :
      (id : String) (p : A → Bool) (xs : List A)
      → fetch name_of id xs ≡ none
      → fetch name_of id (keep_if p xs) ≡ none
  unfolding fetch
  fetch-keep_if id p [] h = refl
  fetch-keep_if id p (x ∷ xs) h = ground (arith, fetch-keep_if id p xs, eq_iff (name_of x) id)

  pub keep_if-Distinct : (p : A → Bool) (xs : List A) → Distinct xs → Distinct (keep_if p xs)
  keep_if-Distinct p [] d = tt
  keep_if-Distinct p (x ∷ xs) (fresh, d) = elim (Bool-cases (p x)) [
    | inl kept ↦ rw kept (fetch-keep_if (name_of x) p xs fresh, keep_if-Distinct p xs d)
    | inr dropped ↦ rw dropped (keep_if-Distinct p xs d)
  ]

  -- A write under a name that none of them has leaves the listed documents where they were.
  pub Stored-store :
      (new : A) (xs docs : List A)
      → fetch name_of (name_of new) xs ≡ none
      → Stored xs docs
      → Stored xs (store name_of new docs)
  unfolding fetch
  Stored-store new [] docs fresh s = tt
  Stored-store new (x ∷ xs) docs fresh (here, s) = (
    ground (
      arith,
      fetch-store_other (name_of x) new docs,
      eq_iff (name_of x) (name_of new),
      eq_iff (name_of new) (name_of x),
    ),
    Stored-store new xs docs (ground arith) s,
  )
