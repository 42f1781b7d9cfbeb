-- ===== src/ControlPlane/Documents/Sorting.antt =====
-- What a query keeps and a sort reorders.
use mathlib.Core.Path.{subst}
use causal_ops.Prelude.{
  some, if◌then◌else◌, ◌==◌, String, ◌≡◌, Bool, true, false, List, [], ◌∷◌, arith, keep_if,
  Bool-cases, inl, inr,
}
use causal_ops.ControlPlane.Documents.{fetch, insert_by, sort_by}

module _ {A : Type 0} where
  abbrev pub All : (A → Type 0) → List A → Type 0
  All P [] = Unit
  All P (x ∷ xs) = P x × All P xs

  pub All-keep_if : (P : A → Type 0) (p : A → Bool) (xs : List A) → All P xs → All P (keep_if p xs)
  All-keep_if P p [] h = tt
  All-keep_if P p (x ∷ xs) (here, h) = elim (Bool-cases (p x)) [
    | inl kept ↦ rw kept (here, All-keep_if P p xs h)
    | inr dropped ↦ rw dropped (All-keep_if P p xs h)
  ]

  pub keep_if-All : (p : A → Bool) (xs : List A) → All (λ x. p x ≡ true) (keep_if p xs)
  keep_if-All p [] = tt
  keep_if-All p (x ∷ xs) = elim (Bool-cases (p x)) [
    | inl kept ↦ rw kept (kept, keep_if-All p xs)
    | inr dropped ↦ rw dropped (keep_if-All p xs)
  ]

  pub All-both : (P Q : A → Type 0) (xs : List A) → All P xs → All Q xs → All (λ x. P x × Q x) xs
  All-both P Q [] s t = tt
  All-both P Q (x ∷ xs) (a, s) (b, t) = ((a, b), All-both P Q xs s t)

  All-insert_by :
      (P : A → Type 0) (at_most : A → A → Bool) (x : A) (ys : List A)
      → P x
      → All P ys
      → All P (insert_by at_most x ys)
  unfolding insert_by
  All-insert_by P at_most x [] here h = (here, tt)
  All-insert_by P at_most x (y ∷ ys) here (this, h) = elim (Bool-cases (at_most x y)) [
    | inl first ↦ rw first (here, (this, h))
    | inr later ↦ rw later (this, All-insert_by P at_most x ys here h)
  ]

  pub All-sort_by :
      (P : A → Type 0) (at_most : A → A → Bool) (xs : List A)
      → All P xs
      → All P (sort_by at_most xs)
  unfolding sort_by
  All-sort_by P at_most [] h = tt
  All-sort_by P at_most (x ∷ xs) (here, h) =
      All-insert_by P at_most x (sort_by at_most xs) here (All-sort_by P at_most xs h)

  -- What holds of all that a query keeps holds of a document that passes its test.
  pub keep_if-each :
      (P : A → Type 0) (p : A → Bool) (xs : List A)
      → All P (keep_if p xs)
      → All (λ x. p x ≡ true → P x) xs
  keep_if-each P p [] h = tt
  keep_if-each P p (x ∷ xs) h = elim (Bool-cases (p x)) [
    | inl kept ↦
        let h' : All P (x ∷ keep_if p xs) =
          subst (λ b. All P (if b then x ∷ keep_if p xs else keep_if p xs)) kept h in
        (λ _. h'.0, keep_if-each P p xs h'.1)
    | inr dropped ↦
        let h' : All P (keep_if p xs) =
          subst (λ b. All P (if b then x ∷ keep_if p xs else keep_if p xs)) dropped h in
        (λ kept. absurd (ground arith), keep_if-each P p xs h')
  ]

  insert_by-each :
      (P : A → Type 0) (at_most : A → A → Bool) (x : A) (ys : List A)
      → All P (insert_by at_most x ys)
      → P x × All P ys
  unfolding insert_by
  insert_by-each P at_most x [] h = h
  insert_by-each P at_most x (y ∷ ys) h = elim (Bool-cases (at_most x y)) [
    | inl first ↦
        let h' : All P (x ∷ y ∷ ys) =
          subst (λ b. All P (if b then x ∷ y ∷ ys else y ∷ insert_by at_most x ys)) first h in
        (h'.0, h'.1)
    | inr later ↦
        let h' : All P (y ∷ insert_by at_most x ys) =
          subst (λ b. All P (if b then x ∷ y ∷ ys else y ∷ insert_by at_most x ys)) later h in
        let (here, rest) = insert_by-each P at_most x ys h'.1 in (here, (h'.0, rest))
  ]

  pub sort_by-each :
      (P : A → Type 0) (at_most : A → A → Bool) (xs : List A)
      → All P (sort_by at_most xs)
      → All P xs
  unfolding sort_by
  sort_by-each P at_most [] h = tt
  sort_by-each P at_most (x ∷ xs) h =
      let (here, rest) = insert_by-each P at_most x (sort_by at_most xs) h in
      (here, sort_by-each P at_most xs rest)

  pub fetch-each :
      (P : A → Type 0) (name_of : A → String) (id : String) (x : A) (xs : List A)
      → All P xs
      → fetch name_of id xs ≡ some x
      → P x
  unfolding fetch
  fetch-each P name_of id x [] h found = absurd (ground arith)
  fetch-each P name_of id x (y ∷ ys) (here, h) found = elim (Bool-cases (name_of y == id)) [
    | inl same ↦ subst P (ground arith) here
    | inr apart ↦ fetch-each P name_of id x ys h (ground arith)
  ]

  -- The head of a list that is sorted by a total and transitive test goes before all of it.
  abbrev pub Ordered : (A → A → Bool) → List A → Type 0
  Ordered at_most [] = Unit
  Ordered at_most (x ∷ xs) = All (λ y. at_most x y ≡ true) xs × Ordered at_most xs

  below :
      (at_most : A → A → Bool)
      → ((a b d : A) → at_most a b ≡ true → at_most b d ≡ true → at_most a d ≡ true)
      → (a b : A) (zs : List A) → at_most a b ≡ true
      → All (λ z. at_most b z ≡ true) zs
      → All (λ z. at_most a z ≡ true) zs
  below at_most trans a b [] e l = tt
  below at_most trans a b (z ∷ zs) e (this, l) =
      (trans a b z e this, below at_most trans a b zs e l)

  insert_by-Ordered :
      (at_most : A → A → Bool)
      → ((a b : A) → at_most a b ≡ false → at_most b a ≡ true)
      → ((a b d : A) → at_most a b ≡ true → at_most b d ≡ true → at_most a d ≡ true)
      → (x : A) (ys : List A) → Ordered at_most ys
      → Ordered at_most (insert_by at_most x ys)
  unfolding insert_by
  insert_by-Ordered at_most total trans x [] h = (tt, tt)
  insert_by-Ordered at_most total trans x (y ∷ ys) (least, h) = elim (Bool-cases (at_most x y)) [
    | inl first ↦ rw first ((first, below at_most trans x y ys first least), (least, h))
    | inr later ↦ rw later (
      All-insert_by (λ z. at_most y z ≡ true) at_most x ys (total x y later) least,
      insert_by-Ordered at_most total trans x ys h,
    )
  ]

  pub sort_by-Ordered :
      (at_most : A → A → Bool)
      → ((a b : A) → at_most a b ≡ false → at_most b a ≡ true)
      → ((a b d : A) → at_most a b ≡ true → at_most b d ≡ true → at_most a d ≡ true)
      → (xs : List A) → Ordered at_most (sort_by at_most xs)
  unfolding sort_by
  sort_by-Ordered at_most total trans [] = tt
  sort_by-Ordered at_most total trans (x ∷ xs) =
      insert_by-Ordered at_most total trans x (sort_by at_most xs)
        (sort_by-Ordered at_most total trans xs)
