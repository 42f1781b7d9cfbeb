-- ===== src/ControlPlane/Documents.antt =====
-- A Firestore collection, as the control plane uses it (src/causalops/firestore_control_plane.py): the
-- list of its documents, each named by one of its own fields. `get` finds the document of a name, `set`
-- overwrites it or adds it, `where(...).stream()` keeps the documents that pass a test, and
-- `list.sort(key=...)` is a stable sort.
pub mod Sorting
pub mod Laws
use causal_ops.Prelude.{String, Bool, Option, none, some, List, [], ◌∷◌, ◌==◌, if◌then◌else◌}

-- `collection.document(id).get()`
unfoldable pub fetch : {A : Type 0} → (A → String) → String → List A → Option A
fetch name_of id [] = none
fetch name_of id (x ∷ xs) =
    let rest = fetch name_of id xs in if name_of x == id then some x else rest

-- `document.set(data)`
unfoldable pub store : {A : Type 0} → (A → String) → A → List A → List A
store name_of new [] = new ∷ []
store name_of new (x ∷ xs) =
    let rest = store name_of new xs in if name_of x == name_of new then new ∷ xs else x ∷ rest

unfoldable pub insert_by : {A : Type 0} → (A → A → Bool) → A → List A → List A
insert_by at_most x [] = x ∷ []
insert_by at_most x (y ∷ ys) =
    let rest = insert_by at_most x ys in if at_most x y then x ∷ y ∷ ys else y ∷ rest

-- `xs.sort(key=...)`, for the order of the keys
unfoldable pub sort_by : {A : Type 0} → (A → A → Bool) → List A → List A
unfolding insert_by
sort_by at_most [] = []
sort_by at_most (x ∷ xs) = insert_by at_most x (sort_by at_most xs)
