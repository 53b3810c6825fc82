-- ===== src/VecMap/Map.antt =====
-- The map of vec_map.rs as a partial function from keys, and its invariant: one entry to a key.
use signal_hook.Base.{
  EqTest, ◌==◌, Option, none, some, List, [], ◌∷◌, ◌++◌, ok, if◌then◌else◌, ◌≡◌, refl, inl, inr,
  Bool-cases, arith,
}
use signal_hook.VecMap.{VecMap, get, insert, remove}
use signal_hook.VecMap.Spec.{lookup, upsert, erase}
use signal_hook.VecMap.Laws.{get_lem, insert_lem, remove_lem}

module _ {ℓ κ} {K : Type ℓ} {V : Type κ} ⦃e : EqTest K⦄ where
  -- No key has two entries.
  abbrev pub HasUniqueKeys : List (K × V) → Type κ
  HasUniqueKeys [] = Unit
  HasUniqueKeys ((k, v) ∷ rest) = (lookup k rest ≡ none) × HasUniqueKeys rest

  pub lookup-upsert :
      (key j : K) (v : V) (es : List (K × V))
      → lookup j (upsert key v es) ≡ (if key == j then some v else lookup j es)
  unfolding lookup upsert
  lookup-upsert key j v [] = refl
  lookup-upsert key j v ((k, w) ∷ rest) =
      ground (arith, e.eq_iff k key, e.eq_iff k j, e.eq_iff key j, lookup-upsert key j v rest)

  pub lookup-erase :
      (key j : K) (es : List (K × V))
      → HasUniqueKeys es
      → lookup j (erase key es) ≡ (if key == j then none else lookup j es)
  unfolding lookup erase
  lookup-erase key j [] u = ground arith
  lookup-erase key j ((k, w) ∷ rest) u = elim (Bool-cases (k == key)) [
    | inl hit ↦ elim (Bool-cases (key == j)) [
      | inl same ↦ rw (hit, same) (rw (← (e.eq_iff key j).0 same, ← (e.eq_iff k key).0 hit) u.0)
      | inr other ↦ rw (hit, other) (rw ((e.eq_iff k key).0 hit, other) refl)
    ]
    | inr miss ↦
        rw miss (
          ground (arith, e.eq_iff k key, e.eq_iff k j, e.eq_iff key j, lookup-erase key j rest u.1))
  ]

  pub upsert-HasUniqueKeys :
      (key : K) (v : V) (es : List (K × V)) → HasUniqueKeys es → HasUniqueKeys (upsert key v es)
  unfolding lookup upsert
  upsert-HasUniqueKeys key v [] u = (refl, tt)
  upsert-HasUniqueKeys key v ((k, w) ∷ rest) u = elim (Bool-cases (k == key)) [
    | inl hit ↦ rw hit u
    | inr miss ↦ rw miss (
      ground (arith, lookup-upsert key k v rest, e.eq_iff key k, e.eq_iff k key, u.0),
      upsert-HasUniqueKeys key v rest u.1,
    )
  ]

  pub erase-HasUniqueKeys :
      (key : K) (es : List (K × V)) → HasUniqueKeys es → HasUniqueKeys (erase key es)
  unfolding erase
  erase-HasUniqueKeys key [] u = tt
  erase-HasUniqueKeys key ((k, w) ∷ rest) u = elim (Bool-cases (k == key)) [
    | inl hit ↦ rw hit u.1
    | inr miss ↦
        rw miss (ground (arith, lookup-erase key k rest u.1, u.0), erase-HasUniqueKeys key rest u.1)
  ]

  pub upsert-none :
      (key : K) (v : V) (es : List (K × V))
      → lookup key es ≡ none
      → upsert key v es ≡ es ++ (key, v) ∷ []
  unfolding lookup upsert
  upsert-none key v [] h = refl
  upsert-none key v ((k, x) ∷ rest) h = ground (arith, upsert-none key v rest)

  -- `insert` never panics. It returns the old value of the key, gives the key the new value and
  -- leaves every other key alone.
  pub insert-get :
      (m : VecMap K V) (key : K) (v : V)
      → (m' : VecMap K V) × (old : Option V) × (insert m key v ≡ ok (m', old))
        × (get m key ≡ ok old)
        × ((j : K) → get m' j ≡ (if key == j then ok (some v) else get m j))
  insert-get m key v = (
    record { entries = upsert key v m.entries },
    lookup key m.entries,
    insert_lem m key v,
    get_lem m key,
    λ j. rw (get_lem, get_lem, lookup-upsert key j v m.entries) (ground arith),
  )

  -- Where no key has two entries, `remove` never panics, returns the value of the key, and leaves
  -- a map without the key and with every other key as it was.
  pub remove-get :
      (m : VecMap K V) (key : K)
      → HasUniqueKeys m.entries
      → (m' : VecMap K V) × (old : Option V) × (remove m key ≡ ok (m', old))
        × (get m key ≡ ok old)
        × ((j : K) → get m' j ≡ (if key == j then ok none else get m j))
  remove-get m key u = (
    record { entries = erase key m.entries },
    lookup key m.entries,
    remove_lem m key,
    get_lem m key,
    λ j. rw (get_lem, get_lem, lookup-erase key j m.entries u) (ground arith),
  )

  -- Where no key has two entries, none has after an `insert` that returns.
  pub insert-HasUniqueKeys :
      (m : VecMap K V) (key : K) (v : V) {m' : VecMap K V} {old : Option V}
      → HasUniqueKeys m.entries
      → insert m key v ≡ ok (m', old)
      → HasUniqueKeys m'.entries
  insert-HasUniqueKeys m key v {m'} u h =
      let same : m'.entries ≡ upsert key v m.entries = cc (insert_lem m key v) in
      rw same (upsert-HasUniqueKeys key v m.entries u)

  -- Where no key has two entries, none has after a `remove` that returns.
  pub remove-HasUniqueKeys :
      (m : VecMap K V) (key : K) {m' : VecMap K V} {old : Option V}
      → HasUniqueKeys m.entries
      → remove m key ≡ ok (m', old)
      → HasUniqueKeys m'.entries
  remove-HasUniqueKeys m key {m'} u h =
      let same : m'.entries ≡ erase key m.entries = cc (remove_lem m key) in
      rw same (erase-HasUniqueKeys key m.entries u)
