-- ===== src/VecMap.antt =====
-- signal-hook-registry/src/vec_map.rs: a small map backed by an unsorted vector.
-- A `&mut V` is the value that it points to, with the write through it.
pub mod Spec
pub mod Laws
pub mod Map
pub mod History
mod Tests
use signal_hook.Base.{
  EqTest, ◌==◌, ℕ, ◌+◌, Bool, true, false, Option, none, some, List, [], ◌∷◌, ◌++◌, map, Outcome,
  ok, index, ◌>>=◌, if◌then◌else◌, set, ◌≡◌, zero, suc, stop, panicked,
}

pub record VecMap {ℓ κ} (K : Type ℓ) (V : Type κ) : Type (ℓ ⊔ κ) where
  pub entries : List (K × V)

module _ {ℓ κ} {K : Type ℓ} {V : Type κ} where
  unfoldable pub new : VecMap K V
  new = record { entries = [] }

  unfoldable pub is_nil : List (K × V) → Bool
  is_nil [] = true
  is_nil (_ ∷ _) = false

  unfoldable pub is_empty : VecMap K V → Bool
  unfolding is_nil
  is_empty m = is_nil m.entries

  unfoldable pub clear : VecMap K V → VecMap K V
  clear m = record m { entries = [] }

  unfoldable pub values : VecMap K V → List V
  values m = map (λ kv. kv.1) m.entries

-- `Vec::remove`: the entry at `i`, and the vector without it; it panics out of bounds.
abbrev vec_remove {ℓ} : {A : Type ℓ} → List A → ℕ → Outcome (A × List A)
vec_remove [] i = stop panicked
vec_remove (x ∷ xs) zero = ok (x, xs)
vec_remove (x ∷ xs) (suc i) = do (y, ys) ← vec_remove xs i; ok (y, x ∷ ys)

is_some : Option ℕ → Bool
is_some none = false
is_some (some i) = true

module _ {ℓ κ} {K : Type ℓ} {V : Type κ} ⦃e : EqTest K⦄ where
  -- The loop of `find`, from position `i`.
  find_from : K → ℕ → List (K × V) → Option ℕ
  find_from key i [] = none
  find_from key i ((k, v) ∷ rest) = if k == key then some i else find_from key (i + 1) rest

  unfoldable pub find : VecMap K V → K → Option ℕ
  unfolding find_from
  find m key = find_from key 0 m.entries

  unfoldable pub contains : VecMap K V → K → Bool
  unfolding find is_some
  contains m key = is_some (find m key)

  unfoldable pub get : VecMap K V → K → Outcome (Option V)
  unfolding find
  get m key = elim (find m key) [
    | some i ↦ do kv ← index m.entries i; ok (some kv.1)
    | none ↦ ok none
  ]

  -- Write `v` over the value of the entry at `i`.
  abbrev pub write_at : VecMap K V → ℕ → K × V → V → VecMap K V
  write_at m i kv v = record m { entries = set m.entries i (kv.0, v) }

  unfoldable pub get_mut : VecMap K V → K → Outcome (Option (V × (V → VecMap K V)))
  unfolding find
  get_mut m key = elim (find m key) [
    | some i ↦ do kv ← index m.entries i; ok (some (kv.1, write_at m i kv))
    | none ↦ ok none
  ]

  -- The new map, and the value that `insert` returns.
  unfoldable pub insert : VecMap K V → K → V → Outcome (VecMap K V × Option V)
  unfolding get_mut
  insert m key value = do
    place ← get_mut m key
    elim place [
      | some (old, write) ↦ ok (write value, some old)
      | none ↦ ok (record m { entries = m.entries ++ (key, value) ∷ [] }, none)
    ]

  unfoldable pub remove : VecMap K V → K → Outcome (VecMap K V × Option V)
  unfolding find
  remove m key = elim (find m key) [
    | some i ↦ do (kv, rest) ← vec_remove m.entries i; ok (record m { entries = rest }, some kv.1)
    | none ↦ ok (m, none)
  ]
