-- ===== src/VecMap/Spec.antt =====
-- What vec_map.rs promises, on the list of entries: the first entry of a key counts.
use signal_hook.Base.{EqTest, ◌==◌, Option, none, some, List, [], ◌∷◌, if◌then◌else◌}

module _ {ℓ κ} {K : Type ℓ} {V : Type κ} ⦃e : EqTest K⦄ where
  unfoldable pub lookup : K → List (K × V) → Option V
  lookup key [] = none
  lookup key ((k, v) ∷ rest) = if k == key then some v else lookup key rest

  -- Overwrite in place, or append.
  unfoldable pub upsert : K → V → List (K × V) → List (K × V)
  upsert key value [] = (key, value) ∷ []
  upsert key value ((k, v) ∷ rest) =
      if k == key then (k, value) ∷ rest else (k, v) ∷ upsert key value rest

  unfoldable pub erase : K → List (K × V) → List (K × V)
  erase key [] = []
  erase key ((k, v) ∷ rest) = if k == key then rest else (k, v) ∷ erase key rest
