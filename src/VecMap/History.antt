-- ===== src/VecMap/History.antt =====
-- Any sequence of calls of vec_map.rs against a partial function from keys.
use signal_hook.Base.{
  EqTest, ◌==◌, Option, none, some, List, [], ◌∷◌, Outcome, ok, ◌>>=◌, if◌then◌else◌, ◌≡◌, refl,
  sym, ap, ◌∙◌, Bool-cases, inl, inr,
}
use signal_hook.VecMap.{VecMap, new, get, insert, remove, clear}
use signal_hook.VecMap.Spec.{lookup}
use signal_hook.VecMap.Laws.{get_lem}
use signal_hook.VecMap.Map.{
  HasUniqueKeys, insert-get, remove-get, insert-HasUniqueKeys, remove-HasUniqueKeys,
}

pub data Call (K V : Type 0) : Type 0 where
  inserts : K → V → Call K V
  removes : K → Call K V
  clears : Call K V

module _ {K V : Type 0} ⦃e : EqTest K⦄ where
  -- The map after the calls, and the old values that they return.
  unfoldable pub run : VecMap K V → List (Call K V) → Outcome (VecMap K V × List (Option V))
  run m [] = ok (m, [])
  run m (inserts key v ∷ calls) = do
    (m', old) ← insert m key v
    (last, olds) ← run m' calls
    ok (last, old ∷ olds)
  run m (removes key ∷ calls) = do
    (m', old) ← remove m key
    (last, olds) ← run m' calls
    ok (last, old ∷ olds)
  run m (clears ∷ calls) = run (clear m) calls

  -- The same calls on a partial function.
  abbrev pub put : K → Option V → (K → Option V) → K → Option V
  put key o f j = if key == j then o else f j

  abbrev pub after : (K → Option V) → List (Call K V) → K → Option V
  after f [] = f
  after f (inserts key v ∷ calls) = after (put key (some v) f) calls
  after f (removes key ∷ calls) = after (put key none f) calls
  after f (clears ∷ calls) = after (λ j. none) calls

  abbrev pub returned : (K → Option V) → List (Call K V) → List (Option V)
  returned f [] = []
  returned f (inserts key v ∷ calls) = f key ∷ returned (put key (some v) f) calls
  returned f (removes key ∷ calls) = f key ∷ returned (put key none f) calls
  returned f (clears ∷ calls) = returned (λ j. none) calls

  abbrev pub Means : VecMap K V → (K → Option V) → Type 0
  Means m f = (j : K) → get m j ≡ ok (f j)

  put_lem :
      (m m' : VecMap K V) (f : K → Option V) (key : K) (o : Option V)
      → Means m f
      → ((j : K) → get m' j ≡ (if key == j then ok o else get m j))
      → Means m' (put key o f)
  put_lem m m' f key o h changed j = elim (Bool-cases (key == j)) [
    | inl hit ↦ changed j ∙ rw hit refl
    | inr miss ↦ changed j ∙ rw miss (h j)
  ]

  old_is :
      (m : VecMap K V) (f : K → Option V) (key : K) (old : Option V)
      → Means m f
      → get m key ≡ ok old
      → old ≡ f key
  old_is m f key old h there = let same : ok old ≡ ok (f key) = sym there ∙ h key in cc

  run-Means :
      (calls : List (Call K V)) (m : VecMap K V) (f : K → Option V)
      → HasUniqueKeys m.entries
      → Means m f
      → (m' : VecMap K V) × (run m calls ≡ ok (m', returned f calls))
        × HasUniqueKeys m'.entries
        × Means m' (after f calls)
  unfolding run clear lookup
  run-Means [] m f u h = (m, refl, u, h)
  run-Means (inserts key v ∷ calls) m f u h =
      let (m', old, done, there, changed) = insert-get m key v in
      let (last, run_is, u', h') =
        run-Means calls m' (put key (some v) f) (insert-HasUniqueKeys m key v u done)
          (put_lem m m' f key (some v) h changed) in
      let olds = returned (put key (some v) f) calls in
      (
        last,
        rw (done, run, run_is) (ap (λ o. ok (last, o ∷ olds)) (old_is m f key old h there)),
        u',
        h',
      )
  run-Means (removes key ∷ calls) m f u h =
      let (m', old, done, there, changed) = remove-get m key u in
      let (last, run_is, u', h') =
        run-Means calls m' (put key none f) (remove-HasUniqueKeys m key u done)
          (put_lem m m' f key none h changed) in
      let olds = returned (put key none f) calls in
      (
        last,
        rw (done, run, run_is) (ap (λ o. ok (last, o ∷ olds)) (old_is m f key old h there)),
        u',
        h',
      )
  run-Means (clears ∷ calls) m f u h =
      run-Means calls (clear m) (λ j. none) tt (λ j. get_lem (clear m) j)

  -- From a new map, any sequence of `insert`, `remove` and `clear` runs without a panic and returns
  -- the old values that the same calls on a partial function return. The map that is left gives to
  -- every key what the function gives, and no key has two entries.
  pub map_is_function :
      (calls : List (Call K V))
      → (m' : VecMap K V) × (run new calls ≡ ok (m', returned (λ j. none) calls))
        × HasUniqueKeys m'.entries
        × Means m' (after (λ j. none) calls)
  unfolding new lookup
  map_is_function calls = run-Means calls new (λ j. none) tt (λ j. get_lem new j)
