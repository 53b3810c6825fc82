-- ===== src/VecMap/Laws.antt =====
-- The operations of vec_map.rs never fail an index, and do what `VecMap.Spec` says.
use signal_hook.Base.{
  EqTest, ◌==◌, ℕ, suc, ◌+◌, true, false, Option, none, some, List, [], ◌∷◌, ◌++◌, ok, index, set,
  ◌≡◌, refl, ap, inl, inr, ◌⊎◌, Bool-cases, arith, sym, ◌∙◌,
}
use signal_hook.VecMap.{
  VecMap, vec_remove, find_from, find, contains, get, get_mut, insert, remove, is_some, write_at,
}
use signal_hook.VecMap.Spec.{lookup, upsert, erase}

module _ {ℓ κ} {K : Type ℓ} {V : Type κ} ⦃e : EqTest K⦄ where
  -- What a search from `i` says of the entries that it walks.
  abbrev Finds : K → ℕ → List (K × V) → Option ℕ → Type (ℓ ⊔ κ)
  Finds key i es r =
      ((r ≡ none)
        × (lookup key es ≡ none)
        × ((v : V) → upsert key v es ≡ es ++ (key, v) ∷ [])
        × (erase key es ≡ es))
      ⊎ ((p : ℕ) × (kv : K × V) × (r ≡ some (i + p))
          × (index es p ≡ ok kv)
          × (lookup key es ≡ some kv.1)
          × ((v : V) → upsert key v es ≡ set es p (kv.0, v))
          × (vec_remove es p ≡ ok (kv, erase key es)))

  find_from-Finds : (key : K) (i : ℕ) (es : List (K × V)) → Finds key i es (find_from key i es)
  unfolding find_from lookup upsert erase
  find_from-Finds key i [] = inl (refl, refl, λ v. refl, refl)
  find_from-Finds key i ((k, v) ∷ rest) = elim (Bool-cases (k == key)) [
    | inl hit ↦ inr (
      0,
      (k, v),
      rw hit (ap some (omega arith)),
      refl,
      rw hit refl,
      (λ v'. rw hit refl),
      rw hit refl,
    )
    | inr miss ↦ elim (find_from-Finds key (i + 1) rest) [
      | inl (r, l, u, x) ↦ inl (
        rw miss r,
        rw miss l,
        (λ v'. rw miss (ap (◌∷◌ (k, v)) (u v'))),
        rw miss (ap (◌∷◌ (k, v)) x),
      )
      | inr (p, kv, r, ix, l, u, x) ↦ inr (
        suc p,
        kv,
        rw (miss, r) (ap some (omega arith)),
        ix,
        rw miss l,
        (λ v'. rw miss (ap (◌∷◌ (k, v)) (u v'))),
        rw (miss, x) refl,
      )
    ]
  ]

  -- `find` misses, or its position is that of the entry that counts.
  abbrev FindsIn : VecMap K V → K → Type (ℓ ⊔ κ)
  FindsIn m key =
      ((find m key ≡ none)
        × (lookup key m.entries ≡ none)
        × ((v : V) → upsert key v m.entries ≡ m.entries ++ (key, v) ∷ [])
        × (erase key m.entries ≡ m.entries))
      ⊎ ((p : ℕ) × (kv : K × V) × (find m key ≡ some p)
          × (index m.entries p ≡ ok kv)
          × (lookup key m.entries ≡ some kv.1)
          × ((v : V) → upsert key v m.entries ≡ set m.entries p (kv.0, v))
          × (vec_remove m.entries p ≡ ok (kv, erase key m.entries)))

  find-FindsIn : (m : VecMap K V) (key : K) → FindsIn m key
  unfolding find
  find-FindsIn m key = elim (find_from-Finds key 0 m.entries) [
    | inl miss ↦ inl miss
    | inr (p, kv, r, ix, l, u, x) ↦ inr (p, kv, r ∙ ap some (omega arith), ix, l, u, x)
  ]

  -- `get` returns the value of the first entry of the key.
  pub get_lem : (m : VecMap K V) (key : K) → get m key ≡ ok (lookup key m.entries)
  unfolding get
  get_lem m key = elim (find-FindsIn m key) [
    | inl (r, l, u, x) ↦ rw (r, get, l) refl
    | inr (p, kv, r, ix, l, u, x) ↦ rw (r, get, ix, l) refl
  ]

  pub contains_lem :
      (m : VecMap K V) (key : K) → contains m key ≡ false → lookup key m.entries ≡ none
  unfolding contains is_some
  contains_lem m key h = elim (find-FindsIn m key) [
    | inl (r, l, u, x) ↦ l
    | inr (p, kv, r, ix, l, u, x) ↦ ground arith
  ]

  pub contains-true :
      (m : VecMap K V) (key : K) → contains m key ≡ true → (v : V) × (lookup key m.entries ≡ some v)
  unfolding contains is_some
  contains-true m key h = elim (find-FindsIn m key) [
    | inl (r, l, u, x) ↦ ground arith
    | inr (p, kv, r, ix, l, u, x) ↦ (kv.1, l)
  ]

  -- The write through the reference is an `upsert`.
  pub get_mut-none :
      (m : VecMap K V) (key : K) → lookup key m.entries ≡ none → get_mut m key ≡ ok none
  unfolding get_mut
  get_mut-none m key h = elim (find-FindsIn m key) [
    | inl (r, l, u, x) ↦ rw (r, get_mut) refl
    | inr (p, kv, r, ix, l, u, x) ↦ cc
  ]

  pub get_mut-some :
      (m : VecMap K V) (key : K) (v : V)
      → lookup key m.entries ≡ some v
      → (write : V → VecMap K V) × (get_mut m key ≡ ok (some (v, write)))
        × ((w : V) → write w ≡ record { entries = upsert key w m.entries })
  unfolding get_mut
  get_mut-some m key v h = elim (find-FindsIn m key) [
    | inl (r, l, u, x) ↦ absurd (cc)
    | inr (p, kv, r, ix, l, u, x) ↦ (
      write_at m p kv,
      rw (r, get_mut, ix)
          (let same : kv.1 ≡ v = cc in ap (λ (a : V). ok (some (a, write_at m p kv))) same),
      λ w. ap (λ es. record { entries = es }) (sym (u w)),
    )
  ]

  pub insert_lem :
      (m : VecMap K V) (key : K) (value : V)
      → insert m key value
        ≡ ok (record { entries = upsert key value m.entries }, lookup key m.entries)
  unfolding insert
  insert_lem m key value = elim (find-FindsIn m key) [
    | inl (r, l, u, x) ↦ rw (get_mut-none m key l, insert, l, u value) refl
    | inr (p, kv, r, ix, l, u, x) ↦
        let (write, g, w) = get_mut-some m key kv.1 l in rw (g, insert, l, w value) refl
  ]

  pub remove_lem :
      (m : VecMap K V) (key : K)
      → remove m key ≡ ok (record { entries = erase key m.entries }, lookup key m.entries)
  unfolding remove
  remove_lem m key = elim (find-FindsIn m key) [
    | inl (r, l, u, x) ↦ rw (r, remove, l, x) refl
    | inr (p, kv, r, ix, l, u, x) ↦ rw (r, remove, x, l) refl
  ]
