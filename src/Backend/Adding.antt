-- ===== src/Backend/Adding.antt =====
-- `Handle::add_signal`: its ways, and what it records.
use signal_hook.Base.{
  ℕ, zero, suc, ◌≤◌, ◌≡◌, refl, Option, none, some, List, [], ◌∷◌, ℤ, Outcome, ok, err, stop, Stop,
  panicked, index, length, set, arith, ap, sym, ◌∙◌, inl, inr, ◌⊎◌, true, false, Bool-cases,
}
use signal_hook.Registry.{SigId, Libc, World}
use signal_hook.Backend.{
  Exfiltrator, DeliveryState, SignalDelivery, as_usize, register_slot, add_signal, add_locked,
  poison,
}

module _ {S O : Type 0} (ex : Exfiltrator S O) (c : Libc) (d : SignalDelivery S) (w : World c ℤ)
    (signal : ℤ) where
  abbrev pub ids : List (Option SigId)
  ids = d.delivery_state.registered_signal_ids

  -- What a successful registration leaves.
  abbrev pub recorded : List S → SigId → SignalDelivery S
  recorded slots id =
      let state : DeliveryState = record d.delivery_state {
        registered_signal_ids = set ids (as_usize signal) (some id);
      } in
      record d { slots = slots; delivery_state = state }

  abbrev pub run : List S × World c ℤ × Outcome SigId
  run = register_slot ex c d.slots w signal

  -- The ways of a call.
  abbrev pub Known : Type 0
  Known =
      (id : SigId) × (index ids (as_usize signal) ≡ ok (some id))
      × (add_signal ex c d w signal ≡ (d, w, ok tt))
      × (d.delivery_state.poisoned ≡ false)

  abbrev pub Added : Type 0
  Added =
      (slots : List S) × (w' : World c ℤ) × (id : SigId) × (index ids (as_usize signal) ≡ ok none)
      × (register_slot ex c d.slots w signal ≡ (slots, w', ok id))
      × (add_signal ex c d w signal ≡ (recorded slots id, w', ok tt))
      × (d.delivery_state.poisoned ≡ false)

  abbrev pub Failed : Type 0
  Failed =
      (slots : List S) × (w' : World c ℤ) × (index ids (as_usize signal) ≡ ok none)
      × (((e : ℤ) × (register_slot ex c d.slots w signal ≡ (slots, w', err e))
            × (add_signal ex c d w signal ≡ (record d { slots = slots }, w', err e)))
          ⊎ ((s : Stop) × (register_slot ex c d.slots w signal ≡ (slots, w', stop s))
              × (add_signal ex c d w signal ≡ (poison (record d { slots = slots }), w', stop s))))

  -- The mutex was poisoned before, or the signal has no place in the vector.
  abbrev pub Beyond : Type 0
  Beyond =
      ((add_signal ex c d w signal ≡ (d, w, stop panicked)) × (d.delivery_state.poisoned ≡ true))
      ⊎ (add_signal ex c d w signal ≡ (poison d, w, stop panicked))

  index_outcome :
      {A : Type 0} (xs : List A) (i : ℕ)
      → ((a : A) × (index xs i ≡ ok a)) ⊎ ((index xs i ≡ stop panicked) × (length xs ≤ i))
  index_outcome [] i = inr (refl, omega arith)
  index_outcome (x ∷ xs) zero = inl (x, refl)
  index_outcome (x ∷ xs) (suc i) = elim (index_outcome xs i) [
    | inl found ↦ inl found
    | inr (e, le) ↦ inr (e, omega arith)
  ]

  unlocked :
      d.delivery_state.poisoned ≡ false → add_signal ex c d w signal ≡ add_locked ex c d w signal
  unfolding add_signal
  unlocked fine = rw (fine, add_signal) refl

  known_lem :
      {id : SigId}
      → d.delivery_state.poisoned ≡ false
      → index ids (as_usize signal) ≡ ok (some id)
      → add_signal ex c d w signal ≡ (d, w, ok tt)
  unfolding add_locked
  known_lem fine there = unlocked fine ∙ rw (there, add_locked) refl

  pub ways : Known ⊎ (Added ⊎ (Failed ⊎ Beyond))
  unfolding add_signal add_locked
  ways = elim (Bool-cases d.delivery_state.poisoned) [
    | inl bad ↦ inr (inr (inr (inl (rw (bad, add_signal) refl, bad))))
    | inr fine ↦ elim (index_outcome ids (as_usize signal)) [
      | inl (some id, e) ↦ inl (id, e, known_lem fine e, fine)
      | inl (none, e) ↦ by_result fine e (register_slot ex c d.slots w signal).2 refl
      | inr (e, le) ↦ inr (inr (inr (inr (unlocked fine ∙ rw (e, add_locked) refl))))
    ]
  ]
    where
      by_result :
          d.delivery_state.poisoned ≡ false
          → index ids (as_usize signal) ≡ ok none
          → (o : Outcome SigId) → (register_slot ex c d.slots w signal).2 ≡ o
          → Known ⊎ (Added ⊎ (Failed ⊎ Beyond))
      by_result fine e (ok id) e' = inr (
          inl (
            run.0,
            run.1,
            id,
            e,
            ap (λ o. (run.0, run.1, o)) e',
            unlocked fine ∙ rw (e, add_locked, e') refl,
            fine,
          ))
      by_result fine e (err n) e' = inr (
          inr (
            inl (
              run.0,
              run.1,
              e,
              inl (n, ap (λ o. (run.0, run.1, o)) e', unlocked fine ∙ rw (e, add_locked, e') refl),
            )))
      by_result fine e (stop s) e' = inr (
          inr (
            inl (
              run.0,
              run.1,
              e,
              inr (s, ap (λ o. (run.0, run.1, o)) e', unlocked fine ∙ rw (e, add_locked, e') refl),
            )))

pub index-set_self :
    {A : Type 0} (xs : List A) (i : ℕ) (v a : A) → index xs i ≡ ok a → index (set xs i v) i ≡ ok v
index-set_self [] i v a h = cc
index-set_self (x ∷ xs) zero v a h = refl
index-set_self (x ∷ xs) (suc i) v a h = index-set_self xs i v a h

pub pieces : {A B C : Type 0} (t u : A × B × C) → t ≡ u → (t.0 ≡ u.0) × (t.1 ≡ u.1) × (t.2 ≡ u.2)
pieces {A} {B} {C} t u e =
    (ap (λ (x : A × B × C). x.0) e, ap (λ (x : A × B × C). x.1) e, ap (λ (x : A × B × C). x.2) e)

pub outcome_of :
    {S : Type 0} {c : Libc} {t u : SignalDelivery S × World c ℤ × Outcome (Unit {0})}
    → t ≡ u
    → t.2 ≡ u.2
outcome_of {S} {c} h = ap (λ (x : SignalDelivery S × World c ℤ × Outcome (Unit {0})). x.2) h

err_not_ok : (e : ℤ) → ◌≡◌ {A = Outcome (Unit {0})} (err e) (ok tt) → ⊥
err_not_ok e h = cc

pub stop_not_ok : (s : Stop) → ◌≡◌ {A = Outcome (Unit {0})} (stop s) (ok tt) → ⊥
stop_not_ok s h = cc

-- `add_signal` is idempotent: after a call that returned `Ok`, the signal has an identifier in
-- `registered_signal_ids`, and a second call returns `Ok` and changes nothing at all.
pub add_signal_idempotent :
    {S O : Type 0} (ex : Exfiltrator S O) (c : Libc) (d d' : SignalDelivery S) (w w' : World c ℤ)
    (signal : ℤ)
    → add_signal ex c d w signal ≡ (d', w', ok tt)
    → ((id : SigId) × (index d'.delivery_state.registered_signal_ids (as_usize signal)
          ≡ ok (some id)))
      × (add_signal ex c d' w' signal ≡ (d', w', ok tt))
add_signal_idempotent {S} ex c d d' w w' signal success = elim (ways ex c d w signal) [
  | inl (id, known, unchanged, fine) ↦
      let (d_is, w_is, o_is) = pieces (d, w, ok tt) (d', w', ok tt) (sym unchanged ∙ success) in
      ((id, rw (← d_is) known), rw (← d_is, ← w_is) unchanged)
  | inr (inl (slots, w1, id, unknown, added, result, fine)) ↦
      let (d_is, w_is, o_is) =
        pieces (recorded ex c d w signal slots id, w1, ok tt) (d', w', ok tt)
          (sym result ∙ success) in
      let there : index (recorded ex c d w signal slots id).delivery_state.registered_signal_ids
            (as_usize signal)
          ≡ ok (some id) =
        index-set_self d.delivery_state.registered_signal_ids (as_usize signal) (some id) none
          unknown in
      rw (← d_is)
        ((id, there), known_lem ex c (recorded ex c d w signal slots id) w' signal fine there)
  | inr (inr (inl (slots, w1, unknown, why))) ↦ absurd (elim why [
    | inl (e, ran_is, result) ↦ err_not_ok e (outcome_of (sym result ∙ success))
    | inr (s, ran_is, result) ↦ stop_not_ok s (outcome_of (sym result ∙ success))
  ])
  | inr (inr (inr (inl (beyond, bad)))) ↦
      absurd (stop_not_ok panicked (outcome_of (sym beyond ∙ success)))
  | inr (inr (inr (inr beyond))) ↦ absurd (stop_not_ok panicked (outcome_of (sym beyond ∙ success)))
]
