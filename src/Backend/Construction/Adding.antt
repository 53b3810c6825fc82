-- ===== src/Backend/Construction/Adding.antt =====
-- What a call of `Handle::add_signal` leaves for the drop of `DeliveryState`.
use signal_hook.Base.{
  ℕ, ◌+◌, ◌<◌, ◌≤◌, ◌^◌, ◌≡◌, refl, Bool, true, false, ℤ, int_eq, nat_eq, Outcome, ok, err, stop,
  arith, inl, inr,
}
use signal_hook.Registry.{Libc, SigactionLaws, World}
use signal_hook.Backend.{Exfiltrator, SignalDelivery, add_signal, poison}
use signal_hook.Backend.Adding.{ways}
use signal_hook.Backend.Construction.Dropping.{Undoable}
use signal_hook.Backend.Construction.Ids.{next_of, after_call}
use signal_hook.Backend.Construction.Slots.{register_slot_is}

-- What a call of `add_signal` says of the mutex.
abbrev pub Marks : Bool → Outcome (Unit {0}) → Type 0
Marks poisoned (ok u) = poisoned ≡ false
Marks poisoned (err e) = poisoned ≡ false
Marks poisoned (stop s) = poisoned ≡ true

module _ {S O : Type 0} (ex : Exfiltrator S O) (c : Libc) where
  -- The mutex is poisoned by a panic alone.
  pub add_signal-Marks :
      (d : SignalDelivery S) (w : World c ℤ) (signal : ℤ)
      → d.delivery_state.poisoned ≡ false
      → let r = add_signal ex c d w signal in Marks r.0.delivery_state.poisoned r.2
  unfolding poison
  add_signal-Marks d w signal fine = elim (ways ex c d w signal) [
    | inl (id, known, result, fine') ↦ rw result fine
    | inr (inl (slots, w', id, unknown, added, result, fine')) ↦ rw result fine
    | inr (inr (inl (slots, w', unknown, inl (e, ran_is, result)))) ↦ rw result fine
    | inr (inr (inl (slots, w', unknown, inr (s, ran_is, result)))) ↦ rw result refl
    | inr (inr (inr (inl (result, bad)))) ↦ rw result bad
    | inr (inr (inr (inr result))) ↦ rw result refl
  ]

  module _ (laws : SigactionLaws c) (w0 : World c ℤ) where
    abbrev pub Restores : World c ℤ → SignalDelivery S × World c ℤ × Outcome (Unit {0}) → ℕ → Type 0
    Restores w r n =
        Undoable c w0 r.1 0 r.0.delivery_state.registered_signal_ids × (next_of r.1 ≤ next_of w + n)

    -- What a call adds can be undone.
    pub add_signal-Restores :
        (d : SignalDelivery S) (w : World c ℤ) (signal : ℤ)
        → Undoable c w0 w 0 d.delivery_state.registered_signal_ids
        → next_of w + 1 < 2 ^ 128
        → Restores w (add_signal ex c d w signal) 1
    unfolding poison
    add_signal-Restores d w signal h room = elim (ways ex c d w signal) [
      | inl (id, known, result, fine) ↦ rw result (h, omega arith)
      | inr (inl (slots, w', id, unknown, added, result, fine)) ↦ rw result (
          after_call c laws w0 w d.delivery_state.registered_signal_ids h room signal w' (ok id)
            unknown (register_slot_is ex c d.slots w signal slots w' _ added))
      | inr (inr (inl (slots, w', unknown, inl (e, ran_is, result)))) ↦ rw result (
          after_call c laws w0 w d.delivery_state.registered_signal_ids h room signal w' (err e)
            unknown (register_slot_is ex c d.slots w signal slots w' _ ran_is))
      | inr (inr (inl (slots, w', unknown, inr (s, ran_is, result)))) ↦ rw result (
          after_call c laws w0 w d.delivery_state.registered_signal_ids h room signal w' (stop s)
            unknown (register_slot_is ex c d.slots w signal slots w' _ ran_is))
      | inr (inr (inr (inl (result, bad)))) ↦ rw result (h, omega arith)
      | inr (inr (inr (inr result))) ↦ rw result (h, omega arith)
    ]
