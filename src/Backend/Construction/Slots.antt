-- ===== src/Backend/Construction/Slots.antt =====
-- What `add_signal` of src/iterator/backend.rs makes of the registry, up to its note of the
-- identifier.
use signal_hook.Base.{
  ◌≡◌, ◌≢◌, refl, false, List, ℤ, pos, negsuc, int_eq, nat_eq, Outcome, ok, err, stop, sym, ◌∙◌,
  inl, inr, ◌⊎◌,
}
use signal_hook.Registry.{informed, SigId, Libc, World}
use signal_hook.Registry.Guard.{forbidden_guard}
use signal_hook.Registry.Register.{register_sigaction, register_unchecked, register_unchecked_impl}
use signal_hook.Backend.{Exfiltrator, is_negative, check, register_slot}
use signal_hook.Backend.Adding.{pieces}

-- The registration went through, or it panicked before it touched the registry.
abbrev pub Reached : (c : Libc) → World c ℤ → ℤ → World c ℤ → Outcome SigId → Type 0
Reached c w signal w' o =
    (is_negative signal ≡ false)
    × (w' ≡ (register_unchecked_impl c signal (informed signal) w).last)
    × (o ≡ (register_unchecked_impl c signal (informed signal) w).result)

abbrev pub Stopped : (c : Libc) → World c ℤ → World c ℤ → Outcome SigId → Type 0
Stopped c w w' o = (w' ≡ w) × ((id : SigId) → o ≢ ok id)

register_sigaction_ways :
    (c : Libc) (w : World c ℤ) (signal : ℤ)
    → is_negative signal ≡ false
    → Reached c w signal
        (register_sigaction c signal signal w).last
        (register_sigaction c signal signal w).result
      ⊎ Stopped c w
          (register_sigaction c signal signal w).last
          (register_sigaction c signal signal w).result
unfolding register_unchecked
register_sigaction_ways c w signal positive = elim (forbidden_guard c signal signal w) [
  | inl (n, there, same, same') ↦ rw same' (inr (refl, λ id e. cc))
  | inr (others, same, same') ↦ rw same' (inl (positive, refl, refl))
]

check_positive :
    {S O : Type 0} (ex : Exfiltrator S O) (slots : List S) (signal : ℤ) (slot : S)
    → check ex slots signal ≡ ok slot
    → is_negative signal ≡ false
unfolding check
check_positive ex slots (pos n) slot h = refl
check_positive ex slots (negsuc n) slot h = cc

module _ {S O : Type 0} (ex : Exfiltrator S O) (c : Libc) (slots : List S) (w : World c ℤ)
    (signal : ℤ) where
  abbrev run : List S × World c ℤ × Outcome SigId
  run = register_slot ex c slots w signal

  abbrev Ways : Type 0
  Ways = Reached c w signal run.1 run.2 ⊎ Stopped c w run.1 run.2

  after_init :
      (slot slot' : S) (o : Outcome (Unit {0}))
      → check ex slots signal ≡ ok slot
      → ex.init slot signal ≡ (slot', o)
      → Ways
  unfolding register_slot
  after_init slot slot' (ok u) e e' =
      rw (e, register_slot, e')
        (register_sigaction_ways c w signal (check_positive ex slots signal slot e))
  after_init slot slot' (err n) e e' = rw (e, register_slot, e') (inr (refl, λ id q. cc))
  after_init slot slot' (stop s) e e' = rw (e, register_slot, e') (inr (refl, λ id q. cc))

  register_slot_ways : Ways
  unfolding register_slot
  register_slot_ways = by_check (check ex slots signal) refl
    where
      by_check : (o : Outcome S) → check ex slots signal ≡ o → Ways
      by_check (ok slot) e = after_init slot (ex.init slot signal).0 (ex.init slot signal).1 e refl
      by_check (err n) e = rw (e, register_slot) (inr (refl, λ id q. cc))
      by_check (stop s) e = rw (e, register_slot) (inr (refl, λ id q. cc))

  pub register_slot_is :
      (slots' : List S) (w' : World c ℤ) (o : Outcome SigId)
      → register_slot ex c slots w signal ≡ (slots', w', o)
      → Reached c w signal w' o ⊎ Stopped c w w' o
  register_slot_is slots' w' o e =
      let (slots_is, w_is, o_is) = pieces run (slots', w', o) e in
      elim register_slot_ways [
        | inl (positive, at, ended) ↦ inl (positive, sym w_is ∙ at, sym o_is ∙ ended)
        | inr (same, never) ↦ inr (sym w_is ∙ same, λ id q. never id (o_is ∙ q))
      ]
