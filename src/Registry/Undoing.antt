-- ===== src/Registry/Undoing.antt =====
-- `unregister` as the undoing of `register_unchecked_impl`.
use signal_hook.Base.{
  ℕ, ◌+◌, ◌<◌, ◌^◌, ◌≡◌, refl, true, none, some, List, ℤ, ◌==◌, if◌then◌else◌, int_eq, nat_eq,
  int_beq_iff, ok, ap, sym, ◌∙◌, Bool-cases, inl, inr,
}
use signal_hook.VecMap.Spec.{lookup}
use signal_hook.Registry.{Siginfo, Action, SigId, Slot, Libc, SigactionLaws, World}
use signal_hook.Registry.Handler.{deliver, passed_on}
use signal_hook.Registry.TableLaws.{with_action}
use signal_hook.Registry.State.{globals_of, slot_in, Coherent, with_slot}
use signal_hook.Registry.Register.{register_unchecked_impl, unregister}
use signal_hook.Registry.Watch.{Watch-ok}
use signal_hook.Registry.Atomic.{Registered}
use signal_hook.Registry.Registration.{register-Atomic}
use signal_hook.Registry.Erasing.{erase-last, lookup-last}
use signal_hook.Registry.Removal.{Removed, removal_is_atomic}

-- `unregister` undoes `register`. Where the kernel's `sigaction` is as its manual page says, the
-- table agrees with the kernel, the identifiers have not run out and the registration returns an
-- identifier, unregistering that identifier returns true. Then a delivery of another signal runs what
-- it ran before the registration, and one of this signal what `handler` passes it on to: what it ran
-- before, or nothing where that was the default action, which does not come back.
pub unregister-register :
    {F : Type 0} (c : Libc) (signal : ℤ) (action : Action F) (w : World c F) (id : SigId)
    → SigactionLaws c
    → Coherent c (globals_of w.globals) w.os
    → (globals_of w.globals).data_lock.next_id + 1 < 2 ^ 128
    → (register_unchecked_impl c signal action w).result ≡ ok id
    → let w' = (register_unchecked_impl c signal action w).last in
      let r = unregister c id w' in
      (r.result ≡ ok true)
      × ((t : ℤ) (i : Siginfo) (u : ℕ)
          → deliver c r.last t (some i) u
            ≡ (if signal == t then passed_on c w t (some i) u else deliver c w t (some i) u))
unregister-register {F} c signal action w id laws co room success =
    let watch = register-Atomic c laws signal action w co room in
    let w' = (register_unchecked_impl c signal action w).last in
    let (id_is, registered, co', kernel, (base, found, fresh, before, others, next, same)) =
      watch.returned id success in
    rw id_is (undone w' registered co' base found fresh before)
  where
    key : ℕ
    key = (globals_of w.globals).data_lock.next_id

    undone :
        (w' : World c F)
        → Registered c signal action w w'
        → Coherent c (globals_of w'.globals) w'.os
        → (base : Slot F)
        → slot_in (globals_of w'.globals) signal ≡ some (with_action base key action)
        → lookup key base.actions.entries ≡ none
        → ((i : Siginfo) (u : ℕ) → passed_on c w signal (some i) u ≡ with_slot c base signal i u)
        → let r = unregister c (record { signal = signal; action = key }) w' in
          (r.result ≡ ok true)
          × ((t : ℤ) (i : Siginfo) (u : ℕ)
              → deliver c r.last t (some i) u
                ≡ (if signal == t then passed_on c w t (some i) u else deliver c w t (some i) u))
    undone w' registered co' base found fresh before =
        let removal =
          removal_is_atomic c (record { signal = signal; action = key }) w' co'
            (with_action base key action) found action
            (lookup-last key action base.actions.entries fresh) in
        let (b, ended, (answer, removed, co'')) =
          Watch-ok _
            {Q = λ b w''.
              (b ≡ true)
              × Removed c (record { signal = signal; action = key }) w'
                  (with_action base key action) w''
              × Coherent c (globals_of w''.globals) w''.os}
            (unregister c (record { signal = signal; action = key }) w') removal in
        (
          ended ∙ ap ok answer,
          λ t i u. removed t i u ∙ elim (Bool-cases (signal == t)) [
            | inl hit ↦ rw hit (
                ap
                  (λ (es : List (ℕ × Action F)).
                    with_slot c (record base { actions = record { entries = es } }) t i u)
                  (erase-last key action base.actions.entries fresh)
                ∙ rw (← (int_beq_iff signal t).0 hit) (sym (before i u)))
            | inr miss ↦ rw miss (registered t i u ∙ rw miss refl)
          ],
        )
