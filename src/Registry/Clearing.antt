-- ===== src/Registry/Clearing.antt =====
-- `unregister_signal`, as a handler on any thread can watch it.
use signal_hook.Base.{
  ℕ, ◌≡◌, refl, true, false, none, some, ok, List, [], ◌∷◌, ℤ, int_eq, nat_eq, Option-cases, inl,
  inr, ◌⊎◌,
}
use signal_hook.VecMap.{is_empty, is_nil, clear}
use signal_hook.VecMap.Laws.{get_mut-some, get_mut-none}
use signal_hook.VecMap.Spec.{lookup}
use signal_hook.Registry.{Action, Slot, SignalData, GlobalData, Libc, World}
use signal_hook.Registry.Tables.{clear_actions}
use signal_hook.Registry.TableLaws.{put_slot}
use signal_hook.Registry.State.{globals_of, slot_in, Coherent}
use signal_hook.Registry.Register.{unregister_signal}
use signal_hook.Registry.Watch.{Watch, Watch-imply}
use signal_hook.Registry.Replacing.{
  Kept, Replaced, Replaced-world, replaced-Coherent, changing_ends, changing_nothing,
}

-- The slot with the previous handler alone.
abbrev pub emptied : {F : Type 0} → Slot F → Slot F
emptied slot = record slot { actions = record { entries = [] } }

module _ {F : Type 0} (sigdata : SignalData F) (signal : ℤ) where
  pub clear_none :
      lookup signal sigdata.signals.entries ≡ none
      → clear_actions sigdata signal ≡ ok (sigdata, false)
  unfolding clear_actions
  clear_none e = rw (get_mut-none sigdata.signals signal e, clear_actions) refl

  pub clear_empty :
      (slot : Slot F)
      → lookup signal sigdata.signals.entries ≡ some slot
      → slot.actions.entries ≡ []
      → clear_actions sigdata signal ≡ ok (sigdata, false)
  unfolding clear_actions is_empty is_nil
  clear_empty slot e none_there =
      let (write, place, writes) = get_mut-some sigdata.signals signal slot e in
      rw (place, clear_actions, none_there) refl

  pub clear_some :
      (slot : Slot F) (first : ℕ × Action F) (others : List (ℕ × Action F))
      → lookup signal sigdata.signals.entries ≡ some slot
      → slot.actions.entries ≡ first ∷ others
      → clear_actions sigdata signal ≡ ok (put_slot sigdata signal (emptied slot), true)
  unfolding clear_actions is_empty is_nil clear
  clear_some slot first others e there =
      let (write, place, writes) = get_mut-some sigdata.signals signal slot e in
      rw (place, clear_actions, there, writes (emptied slot)) refl

module _ {F : Type 0} (c : Libc) (signal : ℤ) (w0 : World c F) where
  abbrev old_globals : GlobalData F
  old_globals = globals_of w0.globals

  -- The actions go at once.
  abbrev pub Clears : Slot F → Type 0
  Clears slot =
      Watch (λ w. Kept c w0 w ⊎ Replaced c w0 signal (emptied slot) w)
        (λ b w.
          (b ≡ true)
          × Replaced c w0 signal (emptied slot) w
          × Coherent c (globals_of w.globals) w.os)
        (λ e w. ⊥) (unregister_signal c signal w0)

  abbrev pub Untouched : Type 0
  Untouched =
      Watch (Kept c w0) (λ b w. (b ≡ false) × Kept c w0 w × Coherent c (globals_of w.globals) w.os)
        (λ e w. ⊥) (unregister_signal c signal w0)

  abbrev pub Ways : Type 0
  Ways =
      ((slot : Slot F) × (first : ℕ × Action F) × (others : List (ℕ × Action F)) × (slot_in
            old_globals signal
          ≡ some slot)
        × (slot.actions.entries ≡ first ∷ others)
        × Clears slot)
      ⊎ (((slot_in old_globals signal ≡ none)
            ⊎ ((slot : Slot F) × (slot_in old_globals signal ≡ some slot)
                × (slot.actions.entries ≡ [])))
          × Untouched)

  module _ (co : Coherent c old_globals w0.os) where
    nothing :
        clear_actions old_globals.data_lock signal ≡ ok (old_globals.data_lock, false) → Untouched
    unfolding unregister_signal
    nothing made = changing_nothing c w0 co (λ d. clear_actions d signal) old_globals.data_lock made

    clears :
        (slot : Slot F) (first : ℕ × Action F) (others : List (ℕ × Action F))
        → slot_in old_globals signal ≡ some slot
        → slot.actions.entries ≡ first ∷ others
        → Clears slot
    unfolding unregister_signal
    clears slot first others found there =
        Watch-imply (λ w p. p)
          (λ b w (answer, at). rw at (
            answer,
            Replaced-world c w0 co signal slot (emptied slot) found tt tt,
            replaced-Coherent c w0 co signal slot (emptied slot) found tt tt,
          ))
          (changing_ends c w0 co signal slot (emptied slot) found tt tt
            (λ d. clear_actions d signal)
            (clear_some old_globals.data_lock signal slot first others found there))

    -- `unregister_signal`, where the table agrees with the kernel, does not panic, and no handler sees
    -- it half done. If the signal has actions it returns true: each visible state runs for every
    -- signal what ran before, or so it does but for this signal its previous handler alone, the last
    -- one the latter. Else it returns false and no visible state changes what any delivery
    -- runs. The table still agrees with the kernel.
    pub clearing_is_atomic : Ways
    clearing_is_atomic = elim (Option-cases (slot_in old_globals signal)) [
      | inl missing ↦ inr (inl missing, nothing (clear_none old_globals.data_lock signal missing))
      | inr (slot, found) ↦ by_actions slot found slot.actions.entries refl
    ]
      where
        by_actions :
            (slot : Slot F)
            → slot_in old_globals signal ≡ some slot
            → (es : List (ℕ × Action F)) → slot.actions.entries ≡ es
            → Ways
        by_actions slot found [] e =
            inr (
              inr (slot, found, e),
              nothing (clear_empty old_globals.data_lock signal slot found e),
            )
        by_actions slot found (first ∷ others) e =
            inl (slot, first, others, found, e, clears slot first others found e)
