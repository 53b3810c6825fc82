-- ===== src/Registry/Removal.antt =====
-- `unregister`, as a handler on any thread can watch it.
use signal_hook.Base.{◌≡◌, true, false, none, some, ℤ, ◌==◌, int_eq, nat_eq, if◌then◌else◌, ◌⊎◌}
use signal_hook.VecMap.Spec.{lookup}
use signal_hook.VecMap.Map.{HasUniqueKeys, erase-HasUniqueKeys}
use signal_hook.Registry.{Action, SigId, Slot, GlobalData, Libc, World}
use signal_hook.Registry.Tables.{remove_action}
use signal_hook.Registry.TableLaws.{without, remove_action_found, remove_action_missing}
use signal_hook.Registry.State.{globals_of, slot_in, Coherent, IdsBelow}
use signal_hook.Registry.Register.{unregister}
use signal_hook.Registry.Watch.{Watch, Watch-imply}
use signal_hook.Registry.Erasing.{erase-IdsBelow}
use signal_hook.Registry.Replacing.{
  Kept, Replaced, replaced_world, Replaced-world, replaced-Coherent, slots_after, changing_ends,
  changing_nothing,
}

module _ {F : Type 0} (c : Libc) (id : SigId) (w0 : World c F) where
  abbrev old_globals : GlobalData F
  old_globals = globals_of w0.globals

  -- Every delivery runs what it ran in `w0`, less the action.
  abbrev pub Removed : Slot F → World c F → Type 0
  Removed slot w = Replaced c w0 id.signal (without slot id.action) w

  abbrev Absent : Type 0
  Absent =
      (slot : Slot F)
      → slot_in old_globals id.signal ≡ some slot
      → lookup id.action slot.actions.entries ≡ none

  module _ (co : Coherent c old_globals w0.os) where
    module _ (slot : Slot F) (found : slot_in old_globals id.signal ≡ some slot) where
      pub below : IdsBelow old_globals.data_lock.next_id (without slot id.action).actions.entries
      below =
          erase-IdsBelow old_globals.data_lock.next_id id.action slot.actions.entries
            (co.below id.signal slot found)

      pub distinct : HasUniqueKeys (without slot id.action).actions.entries
      distinct =
          erase-HasUniqueKeys id.action slot.actions.entries (co.distinct id.signal slot found)

      abbrev pub removed_world : World c F
      removed_world =
          replaced_world c w0 co id.signal slot (without slot id.action) found below distinct

      pub removal_ends :
          (action : Action F)
          → lookup id.action slot.actions.entries ≡ some action
          → Watch
              (λ w. Kept c w0 w ⊎ Removed slot w)
              (λ b w. (b ≡ true) × (w ≡ removed_world))
              (λ e w. ⊥)
              (unregister c id w0)
      unfolding unregister
      removal_ends action there =
          changing_ends c w0 co id.signal slot (without slot id.action) found below distinct
            (λ sigdata. remove_action sigdata id)
            (remove_action_found old_globals.data_lock id slot action found there)

      pub Removed-world : Removed slot removed_world
      Removed-world =
          Replaced-world c w0 co id.signal slot (without slot id.action) found below distinct

      pub removed-Coherent : Coherent c (globals_of removed_world.globals) w0.os
      removed-Coherent =
          replaced-Coherent c w0 co id.signal slot (without slot id.action) found below distinct

      pub final :
          (t : ℤ)
          → slot_in (globals_of removed_world.globals) t
            ≡ (if id.signal == t then some (without slot id.action) else slot_in old_globals t)
      final = slots_after c w0 co id.signal slot (without slot id.action) found below distinct

      -- `unregister` of an action that is there, where the table agrees with the kernel: it returns
      -- true and does not panic. Each visible state runs for every signal what ran before, or that
      -- less the action, the last one the latter, and the table still agrees with the kernel.
      pub removal_is_atomic :
          (action : Action F)
          → lookup id.action slot.actions.entries ≡ some action
          → Watch
              (λ w. Kept c w0 w ⊎ Removed slot w)
              (λ b w. (b ≡ true) × Removed slot w × Coherent c (globals_of w.globals) w.os)
              (λ e w. ⊥)
              (unregister c id w0)
      removal_is_atomic action there =
          Watch-imply (λ w p. p)
            (λ b w (answer, at). rw at (answer, Removed-world, removed-Coherent))
            (removal_ends action there)

    -- `unregister` of an action that is not there, where the table agrees with the kernel: it returns
    -- false, no state that it makes visible changes what any delivery runs, and the table still
    -- agrees with the kernel.
    pub removal_of_absent :
        Absent
        → Watch
            (Kept c w0)
            (λ b w. (b ≡ false) × Kept c w0 w × Coherent c (globals_of w.globals) w.os)
            (λ e w. ⊥)
            (unregister c id w0)
    unfolding unregister
    removal_of_absent missing =
        let (sigdata, run) = remove_action_missing old_globals.data_lock id missing in
        changing_nothing c w0 co (λ sigdata. remove_action sigdata id) sigdata run
