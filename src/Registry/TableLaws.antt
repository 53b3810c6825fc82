-- ===== src/Registry/TableLaws.antt =====
-- The table operations, by what they leave in the table.
use signal_hook.Base.{
  ℕ, ◌≡◌, refl, true, false, none, some, [], ◌∷◌, ◌++◌, ℤ, int_eq, nat_eq, ok, Option-cases, inl,
  inr,
}
use signal_hook.VecMap.Spec.{lookup, upsert, erase}
use signal_hook.VecMap.Laws.{insert_lem, get_mut-some, get_mut-none, remove_lem}
use signal_hook.VecMap.Map.{upsert-none}
use signal_hook.Registry.{Action, Slot, SignalData, SigId}
use signal_hook.Registry.Tables.{is_none, add_to_slot, add_slot, remove_action}

module _ {F : Type 0} where
  -- The slot with the action behind the others.
  abbrev pub with_action : Slot F → ℕ → Action F → Slot F
  with_action slot id action = record slot {
    actions = record { entries = slot.actions.entries ++ (id, action) ∷ [] };
  }

  abbrev pub put_slot : SignalData F → ℤ → Slot F → SignalData F
  put_slot sigdata signal slot = record sigdata {
    signals = record { entries = upsert signal slot sigdata.signals.entries };
  }

  pub add_to_slot_lem :
      (sigdata : SignalData F) (signal : ℤ) (id : ℕ) (action : Action F) (slot : Slot F)
      → lookup signal sigdata.signals.entries ≡ some slot
      → lookup id slot.actions.entries ≡ none
      → add_to_slot sigdata signal id action
        ≡ ok (put_slot sigdata signal (with_action slot id action))
  unfolding add_to_slot
  add_to_slot_lem sigdata signal id action slot found fresh =
      let (write, place, writes) = get_mut-some sigdata.signals signal slot found in
      rw
        (
          place,
          add_to_slot,
          insert_lem slot.actions id action,
          fresh,
          writes _,
          upsert-none id action slot.actions.entries fresh,
        )
        refl

  pub add_slot_lem :
      (sigdata : SignalData F) (signal : ℤ) (id : ℕ) (action : Action F) (slot : Slot F)
      → lookup id slot.actions.entries ≡ none
      → add_slot sigdata signal id action slot
        ≡ ok (put_slot sigdata signal (with_action slot id action))
  unfolding add_slot
  add_slot_lem sigdata signal id action slot fresh =
      rw
        (
          insert_lem slot.actions id action,
          add_slot,
          insert_lem sigdata.signals signal (record slot {
            actions = record { entries = upsert id action slot.actions.entries };
          }),
          upsert-none id action slot.actions.entries fresh,
        )
        refl

  -- The slot less one action.
  abbrev pub without : Slot F → ℕ → Slot F
  without slot id = record slot { actions = record { entries = erase id slot.actions.entries } }

  pub remove_action_found :
      (sigdata : SignalData F) (id : SigId) (slot : Slot F) (action : Action F)
      → lookup id.signal sigdata.signals.entries ≡ some slot
      → lookup id.action slot.actions.entries ≡ some action
      → remove_action sigdata id ≡ ok (put_slot sigdata id.signal (without slot id.action), true)
  unfolding remove_action is_none
  remove_action_found sigdata id slot action found there =
      let (write, place, writes) = get_mut-some sigdata.signals id.signal slot found in
      rw (place, remove_action, remove_lem slot.actions id.action, there, writes _) refl

  pub remove_action_missing :
      (sigdata : SignalData F) (id : SigId)
      → ((slot : Slot F)
          → lookup id.signal sigdata.signals.entries ≡ some slot
          → lookup id.action slot.actions.entries ≡ none)
      → (sigdata' : SignalData F) × (remove_action sigdata id ≡ ok (sigdata', false))
  unfolding remove_action is_none
  remove_action_missing sigdata id missing =
      elim (Option-cases (lookup id.signal sigdata.signals.entries)) [
        | inl e ↦ (sigdata, rw (get_mut-none sigdata.signals id.signal e, remove_action) refl)
        | inr (slot, found) ↦
            let (write, place, writes) = get_mut-some sigdata.signals id.signal slot found in
            (
              record sigdata { signals = write (without slot id.action) },
              rw (place, remove_action, remove_lem slot.actions id.action, missing slot found) refl,
            )
      ]
