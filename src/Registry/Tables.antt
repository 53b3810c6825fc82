-- ===== src/Registry/Tables.antt =====
-- What registration and its undoing do to a copy of the table, before it is stored.
use signal_hook.Base.{
  ℕ, ◌+◌, ◌%◌, ◌^◌, Bool, true, false, Option, none, some, ℤ, int_eq, nat_eq, Outcome, ok, ◌>>=◌,
  ◌>>◌, assert, unwrap, not, if◌then◌else◌,
}
use signal_hook.VecMap
use signal_hook.Registry.{Action, Slot, SignalData, SigId}

unfoldable pub is_none {ℓ} : {A : Type ℓ} → Option A → Bool
is_none none = true
is_none (some a) = false

-- `next_id += 1` on a `u128`, which wraps in a release build.
abbrev pub next : ℕ → ℕ
next id = (id + 1) % 2 ^ 128

module _ {F : Type 0} where
  -- The copy with `next_id` advanced.
  abbrev pub advance : SignalData F → SignalData F
  advance sigdata = record sigdata { next_id = next sigdata.next_id }

  -- `register_unchecked_impl`, the branch for a signal that has a slot.
  unfoldable pub add_to_slot : SignalData F → ℤ → ℕ → Action F → Outcome (SignalData F)
  unfolding is_none
  add_to_slot sigdata signal id action = do
    place ← VecMap.get_mut sigdata.signals signal
    (slot, write) ← unwrap place
    (actions, old) ← VecMap.insert slot.actions id action
    assert (is_none old)
    ok (record sigdata { signals = write (record slot { actions = actions }) })

  -- The other branch, with the slot that `Slot::new` made.
  unfoldable pub add_slot : SignalData F → ℤ → ℕ → Action F → Slot F → Outcome (SignalData F)
  add_slot sigdata signal id action slot = do
    (actions, old) ← VecMap.insert slot.actions id action
    (signals, replaced) ← VecMap.insert sigdata.signals signal (record slot { actions = actions })
    ok (record sigdata { signals = signals })

  -- `unregister`: the table, and whether it has changed.
  unfoldable pub remove_action : SignalData F → SigId → Outcome (SignalData F × Bool)
  unfolding is_none
  remove_action sigdata id = do
    place ← VecMap.get_mut sigdata.signals id.signal
    elim place [
      | some (slot, write) ↦ do
        (actions, old) ← VecMap.remove slot.actions id.action
        ok (
          record sigdata { signals = write (record slot { actions = actions }) },
          not (is_none old),
        )
      | none ↦ ok (sigdata, false)
    ]

  -- `unregister_signal`
  unfoldable pub clear_actions : SignalData F → ℤ → Outcome (SignalData F × Bool)
  clear_actions sigdata signal = do
    place ← VecMap.get_mut sigdata.signals signal
    elim place [
      | some (slot, write) ↦
          if VecMap.is_empty slot.actions
          then ok (sigdata, false)
          else ok (
            record sigdata {
              signals = write (record slot { actions = VecMap.clear slot.actions });
            },
            true,
          )
      | none ↦ ok (sigdata, false)
    ]
