-- ===== src/Registry/Windows/Rearming.antt =====
-- The handler for Windows installs itself again.
use signal_hook.Base.{
  false, ◌≡◌, ◌≢◌, true, Option, none, some, List, [], ◌∷◌, ◌++◌, ℤ, ◌==◌, int_eq, nat_eq,
}
use signal_hook.VecMap.Spec.{lookup}
use signal_hook.Registry.Windows.{
  Slot, GlobalData, Crt, SignalLaws, Event, defaulted, Came, come, handle_slot,
}

module _ {F : Type 0} (c : Crt) (laws : SignalLaws c) (g : GlobalData F) where
  -- Our handler is installed for each signal that has a slot.
  abbrev pub Installed : c.Os → Type 0
  Installed os =
      (s : ℤ) (slot : Slot F)
      → lookup s g.signals.entries ≡ some slot
      → c.disposition os s ≡ c.handler_ptr

  -- The signal has a slot, and `signal` knows it.
  abbrev pub Valid : ℤ → Type 0
  Valid s =
      (slot : Slot F) × (lookup s g.signals.entries ≡ some slot)
      × ((os : c.Os) → (c.signal os s c.handler_ptr).0 ≢ c.sig_err)

  -- What its slot says.
  abbrev pub runs : Option (Slot F) → ℤ → List (Event F)
  runs none s = []
  runs (some slot) s = handle_slot c slot s

  abbrev pub all_runs : List ℤ → List (Event F)
  all_runs [] = []
  all_runs (s ∷ ss) = runs (lookup s g.signals.entries) s ++ all_runs ss

  -- Before `handler` has called `signal`, the same signal finds the default action.
  abbrev pub Overtaken : c.Os → Type 0
  Overtaken os =
      (s : ℤ)
      → Valid s
      → (s == c.sigfpe) ≡ false
      → let first : Came c F = come c os s in
        let second : Came c F = come c first.os s in
        (first.ours ≡ true) × (second.ours ≡ false) × (second.events ≡ defaulted s ∷ [])
