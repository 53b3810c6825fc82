-- ===== src/Registry/Stages.antt =====
-- The states that a registration passes through, and what it has got to say at its end.
use signal_hook.Base.{
  ℕ, false, ◌+◌, ◌≡◌, ◌==◌, if◌then◌else◌, Option, none, some, ℤ, int_eq, nat_eq, err,
}
use signal_hook.VecMap.Spec.{lookup}
use signal_hook.Registry.{
  Siginfo, Sigaction, Action, SigId, Prev, Slot, SignalData, GlobalData, Libc, World,
}
use signal_hook.Registry.Handler.{passed_on}
use signal_hook.Registry.TableLaws.{with_action}
use signal_hook.Registry.State.{globals_of, slot_in, entries_of, Coherent, with_slot}
use signal_hook.Registry.Watch.{Watch}
use signal_hook.Registry.Proc.{Ran}
use signal_hook.Registry.Atomic.{Unchanged, Registered, Atomic, g0, replaced}

module _ {F : Type 0} (c : Libc) (signal : ℤ) (action : Action F) (w0 : World c F) where
  -- An error is that of a call of `sigaction`, and leaves the table and the kernel as they were.
  abbrev pub Failed : ℤ → World c F → Type 0
  Failed e w =
      Unchanged c signal action w0 w
      × Coherent c (globals_of w.globals) w.os
      × ((globals_of w.globals).data_lock ≡ (g0 c signal action w0).data_lock)
      × (w.os ≡ w0.os)
      × (act : Option Sigaction) × (c.sigaction w.os signal act ≡ err e)

  abbrev pub id0 : ℕ
  id0 = (g0 c signal action w0).data_lock.next_id

  abbrev pub prev0 : Prev
  prev0 = record { signal = signal; info = c.disposition w0.os signal }

  -- The signal's slot is that of `w0`, or an empty one with the previous handler, and the action; the
  -- other slots are as they were.
  abbrev pub Holds : GlobalData F → Type 0
  Holds g =
      (base : Slot F) × (slot_in g signal ≡ some (with_action base id0 action))
      × (lookup id0 base.actions.entries ≡ none)
      × ((i : Siginfo) (u : ℕ) → passed_on c w0 signal (some i) u ≡ with_slot c base signal i u)
      × ((t : ℤ)
          → slot_in g t ≡ (
              if signal == t
              then some (with_action base id0 action)
              else slot_in (g0 c signal action w0) t))
      × (g.data_lock.next_id ≡ id0 + 1)
      × (base.actions.entries ≡ entries_of (g0 c signal action w0) signal)

  -- The dispositions of the other signals are as they were.
  abbrev pub Others : World c F → Type 0
  Others w = (t : ℤ) → (signal == t) ≡ false → c.disposition w.os t ≡ c.disposition w0.os t

  abbrev pub Done : SigId → World c F → Type 0
  Done id w =
      (id ≡ record { signal = signal; action = id0 })
      × Registered c signal action w0 w
      × Coherent c (globals_of w.globals) w.os
      × Others w
      × Holds (globals_of w.globals)

  -- What the calls pass on.
  abbrev pub Early : GlobalData F → World c F → Type 0
  Early g w =
      (w.globals ≡ some g) × (g.data_lock ≡ (g0 c signal action w0).data_lock) × (w.os ≡ w0.os)

  abbrev pub Late : GlobalData F → World c F → Type 0
  Late g w =
      (w.globals ≡ some g)
      × (g.data_lock ≡ (g0 c signal action w0).data_lock)
      × ((t : ℤ) → c.disposition w.os t ≡ replaced c signal action w0 t)

  abbrev pub Ready : GlobalData F × SignalData F → World c F → Type 0
  Ready (g, sigdata) w =
      let w' : World c F = record w { globals = some (record g { data_lock = sigdata }) } in
      Registered c signal action w0 w'
      × Coherent c (globals_of w'.globals) w'.os
      × Others w'
      × Holds (globals_of w'.globals)

  abbrev pub Watched : {A : Type 0} → (A → World c F → Type 0) → Ran (World c F) A → Type 0
  Watched Q r = Watch (Atomic c signal action w0) Q Failed r
