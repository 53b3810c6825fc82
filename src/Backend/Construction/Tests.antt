-- ===== src/Backend/Construction/Tests.antt =====
-- Instances made and dropped on a small kernel, with the theorems at them.
use signal_hook.Base.{
  ◌≡◌, refl, Bool, false, none, [], ◌∷◌, ℤ, pos, stop, panicked, aborted, arith, Outcome,
}
use signal_hook.VecMap.{contains, insert}
use signal_hook.VecMap.Spec.{lookup}
use signal_hook.Registry
use signal_hook.Registry.{SigId, World}
use signal_hook.Registry.State.{globals_of, Coherent}
use signal_hook.Registry.Watch.{Watch}
use signal_hook.Registry.Register.{register_sigaction}
use signal_hook.Registry.Tests.{linux, linux_laws, app, app_foreign}
use signal_hook.Backend.{SignalDelivery, signal_only, new, add_signal}
use signal_hook.Backend.Construction.{drop_state, add_signals, with_pipe}
use signal_hook.Backend.Construction.Dropping.{Undoable, Between, Undone}
use signal_hook.Backend.Construction.Adding.{add_signal-Restores}
use signal_hook.Backend.Construction.Undoing.{
  Ends, drop_state-Undone, with_pipe-Ends, panic_aborts, fresh-Undoable,
}

abbrev world : World linux ℤ
world = record { globals = none; os = app }

world-Coherent : Coherent linux (globals_of world.globals) world.os
unfolding lookup
world-Coherent = record {
  ours = λ s slot found. cc;
  others = λ s missing. app_foreign s;
  unique = tt;
  below = λ s slot found. cc;
  distinct = λ s slot found. cc;
}

with_pipe-Ends_example :
    Ends signal_only linux linux_laws world
      (with_pipe signal_only linux (pos 15 ∷ pos 10 ∷ []) world)
with_pipe-Ends_example =
    with_pipe-Ends signal_only linux linux_laws (pos 15 ∷ pos 10 ∷ []) world world-Coherent
      (omega arith)

-- SIGKILL is forbidden.
killed : (add_signals signal_only linux (pos 9 ∷ []) (new signal_only) world).2 ≡ stop panicked
unfolding add_signals register_sigaction Registry.Register.contains
killed = refl

panic_aborts_example : (with_pipe signal_only linux (pos 9 ∷ []) world).2 ≡ stop aborted
panic_aborts_example = panic_aborts signal_only linux (pos 9 ∷ []) world killed

abbrev added : SignalDelivery Bool × World linux ℤ × Outcome (Unit {0})
added = add_signal signal_only linux (new signal_only) world (pos 15)

added_fine : added.0.delivery_state.poisoned ≡ false
unfolding add_signal register_sigaction contains insert
added_fine = refl

added-Undoable : Undoable linux world added.1 0 added.0.delivery_state.registered_signal_ids
added-Undoable =
    (add_signal-Restores signal_only linux linux_laws world (new signal_only) world (pos 15)
      (fresh-Undoable linux world world-Coherent) (omega arith)).0

drop_state-Undone_example :
    Watch
      (Between linux world added.1)
      (λ u w. Undone linux world w)
      (λ e w. ⊥)
      (drop_state linux added.0.delivery_state added.1)
drop_state-Undone_example =
    drop_state-Undone linux world added.1 added.0.delivery_state added_fine added-Undoable
