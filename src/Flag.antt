-- ===== src/Flag.antt =====
-- src/flag.rs: actions that set a flag or end the process, over the flags that the program shares with
-- its handlers.
pub mod Shutdown
mod Tests
use signal_hook.Base.{
  ℕ, Bool, true, false, Option, none, some, List, [], ◌∷◌, ℤ, Outcome, ok, err, stop, exited, ◌>>=◌,
  update, if◌then◌else◌,
}
use signal_hook.Registry.{Siginfo, Action, plain, informed, SigId, Libc, World}
use signal_hook.Registry.Handler.{Event, called, called_siginfo, ran}
use signal_hook.Registry.Proc.{Proc, lift}
use signal_hook.Registry.Register as Registry
use signal_hook.Details.{Answers, signal_name, emulate_default_handler}

-- The atomics by their addresses.
pub record Flags : Type 0 where
  pub bools : ℕ → Bool
  pub usizes : ℕ → ℕ

-- The closures that this file registers, with what they capture.
pub data Closure : Type 0 where
  store_true : (flag : ℕ) → Closure
  store_usize : (flag value : ℕ) → Closure
  shutdown : (status : ℤ) (condition : ℕ) → Closure
  emulate : (signal : ℤ) (condition : ℕ) → Closure

-- `let _ = emulate_default_handler(signal)`: an error is ignored, an end of the process is not.
unfoldable pub ignore_error : Outcome (Unit {0}) → Flags → Outcome Flags
ignore_error (ok u) flags = ok flags
ignore_error (err e) flags = ok flags
ignore_error (stop s) flags = stop s

unfoldable pub run_closure : Answers → Closure → Flags → Outcome Flags
unfolding ignore_error emulate_default_handler
run_closure a (store_true flag) flags = ok (record flags { bools = update flags.bools flag true })
run_closure a (store_usize flag value) flags =
    ok (record flags { usizes = update flags.usizes flag value })
run_closure a (shutdown status condition) flags =
    if flags.bools condition then stop (exited status) else ok flags
run_closure a (emulate signal condition) flags =
    if flags.bools condition
    then ignore_error (emulate_default_handler a signal).result flags
    else ok flags

-- The actions among the events of a handler, on the flags. Somebody else's handler is taken not to
-- touch them.
unfoldable pub run_events : Answers → List (Event Closure) → Flags → Outcome Flags
unfolding run_closure
run_events a [] flags = ok flags
run_events a (called f s ∷ es) flags = run_events a es flags
run_events a (called_siginfo f s i u ∷ es) flags = run_events a es flags
run_events a (ran (plain closure) i ∷ es) flags = do
  flags' ← run_closure a closure flags
  run_events a es flags'
run_events a (ran (informed closure) i ∷ es) flags = do
  flags' ← run_closure a closure flags
  run_events a es flags'

module _ (c : Libc) where
  unfoldable pub register : ℤ → ℕ → Proc (World c Closure) SigId
  unfolding Registry.register
  register signal flag = Registry.register c signal (store_true flag)

  unfoldable pub register_usize : ℤ → ℕ → ℕ → Proc (World c Closure) SigId
  unfolding Registry.register
  register_usize signal flag value = Registry.register c signal (store_usize flag value)

  unfoldable pub register_conditional_shutdown : ℤ → ℤ → ℕ → Proc (World c Closure) SigId
  unfolding Registry.register
  register_conditional_shutdown signal status condition =
      Registry.register c signal (shutdown status condition)

  -- With the look-up of the signal's name in front.
  unfoldable pub register_conditional_default : Answers → ℤ → ℕ → Proc (World c Closure) SigId
  unfolding Registry.register
  register_conditional_default a signal condition = elim (signal_name a.number signal) [
    | some name ↦ Registry.register c signal (emulate signal condition)
    | none ↦ lift (err a.einval)
  ]
