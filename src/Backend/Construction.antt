-- ===== src/Backend/Construction.antt =====
-- `SignalDelivery::with_pipe` and the drop of `DeliveryState` in src/iterator/backend.rs.
pub mod Dropping
pub mod Slots
pub mod Ids
pub mod Adding
pub mod Undoing
mod Tests
use signal_hook.Base.{
  Bool, true, false, Option, none, some, List, [], ◌∷◌, ℤ, Outcome, ok, err, stop, Stop, panicked,
  aborted, if◌then◌else◌,
}
use signal_hook.Registry.{SigId, Libc, World}
use signal_hook.Registry.Proc.{Ran, Proc, lift, ◌>>=◌}
use signal_hook.Registry.Register.{unregister}
use signal_hook.Backend.{Exfiltrator, DeliveryState, SignalDelivery, new, add_signal}

module _ {F : Type 0} (c : Libc) where
  -- The loop of `Drop for DeliveryState`, which skips the signals without an identifier.
  unfoldable pub drop_ids : List (Option SigId) → Proc (World c F) (Unit {0})
  unfolding unregister
  drop_ids [] = lift (ok tt)
  drop_ids (none ∷ ids) = drop_ids ids
  drop_ids (some id ∷ ids) = do removed ← unregister c id; drop_ids ids

  -- `Drop for DeliveryState`, with the `lock().unwrap()`.
  unfoldable pub drop_state : DeliveryState → Proc (World c F) (Unit {0})
  unfolding drop_ids
  drop_state state =
      if state.poisoned then lift (stop panicked) else drop_ids state.registered_signal_ids

-- A function whose local variables are dropped as it returns an error, or while a panic unwinds: a
-- second panic aborts.
abbrev pub dropped {ℓ} : {A : Type ℓ} → Outcome A → Outcome (Unit {0}) → Outcome A
dropped (ok a) end = ok a
dropped (err e) (ok u) = err e
dropped (err e) (err n) = err e
dropped (err e) (stop s) = stop s
dropped (stop s) (ok u) = stop s
dropped (stop s) (err n) = stop s
dropped (stop panicked) (stop s) = stop aborted
dropped (stop s) (stop s') = stop s

-- The question mark after a call.
abbrev pub and_next :
    {D W : Type 0}
    → D × W × Outcome (Unit {0})
    → (D → W → D × W × Outcome (Unit {0}))
    → D × W × Outcome (Unit {0})
and_next (d, w, ok u) next = next d w
and_next (d, w, err e) next = (d, w, err e)
and_next (d, w, stop s) next = (d, w, stop s)

module _ {S O : Type 0} (ex : Exfiltrator S O) (c : Libc) where
  -- The loop of `with_pipe`.
  unfoldable pub add_signals :
      List ℤ → SignalDelivery S → World c ℤ → SignalDelivery S × World c ℤ × Outcome (Unit {0})
  unfolding add_signal
  add_signals [] d w = (d, w, ok tt)
  add_signals (signal ∷ signals) d w = and_next (add_signal ex c d w signal) (add_signals signals)

  -- The end of `with_pipe`: the instance, or the drop of `me`.
  unfoldable pub finish :
      SignalDelivery S × World c ℤ × Outcome (Unit {0})
      → SignalDelivery S × World c ℤ × Outcome (Unit {0})
  unfolding drop_state
  finish (d, w, ok u) = (d, w, ok u)
  finish (d, w, err e) =
      let r = drop_state c d.delivery_state w in (d, r.last, dropped (err e) r.result)
  finish (d, w, stop s) =
      let r = drop_state c d.delivery_state w in (d, r.last, dropped (stop s) r.result)

  -- `SignalDelivery::with_pipe`; the instance counts only where the result is `Ok`.
  unfoldable pub with_pipe : List ℤ → World c ℤ → SignalDelivery S × World c ℤ × Outcome (Unit {0})
  unfolding add_signals finish
  with_pipe signals w = finish (add_signals signals (new ex) w)
