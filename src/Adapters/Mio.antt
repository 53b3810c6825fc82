-- ===== src/Adapters/Mio.antt =====
-- `SignalsInfo` of signal-hook-mio/src/lib.rs, the same for each version of mio.
use signal_hook.Base.{ℤ, List, Outcome, ok, err, stop}
use signal_hook.Registry.{Libc, World}
use signal_hook.Backend
use signal_hook.Backend.{Exfiltrator, SignalDelivery}
use signal_hook.Backend.Construction.{with_pipe}
use signal_hook.Backend.Poll.{SignalIterator, start_pending}

module _ {S O : Type 0} where
  -- `SignalsInfo::with_exfiltrator`, with the result of `Pipe::pair`; the instance counts only where
  -- the result is `Ok`.
  unfoldable pub with_exfiltrator :
      Outcome (Unit {0})
      → Exfiltrator S O
      → (c : Libc) → List ℤ
      → World c ℤ
      → SignalDelivery S × World c ℤ × Outcome (Unit {0})
  unfolding with_pipe
  with_exfiltrator (ok u) ex c signals w = with_pipe ex c signals w
  with_exfiltrator (err e) ex c signals w = (Backend.new ex, w, err e)
  with_exfiltrator (stop s) ex c signals w = (Backend.new ex, w, stop s)

  -- `SignalsInfo::add_signal`
  unfoldable pub add_signal :
      Exfiltrator S O
      → (c : Libc) → SignalDelivery S
      → World c ℤ
      → ℤ
      → SignalDelivery S × World c ℤ × Outcome (Unit {0})
  unfolding Backend.add_signal
  add_signal ex c d w signal = Backend.add_signal ex c d w signal

-- `SignalsInfo::pending`
unfoldable pub pending : {S : Type 0} → SignalDelivery S → SignalIterator S
unfolding start_pending
pending d = start_pending d
