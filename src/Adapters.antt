-- ===== src/Adapters.antt =====
-- What the streams of signal-hook-tokio/src/lib.rs and signal-hook-async-std/src/lib.rs share.
pub mod Tokio
pub mod AsyncStd
pub mod Streams
pub mod Mio
mod Tests
use signal_hook.Base.{
  Bool, true, false, Option, none, some, ℤ, Outcome, ok, err, stop, panicked, ◌>>=◌,
}
use signal_hook.Registry.{Libc, World}
use signal_hook.Backend.{SignalDelivery}
use signal_hook.Backend.Poll.{new, SignalIterator, PollResult, signal, pending, closed, failed}

-- `std::task::Poll`
pub data Poll (A : Type 0) : Type 0 where
  ready : A → Poll A
  waiting : Poll A

-- `OwningSignalIterator::new` of what `with_pipe` makes.
unfoldable pub own :
    {S : Type 0} {c : Libc}
    → SignalDelivery S × World c ℤ × Outcome (Unit {0})
    → SignalIterator S × World c ℤ × Outcome (Unit {0})
unfolding new
own (d, w, o) = (new d, w, o)
