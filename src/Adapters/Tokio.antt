-- ===== src/Adapters/Tokio.antt =====
-- The stream of signal-hook-tokio/src/lib.rs.
use signal_hook.Base.{
  ℕ, some, none, panicked, Bool, true, false, Option, List, ℤ, Outcome, ok, err, stop, ◌>>=◌, ◌>>◌,
}
use signal_hook.Registry.{Libc, World}
use signal_hook.Backend
use signal_hook.Backend.Construction.{with_pipe}
use signal_hook.Backend.{Exfiltrator, SignalDelivery}
use signal_hook.Backend.Poll.{
  HasSignals, SignalIterator, PollResult, signal, pending, closed, failed, poll_signal,
}
use signal_hook.Adapters.{Poll, ready, waiting, own}

-- `poll_read` of tokio's `UnixStream` into a buffer of one byte, on a socket with so many bytes: its
-- answer, which leaves the count in the buffer, and the bytes that are left.
abbrev pub PollRead : Type 0
PollRead = ℕ → Poll (Outcome (Unit {0})) × ℕ

module _ {S : Type 0} where
  -- The `match` on the answer.
  abbrev pub after_read :
      Poll (Outcome (Unit {0})) → SignalDelivery S → Outcome (Bool × Unit {0} × SignalDelivery S)
  after_read waiting d = ok (false, tt, d)
  after_read (ready (ok u)) d = ok (true, tt, d)
  after_read (ready (err e)) d = err e
  after_read (ready (stop s)) d = stop s

  abbrev pub has_signals : PollRead → HasSignals (Unit {0}) S
  has_signals poll_read u d = let r = poll_read d.bytes in after_read r.0 (record d { bytes = r.1 })

-- The `match` of `poll_next`; `none` where the rounds of `poll_signal` do not suffice.
unfoldable pub answer :
    {S O : Type 0}
    → Unit {0} × SignalIterator S × Option (PollResult O)
    → Outcome (SignalIterator S × Option (Poll (Option O)))
answer (u, it, some (signal o)) = ok (it, some (ready (some o)))
answer (u, it, some closed) = ok (it, some (ready none))
answer (u, it, some pending) = ok (it, some waiting)
answer (u, it, some (failed e)) = stop panicked
answer (u, it, none) = ok (it, none)

unfoldable pub poll_next :
    {S O : Type 0}
    → Exfiltrator S O
    → ℕ
    → PollRead
    → SignalIterator S
    → Outcome (SignalIterator S × Option (Poll (Option O)))
unfolding poll_signal answer
poll_next ex rounds poll_read it = do
  r ← poll_signal ex rounds (has_signals poll_read) tt it
  answer r

-- `SignalsInfo::with_exfiltrator`, with the results of `UnixStream::pair` and of `into_std`; the
-- iterator counts only where the result is `Ok`.
unfoldable pub with_exfiltrator :
    {S O : Type 0}
    → Outcome (Unit {0})
    → Outcome (Unit {0})
    → Exfiltrator S O
    → (c : Libc) → List ℤ
    → World c ℤ
    → SignalIterator S × World c ℤ × Outcome (Unit {0})
unfolding with_pipe own
with_exfiltrator pair into ex c signals w = elim (pair >> into) [
  | ok u ↦ own (with_pipe ex c signals w)
  | err e ↦ own (Backend.new ex, w, err e)
  | stop s ↦ own (Backend.new ex, w, stop s)
]
