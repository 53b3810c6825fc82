-- ===== src/Iterator.antt =====
-- `SignalsInfo` and `Forever` of src/iterator/mod.rs: the blocking front end over the back end.
pub mod Reading
pub mod Ways
pub mod Polled
pub mod Waiting
pub mod Forever
pub mod Loop
mod Tests
use signal_hook.Base.{
  ℕ, zero, suc, ◌-◌, Bool, true, false, Option, none, some, List, [], ◌∷◌, ℤ, pos, ◌==◌, int_eq,
  nat_eq, Outcome, ok, err, stop, panicked, blocked, ◌>>=◌, ltb,
}
use signal_hook.Registry.{Siginfo, Libc, World}
use signal_hook.Backend
use signal_hook.Backend.{Exfiltrator, SignalDelivery, signal_only, action, close}
use signal_hook.Backend.Construction.{with_pipe}
use signal_hook.Backend.Poll
use signal_hook.Backend.Poll.{
  HasSignals, SignalIterator, PollResult, signal, pending, closed, failed, start_pending,
  poll_pending, poll_signal,
}

-- What can happen while a thread blocks in a read of the pipe: a handler of the instance runs,
-- another thread closes the instance, or the read returns an error.
pub data Event : Type 0 where
  arrives : ℕ → Siginfo → Event
  closes : Event
  read_fails : ℤ → Event

-- The kind `Interrupted` is the error number EINTR.
abbrev pub eintr : ℤ
eintr = pos 4

module _ {S O : Type 0} (ex : Exfiltrator S O) (capacity : ℕ) where
  -- The answer of `has_signals` after a read of so many bytes.
  unfoldable pub break_ok :
      List Event → SignalDelivery S → ℕ → Outcome (Bool × List Event × SignalDelivery S)
  break_ok events d num_read = ok (ltb 0 num_read, events, record d { bytes = d.bytes - num_read })

  -- The loop of `has_signals`: the read of one byte returns where there is one, and else what happens
  -- next decides.
  unfoldable pub has_signals : HasSignals (List Event) S
  unfolding break_ok
  has_signals [] d = elim (d.bytes == 0) [ true ↦ stop blocked | false ↦ break_ok [] d 1 ]
  has_signals (arrives n info ∷ events) d = elim (d.bytes == 0) [
    | true ↦ do d' ← action ex capacity d n info; has_signals events d'
    | false ↦ break_ok (arrives n info ∷ events) d 1
  ]
  has_signals (closes ∷ events) d = elim (d.bytes == 0) [
    | true ↦ has_signals events (close capacity d)
    | false ↦ break_ok (closes ∷ events) d 1
  ]
  has_signals (read_fails e ∷ events) d = elim (d.bytes == 0) [
    | true ↦ elim (e == eintr) [ true ↦ has_signals events d | false ↦ err e ]
    | false ↦ break_ok (read_fails e ∷ events) d 1
  ]

  -- The `match` of `SignalsInfo::wait`
  unfoldable pub after_poll :
      Outcome (List Event × SignalDelivery S × Option (SignalIterator S))
      → Outcome (List Event × SignalIterator S)
  unfolding start_pending
  after_poll (ok (events, d, some iter)) = ok (events, iter)
  after_poll (ok (events, d, none)) = ok (events, start_pending d)
  after_poll (err e) = stop panicked
  after_poll (stop s) = stop s

  -- `SignalsInfo::wait`
  unfoldable pub wait : List Event → SignalDelivery S → Outcome (List Event × SignalIterator S)
  unfolding has_signals poll_pending after_poll
  wait events d = after_poll (poll_pending has_signals events d)

  -- The `match` of `Forever::next`: the inner `none` ends the iteration, and the outer one asks for
  -- another round of its loop.
  unfoldable pub after_poll_signal :
      List Event × SignalIterator S × Option (PollResult O)
      → Outcome (List Event × SignalIterator S × Option (Option O))
  after_poll_signal (events, it, some (signal o)) = ok (events, it, some (some o))
  after_poll_signal (events, it, some closed) = ok (events, it, some none)
  after_poll_signal (events, it, some pending) = ok (events, it, none)
  after_poll_signal (events, it, some (failed e)) = stop panicked
  after_poll_signal (events, it, none) = ok (events, it, none)

  -- `Forever::next`, for at most so many rounds of its loop and of that in `poll_signal`.
  unfoldable pub forever_next :
      ℕ
      → ℕ
      → List Event
      → SignalIterator S
      → Outcome (List Event × SignalIterator S × Option (Option O))
  unfolding has_signals poll_signal after_poll_signal
  forever_next zero rounds events it = ok (events, it, none)
  forever_next (suc fuel) rounds events it = do
    polled ← poll_signal ex rounds has_signals events it
    (events', it', answer) ← after_poll_signal polled
    elim answer [
      | some item ↦ ok (events', it', some item)
      | none ↦ forever_next fuel rounds events' it'
    ]

-- `SignalsInfo::with_exfiltrator`, with the result of `UnixStream::pair`; the instance counts only
-- where the result is `Ok`.
unfoldable pub with_exfiltrator :
    {S O : Type 0}
    → Outcome (Unit {0})
    → Exfiltrator S O
    → (c : Libc) → List ℤ
    → World c ℤ
    → SignalDelivery S × World c ℤ × Outcome (Unit {0})
unfolding with_pipe
with_exfiltrator (ok u) ex c signals w = with_pipe ex c signals w
with_exfiltrator (err e) ex c signals w = (Backend.new ex, w, err e)
with_exfiltrator (stop s) ex c signals w = (Backend.new ex, w, stop s)

-- `SignalsInfo::new` of `Signals`, whose exfiltrator is `SignalOnly`.
unfoldable pub new :
    Outcome (Unit {0})
    → (c : Libc) → List ℤ
    → World c ℤ
    → SignalDelivery Bool × World c ℤ × Outcome (Unit {0})
unfolding with_exfiltrator
new pair c signals w = with_exfiltrator pair signal_only c signals w

-- `SignalsInfo::forever`
unfoldable pub forever : {S : Type 0} → SignalDelivery S → SignalIterator S
unfolding Poll.new
forever d = Poll.new d
