-- ===== src/Backend/Poll.antt =====
-- `flush`, `pending`, `poll_pending` and `poll_signal` of src/iterator/backend.rs, run with no handler in
-- between (`Backend.Wakeup` has the interleavings).
use signal_hook.Base.{
  ℕ, zero, suc, Bool, true, false, Option, none, some, ℤ, ◌==◌, nat_eq, Outcome, ok, err, stop,
  ◌>>=◌, if◌then◌else◌,
}
use signal_hook.Backend.{Exfiltrator, SignalDelivery, is_closed, recv_some, next}

-- The loop of `flush`, with a bound on its rounds; each takes a byte at least.
unfoldable pub flush_from : ℕ → ℕ → ℕ
unfolding recv_some
flush_from zero bytes = bytes
flush_from (suc fuel) bytes =
    let rest = flush_from fuel (recv_some bytes) in if bytes == 0 then bytes else rest

unfoldable pub flush : ℕ → ℕ
unfolding flush_from
flush bytes = flush_from bytes bytes

-- The closure `has_signals`, which reads from the pipe. `X` is what it has in scope besides: where it
-- may block, what the other threads and the handlers do meanwhile.
abbrev pub HasSignals : Type 0 → Type 0 → Type 0
HasSignals X S = X → SignalDelivery S → Outcome (Bool × X × SignalDelivery S)

-- A closure that touches the bytes of the pipe alone.
abbrev pub on_bytes : {S : Type 0} → (ℕ → Outcome (Bool × ℕ)) → HasSignals (Unit {0}) S
on_bytes read x d = read d.bytes >>= λ r. ok (r.0, x, record d { bytes = r.1 })

-- The instance, and the position of the `Pending` iterator over it.
pub record SignalIterator (S : Type 0) : Type 0 where
  pub signals : SignalDelivery S
  pub position : ℕ

pub data PollResult (O : Type 0) : Type 0 where
  signal : O → PollResult O
  pending : PollResult O
  closed : PollResult O
  failed : ℤ → PollResult O

module _ {S : Type 0} where
  -- `SignalDelivery::pending`, whose iterator starts at 0.
  unfoldable pub start_pending : SignalDelivery S → SignalIterator S
  unfolding flush
  start_pending d = record { signals = record d { bytes = flush d.bytes }; position = 0 }

  -- `SignalIterator::new`
  unfoldable pub new : SignalDelivery S → SignalIterator S
  unfolding start_pending
  new d = start_pending d

module _ {X S : Type 0} where
  -- The answers `Ok(true)` and `Ok(false)` in `poll_pending`.
  unfoldable pub answered :
      Bool × X × SignalDelivery S → X × SignalDelivery S × Option (SignalIterator S)
  unfolding start_pending
  answered (true, x, d) = (x, (start_pending d).signals, some (start_pending d))
  answered (false, x, d) = (x, d, none)

  -- `SignalDelivery::poll_pending`
  unfoldable pub poll_pending :
      HasSignals X S
      → X
      → SignalDelivery S
      → Outcome (X × SignalDelivery S × Option (SignalIterator S))
  unfolding answered
  poll_pending has_signals x d =
      if is_closed d then ok (x, d, none) else (has_signals x d >>= λ r. ok (answered r))

module _ {X S O : Type 0} where
  -- The `match` on `poll_pending`, where the old iterator stands at the position.
  unfoldable pub ask :
      X
      → SignalDelivery S
      → ℕ
      → Outcome (X × SignalDelivery S × Option (SignalIterator S))
      → Outcome (X × SignalIterator S × Option (PollResult O))
  ask x d position (ok (x', d', some fresh)) = ok (x', fresh, none)
  ask x d position (ok (x', d', none)) =
      ok (x', record { signals = d'; position = position }, some pending)
  ask x d position (err e) = ok (x, record { signals = d; position = position }, some (failed e))
  ask x d position (stop s) = stop s

  unfoldable pub after_next :
      HasSignals X S
      → X
      → SignalDelivery S
      → ℕ
      → Option O
      → Outcome (X × SignalIterator S × Option (PollResult O))
  unfolding ask poll_pending
  after_next has_signals x d position (some o) =
      ok (x, record { signals = d; position = position }, some (signal o))
  after_next has_signals x d position none = ask x d position (poll_pending has_signals x d)

module _ {X S O : Type 0} (ex : Exfiltrator S O) where
  -- One round of the loop in `poll_signal`: `none` for another round.
  unfoldable pub poll_round :
      HasSignals X S → X → SignalIterator S → Outcome (X × SignalIterator S × Option (PollResult O))
  unfolding after_next
  poll_round has_signals x it =
      if is_closed it.signals
      then ok (x, it, some closed)
      else (next ex it.signals.slots it.position >>= λ n.
          after_next has_signals x (record it.signals { slots = n.0 }) n.1 n.2)

  -- The loop, for at most so many rounds; `none` where they do not suffice.
  unfoldable pub poll_signal :
      ℕ
      → HasSignals X S
      → X
      → SignalIterator S
      → Outcome (X × SignalIterator S × Option (PollResult O))
  unfolding poll_round
  poll_signal zero has_signals x it = ok (x, it, none)
  poll_signal (suc fuel) has_signals x it = do
    (x', it', answer) ← poll_round has_signals x it
    elim answer [
      | some result ↦ ok (x', it', some result)
      | none ↦ poll_signal fuel has_signals x' it'
    ]
