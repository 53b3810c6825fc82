-- ===== src/Iterator/Forever.antt =====
-- `Forever::next` over the flags of `SignalOnly`.
use signal_hook.Base.{
  ℕ, suc, ◌≡◌, refl, Bool, Option, none, some, List, ℤ, pos, Stop, nat_eq, ok, stop, blocked,
  length, All, inl, inr,
}
use signal_hook.Backend.{signal_only}
use signal_hook.Backend.Poll.{SignalIterator, PollResult, signal, closed, poll_signal}
use signal_hook.Iterator.{Event, has_signals, after_poll_signal, forever_next}
use signal_hook.Iterator.Reading.{IsPossible, awaited}
use signal_hook.Iterator.Ways.{Caught, Run, Waits, Answers}
use signal_hook.Iterator.Polled.{polls}

module _ (spare : ℕ) (fuel rounds : ℕ) (events : List Event) (it : SignalIterator Bool) where
  abbrev run_poll : Run (Option (PollResult ℤ))
  run_poll = poll_signal signal_only rounds (has_signals signal_only (suc spare)) events it

  abbrev run_forever : Run (Option (Option ℤ))
  run_forever = forever_next signal_only (suc spare) (suc fuel) rounds events it

  forever_yields :
      (events' : List Event) (it' : SignalIterator Bool) (o : ℤ)
      → run_poll ≡ ok (events', it', some (signal o))
      → run_forever ≡ ok (events', it', some (some o))
  unfolding forever_next after_poll_signal
  forever_yields events' it' o e = rw (e, forever_next) refl

  forever_ends :
      (events' : List Event) (it' : SignalIterator Bool)
      → run_poll ≡ ok (events', it', some closed)
      → run_forever ≡ ok (events', it', some none)
  unfolding forever_next after_poll_signal
  forever_ends events' it' e = rw (e, forever_next) refl

  forever_stops : (s : Stop) → run_poll ≡ stop s → run_forever ≡ stop s
  unfolding forever_next
  forever_stops s e = rw (e, forever_next) refl

  Waits-on :
      (slots : List Bool) (o : Option (Option ℕ × List Event))
      → Waits (λ n. some (signal n)) (some closed) slots o run_poll
      → Waits (λ n. some (some n)) (some none) slots o run_forever
  Waits-on slots none e = forever_stops blocked e
  Waits-on slots (some (some n, later)) (it', e, left, caught, stays) =
      (it', forever_yields later it' (pos n) e, left, caught, stays)
  Waits-on slots (some (none, later)) (it', e, shut) = (it', forever_ends later it' e, shut)

-- `Forever::next` over the flags of `SignalOnly`, where a read of the pipe fails only with EINTR (any
-- other error makes it panic). While its reads block, signals may arrive, the instance may be closed
-- and a read may be interrupted, in any order. One round of its loop and three of that in `poll_signal` are enough. A closed iterator ends. From an open one on
-- which a flag is raised, it returns the number of a raised flag without waiting, and lowers that
-- flag alone. Else it waits: it returns the first signal that arrives, or ends at the closing if that
-- comes first, or blocks for ever where neither comes; an interrupted read changes nothing. The
-- pipe holds at least one byte, the signals that arrive have slots, and a flag behind the
-- iterator's position is raised only while there is a byte in the pipe, which holds again after
-- a result.
pub forever_next_answers :
    (spare fuel rounds : ℕ) (events : List Event) (it : SignalIterator Bool)
    → Caught it
    → All (IsPossible (length it.signals.slots)) events
    → Answers
        (λ n. some (some n))
        (some none)
        it
        events
        (forever_next signal_only (suc spare) (suc fuel) (suc (suc (suc rounds))) events it)
forever_next_answers spare fuel rounds events it caught possible =
    let p =
      polls spare
        (it.signals.delivery_state.poisoned, it.signals.delivery_state.registered_signal_ids)
        it.signals.delivery_state.closed events it.signals.slots it.signals.bytes it.position rounds
        caught possible in
    elim p [
      | inl (shut, e) ↦
          inl (shut, forever_ends spare fuel (suc (suc (suc rounds))) events it events it e)
      | inr (inl (open_, (k, it', raised, e, left, caught', stays))) ↦ inr (
          inl (
            open_,
            (
              k,
              it',
              raised,
              forever_yields spare fuel (suc (suc (suc rounds))) events it events it' (pos k) e,
              left,
              caught',
              stays,
            ),
          ))
      | inr (inr (open_, low, waits)) ↦ inr (
          inr (
            open_,
            low,
            Waits-on spare fuel (suc (suc (suc rounds))) events it it.signals.slots (awaited events)
                waits,
          ))
    ]
