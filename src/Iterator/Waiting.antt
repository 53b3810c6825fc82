-- ===== src/Iterator/Waiting.antt =====
-- `SignalsInfo::wait` over the flags of `SignalOnly`.
use signal_hook.Base.{
  ℕ, zero, suc, ◌<◌, ◌≡◌, refl, Bool, true, false, Option, none, some, List, Outcome, ok, stop,
  blocked, length, set, All, arith, ap, inl, inr, ◌⊎◌,
}
use signal_hook.Backend.{SignalDelivery, signal_only, is_closed}
use signal_hook.Backend.Poll.{SignalIterator, poll_pending, answered, start_pending, flush}
use signal_hook.Backend.Rounds.{Mutex, delivery, iterator, flush_from-zero}
use signal_hook.Iterator.{Event, has_signals, after_poll, wait}
use signal_hook.Iterator.Reading.{IsPossible, awaited, ready, has_signals_lem, waited}

-- The iterator at the first slot, over an empty pipe.
abbrev pub emptied : SignalDelivery Bool → SignalIterator Bool
emptied d = record { signals = record d { bytes = 0 }; position = 0 }

-- How a wait that blocks ends.
abbrev pub Blocks :
    SignalDelivery Bool
    → Option (Option ℕ × List Event)
    → Outcome (List Event × SignalIterator Bool)
    → Type 0
Blocks d none run = run ≡ stop blocked
Blocks d (some (some n, events)) run =
    run ≡ ok (events, emptied (record d { slots = set d.slots n true }))
Blocks d (some (none, events)) run =
    (it : SignalIterator Bool) × (run ≡ ok (events, it))
    × (is_closed it.signals ≡ true)
    × (it.signals.slots ≡ d.slots)
    × (it.position ≡ 0)

start_pending_lem : (d : SignalDelivery Bool) → start_pending d ≡ emptied d
unfolding start_pending flush
start_pending_lem d =
    ap (λ n. record { signals = record d { bytes = n }; position = 0 })
      (flush_from-zero d.bytes d.bytes (omega arith))

module _ (spare : ℕ) (ids : Mutex) (slots : List Bool) where
  abbrev run : List Event → Bool → ℕ → Outcome (List Event × SignalIterator Bool)
  run events shut bytes = wait signal_only (suc spare) events (delivery shut ids slots bytes)

  wait_closed :
      (events : List Event) (bytes : ℕ)
      → run events true bytes ≡ ok (events, iterator true ids slots 0 0)
  unfolding wait poll_pending after_poll
  wait_closed events bytes =
      ap (λ it. ok (events, it)) (start_pending_lem (delivery true ids slots bytes))

  wait_ready :
      (events : List Event) (bytes : ℕ)
      → run events false (suc bytes) ≡ ok (events, iterator false ids slots 0 0)
  unfolding wait poll_pending after_poll answered
  wait_ready events bytes =
      rw (ready (suc spare) ids events false slots bytes, wait, poll_pending)
        (ap (λ it. ok (events, it)) (start_pending_lem (delivery false ids slots bytes)))

  wait-Blocks :
      (events : List Event)
      → All (IsPossible (length slots)) events
      → Blocks (delivery false ids slots 0) (awaited events) (run events false 0)
  unfolding wait poll_pending after_poll answered
  wait-Blocks events possible =
      by_awaited (awaited events) (has_signals_lem spare ids events slots possible)
    where
      by_awaited :
          (o : Option (Option ℕ × List Event))
          → has_signals signal_only (suc spare) events (delivery false ids slots 0)
            ≡ waited spare ids slots o
          → Blocks (delivery false ids slots 0) o (run events false 0)
      by_awaited none e = rw (e, wait, poll_pending) refl
      by_awaited (some (some n, later)) e =
          rw (e, wait, poll_pending)
            (ap (λ it. ok (later, it))
              (start_pending_lem (delivery false ids (set slots n true) 0)))
      by_awaited (some (none, later)) e = (
        start_pending (delivery true ids slots 0),
        rw (e, wait, poll_pending) refl,
        refl,
        refl,
        refl,
      )

-- `SignalsInfo::wait` over the flags of `SignalOnly`, where a read of the pipe fails only with EINTR
-- (any other error makes it panic), does not panic. On a
-- closed instance or with a byte in the pipe it returns at once. Else it returns when the first signal
-- arrives, with that signal's flag raised, or at the closing, or blocks for ever where neither
-- comes. The iterator that it returns starts at the first slot; the other flags are as they were.
-- A byte fits into the pipe, and the signals that arrive have slots.
pub wait_answers :
    (spare : ℕ) (events : List Event) (d : SignalDelivery Bool)
    → All (IsPossible (length d.slots)) events
    → (((is_closed d ≡ true) ⊎ (0 < d.bytes))
        × (wait signal_only (suc spare) events d ≡ ok (events, emptied d)))
      ⊎ ((is_closed d ≡ false)
          × (d.bytes ≡ 0)
          × Blocks d (awaited events) (wait signal_only (suc spare) events d))
wait_answers spare events d possible = by_parts d.delivery_state.closed d.bytes
  where
    by_parts :
        (shut : Bool) (bytes : ℕ)
        → (((shut ≡ true) ⊎ (0 < bytes))
            × (run spare
                  (d.delivery_state.poisoned, d.delivery_state.registered_signal_ids)
                  d.slots
                  events
                  shut
                  bytes
                ≡ ok (
                  events,
                  iterator shut
                      (d.delivery_state.poisoned, d.delivery_state.registered_signal_ids)
                      d.slots
                      0
                      0,
                )))
          ⊎ ((shut ≡ false)
              × (bytes ≡ 0)
              × Blocks
                  (delivery shut
                    (d.delivery_state.poisoned, d.delivery_state.registered_signal_ids)
                    d.slots
                    bytes)
                  (awaited events)
                  (run spare
                    (d.delivery_state.poisoned, d.delivery_state.registered_signal_ids)
                    d.slots
                    events
                    shut
                    bytes))
    by_parts true bytes = inl (inl refl, wait_closed spare _ d.slots events bytes)
    by_parts false zero = inr (refl, refl, wait-Blocks spare _ d.slots events possible)
    by_parts false (suc bytes) = inl (inr (omega arith), wait_ready spare _ d.slots events bytes)
