-- ===== src/Backend/Polling.antt =====
-- `poll_signal` over the flags of `SignalOnly`, on every branch.
use signal_hook.Base.{
  ℕ, zero, suc, ◌-◌, ◌≤◌, ◌≡◌, refl, Bool, true, false, none, some, List, ℤ, pos, Outcome, ok,
  length, set, get_elem?, arith, inl, inr, ◌⊎◌,
}
use signal_hook.Backend.{signal_only, is_closed, next_from, next}
use signal_hook.Backend.Poll.{
  on_bytes, SignalIterator, PollResult, signal, pending, closed, poll_round, poll_signal,
}
use signal_hook.Backend.Rounds.{
  Lowered, Mutex, iterator, round_found, round_idle, round_again, next-Finds,
}

-- A raised flag was reported and lowered.
abbrev pub Found : List Bool → SignalIterator Bool → PollResult ℤ → Type 0
Found slots it r =
    (k : ℕ) × (get_elem? slots k ≡ some true)
    × (r ≡ signal (pos k))
    × (it.signals.slots ≡ set slots k false)

-- The answers of a call: what the result says of the iterator that it was called on.
abbrev pub Fits : SignalIterator Bool → SignalIterator Bool → PollResult ℤ → Type 0
Fits it it' r =
    ((is_closed it.signals ≡ true) × (r ≡ closed))
    ⊎ (((is_closed it.signals ≡ false) × Found it.signals.slots it' r)
        ⊎ ((is_closed it.signals ≡ false)
            × (r ≡ pending)
            × Lowered it.signals.slots it.position
            × ((it.signals.bytes ≡ 0) ⊎ Lowered it.signals.slots 0)
            × (it'.signals.bytes ≡ 0)))

module _ (read : ℕ → Outcome (Bool × ℕ)) (empty : read 0 ≡ ok (false, 0))
    (woken : (n : ℕ) → read (suc n) ≡ ok (true, n)) where
  abbrev Answer : ℕ → SignalIterator Bool → Type 0
  Answer rounds it =
      (it' : SignalIterator Bool) × (r : PollResult ℤ) × (poll_signal signal_only rounds
          (on_bytes read) tt it
        ≡ ok (tt, it', some r))
      × Fits it it' r

  last_round :
      (ids : Mutex) (slots : List Bool) (position : ℕ)
      → position ≤ length slots
      → Answer 1 (iterator false ids slots 0 position)
  unfolding poll_signal next
  last_round ids slots position h = elim (next-Finds slots position h) [
    | inl (k, raised, found, le, between) ↦ (
      iterator false ids (set slots k false) 0 k,
      signal (pos k),
      rw
          (
            round_found (on_bytes read) tt ids slots 0 position (set slots k false) k (pos k) found,
            poll_signal,
          )
          refl,
      inr (inl (refl, (k, raised, refl, refl))),
    )
    | inr (found, low) ↦ (
      iterator false ids slots 0 (length slots),
      pending,
      rw
          (
            round_idle (on_bytes read) tt ids slots 0 position (length slots) 0 tt found
                (rw empty refl),
            poll_signal,
          )
          refl,
      inr (inr (refl, refl, low, inl refl, refl)),
    )
  ]

  first_round :
      (shut : Bool) (ids : Mutex) (slots : List Bool) (bytes position : ℕ)
      → position ≤ length slots
      → Answer 2 (iterator shut ids slots bytes position)
  unfolding poll_signal next poll_round
  first_round true ids slots bytes position h =
      (iterator true ids slots bytes position, closed, refl, inl (refl, refl))
  first_round false ids slots bytes position h = elim (next-Finds slots position h) [
    | inl (k, raised, found, le, between) ↦ (
      iterator false ids (set slots k false) bytes k,
      signal (pos k),
      rw
          (
            round_found (on_bytes read) tt ids slots bytes position (set slots k false) k (pos k)
                found,
            poll_signal,
          )
          refl,
      inr (inl (refl, (k, raised, refl, refl))),
    )
    | inr (found, low) ↦ by_bytes bytes found low
  ]
    where
      by_bytes :
          (b : ℕ)
          → next_from signal_only (length slots - position) slots position
            ≡ ok (slots, length slots, none)
          → Lowered slots position
          → Answer 2 (iterator false ids slots b position)
      by_bytes zero found low = (
        iterator false ids slots 0 (length slots),
        pending,
        rw
            (
              round_idle (on_bytes read) tt ids slots 0 position (length slots) 0 tt found
                  (rw empty refl),
              poll_signal,
            )
            refl,
        inr (inr (refl, refl, low, inl refl, refl)),
      )
      by_bytes (suc n) found low =
          let (it', r, run, fits) = last_round ids slots 0 (omega arith) in
          (
            it',
            r,
            rw
                (
                  round_again (on_bytes read) tt ids slots (suc n) position (length slots) n tt
                      false slots found (rw (woken n) refl),
                  poll_signal,
                )
                run,
            elim fits [
              | inl (shut, same) ↦ inl (shut, same)
              | inr (inl (open_, raised)) ↦ inr (inl (open_, raised))
              | inr (inr (open_, same, all_low, why, empty')) ↦
                  inr (inr (open_, same, low, inr all_low, empty'))
            ],
          )

  -- `poll_signal` over the flags of `SignalOnly` ends within two rounds of its loop, where
  -- `has_signals` takes a byte if there is one and says whether it did, and the iterator does not
  -- stand past the slots. It returns `Closed` only if the instance is closed; or it returns the
  -- number of a raised flag, and lowers that flag alone; or it returns `Pending`, and then no flag
  -- from its position on was raised, none at all was unless the pipe was empty, and the pipe is empty.
  pub poll_signal_answers :
      (it : SignalIterator Bool)
      → it.position ≤ length it.signals.slots
      → (it' : SignalIterator Bool) × (r : PollResult ℤ) × (poll_signal signal_only 2
            (on_bytes read)
            tt
            it
          ≡ ok (tt, it', some r))
        × Fits it it' r
  poll_signal_answers it h =
      first_round it.signals.delivery_state.closed
        (it.signals.delivery_state.poisoned, it.signals.delivery_state.registered_signal_ids)
        it.signals.slots it.signals.bytes it.position h
