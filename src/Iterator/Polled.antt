-- ===== src/Iterator/Polled.antt =====
-- `poll_signal` with the blocking read of `has_signals`.
use signal_hook.Base.{
  ℕ, zero, suc, ◌<◌, ◌≤◌, ◌≡◌, ◌≢◌, refl, Bool, true, false, Option, none, some, List, ℤ, pos, Stop,
  nat_eq, ok, stop, blocked, length, set, get_elem?, All, arith, ap, sym, ◌∙◌, inl, inr, ◌⊎◌,
  length-set, get_elem?-set_ne, get_elem?-set_self, dec_lt,
}
use signal_hook.Backend.{signal_only, is_closed, next}
use signal_hook.Backend.Poll.{
  HasSignals, SignalIterator, PollResult, signal, closed, poll_round, poll_signal,
}
use signal_hook.Backend.Rounds.{
  Mutex, delivery, iterator, Lowered, round_found, round_again, round_stops, next-Finds,
}
use signal_hook.Iterator.{Event, has_signals}
use signal_hook.Iterator.Reading.{
  IsPossible, awaited, ready, has_signals_lem, waited, IsWithin, awaited-IsWithin,
}
use signal_hook.Iterator.Ways.{
  Caught, Run, Takes, Waits, Answers, found_below, set_back, Lowered-all, only_one,
}

module _ {X : Type 0} (hs : HasSignals X Bool) (x x' : X) (it it' : SignalIterator Bool) where
  poll_now :
      (rounds : ℕ) (r : PollResult ℤ)
      → poll_round signal_only hs x it ≡ ok (x', it', some r)
      → poll_signal signal_only (suc rounds) hs x it ≡ ok (x', it', some r)
  unfolding poll_signal
  poll_now rounds r e = rw (e, poll_signal) refl

  poll_later :
      (rounds : ℕ)
      → poll_round signal_only hs x it ≡ ok (x', it', none)
      → poll_signal signal_only (suc rounds) hs x it ≡ poll_signal signal_only rounds hs x' it'
  unfolding poll_signal
  poll_later rounds e = rw (e, poll_signal) refl

poll_stops :
    {X : Type 0} (hs : HasSignals X Bool) (x : X) (it : SignalIterator Bool) (rounds : ℕ) (s : Stop)
    → poll_round signal_only hs x it ≡ stop s
    → poll_signal signal_only (suc rounds) hs x it ≡ stop s
unfolding poll_signal
poll_stops hs x it rounds s e = rw (e, poll_signal) refl

module _ (spare : ℕ) (ids : Mutex) where
  abbrev pub reading : HasSignals (List Event) Bool
  reading = has_signals signal_only (suc spare)

  abbrev pub polled : ℕ → List Event → SignalIterator Bool → Run (Option (PollResult ℤ))
  polled rounds events it = poll_signal signal_only rounds reading events it

  abbrev PollTakes : List Bool → List Event → Run (Option (PollResult ℤ)) → Type 0
  PollTakes = Takes (λ n. some (signal n)) (some closed)

  -- The scan finds a flag.
  takes :
      (events : List Event) (slots : List Bool) (bytes p k rounds : ℕ)
      → Caught (iterator false ids slots bytes p)
      → get_elem? slots k ≡ some true
      → next signal_only slots p ≡ ok (set slots k false, k, some (pos k))
      → ((i : ℕ) → p ≤ i → i < k → get_elem? slots i ≢ some true)
      → PollTakes slots events (polled (suc rounds) events (iterator false ids slots bytes p))
  takes events slots bytes p k rounds caught raised found between = (
    k,
    iterator false ids (set slots k false) bytes k,
    raised,
    poll_now reading events events _ _ rounds (signal (pos k))
        (round_found reading events ids slots bytes p (set slots k false) k (pos k) found),
    refl,
    (
      let n = length-set slots k false in omega (arith, found_below slots k raised, n),
      elim caught.1 [
        | inl more ↦ inl more
        | inr low ↦ inr (λ i lt e.
            let e' : get_elem? slots i ≡ some true =
              sym (get_elem?-set_ne slots false (λ same. omega (arith, same))) ∙ e in
            elim (dec_lt i p) [
              | yes before ↦ low i before e'
              | no after ↦ between i (omega (arith, after)) lt e'
            ])
      ],
    ),
    refl,
  )

  abbrev PollWaits :
      List Bool → Option (Option ℕ × List Event) → Run (Option (PollResult ℤ)) → Type 0
  PollWaits = Waits (λ n. some (signal n)) (some closed)

  abbrev Opened : List Bool → List Event → Run (Option (PollResult ℤ)) → Type 0
  Opened slots events run =
      PollTakes slots events run ⊎ (Lowered slots 0 × PollWaits slots (awaited events) run)

  abbrev pub PollAnswers : SignalIterator Bool → List Event → Run (Option (PollResult ℤ)) → Type 0
  PollAnswers = Answers (λ n. some (signal n)) (some closed)

  at_start-Caught :
      (shut : Bool) (slots : List Bool) (bytes : ℕ) → Caught (iterator shut ids slots bytes 0)
  at_start-Caught shut slots bytes = (omega arith, inr (λ i lt. absurd (omega arith)))

  -- A flag that is raised among lowered ones is the one that is found.
  finds_new :
      (events : List Event) (slots : List Bool) (n rounds : ℕ)
      → n < length slots
      → Lowered slots 0
      → (it' : SignalIterator Bool) × (polled
            (suc rounds)
            events
            (iterator false ids (set slots n true) 0 0)
          ≡ ok (events, it', some (signal (pos n))))
        × (it'.signals.slots ≡ slots)
        × Caught it'
        × (is_closed it'.signals ≡ false)
  unfolding next
  finds_new events slots n rounds h low = elim (next-Finds (set slots n true) 0 (omega arith)) [
    | inl (k, raised, found, le, between) ↦
        let (k', it', raised', run, left, caught, stays) =
          takes events (set slots n true) 0 0 k rounds (at_start-Caught false (set slots n true) 0)
            raised found between in
        let same : k' ≡ n = only_one slots n k' low raised' in
        (
          it',
          run ∙ ap (λ i. ok (events, it', some (signal (pos i)))) same,
          left
              ∙ ap (λ i. set (set slots n true) i false) same
              ∙ set_back slots n h (low n (omega arith)),
          caught,
          stays,
        )
    | inr (found, none_raised) ↦
        absurd (none_raised n (omega arith) (get_elem?-set_self slots n true h))
  ]

  -- Nothing is raised and the pipe is empty.
  settles :
      (events : List Event) (slots : List Bool) (p rounds : ℕ)
      → next signal_only slots p ≡ ok (slots, length slots, none)
      → Lowered slots 0
      → All (IsPossible (length slots)) events
      → PollWaits slots
          (awaited events)
          (polled (suc (suc rounds)) events (iterator false ids slots 0 p))
  unfolding poll_round
  settles events slots p rounds found low possible =
      by_awaited (awaited events) (has_signals_lem spare ids events slots possible)
        (awaited-IsWithin events (length slots) possible)
    where
      by_awaited :
          (o : Option (Option ℕ × List Event))
          → reading events (delivery false ids slots 0) ≡ waited spare ids slots o
          → IsWithin (length slots) o
          → PollWaits slots o (polled (suc (suc rounds)) events (iterator false ids slots 0 p))
      by_awaited none e within =
          poll_stops reading events _ (suc rounds) blocked
            (round_stops reading events ids slots 0 p (length slots) blocked found e)
      by_awaited (some (some n, later)) e within =
          let (it', run, left, caught, stays) = finds_new later slots n rounds within low in
          (
            it',
            poll_later reading events later _ _ (suc rounds) (
                  round_again reading events ids slots 0 p (length slots) 0 later false
                    (set slots n true) found e)
                ∙ run,
            left,
            caught,
            stays,
          )
      by_awaited (some (none, later)) e within = (
        iterator true ids slots 0 0,
        poll_later reading events later _ _ (suc rounds)
              (round_again reading events ids slots 0 p (length slots) 0 later true slots found e)
            ∙ poll_now reading later later _ _ rounds closed refl,
        refl,
      )

  -- Nothing is raised from the position on.
  scans :
      (events : List Event) (slots : List Bool) (bytes p rounds : ℕ)
      → Caught (iterator false ids slots bytes p)
      → next signal_only slots p ≡ ok (slots, length slots, none)
      → Lowered slots p
      → All (IsPossible (length slots)) events
      → Opened slots events
          (polled (suc (suc (suc rounds))) events (iterator false ids slots bytes p))
  unfolding next
  scans events slots zero p rounds caught found low possible =
      let all_low = Lowered-all slots p caught.1 low in
      inr (all_low, settles events slots p (suc rounds) found all_low possible)
  scans events slots (suc bytes) p rounds caught found low possible =
      rw
        (poll_later reading events events _ _ (suc (suc rounds)) (
          round_again reading events ids slots (suc bytes) p (length slots) bytes events false slots
            found (ready (suc spare) ids events false slots bytes)))
        (elim (next-Finds slots 0 (omega arith)) [
          | inl (k, raised, found', le, between) ↦ inl (
              takes events slots 0 0 k (suc rounds) (at_start-Caught false slots 0) raised found'
                between)
          | inr (found', none_raised) ↦
              inr (none_raised, settles events slots 0 rounds found' none_raised possible)
        ])

  -- `poll_signal` with the blocking read.
  pub polls :
      (shut : Bool) (events : List Event) (slots : List Bool) (bytes p rounds : ℕ)
      → Caught (iterator shut ids slots bytes p)
      → All (IsPossible (length slots)) events
      → PollAnswers
          (iterator shut ids slots bytes p)
          events
          (polled (suc (suc (suc rounds))) events (iterator shut ids slots bytes p))
  unfolding poll_round next
  polls true events slots bytes p rounds caught possible =
      inl (refl, poll_now reading events events _ _ (suc (suc rounds)) closed refl)
  polls false events slots bytes p rounds caught possible = elim (next-Finds slots p caught.0) [
    | inl (k, raised, found, le, between) ↦
        inr
          (inl (refl, takes events slots bytes p k (suc (suc rounds)) caught raised found between))
    | inr (found, low) ↦ elim (scans events slots bytes p rounds caught found low possible) [
      | inl taken ↦ inr (inl (refl, taken))
      | inr (all_low, waits) ↦ inr (inr (refl, all_low, waits))
    ]
  ]
