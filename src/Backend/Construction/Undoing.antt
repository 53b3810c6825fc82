-- ===== src/Backend/Construction/Undoing.antt =====
-- `SignalDelivery::with_pipe` and the drop of what it makes: nothing of it stays behind.
use signal_hook.Base.{
  ℕ, zero, suc, ◌+◌, ◌<◌, ◌^◌, ◌≡◌, ◌≢◌, refl, false, none, some, List, [], ◌∷◌, ℤ, Outcome, ok,
  err, stop, Stop, panicked, aborted, exited, blocked, length, get_elem?, replicate, arith, ap, inl,
  inr, ◌⊎◌,
}
use signal_hook.Registry.{SigId, Libc, SigactionLaws, World}
use signal_hook.Registry.State.{globals_of, Coherent}
use signal_hook.Registry.Watch.{Watch, Watch-ok}
use signal_hook.Backend.{Exfiltrator, DeliveryState, SignalDelivery, max_signum, new, add_signal}
use signal_hook.Backend.Construction.{drop_state, dropped, and_next, add_signals, finish, with_pipe}
use signal_hook.Backend.Construction.Dropping.{Undoable, Between, Undone, drop_ids-Watch}
use signal_hook.Backend.Construction.Ids.{next_of}
use signal_hook.Backend.Construction.Adding.{Marks, add_signal-Marks, Restores, add_signal-Restores}

none_there : (n m : ℕ) (id : SigId) → get_elem? (replicate n none) m ≡ some (some id) → ⊥
none_there zero m id e = cc
none_there (suc n) zero id e = let same : none ≡ some id = cc in cc
none_there (suc n) (suc m) id e = none_there n m id e

-- The vector of a new instance.
pub fresh-Undoable :
    {F : Type 0} (c : Libc) (w : World c F)
    → Coherent c (globals_of w.globals) w.os
    → Undoable c w w 0 (replicate max_signum none)
fresh-Undoable c w co = record {
  coherent = co;
  mine = λ n id there. absurd (none_there max_signum n id there);
  rest = λ t others. (inl (λ i u. refl), λ i u. refl);
}

-- The drop of `DeliveryState`, whose mutex is not poisoned and whose vector holds the identifiers of
-- all that differs from an earlier world: it neither panics nor fails. In each state that it makes
-- visible a delivery of a signal runs what it ran before the drop, or what `handler` passed it on to
-- in the earlier world: what it ran there, or nothing where that was the default action. In the last
-- state a delivery of a signal runs what it ran in the earlier world, or what `handler` passed it on
-- to there.
pub drop_state-Undone :
    {F : Type 0} (c : Libc) (w0 w : World c F) (state : DeliveryState)
    → state.poisoned ≡ false
    → Undoable c w0 w 0 state.registered_signal_ids
    → Watch (Between c w0 w) (λ u w'. Undone c w0 w') (λ e w'. ⊥) (drop_state c state w)
unfolding drop_state
drop_state-Undone c w0 w state fine h =
    rw fine (drop_ids-Watch c w0 state.registered_signal_ids 0 w w (λ t i u. inl refl) h)

module _ {S O : Type 0} (ex : Exfiltrator S O) (c : Libc) where
  abbrev Triple : Type 0
  Triple = SignalDelivery S × World c ℤ × Outcome (Unit {0})

  abbrev Marked : Triple → Type 0
  Marked r = Marks r.0.delivery_state.poisoned r.2

  add_signals-Marks :
      (signals : List ℤ) (d : SignalDelivery S) (w : World c ℤ)
      → d.delivery_state.poisoned ≡ false
      → Marked (add_signals ex c signals d w)
  unfolding add_signals
  add_signals-Marks [] d w fine = fine
  add_signals-Marks (signal ∷ signals) d w fine =
      by_result (add_signals-Marks signals) (add_signal ex c d w signal)
        (add_signal-Marks ex c d w signal fine)
    where
      by_result :
          ((d : SignalDelivery S) (w : World c ℤ)
            → d.delivery_state.poisoned ≡ false
            → Marked (add_signals ex c signals d w))
          → (r : Triple) → Marked r
          → Marked (and_next r (add_signals ex c signals))
      by_result others (d', w', ok u) m = others d' w' m
      by_result others (d', w', err e) m = m
      by_result others (d', w', stop s) m = m

  module _ (laws : SigactionLaws c) (w0 : World c ℤ) where
    add_signals-Restores :
        (signals : List ℤ) (d : SignalDelivery S) (w : World c ℤ)
        → Undoable c w0 w 0 d.delivery_state.registered_signal_ids
        → next_of w + length signals < 2 ^ 128
        → Restores ex c laws w0 w (add_signals ex c signals d w) (length signals)
    unfolding add_signals
    add_signals-Restores [] d w h room = (h, omega arith)
    add_signals-Restores (signal ∷ signals) d w h room =
        by_result (add_signals-Restores signals) (add_signal ex c d w signal)
          (add_signal-Restores ex c laws w0 d w signal h (omega (arith, room)))
      where
        by_result :
            ((d : SignalDelivery S) (w : World c ℤ)
              → Undoable c w0 w 0 d.delivery_state.registered_signal_ids
              → next_of w + length signals < 2 ^ 128
              → Restores ex c laws w0 w (add_signals ex c signals d w) (length signals))
            → (r : Triple) → Restores ex c laws w0 w r 1
            → Restores ex c laws w0 w (and_next r (add_signals ex c signals)) (suc (length signals))
        by_result others (d', w', ok u) m =
            let (h', more) = others d' w' m.0 (omega (arith, room, m.1)) in
            (h', omega (arith, more, m.1))
        by_result others (d', w', err e) m = (m.0, omega (arith, m.1))
        by_result others (d', w', stop s) m = (m.0, omega (arith, m.1))

    -- How `with_pipe` ends, where nothing else happens to the registry.
    abbrev pub Ends : Triple → Type 0
    Ends r =
        ((r.2 ≡ ok tt)
          × Watch (Between c w0 r.1) (λ u w. Undone c w0 w) (λ e w. ⊥)
              (drop_state c r.0.delivery_state r.1))
        ⊎ (((e : ℤ) × (r.2 ≡ err e) × Undone c w0 r.1)
            ⊎ ((s : Stop) × (r.2 ≡ stop s) × (s ≢ panicked)))

    finish-Ends :
        (r : Triple)
        → Marked r
        → Undoable c w0 r.1 0 r.0.delivery_state.registered_signal_ids
        → Ends (finish ex c r)
    unfolding finish drop_state
    finish-Ends (d, w, ok u) fine h = inl (refl, drop_state-Undone c w0 w d.delivery_state fine h)
    finish-Ends (d, w, err e) fine h =
        let (u, ended, undone) =
          Watch-ok _ (drop_state c d.delivery_state w)
            (drop_state-Undone c w0 w d.delivery_state fine h) in
        inr (inl (e, ap (dropped (err e)) ended, undone))
    finish-Ends (d, w, stop s) bad h = rw bad (inr (inr (after_panic s)))
      where
        after_panic :
            (s : Stop)
            → (s' : Stop) × (dropped {A = Unit {0}} (stop s) (stop panicked) ≡ stop s')
              × (s' ≢ panicked)
        after_panic panicked = (aborted, refl, λ e. cc)
        after_panic aborted = (aborted, refl, λ e. cc)
        after_panic (exited n) = (exited n, refl, λ e. cc)
        after_panic blocked = (blocked, refl, λ e. cc)

  -- `SignalDelivery::with_pipe` leaves no action behind. The kernel's `sigaction` is as its manual page
  -- says, the table agrees with the kernel, and there are identifiers for all the signals. If it
  -- returns an instance, the drop of its `DeliveryState` does not fail; in between, a delivery of a
  -- signal runs what it ran before the drop, or what `handler` passed it on to before `with_pipe`. After
  -- that drop, and where `with_pipe` returns an error, a delivery of a signal runs what it ran before
  -- `with_pipe`, or what `handler` passed it on to then: the same, but nothing in place of a default
  -- action, which does not come back. It never panics: a panic of `add_signal` becomes an abort.
  pub with_pipe-Ends :
      (laws : SigactionLaws c) (signals : List ℤ) (w : World c ℤ)
      → Coherent c (globals_of w.globals) w.os
      → next_of w + length signals < 2 ^ 128
      → Ends laws w (with_pipe ex c signals w)
  unfolding with_pipe
  with_pipe-Ends laws signals w co room =
      let start = fresh-Undoable c w co in
      finish-Ends laws w (add_signals ex c signals (new ex) w)
        (add_signals-Marks signals (new ex) w refl)
        (add_signals-Restores laws w signals (new ex) w start room).0

  -- A panic of `add_signal` inside `with_pipe`, as for a forbidden signal, ends the process: it poisons
  -- the mutex, and the drop of `DeliveryState` panics while the panic unwinds.
  pub panic_aborts :
      (signals : List ℤ) (w : World c ℤ)
      → (add_signals ex c signals (new ex) w).2 ≡ stop panicked
      → (with_pipe ex c signals w).2 ≡ stop aborted
  unfolding with_pipe drop_state
  panic_aborts signals w panics =
      by_result (add_signals ex c signals (new ex) w) (add_signals-Marks signals (new ex) w refl)
        panics
    where
      by_result : (r : Triple) → Marked r → r.2 ≡ stop panicked → (finish ex c r).2 ≡ stop aborted
      by_result (d, w', ok u) m e = cc
      by_result (d, w', err n) m e = cc
      by_result (d, w', stop s) m e = rw (e, m, drop_state) refl
