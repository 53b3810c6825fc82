-- ===== src/Registry/Replacing.antt =====
-- A change of one slot of the table, as `unregister` and `unregister_signal` make it, and as a handler
-- on any thread can watch it.
use signal_hook.Base.{
  ℕ, ◌≡◌, refl, Bool, true, false, some, [], ◌∷◌, ℤ, ◌==◌, int_eq, nat_eq, int_beq_iff, Outcome, ok,
  if◌then◌else◌, arith, ap, sym, ◌∙◌, Bool-cases, Option-cases, inl, inr, ◌⊎◌,
}
use signal_hook.VecMap.Map.{HasUniqueKeys, lookup-upsert, upsert-HasUniqueKeys}
use signal_hook.Registry.{Siginfo, Slot, SignalData, GlobalData, Libc, World}
use signal_hook.Registry.Handler.{deliver}
use signal_hook.Registry.TableLaws.{put_slot}
use signal_hook.Registry.State.{
  globals_of, slot_in, Coherent, IdsBelow, with_slot, deliver_slot, deliver_same,
}
use signal_hook.Registry.Coherence.{Coherent-put}
use signal_hook.Registry.Register.{initial, set_up, ensure, store_data, store_if}
use signal_hook.Registry.Watch.{Watch, Watch-bind, Watch-lift, Watch-put, Watch-imply}
use signal_hook.Registry.Proc.{Proc, lift, ◌>>=◌}

-- The body of the two functions, for a change of the table.
abbrev pub changing :
    {F : Type 0} (c : Libc) → (SignalData F → Outcome (SignalData F × Bool)) → Proc (World c F) Bool
changing c change = do
  globals ← ensure c
  changed ← lift (change globals.data_lock)
  store_if c globals changed

module _ {F : Type 0} (c : Libc) (w0 : World c F) where
  abbrev pub old_globals : GlobalData F
  old_globals = globals_of w0.globals

  abbrev pub ensured : World c F
  ensured = record w0 { globals = some old_globals }

  -- Every delivery runs what it ran in `w0`.
  abbrev pub Kept : World c F → Type 0
  Kept w = (t : ℤ) (i : Siginfo) (u : ℕ) → deliver c w t (some i) u ≡ deliver c w0 t (some i) u

  -- So it does, but for the signal, whose slot is another.
  abbrev pub Replaced : ℤ → Slot F → World c F → Type 0
  Replaced signal slot' w =
      (t : ℤ) (i : Siginfo) (u : ℕ)
      → deliver c w t (some i) u
        ≡ (if signal == t then with_slot c slot' t i u else deliver c w0 t (some i) u)

  module _ (co : Coherent c old_globals w0.os) where
    pub ensured-Kept : Kept ensured
    ensured-Kept t i u = deliver_same c w0 ensured t i u co refl refl

    pub Watch-ensure :
        (P : World c F → Type 0)
        → P ensured
        → Watch P (λ g w. (g ≡ old_globals) × (w ≡ ensured)) (λ e w. ⊥) (ensure c w0)
    unfolding ensure set_up
    Watch-ensure P p = elim (Option-cases w0.globals) [
      | inl e ↦
          let same : some initial ≡ some old_globals = ap (λ gs. some (globals_of gs)) (sym e) in
          let w' : World c F = record w0 { globals = some initial } in
          let run : ensure c w0 ≡ record { visible = w' ∷ []; last = w'; result = ok initial } =
            rw (e, ensure) refl in
          let there : w' ≡ ensured = ap (λ gs. record w0 { globals = gs }) same in
          let p' : P w' = rw there p in
          rw run (record {
            shown = (p', tt);
            final = p';
            returned = λ a q. let eq : a ≡ initial = cc in (eq ∙ ap globals_of (sym e), there);
            failed = λ n q. cc;
            unstopped = λ s q. cc;
          })
      | inr (g, e) ↦
          let run : ensure c w0 ≡ record { visible = []; last = w0; result = ok g } =
            rw (e, ensure) refl in
          let same : g ≡ old_globals = ap globals_of (sym e) in
          let there : w0 ≡ ensured = ap (λ gs. record w0 { globals = gs }) (e ∙ ap some same) in
          rw run (Watch-lift P (ok g) g w0 refl (rw there p) (same, there))
    ]

    module _ (signal : ℤ) (slot slot' : Slot F) (found : slot_in old_globals signal ≡ some slot)
        (below : IdsBelow old_globals.data_lock.next_id slot'.actions.entries)
        (distinct : HasUniqueKeys slot'.actions.entries) where
      abbrev pub replaced_data : SignalData F
      replaced_data = put_slot old_globals.data_lock signal slot'

      abbrev pub replaced_globals : GlobalData F
      replaced_globals = record old_globals { data_lock = replaced_data }

      abbrev pub replaced_world : World c F
      replaced_world = record w0 { globals = some replaced_globals }

      pub slots_after :
          (t : ℤ)
          → slot_in replaced_globals t ≡ (if signal == t then some slot' else slot_in old_globals t)
      slots_after t = lookup-upsert signal t slot' old_globals.data_lock.signals.entries

      pub Replaced-world : Replaced signal slot' replaced_world
      Replaced-world t i u = elim (Bool-cases (signal == t)) [
        | inl hit ↦ rw hit (
            deliver_slot c replaced_world replaced_globals t i u slot' refl
              (rw (← (int_beq_iff signal t).0 hit) (co.ours signal slot found))
              (slots_after t ∙ rw hit refl))
        | inr miss ↦
            rw miss (deliver_same c w0 replaced_world t i u co (slots_after t ∙ rw miss refl) refl)
      ]

      pub replaced-Coherent : Coherent c replaced_globals w0.os
      replaced-Coherent =
          Coherent-put c old_globals w0.os replaced_globals w0.os signal slot' co slots_after
            (co.ours signal slot found) (λ t miss. refl)
            (upsert-HasUniqueKeys signal slot' old_globals.data_lock.signals.entries co.unique)
            (omega arith) below distinct

      -- The change is stored.
      pub changing_ends :
          (change : SignalData F → Outcome (SignalData F × Bool))
          → change old_globals.data_lock ≡ ok (replaced_data, true)
          → Watch
              (λ w. Kept w ⊎ Replaced signal slot' w)
              (λ b w. (b ≡ true) × (w ≡ replaced_world))
              (λ e w. ⊥)
              (changing c change w0)
      unfolding store_if store_data
      changing_ends change made =
          let P : World c F → Type 0 = λ w. Kept w ⊎ Replaced signal slot' w in
          Watch-bind P (ensure c) _ w0 (Watch-ensure P (inl ensured-Kept)) (λ g w1 p1 (same, at).
            Watch-bind P {Q = λ changed w. (changed ≡ (replaced_data, true)) × (w ≡ ensured)}
              (lift (change g.data_lock)) (store_if c g) w1
              (Watch-lift P _ (replaced_data, true) w1
                (ap (λ (x : GlobalData F). change x.data_lock) same ∙ made) p1 (refl, at))
              (λ changed w2 p2 (changed_is, at2).
                rw (changed_is, same, at2)
                  (Watch-bind P {Q = λ x w. w ≡ replaced_world}
                    (store_data c old_globals replaced_data) _ ensured
                    (Watch-put P replaced_world ensured (inr Replaced-world) refl)
                    (λ x w3 p3 q3. Watch-lift P _ true w3 refl p3 (refl, q3)))))

    -- There is nothing to change.
    pub changing_nothing_ends :
        (change : SignalData F → Outcome (SignalData F × Bool)) (sigdata : SignalData F)
        → change old_globals.data_lock ≡ ok (sigdata, false)
        → Watch Kept (λ b w. (b ≡ false) × (w ≡ ensured)) (λ e w. ⊥) (changing c change w0)
    unfolding store_if
    changing_nothing_ends change sigdata made =
        Watch-bind Kept (ensure c) _ w0 (Watch-ensure Kept ensured-Kept) (λ g w1 p1 (same, at).
          Watch-bind Kept {Q = λ changed w. (changed ≡ (sigdata, false)) × (w ≡ ensured)}
            (lift (change g.data_lock)) (store_if c g) w1
            (Watch-lift Kept _ (sigdata, false) w1
              (ap (λ (x : GlobalData F). change x.data_lock) same ∙ made) p1 (refl, at))
            (λ changed w2 p2 (changed_is, at2).
              rw (changed_is, at2)
                (Watch-lift Kept _ false ensured refl ensured-Kept (refl, refl))))

    pub changing_nothing :
        (change : SignalData F → Outcome (SignalData F × Bool)) (sigdata : SignalData F)
        → change old_globals.data_lock ≡ ok (sigdata, false)
        → Watch Kept
            (λ b w. (b ≡ false) × Kept w × Coherent c (globals_of w.globals) w.os)
            (λ e w. ⊥)
            (changing c change w0)
    changing_nothing change sigdata made =
        Watch-imply (λ w p. p) (λ b w (answer, at). rw at (answer, ensured-Kept, co))
          (changing_nothing_ends change sigdata made)
