-- ===== src/Registry/Stores.antt =====
-- The table that `register_unchecked_impl` stores, for the first action of a signal and for one more.
use mathlib.Core.List.{append-nil}
use signal_hook.Base.{
  ℕ, ◌+◌, ◌<◌, ◌^◌, ◌≡◌, refl, none, some, [], ◌∷◌, ℤ, ==_refl, int_eq, nat_eq, All-append, arith,
  ap, sym, ◌∙◌,
}
use signal_hook.VecMap.Spec.{lookup}
use signal_hook.VecMap.Map.{lookup-upsert, upsert-none, upsert-HasUniqueKeys}
use signal_hook.Registry.{Action, Slot, SignalData, GlobalData, Libc, World}
use signal_hook.Registry.Tables.{advance, next}
use signal_hook.Registry.TableLaws.{with_action, put_slot}
use signal_hook.Registry.State.{slot_in, actions_of, Coherent, passed_slot}
use signal_hook.Registry.Coherence.{IdsBelow-fresh, IdsBelow-weaken, Coherent-put}
use signal_hook.Registry.Atomic.{
  g0, FinalSlot, Registered-first, Registered-more, installed, foreign_first,
}
use signal_hook.Registry.Stages.{id0, prev0, Early, Late, Ready}

module _ {F : Type 0} (c : Libc) (signal : ℤ) (action : Action F) (w0 : World c F)
    (co : Coherent c (g0 c signal action w0) w0.os)
    (room : id0 c signal action w0 + 1 < 2 ^ 128) where
  pub next-id0 : next (id0 c signal action w0) ≡ (id0 c signal action w0) + 1
  next-id0 = omega arith

  abbrev pub old_data : SignalData F
  old_data = (g0 c signal action w0).data_lock

  abbrev pub final_data : Slot F → SignalData F
  final_data slot =
      put_slot (advance old_data) signal (with_action slot (id0 c signal action w0) action)

  pub Ready-first :
      (g : GlobalData F) (w : World c F) (slot : Slot F)
      → (Late c signal action w0) g w
      → slot_in (g0 c signal action w0) signal ≡ none
      → slot ≡ record { prev = (prev0 c signal action w0); actions = record { entries = [] } }
      → (Ready c signal action w0) (g, final_data slot) w
  unfolding lookup
  Ready-first g w slot (e, same, kernel) missing fresh =
      let slot0 : Slot F = record {
        prev = (prev0 c signal action w0);
        actions = record { entries = [] };
      } in
      let g' : GlobalData F = record g { data_lock = final_data slot0 } in
      let w' : World c F = record w { globals = some g' } in
      let slot' : Slot F = with_action slot0 (id0 c signal action w0) action in
      let final : FinalSlot c signal action w0 co g' slot' =
        λ t. lookup-upsert signal t slot' old_data.signals.entries in
      rw fresh (
        Registered-first c signal action w0 co w' g' slot' (id0 c signal action w0) refl final refl
            refl missing kernel,
        Coherent-put c (g0 c signal action w0) w0.os g' w.os signal slot' co final
            (installed c signal action w0 co w' kernel) (λ t miss. kernel t ∙ rw miss refl)
            (upsert-HasUniqueKeys signal slot' old_data.signals.entries co.unique)
            (omega (arith, next-id0)) (omega (arith, next-id0), tt) (refl, tt),
        λ t miss. kernel t ∙ rw miss refl,
        (
          slot0,
          final signal ∙ rw (==_refl signal) refl,
          refl,
          λ i u. rw (foreign_first c signal action w0 co missing i u, append-nil) refl,
          final,
          next-id0,
          ap actions_of (sym missing),
        ),
      )

  pub Ready-more :
      (g : GlobalData F) (w : World c F) (slot : Slot F)
      → (Early c signal action w0) g w
      → slot_in (g0 c signal action w0) signal ≡ some slot
      → (Ready c signal action w0) (g, final_data slot) w
  Ready-more g w slot (e, same, os) found =
      let g' : GlobalData F = record g { data_lock = final_data slot } in
      let w' : World c F = record w { globals = some g' } in
      let slot' : Slot F = with_action slot (id0 c signal action w0) action in
      let final : FinalSlot c signal action w0 co g' slot' =
        λ t. lookup-upsert signal t slot' old_data.signals.entries in
      let below = co.below signal slot found in
      (
        Registered-more c signal action w0 co w' g' slot (id0 c signal action w0) refl final found
            os,
        Coherent-put c (g0 c signal action w0) w0.os g' w.os signal slot' co final
            (ap (λ o. (c.disposition o signal).sa_sigaction) os ∙ co.ours signal slot found)
            (λ t miss. ap (λ o. c.disposition o t) os)
            (upsert-HasUniqueKeys signal slot' old_data.signals.entries co.unique)
            (omega (arith, next-id0))
            (All-append (λ (x : ℕ × Action F). x.0 < next (id0 c signal action w0))
              slot.actions.entries (((id0 c signal action w0), action) ∷ [])
              (IdsBelow-weaken (id0 c signal action w0) (next (id0 c signal action w0))
                slot.actions.entries (omega (arith, next-id0)) below)
              (omega (arith, next-id0), tt))
            (rw
              (← upsert-none (id0 c signal action w0) action slot.actions.entries
                (IdsBelow-fresh (id0 c signal action w0) slot.actions.entries below))
              (upsert-HasUniqueKeys (id0 c signal action w0) action slot.actions.entries
                (co.distinct signal slot found))),
        λ t miss. ap (λ o. c.disposition o t) os,
        (
          slot,
          final signal ∙ rw (==_refl signal) refl,
          IdsBelow-fresh (id0 c signal action w0) slot.actions.entries below,
          λ i u. passed_slot c w0 signal i u slot (co.ours signal slot found) found,
          final,
          next-id0,
          ap actions_of (sym found),
        ),
      )
