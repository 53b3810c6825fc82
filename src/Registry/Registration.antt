-- ===== src/Registry/Registration.antt =====
-- `register_unchecked_impl`, as a handler on any thread can watch it.
use signal_hook.Base.{
  ℕ, ◌+◌, ◌<◌, ◌^◌, ◌≡◌, refl, none, some, ℤ, int_eq, nat_eq, ok, if◌then◌else◌, ap, sym, ◌∙◌,
  Bool-cases, inl, inr,
}
use signal_hook.VecMap.{VecMap, contains}
use signal_hook.VecMap.Spec.{lookup}
use signal_hook.VecMap.Laws.{contains_lem, contains-true}
use signal_hook.Registry.{Action, Slot, SignalData, GlobalData, Libc, SigactionLaws, World}
use signal_hook.Registry.Tables.{advance, add_to_slot, add_slot}
use signal_hook.Registry.TableLaws.{add_to_slot_lem, add_slot_lem}
use signal_hook.Registry.State.{slot_in, Coherent}
use signal_hook.Registry.Coherence.{IdsBelow-fresh}
use signal_hook.Registry.Register.{
  ensure, store_data, store_fallback, detect, new_slot, add_first, add_more,
  register_unchecked_impl,
}
use signal_hook.Registry.Watch.{Watch, Watch-bind, Watch-lift, Watch-put}
use signal_hook.Registry.Proc.{lift, ◌>>◌}
use signal_hook.Registry.Atomic.{Atomic, g0}
use signal_hook.Registry.Stages.{Failed, id0, Done, Early, Ready, Watched}
use signal_hook.Registry.Calls.{early, Watch-detect, Watch-fallback, Watch-new_slot, Watch-ensure}
use signal_hook.Registry.Stores.{old_data, final_data, Ready-first, Ready-more}

module _ {F : Type 0} (c : Libc) (laws : SigactionLaws c) (signal : ℤ) (action : Action F)
    (w0 : World c F) (co : Coherent c (g0 c signal action w0) w0.os)
    (room : id0 c signal action w0 + 1 < 2 ^ 128) where
  Watch-first :
      (g : GlobalData F) (sigdata : SignalData F) (id : ℕ) (w : World c F)
      → (Early c signal action w0) g w
      → sigdata ≡ advance (old_data c signal action w0 co room)
      → id ≡ (id0 c signal action w0)
      → slot_in (g0 c signal action w0) signal ≡ none
      → (Watched c signal action w0)
          (Ready c signal action w0)
          (add_first c g sigdata signal id action w)
  unfolding add_first lookup
  Watch-first g sigdata id w h data_is id_is missing =
      rw (data_is, id_is)
        (Watch-bind (Atomic c signal action w0) (detect c signal) _ w
          ((Watch-detect c laws signal action w0 co) g w h)
          (λ prev w1 p1 q1.
            Watch-bind (Atomic c signal action w0) (store_fallback c g prev) _ w1
              ((Watch-fallback c laws signal action w0 co) g prev w1 q1.0 q1.1)
              (λ g' w2 p2 q2.
                Watch-bind (Atomic c signal action w0) (new_slot c signal) _ w2
                  ((Watch-new_slot c laws signal action w0 co) g' w2 q2.0 q2.1 missing)
                  (λ slot w3 p3 q3.
                    Watch-bind (Atomic c signal action w0)
                      {Q = λ sigdata' w'. (Ready c signal action w0) (g', sigdata') w'}
                      (lift (
                        add_slot (advance (old_data c signal action w0 co room)) signal
                          (id0 c signal action w0) action slot))
                      _ w3
                      (Watch-lift (Atomic c signal action w0) _
                        ((final_data c signal action w0 co room) slot) w3
                        (add_slot_lem (advance (old_data c signal action w0 co room)) signal
                          (id0 c signal action w0) action slot (rw q3.1 refl))
                        p3 ((Ready-first c signal action w0 co room) g' w3 slot q3.0 missing q3.1))
                      (λ sigdata' w4 p4 q4.
                        Watch-lift (Atomic c signal action w0) _ (g', sigdata') w4 refl p4 q4)))))

  Watch-more :
      (g : GlobalData F) (sigdata : SignalData F) (id : ℕ) (w : World c F) (slot : Slot F)
      → (Early c signal action w0) g w
      → sigdata ≡ advance (old_data c signal action w0 co room)
      → id ≡ (id0 c signal action w0)
      → slot_in (g0 c signal action w0) signal ≡ some slot
      → (Watched c signal action w0)
          (Ready c signal action w0)
          (add_more c g sigdata signal id action w)
  unfolding add_more
  Watch-more g sigdata id w slot h data_is id_is found =
      rw (data_is, id_is)
        (Watch-bind (Atomic c signal action w0)
          {Q = λ sigdata' w'. (Ready c signal action w0) (g, sigdata') w'}
          (lift (
            add_to_slot (advance (old_data c signal action w0 co room)) signal
              (id0 c signal action w0) action))
          _ w
          (Watch-lift (Atomic c signal action w0) _ ((final_data c signal action w0 co room) slot) w
            (add_to_slot_lem (advance (old_data c signal action w0 co room)) signal
              (id0 c signal action w0) action slot found
              (IdsBelow-fresh (id0 c signal action w0) slot.actions.entries
                (co.below signal slot found)))
            ((early c laws signal action w0 co) g w h)
            ((Ready-more c signal action w0 co room) g w slot h found))
          (λ sigdata' w' p q. Watch-lift (Atomic c signal action w0) _ (g, sigdata') w' refl p q))

  Watch-add :
      (g : GlobalData F) (sigdata : SignalData F) (id : ℕ) (w : World c F)
      → (Early c signal action w0) g w
      → sigdata ≡ advance (old_data c signal action w0 co room)
      → id ≡ (id0 c signal action w0)
      → (Watched c signal action w0) (Ready c signal action w0) (
          (if contains sigdata.signals signal
              then add_more c g sigdata signal id action
              else add_first c g sigdata signal id action)
            w)
  Watch-add g sigdata id w h data_is id_is =
      let there : sigdata.signals ≡ (old_data c signal action w0 co room).signals =
        ap (λ (d : SignalData F). d.signals) data_is in
      elim (Bool-cases (contains sigdata.signals signal)) [
        | inl hit ↦
            let (slot, found) = contains-true sigdata.signals signal hit in
            rw hit (
              Watch-more g sigdata id w slot h data_is id_is
                (ap (λ (m : VecMap ℤ (Slot F)). lookup signal m.entries) (sym there) ∙ found))
        | inr miss ↦ rw miss (
            Watch-first g sigdata id w h data_is id_is (
              ap (λ (m : VecMap ℤ (Slot F)). lookup signal m.entries) (sym there)
              ∙ contains_lem sigdata.signals signal miss))
      ]

  Watch-store :
      (g : GlobalData F) (sigdata : SignalData F) (id : ℕ) (w : World c F)
      → id ≡ (id0 c signal action w0)
      → (Ready c signal action w0) (g, sigdata) w
      → (Watched c signal action w0)
          (Done c signal action w0)
          ((store_data c g sigdata >> lift (ok (record { signal = signal; action = id }))) w)
  unfolding store_data
  Watch-store g sigdata id w id_is ready =
      let w' : World c F = record w { globals = some (record g { data_lock = sigdata }) } in
      Watch-bind (Atomic c signal action w0) {Q = λ u w''. w'' ≡ w'} (store_data c g sigdata) _ w
        (Watch-put (Atomic c signal action w0) w' w (inr (inr ready.0)) refl)
        (λ u w'' p q.
          Watch-lift (Atomic c signal action w0) _ (record { signal = signal; action = id }) w''
            refl p
            (rw q (
              ap (λ n. record { signal = signal; action = n }) id_is,
              ready.0,
              ready.1,
              ready.2,
              ready.3,
            )))

module _ {F : Type 0} (c : Libc) (laws : SigactionLaws c) (signal : ℤ) (action : Action F)
    (w0 : World c F) (co : Coherent c (g0 c signal action w0) w0.os) where
  pub register-Atomic :
      (id0 c signal action w0) + 1 < 2 ^ 128
      → Watch
          (Atomic c signal action w0)
          (Done c signal action w0)
          (Failed c signal action w0)
          (register_unchecked_impl c signal action w0)
  unfolding register_unchecked_impl
  register-Atomic room =
      Watch-bind (Atomic c signal action w0) (ensure c) _ w0
        (Watch-ensure c laws signal action w0 co)
        (λ g w1 p1 q1.
          Watch-bind (Atomic c signal action w0)
            (if contains g.data_lock.signals signal
              then add_more c g (advance g.data_lock) signal g.data_lock.next_id action
              else add_first c g (advance g.data_lock) signal g.data_lock.next_id action)
            _ w1
            (Watch-add c laws signal action w0 co room g (advance g.data_lock) g.data_lock.next_id
              w1 q1 (ap advance q1.1) (ap (λ (d : SignalData F). d.next_id) q1.1))
            (λ (g', sigdata') w2 p2 q2.
              Watch-store c laws signal action w0 co room g' sigdata' g.data_lock.next_id w2
                (ap (λ (d : SignalData F). d.next_id) q1.1) q2))
