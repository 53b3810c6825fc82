-- ===== src/Registry/Answers.antt =====
-- Each call of the registry answers what the table that its clients think of allows, and keeps the two
-- in agreement.
use signal_hook.Base.{
  ℕ, ◌+◌, ◌<◌, ◌≤◌, ◌^◌, ◌≡◌, refl, false, none, some, List, [], ◌∷◌, ℤ, int_eq, nat_eq, Outcome,
  Bool, ok, err, stop, arith, ap, sym, ◌∙◌, Option-cases, inl, inr,
}
use signal_hook.VecMap.Spec.{lookup, erase}
use signal_hook.Registry.{Sigaction, Action, SigId, Slot, SignalData, Libc, SigactionLaws, World}
use signal_hook.Registry.Tables.{remove_action, clear_actions}
use signal_hook.Registry.TableLaws.{without, remove_action_missing}
use signal_hook.Registry.State.{globals_of, slot_in, actions_of}
use signal_hook.Registry.Register.{register_unchecked_impl, unregister, unregister_signal}
use signal_hook.Registry.Watch.{Watch, Watch-ok}
use signal_hook.Registry.Atomic.{Atomic}
use signal_hook.Registry.Stages.{Done, Failed}
use signal_hook.Registry.Registration.{register-Atomic}
use signal_hook.Registry.Replacing.{ensured, changing, changing_ends, changing_nothing_ends}
use signal_hook.Registry.Removal.{below, distinct, removal_ends}
use signal_hook.Registry.Clearing.{emptied, clear_none, clear_empty, clear_some}
use signal_hook.Registry.Model.{
  Call, registers, unregisters, clears, Model, with_list, with_one_more, call, answer, Allowed,
  registered, refused, unregistered, was_absent, cleared, was_clear, Agrees,
}
use signal_hook.Registry.Agreement.{Agrees-Kept, Agrees-Replaced, Agrees-Failed, Agrees-Done}

module _ {F : Type 0} (c : Libc) (start : ℤ → Sigaction) where
  -- One call, with the clients' table behind it.
  abbrev pub One : World c F → Model F → Call F → Type 0
  One w m k =
      (m' : Model F) × Allowed c m k (answer c k w) m'
      × Agrees c start (call c k w) m'
      × (m'.next ≤ m.next + 1)

  module _ (w : World c F) (m : Model F) (h : Agrees c start w m) where
    -- The slot of a signal that has an action.
    slot_there :
        (s : ℤ) (e : ℕ × Action F) (es : List (ℕ × Action F))
        → m.table s ≡ e ∷ es
        → (slot : Slot F) × (slot_in (globals_of w.globals) s ≡ some slot)
          × (slot.actions.entries ≡ e ∷ es)
    slot_there s e es there = elim (Option-cases (slot_in (globals_of w.globals) s)) [
      | inl missing ↦
          let clash : [] ≡ e ∷ es = ap actions_of (sym missing) ∙ h.same_table s ∙ there in cc
      | inr (slot, found) ↦ (slot, found, ap actions_of (sym found) ∙ h.same_table s ∙ there)
    ]

    Agrees-ensured : Agrees c start (ensured c w) m
    Agrees-ensured = Agrees-Kept c start w m h (ensured c w) h.coherent refl refl

    register-One :
        (signal : ℤ) (action : Action F)
        → SigactionLaws c
        → m.next + 1 < 2 ^ 128
        → One w m (registers signal action)
    register-One signal action laws room =
        by_result (register_unchecked_impl c signal action w).result refl
      where
        watch :
            Watch
              (Atomic c signal action w)
              (Done c signal action w)
              (Failed c signal action w)
              (register_unchecked_impl c signal action w)
        watch = register-Atomic c laws signal action w h.coherent (omega (arith, h.same_next, room))

        by_result :
            (o : Outcome SigId)
            → (register_unchecked_impl c signal action w).result ≡ o
            → One w m (registers signal action)
        by_result (ok id) e =
            let done = watch.returned id e in
            (
              with_one_more m signal action,
              rw (e, done.0, h.same_next) registered,
              Agrees-Done c start w m h signal action id _ done,
              omega arith,
            )
        by_result (err n) e =
            let failure = watch.failed n e in
            (
              m,
              rw e
                  (refused (register_unchecked_impl c signal action w).last.os failure.4 failure.5),
              Agrees-Failed c start w m h signal action n _ failure,
              omega arith,
            )
        by_result (stop s) e = absurd (watch.unstopped s e)

    -- A change that changes nothing.
    nothing_done :
        (change : SignalData F → Outcome (SignalData F × Bool)) (sigdata : SignalData F)
        → change (globals_of w.globals).data_lock ≡ ok (sigdata, false)
        → ((changing c change w).result ≡ ok false) × Agrees c start (changing c change w).last m
    nothing_done change sigdata made =
        let (b, ended, (answered, at)) =
          Watch-ok _ (changing c change w)
            (changing_nothing_ends c w h.coherent change sigdata made) in
        (ended ∙ ap ok answered, rw at Agrees-ensured)

    module _ (id : SigId) where
      unregister-removed :
          (action : Action F) (e : ℕ × Action F) (es : List (ℕ × Action F))
          → lookup id.action (m.table id.signal) ≡ some action
          → m.table id.signal ≡ e ∷ es
          → One w m (unregisters id)
      unregister-removed action e es there some_there =
          let (slot, found, same) = slot_there id.signal e es some_there in
          let entries : slot.actions.entries ≡ m.table id.signal = same ∙ sym some_there in
          let (b, ended, (answered, at)) = Watch-ok _ (unregister c id w) (
            removal_ends c id w h.coherent slot found action
              (ap (lookup id.action) entries ∙ there)) in
          (
            with_list m id.signal (erase id.action (m.table id.signal)),
            rw (ended, answered) (unregistered there),
            rw (at, ← entries)
                (Agrees-Replaced c start w m h id.signal slot (without slot id.action) found
                  (below c id w h.coherent slot found) (distinct c id w h.coherent slot found)
                  refl),
            omega arith,
          )

      unregister-absent : lookup id.action (m.table id.signal) ≡ none → One w m (unregisters id)
      unfolding unregister
      unregister-absent missing =
          let (sigdata, run) =
            remove_action_missing (globals_of w.globals).data_lock id (λ slot found.
              ap (λ es. lookup id.action es) (ap actions_of (sym found) ∙ h.same_table id.signal)
              ∙ missing) in
          let (ended, agrees) = nothing_done (λ d. remove_action d id) sigdata run in
          (m, rw ended (was_absent missing), agrees, omega arith)

      unregister-One : One w m (unregisters id)
      unfolding lookup
      unregister-One = elim (Option-cases (lookup id.action (m.table id.signal))) [
        | inl missing ↦ unregister-absent missing
        | inr (action, there) ↦ by_list action there (m.table id.signal) refl
      ]
        where
          by_list :
              (action : Action F)
              → lookup id.action (m.table id.signal) ≡ some action
              → (es : List (ℕ × Action F)) → m.table id.signal ≡ es
              → One w m (unregisters id)
          by_list action there [] e =
              let clash : none ≡ some action = sym (ap (λ es. lookup id.action es) e) ∙ there in cc
          by_list action there (first ∷ others) e = unregister-removed action first others there e

    module _ (signal : ℤ) where
      clear-cleared :
          (e : ℕ × Action F) (es : List (ℕ × Action F))
          → m.table signal ≡ e ∷ es
          → One w m (clears signal)
      unfolding unregister_signal
      clear-cleared e es there =
          let (slot, found, same) = slot_there signal e es there in
          let (b, ended, (answered, at)) = Watch-ok _ (unregister_signal c signal w) (
            changing_ends c w h.coherent signal slot (emptied slot) found tt tt
              (λ d. clear_actions d signal)
              (clear_some (globals_of w.globals).data_lock signal slot e es found same)) in
          (
            with_list m signal [],
            rw (ended, answered) (cleared there),
            rw at (Agrees-Replaced c start w m h signal slot (emptied slot) found tt tt refl),
            omega arith,
          )

      clear-clear : m.table signal ≡ [] → One w m (clears signal)
      unfolding unregister_signal
      clear-clear none_there =
          let old : SignalData F = (globals_of w.globals).data_lock in
          let run : clear_actions old signal ≡ ok (old, false) =
            elim (Option-cases (slot_in (globals_of w.globals) signal)) [
              | inl missing ↦ clear_none old signal missing
              | inr (slot, found) ↦
                  clear_empty old signal slot found
                    (ap actions_of (sym found) ∙ h.same_table signal ∙ none_there)
            ] in
          let (ended, agrees) = nothing_done (λ d. clear_actions d signal) old run in
          (m, rw ended (was_clear none_there), agrees, omega arith)

      clear-One : One w m (clears signal)
      clear-One = by_list (m.table signal) refl
        where
          by_list : (es : List (ℕ × Action F)) → m.table signal ≡ es → One w m (clears signal)
          by_list [] e = clear-clear e
          by_list (first ∷ others) e = clear-cleared first others e

    pub call-One : (k : Call F) → SigactionLaws c → m.next + 1 < 2 ^ 128 → One w m k
    call-One (registers s a) laws room = register-One s a laws room
    call-One (unregisters id) laws room = unregister-One id
    call-One (clears s) laws room = clear-One s
