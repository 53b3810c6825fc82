-- ===== src/Registry/Atomic.antt =====
-- `register_unchecked_impl`, as a handler on any thread can watch it: at each moment a delivery of
-- any signal runs what it ran before, or from the new handler on what that passes it on to, and only
-- when the table is stored the new action too.
use mathlib.Core.List.{append_assoc, map-append}
use signal_hook.Base.{
  ℕ, ◌≡◌, refl, true, none, some, List, [], ◌∷◌, ◌++◌, ℤ, ◌==◌, ==_refl, int_eq, nat_eq,
  int_beq_iff, ok, if◌then◌else◌, ap, sym, ◌∙◌, Bool-cases, inl, inr, ◌⊎◌,
}
use signal_hook.VecMap.Spec.{lookup}
use signal_hook.Registry.{Siginfo, Sigaction, Action, Slot, SignalData, GlobalData, Libc, World}
use signal_hook.Registry.Handler.{Event, ran, Handled, deliver, passed_on}
use signal_hook.Registry.TableLaws.{with_action}
use signal_hook.Registry.State.{
  globals_of, slot_in, Coherent, with_previous, deliver_slot, deliver_fallback, passed_other,
  deliver_same, passed_slot,
}
use signal_hook.Registry.Register.{our_action}

-- One more event at the end.
abbrev pub and_then : {F : Type 0} → Handled F → Event F → Handled F
and_then h e = record h { events = h.events ++ e ∷ [] }

module _ {F : Type 0} (c : Libc) (signal : ℤ) (action : Action F) (w0 : World c F) where
  -- Every delivery runs what it ran in `w0`.
  abbrev pub Unchanged : World c F → Type 0
  Unchanged w = (t : ℤ) (i : Siginfo) (u : ℕ) → deliver c w t (some i) u ≡ deliver c w0 t (some i) u

  -- So it does, but for the signal what `handler` passes it on to.
  abbrev pub PassedOn : World c F → Type 0
  PassedOn w =
      (t : ℤ) (i : Siginfo) (u : ℕ)
      → deliver c w t (some i) u
        ≡ (if signal == t then passed_on c w0 t (some i) u else deliver c w0 t (some i) u)

  -- So it does, and a delivery of the signal runs the action behind all that.
  abbrev pub Registered : World c F → Type 0
  Registered w =
      (t : ℤ) (i : Siginfo) (u : ℕ)
      → deliver c w t (some i) u ≡ (
          if signal == t
          then and_then (passed_on c w0 t (some i) u) (ran action i)
          else deliver c w0 t (some i) u)

  abbrev pub Atomic : World c F → Type 0
  Atomic w = Unchanged w ⊎ (PassedOn w ⊎ Registered w)

  abbrev pub g0 : GlobalData F
  g0 = globals_of w0.globals

  abbrev pub replaced : ℤ → Sigaction
  replaced t = if signal == t then our_action c else c.disposition w0.os t

  module _ (co : Coherent c g0 w0.os) where
    at_signal : {t : ℤ} → (signal == t) ≡ true → signal ≡ t
    at_signal {t} hit = (int_beq_iff signal t).0 hit

    pub foreign_first :
        slot_in g0 signal ≡ none
        → (i : Siginfo) (u : ℕ)
        → passed_on c w0 signal (some i) u ≡ with_previous c (c.disposition w0.os signal) signal i u
    foreign_first missing i u = passed_other c w0 signal i u (co.others signal missing)

    pub installed :
        (w : World c F)
        → ((t : ℤ) → c.disposition w.os t ≡ replaced t)
        → (c.disposition w.os signal).sa_sigaction ≡ c.handler_ptr
    installed w kernel =
        let ours : replaced signal ≡ our_action c = rw (==_refl signal) refl in
        ap (λ (act : Sigaction). act.sa_sigaction) (kernel signal ∙ ours)

    -- Before `sigaction` replaces the handler.
    pub Unchanged-early :
        (w : World c F) (g : GlobalData F)
        → w.globals ≡ some g
        → g.data_lock ≡ g0.data_lock
        → w.os ≡ w0.os
        → Unchanged w
    Unchanged-early w g e same os t i u =
        deliver_same c w0 w t i u co
          (ap (λ gs. slot_in (globals_of gs) t) e
            ∙ ap (λ (d : SignalData F). lookup t d.signals.entries) same)
          (ap (λ o. c.disposition o t) os)

    -- After it has, with the fallback set, and before the table is stored.
    pub PassedOn-late :
        (w : World c F) (g : GlobalData F)
        → w.globals ≡ some g
        → g.data_lock ≡ g0.data_lock
        → g.race_fallback ≡ some (record { signal = signal; info = c.disposition w0.os signal })
        → slot_in g0 signal ≡ none
        → ((t : ℤ) → c.disposition w.os t ≡ replaced t)
        → PassedOn w
    PassedOn-late w g e same fallback missing kernel t i u = elim (Bool-cases (signal == t)) [
      | inl hit ↦
          rw (← at_signal hit, ==_refl signal)
            (deliver_fallback c w g signal i u
                (record { signal = signal; info = c.disposition w0.os signal }) e
                (installed w kernel)
                (ap (λ (d : SignalData F). lookup signal d.signals.entries) same ∙ missing) fallback
                refl
              ∙ sym (foreign_first missing i u))
      | inr miss ↦ rw miss (
          deliver_same c w0 w t i u co
            (ap (λ gs. slot_in (globals_of gs) t) e
              ∙ ap (λ (d : SignalData F). lookup t d.signals.entries) same)
            (kernel t ∙ rw miss refl))
    ]

    events_path :
        (a b : List (Event F)) (e : a ≡ b)
        → ◌≡◌ {A = Handled F}
            (record { events = a; result = ok tt })
            (record { events = b; result = ok tt })
    events_path a b e = ap (λ x. record { events = x; result = ok tt }) e

    -- The slot of the signal in the final table.
    abbrev pub FinalSlot : GlobalData F → Slot F → Type 0
    FinalSlot g slot = (t : ℤ) → slot_in g t ≡ (if signal == t then some slot else slot_in g0 t)

    -- A first action: the previous handler runs, and then the action.
    pub Registered-first :
        (w : World c F) (g : GlobalData F) (slot : Slot F) (id : ℕ)
        → w.globals ≡ some g
        → FinalSlot g slot
        → slot.prev.info ≡ c.disposition w0.os signal
        → slot.actions.entries ≡ (id, action) ∷ []
        → slot_in g0 signal ≡ none
        → ((t : ℤ) → c.disposition w.os t ≡ replaced t)
        → Registered w
    Registered-first w g slot id e final previous only missing kernel t i u =
        elim (Bool-cases (signal == t)) [
          | inl hit ↦
              rw (← at_signal hit, ==_refl signal)
                (deliver_slot c w g signal i u slot e (installed w kernel)
                    (final signal ∙ rw (==_refl signal) refl)
                  ∙ rw (foreign_first missing i u, only, previous) refl)
          | inr miss ↦ rw miss (
              deliver_same c w0 w t i u co
                (ap (λ gs. slot_in (globals_of gs) t) e ∙ final t ∙ rw miss refl)
                (kernel t ∙ rw miss refl))
        ]

    -- One more action, behind those that are there.
    pub Registered-more :
        (w : World c F) (g : GlobalData F) (slot : Slot F) (id : ℕ)
        → w.globals ≡ some g
        → FinalSlot g (with_action slot id action)
        → slot_in g0 signal ≡ some slot
        → w.os ≡ w0.os
        → Registered w
    Registered-more w g slot id e final found os t i u = elim (Bool-cases (signal == t)) [
      | inl hit ↦
          rw (← at_signal hit, ==_refl signal)
            (deliver_slot c w g signal i u (with_action slot id action) e
                (ap (λ o. (c.disposition o signal).sa_sigaction) os ∙ co.ours signal slot found)
                (final signal ∙ rw (==_refl signal) refl)
              ∙ rw (passed_slot c w0 signal i u slot (co.ours signal slot found) found)
                  (simp (map-append, append_assoc)))
      | inr miss ↦ rw miss (
          deliver_same c w0 w t i u co
            (ap (λ gs. slot_in (globals_of gs) t) e ∙ final t ∙ rw miss refl)
            (ap (λ o. c.disposition o t) os))
    ]
