-- ===== src/Registry/State.antt =====
-- The table and the kernel's dispositions together, and what a delivery runs in such a state.
use signal_hook.Base.{
  arith, ℕ, ◌<◌, ◌≡◌, ◌≢◌, refl, true, Option, none, some, List, [], ◌∷◌, ◌++◌, map, ℤ, ◌==◌,
  int_eq, nat_eq, nat_beq_iff, ==_refl, Option-cases, inl, inr, ok, All, ap, sym, ◌∙◌, Bool-cases,
}
use signal_hook.VecMap.{values}
use signal_hook.VecMap.Spec.{lookup}
use signal_hook.VecMap.Laws.{get_lem}
use signal_hook.VecMap.Map.{HasUniqueKeys}
use signal_hook.Registry.{Siginfo, Sigaction, Action, Prev, Slot, GlobalData, Libc, World}
use signal_hook.Registry.Handler.{
  Event, ran, Handled, execute, run_actions, handle, handler, left_to, deliver, passed_on,
}
use signal_hook.Registry.Register.{initial}

module _ {F : Type 0} where
  -- The globals, as `ensure` would hand them out.
  abbrev pub globals_of : Option (GlobalData F) → GlobalData F
  globals_of none = initial
  globals_of (some g) = g

  abbrev pub slot_in : GlobalData F → ℤ → Option (Slot F)
  slot_in g s = lookup s g.data_lock.signals.entries

  abbrev pub actions_of : Option (Slot F) → List (ℕ × Action F)
  actions_of none = []
  actions_of (some slot) = slot.actions.entries

  -- The actions of a signal.
  abbrev pub entries_of : GlobalData F → ℤ → List (ℕ × Action F)
  entries_of g s = actions_of (slot_in g s)

  abbrev pub IdsBelow : ℕ → List (ℕ × Action F) → Type 0
  IdsBelow n es = All (λ (e : ℕ × Action F). e.0 < n) es

-- The table is the truth about the kernel: our handler is installed for exactly the signals that
-- have a slot. The identifiers of a slot are distinct and below `next_id`.
pub record Coherent (c : Libc) {F : Type 0} (g : GlobalData F) (os : c.Os) : Type 0 where
  pub ours :
      (s : ℤ) (slot : Slot F)
      → slot_in g s ≡ some slot
      → (c.disposition os s).sa_sigaction ≡ c.handler_ptr
  pub others : (s : ℤ) → slot_in g s ≡ none → (c.disposition os s).sa_sigaction ≢ c.handler_ptr
  pub unique : HasUniqueKeys g.data_lock.signals.entries
  pub below :
      (s : ℤ) (slot : Slot F)
      → slot_in g s ≡ some slot
      → IdsBelow g.data_lock.next_id slot.actions.entries
  pub distinct :
      (s : ℤ) (slot : Slot F) → slot_in g s ≡ some slot → HasUniqueKeys slot.actions.entries

ours_test :
    (c : Libc) (act : Sigaction)
    → act.sa_sigaction ≡ c.handler_ptr
    → (act.sa_sigaction == c.handler_ptr) ≡ true
ours_test c act h = (nat_beq_iff _ _).1 h

module _ {F : Type 0} (c : Libc) where
  -- A handler behind a slot: the previous handler, and then the actions in their order.
  abbrev pub with_slot : Slot F → ℤ → Siginfo → ℕ → Handled F
  with_slot slot t i u = record {
    events = execute c slot.prev.info t (some i) u ++ map (λ kv. ran kv.1 i) slot.actions.entries;
    result = ok tt;
  }

  abbrev pub with_previous : Sigaction → ℤ → Siginfo → ℕ → Handled F
  with_previous act t i u = record { events = execute c act t (some i) u; result = ok tt }

  map-values :
      (es : List (ℕ × Action F)) (i : Siginfo)
      → map (λ a. ran a i) (map (λ kv. kv.1) es) ≡ map (λ kv. ran kv.1 i) es
  map-values [] i = refl
  map-values (kv ∷ es) i = ap (◌∷◌ (ran kv.1 i)) (map-values es i)

  handle_found :
      (g : GlobalData F) (t : ℤ) (i : Siginfo) (u : ℕ) (slot : Slot F)
      → slot_in g t ≡ some slot
      → handle c g t (some i) u ≡ with_slot slot t i u
  unfolding handle run_actions values
  handle_found g t i u slot found =
      rw (get_lem g.data_lock.signals t, handle, found)
        (ap
          (λ (es : List (Event F)). record {
            events = execute c slot.prev.info t (some i) u ++ es;
            result = ok tt;
          })
          (map-values slot.actions.entries i))

  handle_missing :
      (g : GlobalData F) (t : ℤ) (i : Siginfo) (u : ℕ) (prev : Prev)
      → slot_in g t ≡ none
      → g.race_fallback ≡ some prev
      → prev.signal ≡ t
      → handle c g t (some i) u ≡ with_previous prev.info t i u
  unfolding handle
  handle_missing g t i u prev missing fallback same =
      rw (get_lem g.data_lock.signals t, handle, missing, fallback, same, ==_refl t) refl

  -- Our handler is installed and there is a slot.
  pub deliver_slot :
      (w : World c F) (g : GlobalData F) (t : ℤ) (i : Siginfo) (u : ℕ) (slot : Slot F)
      → w.globals ≡ some g
      → (c.disposition w.os t).sa_sigaction ≡ c.handler_ptr
      → slot_in g t ≡ some slot
      → deliver c w t (some i) u ≡ with_slot slot t i u
  unfolding deliver handler
  deliver_slot w g t i u slot e installed found =
      rw (ours_test c (c.disposition w.os t) installed)
        (ap (λ gs. handler c gs t (some i) u) e ∙ handle_found g t i u slot found)

  -- The race: our handler is installed and there is no slot yet, but the fallback is of the signal.
  pub deliver_fallback :
      (w : World c F) (g : GlobalData F) (t : ℤ) (i : Siginfo) (u : ℕ) (prev : Prev)
      → w.globals ≡ some g
      → (c.disposition w.os t).sa_sigaction ≡ c.handler_ptr
      → slot_in g t ≡ none
      → g.race_fallback ≡ some prev
      → prev.signal ≡ t
      → deliver c w t (some i) u ≡ with_previous prev.info t i u
  unfolding deliver handler
  deliver_fallback w g t i u prev e installed missing fallback same =
      rw (ours_test c (c.disposition w.os t) installed)
        (ap (λ gs. handler c gs t (some i) u) e ∙ handle_missing g t i u prev missing fallback same)

  -- Somebody else's handler is installed.
  pub deliver_other :
      (w : World c F) (t : ℤ) (i : Siginfo) (u : ℕ)
      → (c.disposition w.os t).sa_sigaction ≢ c.handler_ptr
      → deliver c w t (some i) u ≡ left_to c (c.disposition w.os t) t (some i) u
  unfolding deliver
  deliver_other w t i u foreign =
      elim (Bool-cases ((c.disposition w.os t).sa_sigaction == c.handler_ptr)) [
        | inl ours ↦ absurd (foreign ((nat_beq_iff _ _).0 ours))
        | inr theirs ↦ rw theirs refl
      ]

  -- The globals of a table with a slot are set up.
  set_up :
      (gs : Option (GlobalData F)) (t : ℤ) (slot : Slot F)
      → slot_in (globals_of gs) t ≡ some slot
      → gs ≡ some (globals_of gs)
  unfolding lookup
  set_up none t slot found = cc
  set_up (some g) t slot found = refl

  pub deliver_slot_of :
      (w : World c F) (t : ℤ) (i : Siginfo) (u : ℕ) (slot : Slot F)
      → (c.disposition w.os t).sa_sigaction ≡ c.handler_ptr
      → slot_in (globals_of w.globals) t ≡ some slot
      → deliver c w t (some i) u ≡ with_slot slot t i u
  deliver_slot_of w t i u slot installed found =
      deliver_slot w (globals_of w.globals) t i u slot (set_up w.globals t slot found) installed
        found

  -- What a delivery runs depends on the slot and the disposition of its signal alone.
  pub deliver_same :
      (w w' : World c F) (t : ℤ) (i : Siginfo) (u : ℕ)
      → Coherent c (globals_of w.globals) w.os
      → slot_in (globals_of w'.globals) t ≡ slot_in (globals_of w.globals) t
      → c.disposition w'.os t ≡ c.disposition w.os t
      → deliver c w' t (some i) u ≡ deliver c w t (some i) u
  deliver_same w w' t i u co slots kernel = elim (Option-cases (slot_in (globals_of w.globals) t)) [
    | inl missing ↦
        let foreign = co.others t missing in
        deliver_other w' t i u (rw kernel foreign)
        ∙ ap (λ act. left_to c act t (some i) u) kernel
        ∙ sym (deliver_other w t i u foreign)
    | inr (slot, found) ↦
        let installed = co.ours t slot found in
        deliver_slot_of w' t i u slot (rw kernel installed) (slots ∙ found)
        ∙ sym (deliver_slot_of w t i u slot installed found)
  ]

  -- The same two, for what is passed on.
  pub passed_ours :
      (w : World c F) (t : ℤ) (i : Siginfo) (u : ℕ)
      → (c.disposition w.os t).sa_sigaction ≡ c.handler_ptr
      → passed_on c w t (some i) u ≡ deliver c w t (some i) u
  unfolding passed_on deliver
  passed_ours w t i u installed = rw (ours_test c (c.disposition w.os t) installed) refl

  pub passed_other :
      (w : World c F) (t : ℤ) (i : Siginfo) (u : ℕ)
      → (c.disposition w.os t).sa_sigaction ≢ c.handler_ptr
      → passed_on c w t (some i) u ≡ with_previous (c.disposition w.os t) t i u
  unfolding passed_on
  passed_other w t i u foreign =
      elim (Bool-cases ((c.disposition w.os t).sa_sigaction == c.handler_ptr)) [
        | inl ours ↦ absurd (foreign ((nat_beq_iff _ _).0 ours))
        | inr theirs ↦ rw theirs refl
      ]

  pub passed_slot :
      (w : World c F) (t : ℤ) (i : Siginfo) (u : ℕ) (slot : Slot F)
      → (c.disposition w.os t).sa_sigaction ≡ c.handler_ptr
      → slot_in (globals_of w.globals) t ≡ some slot
      → passed_on c w t (some i) u ≡ with_slot slot t i u
  passed_slot w t i u slot installed found =
      passed_ours w t i u installed ∙ deliver_slot_of w t i u slot installed found

  pub passed_same :
      (w w' : World c F) (t : ℤ) (i : Siginfo) (u : ℕ)
      → Coherent c (globals_of w.globals) w.os
      → slot_in (globals_of w'.globals) t ≡ slot_in (globals_of w.globals) t
      → c.disposition w'.os t ≡ c.disposition w.os t
      → passed_on c w' t (some i) u ≡ passed_on c w t (some i) u
  passed_same w w' t i u co slots kernel = elim (Option-cases (slot_in (globals_of w.globals) t)) [
    | inl missing ↦
        let foreign = co.others t missing in
        passed_other w' t i u (rw kernel foreign)
        ∙ ap (λ act. with_previous act t i u) kernel
        ∙ sym (passed_other w t i u foreign)
    | inr (slot, found) ↦
        let installed = co.ours t slot found in
        passed_slot w' t i u slot (rw kernel installed) (slots ∙ found)
        ∙ sym (passed_slot w t i u slot installed found)
  ]

  -- But for the end of a default action, it is what a delivery runs.
  pub passed_events :
      (w : World c F) (t : ℤ) (i : Siginfo) (u : ℕ)
      → (passed_on c w t (some i) u).events ≡ (deliver c w t (some i) u).events
  unfolding passed_on deliver left_to execute
  passed_events w t i u = elim (Bool-cases ((c.disposition w.os t).sa_sigaction == c.handler_ptr)) [
    | inl ours ↦ rw ours refl
    | inr theirs ↦ rw theirs (elim (Bool-cases ((c.disposition w.os t).sa_sigaction == c.sig_dfl)) [
      | inl default ↦ rw default (ground arith)
      | inr act ↦ rw act refl
    ])
  ]
