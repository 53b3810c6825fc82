-- ===== src/Registry/Agreement.antt =====
-- What one call does to the agreement of the table with the one that its clients think of.
use mathlib.Core.List.{append_assoc, append-nil, map-append}
use signal_hook.Base.{
  ℕ, ◌+◌, ◌≡◌, refl, some, [], ◌∷◌, ◌++◌, map, ℤ, ◌==◌, ==_refl, int_eq, nat_eq, int_beq_iff,
  append_cancel_right, ap, sym, ◌∙◌, Bool-cases, inl, inr, none, ◌≢◌, true, false, ok,
  if◌then◌else◌,
}
use signal_hook.VecMap.Spec.{lookup}
use signal_hook.VecMap.Map.{HasUniqueKeys}
use signal_hook.Registry.{Siginfo, Sigaction, Action, SigId, Slot, Libc, World}
use signal_hook.Registry.Handler.{ran, Handled, execute, passed_on}
use signal_hook.Registry.TableLaws.{with_action}
use signal_hook.Registry.State.{
  globals_of, slot_in, actions_of, Coherent, IdsBelow, with_slot, deliver_other, deliver_same,
  passed_ours, passed_other, passed_slot, passed_same,
}
use signal_hook.Registry.Replacing.{replaced_world, Replaced-world, replaced-Coherent, slots_after}
use signal_hook.Registry.Atomic.{and_then}
use signal_hook.Registry.Stages.{id0, Done, Failed}
use signal_hook.Registry.Model.{Model, with_list, with_one_more, is_taken, all_of, Agrees}

module _ {F : Type 0} (c : Libc) (start : ℤ → Sigaction) (w : World c F) (m : Model F)
    (h : Agrees c start w m) where
  -- The table is as it was, and so is what a delivery runs.
  pub Agrees-Kept :
      (w' : World c F)
      → Coherent c (globals_of w'.globals) w'.os
      → (globals_of w'.globals).data_lock ≡ (globals_of w.globals).data_lock
      → w'.os ≡ w.os
      → Agrees c start w' m
  Agrees-Kept w' co same os = record {
    coherent = co;
    same_next = ap (λ d. d.next_id) same ∙ h.same_next;
    same_table = λ t. ap (λ d. actions_of (lookup t d.signals.entries)) same ∙ h.same_table t;
    same_taken = λ t. ap (λ d. is_taken (lookup t d.signals.entries)) same ∙ h.same_taken t;
    passes = λ t i u.
        passed_same c w w' t i u h.coherent (ap (λ d. lookup t d.signals.entries) same)
          (ap (λ o. c.disposition o t) os)
        ∙ h.passes t i u;
    runs = λ t i u.
        deliver_same c w w' t i u h.coherent (ap (λ d. lookup t d.signals.entries) same)
          (ap (λ o. c.disposition o t) os)
        ∙ h.runs t i u;
  }

  module _ (signal : ℤ) (slot slot' : Slot F)
      (found : slot_in (globals_of w.globals) signal ≡ some slot)
      (below : IdsBelow (globals_of w.globals).data_lock.next_id slot'.actions.entries)
      (distinct : HasUniqueKeys slot'.actions.entries) where
    installed : (c.disposition w.os signal).sa_sigaction ≡ c.handler_ptr
    installed = h.coherent.ours signal slot found

    old_first :
        (i : Siginfo) (u : ℕ)
        → execute {F = F} c slot.prev.info signal (some i) u
          ≡ execute c (start signal) signal (some i) u
    old_first i u =
        let run : with_slot c slot signal i u ≡ all_of c start m signal i u =
          sym (passed_slot c w signal i u slot installed found) ∙ h.passes signal i u in
        let es : slot.actions.entries ≡ m.table signal =
          ap actions_of (sym found) ∙ h.same_table signal in
        append_cancel_right _ _ (map (λ kv. ran kv.1 i) (m.table signal)) (
          ap (λ xs. execute c slot.prev.info signal (some i) u ++ map (λ kv. ran kv.1 i) xs)
            (sym es)
          ∙ ap (λ (x : Handled F). x.events) run)

    abbrev after : World c F
    after = replaced_world c w h.coherent signal slot slot' found below distinct

    slots :
        (t : ℤ)
        → slot_in (globals_of after.globals) t
          ≡ (if signal == t then some slot' else slot_in (globals_of w.globals) t)
    slots = slots_after c w h.coherent signal slot slot' found below distinct

    is_taken_there : m.taken signal ≡ true
    is_taken_there = sym (h.same_taken signal) ∙ ap is_taken found

    -- The slot is another, behind the same handler.
    pub Agrees-Replaced :
        slot'.prev ≡ slot.prev → Agrees c start after (with_list m signal slot'.actions.entries)
    Agrees-Replaced prev = record {
      coherent = replaced-Coherent c w h.coherent signal slot slot' found below distinct;
      same_next = h.same_next;
      same_table = λ t. ap actions_of (slots t) ∙ elim (Bool-cases (signal == t)) [
        | inl hit ↦ rw hit refl
        | inr miss ↦ rw miss (h.same_table t)
      ];
      same_taken = λ t. ap is_taken (slots t) ∙ elim (Bool-cases (signal == t)) [
        | inl hit ↦ rw (hit, ← (int_beq_iff signal t).0 hit) (sym is_taken_there)
        | inr miss ↦ rw miss (h.same_taken t)
      ];
      passes = λ t i u. elim (Bool-cases (signal == t)) [
        | inl hit ↦ rw (← (int_beq_iff signal t).0 hit) (
            passed_slot c after signal i u slot' installed (slots signal ∙ rw (==_refl signal) refl)
            ∙ now prev i u)
        | inr miss ↦
            rw miss (
              passed_same c w after t i u h.coherent (slots t ∙ rw miss refl) refl ∙ h.passes t i u)
      ];
      runs = λ t i u.
          Replaced-world c w h.coherent signal slot slot' found below distinct t i u
          ∙ elim (Bool-cases (signal == t)) [
            | inl hit ↦
                rw (← (int_beq_iff signal t).0 hit, ==_refl signal, is_taken_there)
                  (now_list prev i u)
            | inr miss ↦ rw miss (h.runs t i u)
          ];
    }
      where
        now_list :
            slot'.prev ≡ slot.prev
            → (i : Siginfo) (u : ℕ)
            → with_slot c slot' signal i u ≡ record {
              events =
                  execute c (start signal) signal (some i) u
                  ++ map (λ kv. ran kv.1 i) slot'.actions.entries;
              result = ok tt;
            }
        now_list prev i u = rw (prev, old_first i u) refl

        now :
            slot'.prev ≡ slot.prev
            → (i : Siginfo) (u : ℕ)
            → with_slot c slot' signal i u
              ≡ all_of c start (with_list m signal slot'.actions.entries) signal i u
        now prev i u = rw (==_refl signal) (now_list prev i u)

  module _ (signal : ℤ) (action : Action F) where
    pub Agrees-Failed :
        (e : ℤ) (w' : World c F) → Failed c signal action w e w' → Agrees c start w' m
    Agrees-Failed e w' (kept, co, same, os, act, failure) = Agrees-Kept w' co same os

    pub Agrees-Done :
        (id : SigId) (w' : World c F)
        → Done c signal action w id w'
        → Agrees c start w' (with_one_more m signal action)
    Agrees-Done id w'
          (id_is, registered, co, kernel, (base, found, fresh, before, others, next, es)) =
        record {
          coherent = co;
          same_next = next ∙ ap (λ n. n + 1) h.same_next;
          same_table = λ t. ap actions_of (others t) ∙ elim (Bool-cases (signal == t)) [
            | inl hit ↦ rw hit (
                ap (λ xs. xs ++ (id0 c signal action w, action) ∷ [])
                  (es ∙ h.same_table signal ∙ ap m.table ((int_beq_iff signal t).0 hit))
                ∙ ap (λ n. m.table t ++ (n, action) ∷ []) h.same_next)
            | inr miss ↦ rw miss (h.same_table t)
          ];
          same_taken = λ t. ap is_taken (others t) ∙ elim (Bool-cases (signal == t)) [
            | inl hit ↦ rw hit refl
            | inr miss ↦ rw miss (h.same_taken t)
          ];
          passes = λ t i u. elim (Bool-cases (signal == t)) [
            | inl hit ↦
                passed_ours c w' t i u (
                  co.ours t (with_action base (id0 c signal action w) action)
                    (others t ∙ rw hit refl))
                ∙ registered t i u
                ∙ rw hit (one_more t i u)
            | inr miss ↦ rw miss (
                passed_same c w w' t i u h.coherent (others t ∙ rw miss refl) (kernel t miss)
                ∙ h.passes t i u)
          ];
          runs = λ t i u. registered t i u ∙ elim (Bool-cases (signal == t)) [
            | inl hit ↦ rw hit (one_more t i u)
            | inr miss ↦ rw miss (h.runs t i u)
          ];
        }
      where
        one_more :
            (t : ℤ) (i : Siginfo) (u : ℕ)
            → and_then (passed_on c w t (some i) u) (ran action i) ≡ record {
              events =
                  execute c (start t) t (some i) u
                  ++ map (λ kv. ran kv.1 i) (m.table t ++ (m.next, action) ∷ []);
              result = ok tt;
            }
        one_more t i u =
            ap (λ x. and_then x (ran action i)) (h.passes t i u) ∙ simp (map-append, append_assoc)

-- Before the first call: the handlers of others, and no actions.
pub fresh-Agrees :
    {F : Type 0} (c : Libc) (w : World c F)
    → w.globals ≡ none
    → ((s : ℤ) → (c.disposition w.os s).sa_sigaction ≢ c.handler_ptr)
    → Agrees c (c.disposition w.os) w (record { next = 1; table = λ t. []; taken = λ t. false })
unfolding lookup
fresh-Agrees c w fresh foreign =
    let old = globals_of w.globals in
    let none_there : (s : ℤ) → slot_in old s ≡ none =
      λ s. ap (λ gs. slot_in (globals_of gs) s) fresh in
    record {
      coherent = record {
        ours = λ s slot found. let e = sym (none_there s) ∙ found in cc;
        others = λ s missing. foreign s;
        unique = rw fresh tt;
        below = λ s slot found. let e = sym (none_there s) ∙ found in cc;
        distinct = λ s slot found. let e = sym (none_there s) ∙ found in cc;
      };
      same_next = rw fresh refl;
      same_table = λ t. rw (none_there t) refl;
      same_taken = λ t. rw (none_there t) refl;
      passes = λ t i u. passed_other c w t i u (foreign t) ∙ rw append-nil refl;
      runs = λ t i u. deliver_other c w t i u (foreign t);
    }
