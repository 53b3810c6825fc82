-- ===== src/Registry/Coherence.antt =====
-- The table and the kernel stay coherent when one slot is put into the table.
use signal_hook.Base.{
  ℕ, ◌≤◌, ◌≡◌, ◌≢◌, refl, true, false, none, some, List, [], ◌∷◌, ℤ, ◌==◌, int_eq, nat_eq,
  nat_beq_iff, int_beq_iff, if◌then◌else◌, arith, sym, ◌∙◌, Bool-cases, inl, inr,
}
use signal_hook.VecMap.Spec.{lookup}
use signal_hook.VecMap.Map.{HasUniqueKeys}
use signal_hook.Registry.{Action, Slot, GlobalData, Libc}
use signal_hook.Registry.State.{slot_in, IdsBelow, Coherent}

module _ {F : Type 0} where
  pub IdsBelow-fresh : (n : ℕ) (es : List (ℕ × Action F)) → IdsBelow n es → lookup n es ≡ none
  unfolding lookup
  IdsBelow-fresh n [] h = refl
  IdsBelow-fresh n ((k, a) ∷ es) h = elim (Bool-cases (k == n)) [
    | inl hit ↦ let same : k ≡ n = (nat_beq_iff k n).0 hit in absurd (omega (arith, h.0))
    | inr miss ↦ rw miss (IdsBelow-fresh n es h.1)
  ]

  pub IdsBelow-weaken : (n m : ℕ) (es : List (ℕ × Action F)) → n ≤ m → IdsBelow n es → IdsBelow m es
  IdsBelow-weaken n m [] le h = tt
  IdsBelow-weaken n m ((k, a) ∷ es) le h = (omega (arith, h.0), IdsBelow-weaken n m es le h.1)

-- One slot changes, the kernel's side of other signals does not.
pub Coherent-put :
    (c : Libc) {F : Type 0} (g0 : GlobalData F) (os0 : c.Os) (g : GlobalData F) (os : c.Os)
    (signal : ℤ) (slot : Slot F)
    → Coherent c g0 os0
    → ((t : ℤ) → slot_in g t ≡ (if signal == t then some slot else slot_in g0 t))
    → (c.disposition os signal).sa_sigaction ≡ c.handler_ptr
    → ((t : ℤ) → (signal == t) ≡ false → c.disposition os t ≡ c.disposition os0 t)
    → HasUniqueKeys g.data_lock.signals.entries
    → g0.data_lock.next_id ≤ g.data_lock.next_id
    → IdsBelow g.data_lock.next_id slot.actions.entries
    → HasUniqueKeys slot.actions.entries
    → Coherent c g os
Coherent-put c {F} g0 os0 g os signal slot co final installed kernel unique le below distinct =
    record {
      ours = λ t s found. elim (Bool-cases (signal == t)) [
        | inl hit ↦ rw (← (int_beq_iff signal t).0 hit) installed
        | inr miss ↦ rw (kernel t miss) (co.ours t s (old t s miss found))
      ];
      others = λ t missing. elim (Bool-cases (signal == t)) [
        | inl hit ↦ absurd (some_none t hit missing)
        | inr miss ↦ rw (kernel t miss) (co.others t (sym (missed t miss) ∙ missing))
      ];
      unique = unique;
      below = λ t s found. elim (Bool-cases (signal == t)) [
        | inl hit ↦ rw (← same t s hit found) below
        | inr miss ↦
            IdsBelow-weaken g0.data_lock.next_id g.data_lock.next_id s.actions.entries le
              (co.below t s (old t s miss found))
      ];
      distinct = λ t s found. elim (Bool-cases (signal == t)) [
        | inl hit ↦ rw (← same t s hit found) distinct
        | inr miss ↦ co.distinct t s (old t s miss found)
      ];
    }
  where
    missed : (t : ℤ) → (signal == t) ≡ false → slot_in g t ≡ slot_in g0 t
    missed t miss = final t ∙ rw miss refl

    hits : (t : ℤ) → (signal == t) ≡ true → slot_in g t ≡ some slot
    hits t hit = final t ∙ rw hit refl

    old :
        (t : ℤ) (s : Slot F) → (signal == t) ≡ false → slot_in g t ≡ some s → slot_in g0 t ≡ some s
    old t s miss found = sym (missed t miss) ∙ found

    same : (t : ℤ) (s : Slot F) → (signal == t) ≡ true → slot_in g t ≡ some s → slot ≡ s
    same t s hit found = let e : some slot ≡ some s = sym (hits t hit) ∙ found in cc

    some_none : (t : ℤ) → (signal == t) ≡ true → slot_in g t ≢ none
    some_none t hit missing = let e : some slot ≡ none = sym (hits t hit) ∙ missing in cc

-- The fallback is no part of it.
pub Coherent-same :
    (c : Libc) {F : Type 0} (g0 g : GlobalData F) (os0 os : c.Os)
    → Coherent c g0 os0
    → g.data_lock ≡ g0.data_lock
    → os ≡ os0
    → Coherent c g os
Coherent-same c g0 g os0 os co same kernel =
    rw (same, kernel)
      (record {
        ours = co.ours;
        others = co.others;
        unique = co.unique;
        below = co.below;
        distinct = co.distinct;
      })
