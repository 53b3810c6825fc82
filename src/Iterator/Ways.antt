-- ===== src/Iterator/Ways.antt =====
-- The ways of a call of `Forever::next`, and lemmas on the flags.
use signal_hook.Base.{
  ℕ, zero, suc, ◌<◌, ◌≤◌, ◌≡◌, ◌≢◌, refl, Bool, true, false, Option, none, some, List, [], ◌∷◌, ℤ,
  pos, ◌==◌, nat_eq, Bool-cases, Outcome, ok, stop, blocked, length, set, get_elem?, arith, ap, sym,
  ◌∙◌, inl, inr, ◌⊎◌, get_elem?-set_ne, nat_beq_iff, dec_lt,
}
use signal_hook.Backend.{is_closed}
use signal_hook.Backend.Poll.{SignalIterator}
use signal_hook.Backend.Rounds.{Lowered, beyond}
use signal_hook.Iterator.{Event}
use signal_hook.Iterator.Reading.{awaited}

-- No flag behind the iterator's position is raised unless there is a byte to read.
abbrev pub Caught : SignalIterator Bool → Type 0
Caught it =
    (it.position ≤ length it.signals.slots)
    × ((0 < it.signals.bytes)
        ⊎ ((i : ℕ) → i < it.position → get_elem? it.signals.slots i ≢ some true))

abbrev pub Run : Type 0 → Type 0
Run A = Outcome (List Event × SignalIterator Bool × A)

-- The ways of a run that returns items of the type `A`.
module _ {A : Type 0} (item : ℤ → A) (ended : A) where
  -- It returns a raised flag, and lowers it alone.
  abbrev pub Takes : List Bool → List Event → Run A → Type 0
  Takes slots events run =
      (k : ℕ) × (it' : SignalIterator Bool) × (get_elem? slots k ≡ some true)
      × (run ≡ ok (events, it', item (pos k)))
      × (it'.signals.slots ≡ set slots k false)
      × Caught it'
      × (is_closed it'.signals ≡ false)

  -- It waits: for ever, or for a signal, or for the closing.
  abbrev pub Waits : List Bool → Option (Option ℕ × List Event) → Run A → Type 0
  Waits slots none run = run ≡ stop blocked
  Waits slots (some (some n, events)) run =
      (it' : SignalIterator Bool) × (run ≡ ok (events, it', item (pos n)))
      × (it'.signals.slots ≡ slots)
      × Caught it'
      × (is_closed it'.signals ≡ false)
  Waits slots (some (none, events)) run =
      (it' : SignalIterator Bool) × (run ≡ ok (events, it', ended)) × (is_closed it'.signals ≡ true)

  abbrev pub Answers : SignalIterator Bool → List Event → Run A → Type 0
  Answers it events run =
      ((is_closed it.signals ≡ true) × (run ≡ ok (events, it, ended)))
      ⊎ (((is_closed it.signals ≡ false) × Takes it.signals.slots events run)
          ⊎ ((is_closed it.signals ≡ false)
              × Lowered it.signals.slots 0
              × Waits it.signals.slots (awaited events) run))

pub found_below : (slots : List Bool) (k : ℕ) → get_elem? slots k ≡ some true → k < length slots
found_below slots k e = elim (dec_lt k (length slots)) [
  | yes h ↦ h
  | no h ↦ let out = beyond slots k (omega (arith, h)) in cc
]

pub set_back :
    (slots : List Bool) (n : ℕ)
    → n < length slots
    → get_elem? slots n ≢ some true
    → set (set slots n true) n false ≡ slots
set_back [] n h low = refl
set_back (true ∷ slots) zero h low = absurd (low refl)
set_back (false ∷ slots) zero h low = refl
set_back (b ∷ slots) (suc n) h low = ap (◌∷◌ b) (set_back slots n (omega arith) low)

pub Lowered-all :
    (slots : List Bool) (p : ℕ)
    → (0 < 0) ⊎ ((i : ℕ) → i < p → get_elem? slots i ≢ some true)
    → Lowered slots p
    → Lowered slots 0
Lowered-all slots p (inl bad) low = absurd (omega (arith, bad))
Lowered-all slots p (inr below) low = λ i le e. elim (dec_lt i p) [
  | yes before ↦ below i before e
  | no after ↦ low i (omega (arith, after)) e
]

pub only_one :
    (slots : List Bool) (n k : ℕ)
    → Lowered slots 0
    → get_elem? (set slots n true) k ≡ some true
    → k ≡ n
only_one slots n k low raised = elim (Bool-cases (k == n)) [
  | inl hit ↦ (nat_beq_iff k n).0 hit
  | inr miss ↦ absurd (
      low k (omega arith) (
        sym (
          get_elem?-set_ne slots true
            (λ same. let e : true ≡ false = sym ((nat_beq_iff k n).1 (sym same)) ∙ miss in cc))
        ∙ raised))
]
