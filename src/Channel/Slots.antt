-- ===== src/Channel/Slots.antt =====
-- Lists of the slot numbers of channel.rs, and what their slots hold.
use signal_hook.Base.{
  ℕ, suc, ◌+◌, ◌-◌, ◌≤◌, ◌<◌, ◌≡◌, refl, ◌≢◌, Option, some, List, [], ◌∷◌, ◌++◌, nat_eq, nat_beq,
  length, All, arith, ap, ◌∙◌, get_elem?, set as set_elem, to_nat, get_elem?-set_ne,
}
use signal_hook.Channel.{slots}
use signal_hook.Channel.Queue.{IsDigit}

-- How often `v` is in the queue.
abbrev pub occurs : ℕ → List ℕ → ℕ
occurs v [] = 0
occurs v (x ∷ xs) = to_nat (nat_beq x v) + occurs v xs

pub occurs-append : (v : ℕ) (xs ys : List ℕ) → occurs v (xs ++ ys) ≡ occurs v xs + occurs v ys
occurs-append v [] ys = omega arith
occurs-append v (x ∷ xs) ys = omega (arith, occurs-append v xs ys)

abbrev pub IsSlotNumber : ℕ → Type 0
IsSlotNumber x = (0 < x) × (x ≤ slots)

pub digits_of_slots : (xs : List ℕ) → All IsSlotNumber xs → All IsDigit xs
digits_of_slots [] h = tt
digits_of_slots (x ∷ xs) h = (omega (arith, h.0), digits_of_slots xs h.1)

abbrev pub all_occurs : List ℕ → ℕ
all_occurs xs = occurs 1 xs + occurs 2 xs + occurs 3 xs + occurs 4 xs + occurs 5 xs

-- A list of slot numbers is as long as they occur.
pub length-occurs : (xs : List ℕ) → All IsSlotNumber xs → length xs ≡ all_occurs xs
length-occurs [] h = refl
length-occurs (x ∷ xs) h = ground (arith, length-occurs xs h.1, h.0)

module _ {T : Type 0} where
  -- The slots `xs` hold the values `vs`, in this order.
  abbrev pub Holds : List (Option T) → List ℕ → List T → Type 0
  Holds st [] [] = Unit
  Holds st [] (v ∷ vs) = ⊥
  Holds st (x ∷ xs) [] = ⊥
  Holds st (x ∷ xs) (v ∷ vs) = (get_elem? st (x - 1) ≡ some (some v)) × Holds st xs vs

  pub length-Holds :
      (st : List (Option T)) (xs : List ℕ) (vs : List T) → Holds st xs vs → length xs ≡ length vs
  length-Holds st [] [] h = refl
  length-Holds st [] (v ∷ vs) h = absurd h
  length-Holds st (x ∷ xs) [] h = absurd h
  length-Holds st (x ∷ xs) (v ∷ vs) h = ap suc (length-Holds st xs vs h.1)

  -- A write to a slot that is not in the queue.
  pub Holds-set :
      (st : List (Option T)) (e : ℕ) (w : Option T) (xs : List ℕ) (vs : List T)
      → 0 < e
      → occurs e xs ≡ 0
      → All IsSlotNumber xs
      → Holds st xs vs
      → Holds (set_elem st (e - 1) w) xs vs
  Holds-set st e w [] [] p o r h = tt
  Holds-set st e w [] (v ∷ vs) p o r h = absurd h
  Holds-set st e w (x ∷ xs) [] p o r h = absurd h
  Holds-set st e w (x ∷ xs) (v ∷ vs) p o r h =
      let other : e - 1 ≢ x - 1 = ground (arith, r.0) in
      (get_elem?-set_ne st w other ∙ h.0, Holds-set st e w xs vs p (omega arith) r.1 h.1)

  pub Holds-append :
      (st : List (Option T)) (x : ℕ) (w : T) (xs : List ℕ) (vs : List T)
      → get_elem? st (x - 1) ≡ some (some w)
      → Holds st xs vs
      → Holds st (xs ++ x ∷ []) (vs ++ w ∷ [])
  Holds-append st x w [] [] e h = (e, tt)
  Holds-append st x w [] (v ∷ vs) e h = absurd h
  Holds-append st x w (y ∷ xs) [] e h = absurd h
  Holds-append st x w (y ∷ xs) (v ∷ vs) e h = (h.0, Holds-append st x w xs vs e h.1)
