-- ===== src/Backend/Pending.antt =====
-- `Pending` over the flags of `SignalOnly`, from a call of `pending` to its end.
use mathlib.Core.List.{append_assoc, append-nil}
use signal_hook.Base.{
  ℕ, zero, suc, ◌+◌, ◌-◌, ◌<◌, ◌≤◌, ◌≡◌, refl, Bool, true, false, none, some, List, [], ◌∷◌, ◌++◌,
  ℤ, pos, Outcome, ok, ◌>>=◌, index, length, length-append, set, arith, ap, sym,
}
use signal_hook.Backend.{Exfiltrator, signal_only, load_slot, next_from, next}

-- Calls of `next` until it returns `None`, or the fuel ends.
unfoldable pub drain : {S O : Type 0} → Exfiltrator S O → ℕ → List S → ℕ → Outcome (List S × List O)
drain ex zero slots position = ok (slots, [])
drain ex (suc fuel) slots position = do
  (slots', position', result) ← next ex slots position
  elim result [
    | none ↦ ok (slots', [])
    | some o ↦ do (last, outputs) ← drain ex fuel slots' position'; ok (last, o ∷ outputs)
  ]

-- The numbers of the set flags, ascending, and the flags after they are taken.
abbrev pub raised : ℕ → List Bool → List ℤ
raised position [] = []
raised position (true ∷ slots) = pos position ∷ raised (suc position) slots
raised position (false ∷ slots) = raised (suc position) slots

abbrev pub lowered : List Bool → List Bool
lowered [] = []
lowered (b ∷ slots) = false ∷ lowered slots

abbrev pub tally : List Bool → ℕ
tally [] = 0
tally (true ∷ slots) = suc (tally slots)
tally (false ∷ slots) = tally slots

tally-le : (slots : List Bool) → tally slots ≤ length slots
tally-le [] = omega arith
tally-le (true ∷ slots) = omega (arith, tally-le slots)
tally-le (false ∷ slots) = omega (arith, tally-le slots)

pub index_middle :
    {A : Type 0} (before after : List A) (b : A)
    → index (before ++ b ∷ after) (length before) ≡ ok b
index_middle [] after b = refl
index_middle (x ∷ before) after b = index_middle before after b

pub set_middle :
    {A : Type 0} (before after : List A) (b b' : A)
    → set (before ++ b ∷ after) (length before) b' ≡ before ++ b' ∷ after
set_middle [] after b b' = refl
set_middle (x ∷ before) after b b' = ap (◌∷◌ x) (set_middle before after b b')

load_set :
    (before after : List Bool)
    → load_slot signal_only (before ++ true ∷ after) (length before)
      ≡ ok (before ++ false ∷ after, some (pos (length before)))
unfolding load_slot
load_set before after = rw (index_middle before after true, set_middle before after true false) refl

load_clear :
    (before after : List Bool)
    → load_slot signal_only (before ++ false ∷ after) (length before)
      ≡ ok (before ++ false ∷ after, none)
unfolding load_slot
load_clear before after =
    rw (index_middle before after false, set_middle before after false false) refl

pub left_of :
    {A : Type 0} (before after : List A) (b : A)
    → (length (before ++ b ∷ after) - length before ≡ suc (length after))
      × (length (before ++ b ∷ after) - (length before + 1) ≡ length after)
left_of before after b =
    let n = length-append before (b ∷ after) in (omega (arith, n), omega (arith, n))

next_set :
    (before after : List Bool)
    → next signal_only (before ++ true ∷ after) (length before)
      ≡ ok (before ++ false ∷ after, length before, some (pos (length before)))
unfolding next next_from
next_set before after = rw ((left_of before after true).0, next, load_set before after) refl

next_clear :
    (before after : List Bool)
    → next signal_only (before ++ false ∷ after) (length before)
      ≡ next signal_only (before ++ false ∷ after) (length before + 1)
unfolding next next_from
next_clear before after =
    rw
      (
        (left_of before after false).0,
        next,
        (left_of before after false).1,
        load_clear before after,
      )
      refl

next_end :
    (slots : List Bool) → next signal_only slots (length slots) ≡ ok (slots, length slots, none)
unfolding next next_from
next_end slots = let n : length slots - length slots ≡ 0 = omega arith in rw (n, next) refl

drain_clear :
    (fuel : ℕ) (before after : List Bool)
    → drain signal_only fuel (before ++ false ∷ after) (length before)
      ≡ drain signal_only fuel (before ++ false ∷ after) (length before + 1)
unfolding drain
drain_clear zero before after = refl
drain_clear (suc fuel) before after = rw (next_clear before after, drain) refl

-- The flags up to a clear one are behind.
pub shift :
    {A : Type 0} (before after : List A) (b : A)
    → (before ++ b ∷ after ≡ (before ++ b ∷ []) ++ after)
      × (length (before ++ b ∷ []) ≡ length before + 1)
shift before after b = (sym (append_assoc before (b ∷ []) after), length-append before (b ∷ []))

drain_shift :
    (fuel : ℕ) (before after : List Bool)
    → drain signal_only fuel ((before ++ false ∷ []) ++ after) (length (before ++ false ∷ []))
      ≡ ok ((before ++ false ∷ []) ++ lowered after, raised (length (before ++ false ∷ [])) after)
    → drain signal_only fuel (before ++ false ∷ after) (length before)
      ≡ ok (before ++ false ∷ lowered after, raised (suc (length before)) after)
drain_shift fuel before after rest =
    let (move, at) = shift before after false in
    let (move', at') = shift before (lowered after) false in
    let at'' : length (before ++ false ∷ []) ≡ suc (length before) = omega (arith, at) in
    cc (drain_clear fuel before after)

drain_lem :
    (after before : List Bool) (fuel : ℕ)
    → tally after < fuel
    → drain signal_only fuel (before ++ after) (length before)
      ≡ ok (before ++ lowered after, raised (length before) after)
unfolding drain
drain_lem after before zero h = absurd (omega arith)
drain_lem [] before (suc fuel) h = rw (append-nil before, drain, next_end before) refl
drain_lem (false ∷ after) before (suc fuel) h =
    drain_shift (suc fuel) before after (drain_lem after (before ++ false ∷ []) (suc fuel) h)
drain_lem (true ∷ after) before (suc fuel) h =
    rw
      (
        next_set before after,
        drain,
        drain_shift fuel before after (drain_lem after (before ++ false ∷ []) fuel (omega arith)),
      )
      refl

-- Calls of `Pending::next` over the flags of `SignalOnly` end: after at most one call for each flag
-- and one more, `None` is returned. They yield the number of each raised flag once, in ascending
-- order, and lower every flag.
pub pending_collects :
    (slots : List Bool) (fuel : ℕ)
    → length slots < fuel
    → drain signal_only fuel slots 0 ≡ ok (lowered slots, raised 0 slots)
pending_collects slots fuel enough = drain_lem slots [] fuel (omega (arith, tally-le slots))
