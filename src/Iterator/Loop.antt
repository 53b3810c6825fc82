-- ===== src/Iterator/Loop.antt =====
-- A loop over `Forever` of src/iterator/mod.rs, until the instance is closed.
use signal_hook.Base.{
  ℕ, zero, suc, ◌<◌, ◌≡◌, Bool, false, Option, none, some, List, [], ◌∷◌, ℤ, pos, Outcome, ok,
  ◌>>=◌, length, All,
}
use signal_hook.Backend.{signal_only, is_closed}
use signal_hook.Backend.Poll.{SignalIterator}
use signal_hook.Backend.Rounds.{Lowered}
use signal_hook.Iterator.{Event, arrives, closes, read_fails, forever_next}
use signal_hook.Iterator.Reading.{IsPossible}
use signal_hook.Iterator.Ways.{Caught}

-- `for signal in &mut signals`, for at most so many signals.
unfoldable pub for_loop : ℕ → ℕ → List Event → SignalIterator Bool → Outcome (List ℤ)
for_loop capacity zero events it = ok []
for_loop capacity (suc fuel) events it = do
  (events', it', item) ← forever_next signal_only capacity 1 3 events it
  elim item [
    | some (some o) ↦ do os ← for_loop capacity fuel events' it'; ok (o ∷ os)
    | some none ↦ ok []
    | none ↦ ok []
  ]

abbrev before : ℕ → Option (List ℤ) → Option (List ℤ)
before n none = none
before n (some ns) = some (pos n ∷ ns)

-- The signals that arrive before the closing, in their order, if there is one.
abbrev pub until_closed : List Event → Option (List ℤ)
until_closed [] = none
until_closed (arrives n info ∷ events) = before n (until_closed events)
until_closed (closes ∷ events) = some []
until_closed (read_fails e ∷ events) = until_closed events

abbrev Cut : List Event → Option (Option ℕ × List Event) → Type 0
Cut events none = until_closed events ≡ none
Cut events (some (some n, later)) =
    (until_closed events ≡ before n (until_closed later))
    × (length later < length events)
    × ((m : ℕ) → All (IsPossible m) events → All (IsPossible m) later)
Cut events (some (none, later)) = until_closed events ≡ some []

module _ (spare fuel : ℕ) (events : List Event) (it : SignalIterator Bool) where
  abbrev item : Outcome (List Event × SignalIterator Bool × Option (Option ℤ))
  item = forever_next signal_only (suc spare) 1 3 events it

abbrev Reports : ℕ → ℕ → Type 0
Reports spare fuel =
    (events : List Event) (it : SignalIterator Bool) (ns : List ℤ)
    → Caught it
    → is_closed it.signals ≡ false
    → Lowered it.signals.slots 0
    → All (IsPossible (length it.signals.slots)) events
    → until_closed events ≡ some ns
    → length events < fuel
    → for_loop (suc spare) fuel events it ≡ ok ns
