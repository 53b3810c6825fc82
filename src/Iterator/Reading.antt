-- ===== src/Iterator/Reading.antt =====
-- The blocking read of `has_signals` over the flags of `SignalOnly`, and what ends it.
use signal_hook.Base.{
  ℕ, suc, ◌-◌, ◌<◌, ltb, ◌≡◌, refl, Bool, true, false, Option, none, some, List, [], ◌∷◌, ◌==◌,
  int_eq, nat_eq, Outcome, ok, stop, blocked, length, set, All, index-get_elem?, get_elem?_below,
  arith, ap,
}
use signal_hook.Registry.{Siginfo}
use signal_hook.Backend.{SignalDelivery, signal_only, action, store_slot, wake, close}
use signal_hook.Backend.Rounds.{Mutex, delivery}
use signal_hook.Iterator.{Event, arrives, closes, read_fails, eintr, break_ok, has_signals}

-- The event is of a signal that has a slot, or an interruption.
abbrev pub IsPossible : ℕ → Event → Type 0
IsPossible n (arrives signal info) = signal < n
IsPossible n closes = Unit
IsPossible n (read_fails e) = e ≡ eintr

-- The first event that ends the wait, a signal or (`none`) the closing, and what is after it.
abbrev pub awaited : List Event → Option (Option ℕ × List Event)
awaited [] = none
awaited (arrives signal info ∷ events) = some (some signal, events)
awaited (closes ∷ events) = some (none, events)
awaited (read_fails e ∷ events) = awaited events

some_left : (bytes : ℕ) → (suc bytes == 0) ≡ false
some_left bytes = ground arith

some_room : (spare : ℕ) → ltb 0 (suc spare) ≡ true
some_room spare = ground arith

module _ (capacity : ℕ) (ids : Mutex) where
  one_read :
      (events : List Event) (shut : Bool) (slots : List Bool) (bytes : ℕ)
      → break_ok signal_only capacity events (delivery shut ids slots (suc bytes)) 1
        ≡ ok (true, events, delivery shut ids slots bytes)
  unfolding break_ok
  one_read events shut slots bytes =
      let left : suc bytes - 1 ≡ bytes = omega arith in
      ap (λ n. ok (true, events, delivery shut ids slots n)) left

  pub ready :
      (events : List Event) (shut : Bool) (slots : List Bool) (bytes : ℕ)
      → has_signals signal_only capacity events (delivery shut ids slots (suc bytes))
        ≡ ok (true, events, delivery shut ids slots bytes)
  unfolding has_signals
  ready [] shut slots bytes = rw (some_left bytes, has_signals) (one_read [] shut slots bytes)
  ready (arrives n info ∷ events) shut slots bytes =
      rw (some_left bytes, has_signals) (one_read (arrives n info ∷ events) shut slots bytes)
  ready (closes ∷ events) shut slots bytes =
      rw (some_left bytes, has_signals) (one_read (closes ∷ events) shut slots bytes)
  ready (read_fails e ∷ events) shut slots bytes =
      rw (some_left bytes, has_signals) (one_read (read_fails e ∷ events) shut slots bytes)

module _ (spare : ℕ) (ids : Mutex) where
  -- What the wait leaves.
  abbrev pub waited :
      List Bool → Option (Option ℕ × List Event) → Outcome (Bool × List Event × SignalDelivery Bool)
  waited slots none = stop blocked
  waited slots (some (some signal, events)) =
      ok (true, events, delivery false ids (set slots signal true) 0)
  waited slots (some (none, events)) = ok (true, events, delivery true ids slots 0)

  action_lem :
      (slots : List Bool) (signal : ℕ) (info : Siginfo)
      → signal < length slots
      → action signal_only (suc spare) (delivery false ids slots 0) signal info
        ≡ ok (delivery false ids (set slots signal true) 1)
  unfolding action store_slot wake
  action_lem slots signal info h =
      let (b, there) = get_elem?_below slots signal h in
      rw (index-get_elem? slots signal there, action, some_room spare) refl

  -- The read of an empty pipe.
  pub has_signals_lem :
      (events : List Event) (slots : List Bool)
      → All (IsPossible (length slots)) events
      → has_signals signal_only (suc spare) events (delivery false ids slots 0)
        ≡ waited slots (awaited events)
  unfolding has_signals close wake
  has_signals_lem [] slots h = refl
  has_signals_lem (arrives signal info ∷ events) slots h =
      rw (action_lem slots signal info h.0, has_signals)
        (ready (suc spare) ids events false (set slots signal true) 0)
  has_signals_lem (closes ∷ events) slots h =
      rw (some_room spare) (ready (suc spare) ids events true slots 0)
  has_signals_lem (read_fails e ∷ events) slots h = rw h.0 (has_signals_lem events slots h.1)

-- An awaited signal has a slot.
abbrev pub IsWithin : ℕ → Option (Option ℕ × List Event) → Type 0
IsWithin n (some (some signal, events)) = signal < n
IsWithin n _ = Unit

pub awaited-IsWithin :
    (events : List Event) (n : ℕ) → All (IsPossible n) events → IsWithin n (awaited events)
awaited-IsWithin [] n h = tt
awaited-IsWithin (arrives signal info ∷ events) n h = h.0
awaited-IsWithin (closes ∷ events) n h = tt
awaited-IsWithin (read_fails e ∷ events) n h = awaited-IsWithin events n h.1
