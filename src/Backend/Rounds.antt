-- ===== src/Backend/Rounds.antt =====
-- One round of the loop in `poll_signal` over the flags of `SignalOnly`.
use signal_hook.Base.{
  ℕ, zero, suc, ◌+◌, ◌-◌, ◌<◌, ◌≤◌, ◌≡◌, ◌≢◌, refl, Bool, true, false, Option, none, some, List, [],
  ◌∷◌, ℤ, pos, ◌==◌, nat_eq, Outcome, ok, stop, Stop, index-get_elem?, get_elem?_below, length, set,
  get_elem?, arith, ap, sym, ◌∙◌, inl, inr, ◌⊎◌, nat_beq_iff, Bool-cases,
}
use signal_hook.Registry.{SigId}
use signal_hook.Backend.{SignalDelivery, signal_only, load_slot, next_from, next, recv_some}
use signal_hook.Backend.Poll.{
  flush_from, flush, HasSignals, SignalIterator, PollResult, signal, pending, answered,
  start_pending, poll_pending, poll_round, after_next, ask,
}

pub flush_from-zero : (fuel bytes : ℕ) → bytes ≤ fuel → flush_from fuel bytes ≡ 0
unfolding flush_from recv_some
flush_from-zero zero bytes h = omega arith
flush_from-zero (suc fuel) bytes h = ground (arith, flush_from-zero fuel (bytes - 1024))

pub set_same :
    (slots : List Bool) (i : ℕ) (b : Bool) → get_elem? slots i ≡ some b → set slots i b ≡ slots
set_same [] i b h = cc
set_same (x ∷ slots) zero b h = let same : x ≡ b = cc in rw same refl
set_same (x ∷ slots) (suc i) b h = ap (◌∷◌ x) (set_same slots i b h)

pub beyond : (slots : List Bool) (i : ℕ) → length slots ≤ i → get_elem? slots i ≡ none
beyond [] i h = refl
beyond (x ∷ slots) zero h = absurd (omega arith)
beyond (x ∷ slots) (suc i) h = beyond slots i (omega arith)

-- From a position on, no flag is raised.
abbrev pub Lowered : List Bool → ℕ → Type 0
Lowered slots p = (i : ℕ) → p ≤ i → get_elem? slots i ≢ some true

-- `next` finds a raised flag, or there is none.
abbrev pub Finds : ℕ → List Bool → ℕ → Type 0
Finds left slots p =
    ((k : ℕ) × (get_elem? slots k ≡ some true)
      × (next_from signal_only left slots p ≡ ok (set slots k false, k, some (pos k)))
      × (p ≤ k)
      × ((i : ℕ) → p ≤ i → i < k → get_elem? slots i ≢ some true))
    ⊎ ((next_from signal_only left slots p ≡ ok (slots, length slots, none)) × Lowered slots p)

next_from-Finds :
    (left : ℕ) (slots : List Bool) (p : ℕ) → p + left ≡ length slots → Finds left slots p
unfolding next_from load_slot
next_from-Finds zero slots p h =
    let at_end : p ≡ length slots = omega arith in
    inr (
      ap (λ n. ok (slots, n, none)) at_end,
      λ i le e. let gone = beyond slots i (omega arith) in cc,
    )
next_from-Finds (suc left) slots p h =
    let (b, there) = get_elem?_below slots p (omega arith) in
    by_flag b there (next_from-Finds left slots (p + 1) (omega arith))
  where
    apart : (i : ℕ) → (i == p) ≡ false → i ≢ p
    apart i miss e = let t : true ≡ false = sym ((nat_beq_iff i p).1 e) ∙ miss in cc

    -- What holds of the flags after the one at `p` holds of that one too.
    widened :
        (Q : ℕ → Type 0)
        → get_elem? slots p ≡ some false
        → ((i : ℕ) → p + 1 ≤ i → Q i → get_elem? slots i ≢ some true)
        → (i : ℕ) → p ≤ i
        → Q i
        → get_elem? slots i ≢ some true
    widened Q there rest i le q e = elim (Bool-cases (i == p)) [
      | inl hit ↦
          let same : get_elem? slots i ≡ some false =
            ap (get_elem? slots) ((nat_beq_iff i p).0 hit) ∙ there in
          cc
      | inr miss ↦ rest i (omega (arith, apart i miss)) q e
    ]

    by_flag :
        (b : Bool)
        → get_elem? slots p ≡ some b
        → Finds left slots (p + 1)
        → Finds (suc left) slots p
    by_flag true there rest = inl (
      p,
      there,
      rw (index-get_elem? slots p there, next_from) refl,
      omega arith,
      λ i le lt e. omega arith,
    )
    by_flag false there (inl (k, raised, found, le, between)) = inl (
      k,
      raised,
      rw (index-get_elem? slots p there, next_from, set_same slots p false there) found,
      omega arith,
      widened (λ i. i < k) there between,
    )
    by_flag false there (inr (found, low)) = inr (
      rw (index-get_elem? slots p there, next_from, set_same slots p false there) found,
      λ i le. widened (λ i. Unit) there (λ i le u. low i le) i le tt,
    )

-- The mutex of `registered_signal_ids`: whether it is poisoned, and its value.
abbrev pub Mutex : Type 0
Mutex = Bool × List (Option SigId)

abbrev pub delivery : Bool → Mutex → List Bool → ℕ → SignalDelivery Bool
delivery shut ids slots bytes = record {
  slots = slots;
  delivery_state = record { closed = shut; poisoned = ids.0; registered_signal_ids = ids.1 };
  bytes = bytes;
}

abbrev pub iterator : Bool → Mutex → List Bool → ℕ → ℕ → SignalIterator Bool
iterator shut ids slots bytes position = record {
  signals = delivery shut ids slots bytes;
  position = position;
}

module _ {X : Type 0} (has_signals : HasSignals X Bool) (x : X) (ids : Mutex) (slots : List Bool)
    (bytes position : ℕ) where
  abbrev Round : Type 0
  Round = Outcome (X × SignalIterator Bool × Option (PollResult ℤ))

  abbrev round : Round
  round = poll_round signal_only has_signals x (iterator false ids slots bytes position)

  round-next :
      (slots' : List Bool) (p : ℕ) (o : Option ℤ)
      → next signal_only slots position ≡ ok (slots', p, o)
      → round ≡ after_next has_signals x (delivery false ids slots' bytes) p o
  unfolding poll_round
  round-next slots' p o found = rw (found, poll_round) refl

  pub round_found :
      (slots' : List Bool) (p : ℕ) (o : ℤ)
      → next signal_only slots position ≡ ok (slots', p, some o)
      → round ≡ ok (x, iterator false ids slots' bytes p, some (signal o))
  unfolding after_next
  round_found slots' p o found = round-next slots' p (some o) found

  pub round_stops :
      (p : ℕ) (s : Stop)
      → next signal_only slots position ≡ ok (slots, p, none)
      → has_signals x (delivery false ids slots bytes) ≡ stop s
      → round ≡ stop s
  unfolding after_next poll_pending ask
  round_stops p s found stops = round-next slots p none found ∙ rw (stops, poll_pending) refl

  pub round_idle :
      (p n : ℕ) (x' : X)
      → next signal_only slots position ≡ ok (slots, p, none)
      → has_signals x (delivery false ids slots bytes) ≡ ok (false, x', delivery false ids slots n)
      → round ≡ ok (x', iterator false ids slots n p, some pending)
  unfolding after_next poll_pending answered ask
  round_idle p n x' found quiet = round-next slots p none found ∙ rw (quiet, poll_pending) refl

  pub round_again :
      (p n : ℕ) (x' : X) (shut : Bool) (slots' : List Bool)
      → next signal_only slots position ≡ ok (slots, p, none)
      → has_signals x (delivery false ids slots bytes) ≡ ok (true, x', delivery shut ids slots' n)
      → round ≡ ok (x', iterator shut ids slots' 0 0, none)
  unfolding after_next poll_pending answered ask start_pending flush
  round_again p n x' shut slots' found woken =
      round-next slots p none found
      ∙ rw (woken, poll_pending)
          (ap (λ b. ok (x', iterator shut ids slots' b 0, none))
            (flush_from-zero n n (omega arith)))

pub next-Finds : (slots : List Bool) (p : ℕ) → p ≤ length slots → Finds (length slots - p) slots p
next-Finds slots p h = next_from-Finds (length slots - p) slots p (omega arith)
