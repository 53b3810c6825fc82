-- ===== src/HalfLock/Invariant.antt =====
-- What the counters, the flags of the barrier and the heap say of one another.
use signal_hook.Base.{
  ℕ, ◌+◌, ◌≤◌, ◌<◌, ◌≡◌, ◌≢◌, refl, Bool, true, false, Option, none, some, ◌==◌, nat_eq, ◌⊎◌, inl,
  arith, update, count, count-update, count-le, to_nat, if◌then◌else◌,
}
use signal_hook.HalfLock.{
  Shared, max_guards, Reader, outside, chosen, counted, reading, Barrier, Writer, guarding,
  allocated, first0, first1, flipping, testing, again0, again1,
}
use signal_hook.HalfLock.Step.{Read, load_generation, fetch_add, load_data, drop_guard}

-- The reader has added one to the counter of slot `k`, and has not taken it off.
abbrev pub in_slot : ℕ → Reader → Bool
in_slot k outside = false
in_slot k (chosen _) = false
in_slot k (counted j _) = j == k
in_slot k (reading j _) = j == k

abbrev pub is_live {ℓ} : {T : Type ℓ} → Option T → Bool
is_live none = false
is_live (some _) = true

-- The barrier that the writer has still to pass, if it has swapped the pointer.
abbrev pub barrier : Writer → Option Barrier
barrier (first0 b) = some b
barrier (first1 b) = some b
barrier (flipping b) = some b
barrier (testing b) = some b
barrier (again0 b) = some b
barrier (again1 b) = some b
barrier _ = none

abbrev pub seen : Barrier → ℕ → Bool
seen b k = if k == 0 then b.seen0 else b.seen1

-- A reader in slot `k` may still hold the pointer `p`.
abbrev pub MayHold : ℕ → Option Barrier → ℕ → ℕ → Type 0
MayHold current none k p = p ≡ current
MayHold current (some b) k p = (p ≡ current) ⊎ ((p ≡ b.old) × (seen b k ≡ false))

-- The slot is one of the two, and the counter was within the number of readers.
abbrev pub IsSlot : ℕ → Reader → Type 0
IsSlot n outside = Unit
IsSlot n (chosen k) = k < 2
IsSlot n (counted k c) = (k < 2) × (c ≤ n)
IsSlot n (reading k _) = k < 2

abbrev pub HoldsOnly : ℕ → Option Barrier → Reader → Type 0
HoldsOnly current b (reading k p) = MayHold current b k p
HoldsOnly current b _ = Unit

-- The boxes in use besides the current one.
abbrev pub owns : Writer → ℕ → Bool
owns (allocated p) q = p == q
owns (first0 b) q = b.old == q
owns (first1 b) q = b.old == q
owns (flipping b) q = b.old == q
owns (testing b) q = b.old == q
owns (again0 b) q = b.old == q
owns (again1 b) q = b.old == q
owns _ q = false

module _ {T : Type 0} where
  abbrev pub Swapped : Shared T → Barrier → Type 0
  Swapped s b = (b.fresh ≡ s.data_ptr) × (b.old ≢ s.data_ptr) × (is_live (s.heap b.old) ≡ true)

  -- What the writer knows.
  abbrev pub Knows : Shared T → Writer → Type 0
  Knows s (guarding p) = p ≡ s.data_ptr
  Knows s (allocated p) = (is_live (s.heap p) ≡ true) × (p ≢ s.data_ptr)
  Knows s (first0 b) = Swapped s b
  Knows s (first1 b) = Swapped s b
  Knows s (flipping b) = Swapped s b
  Knows s (testing b) = Swapped s b
  Knows s (again0 b) = Swapped s b
  Knows s (again1 b) = Swapped s b
  Knows s _ = Unit

  pub record Inv (n : ℕ) (s : Shared T) (w : Writer) (r : ℕ → Reader) : Type 0 where
    pub few : n ≤ max_guards
    pub counts : (k : ℕ) → s.lock k ≡ count (in_slot k) n r
    pub live : is_live (s.heap s.data_ptr) ≡ true
    pub knows : Knows s w
    pub slots : (i : ℕ) → IsSlot n (r i)
    pub holds : (i : ℕ) → i < n → HoldsOnly s.data_ptr (barrier w) (r i)
    pub only : (q : ℕ) → is_live (s.heap q) ≡ true → (q ≡ s.data_ptr) ⊎ (owns w q ≡ true)

  module _ {n : ℕ} {s : Shared T} {w : Writer} {r : ℕ → Reader} (inv : Inv n s w r) where
    pub counting :
        (i : ℕ) (p : Reader) (k : ℕ)
        → i < n
        → (count (in_slot k) n (update r i p) + to_nat (in_slot k (r i))
            ≡ s.lock k + to_nat (in_slot k p))
          × (s.lock k ≤ max_guards)
          × (count (in_slot k) n (update r i p) ≤ max_guards)
    counting i p k lt = omega (
      arith,
      count-update (in_slot k) n r i p lt,
      inv.counts k,
      inv.few,
      count-le (in_slot k) n r,
      count-le (in_slot k) n (update r i p),
    )

    -- A reader's step, at the reader's own place `p`.
    pub Read-counts :
        (i : ℕ) {p p' : Reader} {m : Shared T}
        → i < n
        → Read s p m p'
        → r i ≡ p
        → (k : ℕ) → m.lock k ≡ count (in_slot k) n (update r i p')
    Read-counts i {p' = p'} lt load_generation e k = ground (arith, counting i p' k lt)
    Read-counts i {p' = p'} lt (fetch_add {k = j}) e k = ground (arith, counting i p' k lt)
    Read-counts i {p' = p'} lt (load_data small) e k = ground (arith, counting i p' k lt)
    Read-counts i {p' = p'} lt (drop_guard {k = j}) e k = ground (arith, counting i p' k lt)

    pub Read-slots :
        (i : ℕ) {p p' : Reader} {m : Shared T}
        → Read s p m p'
        → r i ≡ p
        → (j : ℕ) → IsSlot n (update r i p' j)
    Read-slots i load_generation e j = ground (arith, inv.slots j)
    Read-slots i (fetch_add {k = k}) e j =
        ground (arith, inv.slots i, inv.slots j, inv.counts k, count-le (in_slot k) n r)
    Read-slots i (load_data small) e j = ground (arith, inv.slots i, inv.slots j)
    Read-slots i drop_guard e j = ground (arith, inv.slots j)

    pub Read-same :
        {p p' : Reader} {m : Shared T}
        → Read s p m p'
        → (m.data_ptr ≡ s.data_ptr) × (m.heap ≡ s.heap)
    Read-same load_generation = (refl, refl)
    Read-same _ = (refl, refl)

    pub MayHold-current : (b : Option Barrier) (k : ℕ) → MayHold s.data_ptr b k s.data_ptr
    MayHold-current none k = refl
    MayHold-current (some b) k = inl refl

    pub Read-holds :
        (i : ℕ) {p p' : Reader} {m : Shared T}
        → Read s p m p'
        → r i ≡ p
        → (j : ℕ) → j < n
        → HoldsOnly s.data_ptr (barrier w) (update r i p' j)
    Read-holds i load_generation e j lt = ground (arith, inv.holds j lt)
    Read-holds i (fetch_add {k = k}) e j lt = ground (arith, inv.holds j lt)
    Read-holds i (load_data {k = k} small) e j lt =
        ground (arith, inv.holds j lt, MayHold-current (barrier w) k)
    Read-holds i drop_guard e j lt = ground (arith, inv.holds j lt)
