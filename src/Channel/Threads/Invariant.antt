-- ===== src/Channel/Threads/Invariant.antt =====
-- Each slot number is in one of the queues or with one thread.
use signal_hook.Base.{
  ℕ, ◌+◌, ◌-◌, ◌<◌, ◌≡◌, Bool, true, false, Option, none, some, List, nat_beq, length, All, count,
}
use signal_hook.Channel.{slots}
use signal_hook.Channel.Queue.{encode}
use signal_hook.Channel.Slots.{occurs, IsSlotNumber}
use signal_hook.Channel.Threads.{
  Shared, Pc, filling, filled, enqueuing_full, taking, taken, enqueuing_empty, panicked,
}

-- The thread has taken the number `x` out of a queue, and not yet put it into the other.
abbrev pub owns : {T : Type 0} → ℕ → Pc T → Bool
owns x (filling v y) = nat_beq y x
owns x (filled y) = nat_beq y x
owns x (enqueuing_full y c) = nat_beq y x
owns x (taking y) = nat_beq y x
owns x (taken y v) = nat_beq y x
owns x (enqueuing_empty y c v) = nat_beq y x
owns x _ = false

abbrev pub is_some : {T : Type 0} → Option T → Bool
is_some none = false
is_some (some _) = true

-- A queue with room.
abbrev pub Fits : ℕ → Type 0
Fits c = (cs : List ℕ) × (c ≡ encode cs) × All IsSlotNumber cs × (length cs < slots)

module _ {T : Type 0} where
  abbrev pub Stored : (ℕ → Option T) → ℕ → Type 0
  Stored st x = is_some (st (x - 1)) ≡ true

  -- What the local variables of a thread say of the slots.
  abbrev pub Locals : (ℕ → Option T) → Pc T → Type 0
  Locals st (filling v x) = IsSlotNumber x
  Locals st (filled x) = IsSlotNumber x × Stored st x
  Locals st (enqueuing_full x c) = IsSlotNumber x × Stored st x × Fits c
  Locals st (taking x) = IsSlotNumber x × Stored st x
  Locals st (taken x v) = IsSlotNumber x
  Locals st (enqueuing_empty x c v) = IsSlotNumber x × Fits c
  Locals st panicked = ⊥
  Locals st _ = Unit

  pub record Inv (n : ℕ) (m : Shared T) (pc : ℕ → Pc T) : Type 0 where
    pub empties : List ℕ
    pub fulls : List ℕ
    pub empty_is : m.empty ≡ encode empties
    pub full_is : m.full ≡ encode fulls
    pub empties_in : All IsSlotNumber empties
    pub fulls_in : All IsSlotNumber fulls
    pub once :
        (x : ℕ) → IsSlotNumber x → occurs x empties + occurs x fulls + count (owns x) n pc ≡ 1
    pub stored : All (Stored m.storage) fulls
    pub locals : (i : ℕ) → i < n → Locals m.storage (pc i)
