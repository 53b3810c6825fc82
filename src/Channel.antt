-- ===== src/Channel.antt =====
-- src/low_level/channel.rs: a channel out of a signal handler, with its two queues of slot numbers
-- packed into one `u16` each. Here the exchange of a loop's `compare_exchange_weak` succeeds at
-- once; `Channel.Threads` has the loops with their retries.
pub mod Bits
pub mod Queue
pub mod Slots
pub mod Fifo
pub mod History
pub mod Threads
mod Tests
use signal_hook.Base.{
  ℕ, zero, suc, ◌+◌, ◌-◌, ◌*◌, ◌/◌, ◌%◌, ◌^◌, ◌≡◌, bit_and, bit_or, Bool, true, false, Option, none,
  some, List, [], ◌∷◌, Outcome, ok, stop, panicked, ◌>>=◌, unwrap, index, set as set_elem,
  replicate, if◌then◌else◌, ◌==◌, nat_eq,
}

abbrev pub slots : ℕ
slots = 5

abbrev pub bits : ℕ
bits = 3

abbrev pub mask : ℕ
mask = 0b111

abbrev pub u16_mod : ℕ
u16_mod = 2 ^ 16

-- `(n >> (BITS * idx)) & MASK`
unfoldable pub get : ℕ → ℕ → ℕ
get n idx = bit_and (n / 2 ^ (bits * idx)) mask

-- `<<` on `u16`
abbrev pub shl : ℕ → ℕ → ℕ
shl n k = n * 2 ^ k % u16_mod

-- `!` on `u16`
abbrev pub complement : ℕ → ℕ
complement n = u16_mod - 1 - n

unfoldable pub set : ℕ → ℕ → ℕ → ℕ
set n idx v =
    let v' : ℕ = shl v (bits * idx) in
    let hole : ℕ = shl mask (bits * idx) in bit_or (bit_and n (complement hole)) v'

-- `(i..i + left).find(|i| get(current, *i) == 0)`
find_empty : ℕ → ℕ → ℕ → Option ℕ
unfolding get
find_empty current i zero = none
find_empty current i (suc left) =
    if get current i == 0 then some i else find_empty current (i + 1) left

-- One round of `enqueue`: what the exchange would store.
unfoldable pub enqueue : ℕ → ℕ → Outcome ℕ
unfolding find_empty set
enqueue current val = do empty ← unwrap (find_empty current 0 slots); ok (set current empty val)

-- One round of `dequeue`: the value, and what the exchange would store.
unfoldable pub dequeue : ℕ → Option (ℕ × ℕ)
dequeue current =
    let val : ℕ = bit_and current mask in if val == 0 then none else some (val, current / 2 ^ bits)

pub record Channel {ℓ} (T : Type ℓ) : Type ℓ where
  pub storage : List (Option T)
  pub empty : ℕ
  pub full : ℕ

-- `for i in i..i + left { enqueue(&me.empty, i) }`
enqueue_from : ℕ → ℕ → ℕ → Outcome ℕ
unfolding enqueue
enqueue_from q i zero = ok q
enqueue_from q i (suc left) = do q' ← enqueue q i; enqueue_from q' (i + 1) left

module _ {ℓ} {T : Type ℓ} where
  unfoldable pub new : Outcome (Channel T)
  unfolding enqueue_from
  new = do
    empty ← enqueue_from 0 1 slots
    ok (record { storage = replicate slots none; empty = empty; full = 0 })

  -- `self.storage[idx as usize - 1]`, in bounds, before a write.
  unfoldable pub send : Channel T → T → Outcome (Channel T)
  unfolding dequeue enqueue
  send c val = elim (dequeue c.empty) [
    | none ↦ ok c
    | some (empty_idx, empty) ↦ do
      _ ← index c.storage (empty_idx - 1)
      full ← enqueue c.full empty_idx
      ok (record {
        storage = set_elem c.storage (empty_idx - 1) (some val);
        empty = empty;
        full = full;
      })
  ]

  unfoldable pub recv : Channel T → Outcome (Channel T × Option T)
  unfolding dequeue enqueue
  recv c = elim (dequeue c.full) [
    | none ↦ ok (c, none)
    | some (idx, full) ↦ do
      slot ← index c.storage (idx - 1)
      result ← unwrap slot
      empty ← enqueue c.empty idx
      ok (
        record { storage = set_elem c.storage (idx - 1) none; empty = empty; full = full },
        some result,
      )
  ]
