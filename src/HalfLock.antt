-- ===== src/HalfLock.antt =====
-- signal-hook-registry/src/half_lock.rs: the lock by which signal handlers read what other threads
-- replace. One access to shared memory is one step, and memory is sequentially consistent
-- (`SeqCst`). A pointer is a number, and the heap says what is allocated.
pub mod Step
pub mod Invariant
pub mod Preserved
pub mod Safety
pub mod Progress
mod Tests
use signal_hook.Base.{
  ℕ, ◌+◌, ◌-◌, ◌%◌, ◌^◌, ◌≤◌, ◌<◌, ◌≡◌, Bool, true, false, ◌&&◌, ◌||◌, Option, none, some, ◌==◌,
  nat_eq, update,
}

-- `usize` and `isize::MAX` on a 64-bit machine.
abbrev pub usize_mod : ℕ
usize_mod = 2 ^ 64

abbrev pub max_guards : ℕ
max_guards = 2 ^ 63 - 1

-- `HalfLock`, with the heap that its pointer points into. The mutex is the writer's program counter.
pub record Shared (T : Type 0) : Type 0 where
  pub data_ptr : ℕ
  pub generation : ℕ
  pub lock : ℕ → ℕ  -- the array of two counters
  pub heap : ℕ → Option T

-- `AtomicUsize::fetch_add(1)` and `fetch_sub(1)` wrap around.
abbrev pub wrapping_inc : ℕ → ℕ
wrapping_inc n = (n + 1) % usize_mod

abbrev pub wrapping_dec : ℕ → ℕ
wrapping_dec n = (n + usize_mod - 1) % usize_mod

-- Where a call of `read` stands, with the live local variables; `reading` is the life of the
-- `ReadGuard`.
pub data Reader : Type 0 where
  outside : Reader
  chosen : (slot : ℕ) → Reader
  counted : (slot guard_cnt : ℕ) → Reader
  reading : (slot ptr : ℕ) → Reader

-- The local variables of `store` and `write_barrier` once the pointer is swapped.
pub record Barrier : Type 0 where
  pub old : ℕ
  pub fresh : ℕ
  pub seen0 : Bool
  pub seen1 : Bool

-- Where the owner of the write mutex stands.
pub data Writer : Type 0 where
  unlocked : Writer
  acquired : Writer  -- `write`, before the load
  guarding : (ptr : ℕ) → Writer  -- the life of the `WriteGuard`
  allocated : (fresh : ℕ) → Writer  -- `store`, before the swap
  first0 : Barrier → Writer  -- `update_seen` for the first time, at each of the slots
  first1 : Barrier → Writer
  flipping : Barrier → Writer  -- before the generation changes
  testing : Barrier → Writer  -- head of the `while`
  again0 : Barrier → Writer  -- `update_seen` inside the loop
  again1 : Barrier → Writer

-- `*seen = *seen || slot.load(..) == 0`
abbrev pub update_seen : Bool → ℕ → Bool
update_seen seen slot = seen || slot == 0

abbrev pub see0 : Barrier → ℕ → Barrier
see0 b slot = record b { seen0 = update_seen b.seen0 slot }

abbrev pub see1 : Barrier → ℕ → Barrier
see1 b slot = record b { seen1 = update_seen b.seen1 slot }

-- `seen_zero.iter().all(|s| *s)`
abbrev pub all_seen : Barrier → Bool
all_seen b = b.seen0 && b.seen1

-- `Drop for HalfLock`: the box that the pointer points to goes.
unfoldable pub drop_lock : {T : Type 0} → Shared T → Shared T
drop_lock s = record s { heap = update s.heap s.data_ptr none }
