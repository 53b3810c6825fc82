-- ===== src/Channel/Threads.antt =====
-- channel.rs with any number of senders and receivers, one access to shared memory at a time: the
-- loops of `enqueue` and `dequeue` with their loads, and with exchanges that win or fail. Memory is
-- sequentially consistent here, which is more than the orderings of the source ask for.
mod Rounds
mod Moves
mod Kept
pub mod Invariant
pub mod Safety
mod Tests
use signal_hook.Base.{ℕ, ◌-◌, ◌<◌, ◌≡◌, Option, none, some, Outcome, ok, stop, Stop, update}
use signal_hook.Channel.{slots, enqueue, dequeue}

-- The check of `self.storage[idx - 1]`: no wrap below zero, and one of the places of the array.
abbrev pub InBounds : ℕ → Type 0
InBounds idx = (0 < idx) × (idx - 1 < slots)

-- The shared part of a `Channel`. Of `storage` only the first `slots` places are there.
pub record Shared (T : Type 0) : Type 0 where
  pub storage : ℕ → Option T
  pub empty : ℕ
  pub full : ℕ

-- Where a thread stands in `send` or `recv`, with the live local variables.
pub data Pc (T : Type 0) : Type 0 where
  idle : Pc T
  dequeuing_empty : (val : T) (current : ℕ) → Pc T  -- `send`, in the loop of its `dequeue`
  filling : (val : T) (idx : ℕ) → Pc T  -- before the write to the slot
  filled : (idx : ℕ) → Pc T  -- before the load of its `enqueue`
  enqueuing_full : (idx current : ℕ) → Pc T
  dequeuing_full : (current : ℕ) → Pc T  -- `recv`, in the loop of its `dequeue`
  taking : (idx : ℕ) → Pc T  -- before the value is taken
  taken : (idx : ℕ) (result : T) → Pc T
  enqueuing_empty : (idx current : ℕ) (result : T) → Pc T
  received : (result : Option T) → Pc T  -- `recv` has returned
  panicked : Pc T

module _ {T : Type 0} where
  -- A weak exchange may fail at an equal value too; a failure hands back the value that it found.
  pub data Move (m : Shared T) : Pc T → Shared T → Pc T → Type 0 where
    start_send : {v : T} → Move m idle m (dequeuing_empty v m.empty)
    drop_value : {v : T} {c : ℕ} → dequeue c ≡ none → Move m (dequeuing_empty v c) m idle
    retry_empty :
        {v : T} {c x q : ℕ}
        → dequeue c ≡ some (x, q)
        → Move m (dequeuing_empty v c) m (dequeuing_empty v m.empty)
    win_empty :
        {v : T} {c x q : ℕ}
        → dequeue c ≡ some (x, q)
        → m.empty ≡ c
        → Move m (dequeuing_empty v c) (record m { empty = q }) (filling v x)
    fill :
        {v : T} {x : ℕ}
        → InBounds x
        → Move m (filling v x) (record m { storage = update m.storage (x - 1) (some v) }) (filled x)
    panic_fill : {v : T} {x : ℕ} → ¬ InBounds x → Move m (filling v x) m panicked
    load_full : {x : ℕ} → Move m (filled x) m (enqueuing_full x m.full)
    retry_full :
        {x c q : ℕ} → enqueue c x ≡ ok q → Move m (enqueuing_full x c) m (enqueuing_full x m.full)
    win_full :
        {x c q : ℕ}
        → enqueue c x ≡ ok q
        → m.full ≡ c
        → Move m (enqueuing_full x c) (record m { full = q }) idle
    panic_full :
        {x c : ℕ} {s : Stop} → enqueue c x ≡ stop s → Move m (enqueuing_full x c) m panicked
    start_recv : Move m idle m (dequeuing_full m.full)
    find_nothing : {c : ℕ} → dequeue c ≡ none → Move m (dequeuing_full c) m (received none)
    retry_dequeue :
        {c x q : ℕ} → dequeue c ≡ some (x, q) → Move m (dequeuing_full c) m (dequeuing_full m.full)
    win_dequeue :
        {c x q : ℕ}
        → dequeue c ≡ some (x, q)
        → m.full ≡ c
        → Move m (dequeuing_full c) (record m { full = q }) (taking x)
    take :
        {x : ℕ} {v : T}
        → InBounds x
        → m.storage (x - 1) ≡ some v
        → Move m (taking x) (record m { storage = update m.storage (x - 1) none }) (taken x v)
    panic_bounds : {x : ℕ} → ¬ InBounds x → Move m (taking x) m panicked
    panic_take : {x : ℕ} → InBounds x → m.storage (x - 1) ≡ none → Move m (taking x) m panicked
    load_empty : {x : ℕ} {v : T} → Move m (taken x v) m (enqueuing_empty x m.empty v)
    retry_enqueue :
        {x c q : ℕ} {v : T}
        → enqueue c x ≡ ok q
        → Move m (enqueuing_empty x c v) m (enqueuing_empty x m.empty v)
    win_enqueue :
        {x c q : ℕ} {v : T}
        → enqueue c x ≡ ok q
        → m.empty ≡ c
        → Move m (enqueuing_empty x c v) (record m { empty = q }) (received (some v))
    panic_empty :
        {x c : ℕ} {v : T} {s : Stop}
        → enqueue c x ≡ stop s
        → Move m (enqueuing_empty x c v) m panicked
    return : {o : Option T} → Move m (received o) m idle

pub record System (T : Type 0) : Type 0 where
  pub shared : Shared T
  pub pc : ℕ → Pc T

-- What `new` leaves: every slot number in the empty queue.
abbrev pub fresh : {T : Type 0} → System T
fresh = record {
  shared = record { storage = λ _. none; empty = 0o54321; full = 0 };
  pc = λ _. idle;
}

module _ {T : Type 0} where
  pub data Step (n : ℕ) (s : System T) : System T → Type 0 where
    pick :
        (i : ℕ) {m : Shared T} {p : Pc T}
        → i < n
        → Move s.shared (s.pc i) m p
        → Step n s (record { shared = m; pc = update s.pc i p })

  pub data Reach (n : ℕ) : System T → Type 0 where
    start : Reach n fresh
    later : {s t : System T} → Reach n s → Step n s t → Reach n t
