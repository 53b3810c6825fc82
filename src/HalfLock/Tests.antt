-- ===== src/HalfLock/Tests.antt =====
-- A run of half_lock.rs: a reader takes the old box, a writer stores a new one and waits for it.
use signal_hook.Base.{◌≤◌, ℕ, ◌<◌, ◌≡◌, ◌≢◌, refl, true, false, none, some, arith}
use signal_hook.HalfLock.{
  Shared, Reader, outside, Barrier, Writer, unlocked, guarding, testing, drop_lock,
}
use signal_hook.HalfLock.Step.{
  Read, load_generation, fetch_add, load_data, drop_guard, Write, acquire, load_guarded, allocate,
  swap, scan_first0, scan_first1, flip, retry, scan_again0, scan_again1, drop_old, release, System,
  Step, Run, here, next, Reach, new,
}
use signal_hook.HalfLock.Safety.{
  no_use_after_free, snapshot_stable, drop_frees_all, write_guard_current,
}
use signal_hook.HalfLock.Progress.{Alone, barrier_ends, read_wait_free}

record Made : Type 0 where
  last : System ℕ
  open last use *
  reach : Reach 2 7 1 last

abbrev then_read :
    (m : Made) (i : ℕ) {s : Shared ℕ} {r : Reader} → i < 2 → Read m.shared (m.reader i) s r → Made
then_read m i lt mv = record { last = _; reach = next m.reach (Step.read i lt mv) }

abbrev then_write : (m : Made) {s : Shared ℕ} {w : Writer} → Write m.shared m.writer s w → Made
then_write m mv = record { last = _; reach = next m.reach (Step.write mv) }

-- Reader 0 holds the box at 1.
abbrev held : Made
held =
    then_read
      (then_read
        (then_read (record { last = new 7 1; reach = here }) 0 (omega arith) load_generation) 0
        (omega arith) fetch_add)
      0 (omega arith) (load_data (omega arith))

abbrev guarded : Made
guarded = then_write (then_write held acquire) load_guarded

-- A writer has stored 8 at the address 2, and has seen only slot 1 empty.
abbrev waiting : Made
waiting =
    then_write
      (then_write
        (then_write (then_write (then_write guarded (allocate 2 8 refl)) swap) scan_first0)
        scan_first1)
      flip

abbrev waits : Barrier
waits = record { old = 1; fresh = 2; seen0 = false; seen1 = true }

waiting_state : waiting.writer ≡ testing waits
waiting_state = refl

-- The reader leaves, and the writer frees the old box and unlocks.
abbrev freed : Made
freed =
    then_write
      (then_write
        (then_write (then_write (then_read waiting 0 (omega arith) drop_guard) (retry refl))
          scan_again0)
        scan_again1)
      (drop_old refl)

abbrev stored : Made
stored = then_write freed release

stored_state :
    (stored.shared.data_ptr ≡ 2)
    × (stored.shared.heap 1 ≡ none)
    × (stored.shared.heap 2 ≡ some 8)
    × (stored.writer ≡ unlocked)
stored_state = (refl, refl, refl, refl)

no_use_after_free_example : (x : ℕ) × (waiting.shared.heap 1 ≡ some x)
no_use_after_free_example =
    no_use_after_free 7 1 {s = waiting.last} (omega arith) waiting.reach 0 {k = 0} (omega arith)
      refl

abbrev allocating : Made
allocating = then_write guarded (allocate 2 8 refl)

snapshot_stable_example : allocating.shared.heap 1 ≡ guarded.shared.heap 1
snapshot_stable_example =
    snapshot_stable 7 1 (omega arith) guarded.reach (Step.write (allocate 2 8 refl)) 0 {k = 0}
      (omega arith) refl

drop_frees_all_example : (drop_lock stored.shared).heap 2 ≡ none
drop_frees_all_example = drop_frees_all 7 1 {s = stored.last} (omega arith) stored.reach refl 2

write_guard_current_example :
    (2 ≡ freed.shared.data_ptr) × ((x : ℕ) × (freed.shared.heap 2 ≡ some x))
write_guard_current_example =
    write_guard_current 7 1 {s = freed.last} (omega arith) freed.reach refl

barrier_ends_example : (t : System ℕ) × Run 2 waiting.last t × (t.writer ≡ guarding 2)
barrier_ends_example = barrier_ends 7 1 waits (omega arith) waiting.reach refl

read_wait_free_example :
    (k : ℕ) × (k ≤ 3)
    × (t : System ℕ) × Alone 0 waiting.last k t
    × (t.reader 0 ≡ outside)
    × (t.writer ≡ waiting.writer)
    × ((j : ℕ) → 0 ≢ j → t.reader j ≡ waiting.reader j)
read_wait_free_example = read_wait_free 7 1 (omega arith) waiting.reach 0 (omega arith)
