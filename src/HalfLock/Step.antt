-- ===== src/HalfLock/Step.antt =====
-- The steps of `read`, `write`, `store` and `write_barrier`, and their interleavings.
use signal_hook.Base.{ℕ, ◌%◌, ◌≤◌, ◌<◌, ◌≡◌, true, false, none, some, update}
use signal_hook.HalfLock.{
  Shared, wrapping_inc, wrapping_dec, max_guards, Reader, outside, chosen, counted, reading,
  Barrier, Writer, unlocked, acquired, guarding, allocated, first0, first1, flipping, testing,
  again0, again1, see0, see1, all_seen,
}

module _ {T : Type 0} where
  -- `read`, and the drop of its guard. Past `max_guards` the process aborts, so no state follows.
  pub data Read (s : Shared T) : Reader → Shared T → Reader → Type 0 where
    load_generation : Read s outside s (chosen (s.generation % 2))
    fetch_add :
        {k : ℕ}
        → Read s
            (chosen k)
            (record s { lock = update s.lock k (wrapping_inc (s.lock k)) })
            (counted k (s.lock k))
    load_data : {k c : ℕ} → c ≤ max_guards → Read s (counted k c) s (reading k s.data_ptr)
    drop_guard :
        {k p : ℕ}
        → Read s
            (reading k p)
            (record s { lock = update s.lock k (wrapping_dec (s.lock k)) })
            outside

  -- `write`, `store` with its barrier, and the drop of the guard. A new box has an address that is
  -- not in use; an address that was freed may come back.
  pub data Write (s : Shared T) : Writer → Shared T → Writer → Type 0 where
    acquire : Write s unlocked s acquired
    load_guarded : Write s acquired s (guarding s.data_ptr)
    allocate :
        {p : ℕ} (fresh : ℕ) (v : T)
        → s.heap fresh ≡ none
        → Write s (guarding p) (record s { heap = update s.heap fresh (some v) }) (allocated fresh)
    swap :
        {p : ℕ}
        → Write s
            (allocated p)
            (record s { data_ptr = p })
            (first0 (record { old = s.data_ptr; fresh = p; seen0 = false; seen1 = false }))
    scan_first0 : {b : Barrier} → Write s (first0 b) s (first1 (see0 b (s.lock 0)))
    scan_first1 : {b : Barrier} → Write s (first1 b) s (flipping (see1 b (s.lock 1)))
    flip :
        {b : Barrier}
        → Write s (flipping b) (record s { generation = wrapping_inc s.generation }) (testing b)
    retry : {b : Barrier} → all_seen b ≡ false → Write s (testing b) s (again0 b)
    scan_again0 : {b : Barrier} → Write s (again0 b) s (again1 (see0 b (s.lock 0)))
    scan_again1 : {b : Barrier} → Write s (again1 b) s (testing (see1 b (s.lock 1)))
    drop_old :
        {b : Barrier}
        → all_seen b ≡ true
        → Write s (testing b) (record s { heap = update s.heap b.old none }) (guarding b.fresh)
    release : {p : ℕ} → Write s (guarding p) s unlocked

-- The first `n` readers are calls of `read`, each from a handler or a thread of its own.
pub record System (T : Type 0) : Type 0 where
  pub shared : Shared T
  pub writer : Writer
  pub reader : ℕ → Reader

module _ {T : Type 0} where
  pub data Step (n : ℕ) (s : System T) : System T → Type 0 where
    read :
        (i : ℕ) {m : Shared T} {r : Reader}
        → i < n
        → Read s.shared (s.reader i) m r
        → Step n s (record { shared = m; writer = s.writer; reader = update s.reader i r })
    write :
        {m : Shared T} {w : Writer}
        → Write s.shared s.writer m w
        → Step n s (record { shared = m; writer = w; reader = s.reader })

  -- `HalfLock::new`, with the box at the address `p`.
  abbrev pub new : T → ℕ → System T
  new v p = record {
    shared = record {
      data_ptr = p;
      generation = 0;
      lock = λ _. 0;
      heap = update (λ _. none) p (some v);
    };
    writer = unlocked;
    reader = λ _. outside;
  }

  pub data Run (n : ℕ) (s : System T) : System T → Type 0 where
    here : Run n s s
    next : {t u : System T} → Run n s t → Step n t u → Run n s u

  pub Run-trans : {n : ℕ} {s t u : System T} → Run n s t → Run n t u → Run n s u
  Run-trans r here = r
  Run-trans r (next q st) = next (Run-trans r q) st

  -- The states of a lock that `new` made.
  abbrev pub Reach : ℕ → T → ℕ → System T → Type 0
  Reach n v p s = Run n (new v p) s
