-- ===== src/HalfLock/Progress.antt =====
-- `read` never waits, and the loop of `write_barrier` ends once the readers have left.
use signal_hook.Base.{
  ℕ, zero, suc, ◌≤◌, ◌<◌, ◌≡◌, ◌≢◌, refl, true, some, nat_eq, inl, inr, arith, ◌∙◌, update,
  Bool-cases, count-le, count_none, dec_lt,
}
use signal_hook.HalfLock.{
  Shared, max_guards, Reader, outside, chosen, counted, reading, Barrier, Writer, guarding, first0,
  first1, flipping, testing, again0, again1, see0, see1, all_seen, wrapping_inc,
}
use signal_hook.HalfLock.Step.{
  Read, fetch_add, load_data, drop_guard, Write, flip, retry, scan_first0, scan_first1, scan_again0,
  scan_again1, drop_old, System, Step, Run, here, next, Run-trans, Reach,
}
use signal_hook.HalfLock.Invariant.{in_slot, barrier, IsSlot, Inv}
use signal_hook.HalfLock.Preserved.{Run-Inv, Reach-Inv}

update_at : (f : ℕ → Reader) (i : ℕ) (a : Reader) → update f i a i ≡ a
update_at f i a = ground arith

-- Both counters at zero set both flags.
seen_free : (b : Barrier) (x y : ℕ) → x ≡ 0 → y ≡ 0 → all_seen (see1 (see0 b x) y) ≡ true
seen_free b x y p q = ground arith

module _ {T : Type 0} where
  Step-read :
      {n : ℕ} (s : System T) (i : ℕ) {p p' : Reader} {m : Shared T}
      → i < n
      → s.reader i ≡ p
      → Read s.shared p m p'
      → Step n s (record { shared = m; writer = s.writer; reader = update s.reader i p' })
  Step-read s i {p' = p'} {m = m} lt e mv = Step.read i lt (rw e mv)

  -- So many steps of reader `i`, with no other step between them.
  pub data Alone (i : ℕ) : System T → ℕ → System T → Type 0 where
    stands : {s : System T} → Alone i s 0 s
    moves :
        {s t : System T} {p' : Reader} {m : Shared T} {k : ℕ}
        → Read s.shared (s.reader i) m p'
        → Alone i (record { shared = m; writer = s.writer; reader = update s.reader i p' }) k t
        → Alone i s (suc k) t

  -- `t` is `s` after `k` steps of reader `i` alone, at whose end it is outside.
  record Left (n : ℕ) (s : System T) (i k : ℕ) (t : System T) : Type 0 where
    alone : Alone i s k t
    run : Run n s t
    same : t.writer ≡ s.writer
    out : t.reader i ≡ outside
    others : (j : ℕ) → i ≢ j → t.reader j ≡ s.reader j

  leave_reading :
      {n : ℕ} (s : System T) (i : ℕ) {k q : ℕ}
      → i < n
      → s.reader i ≡ reading k q
      → (t : System T) × Left n s i 1 t
  leave_reading s i lt e = (
    _,
    record {
      alone = moves (rw e drop_guard) stands;
      run = next here (Step-read s i lt e drop_guard);
      same = refl;
      out = update_at s.reader i outside;
      others = λ j ne. ground arith;
    },
  )

  -- One step of reader `i`, and then the rest of its way out.
  leave_after :
      {n k : ℕ} (s : System T) (i : ℕ) {p p' : Reader} {m : Shared T}
      → i < n
      → s.reader i ≡ p
      → Read s.shared p m p'
      → (t : System T) × Left n
          (record { shared = m; writer = s.writer; reader = update s.reader i p' })
          i
          k
          t
      → (t : System T) × Left n s i (suc k) t
  leave_after s i lt e mv (t, l) = (
    t,
    record {
      alone = moves (rw e mv) l.alone;
      run = Run-trans (next here (Step-read s i lt e mv)) l.run;
      same = l.same;
      out = l.out;
      others = λ j ne. l.others j ne ∙ ground arith;
    },
  )

  leave_counted :
      {n : ℕ} (s : System T) (i : ℕ) {k c : ℕ}
      → i < n
      → c ≤ max_guards
      → s.reader i ≡ counted k c
      → (t : System T) × Left n s i 2 t
  leave_counted s i lt small e =
      leave_after s i lt e (load_data small) (leave_reading _ i lt (update_at s.reader i _))

  leave_chosen :
      {n : ℕ} (s : System T) (i : ℕ) {k : ℕ}
      → i < n
      → Inv n s.shared s.writer s.reader
      → s.reader i ≡ chosen k
      → (t : System T) × Left n s i 3 t
  leave_chosen {n} s i {k} lt inv e = leave_after s i lt e fetch_add (
      leave_counted _ i lt (omega (arith, inv.few, inv.counts k, count-le (in_slot k) n s.reader))
        (update_at s.reader i _))

  leave :
      {n : ℕ} (s : System T) (i : ℕ) (p : Reader)
      → i < n
      → Inv n s.shared s.writer s.reader
      → s.reader i ≡ p
      → (k : ℕ) × (k ≤ 3) × (t : System T) × Left n s i k t
  leave s i outside lt inv e = (
    0,
    omega arith,
    s,
    record { alone = stands; run = here; same = refl; out = e; others = λ j ne. refl },
  )
  leave s i (chosen k) lt inv e = let (t, l) = leave_chosen s i lt inv e in (3, omega arith, t, l)
  leave {n} s i (counted k c) lt inv e =
      let slot : IsSlot n (counted k c) = rw e at (inv.slots i) in
      let (t, l) = leave_counted s i lt (omega (arith, slot, inv.few)) e in (2, omega arith, t, l)
  leave s i (reading k q) lt inv e = let (t, l) = leave_reading s i lt e in (1, omega arith, t, l)

  -- The first `m` readers leave, one after the other.
  evacuate :
      {n : ℕ} (m : ℕ) (s : System T)
      → m ≤ n
      → Inv n s.shared s.writer s.reader
      → (t : System T) × Run n s t
        × (t.writer ≡ s.writer)
        × ((j : ℕ) → j < m → t.reader j ≡ outside)
  evacuate zero s h inv = (s, here, refl, λ j lt. absurd (omega arith))
  evacuate (suc m) s h inv =
      let (t, r, w, o) = evacuate m s (omega arith) inv in
      let (k, few, u, l) = leave t m (t.reader m) h (Run-Inv r inv) refl in
      (
        u,
        Run-trans r l.run,
        l.same ∙ w,
        λ j lt. elim (dec_lt j m) [
          | yes below ↦ l.others j (omega arith) ∙ o j below
          | no last ↦ let same : j ≡ m = omega arith in rw same l.out
        ],
      )

  -- Steps of the writer alone.
  data Writes (s : Shared T) (w : Writer) : Shared T → Writer → Type 0 where
    done : Writes s w s w
    more : {m m' : Shared T} {v v' : Writer} → Writes s w m v → Write m v m' v' → Writes s w m' v'

  Writes-Run :
      {n : ℕ} (s : Shared T) (r : ℕ → Reader) {w w' : Writer} {m : Shared T}
      → Writes s w m w'
      → Run n
          (record { shared = s; writer = w; reader = r })
          (record { shared = m; writer = w'; reader = r })
  Writes-Run s r done = here
  Writes-Run s r (more ws mv) = next (Writes-Run s r ws) (Step.write mv)

  Writes-trans :
      {s : Shared T} {v w : Writer} {t u : Shared T} {x : Writer}
      → Writes s v t w
      → Writes t w u x
      → Writes s v u x
  Writes-trans a done = a
  Writes-trans a (more b mv) = more (Writes-trans a b) mv

  abbrev Ends : Shared T → Writer → Barrier → Type 0
  Ends s w b = (m : Shared T) × Writes s w m (guarding b.fresh)

  abbrev Free : Shared T → Type 0
  Free s = (s.lock 0 ≡ 0) × (s.lock 1 ≡ 0)

  end_after :
      {s m : Shared T} {w w' : Writer} (b : Barrier) → Write s w m w' → Ends m w' b → Ends s w b
  end_after b mv (m, ws) = (m, Writes-trans (more done mv) ws)

  end_seen : (s : Shared T) (b : Barrier) → all_seen b ≡ true → Ends s (testing b) b
  end_seen s b h = (_, more done (drop_old h))

  end_again : (s : Shared T) (b : Barrier) → Free s → Ends s (again0 b) b
  end_again s b f = end_after b scan_again0 (
      end_after b scan_again1
        (end_seen s (see1 (see0 b (s.lock 0)) (s.lock 1)) (seen_free b _ _ f.0 f.1)))

  end_testing : (s : Shared T) (b : Barrier) → Free s → Ends s (testing b) b
  end_testing s b f = elim (Bool-cases (all_seen b)) [
    | inl all ↦ end_seen s b all
    | inr some_missing ↦ end_after b (retry some_missing) (end_again s b f)
  ]

  end_flipping : (s : Shared T) (b : Barrier) → Free s → Ends s (flipping b) b
  end_flipping s b f =
      end_after b flip (end_testing (record s { generation = wrapping_inc s.generation }) b f)

  end_barrier : (s : Shared T) (w : Writer) (b : Barrier) → barrier w ≡ some b → Free s → Ends s w b
  end_barrier s (first0 c) b e f =
      let same : c ≡ b = cc in
      rw (← same) (
        end_after c scan_first0
          (end_after c scan_first1 (end_flipping s (see1 (see0 c (s.lock 0)) (s.lock 1)) f)))
  end_barrier s (first1 c) b e f =
      let same : c ≡ b = cc in
      rw (← same) (end_after c scan_first1 (end_flipping s (see1 c (s.lock 1)) f))
  end_barrier s (flipping c) b e f = let same : c ≡ b = cc in rw (← same) (end_flipping s c f)
  end_barrier s (testing c) b e f = let same : c ≡ b = cc in rw (← same) (end_testing s c f)
  end_barrier s (again0 c) b e f = let same : c ≡ b = cc in rw (← same) (end_again s c f)
  end_barrier s (again1 c) b e f =
      let same : c ≡ b = cc in
      rw (← same) (end_after c scan_again1 (end_testing s (see1 c (s.lock 1)) f))
  end_barrier s _ b e f = absurd (cc)

  -- With every reader outside, both counters are at zero.
  Free-outside :
      {n : ℕ} (s : System T)
      → Inv n s.shared s.writer s.reader
      → ((j : ℕ) → j < n → s.reader j ≡ outside)
      → Free s.shared
  Free-outside {n} s inv o = (zero_at 0, zero_at 1)
    where
      zero_at : (k : ℕ) → s.shared.lock k ≡ 0
      zero_at k = inv.counts k ∙ count_none (in_slot k) n s.reader (λ i lt. rw (o i lt) refl)

  -- The barrier always can end: from every reachable state in which a writer has swapped the
  -- pointer and not yet freed the old box, there is a run in which the readers leave, the writer
  -- frees the old box, and it is left with a guard on the new one.
  pub barrier_ends :
      {n : ℕ} (v : T) (p : ℕ) {s : System T} (b : Barrier)
      → n ≤ max_guards
      → Reach n v p s
      → barrier s.writer ≡ some b
      → (t : System T) × Run n s t × (t.writer ≡ guarding b.fresh)
  barrier_ends {n} v p {s} b few r e =
      let inv = Reach-Inv v p few r in
      let (t, q, w, o) = evacuate n s (omega arith) inv in
      let (m, ws) = end_barrier t.shared t.writer b (rw w e) (Free-outside t (Run-Inv q inv) o) in
      (_, Run-trans q (Writes-Run t.shared t.reader ws), refl)

  -- `read` waits for nobody: with at most `max_guards` readers, in every reachable state a reader can
  -- go from wherever it stands in its call, or with its guard, to the drop of the guard by at most
  -- three steps of its own, with no step of the writer or of another reader between them. So it does
  -- not abort.
  pub read_wait_free :
      {n : ℕ} (v : T) (p : ℕ) {s : System T}
      → n ≤ max_guards
      → Reach n v p s
      → (i : ℕ) → i < n
      → (k : ℕ) × (k ≤ 3)
        × (t : System T) × Alone i s k t
        × (t.reader i ≡ outside)
        × (t.writer ≡ s.writer)
        × ((j : ℕ) → i ≢ j → t.reader j ≡ s.reader j)
  read_wait_free v p {s} few r i lt =
      let (k, short, t, l) = leave s i (s.reader i) lt (Reach-Inv v p few r) refl in
      (k, short, t, l.alone, l.out, l.same, l.others)
