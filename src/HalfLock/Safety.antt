-- ===== src/HalfLock/Safety.antt =====
-- What readers and writers of the half-lock can rely on.
use signal_hook.Base.{ℕ, ◌≤◌, ◌<◌, ◌≡◌, refl, true, Option, none, some, nat_eq, arith, ap}
use signal_hook.HalfLock.{
  Shared, max_guards, Reader, reading, Writer, unlocked, guarding, drop_lock,
}
use signal_hook.HalfLock.Step.{Read, Write, allocate, drop_old, load_data, System, Step, Reach}
use signal_hook.HalfLock.Invariant.{is_live, Inv}
use signal_hook.HalfLock.Preserved.{Reach-Inv}

module _ {T : Type 0} where
  is_live-some : (o : Option T) → is_live o ≡ true → (x : T) × (o ≡ some x)
  is_live-some none h = absurd (cc)
  is_live-some (some x) h = (x, refl)

  -- A pointer that a reader may hold points to a box.
  holds-live :
      {n : ℕ} {s : Shared T} {r : ℕ → Reader} (w : Writer)
      → Inv n s w r
      → (i : ℕ) {k p : ℕ} → i < n
      → r i ≡ reading k p
      → is_live (s.heap p) ≡ true
  holds-live unlocked inv i lt e = ground (arith, inv.holds i lt, inv.live)
  holds-live w inv i lt e = ground (arith, inv.holds i lt, inv.live, inv.knows)

  -- No use after free: in every reachable state with at most `max_guards` readers, the box that a
  -- live read guard points to is allocated.
  pub no_use_after_free :
      {n : ℕ} (v : T) (p : ℕ) {s : System T}
      → n ≤ max_guards
      → Reach n v p s
      → (i : ℕ) {k q : ℕ} → i < n
      → s.reader i ≡ reading k q
      → (x : T) × (s.shared.heap q ≡ some x)
  no_use_after_free v p {s} few r i lt e =
      is_live-some _ (holds-live s.writer (Reach-Inv v p few r) i lt e)

  Write-stable :
      {n : ℕ} {s m : Shared T} {w w' : Writer} {r : ℕ → Reader}
      → Write s w m w'
      → Inv n s w r
      → (i : ℕ) {k q : ℕ} → i < n
      → r i ≡ reading k q
      → m.heap q ≡ s.heap q
  Write-stable {w} (allocate fresh v free) inv i lt e = ground (arith, holds-live w inv i lt e)
  Write-stable (drop_old all) inv i lt e = ground (arith, inv.holds i lt, inv.knows)
  Write-stable _ inv i lt e = refl

  Read-heap : {s m : Shared T} {r r' : Reader} → Read s r m r' → m.heap ≡ s.heap
  Read-heap (load_data small) = refl
  Read-heap _ = refl

  -- A snapshot: no step of any reader or writer changes what a live read guard points to.
  pub snapshot_stable :
      {n : ℕ} (v : T) (p : ℕ) {s t : System T}
      → n ≤ max_guards
      → Reach n v p s
      → Step n s t
      → (i : ℕ) {k q : ℕ} → i < n
      → s.reader i ≡ reading k q
      → t.shared.heap q ≡ s.shared.heap q
  snapshot_stable v p few r (Step.read j l mv) i {q} lt e =
      ap (λ (h : ℕ → Option T). h q) (Read-heap mv)
  snapshot_stable v p few r (Step.write mv) i lt e = Write-stable mv (Reach-Inv v p few r) i lt e

  Inv-drop :
      {n : ℕ} {s : Shared T} {r : ℕ → Reader}
      → Inv n s unlocked r
      → (q : ℕ) → (drop_lock s).heap q ≡ none
  unfolding drop_lock
  Inv-drop {s} inv q = ground (arith, inv.only q)

  -- No leak: when no writer is at work, dropping the lock frees all that was ever allocated for it.
  pub drop_frees_all :
      {n : ℕ} (v : T) (p : ℕ) {s : System T}
      → n ≤ max_guards
      → Reach n v p s
      → s.writer ≡ unlocked
      → (q : ℕ) → (drop_lock s.shared).heap q ≡ none
  drop_frees_all {n} v p {s} few r e q =
      let inv : Inv n s.shared unlocked s.reader = rw e at (Reach-Inv v p few r) in Inv-drop inv q

  -- A write guard points to the current box, which is allocated.
  pub write_guard_current :
      {n : ℕ} (v : T) (p : ℕ) {s : System T} {q : ℕ}
      → n ≤ max_guards
      → Reach n v p s
      → s.writer ≡ guarding q
      → (q ≡ s.shared.data_ptr) × ((x : T) × (s.shared.heap q ≡ some x))
  write_guard_current {n} v p {s} {q} few r e =
      let inv : Inv n s.shared (guarding q) s.reader = rw e at (Reach-Inv v p few r) in
      (inv.knows, rw (inv.knows) (is_live-some _ inv.live))
