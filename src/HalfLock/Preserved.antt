-- ===== src/HalfLock/Preserved.antt =====
-- Every step of a reader or the writer keeps the invariant of half_lock.rs.
use signal_hook.Base.{
  ℕ, ◌≤◌, ◌<◌, ◌≡◌, refl, true, false, nat_eq, ◌⊎◌, arith, sym, ◌∙◌, update, count_pos, count_none,
}
use signal_hook.HalfLock.{Shared, max_guards, Reader, Writer}
use signal_hook.HalfLock.Step.{
  Read, load_generation, fetch_add, load_data, drop_guard, Write, acquire, load_guarded, allocate,
  swap, scan_first0, scan_first1, flip, retry, scan_again0, scan_again1, drop_old, release, System,
  Step, new, Run, here, next, Reach,
}
use signal_hook.HalfLock.Invariant.{
  in_slot, is_live, barrier, HoldsOnly, owns, Knows, Inv, Read-counts, Read-slots, Read-same,
  Read-holds,
}

module _ {T : Type 0} where
  Write-lock : {s m : Shared T} {w w' : Writer} → Write s w m w' → (k : ℕ) → m.lock k ≡ s.lock k
  Write-lock acquire k = refl
  Write-lock _ k = refl

  Write-live :
      {n : ℕ} {s m : Shared T} {w w' : Writer} {r : ℕ → Reader}
      → Write s w m w'
      → Inv n s w r
      → is_live (m.heap m.data_ptr) ≡ true
  Write-live acquire inv = inv.live
  Write-live (allocate fresh v free) inv = ground (arith, inv.live)
  Write-live swap inv = inv.knows.0
  Write-live (drop_old all) inv = ground (arith, inv.live, inv.knows)
  Write-live _ inv = inv.live

  Write-Knows :
      {n : ℕ} {s m : Shared T} {w w' : Writer} {r : ℕ → Reader}
      → Write s w m w'
      → Inv n s w r
      → Knows m w'
  Write-Knows acquire inv = tt
  Write-Knows load_guarded inv = refl
  Write-Knows (allocate fresh v free) inv = ground (arith, inv.live)
  Write-Knows swap inv = ground (arith, inv.live, inv.knows)
  Write-Knows scan_first0 inv = inv.knows
  Write-Knows scan_first1 inv = inv.knows
  Write-Knows flip inv = inv.knows
  Write-Knows (retry more) inv = inv.knows
  Write-Knows scan_again0 inv = inv.knows
  Write-Knows scan_again1 inv = inv.knows
  Write-Knows (drop_old all) inv = inv.knows.0
  Write-Knows release inv = tt

  Write-only :
      {n : ℕ} {s m : Shared T} {w w' : Writer} {r : ℕ → Reader}
      → Write s w m w'
      → Inv n s w r
      → (q : ℕ) → is_live (m.heap q) ≡ true
      → (q ≡ m.data_ptr) ⊎ (owns w' q ≡ true)
  Write-only acquire inv q l = inv.only q l
  Write-only (allocate fresh v free) inv q l = ground (arith, inv.only q)
  Write-only swap inv q l = ground (arith, inv.only q)
  Write-only (drop_old all) inv q l = ground (arith, inv.only q)
  Write-only _ inv q l = inv.only q l

  -- A counter at zero shows that no reader is in the slot.
  no_reader :
      {n : ℕ} {s : Shared T} {w : Writer} {r : ℕ → Reader}
      → Inv n s w r
      → (k i : ℕ) → i < n
      → s.lock k ≡ 0
      → in_slot k (r i) ≡ false
  no_reader {n} {r} inv k i lt z = ground (arith, inv.counts k, count_pos (in_slot k) n r i lt)

  Write-holds :
      {n : ℕ} {s m : Shared T} {w w' : Writer} {r : ℕ → Reader}
      → Write s w m w'
      → Inv n s w r
      → (i : ℕ) → i < n
      → HoldsOnly m.data_ptr (barrier w') (r i)
  Write-holds acquire inv i lt = inv.holds i lt
  Write-holds swap inv i lt = ground (arith, inv.holds i lt)
  Write-holds scan_first0 inv i lt =
      ground (arith, inv.holds i lt, inv.slots i, no_reader inv 0 i lt)
  Write-holds scan_first1 inv i lt =
      ground (arith, inv.holds i lt, inv.slots i, no_reader inv 1 i lt)
  Write-holds scan_again0 inv i lt =
      ground (arith, inv.holds i lt, inv.slots i, no_reader inv 0 i lt)
  Write-holds scan_again1 inv i lt =
      ground (arith, inv.holds i lt, inv.slots i, no_reader inv 1 i lt)
  Write-holds (drop_old all) inv i lt = ground (arith, inv.holds i lt)
  Write-holds _ inv i lt = inv.holds i lt

  Write-Inv :
      {n : ℕ} {s m : Shared T} {w w' : Writer} {r : ℕ → Reader}
      → Write s w m w'
      → Inv n s w r
      → Inv n m w' r
  Write-Inv mv inv = record {
    few = inv.few;
    counts = λ k. Write-lock mv k ∙ inv.counts k;
    live = Write-live mv inv;
    knows = Write-Knows mv inv;
    slots = inv.slots;
    holds = Write-holds mv inv;
    only = Write-only mv inv;
  }

  Read-Knows : {s m : Shared T} {p p' : Reader} (w : Writer) → Read s p m p' → Knows s w → Knows m w
  Read-Knows w load_generation k = k
  Read-Knows w fetch_add k = k
  Read-Knows w (load_data small) k = k
  Read-Knows w drop_guard k = k

  Read-Inv :
      {n : ℕ} {s m : Shared T} {w : Writer} {r : ℕ → Reader} {p : Reader}
      → Inv n s w r
      → (i : ℕ) → i < n
      → Read s (r i) m p
      → Inv n m w (update r i p)
  Read-Inv {s} {w} inv i lt mv =
      let (p, h) = Read-same inv mv in
      record {
        few = inv.few;
        counts = Read-counts inv i lt mv refl;
        live = rw (p, h) inv.live;
        knows = Read-Knows w mv inv.knows;
        slots = Read-slots inv i mv refl;
        holds = rw p (Read-holds inv i mv refl);
        only = rw (p, h) inv.only;
      }

  -- Every step keeps the invariant.
  pub Step-Inv :
      {n : ℕ} {s t : System T}
      → Step n s t
      → Inv n s.shared s.writer s.reader
      → Inv n t.shared t.writer t.reader
  Step-Inv (Step.read i lt mv) inv = Read-Inv inv i lt mv
  Step-Inv (Step.write mv) inv = Write-Inv mv inv

  pub Run-Inv :
      {n : ℕ} {s t : System T}
      → Run n s t
      → Inv n s.shared s.writer s.reader
      → Inv n t.shared t.writer t.reader
  Run-Inv here inv = inv
  Run-Inv (next r st) inv = Step-Inv st (Run-Inv r inv)

  new-Inv :
      (n : ℕ) (v : T) (p : ℕ)
      → n ≤ max_guards
      → Inv n (new v p).shared (new v p).writer (new v p).reader
  new-Inv n v p few = record {
    few = few;
    counts = λ k. sym (count_none (in_slot k) n _ (λ i lt. refl));
    live = ground arith;
    knows = tt;
    slots = λ i. tt;
    holds = λ i lt. tt;
    only = λ q l. ground arith;
  }

  pub Reach-Inv :
      {n : ℕ} (v : T) (p : ℕ) {s : System T}
      → n ≤ max_guards
      → Reach n v p s
      → Inv n s.shared s.writer s.reader
  Reach-Inv {n} v p few r = Run-Inv r (new-Inv n v p few)
