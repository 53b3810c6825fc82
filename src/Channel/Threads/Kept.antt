-- ===== src/Channel/Threads/Kept.antt =====
-- Every step of every thread keeps the invariant.
use signal_hook.Base.{
  ℕ, ◌-◌, ◌<◌, ◌≡◌, refl, true, none, some, [], ◌∷◌, stop, Stop, arith, ap, ◌∙◌, update, count_none,
}
use signal_hook.Channel.{enqueue}
use signal_hook.Channel.Queue.{enqueue-encode}
use signal_hook.Channel.Slots.{IsSlotNumber, digits_of_slots}
use signal_hook.Channel.Threads.Invariant.{owns, Fits, Inv}
use signal_hook.Channel.Threads.Moves.{
  local_step, mine, full_room, empty_room, alone, rebuild, win_full_Inv, win_enqueue-Inv,
  win_empty_Inv, win_dequeue-Inv, Locals-some, All-some, Locals-none, All-none,
}
use signal_hook.Channel.Threads.{
  Shared, Pc, idle, dequeuing_empty, filling, filled, enqueuing_full, dequeuing_full, taking, taken,
  enqueuing_empty, received, Move, start_send, drop_value, retry_empty, win_empty, fill, panic_fill,
  load_full, retry_full, win_full, panic_full, start_recv, find_nothing, retry_dequeue, win_dequeue,
  take, panic_bounds, panic_take, load_empty, retry_enqueue, win_enqueue, panic_empty, return,
  System, pick, fresh, Reach, start, later,
}

-- With room in the queue a round of `enqueue` does not panic.
Fits-enqueue : (x c : ℕ) (s : Stop) → IsSlotNumber x → Fits c → enqueue c x ≡ stop s → ⊥
Fits-enqueue x c s i (cs, e, inside, room) h =
    let into = enqueue-encode cs x (digits_of_slots cs inside) (omega (arith, i)) room in
    cc (ap (λ w. enqueue w x) e ∙ into)

module _ {T : Type 0} {n : ℕ} {m : Shared T} {pc : ℕ → Pc T} (inv : Inv n m pc) (i : ℕ)
    (lt : i < n) where
  fill_Inv :
      (v : T) (x : ℕ)
      → pc i ≡ filling v x
      → Inv n (record m { storage = update m.storage (x - 1) (some v) }) (update pc i (filled x))
  fill_Inv v x e =
      rebuild inv i lt (record m { storage = update m.storage (x - 1) (some v) }) (filling v x)
        (filled x) inv.empties inv.fulls e (inv.empty_is, inv.full_is) inv.empties_in inv.fulls_in
        (λ y. refl) (All-some m.storage x v inv.fulls inv.stored)
        (λ j l ne. Locals-some m.storage x v (pc j) (inv.locals j l))
        (mine inv i lt e, ground arith)

  take_Inv :
      (x : ℕ) (v : T)
      → pc i ≡ taking x
      → Inv n (record m { storage = update m.storage (x - 1) none }) (update pc i (taken x v))
  take_Inv x v e =
      let (s, st) = mine inv i lt e in
      let (z, z', others) = alone inv i lt x s (rw e (ground arith)) in
      rebuild inv i lt (record m { storage = update m.storage (x - 1) none }) (taking x) (taken x v)
        inv.empties inv.fulls e (inv.empty_is, inv.full_is) inv.empties_in inv.fulls_in (λ y. refl)
        (All-none m.storage x s.0 inv.fulls z' inv.fulls_in inv.stored)
        (λ j l ne. Locals-none m.storage x s.0 (pc j) (others j l ne) (inv.locals j l)) s

  full_Fits : (x : ℕ) → IsSlotNumber x → owns x (pc i) ≡ true → Fits m.full
  full_Fits x s o = (inv.fulls, inv.full_is, inv.fulls_in, full_room inv i lt x s o)

  empty_Fits : (x : ℕ) → IsSlotNumber x → owns x (pc i) ≡ true → Fits m.empty
  empty_Fits x s o = (inv.empties, inv.empty_is, inv.empties_in, empty_room inv i lt x s o)

  Move-Inv : {p p' : Pc T} {m' : Shared T} → Move m p m' p' → pc i ≡ p → Inv n m' (update pc i p')
  Move-Inv (start_send {v = v}) e =
      local_step inv i lt idle (dequeuing_empty v m.empty) e (λ x. refl) tt
  Move-Inv (drop_value {v = v} {c = c} d) e =
      local_step inv i lt (dequeuing_empty v c) idle e (λ x. refl) tt
  Move-Inv (retry_empty {v = v} {c = c} d) e =
      local_step inv i lt (dequeuing_empty v c) (dequeuing_empty v m.empty) e (λ x. refl) tt
  Move-Inv (win_empty {v = v} {c = c} {x = x} {q = q} d same) e =
      win_empty_Inv inv i lt v c x q e d same
  Move-Inv (fill {v = v} {x = x} b) e = fill_Inv v x e
  Move-Inv (panic_fill {v = v} {x = x} out) e =
      let s = mine inv i lt e in absurd (out (s.0, omega (arith, s.0, s.1)))
  Move-Inv (load_full {x = x}) e =
      let (s, st) = mine inv i lt e in
      local_step inv i lt (filled x) (enqueuing_full x m.full) e (λ y. refl)
        (s, st, full_Fits x s (rw e (ground arith)))
  Move-Inv (retry_full {x = x} {c = c} d) e =
      let (s, st, fits) = mine inv i lt e in
      local_step inv i lt (enqueuing_full x c) (enqueuing_full x m.full) e (λ y. refl)
        (s, st, full_Fits x s (rw e (ground arith)))
  Move-Inv (win_full {x = x} {c = c} {q = q} d same) e = win_full_Inv inv i lt x c q e d same
  Move-Inv (panic_full {x = x} {c = c} {s = s} d) e =
      let (slot, st, fits) = mine inv i lt e in absurd (Fits-enqueue x c s slot fits d)
  Move-Inv start_recv e = local_step inv i lt idle (dequeuing_full m.full) e (λ x. refl) tt
  Move-Inv (find_nothing {c = c} d) e =
      local_step inv i lt (dequeuing_full c) (received none) e (λ x. refl) tt
  Move-Inv (retry_dequeue {c = c} d) e =
      local_step inv i lt (dequeuing_full c) (dequeuing_full m.full) e (λ x. refl) tt
  Move-Inv (win_dequeue {c = c} {x = x} {q = q} d same) e = win_dequeue-Inv inv i lt c x q e d same
  Move-Inv (take {x = x} {v = v} b h) e = take_Inv x v e
  Move-Inv (panic_bounds {x = x} out) e =
      let (s, st) = mine inv i lt e in absurd (out (s.0, omega (arith, s.0, s.1)))
  Move-Inv (panic_take {x = x} b h) e = let (s, st) = mine inv i lt e in absurd (ground arith)
  Move-Inv (load_empty {x = x} {v = v}) e =
      let s = mine inv i lt e in
      local_step inv i lt (taken x v) (enqueuing_empty x m.empty v) e (λ y. refl)
        (s, empty_Fits x s (rw e (ground arith)))
  Move-Inv (retry_enqueue {x = x} {c = c} {v = v} d) e =
      let (s, fits) = mine inv i lt e in
      local_step inv i lt (enqueuing_empty x c v) (enqueuing_empty x m.empty v) e (λ y. refl)
        (s, empty_Fits x s (rw e (ground arith)))
  Move-Inv (win_enqueue {x = x} {c = c} {q = q} {v = v} d same) e =
      win_enqueue-Inv inv i lt x c q v e d same
  Move-Inv (panic_empty {x = x} {c = c} {s = s} d) e =
      let (slot, fits) = mine inv i lt e in absurd (Fits-enqueue x c s slot fits d)
  Move-Inv (return {o = o}) e = local_step inv i lt (received o) idle e (λ x. refl) tt

module _ {T : Type 0} where
  fresh-Inv : (n : ℕ) → Inv n (fresh {T = T}).shared (fresh {T = T}).pc
  fresh-Inv n = record {
    empties = 1 ∷ 2 ∷ 3 ∷ 4 ∷ 5 ∷ [];
    fulls = [];
    empty_is = refl;
    full_is = refl;
    empties_in = omega arith;
    fulls_in = tt;
    once = λ x s. ground (arith, count_none (owns x) n (fresh {T = T}).pc (λ i l. refl));
    stored = tt;
    locals = λ i l. tt;
  }

  pub Reach-Inv : {n : ℕ} {s : System T} → Reach n s → Inv n s.shared s.pc
  Reach-Inv {n} start = fresh-Inv n
  Reach-Inv (later r (pick i lt mv)) = Move-Inv (Reach-Inv r) i lt mv refl
