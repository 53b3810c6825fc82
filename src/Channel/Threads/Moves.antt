-- ===== src/Channel/Threads/Moves.antt =====
-- A step of thread `i` keeps the invariant.
use signal_hook.Base.{
  ℕ, ◌+◌, ◌-◌, ◌<◌, ◌≡◌, ◌≢◌, true, false, Option, none, some, List, [], ◌∷◌, ◌++◌, ok, nat_beq,
  length, All, All-append, arith, ap, ◌∙◌, sym, update, count-update, count_two, count_pos, to_nat,
  Bool-cases, inl, inr,
}
use signal_hook.Channel.{slots, enqueue, dequeue}
use signal_hook.Channel.Queue.{encode}
use signal_hook.Channel.Slots.{occurs, occurs-append, IsSlotNumber}
use signal_hook.Channel.Threads.Rounds.{dequeue_inv, enqueue_inv, room_without}
use signal_hook.Channel.Threads.Invariant.{owns, Stored, Locals, Inv}
use signal_hook.Channel.Threads.{
  Shared, Pc, idle, dequeuing_empty, filling, filled, enqueuing_full, dequeuing_full, taking, taken,
  enqueuing_empty, received, panicked,
}

-- Writes to the slot `x`, seen from another thread and from a queue without `x`.
module _ {T : Type 0} (st : ℕ → Option T) (x : ℕ) where
  Stored-some : (v : T) (y : ℕ) → Stored st y → Stored (update st (x - 1) (some v)) y
  Stored-some v y h = ground arith

  pub Locals-some : (v : T) (p : Pc T) → Locals st p → Locals (update st (x - 1) (some v)) p
  Locals-some v (filled y) h = (h.0, Stored-some v y h.1)
  Locals-some v (enqueuing_full y c) h = (h.0, Stored-some v y h.1, h.2)
  Locals-some v (taking y) h = (h.0, Stored-some v y h.1)
  Locals-some v idle h = tt
  Locals-some v (dequeuing_empty w c) h = tt
  Locals-some v (filling w y) h = h
  Locals-some v (dequeuing_full c) h = tt
  Locals-some v (taken y w) h = h
  Locals-some v (enqueuing_empty y c w) h = h
  Locals-some v (received o) h = tt
  Locals-some v panicked h = h

  pub All-some :
      (v : T) (xs : List ℕ) → All (Stored st) xs → All (Stored (update st (x - 1) (some v))) xs
  All-some v [] h = tt
  All-some v (y ∷ ys) h = (Stored-some v y h.0, All-some v ys h.1)

  module _ (s : 0 < x) where
    Stored-none :
        (y : ℕ) → 0 < y → nat_beq y x ≡ false → Stored st y → Stored (update st (x - 1) none) y
    Stored-none y p ne h = ground arith

    pub Locals-none :
        (p : Pc T) → owns x p ≡ false → Locals st p → Locals (update st (x - 1) none) p
    Locals-none (filled y) o h = (h.0, Stored-none y h.0.0 o h.1)
    Locals-none (enqueuing_full y c) o h = (h.0, Stored-none y h.0.0 o h.1, h.2)
    Locals-none (taking y) o h = (h.0, Stored-none y h.0.0 o h.1)
    Locals-none idle o h = tt
    Locals-none (dequeuing_empty w c) o h = tt
    Locals-none (filling w y) o h = h
    Locals-none (dequeuing_full c) o h = tt
    Locals-none (taken y w) o h = h
    Locals-none (enqueuing_empty y c w) o h = h
    Locals-none (received r) o h = tt
    Locals-none panicked o h = h

    pub All-none :
        (xs : List ℕ)
        → occurs x xs ≡ 0
        → All IsSlotNumber xs
        → All (Stored st) xs
        → All (Stored (update st (x - 1) none)) xs
    All-none [] z r h = tt
    All-none (y ∷ ys) z r h =
        (Stored-none y r.0.0 (ground arith) h.0, All-none ys (omega (arith, z)) r.1 h.1)

module _ {T : Type 0} {n : ℕ} {m : Shared T} {pc : ℕ → Pc T} (inv : Inv n m pc) (i : ℕ)
    (lt : i < n) where
  open inv use {empties, fulls}

  -- The others keep their slots, and the mover's number is in no queue.
  pub alone :
      (x : ℕ)
      → IsSlotNumber x
      → owns x (pc i) ≡ true
      → (occurs x empties ≡ 0)
        × (occurs x fulls ≡ 0)
        × ((j : ℕ) → j < n → i ≢ j → owns x (pc j) ≡ false)
  alone x s o = (
    omega (arith, inv.once x s, count_pos (owns x) n pc i lt o),
    omega (arith, inv.once x s, count_pos (owns x) n pc i lt o),
    λ j l ne. elim (Bool-cases (owns x (pc j))) [
      | inl both ↦ absurd (omega (arith, inv.once x s, count_two (owns x) n pc i j lt l ne o both))
      | inr not_j ↦ not_j
    ],
  )

  pub full_room : (x : ℕ) → IsSlotNumber x → owns x (pc i) ≡ true → length fulls < slots
  full_room x s o =
      room_without x fulls s inv.fulls_in (alone x s o).1 (λ y t. omega (arith, inv.once y t))

  pub empty_room : (x : ℕ) → IsSlotNumber x → owns x (pc i) ≡ true → length empties < slots
  empty_room x s o =
      room_without x empties s inv.empties_in (alone x s o).0 (λ y t. omega (arith, inv.once y t))

  Locals-update :
      (st : ℕ → Option T) (p : Pc T)
      → Locals st p
      → ((j : ℕ) → j < n → i ≢ j → Locals st (pc j))
      → (j : ℕ) → j < n
      → Locals st (update pc i p j)
  Locals-update st p own others j l = elim (Bool-cases (nat_beq i j)) [
    | inl here ↦ rw here own
    | inr there ↦ rw there (others j l (λ e. ground arith))
  ]

  -- The queues `es` and `fs` after a step to `p'`.
  pub rebuild :
      (m' : Shared T) (p p' : Pc T) (es fs : List ℕ)
      → pc i ≡ p
      → (m'.empty ≡ encode es) × (m'.full ≡ encode fs)
      → All IsSlotNumber es
      → All IsSlotNumber fs
      → ((x : ℕ)
          → occurs x es + occurs x fs + to_nat (owns x p')
            ≡ occurs x empties + occurs x fulls + to_nat (owns x p))
      → All (Stored m'.storage) fs
      → ((j : ℕ) → j < n → i ≢ j → Locals m'.storage (pc j))
      → Locals m'.storage p'
      → Inv n m' (update pc i p')
  rebuild m' p p' es fs e words es_in fs_in balance stored others own = record {
    empties = es;
    fulls = fs;
    empty_is = words.0;
    full_is = words.1;
    empties_in = es_in;
    fulls_in = fs_in;
    once = λ x s. omega (
      arith,
      inv.once x s,
      count-update (owns x) n pc i p' lt,
      ap (λ q. to_nat (owns x q)) e,
      balance x,
    );
    stored = stored;
    locals = Locals-update m'.storage p' own others;
  }

  -- A step that changes no shared memory and keeps the mover's numbers.
  pub local_step :
      (p p' : Pc T)
      → pc i ≡ p
      → ((x : ℕ) → to_nat (owns x p') ≡ to_nat (owns x p))
      → Locals m.storage p'
      → Inv n m (update pc i p')
  local_step p p' e same own =
      rebuild m p p' empties fulls e (inv.empty_is, inv.full_is) inv.empties_in inv.fulls_in
        (λ x. omega (arith, same x)) inv.stored (λ j l ne. inv.locals j l) own

  pub mine : {p : Pc T} → pc i ≡ p → Locals m.storage p
  mine e = rw e at (inv.locals i lt)

  pub win_full_Inv :
      (x c q : ℕ)
      → pc i ≡ enqueuing_full x c
      → enqueue c x ≡ ok q
      → m.full ≡ c
      → Inv n (record m { full = q }) (update pc i idle)
  win_full_Inv x c q e out same =
      let (s, st, fits) = mine e in
      let room = full_room x s (rw e (ground arith)) in
      let into =
        enqueue_inv fulls inv.fulls_in s room
          (ap (λ w. enqueue w x) (sym inv.full_is ∙ same) ∙ out) in
      rebuild (record m { full = q }) (enqueuing_full x c) idle empties (fulls ++ x ∷ []) e
        (inv.empty_is, into) inv.empties_in
        (All-append IsSlotNumber fulls (x ∷ []) inv.fulls_in (s, tt))
        (λ y. omega (arith, occurs-append y fulls (x ∷ [])))
        (All-append (Stored m.storage) fulls (x ∷ []) inv.stored (st, tt))
        (λ j l ne. inv.locals j l) tt

  pub win_enqueue-Inv :
      (x c q : ℕ) (v : T)
      → pc i ≡ enqueuing_empty x c v
      → enqueue c x ≡ ok q
      → m.empty ≡ c
      → Inv n (record m { empty = q }) (update pc i (received (some v)))
  win_enqueue-Inv x c q v e out same =
      let (s, fits) = mine e in
      let room = empty_room x s (rw e (ground arith)) in
      let into =
        enqueue_inv empties inv.empties_in s room
          (ap (λ w. enqueue w x) (sym inv.empty_is ∙ same) ∙ out) in
      rebuild (record m { empty = q }) (enqueuing_empty x c v) (received (some v))
        (empties ++ x ∷ []) fulls e (into, inv.full_is)
        (All-append IsSlotNumber empties (x ∷ []) inv.empties_in (s, tt)) inv.fulls_in
        (λ y. omega (arith, occurs-append y empties (x ∷ []))) inv.stored (λ j l ne. inv.locals j l)
        tt

  pub win_empty_Inv :
      (v : T) (c x q : ℕ)
      → pc i ≡ dequeuing_empty v c
      → dequeue c ≡ some (x, q)
      → m.empty ≡ c
      → Inv n (record m { empty = q }) (update pc i (filling v x))
  win_empty_Inv v c x q e out same =
      let (rest, cut, word) =
        dequeue_inv empties inv.empties_in (ap dequeue (sym inv.empty_is ∙ same) ∙ out) in
      let parts : IsSlotNumber x × All IsSlotNumber rest = rw cut at inv.empties_in in
      rebuild (record m { empty = q }) (dequeuing_empty v c) (filling v x) rest fulls e
        (word, inv.full_is) parts.1 inv.fulls_in (λ y. omega (arith, ap (occurs y) cut)) inv.stored
        (λ j l ne. inv.locals j l) parts.0

  pub win_dequeue-Inv :
      (c x q : ℕ)
      → pc i ≡ dequeuing_full c
      → dequeue c ≡ some (x, q)
      → m.full ≡ c
      → Inv n (record m { full = q }) (update pc i (taking x))
  win_dequeue-Inv c x q e out same =
      let (rest, cut, word) =
        dequeue_inv fulls inv.fulls_in (ap dequeue (sym inv.full_is ∙ same) ∙ out) in
      let parts : IsSlotNumber x × All IsSlotNumber rest = rw cut at inv.fulls_in in
      let held : Stored m.storage x × All (Stored m.storage) rest = rw cut at inv.stored in
      rebuild (record m { full = q }) (dequeuing_full c) (taking x) empties rest e
        (inv.empty_is, word) inv.empties_in parts.1 (λ y. omega (arith, ap (occurs y) cut)) held.1
        (λ j l ne. inv.locals j l) (parts.0, held.0)
