-- ===== src/Backend/Queues.antt =====
-- What `Pending` of src/iterator/backend.rs reports, for any exfiltrator whose slots are queues.
pub mod Arrivals
pub mod Siginfos
use mathlib.Core.List.{append_assoc, append-nil}
use signal_hook.Base.{
  ℕ, zero, suc, ◌+◌, ◌-◌, ◌<◌, ◌≡◌, refl, none, some, List, [], ◌∷◌, ◌++◌, pos, Option, Outcome, ok,
  ◌>>=◌, index, length, length-append, set, arith, ap, sym, ◌∙◌, get_elem?, get_elem?-set_self,
  get_elem?-set_ne, index-get_elem?, All, Bool-cases, inl, inr, true, false, ◌==◌, nat_eq,
  nat_beq_iff,
}
use signal_hook.Channel.Fifo.{first, rest}
use signal_hook.Registry.{Siginfo}
use signal_hook.Registry.Watch.{All-imply}
use signal_hook.Backend.{
  Exfiltrator, SignalDelivery, load_slot, next_from, next, store_slot, action, wake,
}
use signal_hook.Backend.Pending.{drain, index_middle, set_middle, left_of, shift}

-- A slot holds a queue: `load` takes its oldest entry, and `store` on a slot in use adds to it.
pub record Queues {S O : Type 0} (ex : Exfiltrator S O) : Type 1 where
  pub Contains : ℕ → S → List O → Type 0
  pub InUse : S → Type 0
  pub add : ℕ → List O → Siginfo → List O
  pub loads :
      (i : ℕ) (slot : S) (os : List O)
      → Contains i slot os
      → (slot' : S) × (ex.load slot (pos i) ≡ ok (slot', first os)) × Contains i slot' (rest os)
  pub stores :
      (i : ℕ) (slot : S) (os : List O) (info : Siginfo)
      → Contains i slot os
      → InUse slot
      → (slot' : S) × (ex.store slot (pos i) info ≡ ok slot')
        × Contains i slot' (add i os info)
        × InUse slot'

abbrev pub concat : {A : Type 0} → List (List A) → List A
concat [] = []
concat (os ∷ oss) = os ++ concat oss

module _ {S O : Type 0} (ex : Exfiltrator S O) (q : Queues ex) where
  -- The slots from the signal `i` on hold the queues.
  abbrev pub Hold : ℕ → List S → List (List O) → Type 0
  Hold i [] [] = Unit
  Hold i [] (os ∷ oss) = ⊥
  Hold i (slot ∷ slots) [] = ⊥
  Hold i (slot ∷ slots) (os ∷ oss) = q.Contains i slot os × Hold (suc i) slots oss

  module _ (before after : List S) (slot slot' : S) (r : Option O)
      (loaded : ex.load slot (pos (length before)) ≡ ok (slot', r)) where
    load_at :
        load_slot ex (before ++ slot ∷ after) (length before) ≡ ok (before ++ slot' ∷ after, r)
    unfolding load_slot
    load_at = rw (index_middle before after slot, loaded, set_middle before after slot slot') refl

  next_full :
      (before after : List S) (slot slot' : S) (o : O)
      → ex.load slot (pos (length before)) ≡ ok (slot', some o)
      → next ex (before ++ slot ∷ after) (length before)
        ≡ ok (before ++ slot' ∷ after, length before, some o)
  unfolding next next_from
  next_full before after slot slot' o loaded =
      rw ((left_of before after slot).0, next, load_at before after slot slot' (some o) loaded) refl

  next_empty :
      (before after : List S) (slot slot' : S)
      → ex.load slot (pos (length before)) ≡ ok (slot', none)
      → next ex (before ++ slot ∷ after) (length before)
        ≡ next ex (before ++ slot' ∷ after) (length before + 1)
  unfolding next next_from
  next_empty before after slot slot' loaded =
      rw
        (
          (left_of before after slot).0,
          next,
          (left_of before after slot').1,
          load_at before after slot slot' none loaded,
        )
        refl

  next_end : (slots : List S) → next ex slots (length slots) ≡ ok (slots, length slots, none)
  unfolding next next_from
  next_end slots = let n : length slots - length slots ≡ 0 = omega arith in rw (n, next) refl

  drain_empty :
      (fuel : ℕ) (before after : List S) (slot slot' : S)
      → ex.load slot (pos (length before)) ≡ ok (slot', none)
      → drain ex (suc fuel) (before ++ slot ∷ after) (length before)
        ≡ drain ex (suc fuel) ((before ++ slot' ∷ []) ++ after) (length (before ++ slot' ∷ []))
  unfolding drain
  drain_empty fuel before after slot slot' loaded =
      let (move, at) = shift before after slot' in
      rw (next_empty before after slot slot' loaded, drain) (rw (← move, at) refl)

  -- The queues of the signals from `length before` on are emptied, each in its order.
  abbrev pub Drains : ℕ → List S → List S → List (List O) → Type 0
  Drains fuel before after oss =
      (after' : List S) × (drain ex fuel (before ++ after) (length before)
        ≡ ok (before ++ after', concat oss))

  pub drain-Hold :
      (fuel : ℕ) (before after : List S) (oss : List (List O))
      → Hold (length before) after oss
      → length (concat oss) < fuel
      → Drains fuel before after oss
  unfolding drain
  drain-Hold zero before after oss h enough = absurd (omega (arith, enough))
  drain-Hold (suc fuel) before [] (os ∷ oss) h enough = absurd h
  drain-Hold (suc fuel) before (slot ∷ after) [] h enough = absurd h
  drain-Hold (suc fuel) before [] [] h enough =
      ([], rw (append-nil before, drain, next_end before) refl)
  drain-Hold (suc fuel) before (slot ∷ after) ([] ∷ oss) h enough =
      let (slot', loaded, left) = q.loads (length before) slot [] h.0 in
      let at : length (before ++ slot' ∷ []) ≡ suc (length before) =
        omega (arith, (shift before after slot').1) in
      let (after', run) =
        drain-Hold (suc fuel) (before ++ slot' ∷ []) after oss (rw at h.1) enough in
      (
        slot' ∷ after',
        drain_empty fuel before after slot slot' loaded
            ∙ run
            ∙ ap (λ slots. ok (slots, concat oss)) (append_assoc before (slot' ∷ []) after'),
      )
  drain-Hold (suc fuel) before (slot ∷ after) ((o ∷ os) ∷ oss) h enough =
      let (slot', loaded, left) = q.loads (length before) slot (o ∷ os) h.0 in
      let (after', run) =
        drain-Hold fuel before (slot' ∷ after) (os ∷ oss) (left, h.1) (omega (arith, enough)) in
      (after', rw (next_full before after slot slot' o loaded, drain, run) refl)
