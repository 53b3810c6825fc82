-- ===== src/Channel/Threads/Safety.antt =====
-- What holds whatever the interleaving of the threads of channel.rs.
use signal_hook.Base.{
  ℕ, ◌^◌, ◌<◌, ◌≤◌, ◌≡◌, ◌≢◌, true, Option, arith, ℕ_discrete, List, length, All,
}
use signal_hook.Channel.{slots}
use signal_hook.Channel.Queue.{encode, encode-lt}
use signal_hook.Channel.Slots.{digits_of_slots, IsSlotNumber, occurs, length-occurs}
use signal_hook.Channel.Threads.{Pc, filling, panicked, System, Reach}
use signal_hook.Channel.Threads.Invariant.{owns, Locals}
use signal_hook.Channel.Threads.Moves.{alone}
use signal_hook.Channel.Threads.Kept.{Reach-Inv}

word_fits :
    (w : ℕ) (xs : List ℕ)
    → w ≡ encode xs
    → All IsSlotNumber xs
    → ((x : ℕ) → IsSlotNumber x → occurs x xs ≤ 1)
    → w < 2 ^ 15
word_fits w xs e inside once =
    let short : length xs ≤ slots = omega (
      arith,
      length-occurs xs inside,
      once 1 (omega arith),
      once 2 (omega arith),
      once 3 (omega arith),
      once 4 (omega arith),
      once 5 (omega arith),
    ) in
    omega (arith, encode-lt xs (digits_of_slots xs inside) short)

module _ {T : Type 0} where
  -- No interleaving makes a thread panic: `enqueue` always finds a place, and a slot that comes out
  -- of the full queue always holds a value.
  pub no_panic : {n : ℕ} {s : System T} → Reach n s → (i : ℕ) → i < n → s.pc i ≢ panicked
  no_panic r i lt e = let bad : ⊥ = rw e at ((Reach-Inv r).locals i lt) in bad

  slot_of_owner :
      (st : ℕ → Option T) (x : ℕ) (p : Pc T) → owns x p ≡ true → Locals st p → IsSlotNumber x
  slot_of_owner st x (filling v y) o l = ground arith
  slot_of_owner st x p o l = ground arith

  -- No data race on a slot: of two threads that have taken a slot number out of a queue and not yet
  -- put it into the other, no two have the same.
  pub slots_exclusive :
      {n : ℕ} {s : System T}
      → Reach n s
      → (x i j : ℕ) → i < n
      → j < n
      → owns x (s.pc i) ≡ true
      → owns x (s.pc j) ≡ true
      → i ≡ j
  slots_exclusive {s} r x i j li lj oi oj = elim (ℕ_discrete i j) [
    | yes e ↦ e
    | no ne ↦
        let inv = Reach-Inv r in
        let slot = slot_of_owner s.shared.storage x (s.pc i) oi (inv.locals i li) in
        absurd (cc ((alone inv i li x slot oi).2 j lj ne))
  ]

  -- Both words stay within 15 bits, three for each of the five places.
  pub words_fit :
      {n : ℕ} {s : System T} → Reach n s → (s.shared.empty < 2 ^ 15) × (s.shared.full < 2 ^ 15)
  words_fit r =
      let inv = Reach-Inv r in
      (
        word_fits _ inv.empties inv.empty_is inv.empties_in (λ x i. omega (arith, inv.once x i)),
        word_fits _ inv.fulls inv.full_is inv.fulls_in (λ x i. omega (arith, inv.once x i)),
      )
