-- ===== src/Channel/Threads/Rounds.antt =====
-- One round of `dequeue` and `enqueue` on a word that is a queue, read backwards.
use signal_hook.Base.{
  ℕ, zero, suc, ◌≤◌, ◌<◌, ◌≡◌, refl, some, List, [], ◌∷◌, ◌++◌, ok, length, All, arith, ◌⊎◌, inl,
  inr,
}
use signal_hook.Channel.{slots, enqueue, dequeue}
use signal_hook.Channel.Queue.{encode, enqueue-encode, dequeue_cons, dequeue_nil}
use signal_hook.Channel.Slots.{occurs, IsSlotNumber, digits_of_slots, length-occurs}

pub dequeue_inv :
    (cs : List ℕ) {x q : ℕ}
    → All IsSlotNumber cs
    → dequeue (encode cs) ≡ some (x, q)
    → (rest : List ℕ) × (cs ≡ x ∷ rest) × (q ≡ encode rest)
dequeue_inv [] h e = absurd (cc (dequeue_nil))
dequeue_inv (y ∷ cs) {x} {q} h e =
    let out = dequeue_cons y cs (omega (arith, h.0)) in
    (cs, ground (arith, out), ground (arith, out))

pub enqueue_inv :
    (cs : List ℕ) {x q : ℕ}
    → All IsSlotNumber cs
    → IsSlotNumber x
    → length cs < slots
    → enqueue (encode cs) x ≡ ok q
    → q ≡ encode (cs ++ x ∷ [])
enqueue_inv cs {x} h i r e =
    let into = enqueue-encode cs x (digits_of_slots cs h) (omega (arith, i)) r in
    ground (arith, into)

slot_cases : (x : ℕ) → IsSlotNumber x → (x ≡ 1) ⊎ ((x ≡ 2) ⊎ ((x ≡ 3) ⊎ ((x ≡ 4) ⊎ (x ≡ 5))))
slot_cases zero i = absurd (omega arith)
slot_cases (suc zero) i = inl refl
slot_cases (suc (suc zero)) i = inr (inl refl)
slot_cases (suc (suc (suc zero))) i = inr (inr (inl refl))
slot_cases (suc (suc (suc (suc zero)))) i = inr (inr (inr (inl refl)))
slot_cases (suc (suc (suc (suc (suc zero))))) i = inr (inr (inr (inr refl)))
slot_cases (suc (suc (suc (suc (suc (suc n)))))) i = absurd (omega arith)

-- A queue without one of the numbers has room.
pub room_without :
    (x : ℕ) (cs : List ℕ)
    → IsSlotNumber x
    → All IsSlotNumber cs
    → occurs x cs ≡ 0
    → ((y : ℕ) → IsSlotNumber y → occurs y cs ≤ 1)
    → length cs < slots
room_without x cs i h z o = ground (
  arith,
  length-occurs cs h,
  o 1 (omega arith),
  o 2 (omega arith),
  o 3 (omega arith),
  o 4 (omega arith),
  o 5 (omega arith),
  slot_cases x i,
)
