-- ===== src/Base/Family.antt =====
-- Families indexed by number: the readers of a lock, the threads of a channel.
use Prim.Native.Nat.{ℕ, zero, suc, ◌+◌, ◌≤◌, ◌<◌}
use mathlib.Core.Path.{◌≡◌, refl}
use mathlib.Core.Logic.{◌≢◌}
use mathlib.Core.Bool.{Bool, true, false}
use native.Mathlib.Decide.{dec_lt}
use native.Mathlib.Omega.{arith}
use signal_hook.Base.Tests.{nat_beq, if◌then◌else◌}

abbrev pub update {ℓ} : {A : Type ℓ} → (ℕ → A) → ℕ → A → ℕ → A
update f i a j = if nat_beq i j then a else f j

abbrev pub to_nat : Bool → ℕ
to_nat true = 1
to_nat false = 0

module _ {ℓ} {A : Type ℓ} (p : A → Bool) where
  -- How many of the first `n` members pass the test.
  unfoldable pub count : ℕ → (ℕ → A) → ℕ
  count zero f = 0
  count (suc n) f = count n f + to_nat (p (f n))

  count-update_outside :
      (n : ℕ) (f : ℕ → A) (i : ℕ) (a : A) → n ≤ i → count n (update f i a) ≡ count n f
  unfolding count
  count-update_outside zero f i a h = refl
  count-update_outside (suc n) f i a h = ground (arith, count-update_outside n f i a)

  pub count-update :
      (n : ℕ) (f : ℕ → A) (i : ℕ) (a : A)
      → i < n
      → count n (update f i a) + to_nat (p (f i)) ≡ count n f + to_nat (p a)
  unfolding count
  count-update zero f i a h = absurd (omega arith)
  count-update (suc n) f i a h = elim (dec_lt i n) [
    | yes below ↦ ground (arith, count-update n f i a below)
    | no last ↦ ground (arith, count-update_outside n f i a)
  ]

  pub count-le : (n : ℕ) (f : ℕ → A) → count n f ≤ n
  unfolding count
  count-le zero f = omega arith
  count-le (suc n) f = ground (arith, count-le n f)

  -- A member that passes is counted.
  pub count_pos : (n : ℕ) (f : ℕ → A) (i : ℕ) → i < n → p (f i) ≡ true → 0 < count n f
  unfolding count
  count_pos zero f i h t = absurd (omega arith)
  count_pos (suc n) f i h t = elim (dec_lt i n) [
    | yes below ↦ ground (arith, count_pos n f i below t)
    | no last ↦ let same : i ≡ n = omega arith in ground (arith, count-le n f)
  ]

  pub count_none : (n : ℕ) (f : ℕ → A) → ((i : ℕ) → i < n → p (f i) ≡ false) → count n f ≡ 0
  unfolding count
  count_none zero f h = refl
  count_none (suc n) f h =
      ground (arith, count_none n f (λ i lt. h i (omega arith)), h n (omega arith))

  -- Two members that pass are counted twice.
  pub count_two :
      (n : ℕ) (f : ℕ → A) (i j : ℕ)
      → i < n
      → j < n
      → i ≢ j
      → p (f i) ≡ true
      → p (f j) ≡ true
      → 1 < count n f
  unfolding count
  count_two zero f i j hi hj ne ti tj = absurd (omega arith)
  count_two (suc n) f i j hi hj ne ti tj = elim (dec_lt i n) [
    | yes below_i ↦ elim (dec_lt j n) [
      | yes below_j ↦ ground (arith, count_two n f i j below_i below_j ne ti tj)
      | no last ↦ let same : j ≡ n = omega arith in ground (arith, count_pos n f i below_i ti)
    ]
    | no last ↦ let same : i ≡ n = omega arith in ground (arith, count_pos n f j (omega arith) tj)
  ]
