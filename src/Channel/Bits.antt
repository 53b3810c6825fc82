-- ===== src/Channel/Bits.antt =====
-- `&` and `|` on words that are read three bits at a time.
use Prim.Native.Nat.{digits, bit_and-bitwise, bit_or-bitwise}
use signal_hook.Base.{
  ℕ, zero, suc, ◌+◌, ◌*◌, ◌/◌, ◌%◌, ◌≤◌, ◌<◌, ◌≡◌, refl, min, max, bit_and, bit_or, arith,
}

-- The native operations stand for a recursion on binary digits; more fuel than the number changes
-- nothing.
module _ (alone : ℕ → ℕ) (both : ℕ → ℕ → ℕ) where
  fuel_enough :
      (k a b : ℕ) → a ≤ k → (j : ℕ) → a ≤ j → digits alone both k a b ≡ digits alone both j a b
  fuel_enough zero zero b p zero q = refl
  fuel_enough zero zero b p (suc j) q = refl
  fuel_enough zero (suc a) b p j q = absurd (omega arith)
  fuel_enough (suc k) zero b p zero q = refl
  fuel_enough (suc k) zero b p (suc j) q = refl
  fuel_enough (suc k) (suc a) b p zero q = absurd (omega arith)
  fuel_enough (suc k) (suc a) b p (suc j) q =
      rw (fuel_enough k (suc a / 2) (b / 2) (omega arith) j (omega arith))

and_low : (a b : ℕ) → bit_and a b ≡ 2 * bit_and (a / 2) (b / 2) + min (a % 2) (b % 2)
and_low zero b = omega (arith, bit_and-bitwise 0 b, bit_and-bitwise 0 (b / 2))
and_low (suc a) b = omega (
  arith,
  bit_and-bitwise (suc a) b,
  bit_and-bitwise (suc a / 2) (b / 2),
  fuel_enough (λ b. 0) min a (suc a / 2) (b / 2) (omega arith) (suc a / 2) (omega arith),
)

pub or_low : (a b : ℕ) → bit_or a b ≡ 2 * bit_or (a / 2) (b / 2) + max (a % 2) (b % 2)
or_low zero b = omega (arith, bit_or-bitwise 0 b, bit_or-bitwise 0 (b / 2))
or_low (suc a) b = omega (
  arith,
  bit_or-bitwise (suc a) b,
  bit_or-bitwise (suc a / 2) (b / 2),
  fuel_enough (λ b. b) max a (suc a / 2) (b / 2) (omega arith) (suc a / 2) (omega arith),
)

-- A last digit of the mask that is one keeps the digit.
and_keep : (a b d : ℕ) → d < 2 → bit_and (2 * a + d) (2 * b + 1) ≡ 2 * bit_and a b + d
and_keep a b d p =
    let half : (2 * a + d) / 2 ≡ a = omega arith in
    let half' : (2 * b + 1) / 2 ≡ b = omega arith in
    rw (and_low (2 * a + d) (2 * b + 1), half, half') (omega arith)

or_zero : (a b d : ℕ) → d < 2 → bit_or (2 * a + d) (2 * b) ≡ 2 * bit_or a b + d
or_zero a b d p =
    let half : (2 * a + d) / 2 ≡ a = omega arith in
    let half' : (2 * b) / 2 ≡ b = omega arith in
    rw (or_low (2 * a + d) (2 * b), half, half') (omega arith)

-- Three digits at once.
and_keep_octal : (x n m : ℕ) → x < 8 → bit_and (x + 8 * n) (7 + 8 * m) ≡ x + 8 * bit_and n m
and_keep_octal x n m p =
    let left : x + 8 * n ≡ 2 * (2 * (2 * n + x / 4) + x / 2 % 2) + x % 2 = omega arith in
    let right : 7 + 8 * m ≡ 2 * (2 * (2 * m + 1) + 1) + 1 = omega arith in
    rw (left, right)
      (omega (
        arith,
        and_keep (2 * (2 * n + x / 4) + x / 2 % 2) (2 * (2 * m + 1) + 1) (x % 2) (omega arith),
        and_keep (2 * n + x / 4) (2 * m + 1) (x / 2 % 2) (omega arith),
        and_keep n m (x / 4) (omega arith),
      ))

or_zero_octal : (x n v : ℕ) → x < 8 → bit_or (x + 8 * n) (8 * v) ≡ x + 8 * bit_or n v
or_zero_octal x n v p =
    let left : x + 8 * n ≡ 2 * (2 * (2 * n + x / 4) + x / 2 % 2) + x % 2 = omega arith in
    let right : 8 * v ≡ 2 * (2 * (2 * v)) = omega arith in
    rw (left, right)
      (omega (
        arith,
        or_zero (2 * (2 * n + x / 4) + x / 2 % 2) (2 * (2 * v)) (x % 2) (omega arith),
        or_zero (2 * n + x / 4) (2 * v) (x / 2 % 2) (omega arith),
        or_zero n v (x / 4) (omega arith),
      ))

and_nothing : (k a : ℕ) → a ≤ k → bit_and a 0 ≡ 0
and_nothing k zero h = bit_and-bitwise 0 0
and_nothing zero (suc a) h = absurd (omega arith)
and_nothing (suc k) (suc a) h =
    omega (arith, and_low (suc a) 0, and_nothing k (suc a / 2) (omega arith))

-- `n & 0b111`
pub and_octal : (n : ℕ) → bit_and n 7 ≡ n % 8
and_octal n = omega (
  arith,
  and_low n 7,
  and_low (n / 2) 3,
  and_low (n / 2 / 2) 1,
  and_nothing (n / 2 / 2 / 2) (n / 2 / 2 / 2) (omega arith),
)

-- `(n & mask) | v`
abbrev pub clear_or : ℕ → ℕ → ℕ → ℕ
clear_or n mask v = bit_or (bit_and n mask) v

-- The lowest octal digit stays where the mask keeps it and `v` leaves it alone.
pub clear_or_octal :
    (x n m v : ℕ) → x < 8 → clear_or (x + 8 * n) (7 + 8 * m) (8 * v) ≡ x + 8 * clear_or n m v
clear_or_octal x n m v p = rw (and_keep_octal x n m p) (or_zero_octal x (bit_and n m) v p)

pub clear_or_zero : (m v : ℕ) → clear_or 0 m v ≡ v
clear_or_zero m v = rw (bit_and-bitwise 0 m) (bit_or-bitwise 0 v)
