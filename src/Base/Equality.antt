-- ===== src/Base/Equality.antt =====
-- Equality tests as an interface (`PartialEq`), and signed integers (`c_int`) with theirs.
use Prim.Native.Nat.{ℕ}
use mathlib.Core.Path.{◌≡◌, refl}
use mathlib.Core.Logic.{◌↔◌}
use mathlib.Core.Bool.{Bool, true, false}
use native.Mathlib.Omega.{arith}
use signal_hook.Base.Tests.{nat_beq, nat_beq_iff}

pub record EqTest {ℓ} (A : Type ℓ) : Type ℓ where
  pub eq : A → A → Bool
  pub eq_iff : (a b : A) → (eq a b ≡ true) ↔ (a ≡ b)

infix 50 ◌==◌
abbrev pub ◌==◌ {ℓ} : {A : Type ℓ} ⦃e : EqTest A⦄ → A → A → Bool
◌==◌ ⦃e⦄ = e.eq

pub ==_refl {ℓ} : {A : Type ℓ} ⦃e : EqTest A⦄ → (a : A) → (a == a) ≡ true
==_refl ⦃e⦄ a = (e.eq_iff a a).1 refl

instance abbrev pub nat_eq : EqTest ℕ
nat_eq = record { eq = nat_beq; eq_iff = nat_beq_iff }

-- `negsuc n` is -(n + 1). The C type `int` of the source is a value of this type in its range.
pub data ℤ : Type 0 where
  pos : ℕ → ℤ
  negsuc : ℕ → ℤ

abbrev pub int_beq : ℤ → ℤ → Bool
int_beq (pos a) (pos b) = nat_beq a b
int_beq (negsuc a) (negsuc b) = nat_beq a b
int_beq _ _ = false

pub int_beq_iff : (a b : ℤ) → (int_beq a b ≡ true) ↔ (a ≡ b)
int_beq_iff (pos a) (pos b) = ground arith
int_beq_iff (negsuc a) (negsuc b) = ground arith
int_beq_iff (pos a) (negsuc b) = ground arith
int_beq_iff (negsuc a) (pos b) = ground arith

instance abbrev pub int_eq : EqTest ℤ
int_eq = record { eq = int_beq; eq_iff = int_beq_iff }
