-- ===== src/Base/Outcomes.antt =====
-- What a Rust function does: it returns, it returns an `std::io::Error`, it panics, or it ends the
-- process. A function that changes shared state is a function from states.
use Prim.Native.Nat.{ℕ, zero, suc, ◌<◌}
use mathlib.Core.Path.{◌≡◌, refl}
use native.Mathlib.Omega.{arith}
use mathlib.Core.Bool.{Bool, true, false}
use mathlib.Core.Option.{Option, none, some}
use mathlib.Core.List.{List, [], ◌∷◌}
use signal_hook.Base.Equality.{ℤ}
use signal_hook.Base.Lists.{length, get_elem?}

-- How a process or a thread stops.
pub data Stop : Type 0 where
  panicked : Stop
  aborted : Stop
  exited : ℤ → Stop
  blocked : Stop  -- in a system call that never returns

pub data Outcome {ℓ} (A : Type ℓ) : Type ℓ where
  ok : A → Outcome A
  err : ℤ → Outcome A  -- `Err`, with the error number of the operating system
  stop : Stop → Outcome A

infixl 5 ◌>>=◌ ◌>>◌
abbrev pub ◌>>=◌ {ℓ κ} : {A : Type ℓ} {B : Type κ} → Outcome A → (A → Outcome B) → Outcome B
ok a >>= f = f a
err e >>= f = err e
stop s >>= f = stop s

abbrev pub ◌>>◌ {ℓ} : {B : Type ℓ} → Outcome (Unit {0}) → Outcome B → Outcome B
m >> k = m >>= λ _. k

-- `assert!`
abbrev pub assert : Bool → Outcome (Unit {0})
assert true = ok tt
assert false = stop panicked

-- `Option::unwrap` and `expect`
abbrev pub unwrap {ℓ} : {A : Type ℓ} → Option A → Outcome A
unwrap (some a) = ok a
unwrap none = stop panicked

-- `v[i]`, which panics out of bounds
abbrev pub index {ℓ} : {A : Type ℓ} → List A → ℕ → Outcome A
index [] i = stop panicked
index (x ∷ xs) zero = ok x
index (x ∷ xs) (suc i) = index xs i

pub index-get_elem? {ℓ} :
    {A : Type ℓ} (xs : List A) (i : ℕ) {a : A} → get_elem? xs i ≡ some a → index xs i ≡ ok a
index-get_elem? [] i h = absurd (cc)
index-get_elem? (x ∷ xs) zero h = cc
index-get_elem? (x ∷ xs) (suc i) h = index-get_elem? xs i h

pub get_elem?_below {ℓ} :
    {A : Type ℓ} (xs : List A) (i : ℕ) → i < length xs → (a : A) × (get_elem? xs i ≡ some a)
get_elem?_below [] i h = elim h [ ]
get_elem?_below (x ∷ xs) zero h = (x, refl)
get_elem?_below (x ∷ xs) (suc i) h = get_elem?_below xs i (omega arith)

-- A result of two calls is one of each.
pub >>=_ok {ℓ κ} :
    {A : Type ℓ} {B : Type κ} (m : Outcome A) (f : A → Outcome B) {b : B}
    → (m >>= f) ≡ ok b
    → (a : A) × (m ≡ ok a) × (f a ≡ ok b)
>>=_ok (ok a) f h = (a, refl, h)
>>=_ok (err e) f h = cc
>>=_ok (stop s) f h = cc
