-- ===== src/Registry/Proc.antt =====
-- Code over the process that other threads and handlers can watch: its result, the last state, and
-- each state that its writes made visible.
use signal_hook.Base.{List, [], ◌∷◌, ◌++◌, Outcome, ok, err, stop}

pub record Ran {κ} (W : Type 0) (A : Type κ) : Type κ where
  pub visible : List W
  pub last : W
  pub result : Outcome A

abbrev pub Proc {κ} : Type 0 → Type κ → Type κ
Proc W A = W → Ran W A

module _ {κ} {W : Type 0} where
  -- No write.
  abbrev pub lift : {A : Type κ} → Outcome A → Proc W A
  lift o w = record { visible = []; last = w; result = o }

  abbrev pub pure : {A : Type κ} → A → Proc W A
  pure a = lift (ok a)

module _ {W : Type 0} where
  abbrev pub get_world : Proc W W
  get_world w = record { visible = []; last = w; result = ok w }

  -- A write of shared memory.
  abbrev pub put_world : W → Proc W (Unit {0})
  put_world w' w = record { visible = w' ∷ []; last = w'; result = ok tt }

abbrev pub after {κ} : {W : Type 0} {A : Type κ} → List W → Ran W A → Ran W A
after before r = record r { visible = before ++ r.visible }

infixl 5 ◌>>=◌ ◌>>◌
abbrev pub ◌>>=◌ {κ μ} :
    {W : Type 0} {A : Type κ} {B : Type μ} → Proc W A → (A → Proc W B) → Proc W B
◌>>=◌ m f w =
    let r = m w in
    elim r.result [
      | ok a ↦ after r.visible (f a r.last)
      | err e ↦ record { visible = r.visible; last = r.last; result = err e }
      | stop s ↦ record { visible = r.visible; last = r.last; result = stop s }
    ]

abbrev pub ◌>>◌ {μ} : {W : Type 0} {B : Type μ} → Proc W (Unit {0}) → Proc W B → Proc W B
m >> k = m >>= λ _. k
