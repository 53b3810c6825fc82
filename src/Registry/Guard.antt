-- ===== src/Registry/Guard.antt =====
-- The check of `FORBIDDEN` in front of `register` and `register_sigaction`.
use signal_hook.Base.{
  ℕ, zero, suc, ◌≡◌, ◌≢◌, refl, true, false, some, List, [], ◌∷◌, ℤ, ◌==◌, int_eq, int_beq_iff,
  stop, panicked, if◌then◌else◌, All, get_elem?, ap, sym, ◌∙◌, Bool-cases, inl, inr, ◌⊎◌,
}
use signal_hook.Registry.{Libc, World, SigId}
use signal_hook.Registry.Proc.{Ran, lift}
use signal_hook.Registry.Register.{
  forbidden, contains, register, register_sigaction, register_sigaction_impl,
  register_signal_unchecked, register_unchecked,
}

contains_place :
    (signal : ℤ) (ss : List ℤ)
    → contains signal ss ≡ true
    → (n : ℕ) × (get_elem? ss n ≡ some signal)
unfolding contains
contains_place signal [] h = cc
contains_place signal (s ∷ ss) h = elim (Bool-cases (s == signal)) [
  | inl hit ↦ (zero, ap some ((int_beq_iff s signal).0 hit))
  | inr miss ↦
      let later : (if s == signal then true else contains signal ss) ≡ contains signal ss =
        rw miss refl in
      let (n, there) = contains_place signal ss (sym later ∙ h) in (suc n, there)
]

contains_none : (signal : ℤ) (ss : List ℤ) → contains signal ss ≡ false → All (λ s. s ≢ signal) ss
unfolding contains
contains_none signal [] h = tt
contains_none signal (s ∷ ss) h = elim (Bool-cases (s == signal)) [
  | inl hit ↦
      let first : (if s == signal then true else contains signal ss) ≡ true = rw hit refl in
      let e : true ≡ false = sym first ∙ h in cc
  | inr miss ↦
      let later : (if s == signal then true else contains signal ss) ≡ contains signal ss =
        rw miss refl in
      (
        (λ same. let e : true ≡ false = sym ((int_beq_iff s signal).1 same) ∙ miss in cc),
        contains_none signal ss (sym later ∙ h),
      )
]

-- A panic before any write.
abbrev pub refused : {F : Type 0} (c : Libc) → World c F → Ran (World c F) SigId
refused c w = lift (stop panicked) w

-- `register` and `register_sigaction` of any signal: either it is in `FORBIDDEN`, and both panic
-- before any write; or it is not, and both do what their unchecked variants do.
pub forbidden_guard :
    {F : Type 0} (c : Libc) (signal : ℤ) (f : F) (w : World c F)
    → ((n : ℕ) × (get_elem? (forbidden c) n ≡ some signal)
        × (register c signal f w ≡ refused c w)
        × (register_sigaction c signal f w ≡ refused c w))
      ⊎ (All (λ s. s ≢ signal) (forbidden c)
          × (register c signal f w ≡ register_signal_unchecked c signal f w)
          × (register_sigaction c signal f w ≡ register_unchecked c signal f w))
unfolding register register_sigaction register_sigaction_impl register_signal_unchecked
    register_unchecked
forbidden_guard c signal f w = elim (Bool-cases (contains signal (forbidden c))) [
  | inl hit ↦
      let (n, there) = contains_place signal (forbidden c) hit in
      inl (n, there, rw (hit, register) refl, rw (hit, register_sigaction) refl)
  | inr miss ↦ inr (
    contains_none signal (forbidden c) miss,
    rw (miss, register) refl,
    rw (miss, register_sigaction) refl,
  )
]
