-- ===== src/Registry/Entry.antt =====
-- What the checked entry points inherit from `register_unchecked_impl`.
use signal_hook.Base.{◌+◌, ◌<◌, ◌^◌, ◌≡◌, ℤ, Outcome, ok, stop, panicked, ap, sym, ◌∙◌, inl, inr}
use signal_hook.Registry.{plain, SigId, Libc, SigactionLaws, World}
use signal_hook.Registry.Proc.{Ran}
use signal_hook.Registry.State.{globals_of, Coherent}
use signal_hook.Registry.Register.{register, register_signal_unchecked}
use signal_hook.Registry.Atomic.{Registered}
use signal_hook.Registry.Registration.{register-Atomic}
use signal_hook.Registry.Guard.{forbidden_guard}

-- A successful `register` has the effect of the registration that it guards.
pub register-Registered :
    {F : Type 0} (c : Libc) (laws : SigactionLaws c) (signal : ℤ) (f : F) (w : World c F)
    (id : SigId)
    → Coherent c (globals_of w.globals) w.os
    → (globals_of w.globals).data_lock.next_id + 1 < 2 ^ 128
    → (register c signal f w).result ≡ ok id
    → Registered c signal (plain f) w (register c signal f w).last
      × Coherent c (globals_of (register c signal f w).last.globals) (register c signal f w).last.os
unfolding register_signal_unchecked
register-Registered {F} c laws signal f w id co room success = elim (forbidden_guard c signal f w) [
  | inl (n, there, refused, refused') ↦
      let clash : stop panicked ≡ ok id =
        sym (ap (λ (r : Ran (World c F) SigId). r.result) refused) ∙ success in
      absurd (never id clash)
  | inr (others, same, same') ↦
      let watch = register-Atomic c laws signal (plain f) w co room in
      let done =
        watch.returned id (ap (λ (r : Ran (World c F) SigId). r.result) (sym same) ∙ success) in
      rw same (done.1, done.2)
]
  where
    never : (i : SigId) → ◌≡◌ {A = Outcome SigId} (stop panicked) (ok i) → ⊥
    never i h = cc
