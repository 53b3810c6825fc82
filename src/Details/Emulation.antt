-- ===== src/Details/Emulation.antt =====
-- What the emulation of a default handler does to the rest of the process.
use signal_hook.Base.{
  ◌≡◌, refl, true, List, [], ◌∷◌, ℤ, ◌==◌, int_eq, int_beq_iff, Outcome, ok, err, stop, aborted,
  Stop, ◌||◌, All, inl, inr, ◌⊎◌, Bool-cases, Option-cases,
}
use signal_hook.Details.{
  raised, sigstop, sigkill, DefaultKind, ignore, halt, term, details, find_details, Call,
  restore_default, unblock, raise, Emulated, Answers, then_abort, emulate_kind,
  emulate_default_handler,
}

-- The call leaves every handler as it is.
abbrev pub Harmless : Call → Type 0
Harmless (restore_default s) = ⊥
Harmless (unblock s) = Unit
Harmless (raise s) = Unit

-- The call does not return, or every handler is as it was.
abbrev pub EndsOrKeeps : Emulated → Type 0
EndsOrKeeps e = ((s : Stop) × (e.result ≡ stop s)) ⊎ All Harmless e.calls

-- A signal is raised only where its default is in place: it was restored before, or nobody can
-- replace it.
abbrev pub RaisesDefault : Answers → List Call → Type 0
RaisesDefault a [] = Unit
RaisesDefault a (restore_default s ∷ unblock t ∷ raise u ∷ []) = (s ≡ t) × (s ≡ u)
RaisesDefault a (raise s ∷ []) = (s ≡ a.number sigstop) ⊎ (s ≡ a.number sigkill)
RaisesDefault a (restore_default s ∷ []) = Unit
RaisesDefault a _ = ⊥

then_abort-stop : (o : Outcome (Unit {0})) → (s : Stop) × (then_abort o ≡ stop s)
unfolding then_abort
then_abort-stop (ok u) = (aborted, refl)
then_abort-stop (err e) = (aborted, refl)
then_abort-stop (stop s) = (s, refl)

emulate_kind-safe :
    (a : Answers) (signal : ℤ) (kind : DefaultKind)
    → EndsOrKeeps (emulate_kind a signal kind) × RaisesDefault a (emulate_kind a signal kind).calls
unfolding emulate_kind
emulate_kind-safe a signal ignore = (inr tt, tt)
emulate_kind-safe a signal halt = (inr (tt, tt), inl refl)
emulate_kind-safe a signal term = elim (Bool-cases (a.restores signal)) [
  | inl restored ↦ rw restored (inl (then_abort-stop (raised a signal)), (refl, refl))
  | inr failed ↦ rw failed (inl (aborted, refl), tt)
]

unreplaceable :
    (a : Answers) (signal : ℤ)
    → (signal == a.number sigstop || signal == a.number sigkill) ≡ true
    → (signal ≡ a.number sigstop) ⊎ (signal ≡ a.number sigkill)
unreplaceable a signal h = elim (Bool-cases (signal == a.number sigstop)) [
  | inl first ↦ inl ((int_beq_iff signal (a.number sigstop)).0 first)
  | inr other ↦
      let second : (signal == a.number sigkill) ≡ true = rw other at h in
      inr ((int_beq_iff signal (a.number sigkill)).0 second)
]

-- `emulate_default_handler` of any signal, whatever libc answers: it does not return or leaves
-- every handler as it was; and it raises a signal only after it has restored its default and
-- unblocked it, or if it is SIGSTOP or SIGKILL, which nobody can handle.
pub emulation_safe :
    (a : Answers) (signal : ℤ)
    → EndsOrKeeps (emulate_default_handler a signal)
      × RaisesDefault a (emulate_default_handler a signal).calls
unfolding emulate_default_handler
emulation_safe a signal =
    elim (Bool-cases (signal == a.number sigstop || signal == a.number sigkill)) [
      | inl fixed ↦ rw fixed (inr (tt, tt), unreplaceable a signal fixed)
      | inr other ↦ elim (Option-cases (find_details signal (details a.number))) [
        | inl unknown ↦ rw (other, unknown) (inr tt, tt)
        | inr (d, known) ↦ rw (other, known) (emulate_kind-safe a signal d.default_kind)
      ]
    ]
