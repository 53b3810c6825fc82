-- ===== src/Registry/Tests.antt =====
-- Runs of the registry on a small kernel, with its theorems at them.
use signal_hook.Base.{
  List, ℕ, ◌≡◌, ◌≢◌, refl, true, false, Option, none, some, [], ◌∷◌, ℤ, pos, ◌==◌, int_eq, Outcome,
  ok, err, stop, blocked, exited, Stop, if◌then◌else◌, All, get_elem?, arith, inl, inr, sym, ap,
  ◌∙◌, Bool-cases, ◌⊎◌,
}
use signal_hook.VecMap.{contains, insert}
use signal_hook.VecMap.Spec.{lookup}
use signal_hook.Registry.{
  Siginfo, Sigaction, Action, plain, SigId, Slot, Libc, SigactionLaws, World,
}
use signal_hook.Registry.Handler.{deliver, passed_on}
use signal_hook.Registry.Register.{
  forbidden, register, register_sigaction, register_signal_unchecked, register_unchecked,
  register_unchecked_impl, unregister,
}
use signal_hook.Registry.State.{globals_of, Coherent}
use signal_hook.Registry.Coherence.{Coherent-put}
use signal_hook.Registry.Watch.{Watch}
use signal_hook.Registry.Atomic.{Atomic}
use signal_hook.Registry.Replacing.{Kept}
use signal_hook.Registry.Clearing.{Ways, clearing_is_atomic}
use signal_hook.Registry.Removal.{Removed, removal_is_atomic, removal_of_absent}
use signal_hook.Registry.Undoing.{unregister-register}
use signal_hook.Registry.Model.{Call, registers, unregisters, clears, Model, Agrees, Follows}
use signal_hook.Registry.Agreement.{fresh-Agrees}
use signal_hook.Registry.Refinement.{registry_is_table}
use signal_hook.Registry.Guard.{refused, forbidden_guard}

-- A kernel that is a table of dispositions, below a library that keeps signal 32 for itself.
abbrev pub call : (ℤ → Sigaction) → ℤ → Option Sigaction → Outcome (Sigaction × (ℤ → Sigaction))
call os s none = ok (os s, os)
call os s (some new) =
    if s == pos 32 then err (pos 22) else ok (os s, λ t. if s == t then new else os t)

abbrev pub linux : Libc
linux = record {
  Os = ℤ → Sigaction;
  sigaction = call;
  disposition = λ os s. os s;
  handler_ptr = 4096;
  sig_dfl = 0;
  sig_ign = 1;
  sa_siginfo = 4;
  sa_restart = 268435456;
  sigkill = pos 9;
  sigstop = pos 19;
  sigill = pos 4;
  sigfpe = pos 8;
  sigsegv = pos 11;
  default_action =
      λ s. if s == pos 17 then ok tt else if s == pos 19 then stop blocked else stop (exited s);
}

call_returns :
    (os : ℤ → Sigaction) (s : ℤ) (act : Option Sigaction) (st : Stop) → call os s act ≢ stop st
call_returns os s none st = λ e. cc
call_returns os s (some new) st = elim (Bool-cases (s == pos 32)) [
  | inl hit ↦ rw hit (λ e. cc)
  | inr miss ↦ rw miss (λ e. cc)
]

call_replaces :
    (os : ℤ → Sigaction) (s : ℤ) (new old : Sigaction) (os' : ℤ → Sigaction)
    → call os s (some new) ≡ ok (old, os')
    → (old ≡ os s) × ((t : ℤ) → os' t ≡ (if s == t then new else os t))
call_replaces os s new old os' e = elim (Bool-cases (s == pos 32)) [
  | inl hit ↦
      let failure : call os s (some new) ≡ err (pos 22) = rw hit refl in
      let clash : ◌≡◌ {A = Outcome (Sigaction × (ℤ → Sigaction))} (err (pos 22)) (ok (old, os')) =
        sym failure ∙ e in
      cc
  | inr miss ↦
      let success : call os s (some new) ≡ ok (os s, λ t. if s == t then new else os t) =
        rw miss refl in
      let same : ◌≡◌ {A = Outcome (Sigaction × (ℤ → Sigaction))}
          (ok (os s, λ t. if s == t then new else os t)) (ok (old, os')) =
        sym success ∙ e in
      let fst : os s ≡ old = cc in
      let snd : (λ t. if s == t then new else os t) ≡ os' = cc in
      (sym fst, λ t. ap (λ (f : ℤ → Sigaction). f t) (sym snd))
]

pub linux_laws : SigactionLaws linux
linux_laws = record {
  query =
      λ os s old os' e. let fst : os s ≡ old = cc in let snd : os ≡ os' = cc in (sym fst, sym snd);
  replace = call_replaces;
  returns = call_returns;
}

-- SIGTERM (15) has a handler of the application, nothing else has one.
abbrev pub app : ℤ → Sigaction
app s = record { sa_sigaction = if s == pos 15 then 8192 else 0; sa_flags = 0 }

abbrev start : World linux ℕ
start = record { globals = none; os = app }

pub app_foreign : (s : ℤ) → (app s).sa_sigaction ≢ 4096
app_foreign s = elim (Bool-cases (s == pos 15)) [
  | inl hit ↦ rw hit (λ e. omega arith)
  | inr miss ↦ rw miss (λ e. omega arith)
]

start-Coherent : Coherent linux (globals_of start.globals) start.os
start-Coherent = (fresh-Agrees linux start refl app_foreign).coherent

-- The first action of SIGTERM, behind the application's handler.
abbrev action : Action ℕ
action = plain 77

abbrev after_register : World linux ℕ
after_register = (register_unchecked_impl linux (pos 15) action start).last

abbrev id : SigId
id = record { signal = pos 15; action = 1 }

register_id : (register_unchecked_impl linux (pos 15) action start).result ≡ ok id
unfolding register_unchecked_impl contains insert
register_id = refl

unregister-register_example :
    let r = unregister linux id after_register in
    (r.result ≡ ok true)
    × ((t : ℤ) (i : Siginfo) (u : ℕ)
        → deliver linux r.last t (some i) u ≡ (
            if pos 15 == t
            then passed_on linux start t (some i) u
            else deliver linux start t (some i) u))
unregister-register_example =
    unregister-register linux (pos 15) action start id linux_laws start-Coherent (omega arith)
      register_id

-- A slot with two actions.
abbrev two : Slot ℕ
two = record {
  prev = record { signal = pos 15; info = app (pos 15) };
  actions = record { entries = (1, plain 77) ∷ (2, plain 78) ∷ [] };
}

abbrev installed : World linux ℕ
installed = record {
  globals = some (record {
    data_lock = record { signals = record { entries = (pos 15, two) ∷ [] }; next_id = 3 };
    race_fallback = none;
  });
  os = λ s. if pos 15 == s then record { sa_sigaction = 4096; sa_flags = 268435460 } else app s;
}

installed-Coherent : Coherent linux (globals_of installed.globals) installed.os
unfolding lookup
installed-Coherent =
    Coherent-put linux (globals_of start.globals) start.os (globals_of installed.globals)
      installed.os (pos 15) two start-Coherent (λ t. refl) refl (λ t miss. rw miss refl) (refl, tt)
      (omega arith) (omega arith, (omega arith, tt)) (refl, (refl, tt))

removal_is_atomic_example :
    Watch
      (λ w. Kept linux installed w ⊎ Removed linux id installed two w)
      (λ b w.
        (b ≡ true) × Removed linux id installed two w × Coherent linux (globals_of w.globals) w.os)
      (λ e w. ⊥)
      (unregister linux id installed)
unfolding lookup
removal_is_atomic_example =
    removal_is_atomic linux id installed installed-Coherent two refl (plain 77) refl

removal_of_absent_example :
    Watch
      (Kept linux start)
      (λ b w. (b ≡ false) × Kept linux start w × Coherent linux (globals_of w.globals) w.os)
      (λ e w. ⊥)
      (unregister linux id start)
unfolding lookup
removal_of_absent_example = removal_of_absent linux id start start-Coherent (λ slot found. cc)

forbidden_guard_example :
    ((n : ℕ) × (get_elem? (forbidden linux) n ≡ some (pos 19))
      × (register linux (pos 19) 77 start ≡ refused linux start)
      × (register_sigaction linux (pos 19) 77 start ≡ refused linux start))
    ⊎ (All (λ s. s ≢ pos 19) (forbidden linux)
        × (register linux (pos 19) 77 start ≡ register_signal_unchecked linux (pos 19) 77 start)
        × (register_sigaction linux (pos 19) 77 start ≡ register_unchecked linux (pos 19) 77 start))
forbidden_guard_example = forbidden_guard linux (pos 19) 77 start

clearing_is_atomic_example : Ways linux (pos 15) installed
clearing_is_atomic_example = clearing_is_atomic linux (pos 15) installed installed-Coherent

-- Before any call: nothing but what the application installed.
abbrev no_actions : Model ℕ
no_actions = record { next = 1; table = λ t. []; taken = λ t. false }

start-Agrees : Agrees linux app start no_actions
start-Agrees = fresh-Agrees linux start refl app_foreign

-- Signal 32 is refused, the first identifier comes and goes, and the second goes with all others.
abbrev calls : List (Call ℕ)
calls =
    registers (pos 15) action
    ∷ registers (pos 15) (plain 78)
    ∷ registers (pos 32) action
    ∷ unregisters id
    ∷ unregisters id
    ∷ clears (pos 15)
    ∷ []

registry_is_table_example : Follows linux app calls start no_actions
registry_is_table_example =
    registry_is_table linux app calls start no_actions linux_laws start-Agrees (omega arith)
