-- ===== src/Registry/Handler.antt =====
-- `Prev::execute`, the handler that the kernel calls, and what the delivery of a signal runs.
use signal_hook.Base.{
  ℕ, ◌&&◌, not, Option, none, some, List, [], ◌∷◌, ◌++◌, map, ℤ, ◌==◌, int_eq, nat_eq, Outcome, ok,
  err, stop, aborted, panicked, bit_and, if◌then◌else◌,
}
use signal_hook.VecMap.{get, values}
use signal_hook.Registry.{Siginfo, Sigaction, Action, Prev, Slot, GlobalData, Libc, World}

-- The calls of user code in a handler, in order.
pub data Event (F : Type 0) : Type 0 where
  called : (fptr : ℕ) (sig : ℤ) → Event F
  called_siginfo : (fptr : ℕ) (sig : ℤ) (info : Option Siginfo) (ucontext : ℕ) → Event F
  ran : Action F → Siginfo → Event F

-- What a handler did, and how it ended.
pub record Handled (F : Type 0) : Type 0 where
  pub events : List (Event F)
  pub result : Outcome (Unit {0})

module _ {F : Type 0} where
  -- `Prev::execute`. The kernel calls a user's handler by the same rule.
  unfoldable pub execute : Libc → Sigaction → ℤ → Option Siginfo → ℕ → List (Event F)
  execute c act sig info ucontext =
      let fptr : ℕ = act.sa_sigaction in
      if not (fptr == 0) && not (fptr == c.sig_dfl) && not (fptr == c.sig_ign)
      then (if bit_and act.sa_flags c.sa_siginfo == 0
          then called fptr sig ∷ []
          else called_siginfo fptr sig info ucontext ∷ [])
      else []

  unfoldable pub run_actions : Slot F → Siginfo → List (Event F)
  run_actions slot info = map (λ a. ran a info) (values slot.actions)

  -- A null pointer for the information ends the process, after the previous handler has run.
  unfoldable pub handle_slot : Libc → Slot F → ℤ → Option Siginfo → ℕ → Handled F
  unfolding execute run_actions
  handle_slot c slot sig none ucontext = record {
    events = execute c slot.prev.info sig none ucontext;
    result = stop aborted;
  }
  handle_slot c slot sig (some info) ucontext = record {
    events = execute c slot.prev.info sig (some info) ucontext ++ run_actions slot info;
    result = ok tt;
  }

  unfoldable pub handle_fallback : Libc → Option Prev → ℤ → Option Siginfo → ℕ → Handled F
  unfolding execute
  handle_fallback c none sig info ucontext = record { events = []; result = ok tt }
  handle_fallback c (some prev) sig info ucontext = record {
    events = if prev.signal == sig then execute c prev.info sig info ucontext else [];
    result = ok tt;
  }

  unfoldable pub handle : Libc → GlobalData F → ℤ → Option Siginfo → ℕ → Handled F
  unfolding handle_slot handle_fallback
  handle c globals sig info ucontext = elim (get globals.data_lock.signals sig) [
    | ok found ↦ elim found [
      | some slot ↦ handle_slot c slot sig info ucontext
      | none ↦ handle_fallback c globals.race_fallback sig info ucontext
    ]
    | err e ↦ record { events = []; result = err e }
    | stop s ↦ record { events = []; result = stop s }
  ]

  -- `handler`, from `GlobalData::get` on.
  unfoldable pub handler : Libc → Option (GlobalData F) → ℤ → Option Siginfo → ℕ → Handled F
  unfolding handle
  handler c none sig info ucontext = record { events = []; result = stop panicked }
  handler c (some globals) sig info ucontext = handle c globals sig info ucontext

-- What a disposition that is not ours does: the default action, or a function of somebody else.
unfoldable pub left_to : {F : Type 0} → Libc → Sigaction → ℤ → Option Siginfo → ℕ → Handled F
unfolding execute
left_to c act sig info ucontext =
    if act.sa_sigaction == c.sig_dfl
    then record { events = []; result = c.default_action sig }
    else record { events = execute c act sig info ucontext; result = ok tt }

-- What the kernel runs at the delivery of a signal: `handler`, or what else is installed.
unfoldable pub deliver : {F : Type 0} (c : Libc) → World c F → ℤ → Option Siginfo → ℕ → Handled F
unfolding handler left_to
deliver c w sig info ucontext =
    if (c.disposition w.os sig).sa_sigaction == c.handler_ptr
    then handler c w.globals sig info ucontext
    else left_to c (c.disposition w.os sig) sig info ucontext

-- What `handler` passes a signal on to once it is installed: what a delivery runs, but for a default
-- action, which is gone then.
unfoldable pub passed_on : {F : Type 0} (c : Libc) → World c F → ℤ → Option Siginfo → ℕ → Handled F
unfolding handler execute
passed_on c w sig info ucontext =
    if (c.disposition w.os sig).sa_sigaction == c.handler_ptr
    then handler c w.globals sig info ucontext
    else record { events = execute c (c.disposition w.os sig) sig info ucontext; result = ok tt }

-- `ErrnoGuard`: the error number at its creation, which its drop puts back.
pub record ErrnoGuard : Type 0 where
  pub saved : ℤ

unfoldable pub new_guard : ℤ → ErrnoGuard
new_guard errno = record { saved = errno }

-- The error number after the drop, whatever it was before.
unfoldable pub drop_guard : ErrnoGuard → ℤ → ℤ
drop_guard guard errno = guard.saved
