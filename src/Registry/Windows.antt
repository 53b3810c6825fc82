-- ===== src/Registry/Windows.antt =====
-- signal-hook-registry/src/lib.rs, as compiled for Windows: `Prev::execute`, and the handler, which
-- installs itself again, since the C runtime takes a handler away before it calls it.
pub mod Rearming
pub mod Tests
use signal_hook.Base.{
  Bool, true, false, ℕ, ◌≡◌, ◌≢◌, ◌&&◌, not, Option, none, some, List, [], ◌∷◌, ◌++◌, map, ℤ, ◌==◌,
  int_eq, nat_eq, Outcome, ok, err, stop, aborted, panicked, if◌then◌else◌,
}
use signal_hook.VecMap.{VecMap, get, values}

-- Here `info` is a `sighandler_t`: the address of the handler, or a small constant.
pub record Prev : Type 0 where
  pub signal : ℤ
  pub info : ℕ

pub record Slot (F : Type 0) : Type 0 where
  pub prev : Prev
  pub actions : VecMap ℕ F

pub record GlobalData (F : Type 0) : Type 0 where
  pub signals : VecMap ℤ (Slot F)
  pub race_fallback : Option Prev

-- The C runtime: its constants, the address of `handler`, and `signal`. `reset` is what it does to
-- its state as a signal comes in, before it calls the handler.
pub record Crt : Type 1 where
  pub Os : Type 0
  pub signal : Os → ℤ → ℕ → ℕ × Os
  pub disposition : Os → ℤ → ℕ
  pub reset : Os → ℤ → Os
  pub handler_ptr : ℕ
  pub sig_dfl : ℕ
  pub sig_ign : ℕ
  pub sig_err : ℕ
  pub sigfpe : ℤ

-- What its documentation says of `signal` and `raise`: a handler that is set without the answer
-- SIG_ERR is that of its own signal alone, and before the handler is called, its signal gets the
-- default one, but for SIGFPE. The handler is a function, whose address is not that constant.
pub record SignalLaws (c : Crt) : Type 0 where
  pub replace :
      (os : c.Os) (s : ℤ) (t : ℤ)
      → (c.signal os s c.handler_ptr).0 ≢ c.sig_err
      → c.disposition (c.signal os s c.handler_ptr).1 t
        ≡ (if s == t then c.handler_ptr else c.disposition os t)
  pub apart : c.handler_ptr ≢ c.sig_dfl
  pub resets :
      (os : c.Os) (s : ℤ) (t : ℤ)
      → c.disposition os s ≡ c.handler_ptr
      → c.disposition (c.reset os s) t ≡ (
          if s == t
          then (if s == c.sigfpe then c.disposition os t else c.sig_dfl)
          else c.disposition os t)

pub data Event (F : Type 0) : Type 0 where
  called : (fptr : ℕ) (sig : ℤ) → Event F
  ran : F → Event F
  defaulted : (sig : ℤ) → Event F  -- the default action

pub record Came (c : Crt) (F : Type 0) : Type 0 where
  pub ours : Bool
  pub events : List (Event F)
  pub os : c.Os

-- What a handler did, how it ended, and the state of the runtime after it.
pub record Handled (c : Crt) (F : Type 0) : Type 0 where
  pub events : List (Event F)
  pub result : Outcome (Unit {0})
  pub os : c.Os

-- The call of `signal` at the start of `handler`.
unfoldable pub rearm : (c : Crt) → c.Os → ℤ → Outcome c.Os
rearm c os sig =
    if sig == c.sigfpe
    then ok os
    else let (old, os') = c.signal os sig c.handler_ptr in
      if old == c.sig_err then stop aborted else ok os'

module _ {F : Type 0} (c : Crt) where
  -- `Prev::execute`
  unfoldable pub execute : ℕ → ℤ → List (Event F)
  execute fptr sig =
      if not (fptr == 0) && not (fptr == c.sig_dfl) && not (fptr == c.sig_ign)
      then called fptr sig ∷ []
      else []

  unfoldable pub handle_slot : Slot F → ℤ → List (Event F)
  unfolding execute
  handle_slot slot sig = execute slot.prev.info sig ++ map ran (values slot.actions)

  unfoldable pub handle_fallback : Option Prev → ℤ → List (Event F)
  unfolding execute
  handle_fallback none sig = []
  handle_fallback (some prev) sig = if sig == prev.signal then execute prev.info sig else []

  -- `handler`, from `GlobalData::get` on.
  unfoldable pub handle : Option (GlobalData F) → c.Os → ℤ → Handled c F
  unfolding handle_slot handle_fallback
  handle none os sig = record { events = []; result = stop panicked; os = os }
  handle (some globals) os sig = elim (get globals.signals sig) [
    | ok found ↦ elim found [
      | some slot ↦ record { events = handle_slot slot sig; result = ok tt; os = os }
      | none ↦ record {
        events = handle_fallback globals.race_fallback sig;
        result = ok tt;
        os = os;
      }
    ]
    | err e ↦ record { events = []; result = err e; os = os }
    | stop s ↦ record { events = []; result = stop s; os = os }
  ]

  unfoldable pub handler : Option (GlobalData F) → c.Os → ℤ → Handled c F
  unfolding rearm handle
  handler globals os sig = elim (rearm c os sig) [
    | ok os' ↦ handle globals os' sig
    | err e ↦ record { events = []; result = err e; os = os }
    | stop s ↦ record { events = []; result = stop s; os = os }
  ]

  -- A signal comes: what the runtime calls, which may be `handler`, and its state by then. Until
  -- `handler` has called `signal`, another signal may come.
  unfoldable pub come : c.Os → ℤ → Came c F
  unfolding execute
  come os sig =
      let fptr = c.disposition os sig in
      if fptr == c.handler_ptr
      then record { ours = true; events = []; os = c.reset os sig }
      else record {
        ours = false;
        events = if fptr == c.sig_dfl then defaulted sig ∷ [] else execute fptr sig;
        os = c.reset os sig;
      }

  -- A signal comes, and what the runtime calls runs to its end before the next one comes.
  unfoldable pub deliver : Option (GlobalData F) → c.Os → ℤ → Handled c F
  unfolding handler come
  deliver globals os sig =
      let a = come os sig in
      if a.ours
      then handler globals a.os sig
      else record { events = a.events; result = ok tt; os = a.os }

  -- A death of the process ends it.
  abbrev pub before : Handled c F → Handled c F → Handled c F
  before h rest = elim h.result [
    | ok u ↦ record rest { events = h.events ++ rest.events }
    | err e ↦ h
    | stop s ↦ h
  ]

  -- One signal after the other.
  unfoldable pub deliver_all : Option (GlobalData F) → c.Os → List ℤ → Handled c F
  unfolding deliver
  deliver_all globals os [] = record { events = []; result = ok tt; os = os }
  deliver_all globals os (sig ∷ sigs) =
      let h = deliver globals os sig in before h (deliver_all globals h.os sigs)
