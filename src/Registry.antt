-- ===== src/Registry.antt =====
-- signal-hook-registry/src/lib.rs, as compiled for Unix: the table of signals, the handler that the
-- kernel calls, and how actions come and go. The half-lock makes each `store` one step for the
-- handlers (`HalfLock`), so here a store is a write of the whole value. Its mutex lets one registration
-- run at a time.
pub mod Proc
pub mod Handler
pub mod Tables
pub mod TableLaws
pub mod Register
pub mod State
pub mod Watch
pub mod Coherence
pub mod Atomic
pub mod Stages
pub mod Calls
pub mod Stores
pub mod Registration
pub mod Erasing
pub mod Replacing
pub mod Removal
pub mod Clearing
pub mod Undoing
pub mod Model
pub mod Agreement
pub mod Answers
pub mod Refinement
pub mod Windows
pub mod Guard
pub mod Entry
pub mod Tests
use signal_hook.Base.{
  ℕ, ◌≡◌, ◌≢◌, Bool, true, false, Option, none, some, List, ℤ, ◌==◌, int_eq, Outcome, ok, stop,
  Stop, if◌then◌else◌,
}
use signal_hook.VecMap.{VecMap}

-- The fields of `siginfo_t` that the crates read.
pub record Siginfo : Type 0 where
  pub si_signo : ℤ
  pub si_code : ℤ
  pub si_pid : ℤ
  pub si_uid : ℕ

-- `struct sigaction`: the address of the handler, or one of two small constants, and the flags.
pub record Sigaction : Type 0 where
  pub sa_sigaction : ℕ
  pub sa_flags : ℕ

-- `Arc<Action>`: a closure over the signal information, or one that a wrapper calls without it.
pub data Action (F : Type 0) : Type 0 where
  plain : F → Action F
  informed : F → Action F

pub record SigId : Type 0 where
  pub signal : ℤ
  pub action : ℕ

pub record Prev : Type 0 where
  pub signal : ℤ
  pub info : Sigaction

pub record Slot (F : Type 0) : Type 0 where
  pub prev : Prev
  pub actions : VecMap ℕ (Action F)

pub record SignalData (F : Type 0) : Type 0 where
  pub signals : VecMap ℤ (Slot F)
  pub next_id : ℕ

pub record GlobalData (F : Type 0) : Type 0 where
  pub data_lock : SignalData F
  pub race_fallback : Option Prev

-- The C library and the kernel: the constants, the address of `handler`, and `sigaction`, whose
-- last argument is the null pointer for a query. `disposition` is what the kernel calls, and
-- `default_action` what the default action of a signal does to the process: it may end it.
pub record Libc : Type 1 where
  pub Os : Type 0
  pub sigaction : Os → ℤ → Option Sigaction → Outcome (Sigaction × Os)
  pub disposition : Os → ℤ → Sigaction
  pub handler_ptr : ℕ
  pub sig_dfl : ℕ
  pub sig_ign : ℕ
  pub sa_siginfo : ℕ
  pub sa_restart : ℕ
  pub sigkill : ℤ
  pub sigstop : ℤ
  pub sigill : ℤ
  pub sigfpe : ℤ
  pub sigsegv : ℤ
  pub default_action : ℤ → Outcome (Unit {0})

-- What the manual page of sigaction(2) says: a query changes nothing, a successful call returns the
-- old disposition, and sets that of its own signal alone. `handler` is a function, so its address
-- is none of the small constants. The call returns, with a result or an error.
pub record SigactionLaws (c : Libc) : Type 0 where
  pub query :
      (os : c.Os) (s : ℤ) (old : Sigaction) (os' : c.Os)
      → c.sigaction os s none ≡ ok (old, os')
      → (old ≡ c.disposition os s) × (os' ≡ os)
  pub replace :
      (os : c.Os) (s : ℤ) (new old : Sigaction) (os' : c.Os)
      → c.sigaction os s (some new) ≡ ok (old, os')
      → (old ≡ c.disposition os s)
        × ((t : ℤ) → c.disposition os' t ≡ (if s == t then new else c.disposition os t))
  pub returns :
      (os : c.Os) (s : ℤ) (act : Option Sigaction) (st : Stop) → c.sigaction os s act ≢ stop st

-- The process: the globals, once they are set up, and the kernel's side.
pub record World (c : Libc) (F : Type 0) : Type 0 where
  pub globals : Option (GlobalData F)
  pub os : c.Os
