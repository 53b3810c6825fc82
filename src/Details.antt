-- ===== src/Details.antt =====
-- src/low_level/signal_details.rs, as compiled for Linux: the table of signals, their names, and the
-- emulation of the default handlers.
pub mod Emulation
mod Tests
use Prim.Native.String.{String}
use signal_hook.Base.{
  ℕ, Bool, true, false, Option, none, some, List, [], ◌∷◌, ◌++◌, ℤ, pos, ◌==◌, int_eq, Outcome,
  negsuc, ◌>>=◌, ok, err, stop, aborted, ◌||◌, if◌then◌else◌,
}

-- The constants of `consts::signal`.
pub data Constant : Type 0 where
  sigabrt sigalrm sigbus sigchld sigcont sigfpe sighup sigill sigint sigio sigkill sigpipe sigprof
        sigquit sigsegv sigstop sigsys sigterm sigtrap sigtstp sigttin sigttou sigurg sigusr1
        sigusr2 sigvtalrm sigwinch sigxcpu sigxfsz :
      Constant

-- `stringify!`
unfoldable pub stringify : Constant → String
stringify sigabrt = "SIGABRT"
stringify sigalrm = "SIGALRM"
stringify sigbus = "SIGBUS"
stringify sigchld = "SIGCHLD"
stringify sigcont = "SIGCONT"
stringify sigfpe = "SIGFPE"
stringify sighup = "SIGHUP"
stringify sigill = "SIGILL"
stringify sigint = "SIGINT"
stringify sigio = "SIGIO"
stringify sigkill = "SIGKILL"
stringify sigpipe = "SIGPIPE"
stringify sigprof = "SIGPROF"
stringify sigquit = "SIGQUIT"
stringify sigsegv = "SIGSEGV"
stringify sigstop = "SIGSTOP"
stringify sigsys = "SIGSYS"
stringify sigterm = "SIGTERM"
stringify sigtrap = "SIGTRAP"
stringify sigtstp = "SIGTSTP"
stringify sigttin = "SIGTTIN"
stringify sigttou = "SIGTTOU"
stringify sigurg = "SIGURG"
stringify sigusr1 = "SIGUSR1"
stringify sigusr2 = "SIGUSR2"
stringify sigvtalrm = "SIGVTALRM"
stringify sigwinch = "SIGWINCH"
stringify sigxcpu = "SIGXCPU"
stringify sigxfsz = "SIGXFSZ"

pub data DefaultKind : Type 0 where
  ignore : DefaultKind
  halt : DefaultKind  -- `Stop`
  term : DefaultKind

pub record Details : Type 0 where
  pub signal : ℤ
  pub name : String
  pub default_kind : DefaultKind

-- The macro `s!`, with the numbers that libc gives the constants.
abbrev pub s : (Constant → ℤ) → Constant → DefaultKind → Details
s number name kind = record { signal = number name; name = stringify name; default_kind = kind }

-- `DETAILS`
abbrev pub details : (Constant → ℤ) → List Details
details number =
    s number sigabrt term
    ∷ s number sigalrm term
    ∷ s number sigbus term
    ∷ s number sigchld ignore
    ∷ s number sigcont ignore
    ∷ s number sigfpe term
    ∷ s number sighup term
    ∷ s number sigill term
    ∷ s number sigint term
    ∷ s number sigio ignore
    ∷ s number sigkill term
    ∷ s number sigpipe term
    ∷ s number sigprof term
    ∷ s number sigquit term
    ∷ s number sigsegv term
    ∷ s number sigstop halt
    ∷ s number sigsys term
    ∷ s number sigterm term
    ∷ s number sigtrap term
    ∷ s number sigtstp halt
    ∷ s number sigttin halt
    ∷ s number sigttou halt
    ∷ s number sigurg ignore
    ∷ s number sigusr1 term
    ∷ s number sigusr2 term
    ∷ s number sigvtalrm term
    ∷ s number sigwinch ignore
    ∷ s number sigxcpu term
    ∷ s number sigxfsz term
    ∷ []

-- `DETAILS.iter().find(|d| d.signal == signal)`
unfoldable pub find_details : ℤ → List Details → Option Details
find_details signal [] = none
find_details signal (d ∷ ds) = if d.signal == signal then some d else find_details signal ds

unfoldable pub signal_name : (Constant → ℤ) → ℤ → Option String
unfolding find_details
signal_name number signal = elim (find_details signal (details number)) [
  | some d ↦ some d.name
  | none ↦ none
]

-- The calls of libc that the emulation makes, in order, ended by its result.
pub data Call : Type 0 where
  restore_default : ℤ → Call
  unblock : ℤ → Call
  raise : ℤ → Call

pub record Emulated : Type 0 where
  pub calls : List Call
  pub result : Outcome (Unit {0})

-- What libc answers: whether `sigaction` succeeds, what its `raise` returns, if it does, and the error
-- number after a failure.
pub record Answers : Type 0 where
  pub number : Constant → ℤ
  pub einval : ℤ
  pub restores : ℤ → Bool
  pub libc_raise : ℤ → Outcome ℤ
  pub last_os_error : ℤ

-- `low_level::raise`
unfoldable pub raised : Answers → ℤ → Outcome (Unit {0})
raised a signal = do
  result ← a.libc_raise signal
  if result == negsuc 0 then err a.last_os_error else ok tt

-- `let _ = low_level::raise(signal)`, and then `abort`.
unfoldable pub then_abort : Outcome (Unit {0}) → Outcome (Unit {0})
then_abort (ok u) = stop aborted
then_abort (err e) = stop aborted
then_abort (stop s) = stop s

unfoldable pub emulate_kind : Answers → ℤ → DefaultKind → Emulated
unfolding then_abort raised
emulate_kind a signal ignore = record { calls = []; result = ok tt }
emulate_kind a signal halt = record {
  calls = raise (a.number sigstop) ∷ [];
  result = raised a (a.number sigstop);
}
emulate_kind a signal term =
    if a.restores signal
    then record {
      calls = restore_default signal ∷ unblock signal ∷ raise signal ∷ [];
      result = then_abort (raised a signal);
    }
    else record { calls = restore_default signal ∷ []; result = stop aborted }

unfoldable pub emulate_default_handler : Answers → ℤ → Emulated
unfolding find_details emulate_kind raised
emulate_default_handler a signal =
    if signal == a.number sigstop || signal == a.number sigkill
    then record { calls = raise signal ∷ []; result = raised a signal }
    else elim (find_details signal (details a.number)) [
      | some d ↦ emulate_kind a signal d.default_kind
      | none ↦ record { calls = []; result = err a.einval }
    ]
