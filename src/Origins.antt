-- ===== src/Origins.antt =====
-- src/low_level/siginfo.rs and src/low_level/extract.c: where a signal came from; and the exfiltrator of
-- src/iterator/exfiltrator/origin.rs.
pub mod Extraction
pub mod Reporting
mod Tests
use signal_hook.Base.{
  ℕ, Bool, true, false, ◌&&◌, ◌||◌, Option, none, some, List, [], ◌∷◌, ℤ, pos, negsuc, ◌==◌, int_eq,
  get_elem?, Outcome, ok, ◌>>=◌, if◌then◌else◌,
}
use signal_hook.Registry.{Siginfo}
use signal_hook.Channel.{Channel}
use signal_hook.Backend.{Exfiltrator, with_raw_siginfo}

-- `ICause`, in the order of its discriminants.
pub data Icause : Type 0 where
  unknown kernel user tkill queue mesgq exited killed dumped trapped stopped continued : Icause

abbrev pub discriminants : List Icause
discriminants =
    unknown ∷ kernel ∷ user ∷ tkill ∷ queue ∷ mesgq ∷ exited ∷ killed ∷ dumped ∷ trapped ∷ stopped
    ∷ continued ∷ []

unfoldable pub has_process : Icause → Bool
has_process unknown = false
has_process kernel = false
has_process _ = true

pub record Process : Type 0 where
  pub pid : ℤ
  pub uid : ℕ

pub data Sent : Type 0 where
  by_user by_tkill by_queue by_mesgq : Sent

pub data Chld : Type 0 where
  has_exited was_killed has_dumped was_trapped was_stopped was_continued : Chld

pub data Cause : Type 0 where
  of_unknown : Cause
  of_kernel : Cause
  sent : Sent → Cause
  chld : Chld → Cause

-- `From<ICause> for Cause`
unfoldable pub from : Icause → Cause
from kernel = of_kernel
from user = sent by_user
from tkill = sent by_tkill
from queue = sent by_queue
from mesgq = sent by_mesgq
from exited = chld has_exited
from killed = chld was_killed
from dumped = chld has_dumped
from trapped = chld was_trapped
from stopped = chld was_stopped
from continued = chld was_continued
from unknown = of_unknown

pub record Origin : Type 0 where
  pub signal : ℤ
  pub process : Option Process
  pub cause : Cause

-- `struct Const`
pub record Const : Type 0 where
  pub native : ℤ
  pub signal : ℤ
  pub translated : ℕ

-- The constants of signal.h, on a system that has all of them.
pub record Header : Type 0 where
  pub si_kernel : ℤ
  pub si_user : ℤ
  pub si_tkill : ℤ
  pub si_queue : ℤ
  pub si_mesgq : ℤ
  pub cld_exited : ℤ
  pub cld_killed : ℤ
  pub cld_dumped : ℤ
  pub cld_trapped : ℤ
  pub cld_stopped : ℤ
  pub cld_continued : ℤ
  pub sigchld : ℤ

abbrev pub any_signal : ℤ
any_signal = negsuc 0

abbrev row : ℤ → ℤ → ℕ → Const
row native signal translated = record { native = native; signal = signal; translated = translated }

-- `consts`
unfoldable pub consts : Header → List Const
consts h =
    row h.si_kernel any_signal 1
    ∷ row h.si_user any_signal 2
    ∷ row h.si_tkill any_signal 3
    ∷ row h.si_queue any_signal 4
    ∷ row h.si_mesgq any_signal 5
    ∷ row h.cld_exited h.sigchld 6
    ∷ row h.cld_killed h.sigchld 7
    ∷ row h.cld_dumped h.sigchld 8
    ∷ row h.cld_trapped h.sigchld 9
    ∷ row h.cld_stopped h.sigchld 10
    ∷ row h.cld_continued h.sigchld 11
    ∷ []

-- The test of a row in `sighook_signal_cause`.
abbrev pub applies : Const → Siginfo → Bool
applies r info = r.native == info.si_code && (r.signal == any_signal || r.signal == info.si_signo)

-- Its loop.
unfoldable pub translate : List Const → Siginfo → ℕ
translate [] info = 0
translate (r ∷ rs) info = if applies r info then r.translated else translate rs info

unfoldable pub sighook_signal_cause : Header → Siginfo → ℕ
unfolding consts translate
sighook_signal_cause h info = translate (consts h) info

-- `Process::extract`
unfoldable pub extract_process : Siginfo → Process
extract_process info = record { pid = info.si_pid; uid = info.si_uid }

unfoldable pub origin_of : Icause → Siginfo → Origin
unfolding has_process from extract_process
origin_of cause info = record {
  signal = info.si_signo;
  process = if has_process cause then some (extract_process info) else none;
  cause = from cause;
}

-- `Origin::extract`, outside of macOS. A byte that is no discriminant of `ICause` would be undefined
-- behaviour, here `none`.
unfoldable pub extract : Header → Siginfo → Option Origin
unfolding sighook_signal_cause origin_of
extract h info = elim (get_elem? discriminants (sighook_signal_cause h info)) [
  | some cause ↦ some (origin_of cause info)
  | none ↦ none
]

-- `load` of `WithOrigin`: `map` over what `WithRawSiginfo` loads.
unfoldable pub map_origin : Header → Option Siginfo → Option Origin
unfolding extract
map_origin h none = none
map_origin h (some info) = extract h info

abbrev pub with_origin : Header → Exfiltrator (Option (Channel Siginfo)) Origin
with_origin h = record {
  default = with_raw_siginfo.default;
  supports_signal = with_raw_siginfo.supports_signal;
  store = with_raw_siginfo.store;
  load = λ slot signal. with_raw_siginfo.load slot signal >>= λ r. ok (r.0, map_origin h r.1);
  init = with_raw_siginfo.init;
}
