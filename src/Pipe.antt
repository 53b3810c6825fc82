-- ===== src/Pipe.antt =====
-- src/low_level/pipe.rs: a pipe whose reader a signal wakes, made ready so that the wake in a handler
-- cannot block.
pub mod Nonblocking
mod Tests
use signal_hook.Base.{ℕ, ℤ, Option, none, some, Outcome, ok, err, stop, ◌>>=◌, bit_or}
use signal_hook.Registry.{SigId, Libc, World}
use signal_hook.Registry.Proc.{Ran, lift}
use signal_hook.Registry.Register as Registry

pub data WakeMethod : Type 0 where
  send_method : WakeMethod
  write_method : WakeMethod

-- The two sets of flags of a file descriptor, which F_GETFD and F_SETFD or F_GETFL and F_SETFL name.
pub data FlagSet : Type 0 where
  descriptor : FlagSet
  status : FlagSet

pub record Fd : Type 0 where
  pub descriptor_flags : ℕ
  pub status_flags : ℕ

-- The answer to an empty `send`.
pub data Probe : Type 0 where
  returned_zero : Probe
  would_block : Probe
  failed_otherwise : Probe

-- The kernel: `fcntl` to get and to set flags, `none` for -1, and the probe.
pub record FdCalls : Type 0 where
  pub get_flags : Fd → FlagSet → Option ℕ
  pub set_flags : Fd → FlagSet → ℕ → Option Fd
  pub probe : Fd → Probe
  pub last_os_error : ℤ
  pub fd_cloexec : ℕ
  pub o_nonblock : ℕ
  pub msg_nowait : ℕ

-- `Error::last_os_error()` after -1.
abbrev pub check_call {ℓ} : {A : Type ℓ} → FdCalls → Option A → Outcome A
check_call k none = err k.last_os_error
check_call k (some a) = ok a

unfoldable pub add_fcntl_flag : FdCalls → Fd → FlagSet → ℕ → Outcome Fd
add_fcntl_flag k fd set flag = do
  flags ← check_call k (k.get_flags fd set)
  check_call k (k.set_flags fd set (bit_or flags flag))

-- The `match` on the probe.
unfoldable pub choose_method : FdCalls → Fd → Probe → Outcome (Fd × WakeMethod)
unfolding add_fcntl_flag
choose_method k fd returned_zero = ok (fd, send_method)
choose_method k fd would_block = ok (fd, send_method)
choose_method k fd failed_otherwise = do
  fd' ← add_fcntl_flag k fd status k.o_nonblock
  ok (fd', write_method)

unfoldable pub prepare : FdCalls → Fd → Outcome (Fd × WakeMethod)
unfolding add_fcntl_flag choose_method
prepare k pipe = do
  fd ← add_fcntl_flag k pipe descriptor k.fd_cloexec
  choose_method k fd (k.probe fd)

-- `WakeFd`, which the closure owns.
pub record WakeFd : Type 0 where
  pub fd : Fd
  pub method : WakeMethod

-- A call that writes one byte into the pipe.
pub data SysCall : Type 0 where
  write_byte : Fd → SysCall
  send_byte : Fd → (flags : ℕ) → SysCall

-- `wake`, as the call that it makes; `Backend.wake` is what that does to a pipe.
unfoldable pub wake_call : FdCalls → WakeMethod → Fd → SysCall
wake_call k write_method fd = write_byte fd
wake_call k send_method fd = send_byte fd k.msg_nowait

-- `WakeFd::wake`
unfoldable pub wake : FdCalls → WakeFd → SysCall
unfolding wake_call
wake k ready = wake_call k ready.method ready.fd

unfoldable pub register_raw :
    FdCalls → (c : Libc) → ℤ → Fd → World c WakeFd → Ran (World c WakeFd) SigId
unfolding prepare Registry.register
register_raw k c signal pipe w = elim (prepare k pipe) [
  | ok ready ↦ Registry.register c signal (record { fd = ready.0; method = ready.1 }) w
  | err e ↦ lift (err e) w
  | stop s ↦ lift (stop s) w
]
