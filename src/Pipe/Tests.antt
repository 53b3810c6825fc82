-- ===== src/Pipe/Tests.antt =====
-- A pipe, which `send` refuses, behind SIGINT.
use signal_hook.Channel.Bits.{or_low}
use signal_hook.Base.{
  ℕ, Bool, false, ◌==◌, nat_eq, ◌+◌, ◌*◌, ◌/◌, ◌%◌, max, ◌≡◌, refl, pos, some, none, ok, bit_or,
  arith,
}
use signal_hook.VecMap
use signal_hook.VecMap.Spec.{lookup}
use signal_hook.Registry.{plain, World}
use signal_hook.Registry.State.{globals_of, Coherent}
use signal_hook.Registry.Atomic.{Registered}
use signal_hook.Registry.Register as Registry
use signal_hook.Registry.Tests.{linux, linux_laws, app, app_foreign}
use signal_hook.Pipe.{
  FlagSet, descriptor, status, Fd, failed_otherwise, FdCalls, WakeFd, register_raw,
}
use signal_hook.Pipe.Nonblocking.{FcntlLaws, NeverBlocks, register_raw-NeverBlocks}

abbrev get : Fd → FlagSet → ℕ
get fd descriptor = fd.descriptor_flags
get fd status = fd.status_flags

abbrev put : Fd → FlagSet → ℕ → Fd
put fd descriptor f = record fd { descriptor_flags = f }
put fd status f = record fd { status_flags = f }

abbrev calls : FdCalls
calls = record {
  get_flags = λ fd s. some (get fd s);
  set_flags = λ fd s f. some (put fd s f);
  probe = λ fd. failed_otherwise;
  last_os_error = pos 0;
  fd_cloexec = 1;
  o_nonblock = 1;
  msg_nowait = 64;
}

-- In this kernel O_NONBLOCK is the lowest bit.
abbrev can_wait : ℕ → Bool
can_wait flags = flags % 2 == 0

odd : (f : ℕ) → can_wait (bit_or f 1) ≡ false
odd f =
    let low : bit_or f 1 ≡ 2 * bit_or (f / 2) 0 + max (f % 2) 1 = or_low f 1 in
    let one : bit_or f 1 % 2 ≡ 1 = omega (arith, low) in rw one refl

odd_set :
    (fd fd' : Fd) (f : ℕ)
    → calls.set_flags fd status (bit_or f calls.o_nonblock) ≡ some fd'
    → can_wait fd'.status_flags ≡ false
odd_set fd fd' f e =
    let same : record fd { status_flags = bit_or f 1 } ≡ fd' = cc in rw (← same) (odd f)

calls_laws : FcntlLaws calls can_wait
calls_laws = record {
  get_descriptor = λ fd f e. cc;
  get_status = λ fd f e. cc;
  set_descriptor = λ fd fd' f e. cc;
  set_status =
      λ fd fd' f e. let same : record fd { status_flags = f } ≡ fd' = cc in rw (← same) refl;
  set_nonblock = odd_set;
}

abbrev world : World linux WakeFd
world = record { globals = none; os = app }

world-Coherent : Coherent linux (globals_of world.globals) world.os
unfolding lookup
world-Coherent = record {
  ours = λ s slot found. cc;
  others = λ s missing. app_foreign s;
  unique = tt;
  below = λ s slot found. cc;
  distinct = λ s slot found. cc;
}

abbrev pipe : Fd
pipe = record { descriptor_flags = 0; status_flags = 2 }

registered :
    (register_raw calls linux (pos 2) pipe world).result
    ≡ ok (record { signal = pos 2; action = 1 })
unfolding register_raw Registry.register VecMap.contains VecMap.insert
registered = refl

register_raw-NeverBlocks_example :
    (ready : WakeFd) × NeverBlocks calls can_wait calls_laws ready
    × (ready.fd.descriptor_flags ≡ bit_or 0 1)
    × Registered linux
        (pos 2)
        (plain ready)
        world
        (register_raw calls linux (pos 2) pipe world).last
register_raw-NeverBlocks_example =
    register_raw-NeverBlocks calls can_wait calls_laws linux (pos 2) pipe world
      (record { signal = pos 2; action = 1 }) linux_laws world-Coherent (omega arith) registered
