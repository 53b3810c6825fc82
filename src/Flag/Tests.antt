-- ===== src/Flag/Tests.antt =====
-- Two deliveries of SIGINT to a program that is armed.
use signal_hook.Base.{
  ℕ, ◌+◌, ◌<◌, ◌^◌, ◌≡◌, refl, false, none, some, pos, ok, stop, exited, arith, int_eq, true,
}
use signal_hook.VecMap
use signal_hook.VecMap.Spec.{lookup}
use signal_hook.Registry.{Siginfo, World}
use signal_hook.Registry.Handler.{deliver, execute}
use signal_hook.Registry.State.{globals_of, Coherent}
use signal_hook.Registry.Register as Registry
use signal_hook.Registry.Tests.{linux, linux_laws, app, app_foreign}
use signal_hook.Details.{Answers}
use signal_hook.Flag.{Flags, Closure, run_events, register, register_conditional_shutdown}
use signal_hook.Flag.Shutdown.{armed, ready, raise_flag, second_signal_exits}

abbrev world : World linux Closure
world = record { globals = none; os = app }

world-Coherent : Coherent linux (globals_of world.globals) world.os
unfolding lookup
world-Coherent = record {
  ours = λ s slot found. cc;
  others = λ s missing. app_foreign s;
  unique = tt;
  below = λ s slot found. cc;
  distinct = λ s slot found. cc;
}

abbrev answers : Answers
answers = record {
  number = λ n. pos 0;
  einval = pos 22;
  restores = λ s. true;
  libc_raise = λ s. ok (pos 0);
  last_os_error = pos 0;
}

abbrev flags : Flags
flags = record { bools = λ a. false; usizes = λ a. 0 }

abbrev info : Siginfo
info = record { si_signo = pos 2; si_code = pos 0; si_pid = pos 1; si_uid = 0 }

armed_ok :
    (register_conditional_shutdown linux (pos 2) (pos 1) 0 world).result
    ≡ ok (record { signal = pos 2; action = 1 })
unfolding register_conditional_shutdown Registry.register VecMap.contains VecMap.insert
armed_ok = refl

room_left :
    (globals_of (armed answers linux (pos 2) (pos 1) 0 world).globals).data_lock.next_id + 1
    < 2 ^ 128
unfolding register_conditional_shutdown Registry.register VecMap.contains VecMap.insert
room_left = omega arith

ready_ok :
    (register linux (pos 2) 0 (armed answers linux (pos 2) (pos 1) 0 world)).result
    ≡ ok (record { signal = pos 2; action = 2 })
unfolding register register_conditional_shutdown Registry.register VecMap.contains VecMap.insert
ready_ok = refl

nothing_before :
    (i : Siginfo) (u : ℕ) (fl : Flags)
    → run_events answers (deliver linux world (pos 2) (some i) u).events fl ≡ ok fl
unfolding deliver execute run_events
nothing_before i u fl = refl

second_signal_exits_example :
    (run_events answers
        (deliver linux (ready answers linux (pos 2) (pos 1) 0 world) (pos 2) (some info) 0).events
        flags
      ≡ ok (raise_flag flags 0))
    × (run_events answers
          (deliver linux (ready answers linux (pos 2) (pos 1) 0 world) (pos 2) (some info) 0).events
          (raise_flag flags 0)
        ≡ stop (exited (pos 1)))
second_signal_exits_example =
    second_signal_exits answers linux (pos 2) (pos 1) 0 world linux_laws world-Coherent
      (omega arith) room_left (record { signal = pos 2; action = 1 })
      (record { signal = pos 2; action = 2 }) armed_ok ready_ok nothing_before info info 0 0 flags
      refl
