-- ===== src/Registry/Windows/Tests.antt =====
-- Two signals on a small C runtime, in turn.
use signal_hook.Base.{
  ℕ, ◌%◌, ◌≡◌, refl, none, some, [], ◌∷◌, ℤ, pos, ◌==◌, int_eq, stop, aborted, if◌then◌else◌,
}
use signal_hook.Registry.Windows.{Slot, GlobalData, Crt, deliver_all}

-- SIGFPE is 8, and `signal` does not know the signal 99.
abbrev crt : Crt
crt = record {
  Os = ℤ → ℕ;
  signal = λ os s new.
      if s == pos 99 then (65535, os) else (os s % 65535, λ t. if s == t then new else os t);
  disposition = λ os s. os s % 65535;
  reset = λ os s t. if s == t then (if s == pos 8 then os t else 0) else os t;
  handler_ptr = 4096;
  sig_dfl = 0;
  sig_ign = 1;
  sig_err = 65535;
  sigfpe = pos 8;
}

-- SIGINT (2) was handled before, SIGFPE was not.
abbrev interrupt : Slot ℕ
interrupt = record {
  prev = record { signal = pos 2; info = 8192 };
  actions = record { entries = (1, 77) ∷ (2, 78) ∷ [] };
}

abbrev fault : Slot ℕ
fault = record {
  prev = record { signal = pos 8; info = 0 };
  actions = record { entries = (3, 79) ∷ [] };
}

abbrev globals : GlobalData ℕ
globals = record {
  signals = record { entries = (pos 2, interrupt) ∷ (pos 8, fault) ∷ [] };
  race_fallback = none;
}

abbrev os : ℤ → ℕ
os s = if pos 2 == s then 4096 else if pos 8 == s then 4096 else 0

-- A signal that `signal` does not know ends the process.
unknown_signal : (deliver_all crt (some globals) (λ s. 4096) (pos 99 ∷ [])).result ≡ stop aborted
unfolding deliver_all
unknown_signal = refl
