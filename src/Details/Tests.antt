-- ===== src/Details/Tests.antt =====
-- The table with the numbers of Linux on x86-64.
use signal_hook.Base.{ℕ, ◌≡◌, refl, true, none, some, ℤ, pos, ok}
use signal_hook.Details.{
  Constant, sigabrt, sigalrm, sigbus, sigchld, sigcont, sigfpe, sighup, sigill, sigint, sigio,
  sigkill, sigpipe, sigprof, sigquit, sigsegv, sigstop, sigsys, sigterm, sigtrap, sigtstp, sigttin,
  sigttou, sigurg, sigusr1, sigusr2, sigvtalrm, sigwinch, sigxcpu, sigxfsz, signal_name, stringify,
  Answers, emulate_default_handler,
}
use signal_hook.Details.Emulation.{EndsOrKeeps, RaisesDefault, emulation_safe}

abbrev code : Constant → ℕ
code sigabrt = 6
code sigalrm = 14
code sigbus = 7
code sigchld = 17
code sigcont = 18
code sigfpe = 8
code sighup = 1
code sigill = 4
code sigint = 2
code sigio = 29
code sigkill = 9
code sigpipe = 13
code sigprof = 27
code sigquit = 3
code sigsegv = 11
code sigstop = 19
code sigsys = 31
code sigterm = 15
code sigtrap = 5
code sigtstp = 20
code sigttin = 21
code sigttou = 22
code sigurg = 23
code sigusr1 = 10
code sigusr2 = 12
code sigvtalrm = 26
code sigwinch = 28
code sigxcpu = 24
code sigxfsz = 25

abbrev number : Constant → ℤ
number n = pos (code n)

term_name : signal_name number (pos 15) ≡ some "SIGTERM"
unfolding signal_name stringify
term_name = refl

no_name : signal_name number (pos 16) ≡ none
unfolding signal_name
no_name = refl

abbrev answers : Answers
answers = record {
  number = number;
  einval = pos 22;
  restores = λ s. true;
  libc_raise = λ s. ok (pos 0);
  last_os_error = pos 0;
}

emulation_safe_example :
    EndsOrKeeps (emulate_default_handler answers (pos 15))
    × RaisesDefault answers (emulate_default_handler answers (pos 15)).calls
emulation_safe_example = emulation_safe answers (pos 15)
