-- ===== src/Origins/Tests.antt =====
-- Signal information on Linux.
use signal_hook.Base.{◌≡◌, ◌≢◌, refl, pos, negsuc, some, none, ◌⊎◌, Option, List, [], ◌∷◌}
use signal_hook.Channel.{Channel}
use signal_hook.Channel.Fifo.{new-Represents}
use signal_hook.Registry.{Siginfo}
use signal_hook.Backend.{with_raw_siginfo}
use signal_hook.Backend.Pending.{drain}
use signal_hook.Origins.Reporting.{Related, Reports, drain-Related}
use signal_hook.Origins.{Header, any_signal, with_origin, Origin, Cause, chld, has_exited, extract}
use signal_hook.Origins.Extraction.{ProcessFits, OfChild, extract_correct}

abbrev linux : Header
linux = record {
  si_kernel = pos 128;
  si_user = pos 0;
  si_tkill = negsuc 5;
  si_queue = negsuc 0;
  si_mesgq = negsuc 2;
  cld_exited = pos 1;
  cld_killed = pos 2;
  cld_dumped = pos 3;
  cld_trapped = pos 4;
  cld_stopped = pos 5;
  cld_continued = pos 6;
  sigchld = pos 17;
}

abbrev child_exit : Siginfo
child_exit = record { si_signo = pos 17; si_code = pos 1; si_pid = pos 321; si_uid = 1000 }

child_exit_origin :
    extract linux child_exit
    ≡ some (record {
      signal = pos 17;
      process = some (record { pid = pos 321; uid = 1000 });
      cause = chld has_exited;
    })
unfolding extract
child_exit_origin = refl

-- Code 1 under another signal is no child's.
other_signal :
    extract linux (record child_exit { si_signo = pos 10 })
    ≡ some (record { signal = pos 10; process = none; cause = Cause.of_unknown })
unfolding extract
other_signal = refl

sigchld_proper : linux.sigchld ≢ any_signal
sigchld_proper e = cc

extract_correct_example :
    (o : Origin) × (extract linux child_exit ≡ some o)
    × (o.signal ≡ pos 17)
    × ProcessFits child_exit o
    × ((OfChild o.cause → ⊥) ⊎ (o.signal ≡ pos 17))
extract_correct_example = extract_correct linux child_exit sigchld_proper

-- A new channel, and none.
abbrev slots : List (Option (Channel Siginfo))
slots = some (new-Represents {T = Siginfo}).0 ∷ none ∷ []

drain-Related_example :
    Related (Reports linux) (drain with_raw_siginfo 3 slots 0) (drain (with_origin linux) 3 slots 0)
drain-Related_example = drain-Related linux sigchld_proper 3 slots 0
