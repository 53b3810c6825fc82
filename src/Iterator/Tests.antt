-- ===== src/Iterator/Tests.antt =====
-- Runs of the blocking iterators, with their theorems at them.
use signal_hook.Base.{
  zero, suc, ◌<◌, ◌≡◌, refl, Bool, true, false, none, some, List, [], ◌∷◌, pos, ok, All, arith, inr,
  ◌⊎◌,
}
use signal_hook.Registry.{Siginfo}
use signal_hook.Backend.{signal_only, is_closed}
use signal_hook.Backend.Poll.{SignalIterator}
use signal_hook.Backend.Rounds.{Lowered}
use signal_hook.Iterator.{Event, arrives, closes, read_fails, eintr, wait, forever_next}
use signal_hook.Iterator.Reading.{IsPossible, awaited}
use signal_hook.Iterator.Waiting.{Blocks, emptied, wait_answers}
use signal_hook.Iterator.Ways.{Caught, Answers}
use signal_hook.Iterator.Forever.{forever_next_answers}

abbrev info : Siginfo
info = record { si_signo = pos 0; si_code = pos 0; si_pid = pos 1; si_uid = 0 }

-- Three signals, the reader at the end of its scan, and nothing to report.
abbrev idle : SignalIterator Bool
idle = record {
  signals = record {
    slots = false ∷ false ∷ false ∷ [];
    delivery_state = record {
      closed = false;
      poisoned = false;
      registered_signal_ids = none ∷ none ∷ none ∷ [];
    };
    bytes = 0;
  };
  position = 3;
}

idle-Lowered : Lowered idle.signals.slots 0
idle-Lowered zero h e = cc
idle-Lowered (suc zero) h e = cc
idle-Lowered (suc (suc zero)) h e = cc
idle-Lowered (suc (suc (suc i))) h e = cc

idle-Caught : Caught idle
idle-Caught = (omega arith, inr (λ i lt. idle-Lowered i (omega arith)))

abbrev events : List Event
events = read_fails eintr ∷ arrives 2 info ∷ read_fails eintr ∷ arrives 0 info ∷ closes ∷ []

events-IsPossible : All (IsPossible 3) events
events-IsPossible = (refl, (omega arith, (refl, (omega arith, (tt, tt)))))

forever_next_answers_example :
    Answers
      (λ n. some (some n))
      (some none)
      idle
      events
      (forever_next signal_only 1 1 3 events idle)
forever_next_answers_example = forever_next_answers 0 0 0 events idle idle-Caught events-IsPossible

wait_answers_example :
    (((is_closed idle.signals ≡ true) ⊎ (0 < idle.signals.bytes))
      × (wait signal_only 1 events idle.signals ≡ ok (events, emptied idle.signals)))
    ⊎ ((is_closed idle.signals ≡ false)
        × (idle.signals.bytes ≡ 0)
        × Blocks idle.signals (awaited events) (wait signal_only 1 events idle.signals))
wait_answers_example = wait_answers 0 events idle.signals events-IsPossible
