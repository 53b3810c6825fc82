-- ===== src/Adapters/Tests.antt =====
-- Polls of the streams on a small socket, with the theorems at them.
use signal_hook.Base.{zero, suc, ◌≡◌, refl, Bool, true, false, none, some, [], ◌∷◌, ℤ, ok, arith}
use signal_hook.Backend.{signal_only}
use signal_hook.Backend.Poll.{SignalIterator, PollResult}
use signal_hook.Backend.Polling.{Fits}
use signal_hook.Adapters.{ready, waiting}
use signal_hook.Adapters.Tokio
use signal_hook.Adapters.AsyncStd
use signal_hook.Adapters.Streams.{polled, tokio_answers, poll_next_answers}

abbrev tokio_read : Tokio.PollRead
tokio_read zero = (waiting, 0)
tokio_read (suc n) = (ready (ok tt), n)

abbrev async_read : AsyncStd.PollRead
async_read zero = (waiting, 0)
async_read (suc n) = (ready (ok 1), n)

-- The second signal arrived, and the scan is past its flag.
abbrev behind : SignalIterator Bool
behind = record {
  signals = record {
    slots = false ∷ true ∷ [];
    delivery_state = record {
      closed = false;
      poisoned = false;
      registered_signal_ids = none ∷ none ∷ [];
    };
    bytes = 1;
  };
  position = 2;
}

tokio_answers_example :
    (it' : SignalIterator Bool) × (r : PollResult ℤ) × (Tokio.poll_next signal_only 2 tokio_read
        behind
      ≡ ok (it', some (polled r)))
    × Fits behind it' r
tokio_answers_example = tokio_answers tokio_read (refl, λ n. refl) behind (omega arith)

poll_next_answers_example :
    (it' : SignalIterator Bool) × (r : PollResult ℤ) × (AsyncStd.poll_next signal_only 2 async_read
        behind
      ≡ ok (it', some (polled r)))
    × Fits behind it' r
poll_next_answers_example = poll_next_answers async_read (refl, λ n. refl) behind (omega arith)
