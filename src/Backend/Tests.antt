-- ===== src/Backend/Tests.antt =====
-- Runs of the iterator's back end, with its theorems at them.
use signal_hook.Base.{
  List, ◌-◌, ◌==◌, nat_eq, if◌then◌else◌, ℕ, zero, suc, ◌≡◌, refl, Bool, true, false, Option, none,
  some, [], ◌∷◌, ℤ, pos, Outcome, ok, err, stop, panicked, index, arith, inl,
}
use signal_hook.VecMap
use signal_hook.Channel
use signal_hook.Channel.{Channel}
use signal_hook.Registry.{Siginfo, SigId, World}
use signal_hook.Registry.Register.{register_sigaction}
use signal_hook.Registry.Tests.{linux, app}
use signal_hook.Backend.{
  signal_only, with_raw_siginfo, SignalDelivery, init_raw, new, wake, recv_some, load_slot,
  store_slot, add_signal,
}
use signal_hook.Backend.Wakeup.{
  System, reading, store, wake_reader, has_signals, flush_end, load_some, load_none, exhausted, Run,
  start, later, Quiet, Covered, no_signal_is_stranded,
}
use signal_hook.Channel.Fifo.{new-Represents}
use signal_hook.Backend.Queues.Arrivals.{run_actions}
use signal_hook.Backend.Queues.Siginfos.{siginfos_reported}
use signal_hook.Backend.Pending.{drain, pending_collects}
use signal_hook.Backend.Poll.{on_bytes, SignalIterator, PollResult, poll_signal}
use signal_hook.Backend.Polling.{Fits, poll_signal_answers}
use signal_hook.Backend.Adding.{add_signal_idempotent}
use signal_hook.Backend.Retry.{failed_add_then_panics}

-- One slot, whose signal arrives while the reader waits.
abbrev waiting : System Bool
waiting = record { slots = false ∷ []; bytes = 0; waking = 0; phase = reading }

abbrev info : Siginfo
info = record { si_signo = pos 0; si_code = pos 0; si_pid = pos 1; si_uid = 0 }

waiting-Covered : Covered signal_only 1 waiting
waiting-Covered zero slot found = let same : false ≡ slot = cc in rw (← same) (inl (false, refl))
waiting-Covered (suc n) slot found = cc

signal_only_reload :
    (slot slot' : Bool) (signal : ℕ)
    → signal_only.load slot (pos signal) ≡ ok (slot', none)
    → Quiet signal_only 1 slot' signal
signal_only_reload true slot' signal e = cc
signal_only_reload false slot' signal e = let same : false ≡ slot' = cc in rw (← same) (false, refl)

delivered : Run signal_only 1 waiting waiting
unfolding store_slot load_slot wake recv_some
delivered =
    later
      (later
        (later
          (later
            (later (later (later start (store 0 info refl)) (wake_reader refl))
              (has_signals refl refl))
            (flush_end refl refl))
          (load_some (pos 0) refl refl))
        (load_none refl refl))
      (exhausted refl (omega arith))

no_signal_is_stranded_example : Quiet signal_only 1 false 0
no_signal_is_stranded_example =
    no_signal_is_stranded signal_only 1 (omega arith) signal_only_reload waiting waiting
      waiting-Covered delivered refl refl refl 0 false refl

pending_collects_example :
    drain signal_only 4 (true ∷ false ∷ true ∷ []) 0
    ≡ ok (false ∷ false ∷ false ∷ [], pos 0 ∷ pos 2 ∷ [])
pending_collects_example = pending_collects (true ∷ false ∷ true ∷ []) 4 (omega arith)

abbrev world : World linux ℤ
world = record { globals = none; os = app }

abbrev added : SignalDelivery Bool × World linux ℤ × Outcome (Unit {0})
added = add_signal signal_only linux (new signal_only) world (pos 15)

added_is : added ≡ (added.0, added.1, ok tt)
unfolding add_signal register_sigaction VecMap.contains VecMap.insert
added_is = refl

add_signal_idempotent_example :
    ((id : SigId) × (index added.0.delivery_state.registered_signal_ids 15 ≡ ok (some id)))
    × (add_signal signal_only linux added.0 added.1 (pos 15) ≡ (added.0, added.1, ok tt))
add_signal_idempotent_example =
    add_signal_idempotent signal_only linux (new signal_only) added.0 world added.1 (pos 15)
      added_is

-- Signal 32 is refused, but its channel is there now.
abbrev refused : SignalDelivery (Option (Channel Siginfo)) × World linux ℤ × Outcome (Unit {0})
refused = add_signal with_raw_siginfo linux (new with_raw_siginfo) world (pos 32)

refused_is : refused ≡ (refused.0, refused.1, err (pos 22))
unfolding add_signal register_sigaction VecMap.contains VecMap.insert Channel.new init_raw
refused_is = refl

failed_add_then_panics_example :
    (refused.0.delivery_state ≡ (new with_raw_siginfo).delivery_state)
    × ((w : World linux ℤ)
        → (add_signal with_raw_siginfo linux refused.0 w (pos 32)).2 ≡ stop panicked)
failed_add_then_panics_example =
    failed_add_then_panics linux (new with_raw_siginfo) refused.0 world refused.1 (pos 32) (pos 22)
      refused_is

-- A read of one byte that does not block.
abbrev read_byte : ℕ → Outcome (Bool × ℕ)
read_byte bytes = if bytes == 0 then ok (false, 0) else ok (true, bytes - 1)

read_byte_woken : (n : ℕ) → read_byte (suc n) ≡ ok (true, n)
read_byte_woken n = ground arith

-- The scan is past the flag that was raised meanwhile.
abbrev behind : SignalIterator Bool
behind = record {
  signals = record {
    slots = false ∷ true ∷ [];
    delivery_state = record {
      closed = false;
      poisoned = false;
      registered_signal_ids = none ∷ none ∷ [];
    };
    bytes = 1;
  };
  position = 2;
}

poll_signal_answers_example :
    (it' : SignalIterator Bool) × (r : PollResult ℤ) × (poll_signal signal_only 2
        (on_bytes read_byte)
        tt
        behind
      ≡ ok (tt, it', some r))
    × Fits behind it' r
poll_signal_answers_example =
    poll_signal_answers read_byte refl read_byte_woken behind (omega arith)

abbrev new_channel : Channel Siginfo
new_channel = (new-Represents {T = Siginfo}).0

-- Two signals with channels, and one without.
abbrev channels : List (Option (Channel Siginfo))
channels = some new_channel ∷ none ∷ some new_channel ∷ []

abbrev listening : SignalDelivery (Option (Channel Siginfo))
listening = record {
  slots = channels;
  delivery_state = record { closed = false; poisoned = false; registered_signal_ids = [] };
  bytes = 0;
}

abbrev sent_by : ℕ → Siginfo
sent_by pid = record { si_signo = pos 2; si_code = pos 0; si_pid = pos pid; si_uid = 0 }

abbrev arrivals : List (ℕ × Siginfo)
arrivals = (2, sent_by 7) ∷ (0, sent_by 8) ∷ (2, sent_by 9) ∷ []

siginfos_reported_example :
    (d' : SignalDelivery (Option (Channel Siginfo))) × (slots : List (Option (Channel Siginfo)))
    × (run_actions with_raw_siginfo 1 arrivals listening ≡ ok d')
    × (drain with_raw_siginfo 4 d'.slots 0 ≡ ok (slots, sent_by 8 ∷ sent_by 7 ∷ sent_by 9 ∷ []))
siginfos_reported_example =
    siginfos_reported 1 arrivals listening ([] ∷ [] ∷ [] ∷ []) 4
      (new-Represents.2, (refl, (new-Represents.2, tt)))
      (
        (some new_channel, refl, tt),
        ((some new_channel, refl, tt), ((some new_channel, refl, tt), tt)),
      )
      (omega arith)
