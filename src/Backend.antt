-- ===== src/Backend.antt =====
-- src/iterator/backend.rs and the exfiltrators of src/iterator/exfiltrator/: the slots that the
-- handlers fill, the self-pipe that wakes the reader, and the iterators over what has arrived.
pub mod Wakeup
pub mod Construction
pub mod Adding
pub mod Retry
pub mod Pending
pub mod Queues
pub mod Poll
pub mod Rounds
pub mod Polling
mod Tests
use signal_hook.Base.{
  ℕ, zero, suc, ◌+◌, ◌-◌, ◌^◌, Bool, true, false, Option, none, some, List, [], ◌∷◌, ℤ, pos, negsuc,
  Outcome, ok, err, stop, panicked, ◌>>=◌, ◌>>◌, assert, not, index, length, set, replicate, ltb,
  if◌then◌else◌,
}
use signal_hook.Channel.{Channel}
use signal_hook.Channel
use signal_hook.Registry.{Siginfo, SigId, Libc, World}
use signal_hook.Registry.Register.{register_sigaction}
use signal_hook.Registry.Proc.{Ran}

abbrev pub max_signum : ℕ
max_signum = 128

-- `signal as usize`
abbrev pub as_usize : ℤ → ℕ
as_usize (pos n) = n
as_usize (negsuc n) = 2 ^ 64 - 1 - n

abbrev pub is_negative : ℤ → Bool
is_negative (pos n) = false
is_negative (negsuc n) = true

-- The trait. `init` hands back the slot even where it panics, as it writes before it checks.
pub record Exfiltrator (S O : Type 0) : Type 0 where
  pub default : S
  pub supports_signal : ℤ → Bool
  pub store : S → ℤ → Siginfo → Outcome S
  pub load : S → ℤ → Outcome (S × Option O)
  pub init : S → ℤ → S × Outcome (Unit {0})

-- The storage of `SignalOnly` is an `AtomicBool`.
abbrev load_flag : Bool → ℤ → Bool × Option ℤ
load_flag true signal = (false, some signal)
load_flag false signal = (false, none)

abbrev pub signal_only : Exfiltrator Bool ℤ
signal_only = record {
  default = false;
  supports_signal = λ signal. true;
  store = λ slot signal info. ok true;
  load = λ slot signal. ok (load_flag slot signal);
  init = λ slot signal. (slot, ok tt);
}

-- The storage of `WithRawSiginfo` is a pointer to a channel, null before `init`.
unfoldable pub send_raw : Option (Channel Siginfo) → Siginfo → Outcome (Option (Channel Siginfo))
send_raw none info = ok none
send_raw (some channel) info = do channel' ← Channel.send channel info; ok (some channel')

unfoldable pub recv_raw :
    Option (Channel Siginfo) → Outcome (Option (Channel Siginfo) × Option Siginfo)
recv_raw none = ok (none, none)
recv_raw (some channel) = do (channel', result) ← Channel.recv channel; ok (some channel', result)

-- The swap, and then the assertion that the old pointer was null.
unfoldable pub after_swap : Option (Channel Siginfo) → Outcome (Unit {0})
after_swap none = ok tt
after_swap (some channel) = stop panicked

unfoldable pub init_raw : Option (Channel Siginfo) → Option (Channel Siginfo) × Outcome (Unit {0})
unfolding after_swap
init_raw old = elim (Channel.new {T = Siginfo}) [
  | ok channel ↦ (some channel, after_swap old)
  | err e ↦ (old, err e)
  | stop s ↦ (old, stop s)
]

abbrev pub with_raw_siginfo : Exfiltrator (Option (Channel Siginfo)) Siginfo
with_raw_siginfo = record {
  default = none;
  supports_signal = λ signal. true;
  store = λ slot signal info. send_raw slot info;
  load = λ slot signal. recv_raw slot;
  init = λ slot signal. init_raw slot;
}

-- `poisoned` is of the mutex of `registered_signal_ids`: a thread panicked while it held it.
pub record DeliveryState : Type 0 where
  pub closed : Bool
  pub poisoned : Bool
  pub registered_signal_ids : List (Option SigId)

-- An instance: the slots of `PendingSignals`, the state that its handles share, and the bytes in
-- its self-pipe.
pub record SignalDelivery (S : Type 0) : Type 0 where
  pub slots : List S
  pub delivery_state : DeliveryState
  pub bytes : ℕ

-- What `pipe::wake` does to the pipe, by either method (`Pipe.wake_call`): it adds one byte, which is
-- dropped where the pipe holds `capacity` bytes.
unfoldable pub wake : (capacity : ℕ) → ℕ → ℕ
wake capacity bytes = if ltb bytes capacity then suc bytes else bytes

-- One `recv` of `flush`, into a buffer of 1024 bytes.
unfoldable pub recv_some : ℕ → ℕ
recv_some bytes = bytes - 1024

-- A panic while `registered_signal_ids` is locked.
unfoldable pub poison : {S : Type 0} → SignalDelivery S → SignalDelivery S
poison d = record d { delivery_state = record d.delivery_state { poisoned = true } }

module _ {S O : Type 0} (ex : Exfiltrator S O) where
  -- `PendingSignals::new`, `DeliveryState::new` and an empty pipe.
  abbrev pub new : SignalDelivery S
  new = record {
    slots = replicate max_signum ex.default;
    delivery_state = record {
      closed = false;
      poisoned = false;
      registered_signal_ids = replicate max_signum none;
    };
    bytes = 0;
  }

  -- The closure's `ex.store(slot, signal, act)`.
  unfoldable pub store_slot : List S → ℕ → Siginfo → Outcome (List S)
  store_slot slots signal info = do
    slot ← index slots signal
    slot' ← ex.store slot (pos signal) info
    ok (set slots signal slot')

  -- The closure of `add_signal`, whole.
  unfoldable pub action : ℕ → SignalDelivery S → ℕ → Siginfo → Outcome (SignalDelivery S)
  unfolding store_slot wake
  action capacity d signal info = do
    slots ← store_slot d.slots signal info
    ok (record d { slots = slots; bytes = wake capacity d.bytes })

  -- The body of the loop in `Pending::next`.
  unfoldable pub load_slot : List S → ℕ → Outcome (List S × Option O)
  load_slot slots position = do
    slot ← index slots position
    (slot', result) ← ex.load slot (pos position)
    ok (set slots position slot', result)

  -- The loop, with the slots that are left to visit: the slots, the position, and the result.
  unfoldable pub next_from : ℕ → List S → ℕ → Outcome (List S × ℕ × Option O)
  unfolding load_slot
  next_from zero slots position = ok (slots, position, none)
  next_from (suc left) slots position = do
    (slots', result) ← load_slot slots position
    elim result [
      | some o ↦ ok (slots', position, some o)
      | none ↦ next_from left slots' (position + 1)
    ]

  -- `Pending::next`
  unfoldable pub next : List S → ℕ → Outcome (List S × ℕ × Option O)
  unfolding next_from
  next slots position = next_from (length slots - position) slots position

  -- The assertions of `PendingSignals::add_signal`, and the slot of the signal.
  unfoldable pub check : List S → ℤ → Outcome S
  check slots signal = do
    assert (not (is_negative signal))
    assert (ltb (as_usize signal) max_signum)
    assert (ex.supports_signal signal)
    index slots (as_usize signal)

  -- `PendingSignals::add_signal`: what it leaves, and its result. The closure stands in the registry as
  -- the signal that it captures; `action` is its body.
  unfoldable pub register_slot :
      (c : Libc) → List S → World c ℤ → ℤ → List S × World c ℤ × Outcome SigId
  unfolding check
  register_slot c slots w signal = elim (check slots signal) [
    | ok slot ↦
        let (slot', ended) = ex.init slot signal in
        let slots' = set slots (as_usize signal) slot' in
        elim ended [
          | ok u ↦ let r = register_sigaction c signal signal w in (slots', r.last, r.result)
          | err e ↦ (slots', w, err e)
          | stop s ↦ (slots', w, stop s)
        ]
    | err e ↦ (slots, w, err e)
    | stop s ↦ (slots, w, stop s)
  ]

  -- `Handle::add_signal` under the lock: a panic leaves through the guard.
  unfoldable pub add_locked :
      (c : Libc)
      → SignalDelivery S
      → World c ℤ
      → ℤ
      → SignalDelivery S × World c ℤ × Outcome (Unit {0})
  unfolding register_slot poison
  add_locked c d w signal = elim (index d.delivery_state.registered_signal_ids (as_usize signal)) [
    | ok known ↦ elim known [
      | some id ↦ (d, w, ok tt)
      | none ↦
          let (slots, w', added) = register_slot c d.slots w signal in
          elim added [
            | ok id ↦
                let ids = set d.delivery_state.registered_signal_ids (as_usize signal) (some id) in
                let state : DeliveryState = record d.delivery_state {
                  registered_signal_ids = ids;
                } in
                (record d { slots = slots; delivery_state = state }, w', ok tt)
            | err e ↦ (record d { slots = slots }, w', err e)
            | stop s ↦ (poison (record d { slots = slots }), w', stop s)
          ]
    ]
    | err e ↦ (d, w, err e)
    | stop s ↦ (poison d, w, stop s)
  ]

  -- `Handle::add_signal`, with the `lock().unwrap()`.
  unfoldable pub add_signal :
      (c : Libc)
      → SignalDelivery S
      → World c ℤ
      → ℤ
      → SignalDelivery S × World c ℤ × Outcome (Unit {0})
  unfolding add_locked
  add_signal c d w signal =
      if d.delivery_state.poisoned then (d, w, stop panicked) else add_locked c d w signal

module _ {S : Type 0} where
  -- `Handle::close`
  unfoldable pub close : ℕ → SignalDelivery S → SignalDelivery S
  unfolding wake
  close capacity d =
      let state : DeliveryState = record d.delivery_state { closed = true } in
      record d { delivery_state = state; bytes = wake capacity d.bytes }

  -- `Handle::is_closed`
  abbrev pub is_closed : SignalDelivery S → Bool
  is_closed d = d.delivery_state.closed
