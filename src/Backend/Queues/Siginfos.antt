-- ===== src/Backend/Queues/Siginfos.antt =====
-- `WithRawSiginfo` of src/iterator/exfiltrator/raw.rs, whose slots are channels.
use signal_hook.Base.{ℕ, ◌<◌, ◌≡◌, refl, Option, none, some, List, [], ok, length, All}
use signal_hook.Channel.{Channel}
use signal_hook.Channel.Fifo.{Represents, push, first, rest, send-Represents, recv-Represents}
use signal_hook.Registry.{Siginfo}
use signal_hook.Backend.{SignalDelivery, with_raw_siginfo, send_raw, recv_raw}
use signal_hook.Backend.Pending.{drain}
use signal_hook.Backend.Queues.{Queues, Hold, concat}
use signal_hook.Backend.Queues.Arrivals.{run_actions, queued, IsUsed, arrivals_reported}

-- A slot without a channel holds nothing.
abbrev pub ChannelHolds : Option (Channel Siginfo) → List Siginfo → Type 0
ChannelHolds none os = os ≡ []
ChannelHolds (some channel) os = Represents channel os

abbrev pub HasChannel : Option (Channel Siginfo) → Type 0
HasChannel none = ⊥
HasChannel (some channel) = Unit

pub loads_raw :
    (slot : Option (Channel Siginfo)) (os : List Siginfo)
    → ChannelHolds slot os
    → (slot' : Option (Channel Siginfo)) × (recv_raw slot ≡ ok (slot', first os))
      × ChannelHolds slot' (rest os)
unfolding recv_raw
loads_raw none os h = (none, rw h refl, rw h refl)
loads_raw (some channel) os h =
    let (channel', e, h') = recv-Represents channel os h in
    (some channel', rw (e, recv_raw) refl, h')

pub stores_raw :
    (slot : Option (Channel Siginfo)) (os : List Siginfo) (info : Siginfo)
    → ChannelHolds slot os
    → HasChannel slot
    → (slot' : Option (Channel Siginfo)) × (send_raw slot info ≡ ok slot')
      × ChannelHolds slot' (push os info)
      × HasChannel slot'
unfolding send_raw
stores_raw none os info h used = absurd used
stores_raw (some channel) os info h used =
    let (channel', e, h') = send-Represents channel info h in
    (some channel', rw (e, send_raw) refl, h', tt)

abbrev pub raw_queues : Queues with_raw_siginfo
raw_queues = record {
  Contains = λ i slot os. ChannelHolds slot os;
  InUse = HasChannel;
  add = λ i os info. push os info;
  loads = λ i slot os h. loads_raw slot os h;
  stores = λ i slot os info h used. stores_raw slot os info h used;
}

-- `WithRawSiginfo`, from the handlers to the iterator. Where the slots hold queues of siginfos and the
-- signals that arrive have channels, the actions of the arrivals do not panic; the calls of
-- `Pending::next` that follow end with `None`, and they report, signal by signal in ascending
-- order, all siginfos of a signal in the order of their arrival, but for those that found five
-- in the queue.
pub siginfos_reported :
    (capacity : ℕ) (arrivals : List (ℕ × Siginfo)) (d : SignalDelivery (Option (Channel Siginfo)))
    (oss : List (List Siginfo)) (fuel : ℕ)
    → Hold with_raw_siginfo raw_queues 0 d.slots oss
    → All (λ a. IsUsed with_raw_siginfo raw_queues d.slots a.0) arrivals
    → length (concat (queued with_raw_siginfo raw_queues arrivals oss)) < fuel
    → (d' : SignalDelivery (Option (Channel Siginfo))) × (slots : List (Option (Channel Siginfo)))
      × (run_actions with_raw_siginfo capacity arrivals d ≡ ok d')
      × (drain with_raw_siginfo fuel d'.slots 0
          ≡ ok (slots, concat (queued with_raw_siginfo raw_queues arrivals oss)))
siginfos_reported capacity arrivals d oss fuel h used enough =
    arrivals_reported with_raw_siginfo raw_queues capacity arrivals d oss fuel h used enough
