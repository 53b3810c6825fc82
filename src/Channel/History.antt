-- ===== src/Channel/History.antt =====
-- Any sequence of calls of channel.rs against the queue that it promises to be.
use signal_hook.Base.{◌≡◌, refl, Option, List, [], ◌∷◌, Outcome, ok, ◌>>=◌}
use signal_hook.Channel.{Channel, new, send, recv}
use signal_hook.Channel.Fifo.{
  Represents, push, first, rest, new-Represents, send-Represents, recv-Represents,
}

pub data Call (T : Type 0) : Type 0 where
  sends : T → Call T
  receives : Call T

module _ {T : Type 0} where
  -- The channel after the calls, and what the calls of `recv` returned.
  pub run : Channel T → List (Call T) → Outcome (Channel T × List (Option T))
  run c [] = ok (c, [])
  run c (sends v ∷ calls) = do c' ← send c v; run c' calls
  run c (receives ∷ calls) = do
    (c', got) ← recv c
    (last, gots) ← run c' calls
    ok (last, got ∷ gots)

  -- The values that wait after the calls, and what is received.
  abbrev pub waiting : List T → List (Call T) → List T
  waiting vs [] = vs
  waiting vs (sends v ∷ calls) = waiting (push vs v) calls
  waiting vs (receives ∷ calls) = waiting (rest vs) calls

  abbrev pub received : List T → List (Call T) → List (Option T)
  received vs [] = []
  received vs (sends v ∷ calls) = received (push vs v) calls
  received vs (receives ∷ calls) = first vs ∷ received (rest vs) calls

  run-Represents :
      (c : Channel T) (vs : List T) (calls : List (Call T))
      → Represents c vs
      → (c' : Channel T) × (run c calls ≡ ok (c', received vs calls))
        × Represents c' (waiting vs calls)
  unfolding run
  run-Represents c vs [] r = (c, refl, r)
  run-Represents c vs (sends v ∷ calls) r =
      let (c', e, r') = send-Represents c v r in
      let (last, e', r'') = run-Represents c' (push vs v) calls r' in
      (last, rw (e, run, e') refl, r'')
  run-Represents c vs (receives ∷ calls) r =
      let (c', e, r') = recv-Represents c vs r in
      let (last, e', r'') = run-Represents c' (rest vs) calls r' in
      (last, rw (e, run, e') refl, r'')

  -- From a new channel, any sequence of calls runs without a panic, and each `recv` returns what a
  -- first-in first-out queue of at most five values returns that drops a value when it is full.
  pub channel_is_fifo :
      (calls : List (Call T))
      → (c c' : Channel T) × (new ≡ ok c)
        × (run c calls ≡ ok (c', received [] calls))
        × Represents c' (waiting [] calls)
  channel_is_fifo calls =
      let (c, e, r) = new-Represents in
      let (c', e', r') = run-Represents c [] calls r in (c, c', e, e', r')
