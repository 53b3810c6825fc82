-- ===== src/Channel/Tests.antt =====
-- Runs of channel.rs.
use signal_hook.Base.{ℕ, ◌≡◌, refl, some, List, [], ◌∷◌, ok}
use signal_hook.Channel.{Channel, new, get, set}
use signal_hook.Channel.Fifo.{Represents}
use signal_hook.Channel.History.{Call, sends, receives, run, channel_is_fifo}

get-set : (get 0o4321 2 ≡ 3) × (set 0o4321 4 5 ≡ 0o54321)
unfolding get set
get-set = (refl, refl)

-- Six values: the sixth is dropped.
abbrev six : List (Call ℕ)
six = sends 1 ∷ sends 2 ∷ sends 3 ∷ receives ∷ sends 4 ∷ sends 5 ∷ sends 6 ∷ sends 7 ∷ receives ∷ []

channel_is_fifo_example :
    (c c' : Channel ℕ) × (new ≡ ok c)
    × (run c six ≡ ok (c', some 1 ∷ some 2 ∷ []))
    × Represents c' (3 ∷ 4 ∷ 5 ∷ 6 ∷ [])
channel_is_fifo_example = channel_is_fifo six
