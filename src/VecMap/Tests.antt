-- ===== src/VecMap/Tests.antt =====
-- Runs of vec_map.rs, with the map's theorems at them.
use signal_hook.Base.{ℕ, false, none, some, List, [], ◌∷◌, ok, ◌≡◌, refl, nat_eq}
use signal_hook.VecMap.{VecMap, new, find, contains, insert, remove}
use signal_hook.VecMap.Spec.{lookup}
use signal_hook.VecMap.History.{Call, inserts, removes, clears, run, Means, after, map_is_function}
use signal_hook.VecMap.Map.{HasUniqueKeys}

abbrev two : VecMap ℕ ℕ
two = record { entries = (5, 50) ∷ (3, 30) ∷ [] }

two-HasUniqueKeys : HasUniqueKeys two.entries
unfolding lookup
two-HasUniqueKeys = (refl, (refl, tt))

find_last : find two 3 ≡ some 1
unfolding find
find_last = refl

insert_overwrites : insert two 5 51 ≡ ok (record { entries = (5, 51) ∷ (3, 30) ∷ [] }, some 50)
unfolding insert
insert_overwrites = refl

insert_appends : insert two 4 40 ≡ ok (record { entries = (5, 50) ∷ (3, 30) ∷ (4, 40) ∷ [] }, none)
unfolding insert
insert_appends = refl

remove_first : remove two 5 ≡ ok (record { entries = (3, 30) ∷ [] }, some 50)
unfolding remove
remove_first = refl

contains_none : contains two 9 ≡ false
unfolding contains
contains_none = refl

abbrev calls : List (Call ℕ ℕ)
calls = inserts 5 50 ∷ inserts 3 30 ∷ removes 5 ∷ inserts 3 31 ∷ clears ∷ inserts 9 90 ∷ []

map_is_function_example :
    (m' : VecMap ℕ ℕ) × (run new calls ≡ ok (m', none ∷ none ∷ some 50 ∷ some 30 ∷ none ∷ []))
    × HasUniqueKeys m'.entries
    × Means m' (after (λ j. none) calls)
map_is_function_example = map_is_function calls
