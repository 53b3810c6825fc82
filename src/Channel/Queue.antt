-- ===== src/Channel/Queue.antt =====
-- A word of channel.rs as the list of the slot numbers in it, first to leave first.
use signal_hook.Base.{
  ℕ, zero, suc, ◌+◌, ◌*◌, ◌/◌, ◌%◌, ◌^◌, ◌≤◌, ◌<◌, ◌≡◌, refl, bit_and, bit_or, none, some, List, [],
  ◌∷◌, ◌++◌, ok, stop, panicked, nat_eq, length, All, arith, ap, ◌∙◌,
}
use signal_hook.Channel.{slots, get, set, find_empty, enqueue, dequeue}
use signal_hook.Channel.Bits.{and_octal, clear_or, clear_or_octal, clear_or_zero}

abbrev pub encode : List ℕ → ℕ
encode [] = 0
encode (x ∷ xs) = x + 8 * encode xs

-- A slot number is not zero and fits three bits.
abbrev pub IsDigit : ℕ → Type 0
IsDigit x = (0 < x) × (x < 8)

-- A mask of three ones for each digit, with `m` above them; and a digit above as many.
abbrev ones : ℕ → ℕ → ℕ
ones zero m = m
ones (suc k) m = 7 + 8 * ones k m

abbrev above : ℕ → ℕ → ℕ
above zero v = v
above (suc k) v = 8 * above k v

-- Written over a mask that clears the next digit, `v` becomes the last entry.
write_last :
    (xs : List ℕ) (m v : ℕ)
    → All IsDigit xs
    → clear_or (encode xs) (ones (length xs) m) (above (length xs) v) ≡ encode (xs ++ v ∷ [])
write_last [] m v d = clear_or_zero m v ∙ omega arith
write_last (x ∷ xs) m v d =
    clear_or_octal x (encode xs) (ones (length xs) m) (above (length xs) v) (omega (arith, d.0))
    ∙ ap (λ r. x + 8 * r) (write_last xs m v d.1)

-- `set` at each of the five places.
set_places :
    (n v : ℕ)
    → v < 8
    → (set n 0 v ≡ clear_or n (ones 0 65528) (above 0 v))
      × (set n 1 v ≡ clear_or n (ones 1 8184) (above 1 v))
      × (set n 2 v ≡ clear_or n (ones 2 1016) (above 2 v))
      × (set n 3 v ≡ clear_or n (ones 3 120) (above 3 v))
      × (set n 4 v ≡ clear_or n (ones 4 8) (above 4 v))
unfolding set
set_places n v h = (
  at _ (omega arith),
  at _ (omega arith),
  at _ (omega arith),
  at _ (omega arith),
  at _ (omega arith),
)
  where
    at : (m : ℕ) {x y : ℕ} → x ≡ y → bit_or (bit_and n m) x ≡ clear_or n m y
    at m e = ap (λ z. bit_or (bit_and n m) z) e

get_places :
    (n : ℕ)
    → (get n 0 ≡ n % 8)
      × (get n 1 ≡ n / 8 % 8)
      × (get n 2 ≡ n / 64 % 8)
      × (get n 3 ≡ n / 512 % 8)
      × (get n 4 ≡ n / 4096 % 8)
unfolding get
get_places n = (
  and_octal (n / 1) ∙ omega arith,
  and_octal (n / 8),
  and_octal (n / 64),
  and_octal (n / 512),
  and_octal (n / 4096),
)

-- The first empty place is behind the last entry.
find_empty-encode :
    (xs : List ℕ)
    → All IsDigit xs
    → length xs < slots
    → find_empty (encode xs) 0 slots ≡ some (length xs)
unfolding find_empty
find_empty-encode [] d h = ground (arith, get_places (encode []))
find_empty-encode (a ∷ []) d h = ground (arith, get_places (encode (a ∷ [])))
find_empty-encode (a ∷ b ∷ []) d h = ground (arith, get_places (encode (a ∷ b ∷ [])))
find_empty-encode (a ∷ b ∷ c ∷ []) d h = ground (arith, get_places (encode (a ∷ b ∷ c ∷ [])))
find_empty-encode (a ∷ b ∷ c ∷ e ∷ []) d h =
    ground (arith, get_places (encode (a ∷ b ∷ c ∷ e ∷ [])))
find_empty-encode (a ∷ b ∷ c ∷ e ∷ f ∷ rest) d h = absurd (omega arith)

set-encode :
    (xs : List ℕ) (v : ℕ)
    → All IsDigit xs
    → v < 8
    → length xs < slots
    → set (encode xs) (length xs) v ≡ encode (xs ++ v ∷ [])
set-encode [] v d p h = (set_places (encode []) v p).0 ∙ write_last [] 65528 v d
set-encode (a ∷ []) v d p h = (set_places (encode (a ∷ [])) v p).1 ∙ write_last (a ∷ []) 8184 v d
set-encode (a ∷ b ∷ []) v d p h =
    (set_places (encode (a ∷ b ∷ [])) v p).2 ∙ write_last (a ∷ b ∷ []) 1016 v d
set-encode (a ∷ b ∷ c ∷ []) v d p h =
    (set_places (encode (a ∷ b ∷ c ∷ [])) v p).3 ∙ write_last (a ∷ b ∷ c ∷ []) 120 v d
set-encode (a ∷ b ∷ c ∷ e ∷ []) v d p h =
    (set_places (encode (a ∷ b ∷ c ∷ e ∷ [])) v p).4 ∙ write_last (a ∷ b ∷ c ∷ e ∷ []) 8 v d
set-encode (a ∷ b ∷ c ∷ e ∷ f ∷ rest) v d p h = absurd (omega arith)

-- A round of `enqueue` stores the queue with the number behind the others.
pub enqueue-encode :
    (xs : List ℕ) (v : ℕ)
    → All IsDigit xs
    → IsDigit v
    → length xs < slots
    → enqueue (encode xs) v ≡ ok (encode (xs ++ v ∷ []))
unfolding enqueue
enqueue-encode xs v d p h = rw (find_empty-encode xs d h, enqueue) (ap ok (set-encode xs v d p.1 h))

-- With five numbers in the queue `enqueue` panics.
pub enqueue_full :
    (xs : List ℕ) (v : ℕ)
    → All IsDigit xs
    → length xs ≡ slots
    → enqueue (encode xs) v ≡ stop panicked
unfolding enqueue find_empty
enqueue_full (a ∷ b ∷ c ∷ e ∷ f ∷ []) v d h =
    ground (arith, get_places (encode (a ∷ b ∷ c ∷ e ∷ f ∷ [])))
enqueue_full (a ∷ b ∷ c ∷ e ∷ f ∷ g ∷ rest) v d h = absurd (omega arith)
enqueue_full _ v d h = absurd (omega arith)

pub dequeue_nil : dequeue (encode []) ≡ none
unfolding dequeue
dequeue_nil = refl

-- A round of `dequeue` takes the first number out.
pub dequeue_cons :
    (x : ℕ) (xs : List ℕ) → IsDigit x → dequeue (encode (x ∷ xs)) ≡ some (x, encode xs)
unfolding dequeue
dequeue_cons x xs d = ground (arith, and_octal (encode (x ∷ xs)))

-- Every queue fits the 16 bits.
pub encode-lt : (xs : List ℕ) → All IsDigit xs → length xs ≤ slots → encode xs < 2 ^ 15
encode-lt [] d h = omega arith
encode-lt (a ∷ []) d h = omega arith
encode-lt (a ∷ b ∷ []) d h = omega arith
encode-lt (a ∷ b ∷ c ∷ []) d h = omega arith
encode-lt (a ∷ b ∷ c ∷ e ∷ []) d h = omega arith
encode-lt (a ∷ b ∷ c ∷ e ∷ f ∷ []) d h = omega arith
encode-lt (a ∷ b ∷ c ∷ e ∷ f ∷ g ∷ rest) d h = absurd (omega arith)

-- Two queues with the same word are the same.
pub encode-injective :
    (xs ys : List ℕ) → All IsDigit xs → All IsDigit ys → encode xs ≡ encode ys → xs ≡ ys
encode-injective [] [] d e h = refl
encode-injective [] (y ∷ ys) d e h = absurd (omega arith)
encode-injective (x ∷ xs) [] d e h = absurd (omega arith)
encode-injective (x ∷ xs) (y ∷ ys) d e h =
    let head : x ≡ y = omega arith in
    let tail = encode-injective xs ys d.1 e.1 (omega arith) in ground arith
