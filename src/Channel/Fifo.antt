-- ===== src/Channel/Fifo.antt =====
-- channel.rs refines a queue of at most five values that drops what does not fit.
use signal_hook.Base.{
  ℕ, ◌+◌, ◌-◌, ◌<◌, ◌≡◌, refl, true, false, Option, none, some, List, [], ◌∷◌, ◌++◌, ok,
  if◌then◌else◌, nat_eq, length, All, All-append, arith, ap, ◌∙◌, ltb, set as set_elem, length-set,
  get_elem?-set_self, index-get_elem?, get_elem?_below, replicate,
}
use signal_hook.Channel.{Channel, slots, new, send, recv, enqueue, dequeue}
use signal_hook.Channel.Queue.{encode, enqueue-encode, dequeue_cons, dequeue_nil}
use signal_hook.Channel.Slots.{
  occurs, occurs-append, IsSlotNumber, digits_of_slots, length-occurs, Holds, length-Holds,
  Holds-set, Holds-append,
}

module _ {T : Type 0} where
  -- Each slot number is in one of the queues, once, and the full ones hold `vs`.
  pub record Represents (c : Channel T) (vs : List T) : Type 0 where
    empties : List ℕ
    fulls : List ℕ
    empty_is : c.empty ≡ encode empties
    full_is : c.full ≡ encode fulls
    empties_in : All IsSlotNumber empties
    fulls_in : All IsSlotNumber fulls
    once : (x : ℕ) → IsSlotNumber x → occurs x empties + occurs x fulls ≡ 1
    size : length c.storage ≡ slots
    holds : Holds c.storage fulls vs

  -- Between them the queues have five numbers.
  lengths :
      {c : Channel T} {vs : List T} (r : Represents c vs) → length r.empties + length vs ≡ slots
  lengths {c} {vs} r = omega (
    arith,
    length-occurs r.empties r.empties_in,
    length-occurs r.fulls r.fulls_in,
    length-Holds c.storage r.fulls vs r.holds,
    r.once 1 (omega arith),
    r.once 2 (omega arith),
    r.once 3 (omega arith),
    r.once 4 (omega arith),
    r.once 5 (omega arith),
  )

  -- What the channel promises.
  abbrev pub push : List T → T → List T
  push vs v = if ltb (length vs) slots then vs ++ v ∷ [] else vs

  pub new-Represents : (c : Channel T) × (new ≡ ok c) × Represents c []
  unfolding new
  new-Represents = (
    record { storage = replicate slots none; empty = 0o54321; full = 0 },
    refl,
    record {
      empties = 1 ∷ 2 ∷ 3 ∷ 4 ∷ 5 ∷ [];
      fulls = [];
      empty_is = refl;
      full_is = refl;
      empties_in = omega arith;
      fulls_in = tt;
      once = λ x r. ground arith;
      size = refl;
      holds = tt;
    },
  )

  abbrev Sends : Channel T → T → List T → Type 0
  Sends c v vs = (c' : Channel T) × (send c v ≡ ok c') × Represents c' vs

  send_full :
      (c : Channel T) (v : T) {vs : List T} (r : Represents c vs)
      → r.empties ≡ []
      → Sends c v (push vs v)
  unfolding send
  send_full c v {vs} r e =
      let full : ltb (length vs) slots ≡ false = ground (arith, lengths r, ap length e) in
      let out = ap dequeue (r.empty_is ∙ ap encode e) ∙ dequeue_nil in
      (c, rw (out, send) refl, rw full r)

  send_room :
      (c : Channel T) (v : T) {vs : List T} (r : Represents c vs) (x : ℕ) (xs : List ℕ)
      → r.empties ≡ x ∷ xs
      → Sends c v (push vs v)
  unfolding send
  send_room c v {vs} r x xs e =
      let room : ltb (length vs) slots ≡ true = ground (arith, lengths r, ap length e) in
      let here : IsSlotNumber x × All IsSlotNumber xs = rw e at r.empties_in in
      let (old, at) = get_elem?_below c.storage (x - 1) (omega (arith, r.size, here.0)) in
      let out = ap dequeue (r.empty_is ∙ ap encode e) ∙ dequeue_cons x xs (omega (arith, here.0)) in
      let room' : length r.fulls < slots =
        omega (arith, lengths r, ap length e, length-Holds c.storage r.fulls vs r.holds) in
      let into =
        ap (λ q. enqueue q x) r.full_is
        ∙ enqueue-encode r.fulls x (digits_of_slots r.fulls r.fulls_in) (omega (arith, here.0))
            room' in
      let c' : Channel T = record {
        storage = set_elem c.storage (x - 1) (some v);
        empty = encode xs;
        full = encode (r.fulls ++ x ∷ []);
      } in
      (
        c',
        rw (out, send, index-get_elem? c.storage (x - 1) at, into) refl,
        rw room (record {
          empties = xs;
          fulls = r.fulls ++ x ∷ [];
          empty_is = refl;
          full_is = refl;
          empties_in = here.1;
          fulls_in = All-append IsSlotNumber r.fulls (x ∷ []) r.fulls_in (here.0, tt);
          once =
              λ y i. omega (arith, r.once y i, ap (occurs y) e, occurs-append y r.fulls (x ∷ []));
          size = length-set c.storage (x - 1) (some v) ∙ r.size;
          holds =
              Holds-append _ x v r.fulls vs
                (get_elem?-set_self c.storage (x - 1) (some v) (omega (arith, r.size, here.0)))
                (Holds-set c.storage x (some v) r.fulls vs here.0.0
                  (ground (arith, r.once x here.0, ap (occurs x) e)) r.fulls_in r.holds);
        }),
      )

  abbrev pub first : List T → Option T
  first [] = none
  first (v ∷ vs) = some v

  abbrev pub rest : List T → List T
  rest [] = []
  rest (v ∷ vs) = vs

  abbrev Receives : Channel T → List T → Type 0
  Receives c vs = (c' : Channel T) × (recv c ≡ ok (c', first vs)) × Represents c' (rest vs)

  recv_empty : (c : Channel T) (r : Represents c []) → r.fulls ≡ [] → Receives c []
  unfolding recv
  recv_empty c r e =
      let out = ap dequeue (r.full_is ∙ ap encode e) ∙ dequeue_nil in (c, rw (out, recv) refl, r)

  recv_some :
      (c : Channel T) (v : T) (vs : List T) (r : Represents c (v ∷ vs)) (x : ℕ) (xs : List ℕ)
      → r.fulls ≡ x ∷ xs
      → Receives c (v ∷ vs)
  unfolding recv
  recv_some c v vs r x xs e =
      let here : IsSlotNumber x × All IsSlotNumber xs = rw e at r.fulls_in in
      let held : Holds c.storage (x ∷ xs) (v ∷ vs) = rw e at r.holds in
      let out = ap dequeue (r.full_is ∙ ap encode e) ∙ dequeue_cons x xs (omega (arith, here.0)) in
      let into =
        ap (λ q. enqueue q x) r.empty_is
        ∙ enqueue-encode r.empties x (digits_of_slots r.empties r.empties_in)
            (omega (arith, here.0)) (omega (arith, lengths r)) in
      let c' : Channel T = record {
        storage = set_elem c.storage (x - 1) none;
        empty = encode (r.empties ++ x ∷ []);
        full = encode xs;
      } in
      (
        c',
        rw (out, recv, index-get_elem? c.storage (x - 1) held.0, into) refl,
        record {
          empties = r.empties ++ x ∷ [];
          fulls = xs;
          empty_is = refl;
          full_is = refl;
          empties_in = All-append IsSlotNumber r.empties (x ∷ []) r.empties_in (here.0, tt);
          fulls_in = here.1;
          once =
              λ y i. omega (arith, r.once y i, ap (occurs y) e, occurs-append y r.empties (x ∷ []));
          size = length-set c.storage (x - 1) none ∙ r.size;
          holds =
              Holds-set c.storage x none xs vs here.0.0
                (ground (arith, r.once x here.0, ap (occurs x) e)) here.1 held.1;
        },
      )

  -- `send` never panics. It puts the value behind the others, or drops it if there are five.
  pub send-Represents :
      (c : Channel T) (v : T) {vs : List T}
      → Represents c vs
      → (c' : Channel T) × (send c v ≡ ok c') × Represents c' (push vs v)
  send-Represents c v {vs} r = by_list r.empties refl
    where
      by_list : (es : List ℕ) → r.empties ≡ es → Sends c v (push vs v)
      by_list [] e = send_full c v r e
      by_list (x ∷ xs) e = send_room c v r x xs e

  -- `recv` never panics. It takes out the oldest value, or returns `none` if there is no value.
  pub recv-Represents :
      (c : Channel T) (vs : List T)
      → Represents c vs
      → (c' : Channel T) × (recv c ≡ ok (c', first vs)) × Represents c' (rest vs)
  recv-Represents c [] r = by_list r.fulls refl
    where
      by_list : (fs : List ℕ) → r.fulls ≡ fs → Receives c []
      by_list [] e = recv_empty c r e
      by_list (x ∷ xs) e =
          let none_held : Holds c.storage (x ∷ xs) [] = rw e at r.holds in absurd none_held
  recv-Represents c (v ∷ vs) r = by_list r.fulls refl
    where
      by_list : (fs : List ℕ) → r.fulls ≡ fs → Receives c (v ∷ vs)
      by_list [] e = let held : Holds c.storage [] (v ∷ vs) = rw e at r.holds in absurd held
      by_list (x ∷ xs) e = recv_some c v vs r x xs e
