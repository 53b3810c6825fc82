-- ===== src/Backend/Queues/Arrivals.antt =====
-- What `Pending` of src/iterator/backend.rs reports after a run of handlers.
use signal_hook.Base.{
  ℕ, zero, suc, ◌+◌, ◌<◌, ◌≡◌, refl, some, List, [], ◌∷◌, pos, Outcome, ok, ◌>>=◌, length, set,
  arith, sym, ◌∙◌, get_elem?, get_elem?-set_self, get_elem?-set_ne, index-get_elem?, All,
  Bool-cases, inl, inr, true, false, ◌==◌, nat_eq, nat_beq_iff,
}
use signal_hook.Registry.{Siginfo}
use signal_hook.Registry.Watch.{All-imply}
use signal_hook.Backend.{Exfiltrator, SignalDelivery, store_slot, action, wake}
use signal_hook.Backend.Pending.{drain}
use signal_hook.Backend.Queues.{Queues, Hold, concat, drain-Hold}

-- The closures of `add_signal` run, one after the other.
unfoldable pub run_actions :
    {S O : Type 0}
    → Exfiltrator S O
    → ℕ
    → List (ℕ × Siginfo)
    → SignalDelivery S
    → Outcome (SignalDelivery S)
unfolding action
run_actions ex capacity [] d = ok d
run_actions ex capacity ((signal, info) ∷ arrivals) d =
    action ex capacity d signal info >>= run_actions ex capacity arrivals

module _ {S O : Type 0} (ex : Exfiltrator S O) (q : Queues ex) where
  -- The queues after an arrival of the signal `n` places behind `i`.
  abbrev pub added : ℕ → ℕ → Siginfo → List (List O) → List (List O)
  added i n info [] = []
  added i zero info (os ∷ oss) = q.add i os info ∷ oss
  added i (suc n) info (os ∷ oss) = os ∷ added (suc i) n info oss

  abbrev pub queued : List (ℕ × Siginfo) → List (List O) → List (List O)
  queued [] oss = oss
  queued ((signal, info) ∷ arrivals) oss = queued arrivals (added 0 signal info oss)

  abbrev pub IsUsed : List S → ℕ → Type 0
  IsUsed slots n = (slot : S) × (get_elem? slots n ≡ some slot) × q.InUse slot

  Hold-added :
      (i n : ℕ) (slots : List S) (oss : List (List O)) (info : Siginfo) (slot : S)
      → Hold ex q i slots oss
      → get_elem? slots n ≡ some slot
      → q.InUse slot
      → (slot' : S) × (ex.store slot (pos (i + n)) info ≡ ok slot')
        × Hold ex q i (set slots n slot') (added i n info oss)
        × q.InUse slot'
  Hold-added i n [] oss info slot h there used = cc
  Hold-added i n (s ∷ slots) [] info slot h there used = absurd h
  Hold-added i zero (s ∷ slots) (os ∷ oss) info slot h there used =
      let same : s ≡ slot = cc in
      let here : i + 0 ≡ i = omega arith in
      let (slot', stored, contains, used') = q.stores i slot os info (rw same at h.0) used in
      (slot', rw here stored, (contains, h.1), used')
  Hold-added i (suc n) (s ∷ slots) (os ∷ oss) info slot h there used =
      let (slot', stored, hold, used') = Hold-added (suc i) n slots oss info slot h.1 there used in
      let place : i + suc n ≡ suc i + n = omega arith in
      (slot', rw place stored, (h.0, hold), used')

  module _ (capacity : ℕ) where
    action-Hold :
        (d : SignalDelivery S) (oss : List (List O)) (n : ℕ) (info : Siginfo)
        → Hold ex q 0 d.slots oss
        → IsUsed d.slots n
        → (slot' : S) × (bytes : ℕ) × (action ex capacity d n info
            ≡ ok (record d { slots = set d.slots n slot'; bytes = bytes }))
          × Hold ex q 0 (set d.slots n slot') (added 0 n info oss)
          × q.InUse slot'
    unfolding action store_slot
    action-Hold d oss n info h (slot, there, used) =
        let (slot', stored, hold, used') = Hold-added 0 n d.slots oss info slot h there used in
        let at : 0 + n ≡ n = omega arith in
        (
          slot',
          wake capacity d.bytes,
          rw (index-get_elem? d.slots n there, action, (rw at at stored)) refl,
          hold,
          used',
        )

    still-IsUsed :
        (slots : List S) (n m : ℕ) (slot' : S)
        → IsUsed slots n
        → q.InUse slot'
        → IsUsed slots m
        → IsUsed (set slots n slot') m
    still-IsUsed slots n m slot' (slot, there, used) used' (other, there', used'') =
        elim (Bool-cases (n == m)) [
          | inl hit ↦
              let same : n ≡ m = (nat_beq_iff n m).0 hit in
              (slot', rw (← same) (get_elem?-set_self slots n slot' (place slots n there)), used')
          | inr miss ↦ (
            other,
            get_elem?-set_ne slots slot'
                  (λ e. let clash : true ≡ false = sym ((nat_beq_iff n m).1 e) ∙ miss in cc)
                ∙ there',
            used'',
          )
        ]
      where
        place : (slots : List S) (n : ℕ) → get_elem? slots n ≡ some slot → n < length slots
        place [] n e = cc
        place (s ∷ slots) zero e = omega arith
        place (s ∷ slots) (suc n) e = omega (arith, place slots n e)

    -- Actions that are run one after the other do not panic, and add to the queues.
    run_actions-Hold :
        (arrivals : List (ℕ × Siginfo)) (d : SignalDelivery S) (oss : List (List O))
        → Hold ex q 0 d.slots oss
        → All (λ a. IsUsed d.slots a.0) arrivals
        → (d' : SignalDelivery S) × (run_actions ex capacity arrivals d ≡ ok d')
          × Hold ex q 0 d'.slots (queued arrivals oss)
    unfolding run_actions
    run_actions-Hold [] d oss h used = (d, refl, h)
    run_actions-Hold ((n, info) ∷ arrivals) d oss h used =
        let (slot', bytes, run, hold, used') = action-Hold d oss n info h used.0 in
        let d1 : SignalDelivery S = record d { slots = set d.slots n slot'; bytes = bytes } in
        let (d', run', hold') =
          run_actions-Hold arrivals d1 (added 0 n info oss) hold
            (All-imply arrivals (λ a. still-IsUsed d.slots n a.0 slot' used.0 used') used.1) in
        (d', rw (run, run_actions, run') refl, hold')

    -- What arrives is reported.
    pub arrivals_reported :
        (arrivals : List (ℕ × Siginfo)) (d : SignalDelivery S) (oss : List (List O)) (fuel : ℕ)
        → Hold ex q 0 d.slots oss
        → All (λ a. IsUsed d.slots a.0) arrivals
        → length (concat (queued arrivals oss)) < fuel
        → (d' : SignalDelivery S) × (slots : List S) × (run_actions ex capacity arrivals d ≡ ok d')
          × (drain ex fuel d'.slots 0 ≡ ok (slots, concat (queued arrivals oss)))
    arrivals_reported arrivals d oss fuel h used enough =
        let (d', run, hold) = run_actions-Hold arrivals d oss h used in
        let (slots, drained) = drain-Hold ex q fuel [] d'.slots (queued arrivals oss) hold enough in
        (d', slots, run, drained)
