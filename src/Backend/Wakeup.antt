-- ===== src/Backend/Wakeup.antt =====
-- Handlers that store and then wake, against the reader of `SignalIterator`, in any interleaving.
use signal_hook.Base.{
  ℕ, zero, suc, ◌+◌, ◌<◌, ◌≤◌, ◌≡◌, ◌≢◌, true, false, Option, none, some, List, [], ◌∷◌, pos, ok,
  index, length, set, get_elem?, get_elem?-set_self, get_elem?-set_ne, arith, ap, sym, ◌∙◌, inl,
  inr, ◌⊎◌, nat_beq, nat_beq_iff, Bool-cases, >>=_ok,
}
use signal_hook.Registry.{Siginfo}
use signal_hook.Backend.{Exfiltrator, wake, recv_some, store_slot, load_slot}

-- Where the reader is: in `has_signals`, in `flush`, or in `Pending::next` at a position.
pub data Phase : Type 0 where
  reading : Phase
  flushing : Phase
  scanning : ℕ → Phase

-- `waking` counts the handlers between their store and their wake.
pub record System (S : Type 0) : Type 0 where
  pub slots : List S
  pub bytes : ℕ
  pub waking : ℕ
  pub phase : Phase

module _ {S O : Type 0} (ex : Exfiltrator S O) (capacity : ℕ) where
  pub data Step (s : System S) : System S → Type 0 where
    store :
        (signal : ℕ) (info : Siginfo) {slots : List S}
        → store_slot ex s.slots signal info ≡ ok slots
        → Step s (record s { slots = slots; waking = suc s.waking })
    wake_reader :
        {n : ℕ} → s.waking ≡ suc n → Step s (record s { waking = n; bytes = wake capacity s.bytes })
    has_signals :
        {n : ℕ}
        → s.phase ≡ reading
        → s.bytes ≡ suc n
        → Step s (record s { bytes = n; phase = flushing })
    flush_some : s.phase ≡ flushing → 0 < s.bytes → Step s (record s { bytes = recv_some s.bytes })
    flush_end : s.phase ≡ flushing → s.bytes ≡ 0 → Step s (record s { phase = scanning 0 })
    load_some :
        {p : ℕ} {slots : List S} (o : O)
        → s.phase ≡ scanning p
        → load_slot ex s.slots p ≡ ok (slots, some o)
        → Step s (record s { slots = slots })
    load_none :
        {p : ℕ} {slots : List S}
        → s.phase ≡ scanning p
        → load_slot ex s.slots p ≡ ok (slots, none)
        → Step s (record s { slots = slots; phase = scanning (p + 1) })
    exhausted :
        {p : ℕ} → s.phase ≡ scanning p → length s.slots ≤ p → Step s (record s { phase = reading })

  pub data Run (s : System S) : System S → Type 0 where
    start : Run s s
    later : {t u : System S} → Run s t → Step t u → Run s u

  -- Nothing to load.
  abbrev pub Quiet : S → ℕ → Type 0
  Quiet slot signal = (slot' : S) × (ex.load slot (pos signal) ≡ ok (slot', none))

  abbrev Scans : Phase → ℕ → Type 0
  Scans reading signal = ⊥
  Scans flushing signal = Unit
  Scans (scanning p) signal = p ≤ signal

  -- What has arrived in a slot is seen to: by a wake that is coming, a byte, or a scan ahead.
  abbrev pub Covered : System S → Type 0
  Covered s =
      (signal : ℕ) (slot : S)
      → get_elem? s.slots signal ≡ some slot
      → Quiet slot signal ⊎ ((0 < s.waking) ⊎ ((0 < s.bytes) ⊎ Scans s.phase signal))

  index-some : (xs : List S) (i : ℕ) (a : S) → index xs i ≡ ok a → get_elem? xs i ≡ some a
  index-some [] i a h = cc
  index-some (x ∷ xs) zero a h = cc
  index-some (x ∷ xs) (suc i) a h = index-some xs i a h

  get_elem?-lt : (xs : List S) (i : ℕ) (a : S) → get_elem? xs i ≡ some a → i < length xs
  get_elem?-lt [] i a h = cc
  get_elem?-lt (x ∷ xs) zero a h = omega arith
  get_elem?-lt (x ∷ xs) (suc i) a h = omega (arith, get_elem?-lt xs i a h)

  -- What a visit of a slot does.
  load_slot_lem :
      (slots slots' : List S) (p : ℕ) (result : Option O)
      → load_slot ex slots p ≡ ok (slots', result)
      → (slot : S) × (slot' : S) × (get_elem? slots p ≡ some slot)
        × (ex.load slot (pos p) ≡ ok (slot', result))
        × (slots' ≡ set slots p slot')
  unfolding load_slot
  load_slot_lem slots slots' p result h =
      let (slot, there, rest) = >>=_ok (index slots p) _ h in
      let ((slot', r), loaded, same) = >>=_ok (ex.load slot (pos p)) _ rest in
      let first : set slots p slot' ≡ slots' = cc in
      let second : r ≡ result = cc in
      (
        slot,
        slot',
        index-some slots p slot there,
        loaded ∙ ap (λ x. ok (slot', x)) second,
        sym first,
      )

  module _ (room : 0 < capacity)
      (reload : (slot slot' : S) (signal : ℕ)
        → ex.load slot (pos signal) ≡ ok (slot', none)
        → Quiet slot' signal) where
    wake-pos : (bytes : ℕ) → 0 < wake capacity bytes
    unfolding wake
    wake-pos bytes = ground arith

    visited :
        (s : System S) (p : ℕ) (slots : List S) (result : Option O) (phase : Phase)
        → s.phase ≡ scanning p
        → load_slot ex s.slots p ≡ ok (slots, result)
        → ((slot' : S) → get_elem? slots p ≡ some slot' → Quiet slot' p ⊎ Scans phase p)
        → ((signal : ℕ) → p ≢ signal → p ≤ signal → Scans phase signal)
        → Covered s
        → Covered (record s { slots = slots; phase = phase })
    visited s p slots result phase phase_is loaded here onward covered signal slot found =
        let (old, new, there, run, same) = load_slot_lem s.slots slots p result loaded in
        elim (Bool-cases (nat_beq p signal)) [
          | inl hit ↦
              let eq : p ≡ signal = (nat_beq_iff p signal).0 hit in
              rw (← eq) (elim (here slot (rw eq found)) [
                | inl quiet ↦ inl quiet
                | inr ahead ↦ inr (inr (inr ahead))
              ])
          | inr miss ↦
              let ne : p ≢ signal =
                λ e. let t : true ≡ false = sym ((nat_beq_iff p signal).1 e) ∙ miss in cc in
              let before : get_elem? s.slots signal ≡ some slot =
                sym (get_elem?-set_ne s.slots new ne)
                ∙ ap (λ xs. get_elem? xs signal) (sym same)
                ∙ found in
              elim (covered signal slot before) [
                | inl quiet ↦ inl quiet
                | inr (inl h) ↦ inr (inl h)
                | inr (inr (inl h)) ↦ inr (inr (inl h))
                | inr (inr (inr ahead)) ↦
                    let le : p ≤ signal = rw phase_is at ahead in
                    inr (inr (inr (onward signal ne le)))
              ]
        ]

    Step-Covered : (s t : System S) → Step s t → Covered s → Covered t
    Step-Covered s t (store sig info stored) covered = λ signal slot found. inr (inl (omega arith))
    Step-Covered s t (wake_reader coming) covered =
        λ signal slot found. inr (inr (inl (wake-pos s.bytes)))
    Step-Covered s t (has_signals phase_is full) covered = λ signal slot found. inr (inr (inr tt))
    Step-Covered s t (flush_some phase_is full) covered =
        λ signal slot found. inr (inr (inr (rw phase_is tt)))
    Step-Covered s t (flush_end phase_is drained) covered =
        λ signal slot found. inr (inr (inr (omega arith)))
    Step-Covered s t (load_some {p} {slots} o phase_is loaded) covered =
        visited s p slots (some o) s.phase phase_is loaded
          (λ slot' there. inr (rw phase_is (omega arith))) (λ signal ne le. rw phase_is le) covered
    Step-Covered s t (load_none {p} {slots} phase_is loaded) covered =
        let (old, new, there, run, same) = load_slot_lem s.slots slots p none loaded in
        visited s p slots none (scanning (p + 1)) phase_is loaded
          (λ slot' found.
            let now : get_elem? slots p ≡ some new =
              ap (λ xs. get_elem? xs p) same
              ∙ get_elem?-set_self s.slots p new (get_elem?-lt s.slots p old there) in
            let eq : some new ≡ some slot' = sym now ∙ found in
            let eq' : new ≡ slot' = cc in inl (rw (← eq') (reload old new p run)))
          (λ signal ne le. omega (arith, ne)) covered
    Step-Covered s t (exhausted {p} phase_is past) covered = λ signal slot found.
        let lt : signal < length s.slots = get_elem?-lt s.slots signal slot found in
        elim (covered signal slot found) [
          | inl quiet ↦ inl quiet
          | inr (inl h) ↦ inr (inl h)
          | inr (inr (inl h)) ↦ inr (inr (inl h))
          | inr (inr (inr ahead)) ↦
              let le : p ≤ signal = rw phase_is at ahead in absurd (omega arith)
        ]

    Run-Covered : (s t : System S) → Run s t → Covered s → Covered t
    Run-Covered s t start covered = covered
    Run-Covered s t (later {t = v} run step) covered =
        Step-Covered v t step (Run-Covered s v run covered)

    -- No signal is stranded. The pipe holds at least one byte, and a slot that `load` finds empty is
    -- still empty at the next `load`. From a state where all that has arrived is seen to, in every
    -- interleaving of handlers with the reader: when the reader is in `has_signals`, the pipe is empty
    -- and no handler is between its store and its wake, then every slot is empty.
    pub no_signal_is_stranded :
        (s t : System S)
        → Covered s
        → Run s t
        → t.phase ≡ reading
        → t.bytes ≡ 0
        → t.waking ≡ 0
        → (signal : ℕ) (slot : S) → get_elem? t.slots signal ≡ some slot
        → Quiet slot signal
    no_signal_is_stranded s t covered run phase_is empty still signal slot found =
        elim (Run-Covered s t run covered signal slot found) [
          | inl quiet ↦ quiet
          | inr (inl h) ↦ absurd (omega arith)
          | inr (inr (inl h)) ↦ absurd (omega arith)
          | inr (inr (inr ahead)) ↦ let never : ⊥ = rw phase_is at ahead in absurd never
        ]
