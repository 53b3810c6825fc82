-- ===== src/Backend/Construction/Ids.antt =====
-- The vector of identifiers of `DeliveryState` after a registration.
use signal_hook.Base.{
  ℕ, zero, suc, ◌+◌, ◌<◌, ◌≤◌, ◌^◌, ◌≡◌, ◌≢◌, refl, true, false, Option, none, some, List, [], ◌∷◌,
  ℤ, pos, negsuc, ◌==◌, int_eq, nat_eq, int_beq_iff, nat_beq_iff, Outcome, ok, err, stop, index,
  set, length, get_elem?, get_elem?-set_self, get_elem?-set_ne, arith, ap, sym, ◌∙◌, Bool-cases,
  inl, inr, ◌⊎◌,
}
use signal_hook.Registry.{informed, SigId, SignalData, Libc, SigactionLaws, World}
use signal_hook.VecMap.Spec.{lookup}
use signal_hook.Registry.Proc.{Ran}
use signal_hook.Registry.State.{globals_of, Coherent}
use signal_hook.Registry.Register.{register_unchecked_impl}
use signal_hook.Registry.Stages.{Done}
use signal_hook.Registry.Registration.{register-Atomic}
use signal_hook.Backend.{as_usize, is_negative}
use signal_hook.Backend.Construction.Dropping.{Undoable, Mine, Back-same}
use signal_hook.Backend.Construction.Slots.{Reached, Stopped}

abbrev pub next_of : {c : Libc} → World c ℤ → ℕ
next_of w = (globals_of w.globals).data_lock.next_id

as_pos : (signal : ℤ) → is_negative signal ≡ false → signal ≡ pos (as_usize signal)
as_pos (pos n) h = refl
as_pos (negsuc n) h = cc

index_place :
    {A : Type 0} (xs : List A) (i : ℕ) (a : A)
    → index xs i ≡ ok a
    → (get_elem? xs i ≡ some a) × (i < length xs)
index_place [] i a h = cc
index_place (x ∷ xs) zero a h = let same : x ≡ a = cc in (ap some same, omega arith)
index_place (x ∷ xs) (suc i) a h =
    let (there, below) = index_place xs i a h in (there, omega (arith, below))

module _ (c : Libc) (laws : SigactionLaws c) (w0 w : World c ℤ) (ids : List (Option SigId))
    (h : Undoable c w0 w 0 ids) (room : next_of w + 1 < 2 ^ 128) where
  -- The vector serves for another world with the same table.
  Undoable-same :
      (w' : World c ℤ)
      → Coherent c (globals_of w'.globals) w'.os
      → (globals_of w'.globals).data_lock ≡ (globals_of w.globals).data_lock
      → w'.os ≡ w.os
      → Undoable c w0 w' 0 ids
  Undoable-same w' co same os = record {
    coherent = co;
    mine = λ n id there.
        let (base, action, signal_is, found, fresh, before) = h.mine n id there in
        (
          base,
          action,
          signal_is,
          ap (λ (d : SignalData ℤ). lookup (pos (0 + n)) d.signals.entries) same ∙ found,
          fresh,
          before,
        );
    rest = λ t others.
        Back-same c w0 w w' t h.coherent
          (ap (λ (d : SignalData ℤ). lookup t d.signals.entries) same)
          (ap (λ o. c.disposition o t) os) (h.rest t others);
  }

  module _ (n : ℕ) (unknown : get_elem? ids n ≡ some none) (below : n < length ids) where
    abbrev ran_call : Ran (World c ℤ) SigId
    ran_call = register_unchecked_impl c (pos n) (informed (pos n)) w

    -- Nothing that the vector holds is of the signal.
    not_held : (m : ℕ) (id : SigId) → get_elem? ids m ≡ some (some id) → pos (0 + m) ≢ pos n
    not_held m id there e =
        let same : 0 + m ≡ n = cc in
        let same' : m ≡ n = omega (arith, same) in
        let clash : some (some id) ≡ some none = sym there ∙ ap (get_elem? ids) same' ∙ unknown in
        cc

    Undoable-added :
        (id : SigId) (w' : World c ℤ)
        → Done c (pos n) (informed (pos n)) w id w'
        → Undoable c w0 w' 0 (set ids n (some id))
    Undoable-added id w'
          (id_is, registered, co, kernel, (base, found, fresh, before, others, next, entries_are)) =
        record {
          coherent = co;
          mine = held;
          rest = λ t free.
              Back-same c w0 w w' t h.coherent (others t ∙ rw (elsewhere t free) refl)
                (kernel t (elsewhere t free))
                (h.rest t (λ m id' there. free m id' (
                  get_elem?-set_ne ids (some id)
                    (λ same. not_held m id' there (ap pos (omega (arith, same))))
                  ∙ there)));
        }
      where
        elsewhere :
            (t : ℤ)
            → ((m : ℕ) (id' : SigId)
                → get_elem? (set ids n (some id)) m ≡ some (some id')
                → pos (0 + m) ≢ t)
            → (pos n == t) ≡ false
        elsewhere t free = elim (Bool-cases (pos n == t)) [
          | inl hit ↦ absurd (
              free n id (get_elem?-set_self ids n (some id) below)
                (ap pos (omega arith) ∙ (int_beq_iff (pos n) t).0 hit))
          | inr miss ↦ miss
        ]

        held :
            (m : ℕ) (id' : SigId)
            → get_elem? (set ids n (some id)) m ≡ some (some id')
            → Mine c w0 w' id' (pos (0 + m))
        held m id' there = elim (Bool-cases (m == n)) [
          | inl hit ↦
              let at : m ≡ n = (nat_beq_iff m n).0 hit in
              let one : some (some id) ≡ some (some id') =
                sym (get_elem?-set_self ids n (some id) below)
                ∙ ap (get_elem? (set ids n (some id))) (sym at)
                ∙ there in
              let same : id ≡ id' = cc in
              let place : pos (0 + m) ≡ pos n = ap pos (omega (arith, at)) in
              rw (place, ← same, id_is)
                (
                  base,
                  informed (pos n),
                  refl,
                  found,
                  fresh,
                  λ i u. sym ((h.rest (pos n) not_held).1 i u) ∙ before i u,
                )
          | inr miss ↦
              let apart : n ≢ m =
                λ e. let clash : true ≡ false = sym ((nat_beq_iff m n).1 (sym e)) ∙ miss in cc in
              let there' : get_elem? ids m ≡ some (some id') =
                sym (get_elem?-set_ne ids (some id) apart) ∙ there in
              let (base', action', signal_is, found', fresh', before') = h.mine m id' there' in
              (
                base',
                action',
                signal_is,
                others (pos (0 + m)) ∙ rw (other_signal m apart) found',
                fresh',
                before',
              )
        ]
          where
            other_signal : (m : ℕ) → n ≢ m → (pos n == pos (0 + m)) ≡ false
            other_signal m apart = elim (Bool-cases (pos n == pos (0 + m))) [
              | inl hit ↦
                  let e : pos n ≡ pos (0 + m) = (int_beq_iff (pos n) (pos (0 + m))).0 hit in
                  let e' : n ≡ 0 + m = cc in absurd (apart (omega (arith, e')))
              | inr miss ↦ miss
            ]

    -- The registration: an identifier for the vector, or an error that leaves all as it was.
    abbrev After : World c ℤ → Outcome SigId → Type 0
    After w' (ok id) = Undoable c w0 w' 0 (set ids n (some id)) × (next_of w' ≤ next_of w + 1)
    After w' (err e) = Undoable c w0 w' 0 ids × (next_of w' ≤ next_of w + 1)
    After w' (stop s) = ⊥

    After-registration :
        (w' : World c ℤ) (o : Outcome SigId) → w' ≡ ran_call.last → ran_call.result ≡ o → After w' o
    After-registration w' (ok id) at e =
        let done =
          (register-Atomic c laws (pos n) (informed (pos n)) w h.coherent room).returned id e in
        rw at (Undoable-added id ran_call.last done, omega (arith, done.4.5))
    After-registration w' (err m) at e =
        let (unchanged, co, same, os, act, why) =
          (register-Atomic c laws (pos n) (informed (pos n)) w h.coherent room).failed m e in
        rw at (
          Undoable-same ran_call.last co same os,
          let count = ap (λ (d : SignalData ℤ). d.next_id) same in omega (arith, count),
        )
    After-registration w' (stop s) at e =
        absurd ((register-Atomic c laws (pos n) (informed (pos n)) w h.coherent room).unstopped s e)

  -- After any call, with the vector that it leaves.
  abbrev pub AfterCall : ℤ → World c ℤ → Outcome SigId → Type 0
  AfterCall signal w' (ok id) =
      Undoable c w0 w' 0 (set ids (as_usize signal) (some id)) × (next_of w' ≤ next_of w + 1)
  AfterCall signal w' _ = Undoable c w0 w' 0 ids × (next_of w' ≤ next_of w + 1)

  pub after_call :
      (signal : ℤ) (w' : World c ℤ) (o : Outcome SigId)
      → index ids (as_usize signal) ≡ ok none
      → Reached c w signal w' o ⊎ Stopped c w w' o
      → AfterCall signal w' o
  after_call signal w' (ok id) unknown (inr (same, never)) = absurd (never id refl)
  after_call signal w' (err e) unknown (inr (same, never)) = rw same (h, omega arith)
  after_call signal w' (stop s) unknown (inr (same, never)) = rw same (h, omega arith)
  after_call (negsuc n) w' o unknown (inl (positive, at, e)) =
      let clash : true ≡ false = positive in cc
  after_call (pos n) w' o unknown (inl (positive, at, e)) =
      let (there, below) = index_place ids n none unknown in
      weaken o (After-registration n there below w' o at (sym e))
    where
      weaken :
          (o : Outcome SigId)
          → After n (index_place ids n none unknown).0 (index_place ids n none unknown).1 w' o
          → AfterCall (pos n) w' o
      weaken (ok id) a = a
      weaken (err m) a = a
      weaken (stop s) a = absurd a
