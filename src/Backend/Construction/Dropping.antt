-- ===== src/Backend/Construction/Dropping.antt =====
-- What the drop of `DeliveryState` in src/iterator/backend.rs undoes.
use signal_hook.Base.{
  ℕ, zero, suc, ◌+◌, ◌≡◌, ◌≢◌, refl, true, false, Option, none, some, List, [], ◌∷◌, ℤ, pos, ◌==◌,
  int_eq, nat_eq, int_beq_iff, ok, get_elem?, arith, ap, sym, ◌∙◌, Bool-cases, inl, inr, ◌⊎◌,
}
use signal_hook.VecMap.Spec.{lookup}
use signal_hook.Registry.{Siginfo, Action, SigId, Slot, Libc, World}
use signal_hook.Registry.Handler.{deliver, passed_on}
use signal_hook.Registry.TableLaws.{with_action, without}
use signal_hook.Registry.State.{
  globals_of, slot_in, Coherent, with_slot, deliver_same, passed_ours, passed_same,
}
use signal_hook.Registry.Register.{unregister}
use signal_hook.Registry.Erasing.{erase-last, lookup-last}
use signal_hook.Registry.Watch.{Watch, Watch-bind, Watch-lift, Watch-imply}
use signal_hook.Registry.Replacing.{Kept}
use signal_hook.Registry.Removal.{
  Removed, removal_ends, removed_world, removed-Coherent, Removed-world, final,
}
use signal_hook.Backend.Construction.{drop_ids}

module _ {F : Type 0} (c : Libc) (w0 : World c F) where
  -- The identifier is that of the last action of the signal, and without it a delivery would run
  -- what `handler` passed it on to in `w0`.
  abbrev pub Mine : World c F → SigId → ℤ → Type 0
  Mine w id t =
      (base : Slot F) × (action : Action F) × (id.signal ≡ t)
      × (slot_in (globals_of w.globals) t ≡ some (with_action base id.action action))
      × (lookup id.action base.actions.entries ≡ none)
      × ((i : Siginfo) (u : ℕ) → passed_on c w0 t (some i) u ≡ with_slot c base t i u)

  -- A delivery of the signal runs what it ran in `w0`, or what `handler` passes it on to there: the
  -- same, but for a default action. What `handler` passes it on to is the same.
  abbrev pub Back : World c F → ℤ → Type 0
  Back w t =
      (((i : Siginfo) (u : ℕ) → deliver c w t (some i) u ≡ deliver c w0 t (some i) u)
        ⊎ ((i : Siginfo) (u : ℕ) → deliver c w t (some i) u ≡ passed_on c w0 t (some i) u))
      × ((i : Siginfo) (u : ℕ) → passed_on c w t (some i) u ≡ passed_on c w0 t (some i) u)

  -- So does a world with the same slot and the same disposition of the signal.
  pub Back-same :
      (w w' : World c F) (t : ℤ)
      → Coherent c (globals_of w.globals) w.os
      → slot_in (globals_of w'.globals) t ≡ slot_in (globals_of w.globals) t
      → c.disposition w'.os t ≡ c.disposition w.os t
      → Back w t
      → Back w' t
  Back-same w w' t co slots kernel (either, passed) = (
    elim either [
      | inl old ↦ inl (λ i u. deliver_same c w w' t i u co slots kernel ∙ old i u)
      | inr gone ↦ inr (λ i u. deliver_same c w w' t i u co slots kernel ∙ gone i u)
    ],
    λ i u. passed_same c w w' t i u co slots kernel ∙ passed i u,
  )

  -- The vector holds, from the signal `k` on, the identifiers of all that differs from `w0`.
  pub record Undoable (w : World c F) (k : ℕ) (ids : List (Option SigId)) : Type 0 where
    pub coherent : Coherent c (globals_of w.globals) w.os
    pub mine : (n : ℕ) (id : SigId) → get_elem? ids n ≡ some (some id) → Mine w id (pos (k + n))
    pub rest :
        (t : ℤ)
        → ((n : ℕ) (id : SigId) → get_elem? ids n ≡ some (some id) → pos (k + n) ≢ t)
        → Back w t

  shift : (k n : ℕ) → pos (k + suc n) ≡ pos (k + 1 + n)
  shift k n = ap pos (omega arith)

  Undoable-skip :
      (w : World c F) (k : ℕ) (ids : List (Option SigId))
      → Undoable w k (none ∷ ids)
      → Undoable w (k + 1) ids
  Undoable-skip w k ids h = record {
    coherent = h.coherent;
    mine = λ n id there. rw (← shift k n) (h.mine (suc n) id there);
    rest = λ t others. h.rest t (by_place t others);
  }
    where
      by_place :
          (t : ℤ)
          → ((n : ℕ) (id : SigId) → get_elem? ids n ≡ some (some id) → pos (k + 1 + n) ≢ t)
          → (n : ℕ) (id : SigId) → get_elem? (none ∷ ids) n ≡ some (some id)
          → pos (k + n) ≢ t
      by_place t others zero id there = cc
      by_place t others (suc n) id there = rw (shift k n) (others n id there)

  module _ (w : World c F) (k : ℕ) (id : SigId) (ids : List (Option SigId))
      (h : Undoable w k (some id ∷ ids)) where
    signal_is : id.signal ≡ pos k
    signal_is =
        let zero_more : k + 0 ≡ k = omega arith in (h.mine zero id refl).2 ∙ ap pos zero_more

    abbrev slot : Slot F
    slot = with_action (h.mine zero id refl).0 id.action (h.mine zero id refl).1

    found : slot_in (globals_of w.globals) id.signal ≡ some slot
    found = ap (slot_in (globals_of w.globals)) (h.mine zero id refl).2 ∙ (h.mine zero id refl).3

    abbrev w' : World c F
    w' = removed_world c id w h.coherent slot found

    -- Without the action, a delivery of the signal runs what it ran in `w0`.
    at_signal :
        (t : ℤ)
        → id.signal ≡ t
        → (i : Siginfo) (u : ℕ)
        → with_slot c (without slot id.action) t i u ≡ passed_on c w0 t (some i) u
    at_signal t same i u =
        let (base, action, signal_is', there, fresh, before) = h.mine zero id refl in
        let back : passed_on c w0 t (some i) u ≡ with_slot c base t i u =
          rw (← (sym signal_is' ∙ same)) (before i u) in
        ap
          (λ (es : List (ℕ × Action F)).
            with_slot c (record base { actions = record { entries = es } }) t i u)
          (erase-last id.action action base.actions.entries fresh)
        ∙ sym back

    Undoable-removed : Undoable w' (k + 1) ids
    Undoable-removed = record {
      coherent = removed-Coherent c id w h.coherent slot found;
      mine = λ n id' there. rw (← shift k n) (kept n id' (h.mine (suc n) id' there));
      rest = λ t others. elim (Bool-cases (id.signal == t)) [
        | inl hit ↦
            let same = (int_beq_iff id.signal t).0 hit in
            let now : (i : Siginfo) (u : ℕ)
                → deliver c w' t (some i) u ≡ passed_on c w0 t (some i) u =
              λ i u.
                Removed-world c id w h.coherent slot found t i u ∙ rw hit (at_signal t same i u) in
            (
              inr now,
              λ i u.
                  passed_ours c w' t i u (rw (← same) (h.coherent.ours id.signal slot found))
                  ∙ now i u,
            )
        | inr miss ↦
            Back-same w w' t h.coherent (final c id w h.coherent slot found t ∙ rw miss refl) refl
              (h.rest t (by_place t miss others))
      ];
    }
      where
        apart : (n : ℕ) → (id.signal == pos (k + suc n)) ≡ false
        apart n = elim (Bool-cases (id.signal == pos (k + suc n))) [
          | inl hit ↦
              let same : pos k ≡ pos (k + suc n) =
                sym signal_is ∙ (int_beq_iff id.signal (pos (k + suc n))).0 hit in
              let same' : k ≡ k + suc n = cc in absurd (omega (arith, same'))
          | inr miss ↦ miss
        ]

        kept : (n : ℕ) (id' : SigId) → Mine w id' (pos (k + suc n)) → Mine w' id' (pos (k + suc n))
        kept n id' (base, action, signal_is', there, fresh, before) = (
          base,
          action,
          signal_is',
          final c id w h.coherent slot found (pos (k + suc n)) ∙ rw (apart n) there,
          fresh,
          before,
        )

        by_place :
            (t : ℤ)
            → (id.signal == t) ≡ false
            → ((n : ℕ) (id' : SigId) → get_elem? ids n ≡ some (some id') → pos (k + 1 + n) ≢ t)
            → (n : ℕ) (id' : SigId) → get_elem? (some id ∷ ids) n ≡ some (some id')
            → pos (k + n) ≢ t
        by_place t miss others zero id' there = λ e.
            let zero_more : k + 0 ≡ k = omega arith in
            let hit : (id.signal == t) ≡ true =
              (int_beq_iff id.signal t).1 (signal_is ∙ ap pos (sym zero_more) ∙ e) in
            let clash : true ≡ false = sym hit ∙ miss in cc
        by_place t miss others (suc n) id' there = rw (shift k n) (others n id' there)

  -- Each delivery runs what it ran in `ws`, or what `handler` passed it on to in `w0`.
  abbrev pub Between : World c F → World c F → Type 0
  Between ws w =
      (t : ℤ) (i : Siginfo) (u : ℕ)
      → (deliver c w t (some i) u ≡ deliver c ws t (some i) u)
        ⊎ (deliver c w t (some i) u ≡ passed_on c w0 t (some i) u)

  Between-removal :
      (ws w : World c F)
      → Between ws w
      → (k : ℕ) (id : SigId) (ids : List (Option SigId)) (h : Undoable w k (some id ∷ ids))
      → (w1 : World c F) → Kept c w w1 ⊎ Removed c id w (slot w k id ids h) w1
      → Between ws w1
  Between-removal ws w p k id ids h w1 (inl kept) t i u = rw (kept t i u) (p t i u)
  Between-removal ws w p k id ids h w1 (inr removed) t i u =
      rw (removed t i u) (elim (Bool-cases (id.signal == t)) [
        | inl hit ↦ rw hit (inr (at_signal w k id ids h t ((int_beq_iff id.signal t).0 hit) i u))
        | inr miss ↦ rw miss (p t i u)
      ])

  -- The last state.
  abbrev pub Undone : World c F → Type 0
  Undone w = Coherent c (globals_of w.globals) w.os × ((t : ℤ) → Back w t)

  pub drop_ids-Watch :
      (ids : List (Option SigId)) (k : ℕ) (ws w : World c F)
      → Between ws w
      → Undoable w k ids
      → Watch (Between ws) (λ u w'. Undone w') (λ e w. ⊥) (drop_ids c ids w)
  unfolding drop_ids
  drop_ids-Watch [] k ws w p h =
      Watch-lift (Between ws) (ok tt) tt w refl p (h.coherent, λ t. h.rest t (λ n id there. cc))
  drop_ids-Watch (none ∷ ids) k ws w p h =
      drop_ids-Watch ids (k + 1) ws w p (Undoable-skip w k ids h)
  drop_ids-Watch (some id ∷ ids) k ws w p h =
      Watch-bind (Between ws) (unregister c id) _ w
        (Watch-imply (Between-removal ws w p k id ids h) (λ a w1 q. q.1)
          (removal_ends c id w h.coherent (slot w k id ids h) (found w k id ids h)
            (h.mine zero id refl).1
            (lookup-last id.action (h.mine zero id refl).1 (h.mine zero id refl).0.actions.entries
              (h.mine zero id refl).4)))
        (λ b w1 p1 at. drop_ids-Watch ids (k + 1) ws w1 p1 (rw at (Undoable-removed w k id ids h)))
