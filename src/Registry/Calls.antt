-- ===== src/Registry/Calls.antt =====
-- The calls that `register_unchecked_impl` makes before its store, as a handler on any thread can watch
-- them.
use signal_hook.Base.{
  ◌≡◌, refl, Option, none, some, [], ◌∷◌, ℤ, ◌==◌, int_eq, nat_eq, Outcome, ok, err, stop,
  if◌then◌else◌, ap, sym, ◌∙◌, Option-cases, inl, inr,
}
use signal_hook.Registry.{Sigaction, Action, Prev, GlobalData, Libc, SigactionLaws, World}
use signal_hook.Registry.State.{globals_of, slot_in, Coherent}
use signal_hook.Registry.Coherence.{Coherent-same}
use signal_hook.Registry.Register.{
  our_action, initial, set_up, ensure, store_fallback, call_sigaction, detect, new_slot,
}
use signal_hook.Registry.Watch.{Watch-bind, Watch-lift, Watch-put}
use signal_hook.Registry.Proc.{put_world}
use signal_hook.Registry.Atomic.{Atomic, g0, Unchanged-early, PassedOn-late}
use signal_hook.Registry.Stages.{Failed, prev0, Early, Late, Watched}

module _ {F : Type 0} (c : Libc) (laws : SigactionLaws c) (signal : ℤ) (action : Action F)
    (w0 : World c F) (co : Coherent c (g0 c signal action w0) w0.os) where
  pub early :
      (g : GlobalData F) (w : World c F)
      → (Early c signal action w0) g w
      → Atomic c signal action w0 w
  early g w (e, same, os) = inl (Unchanged-early c signal action w0 co w g e same os)

  pub early_failed :
      (g : GlobalData F) (w : World c F) (act : Option Sigaction) (n : ℤ)
      → (Early c signal action w0) g w
      → c.sigaction w.os signal act ≡ err n
      → (Failed c signal action w0) n w
  early_failed g w act n (e, same, os) failure = (
    Unchanged-early c signal action w0 co w g e same os,
    Coherent-same c (g0 c signal action w0) (globals_of w.globals) w0.os w.os co
        (ap (λ gs. (globals_of gs).data_lock) e ∙ same) os,
    ap (λ gs. (globals_of gs).data_lock) e ∙ same,
    os,
    act,
    failure,
  )

  -- A call of `sigaction` in an early state: an error leaves that state.
  pub Watch-call :
      (g : GlobalData F) (act : Option Sigaction) {Q : Sigaction → World c F → Type 0}
      (w : World c F)
      → (Early c signal action w0) g w
      → ((old : Sigaction) (os : c.Os)
          → c.sigaction w.os signal act ≡ ok (old, os)
          → Atomic c signal action w0 (record w { os = os }) × Q old (record w { os = os }))
      → (Watched c signal action w0) Q (call_sigaction c signal act w)
  unfolding call_sigaction
  Watch-call g act {Q} w h k = by_result (c.sigaction w.os signal act) refl
    where
      by_result :
          (o : Outcome (Sigaction × c.Os))
          → c.sigaction w.os signal act ≡ o
          → (Watched c signal action w0) Q (call_sigaction c signal act w)
      by_result (ok (old, os)) e =
          rw (e, call_sigaction)
            (record {
              shown = ((k old os e).0, tt);
              final = (k old os e).0;
              returned = λ a q. let same : old ≡ a = cc in rw (← same) (k old os e).1;
              failed = λ n q. cc;
              unstopped = λ s q. cc;
            })
      by_result (err n) e =
          rw (e, call_sigaction)
            (record {
              shown = tt;
              final = early g w h;
              returned = λ a q. cc;
              failed = λ m q. let same : n ≡ m = cc in rw (← same) (early_failed g w act n h e);
              unstopped = λ s q. cc;
            })
      by_result (stop s) e = absurd (laws.returns w.os signal act s e)

  pub Watch-detect :
      (g : GlobalData F) (w : World c F)
      → (Early c signal action w0) g w
      → (Watched c signal action w0)
          (λ prev w'. (Early c signal action w0) g w' × (prev ≡ (prev0 c signal action w0)))
          (detect c signal w)
  unfolding detect
  Watch-detect g w h =
      Watch-bind (Atomic c signal action w0)
        {Q = λ old w'. (Early c signal action w0) g w' × (old ≡ c.disposition w0.os signal)}
        (call_sigaction c signal none) _ w
        (Watch-call g none w h (λ old os e.
          let (same, kept) = laws.query w.os signal old os e in
          let h' : (Early c signal action w0) g (record w { os = os }) = (h.0, h.1, kept ∙ h.2) in
          (early g _ h', (h', same ∙ ap (λ o. c.disposition o signal) h.2))))
        (λ old w' p q.
          Watch-lift (Atomic c signal action w0) _ (record { signal = signal; info = old }) w' refl
            p (q.0, ap (λ x. record { signal = signal; info = x }) q.1))

  pub Watch-fallback :
      (g : GlobalData F) (prev : Prev) (w : World c F)
      → (Early c signal action w0) g w
      → prev ≡ (prev0 c signal action w0)
      → (Watched c signal action w0)
          (λ g' w'.
            (Early c signal action w0) g' w' × (g'.race_fallback ≡ some (prev0 c signal action w0)))
          (store_fallback c g prev w)
  unfolding store_fallback
  Watch-fallback g prev w h same =
      let g' : GlobalData F = record g { race_fallback = some prev } in
      let w1 : World c F = record w { globals = some g' } in
      let h' : (Early c signal action w0) g' w1 = (refl, h.1, h.2) in
      Watch-bind (Atomic c signal action w0) {Q = λ u w'. (Early c signal action w0) g' w'}
        (put_world w1) _ w (Watch-put (Atomic c signal action w0) w1 w (early g' w1 h') h')
        (λ u w' p q. Watch-lift (Atomic c signal action w0) _ g' w' refl p (q, ap some same))

  pub Watch-new_slot :
      (g : GlobalData F) (w : World c F)
      → (Early c signal action w0) g w
      → g.race_fallback ≡ some (prev0 c signal action w0)
      → slot_in (g0 c signal action w0) signal ≡ none
      → (Watched c signal action w0)
          (λ slot w'.
            (Late c signal action w0) g w'
            × (slot
                ≡ record { prev = (prev0 c signal action w0); actions = record { entries = [] } }))
          (new_slot c signal w)
  unfolding new_slot
  Watch-new_slot g w h fallback missing =
      Watch-bind (Atomic c signal action w0)
        {Q = λ old w'. (Late c signal action w0) g w' × (old ≡ c.disposition w0.os signal)}
        (call_sigaction c signal (some (our_action c))) _ w
        (Watch-call g (some (our_action c)) w h (λ old os e.
          let (same, kernel) = laws.replace w.os signal (our_action c) old os e in
          let h' : (Late c signal action w0) g (record w { os = os }) = (
            h.0,
            h.1,
            λ t. kernel t ∙ ap (λ o. if signal == t then our_action c else c.disposition o t) h.2,
          ) in
          (
            inr (
                inl (
                  PassedOn-late c signal action w0 co (record w { os = os }) g h'.0 h'.1 fallback
                    missing h'.2)),
            (h', same ∙ ap (λ o. c.disposition o signal) h.2),
          )))
        (λ old w' p q. Watch-lift (Atomic c signal action w0) _ _ w' refl p (
          q.0,
          ap
              (λ x. record {
                prev = record { signal = signal; info = x };
                actions = record { entries = [] };
              })
              q.1,
        ))

  pub Watch-ensure : (Watched c signal action w0) (Early c signal action w0) (ensure c w0)
  unfolding ensure set_up
  Watch-ensure = elim (Option-cases w0.globals) [
    | inl e ↦
        let w' : World c F = record w0 { globals = some initial } in
        let h : (Early c signal action w0) initial w' =
          (refl, ap (λ gs. (globals_of gs).data_lock) (sym e), refl) in
        let run : ensure c w0 ≡ record { visible = w' ∷ []; last = w'; result = ok initial } =
          rw (e, ensure) refl in
        rw run (record {
          shown = (early initial w' h, tt);
          final = early initial w' h;
          returned = λ a q. let same : initial ≡ a = cc in rw (← same) h;
          failed = λ n q. cc;
          unstopped = λ s q. cc;
        })
    | inr (g, e) ↦
        let h : (Early c signal action w0) g w0 =
          (e, ap (λ gs. (globals_of gs).data_lock) (sym e), refl) in
        let run : ensure c w0 ≡ record { visible = []; last = w0; result = ok g } =
          rw (e, ensure) refl in
        rw run (Watch-lift (Atomic c signal action w0) (ok g) g w0 refl (early g w0 h) h)
  ]
