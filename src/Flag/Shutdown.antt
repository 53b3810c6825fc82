-- ===== src/Flag/Shutdown.antt =====
-- The shutdown on a second Ctrl+C that the documentation of src/flag.rs describes: the conditional
-- shutdown is registered first and the flag second.
use mathlib.Core.List.{append_assoc}
use signal_hook.Base.{
  ℕ, ◌+◌, ◌<◌, ◌^◌, ◌≡◌, refl, true, false, some, List, [], ◌∷◌, ◌++◌, ℤ, ==_refl, int_eq, Outcome,
  ok, err, stop, exited, ◌>>=◌, update, nat_beq, nat_beq_iff, sym, ap, ◌∙◌,
}
use signal_hook.Registry.{Siginfo, Action, plain, informed, SigId, Libc, SigactionLaws, World}
use signal_hook.Registry.Handler.{Event, called, called_siginfo, ran, Handled, deliver, passed_on}
use signal_hook.Registry.State.{globals_of, Coherent, passed_events}
use signal_hook.Registry.Atomic.{Registered, and_then}
use signal_hook.Registry.Entry.{register-Registered}
use signal_hook.Details.{Answers}
use signal_hook.Flag.{
  Flags, Closure, store_true, shutdown, run_closure, run_events, register,
  register_conditional_shutdown,
}

>>=-assoc :
    {A B C : Type 0} (m : Outcome A) (f : A → Outcome B) (g : B → Outcome C)
    → ((m >>= f) >>= g) ≡ (m >>= λ x. f x >>= g)
>>=-assoc (ok a) f g = refl
>>=-assoc (err e) f g = refl
>>=-assoc (stop s) f g = refl

>>=-cong :
    {A B : Type 0} (m : Outcome A) (f g : A → Outcome B)
    → ((x : A) → f x ≡ g x)
    → (m >>= f) ≡ (m >>= g)
>>=-cong (ok a) f g h = h a
>>=-cong (err e) f g h = refl
>>=-cong (stop s) f g h = refl

run_events-append :
    (a : Answers) (es fs : List (Event Closure)) (flags : Flags)
    → run_events a (es ++ fs) flags ≡ (run_events a es flags >>= run_events a fs)
unfolding run_events
run_events-append a [] fs flags = refl
run_events-append a (called f s ∷ es) fs flags = run_events-append a es fs flags
run_events-append a (called_siginfo f s i u ∷ es) fs flags = run_events-append a es fs flags
run_events-append a (ran (plain closure) i ∷ es) fs flags =
    >>=-cong (run_closure a closure flags) _ _ (run_events-append a es fs)
    ∙ sym (>>=-assoc (run_closure a closure flags) (run_events a es) (run_events a fs))
run_events-append a (ran (informed closure) i ∷ es) fs flags =
    >>=-cong (run_closure a closure flags) _ _ (run_events-append a es fs)
    ∙ sym (>>=-assoc (run_closure a closure flags) (run_events a es) (run_events a fs))

-- The flags with one set.
abbrev pub raise_flag : Flags → ℕ → Flags
raise_flag flags flag = record flags { bools = update flags.bools flag true }

last_event :
    {c : Libc} {F : Type 0} (signal : ℤ) (action : Action F) (w w' : World c F)
    → Registered c signal action w w'
    → (i : Siginfo) (u : ℕ)
    → (deliver c w' signal (some i) u).events
      ≡ (deliver c w signal (some i) u).events ++ ran action i ∷ []
last_event {c} {F} signal action w w' registered i u =
    let both : deliver c w' signal (some i) u
        ≡ and_then (passed_on c w signal (some i) u) (ran action i) =
      registered signal i u ∙ rw (==_refl signal) refl in
    ap (λ (h : Handled F). h.events) both
    ∙ ap (λ es. es ++ ran action i ∷ []) (passed_events c w signal i u)

shutdown_then_store :
    (a : Answers) (flag : ℕ) (status : ℤ) (flags : Flags) (i : Siginfo)
    → (flags.bools flag ≡ false
        → run_events a
            (ran (plain (shutdown status flag)) i ∷ ran (plain (store_true flag)) i ∷ [])
            flags
          ≡ ok (raise_flag flags flag))
      × (flags.bools flag ≡ true
          → run_events a
              (ran (plain (shutdown status flag)) i ∷ ran (plain (store_true flag)) i ∷ [])
              flags
            ≡ stop (exited status))
unfolding run_events run_closure
shutdown_then_store a flag status flags i =
    ((λ off. rw (off, run_events) refl), λ on. rw (on, run_events) refl)

-- A delivery whose last two events are those of the two actions.
two_events :
    (a : Answers) (before : List (Event Closure)) (flag : ℕ) (status : ℤ) (flags : Flags)
    (i : Siginfo)
    → run_events a before flags ≡ ok flags
    → run_events a
        ((before ++ ran (plain (shutdown status flag)) i ∷ [])
          ++ ran (plain (store_true flag)) i ∷ [])
        flags
      ≡ run_events a
          (ran (plain (shutdown status flag)) i ∷ ran (plain (store_true flag)) i ∷ [])
          flags
two_events a before flag status flags i quiet =
    ap (λ es. run_events a es flags)
      (append_assoc before (ran (plain (shutdown status flag)) i ∷ [])
        (ran (plain (store_true flag)) i ∷ []))
    ∙ run_events-append a before
        (ran (plain (shutdown status flag)) i ∷ ran (plain (store_true flag)) i ∷ []) flags
    ∙ ap
        (λ o.
          o
          >>= run_events a
              (ran (plain (shutdown status flag)) i ∷ ran (plain (store_true flag)) i ∷ []))
        quiet

module _ (a : Answers) (c : Libc) (signal status : ℤ) (flag : ℕ) (w : World c Closure) where
  abbrev pub armed : World c Closure
  armed = (register_conditional_shutdown c signal status flag w).last

  abbrev pub ready : World c Closure
  ready = (register c signal flag armed).last

  -- The shutdown on the second signal. The kernel's `sigaction` is as its manual page says, the
  -- table agrees with the kernel, the identifiers do not run out, `register_conditional_shutdown`
  -- and then `register` of the same flag return `Ok`, and what a delivery of the signal ran before
  -- leaves the flags alone. Then with the flag down, a delivery of the signal raises the flag and
  -- ends, and the next delivery ends the process with the status.
  pub second_signal_exits :
      SigactionLaws c
      → Coherent c (globals_of w.globals) w.os
      → (globals_of w.globals).data_lock.next_id + 1 < 2 ^ 128
      → (globals_of armed.globals).data_lock.next_id + 1 < 2 ^ 128
      → (id id' : SigId) → (register_conditional_shutdown c signal status flag w).result ≡ ok id
      → (register c signal flag armed).result ≡ ok id'
      → ((i : Siginfo) (u : ℕ) (flags : Flags)
          → run_events a (deliver c w signal (some i) u).events flags ≡ ok flags)
      → (i j : Siginfo) (u v : ℕ) (flags : Flags) → flags.bools flag ≡ false
      → (run_events a (deliver c ready signal (some i) u).events flags ≡ ok (raise_flag flags flag))
        × (run_events a (deliver c ready signal (some j) v).events (raise_flag flags flag)
            ≡ stop (exited status))
  unfolding register_conditional_shutdown register
  second_signal_exits laws co room room' id id' success success' quiet i j u v flags off =
      let (first, co') =
        register-Registered c laws signal (shutdown status flag) w id co room success in
      let (second, co'') =
        register-Registered c laws signal (store_true flag) armed id' co' room' success' in
      let on : nat_beq flag flag ≡ true = (nat_beq_iff flag flag).1 refl in
      let events : (k : Siginfo) (x : ℕ)
          → (deliver c ready signal (some k) x).events
            ≡ ((deliver c w signal (some k) x).events ++ ran (plain (shutdown status flag)) k ∷ [])
              ++ ran (plain (store_true flag)) k ∷ [] =
        λ k x.
          last_event signal (plain (store_true flag)) armed ready second k x
          ∙ ap (λ es. es ++ ran (plain (store_true flag)) k ∷ [])
              (last_event signal (plain (shutdown status flag)) w armed first k x) in
      (
        ap (λ es. run_events a es flags) (events i u)
            ∙ two_events a (deliver c w signal (some i) u).events flag status flags i
                (quiet i u flags)
            ∙ (shutdown_then_store a flag status flags i).0 off,
        ap (λ es. run_events a es (raise_flag flags flag)) (events j v)
            ∙ two_events a (deliver c w signal (some j) v).events flag status
                (raise_flag flags flag) j (quiet j v (raise_flag flags flag))
            ∙ (shutdown_then_store a flag status (raise_flag flags flag) j).1 (rw on refl),
      )
