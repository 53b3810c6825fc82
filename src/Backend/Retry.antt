-- ===== src/Backend/Retry.antt =====
-- `Handle::add_signal` of `WithRawSiginfo` after a registration that failed.
use signal_hook.Base.{
  ℕ, zero, suc, ◌≡◌, ◌≢◌, refl, Bool, true, false, Option, none, some, List, [], ◌∷◌, ℤ, Outcome,
  ok, err, stop, Stop, panicked, assert, >>=_ok, not, ◌>>◌, index, set, ap, sym, ◌∙◌, inl, inr, ltb,
  Bool-cases,
}
use signal_hook.Channel.{Channel}
use signal_hook.Channel.Fifo.{new-Represents}
use signal_hook.Registry.{Siginfo, SigId, Libc, World}
use signal_hook.Registry.Register.{register_sigaction}
use signal_hook.Backend.{
  Exfiltrator, with_raw_siginfo, init_raw, SignalDelivery, as_usize, is_negative, max_signum,
  register_slot, add_signal, add_locked, check, after_swap,
}
use signal_hook.Backend.Adding.{ways, index-set_self, pieces, outcome_of}

check_again :
    {S O : Type 0} (ex : Exfiltrator S O) (slots : List S) (signal : ℤ) (slot slot' : S)
    → check ex slots signal ≡ ok slot
    → check ex (set slots (as_usize signal) slot') signal ≡ ok slot'
unfolding check
check_again ex slots signal slot slot' h =
    let (a, e1, h1) = >>=_ok (assert (not (is_negative signal))) _ h in
    let (b, e2, h2) = >>=_ok (assert (ltb (as_usize signal) max_signum)) _ h1 in
    let (u, e3, h3) = >>=_ok (assert (ex.supports_signal signal)) _ h2 in
    rw (e1, check, e2, e3) (index-set_self slots (as_usize signal) slot' slot h3)

init_again : (channel : Channel Siginfo) → (init_raw (some channel)).1 ≡ stop panicked
unfolding init_raw after_swap
init_again channel = let (c, e, r) = new-Represents {T = Siginfo} in rw (e, init_raw) refl

init_first : (c : Channel Siginfo) × (init_raw none ≡ (some c, ok tt))
unfolding init_raw after_swap
init_first = let (c, e, r) = new-Represents {T = Siginfo} in (c, rw (e, init_raw) refl)

index_returns : {A : Type 0} (xs : List A) (i : ℕ) (n : ℤ) → index xs i ≢ err n
index_returns [] i n = λ e. cc
index_returns (x ∷ xs) zero n = λ e. cc
index_returns (x ∷ xs) (suc i) n = index_returns xs i n

assert_first : {A : Type 0} (b : Bool) (m : Outcome A) (n : ℤ) → m ≢ err n → (assert b >> m) ≢ err n
assert_first true m n h = h
assert_first false m n h = λ e. cc

check_returns :
    {S O : Type 0} (ex : Exfiltrator S O) (slots : List S) (signal n : ℤ)
    → check ex slots signal ≢ err n
unfolding check
check_returns ex slots signal n = assert_first (not (is_negative signal)) _ n (
    assert_first (ltb (as_usize signal) max_signum) _ n
      (assert_first (ex.supports_signal signal) _ n (index_returns slots (as_usize signal) n)))

-- An error of the registration comes after the slot is initialised.
module _ (c : Libc) (slots : List (Option (Channel Siginfo))) (w : World c ℤ) (signal : ℤ) where
  stop_not_err' : (s : Stop) (e : ℤ) → ◌≡◌ {A = Outcome SigId} (stop s) (err e) → ⊥
  stop_not_err' s e h = cc

  stop_not_err : (e : ℤ) → ◌≡◌ {A = Outcome SigId} (stop panicked) (err e) → ⊥
  stop_not_err e h = cc

  register_panic :
      (channel : Channel Siginfo)
      → check with_raw_siginfo slots signal ≡ ok (some channel)
      → (register_slot with_raw_siginfo c slots w signal).2 ≡ stop panicked
  unfolding register_slot
  register_panic channel h = rw (h, register_slot, init_again channel) refl

  register_error :
      (slots' : List (Option (Channel Siginfo))) (w' : World c ℤ) (e : ℤ)
      → register_slot with_raw_siginfo c slots w signal ≡ (slots', w', err e)
      → (channel : Channel Siginfo) × (check with_raw_siginfo slots' signal ≡ ok (some channel))
  unfolding register_slot
  register_error slots' w' e h = by_check (check with_raw_siginfo slots signal) refl
    where
      by_check :
          (o : Outcome (Option (Channel Siginfo)))
          → check with_raw_siginfo slots signal ≡ o
          → (channel : Channel Siginfo) × (check with_raw_siginfo slots' signal ≡ ok (some channel))
      by_check (ok none) there =
          let (new, fresh) = init_first in
          let r = register_sigaction c signal signal w in
          let made : register_slot with_raw_siginfo c slots w signal
              ≡ (set slots (as_usize signal) (some new), r.last, r.result) =
            rw (there, register_slot, fresh)
              (ap
                (λ (i : Option (Channel Siginfo) × Outcome (Unit {0})).
                  (set slots (as_usize signal) i.0, r.last, r.result))
                fresh) in
          let (same, same', same'') =
            pieces (set slots (as_usize signal) (some new), r.last, r.result) (slots', w', err e)
              (sym made ∙ h) in
          (new, rw (← same) (check_again with_raw_siginfo slots signal none (some new) there))
      by_check (ok (some channel)) there = absurd (
          stop_not_err e (
            sym (register_panic channel there)
            ∙ ap (λ (t : List (Option (Channel Siginfo)) × World c ℤ × Outcome SigId). t.2) h))
      by_check (err n) there = absurd (check_returns with_raw_siginfo slots signal n there)
      by_check (stop s) there =
          let made : register_slot with_raw_siginfo c slots w signal ≡ (slots, w, stop s) =
            rw (there, register_slot) refl in
          absurd (
            stop_not_err' s e (
              ap (λ (t : List (Option (Channel Siginfo)) × World c ℤ × Outcome SigId). t.2)
                (sym made ∙ h)))

-- A panic of the registration goes through, whether or not the mutex was poisoned.
add_panics :
    {S O : Type 0} (ex : Exfiltrator S O) (c : Libc) (d : SignalDelivery S) (w : World c ℤ)
    (signal : ℤ)
    → index d.delivery_state.registered_signal_ids (as_usize signal) ≡ ok none
    → (register_slot ex c d.slots w signal).2 ≡ stop panicked
    → (add_signal ex c d w signal).2 ≡ stop panicked
unfolding add_signal add_locked
add_panics ex c d w signal unknown panics = elim (Bool-cases d.delivery_state.poisoned) [
  | inl bad ↦ rw (bad, add_signal) refl
  | inr fine ↦ rw (fine, add_signal) (rw (unknown, add_locked, panics) refl)
]

-- With `WithRawSiginfo`, after a call of `add_signal` that returned an error the identifiers and the
-- closed flag are as before, but in any later state of the registry another call for the same signal
-- panics, as the slot keeps the channel that the failed call made.
pub failed_add_then_panics :
    (c : Libc) (d d' : SignalDelivery (Option (Channel Siginfo))) (w w' : World c ℤ) (signal e : ℤ)
    → add_signal with_raw_siginfo c d w signal ≡ (d', w', err e)
    → (d'.delivery_state ≡ d.delivery_state)
      × ((w'' : World c ℤ) → (add_signal with_raw_siginfo c d' w'' signal).2 ≡ stop panicked)
failed_add_then_panics c d d' w w' signal e failure = elim (ways with_raw_siginfo c d w signal) [
  | inl (id, known, unchanged, fine) ↦ absurd (ok_not_err e (outcome_of (sym unchanged ∙ failure)))
  | inr (inl (slots, w1, id, unknown, added, result, fine)) ↦
      absurd (ok_not_err e (outcome_of (sym result ∙ failure)))
  | inr (inr (inl (slots, w1, unknown, inl (n, ran_is, result)))) ↦
      let (d_is, w_is, o_is) =
        pieces (record d { slots = slots }, w1, err n) (d', w', err e) (sym result ∙ failure) in
      let (channel, there) = register_error c d.slots w signal slots w1 n ran_is in
      rw (← d_is) (
        refl,
        λ w''.
            add_panics with_raw_siginfo c (record d { slots = slots }) w'' signal unknown
              (register_panic c slots w'' signal channel there),
      )
  | inr (inr (inl (slots, w1, unknown, inr (s, ran_is, result)))) ↦
      absurd (stop_not_err_unit s e (outcome_of (sym result ∙ failure)))
  | inr (inr (inr (inl (beyond, bad)))) ↦
      absurd (stop_not_err_unit panicked e (outcome_of (sym beyond ∙ failure)))
  | inr (inr (inr (inr beyond))) ↦
      absurd (stop_not_err_unit panicked e (outcome_of (sym beyond ∙ failure)))
]
  where
    ok_not_err : (n : ℤ) → ◌≡◌ {A = Outcome (Unit {0})} (ok tt) (err n) → ⊥
    ok_not_err n h = cc

    stop_not_err_unit : (s : Stop) (n : ℤ) → ◌≡◌ {A = Outcome (Unit {0})} (stop s) (err n) → ⊥
    stop_not_err_unit s n h = cc
