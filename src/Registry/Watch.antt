-- ===== src/Registry/Watch.antt =====
-- A rule for code that others watch: a property of every state that it makes visible.
use signal_hook.Base.{
  ◌≡◌, ◌≢◌, refl, List, [], ◌∷◌, Outcome, ok, err, stop, Stop, ℤ, All, All-append,
}
use signal_hook.Registry.Proc.{Ran, Proc, after, lift, put_world, ◌>>=◌}

module _ {W : Type 0} (P : W → Type 0) where
  -- `P` holds of each visible state and of the last; `Q` of a result; `E` of an error
  -- and the last state. Nothing panics.
  pub record Watch {A : Type 0} (Q : A → W → Type 0) (E : ℤ → W → Type 0) (r : Ran W A)
      : Type 0 where
    pub shown : All P r.visible
    pub final : P r.last
    pub returned : (a : A) → r.result ≡ ok a → Q a r.last
    pub failed : (e : ℤ) → r.result ≡ err e → E e r.last
    pub unstopped : (s : Stop) → r.result ≢ stop s

  Watch-after :
      {B : Type 0} {Q : B → W → Type 0} {E : ℤ → W → Type 0} (before : List W) (r : Ran W B)
      → All P before
      → Watch Q E r
      → Watch Q E (after before r)
  Watch-after before r h w = record {
    shown = All-append P before r.visible h w.shown;
    final = w.final;
    returned = w.returned;
    failed = w.failed;
    unstopped = w.unstopped;
  }

  -- One call and what follows it.
  pub Watch-bind :
      {A B : Type 0} {Q : A → W → Type 0} {R : B → W → Type 0} {E : ℤ → W → Type 0} (m : Proc W A)
      (f : A → Proc W B) (w : W)
      → Watch Q E (m w)
      → ((a : A) (w' : W) → P w' → Q a w' → Watch R E (f a w'))
      → Watch R E ((m >>= f) w)
  Watch-bind {A} {R = R} {E = E} m f w h k = by_result (m w).result refl
    where
      by_result : (o : Outcome A) → (m w).result ≡ o → Watch R E ((m >>= f) w)
      by_result (ok a) e =
          rw (e, ◌>>=◌)
            (Watch-after (m w).visible (f a (m w).last) h.shown
              (k a (m w).last h.final (h.returned a e)))
      by_result (err n) e =
          rw (e, ◌>>=◌)
            (record {
              shown = h.shown;
              final = h.final;
              returned = λ b q. cc;
              failed = λ n' q. let same : n ≡ n' = cc in rw (← same) (h.failed n e);
              unstopped = λ s q. cc;
            })
      by_result (stop s) e = absurd (h.unstopped s e)

  pub Watch-lift :
      {A : Type 0} {Q : A → W → Type 0} {E : ℤ → W → Type 0} (o : Outcome A) (a : A) (w : W)
      → o ≡ ok a
      → P w
      → Q a w
      → Watch Q E (lift o w)
  Watch-lift {Q = Q} o a w e p q = record {
    shown = tt;
    final = p;
    returned = λ b e'. let same : a ≡ b = cc in rw (← same) q;
    failed = λ n e'. cc;
    unstopped = λ s e'. cc;
  }

  pub Watch-put :
      {Q : Unit {0} → W → Type 0} {E : ℤ → W → Type 0} (w' w : W)
      → P w'
      → Q tt w'
      → Watch Q E (put_world w' w)
  Watch-put w' w p q = record {
    shown = (p, tt);
    final = p;
    returned = λ a e. q;
    failed = λ n e. cc;
    unstopped = λ s e. cc;
  }

  -- Without an error there is a result.
  pub Watch-ok :
      {A : Type 0} {Q : A → W → Type 0} (r : Ran W A)
      → Watch Q (λ e w. ⊥) r
      → (a : A) × (r.result ≡ ok a) × Q a r.last
  Watch-ok {A} {Q} r h = by_result r.result refl
    where
      by_result : (o : Outcome A) → r.result ≡ o → (a : A) × (r.result ≡ ok a) × Q a r.last
      by_result (ok a) e = (a, e, h.returned a e)
      by_result (err n) e = absurd (h.failed n e)
      by_result (stop s) e = absurd (h.unstopped s e)

pub All-imply :
    {A : Type 0} {P R : A → Type 0} (xs : List A) → ((a : A) → P a → R a) → All P xs → All R xs
All-imply [] k h = tt
All-imply (x ∷ xs) k h = (k x h.0, All-imply xs k h.1)

-- Weaker properties of the states and of the result.
pub Watch-imply :
    {W A : Type 0} {P P' : W → Type 0} {Q R : A → W → Type 0} {E : ℤ → W → Type 0} {r : Ran W A}
    → ((w : W) → P w → P' w)
    → ((a : A) (w : W) → Q a w → R a w)
    → Watch P Q E r
    → Watch P' R E r
Watch-imply {r = r} shown returned h = record {
  shown = All-imply r.visible shown h.shown;
  final = shown r.last h.final;
  returned = λ a e. returned a r.last (h.returned a e);
  failed = h.failed;
  unstopped = h.unstopped;
}
