-- ===== src/Origins/Reporting.antt =====
-- The iterator with `WithOrigin` of src/iterator/exfiltrator/origin.rs against that with
-- `WithRawSiginfo`.
use signal_hook.Base.{
  ℕ, zero, suc, ◌+◌, ◌≡◌, ◌≢◌, refl, Option, none, some, List, [], ◌∷◌, Outcome, ok, err, stop,
  ◌>>=◌, index, length, set, ◌-◌,
}
use signal_hook.Channel.{Channel}
use signal_hook.Registry.{Siginfo}
use signal_hook.Backend.{Exfiltrator, with_raw_siginfo, recv_raw, load_slot, next_from, next}
use signal_hook.Backend.Pending.{drain}
use signal_hook.Origins.{Header, any_signal, Origin, extract, map_origin, with_origin}
use signal_hook.Origins.Extraction.{extract_correct}

abbrev Slots : Type 0
Slots = List (Option (Channel Siginfo))

-- The origins are those of the siginfos, in their order.
abbrev pub Extracts : Header → List Siginfo → List Origin → Type 0
Extracts h [] [] = Unit
Extracts h [] (o ∷ os) = ⊥
Extracts h (info ∷ infos) [] = ⊥
Extracts h (info ∷ infos) (o ∷ os) = (extract h info ≡ some o) × Extracts h infos os

abbrev Extracted : Header → Option Siginfo → Option Origin → Type 0
Extracted h none none = Unit
Extracted h (some info) (some o) = extract h info ≡ some o
Extracted h _ _ = ⊥

-- Two outcomes of the same kind, whose results are related.
abbrev pub Related : {A B : Type 0} → (A → B → Type 0) → Outcome A → Outcome B → Type 0
Related R (ok a) (ok b) = R a b
Related R (err e) (err e') = e ≡ e'
Related R (stop s) (stop s') = s ≡ s'
Related R _ _ = ⊥

Related-bind :
    {A B C D : Type 0} (R : A → B → Type 0) (Q : C → D → Type 0) (m : Outcome A) (n : Outcome B)
    (f : A → Outcome C) (g : B → Outcome D)
    → Related R m n
    → ((a : A) (b : B) → R a b → Related Q (f a) (g b))
    → Related Q (m >>= f) (n >>= g)
Related-bind R Q (ok a) (ok b) f g h k = k a b h
Related-bind R Q (err e) (err e') f g h k = h
Related-bind R Q (stop s) (stop s') f g h k = h
Related-bind R Q (ok a) (err e) f g h k = absurd h
Related-bind R Q (ok a) (stop s) f g h k = absurd h
Related-bind R Q (err e) (ok b) f g h k = absurd h
Related-bind R Q (err e) (stop s) f g h k = absurd h
Related-bind R Q (stop s) (ok b) f g h k = absurd h
Related-bind R Q (stop s) (err e) f g h k = absurd h

module _ (h : Header) where
  -- The same slots, and the origin of the siginfo.
  abbrev Loads : Slots × Option Siginfo → Slots × Option Origin → Type 0
  Loads a b = (a.0 ≡ b.0) × Extracted h a.1 b.1

  abbrev Nexts : Slots × ℕ × Option Siginfo → Slots × ℕ × Option Origin → Type 0
  Nexts a b = (a.0 ≡ b.0) × (a.1 ≡ b.1) × Extracted h a.2 b.2

  -- The same slots, and the origins of the siginfos.
  abbrev pub Reports : Slots × List Siginfo → Slots × List Origin → Type 0
  Reports a b = (a.0 ≡ b.0) × Extracts h a.1 b.1

module _ (h : Header) (proper : h.sigchld ≢ any_signal) where
  map_origin-Extracted : (r : Option Siginfo) → Extracted h r (map_origin h r)
  unfolding map_origin
  map_origin-Extracted none = tt
  map_origin-Extracted (some info) =
      let extracted = extract_correct h info proper in rw extracted.1 extracted.1

  abbrev into : {R : Type 0} → Slots → ℕ → Option (Channel Siginfo) × R → Outcome (Slots × R)
  into slots p r = ok (set slots p r.0, r.1)

  abbrev mapped : {S : Type 0} → S × Option Siginfo → Outcome (S × Option Origin)
  mapped r = ok (r.0, map_origin h r.1)

  load_slot-Related :
      (slots : Slots) (p : ℕ)
      → Related (Loads h) (load_slot with_raw_siginfo slots p) (load_slot (with_origin h) slots p)
  unfolding load_slot
  load_slot-Related slots p = by_index (index slots p)
    where
      by_recv :
          (b : Outcome (Option (Channel Siginfo) × Option Siginfo))
          → Related (Loads h) (b >>= into slots p) ((b >>= mapped) >>= into slots p)
      by_recv (ok (slot, r)) = (refl, map_origin-Extracted r)
      by_recv (err e) = refl
      by_recv (stop s) = refl

      by_index :
          (a : Outcome (Option (Channel Siginfo)))
          → Related
              (Loads h)
              (a >>= λ slot. recv_raw slot >>= into slots p)
              (a >>= λ slot. (recv_raw slot >>= mapped) >>= into slots p)
      by_index (ok slot) = by_recv (recv_raw slot)
      by_index (err e) = refl
      by_index (stop s) = refl

  abbrev goes :
      {O : Type 0}
      → Exfiltrator (Option (Channel Siginfo)) O
      → ℕ
      → ℕ
      → Slots × Option O
      → Outcome (Slots × ℕ × Option O)
  goes ex left p a = elim a.1 [
    | some o ↦ ok (a.0, p, some o)
    | none ↦ next_from ex left a.0 (p + 1)
  ]

  next_from-Related :
      (left : ℕ) (slots : Slots) (p : ℕ)
      → Related
          (Nexts h)
          (next_from with_raw_siginfo left slots p)
          (next_from (with_origin h) left slots p)
  unfolding next_from
  next_from-Related zero slots p = (refl, refl, tt)
  next_from-Related (suc left) slots p =
      Related-bind (Loads h) (Nexts h) (load_slot with_raw_siginfo slots p)
        (load_slot (with_origin h) slots p) _ _ (load_slot-Related slots p)
        (λ a b l. going (next_from-Related left) a.0 a.1 b.0 b.1 l.0 l.1)
    where
      going :
          ((slots : Slots) (p : ℕ)
            → Related
                (Nexts h)
                (next_from with_raw_siginfo left slots p)
                (next_from (with_origin h) left slots p))
          → (s : Slots) (r : Option Siginfo) (s' : Slots) (r' : Option Origin) → s ≡ s'
          → Extracted h r r'
          → Related
              (Nexts h)
              (goes with_raw_siginfo left p (s, r))
              (goes (with_origin h) left p (s', r'))
      going others s none s' none same e = rw (← same) (others s (p + 1))
      going others s (some info) s' (some o) same e = (same, refl, e)
      going others s none s' (some o) same e = absurd e
      going others s (some info) s' none same e = absurd e

  abbrev drains :
      {O : Type 0}
      → Exfiltrator (Option (Channel Siginfo)) O
      → ℕ
      → Slots × ℕ × Option O
      → Outcome (Slots × List O)
  drains ex fuel a = elim a.2 [
    | none ↦ ok (a.0, [])
    | some o ↦ drain ex fuel a.0 a.1 >>= λ r. ok (r.0, o ∷ r.1)
  ]

  -- The iterator with `WithOrigin` does what the iterator with `WithRawSiginfo` does, on any slots:
  -- calls of `Pending::next` from any position on end alike and leave the same slots, and what
  -- they report is the origins of the same siginfos in the same order. SIGCHLD is not -1.
  pub drain-Related :
      (fuel : ℕ) (slots : Slots) (p : ℕ)
      → Related
          (Reports h)
          (drain with_raw_siginfo fuel slots p)
          (drain (with_origin h) fuel slots p)
  unfolding drain next
  drain-Related zero slots p = (refl, tt)
  drain-Related (suc fuel) slots p =
      Related-bind (Nexts h) (Reports h) (next with_raw_siginfo slots p)
        (next (with_origin h) slots p) _ _ (next_from-Related (length slots - p) slots p)
        (λ a b n. draining (drain-Related fuel) a.0 a.1 a.2 b.0 b.1 b.2 n.0 n.1 n.2)
    where
      draining :
          ((slots : Slots) (p : ℕ)
            → Related
                (Reports h)
                (drain with_raw_siginfo fuel slots p)
                (drain (with_origin h) fuel slots p))
          → (s : Slots) (p : ℕ) (r : Option Siginfo) (s' : Slots) (p' : ℕ) (r' : Option Origin)
          → s ≡ s'
          → p ≡ p'
          → Extracted h r r'
          → Related
              (Reports h)
              (drains with_raw_siginfo fuel (s, p, r))
              (drains (with_origin h) fuel (s', p', r'))
      draining others s p none s' p' none same at e = (same, tt)
      draining others s p (some info) s' p' (some o) same at e =
          rw (← same, ← at)
            (Related-bind (Reports h) (Reports h) (drain with_raw_siginfo fuel s p)
              (drain (with_origin h) fuel s p) _ _ (others s p) (λ a b l. (l.0, (e, l.1))))
      draining others s p none s' p' (some o) same at e = absurd e
      draining others s p (some info) s' p' none same at e = absurd e
