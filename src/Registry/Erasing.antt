-- ===== src/Registry/Erasing.antt =====
-- The actions of a slot after one is erased.
use signal_hook.Base.{
  ℕ, ◌≡◌, refl, none, some, List, [], ◌∷◌, ◌++◌, ◌==◌, ==_refl, int_eq, nat_eq, if◌then◌else◌, ap,
  sym, ◌∙◌, Bool-cases, inl, inr,
}
use signal_hook.VecMap.Spec.{lookup, erase}
use signal_hook.Registry.{Action}
use signal_hook.Registry.State.{IdsBelow}

pub erase-IdsBelow :
    {F : Type 0} (n key : ℕ) (es : List (ℕ × Action F)) → IdsBelow n es → IdsBelow n (erase key es)
unfolding erase
erase-IdsBelow n key [] h = tt
erase-IdsBelow n key ((k, a) ∷ es) h = elim (Bool-cases (k == key)) [
  | inl hit ↦ rw hit h.1
  | inr miss ↦ rw miss (h.0, erase-IdsBelow n key es h.1)
]

pub erase-last :
    {F : Type 0} (key : ℕ) (a : Action F) (es : List (ℕ × Action F))
    → lookup key es ≡ none
    → erase key (es ++ (key, a) ∷ []) ≡ es
unfolding erase lookup
erase-last key a [] h = rw (==_refl key) refl
erase-last key a ((k, b) ∷ es) h = elim (Bool-cases (k == key)) [
  | inl hit ↦
      let found : (if k == key then some b else lookup key es) ≡ some b = rw hit refl in
      let e : some b ≡ none = sym found ∙ h in cc
  | inr miss ↦
      let rest : (if k == key then some b else lookup key es) ≡ lookup key es = rw miss refl in
      rw miss (ap (◌∷◌ (k, b)) (erase-last key a es (sym rest ∙ h)))
]

pub lookup-last :
    {F : Type 0} (key : ℕ) (a : Action F) (es : List (ℕ × Action F))
    → lookup key es ≡ none
    → lookup key (es ++ (key, a) ∷ []) ≡ some a
unfolding lookup
lookup-last key a [] h = rw (==_refl key) refl
lookup-last key a ((k, b) ∷ es) h = elim (Bool-cases (k == key)) [
  | inl hit ↦
      let found : (if k == key then some b else lookup key es) ≡ some b = rw hit refl in
      let e : some b ≡ none = sym found ∙ h in cc
  | inr miss ↦
      let rest : (if k == key then some b else lookup key es) ≡ lookup key es = rw miss refl in
      rw miss (lookup-last key a es (sym rest ∙ h))
]
