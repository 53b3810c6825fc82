-- ===== src/Origins/Extraction.antt =====
-- What an `Origin` says, for any signal information.
use signal_hook.Base.{
  ℕ, ◌≡◌, ◌≢◌, refl, Bool, true, false, ◌&&◌, ◌||◌, none, some, List, [], ◌∷◌, ◌==◌, int_eq,
  int_beq_iff, get_elem?, All, sym, ◌∙◌, inl, inr, ◌⊎◌, Bool-cases,
}
use signal_hook.Registry.{Siginfo}
use signal_hook.Origins.{
  Icause, unknown, kernel, user, tkill, queue, mesgq, exited, killed, dumped, trapped, stopped,
  continued, discriminants, has_process, Cause, of_unknown, of_kernel, sent, chld, from, Origin,
  Const, Header, any_signal, consts, applies, translate, sighook_signal_cause, extract_process,
  origin_of, extract,
}

abbrev is_child : Icause → Bool
is_child exited = true
is_child killed = true
is_child dumped = true
is_child trapped = true
is_child stopped = true
is_child continued = true
is_child _ = false

-- The byte of a row is a discriminant, and a child's cause stands in a row for SIGCHLD.
abbrev Sound : Header → Const → Type 0
Sound h r =
    (cause : Icause) × (get_elem? discriminants r.translated ≡ some cause)
    × ((is_child cause ≡ false) ⊎ (r.signal ≡ h.sigchld))

consts-Sound : (h : Header) → All (Sound h) (consts h)
unfolding consts
consts-Sound h = (
  (kernel, refl, inl refl),
  (
    (user, refl, inl refl),
    (
      (tkill, refl, inl refl),
      (
        (queue, refl, inl refl),
        (
          (mesgq, refl, inl refl),
          (
            (exited, refl, inr refl),
            (
              (killed, refl, inr refl),
              (
                (dumped, refl, inr refl),
                (
                  (trapped, refl, inr refl),
                  ((stopped, refl, inr refl), ((continued, refl, inr refl), tt)),
                ),
              ),
            ),
          ),
        ),
      ),
    ),
  ),
)

abbrev Translated : Header → Siginfo → ℕ → Type 0
Translated h info byte =
    (cause : Icause) × (get_elem? discriminants byte ≡ some cause)
    × ((is_child cause ≡ false) ⊎ (info.si_signo ≡ h.sigchld))

both : (a b : Bool) → (a && b) ≡ true → b ≡ true
both true b h = h
both false b h = cc

either : (a b : Bool) → (a || b) ≡ true → (a ≡ true) ⊎ (b ≡ true)
either true b h = inl refl
either false b h = inr h

applies-signal :
    (h : Header) (r : Const) (info : Siginfo)
    → h.sigchld ≢ any_signal
    → applies r info ≡ true
    → r.signal ≡ h.sigchld
    → info.si_signo ≡ h.sigchld
applies-signal h r info proper hit same =
    elim (either _ _ (both (r.native == info.si_code) _ hit)) [
      | inl any ↦ absurd (proper (sym same ∙ (int_beq_iff r.signal any_signal).0 any))
      | inr own ↦ sym ((int_beq_iff r.signal info.si_signo).0 own) ∙ same
    ]

translate-Translated :
    (h : Header) (rs : List Const) (info : Siginfo)
    → h.sigchld ≢ any_signal
    → All (Sound h) rs
    → Translated h info (translate rs info)
unfolding translate
translate-Translated h [] info proper sound = (unknown, refl, inl refl)
translate-Translated h (r ∷ rs) info proper (here, later) = elim (Bool-cases (applies r info)) [
  | inl hit ↦
      let (cause, byte, place) = here in
      rw hit (
        cause,
        byte,
        elim place [
          | inl grown ↦ inl grown
          | inr same ↦ inr (applies-signal h r info proper hit same)
        ],
      )
  | inr miss ↦ rw miss (translate-Translated h rs info proper later)
]

-- Nobody is known to have sent it.
abbrev pub Anonymous : Cause → Type 0
Anonymous of_unknown = Unit
Anonymous of_kernel = Unit
Anonymous (sent s) = ⊥
Anonymous (chld s) = ⊥

abbrev pub OfChild : Cause → Type 0
OfChild (chld s) = Unit
OfChild _ = ⊥

-- The process is there exactly for a cause that has one.
abbrev pub ProcessFits : Siginfo → Origin → Type 0
ProcessFits info o =
    ((o.process ≡ none) × Anonymous o.cause)
    ⊎ ((o.process ≡ some (extract_process info)) × (Anonymous o.cause → ⊥))

origin_of-ProcessFits : (cause : Icause) (info : Siginfo) → ProcessFits info (origin_of cause info)
unfolding origin_of has_process from
origin_of-ProcessFits unknown info = inl (refl, tt)
origin_of-ProcessFits kernel info = inl (refl, tt)
origin_of-ProcessFits user info = inr (refl, λ x. x)
origin_of-ProcessFits tkill info = inr (refl, λ x. x)
origin_of-ProcessFits queue info = inr (refl, λ x. x)
origin_of-ProcessFits mesgq info = inr (refl, λ x. x)
origin_of-ProcessFits exited info = inr (refl, λ x. x)
origin_of-ProcessFits killed info = inr (refl, λ x. x)
origin_of-ProcessFits dumped info = inr (refl, λ x. x)
origin_of-ProcessFits trapped info = inr (refl, λ x. x)
origin_of-ProcessFits stopped info = inr (refl, λ x. x)
origin_of-ProcessFits continued info = inr (refl, λ x. x)

from-OfChild : (cause : Icause) → OfChild (from cause) → is_child cause ≡ true
unfolding from
from-OfChild unknown h = elim h [ ]
from-OfChild kernel h = elim h [ ]
from-OfChild user h = elim h [ ]
from-OfChild tkill h = elim h [ ]
from-OfChild queue h = elim h [ ]
from-OfChild mesgq h = elim h [ ]
from-OfChild exited h = refl
from-OfChild killed h = refl
from-OfChild dumped h = refl
from-OfChild trapped h = refl
from-OfChild stopped h = refl
from-OfChild continued h = refl

-- `Origin::extract` of any signal information, where SIGCHLD is not -1: the byte of extract.c is a
-- discriminant of `ICause`, the signal is that of the information, the process is absent exactly
-- for an unknown cause or the kernel and else holds the information's process and user, and a
-- child's cause comes with SIGCHLD only.
pub extract_correct :
    (h : Header) (info : Siginfo)
    → h.sigchld ≢ any_signal
    → (o : Origin) × (extract h info ≡ some o)
      × (o.signal ≡ info.si_signo)
      × ProcessFits info o
      × ((OfChild o.cause → ⊥) ⊎ (o.signal ≡ h.sigchld))
unfolding extract sighook_signal_cause origin_of
extract_correct h info proper =
    let (cause, byte, place) = translate-Translated h (consts h) info proper (consts-Sound h) in
    (
      origin_of cause info,
      rw (byte, extract) refl,
      refl,
      origin_of-ProcessFits cause info,
      elim place [
        | inl grown ↦
            inl (λ child. let clash : true ≡ false = sym (from-OfChild cause child) ∙ grown in cc)
        | inr signo ↦ inr signo
      ],
    )
