-- ===== src/Registry/Model.antt =====
-- A sequence of the registry's calls, and what its clients think of it: each signal has a list of
-- actions, which the calls change one after the other. The first registration takes the signal away
-- from its default action, for ever.
use signal_hook.Base.{
  ℕ, ◌+◌, ◌≡◌, true, false, Option, none, some, List, [], ◌∷◌, ◌++◌, map, ℤ, ◌==◌, int_eq, nat_eq,
  Outcome, Bool, ok, err, if◌then◌else◌,
}
use signal_hook.VecMap.Spec.{lookup, erase}
use signal_hook.Registry.{Siginfo, Sigaction, Action, SigId, Slot, Libc, World}
use signal_hook.Registry.Handler.{ran, Handled, execute, left_to, passed_on, deliver}
use signal_hook.Registry.Register.{register_unchecked_impl, unregister, unregister_signal}
use signal_hook.Registry.State.{globals_of, slot_in, entries_of, Coherent}

pub data Call (F : Type 0) : Type 0 where
  registers : ℤ → Action F → Call F
  unregisters : SigId → Call F
  clears : ℤ → Call F

-- What a call has got to say.
pub data Answer : Type 0 where
  identifier : Outcome SigId → Answer
  changed : Outcome Bool → Answer

pub record Model (F : Type 0) : Type 0 where
  pub next : ℕ
  pub table : ℤ → List (ℕ × Action F)
  pub taken : ℤ → Bool

module _ {F : Type 0} where
  abbrev pub with_list : Model F → ℤ → List (ℕ × Action F) → Model F
  with_list m s es = record {
    next = m.next;
    table = λ t. if s == t then es else m.table t;
    taken = m.taken;
  }

  -- One more action at the end, and the next identifier.
  abbrev pub with_one_more : Model F → ℤ → Action F → Model F
  with_one_more m s a = record {
    next = m.next + 1;
    table = λ t. if s == t then m.table t ++ (m.next, a) ∷ [] else m.table t;
    taken = λ t. if s == t then true else m.taken t;
  }

  abbrev pub is_taken : Option (Slot F) → Bool
  is_taken none = false
  is_taken (some slot) = true

  -- The function that was installed at the start, and the actions.
  abbrev pub all_of : Libc → (ℤ → Sigaction) → Model F → ℤ → Siginfo → ℕ → Handled F
  all_of c start m t i u = record {
    events = execute c (start t) t (some i) u ++ map (λ kv. ran kv.1 i) (m.table t);
    result = ok tt;
  }

  -- Before the first registration, what the kernel does at the start.
  abbrev pub runs_of : Libc → (ℤ → Sigaction) → Model F → ℤ → Siginfo → ℕ → Handled F
  runs_of c start m t i u =
      if m.taken t then all_of c start m t i u else left_to c (start t) t (some i) u

module _ {F : Type 0} (c : Libc) where
  abbrev pub call : Call F → World c F → World c F
  call (registers s a) w = (register_unchecked_impl c s a w).last
  call (unregisters id) w = (unregister c id w).last
  call (clears s) w = (unregister_signal c s w).last

  abbrev pub answer : Call F → World c F → Answer
  answer (registers s a) w = identifier (register_unchecked_impl c s a w).result
  answer (unregisters id) w = changed (unregister c id w).result
  answer (clears s) w = changed (unregister_signal c s w).result

  -- What a call may answer and leave. Only `sigaction` can fail.
  pub data Allowed (m : Model F) : Call F → Answer → Model F → Type 0 where
    registered :
        {s : ℤ} {a : Action F}
        → Allowed m
            (registers s a)
            (identifier (ok (record { signal = s; action = m.next })))
            (with_one_more m s a)
    refused :
        {s : ℤ} {a : Action F} {e : ℤ} (os : c.Os) (act : Option Sigaction)
        → c.sigaction os s act ≡ err e
        → Allowed m (registers s a) (identifier (err e)) m
    unregistered :
        {id : SigId} {a : Action F}
        → lookup id.action (m.table id.signal) ≡ some a
        → Allowed m
            (unregisters id)
            (changed (ok true))
            (with_list m id.signal (erase id.action (m.table id.signal)))
    was_absent :
        {id : SigId}
        → lookup id.action (m.table id.signal) ≡ none
        → Allowed m (unregisters id) (changed (ok false)) m
    cleared :
        {s : ℤ} {e : ℕ × Action F} {es : List (ℕ × Action F)}
        → m.table s ≡ e ∷ es
        → Allowed m (clears s) (changed (ok true)) (with_list m s [])
    was_clear : {s : ℤ} → m.table s ≡ [] → Allowed m (clears s) (changed (ok false)) m

  module _ (start : ℤ → Sigaction) where
    -- The tables are the same, and a delivery runs what is to run.
    pub record Agrees (w : World c F) (m : Model F) : Type 0 where
      pub coherent : Coherent c (globals_of w.globals) w.os
      pub same_next : (globals_of w.globals).data_lock.next_id ≡ m.next
      pub same_table : (t : ℤ) → entries_of (globals_of w.globals) t ≡ m.table t
      pub same_taken : (t : ℤ) → is_taken (slot_in (globals_of w.globals) t) ≡ m.taken t
      pub passes :
          (t : ℤ) (i : Siginfo) (u : ℕ) → passed_on c w t (some i) u ≡ all_of c start m t i u
      pub runs : (t : ℤ) (i : Siginfo) (u : ℕ) → deliver c w t (some i) u ≡ runs_of c start m t i u

    -- Each call of the sequence answers and leaves what it may.
    abbrev pub Follows : List (Call F) → World c F → Model F → Type 0
    Follows [] w m = Agrees w m
    Follows (k ∷ ks) w m =
        Agrees w m × (m' : Model F) × Allowed m k (answer k w) m' × Follows ks (call k w) m'
