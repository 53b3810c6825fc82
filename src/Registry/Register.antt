-- ===== src/Registry/Register.antt =====
-- Registration and its undoing, each write of shared memory in its place.
use signal_hook.Base.{
  ℕ, Bool, true, false, Option, none, some, List, [], ◌∷◌, ℤ, ◌==◌, int_eq, nat_eq, ok, err, stop,
  assert, not, bit_or, if◌then◌else◌,
}
use signal_hook.VecMap
use signal_hook.Registry.{
  Sigaction, Action, plain, informed, SigId, Prev, Slot, SignalData, GlobalData, Libc, World,
}
use signal_hook.Registry.Tables.{advance, add_to_slot, add_slot, remove_action, clear_actions}
use signal_hook.Registry.Proc.{Proc, lift, pure, get_world, put_world, ◌>>=◌, ◌>>◌}

-- `FORBIDDEN.contains(&signal)`
unfoldable pub contains : ℤ → List ℤ → Bool
contains signal [] = false
contains signal (s ∷ rest) = if s == signal then true else contains signal rest

-- `FORBIDDEN_IMPL`
abbrev pub forbidden : Libc → List ℤ
forbidden c = c.sigkill ∷ c.sigstop ∷ c.sigill ∷ c.sigfpe ∷ c.sigsegv ∷ []

abbrev pub initial : {F : Type 0} → GlobalData F
initial = record {
  data_lock = record { signals = record { entries = [] }; next_id = 1 };
  race_fallback = none;
}

abbrev pub our_action : Libc → Sigaction
our_action c = record { sa_sigaction = c.handler_ptr; sa_flags = bit_or c.sa_restart c.sa_siginfo }

module _ {F : Type 0} (c : Libc) where
  unfoldable pub set_up : World c F → Option (GlobalData F) → Proc (World c F) (GlobalData F)
  set_up w none = do put_world (record w { globals = some initial }); pure initial
  set_up w (some globals) = pure globals

  -- `GlobalData::ensure`
  unfoldable pub ensure : Proc (World c F) (GlobalData F)
  unfolding set_up
  ensure = do w ← get_world; set_up w w.globals

  -- `lock.store(sigdata)`
  unfoldable pub store_data : GlobalData F → SignalData F → Proc (World c F) (Unit {0})
  store_data globals sigdata w =
      put_world (record w { globals = some (record globals { data_lock = sigdata }) }) w

  -- `globals.race_fallback.write().store(Some(prev))`, with the globals after it.
  unfoldable pub store_fallback : GlobalData F → Prev → Proc (World c F) (GlobalData F)
  store_fallback globals prev w =
      let globals' : GlobalData F = record globals { race_fallback = some prev } in
      (put_world (record w { globals = some globals' }) >> pure globals') w

  -- A call of `sigaction`, with the disposition that it hands back.
  unfoldable pub call_sigaction : ℤ → Option Sigaction → Proc (World c F) Sigaction
  call_sigaction signal act w = elim (c.sigaction w.os signal act) [
    | ok (old, os) ↦ (put_world (record w { os = os }) >> pure old) w
    | err e ↦ lift (err e) w
    | stop s ↦ lift (stop s) w
  ]

  -- `Prev::detect`
  unfoldable pub detect : ℤ → Proc (World c F) Prev
  unfolding call_sigaction
  detect signal = do old ← call_sigaction signal none; pure (record { signal = signal; info = old })

  -- `Slot::new`
  unfoldable pub new_slot : ℤ → Proc (World c F) (Slot F)
  unfolding call_sigaction
  new_slot signal = do
    old ← call_sigaction signal (some (our_action c))
    pure (record {
      prev = record { signal = signal; info = old };
      actions = record { entries = [] };
    })

  -- The two branches of `register_unchecked_impl`, up to the store.
  unfoldable pub add_first :
      GlobalData F
      → SignalData F
      → ℤ
      → ℕ
      → Action F
      → Proc (World c F) (GlobalData F × SignalData F)
  unfolding detect store_fallback new_slot add_slot
  add_first globals sigdata signal id action = do
    prev ← detect signal
    globals' ← store_fallback globals prev
    slot ← new_slot signal
    sigdata' ← lift (add_slot sigdata signal id action slot)
    pure (globals', sigdata')

  unfoldable pub add_more :
      GlobalData F
      → SignalData F
      → ℤ
      → ℕ
      → Action F
      → Proc (World c F) (GlobalData F × SignalData F)
  unfolding add_to_slot
  add_more globals sigdata signal id action = do
    sigdata' ← lift (add_to_slot sigdata signal id action)
    pure (globals, sigdata')

  unfoldable pub register_unchecked_impl : ℤ → Action F → Proc (World c F) SigId
  unfolding ensure add_first add_more store_data
  register_unchecked_impl signal action = do
    globals ← ensure
    let id = globals.data_lock.next_id
    let sigdata = advance globals.data_lock
    (globals', sigdata') ←
        (if VecMap.contains sigdata.signals signal
          then add_more globals sigdata signal id action
          else add_first globals sigdata signal id action)
    store_data globals' sigdata'
    pure (record { signal = signal; action = id })

  -- `register_sigaction_impl`
  unfoldable pub register_sigaction_impl : ℤ → Action F → Proc (World c F) SigId
  unfolding register_unchecked_impl contains
  register_sigaction_impl signal action = do
    lift (assert (not (contains signal (forbidden c))))
    register_unchecked_impl signal action

  unfoldable pub register : ℤ → F → Proc (World c F) SigId
  unfolding register_sigaction_impl
  register signal action = register_sigaction_impl signal (plain action)

  unfoldable pub register_sigaction : ℤ → F → Proc (World c F) SigId
  unfolding register_sigaction_impl
  register_sigaction signal action = register_sigaction_impl signal (informed action)

  unfoldable pub register_signal_unchecked : ℤ → F → Proc (World c F) SigId
  unfolding register_unchecked_impl
  register_signal_unchecked signal action = register_unchecked_impl signal (plain action)

  unfoldable pub register_unchecked : ℤ → F → Proc (World c F) SigId
  unfolding register_unchecked_impl
  register_unchecked signal action = register_unchecked_impl signal (informed action)

  -- `if replace { lock.store(sigdata) }`, and the answer.
  unfoldable pub store_if : GlobalData F → SignalData F × Bool → Proc (World c F) Bool
  unfolding store_data
  store_if globals (sigdata, false) = pure false
  store_if globals (sigdata, true) = do store_data globals sigdata; pure true

  unfoldable pub unregister : SigId → Proc (World c F) Bool
  unfolding ensure remove_action store_if
  unregister id = do
    globals ← ensure
    change ← lift (remove_action globals.data_lock id)
    store_if globals change

  unfoldable pub unregister_signal : ℤ → Proc (World c F) Bool
  unfolding ensure clear_actions store_if
  unregister_signal signal = do
    globals ← ensure
    change ← lift (clear_actions globals.data_lock signal)
    store_if globals change
