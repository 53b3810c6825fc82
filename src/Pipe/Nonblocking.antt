-- ===== src/Pipe/Nonblocking.antt =====
-- The wake of a pipe that is registered does not block, and the pipe is closed on exec.
use signal_hook.Base.{
  Bool, false, ◌==◌, ==_refl, nat_eq, if◌then◌else◌, ◌≢◌, ℕ, ◌+◌, ◌<◌, ◌^◌, ◌≡◌, refl, ℤ, Option,
  none, some, Outcome, ok, err, stop, >>=_ok, bit_or, sym, ap, ◌∙◌, Stop,
}
use signal_hook.Registry.{plain, SigId, Libc, SigactionLaws, World}
use signal_hook.Registry.Proc.{Ran, lift}
use signal_hook.Registry.State.{globals_of, Coherent}
use signal_hook.Registry.Atomic.{Registered}
use signal_hook.Registry.Entry.{register-Registered}
use signal_hook.Registry.Register as Registry
use signal_hook.Pipe.{
  WakeMethod, send_method, write_method, descriptor, status, Fd, Probe, returned_zero, would_block,
  failed_otherwise, FdCalls, check_call, add_fcntl_flag, choose_method, prepare, WakeFd,
  register_raw, SysCall, write_byte, send_byte, wake,
}

-- What fcntl(2) says: a get returns the flags. F_SETFD replaces its flags. F_SETFL leaves the other set
-- alone, and with O_NONBLOCK among its flags the descriptor does not make a write wait; of the other
-- status flags it may ignore some. `can_wait` is whether a write waits in a full pipe, by the flags.
pub record FcntlLaws (k : FdCalls) (can_wait : ℕ → Bool) : Type 0 where
  pub get_descriptor :
      (fd : Fd) (f : ℕ) → k.get_flags fd descriptor ≡ some f → f ≡ fd.descriptor_flags
  pub get_status : (fd : Fd) (f : ℕ) → k.get_flags fd status ≡ some f → f ≡ fd.status_flags
  pub set_descriptor :
      (fd fd' : Fd) (f : ℕ)
      → k.set_flags fd descriptor f ≡ some fd'
      → fd' ≡ record fd { descriptor_flags = f }
  pub set_status :
      (fd fd' : Fd) (f : ℕ)
      → k.set_flags fd status f ≡ some fd'
      → fd'.descriptor_flags ≡ fd.descriptor_flags
  pub set_nonblock :
      (fd fd' : Fd) (f : ℕ)
      → k.set_flags fd status (bit_or f k.o_nonblock) ≡ some fd'
      → can_wait fd'.status_flags ≡ false

check_call-ok :
    {A : Type 0} (k : FdCalls) (o : Option A) (a : A) → check_call k o ≡ ok a → o ≡ some a
check_call-ok k none a h = cc
check_call-ok k (some b) a h = cc

module _ (k : FdCalls) (can_wait : ℕ → Bool) (laws : FcntlLaws k can_wait) where
  add_descriptor :
      (fd fd' : Fd) (flag : ℕ)
      → add_fcntl_flag k fd descriptor flag ≡ ok fd'
      → fd' ≡ record fd { descriptor_flags = bit_or fd.descriptor_flags flag }
  unfolding add_fcntl_flag
  add_descriptor fd fd' flag h =
      let (f, got, rest) = >>=_ok (check_call k (k.get_flags fd descriptor)) _ h in
      laws.set_descriptor fd fd' (bit_or f flag) (check_call-ok k _ fd' rest)
      ∙ ap (λ x. record fd { descriptor_flags = bit_or x flag })
          (laws.get_descriptor fd f (check_call-ok k _ f got))

  add_nonblock :
      (fd fd' : Fd)
      → add_fcntl_flag k fd status k.o_nonblock ≡ ok fd'
      → (fd'.descriptor_flags ≡ fd.descriptor_flags) × (can_wait fd'.status_flags ≡ false)
  unfolding add_fcntl_flag
  add_nonblock fd fd' h =
      let (f, got, rest) = >>=_ok (check_call k (k.get_flags fd status)) _ h in
      let set = check_call-ok k _ fd' rest in
      (laws.set_status fd fd' (bit_or f k.o_nonblock) set, laws.set_nonblock fd fd' f set)

  -- What send(2) and write(2) say: `send` with MSG_DONTWAIT does not wait, and `write` waits by the
  -- flags of the descriptor.
  abbrev pub waits : SysCall → Bool
  waits (write_byte fd) = can_wait fd.status_flags
  waits (send_byte fd flags) = if flags == k.msg_nowait then false else can_wait fd.status_flags

  -- `send` is for sockets alone, of which an empty `send` tells.
  abbrev pub Fits : SysCall → Type 0
  Fits (write_byte fd) = Unit
  Fits (send_byte fd flags) = k.probe fd ≢ failed_otherwise

  -- The wake does not wait, and it is a call that the descriptor is for.
  abbrev pub NeverBlocks : WakeFd → Type 0
  NeverBlocks ready = (waits (wake k ready) ≡ false) × Fits (wake k ready)

  sends-NeverBlocks :
      (fd : Fd)
      → k.probe fd ≢ failed_otherwise
      → NeverBlocks (record { fd = fd; method = send_method })
  unfolding wake
  sends-NeverBlocks fd socket = (rw (==_refl k.msg_nowait) refl, socket)

  writes-NeverBlocks :
      (fd : Fd)
      → can_wait fd.status_flags ≡ false
      → NeverBlocks (record { fd = fd; method = write_method })
  unfolding wake
  writes-NeverBlocks fd calm = (calm, tt)

  abbrev Ready : Fd → Fd → WakeMethod → Type 0
  Ready fd fd' m =
      NeverBlocks (record { fd = fd'; method = m }) × (fd'.descriptor_flags ≡ fd.descriptor_flags)

  pair :
      {fd fd' : Fd} {m m' : WakeMethod}
      → ◌≡◌ {A = Outcome (Fd × WakeMethod)} (ok (fd, m)) (ok (fd', m'))
      → (fd ≡ fd') × (m ≡ m')
  pair e = (cc, cc)

  send-Ready :
      (fd fd' : Fd) (m : WakeMethod)
      → k.probe fd ≢ failed_otherwise
      → ◌≡◌ {A = Outcome (Fd × WakeMethod)} (ok (fd, send_method)) (ok (fd', m))
      → Ready fd fd' m
  send-Ready fd fd' m socket h =
      let (e, e') = pair h in rw (← e, ← e') (sends-NeverBlocks fd socket, refl)

  choose_method-Ready :
      (fd fd' : Fd) (p : Probe) (m : WakeMethod)
      → k.probe fd ≡ p
      → choose_method k fd p ≡ ok (fd', m)
      → Ready fd fd' m
  unfolding choose_method
  choose_method-Ready fd fd' returned_zero m is h = send-Ready fd fd' m (λ e. cc) h
  choose_method-Ready fd fd' would_block m is h = send-Ready fd fd' m (λ e. cc) h
  choose_method-Ready fd fd' failed_otherwise m is h =
      let (fd2, added, rest) = >>=_ok (add_fcntl_flag k fd status k.o_nonblock) _ h in
      let (e, e') = pair rest in
      let (kept, calm) = add_nonblock fd fd2 added in
      rw (← e, ← e') (writes-NeverBlocks fd2 calm, kept)

  prepare-NeverBlocks :
      (pipe fd : Fd) (m : WakeMethod)
      → prepare k pipe ≡ ok (fd, m)
      → NeverBlocks (record { fd = fd; method = m })
        × (fd.descriptor_flags ≡ bit_or pipe.descriptor_flags k.fd_cloexec)
  unfolding prepare
  prepare-NeverBlocks pipe fd m h =
      let (fd1, added, rest) = >>=_ok (add_fcntl_flag k pipe descriptor k.fd_cloexec) _ h in
      let (calm, kept) = choose_method-Ready fd1 fd (k.probe fd1) m refl rest in
      (
        calm,
        kept ∙ ap (λ (x : Fd). x.descriptor_flags) (add_descriptor pipe fd1 k.fd_cloexec added),
      )

  -- `register_raw` of a pipe, where `fcntl` and `sigaction` are as their manual pages say, the
  -- table agrees with the kernel and the identifiers have not run out. If it returns `Ok`, it has
  -- added an action behind the others of the signal. The call by which that action wakes does not wait
  -- for room in the pipe, and is a `send` only where an empty `send` has told that the descriptor is a
  -- socket; and the descriptor has FD_CLOEXEC besides its old flags.
  pub register_raw-NeverBlocks :
      (c : Libc) (signal : ℤ) (pipe : Fd) (w : World c WakeFd) (id : SigId)
      → SigactionLaws c
      → Coherent c (globals_of w.globals) w.os
      → (globals_of w.globals).data_lock.next_id + 1 < 2 ^ 128
      → (register_raw k c signal pipe w).result ≡ ok id
      → (ready : WakeFd) × NeverBlocks ready
        × (ready.fd.descriptor_flags ≡ bit_or pipe.descriptor_flags k.fd_cloexec)
        × Registered c signal (plain ready) w (register_raw k c signal pipe w).last
  unfolding register_raw
  register_raw-NeverBlocks c signal pipe w id kernel co room success =
      by_prepare (prepare k pipe) refl
    where
      Result : Ran (World c WakeFd) SigId → Type 0
      Result r =
          (ready : WakeFd) × NeverBlocks ready
          × (ready.fd.descriptor_flags ≡ bit_or pipe.descriptor_flags k.fd_cloexec)
          × Registered c signal (plain ready) w r.last

      failed : (e : ℤ) → ◌≡◌ {A = Outcome SigId} (err e) (ok id) → ⊥
      failed e h = cc

      stopped : (s : Stop) → ◌≡◌ {A = Outcome SigId} (stop s) (ok id) → ⊥
      stopped s h = cc

      by_prepare :
          (o : Outcome (Fd × WakeMethod))
          → prepare k pipe ≡ o
          → Result (register_raw k c signal pipe w)
      by_prepare (ok (fd, m)) e =
          let ready : WakeFd = record { fd = fd; method = m } in
          let run : register_raw k c signal pipe w ≡ Registry.register c signal ready w =
            rw (e, register_raw) refl in
          let (calm, closed) = prepare-NeverBlocks pipe fd m e in
          let done =
            register-Registered c kernel signal ready w id co room
              (ap (λ (r : Ran (World c WakeFd) SigId). r.result) (sym run) ∙ success) in
          rw run (ready, calm, closed, done.0)
      by_prepare (err n) e =
          let run : register_raw k c signal pipe w ≡ lift (err n) w = rw (e, register_raw) refl in
          absurd (failed n (ap (λ (r : Ran (World c WakeFd) SigId). r.result) (sym run) ∙ success))
      by_prepare (stop s) e =
          let run : register_raw k c signal pipe w ≡ lift (stop s) w = rw (e, register_raw) refl in
          absurd (stopped s (ap (λ (r : Ran (World c WakeFd) SigId). r.result) (sym run) ∙ success))
