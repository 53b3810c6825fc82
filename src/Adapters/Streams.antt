-- ===== src/Adapters/Streams.antt =====
-- What `poll_next` of the two streams answers.
use signal_hook.Base.{
  ℕ, zero, suc, ◌<◌, ◌≤◌, ◌≡◌, refl, Bool, true, false, Option, none, some, ℤ, Outcome, ok, err,
  stop, ◌>>=◌, ltb, length, arith, ap, ◌∙◌, inl, inr,
}
use signal_hook.Backend.{Exfiltrator, SignalDelivery, signal_only}
use signal_hook.Backend.Poll.{
  HasSignals, on_bytes, SignalIterator, PollResult, signal, pending, closed, failed, poll_signal,
}
use signal_hook.Backend.Polling.{Fits, poll_signal_answers}
use signal_hook.Adapters.{Poll, ready, waiting}
use signal_hook.Adapters.Tokio
use signal_hook.Adapters.AsyncStd

-- The sockets of the two runtimes answer alike, and neither is at its end.
abbrev pub Alike : Poll (Outcome (Unit {0})) → Poll (Outcome ℕ) → Type 0
Alike waiting waiting = Unit
Alike (ready (ok u)) (ready (ok num_read)) = 0 < num_read
Alike (ready (err e)) (ready (err e')) = e ≡ e'
Alike (ready (stop s)) (ready (stop s')) = s ≡ s'
Alike _ _ = ⊥

positive : (n : ℕ) → 0 < n → ltb 0 n ≡ true
positive n h = ground arith

after_read-Alike :
    {S : Type 0} (a : Poll (Outcome (Unit {0}))) (b : Poll (Outcome ℕ)) (d : SignalDelivery S)
    → Alike a b
    → Tokio.after_read a d ≡ AsyncStd.after_read b d
after_read-Alike waiting waiting d h = refl
after_read-Alike (ready (ok u)) (ready (ok n)) d h = rw (positive n h) refl
after_read-Alike (ready (err e)) (ready (err e')) d h = ap err h
after_read-Alike (ready (stop s)) (ready (stop s')) d h = ap stop h
after_read-Alike waiting (ready b) d h = absurd h
after_read-Alike (ready (ok u)) waiting d h = absurd h
after_read-Alike (ready (ok u)) (ready (err e)) d h = absurd h
after_read-Alike (ready (ok u)) (ready (stop s)) d h = absurd h
after_read-Alike (ready (err e)) waiting d h = absurd h
after_read-Alike (ready (err e)) (ready (ok n)) d h = absurd h
after_read-Alike (ready (err e)) (ready (stop s)) d h = absurd h
after_read-Alike (ready (stop s)) waiting d h = absurd h
after_read-Alike (ready (stop s)) (ready (ok n)) d h = absurd h
after_read-Alike (ready (stop s)) (ready (err e)) d h = absurd h

answers_agree :
    {S O : Type 0} (r : Unit {0} × SignalIterator S × Option (PollResult O))
    → Tokio.answer r ≡ AsyncStd.answer r
unfolding Tokio.answer AsyncStd.answer
answers_agree (u, it, some (signal o)) = refl
answers_agree (u, it, some closed) = refl
answers_agree (u, it, some pending) = refl
answers_agree (u, it, some (failed e)) = refl
answers_agree (u, it, none) = refl

>>=-cong :
    {A B : Type 0} (m : Outcome A) (f g : A → Outcome B)
    → ((a : A) → f a ≡ g a)
    → (m >>= f) ≡ (m >>= g)
>>=-cong (ok a) f g h = h a
>>=-cong (err e) f g h = refl
>>=-cong (stop x) f g h = refl

-- On sockets that answer alike, and do not read an end of file, the two streams are one.
streams_agree :
    {S O : Type 0} (ex : Exfiltrator S O) (tokio_read : Tokio.PollRead)
    (async_read : AsyncStd.PollRead)
    → ((bytes : ℕ) → Alike (tokio_read bytes).0 (async_read bytes).0)
    → ((bytes : ℕ) → (tokio_read bytes).1 ≡ (async_read bytes).1)
    → (rounds : ℕ) (it : SignalIterator S)
    → Tokio.poll_next ex rounds tokio_read it ≡ AsyncStd.poll_next ex rounds async_read it
unfolding Tokio.poll_next AsyncStd.poll_next
streams_agree {S} ex tokio_read async_read alike left rounds it =
    let same : Tokio.has_signals {S = S} tokio_read ≡ AsyncStd.has_signals async_read =
      λ i u d. has_signals-Alike d i in
    ap (λ (h : HasSignals (Unit {0}) S). poll_signal ex rounds h tt it >>= Tokio.answer) same
    ∙ >>=-cong (poll_signal ex rounds (AsyncStd.has_signals async_read) tt it) Tokio.answer
        AsyncStd.answer answers_agree
  where
    has_signals-Alike :
        (d : SignalDelivery S)
        → Tokio.has_signals tokio_read tt d ≡ AsyncStd.has_signals async_read tt d
    has_signals-Alike d =
        after_read-Alike (tokio_read d.bytes).0 (async_read d.bytes).0
          (record d { bytes = (tokio_read d.bytes).1 }) (alike d.bytes)
        ∙ ap (λ n. AsyncStd.after_read (async_read d.bytes).0 (record d { bytes = n }))
            (left d.bytes)

-- What a result of `poll_signal` becomes, where it is not an error.
abbrev pub polled : {O : Type 0} → PollResult O → Poll (Option O)
polled (signal o) = ready (some o)
polled closed = ready none
polled pending = waiting
polled (failed e) = waiting

-- How a poll of a socket is documented: it takes the byte that there is, or it waits.
abbrev pub Reads : AsyncStd.PollRead → Type 0
Reads poll_read = (poll_read 0 ≡ (waiting, 0)) × ((n : ℕ) → poll_read (suc n) ≡ (ready (ok 1), n))

-- The answer of a poll as that of a read of the bytes.
abbrev bare : Poll (Outcome ℕ) → ℕ → Outcome (Bool × ℕ)
bare waiting left = ok (false, left)
bare (ready (ok num_read)) left = ok (ltb 0 num_read, left)
bare (ready (err e)) left = err e
bare (ready (stop s)) left = stop s

abbrev read_of : AsyncStd.PollRead → ℕ → Outcome (Bool × ℕ)
read_of poll_read bytes = bare (poll_read bytes).0 (poll_read bytes).1

bare_lem :
    {S : Type 0} (a : Poll (Outcome ℕ)) (left : ℕ) (d : SignalDelivery S)
    → AsyncStd.after_read a (record d { bytes = left })
      ≡ (bare a left >>= λ r. ok (r.0, tt, record d { bytes = r.1 }))
bare_lem waiting left d = refl
bare_lem (ready (ok n)) left d = refl
bare_lem (ready (err e)) left d = refl
bare_lem (ready (stop s)) left d = refl

reads_bytes :
    {S : Type 0} (poll_read : AsyncStd.PollRead)
    → AsyncStd.has_signals {S = S} poll_read ≡ on_bytes (read_of poll_read)
reads_bytes poll_read = λ i u d. bare_lem (poll_read d.bytes).0 (poll_read d.bytes).1 d i

answer-Fits :
    (it it' : SignalIterator Bool) (r : PollResult ℤ)
    → Fits it it' r
    → AsyncStd.answer (tt, it', some r) ≡ ok (it', some (polled r))
unfolding AsyncStd.answer
answer-Fits it it' (signal o) fits = refl
answer-Fits it it' closed fits = refl
answer-Fits it it' pending fits = refl
answer-Fits it it' (failed e) (inl (shut, same)) = cc
answer-Fits it it' (failed e) (inr (inl (open_, (k, raised, same, left)))) = cc
answer-Fits it it' (failed e) (inr (inr (open_, same, low, why, empty))) = cc

-- The stream for async-std over the flags of `SignalOnly`, on a socket of which a poll takes the byte
-- that there is or waits, never panics, and two rounds are enough for it. It ends only if the
-- instance is closed; or it yields the number of a raised flag and lowers that flag alone; or it
-- waits, and then no flag from the iterator's position on was raised, none at all was unless
-- the socket was empty, and the socket is empty.
pub poll_next_answers :
    (poll_read : AsyncStd.PollRead)
    → Reads poll_read
    → (it : SignalIterator Bool) → it.position ≤ length it.signals.slots
    → (it' : SignalIterator Bool) × (r : PollResult ℤ) × (AsyncStd.poll_next signal_only 2 poll_read
          it
        ≡ ok (it', some (polled r)))
      × Fits it it' r
unfolding AsyncStd.poll_next AsyncStd.answer
poll_next_answers poll_read reads it h =
    let (it', r, run, fits) =
      poll_signal_answers (read_of poll_read) (rw (reads.0) refl) (λ n. rw (reads.1 n) refl) it h in
    (
      it',
      r,
      ap (λ (h : HasSignals (Unit {0}) Bool). poll_signal signal_only 2 h tt it >>= AsyncStd.answer)
            (reads_bytes poll_read)
          ∙ ap (λ o. o >>= AsyncStd.answer) run
          ∙ answer-Fits it it' r fits,
      fits,
    )

-- The same for tokio, whose `poll_read` leaves the count in the buffer.
abbrev pub TokioReads : Tokio.PollRead → Type 0
TokioReads poll_read =
    (poll_read 0 ≡ (waiting, 0)) × ((n : ℕ) → poll_read (suc n) ≡ (ready (ok tt), n))

-- A socket for async-std that answers alike.
abbrev counted : ℕ → Poll (Outcome ℕ) × ℕ
counted zero = (waiting, 0)
counted (suc n) = (ready (ok 1), n)

-- The stream for tokio over the flags of `SignalOnly`, on a socket of which a poll takes the byte
-- that there is or waits, never panics, and two rounds are enough for it. It ends only if the
-- instance is closed; or it yields the number of a raised flag and lowers that flag alone; or it
-- waits, and then no flag from the iterator's position on was raised, none at all was unless
-- the socket was empty, and the socket is empty.
pub tokio_answers :
    (poll_read : Tokio.PollRead)
    → TokioReads poll_read
    → (it : SignalIterator Bool) → it.position ≤ length it.signals.slots
    → (it' : SignalIterator Bool) × (r : PollResult ℤ) × (Tokio.poll_next signal_only 2 poll_read it
        ≡ ok (it', some (polled r)))
      × Fits it it' r
tokio_answers poll_read reads it h =
    let (it', r, run, fits) = poll_next_answers counted (refl, λ n. refl) it h in
    (it', r, streams_agree signal_only poll_read counted alike left 2 it ∙ run, fits)
  where
    alike : (bytes : ℕ) → Alike (poll_read bytes).0 (counted bytes).0
    alike zero = rw (reads.0) tt
    alike (suc n) = rw (reads.1 n) (omega arith)

    left : (bytes : ℕ) → (poll_read bytes).1 ≡ (counted bytes).1
    left zero = rw (reads.0) refl
    left (suc n) = rw (reads.1 n) refl
