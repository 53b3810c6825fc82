-- ===== src/Channel/Threads/Tests.antt =====
-- Two threads of channel.rs: both send, and one loses an exchange.
use signal_hook.Base.{ℕ, ◌^◌, ◌<◌, ◌≡◌, ◌≢◌, refl, some, arith, ok}
use signal_hook.Channel.{enqueue, dequeue}
use signal_hook.Channel.Threads.{
  Shared, Pc, filling, panicked, Move, start_send, retry_empty, win_empty, fill, load_full,
  win_full, System, pick, fresh, Reach, start, later,
}
use signal_hook.Channel.Threads.Safety.{no_panic, slots_exclusive, words_fit}

record Made : Type 0 where
  last : System ℕ
  open last use *
  reach : Reach 2 last

abbrev then :
    (m : Made) (i : ℕ) {s : Shared ℕ} {p : Pc ℕ} → i < 2 → Move m.shared (m.pc i) s p → Made
then m i lt mv = record { last = _; reach = later m.reach (pick i lt mv) }

first_number : dequeue 0o54321 ≡ some (1, 0o5432)
unfolding dequeue
first_number = refl

second_number : dequeue 0o5432 ≡ some (2, 0o543)
unfolding dequeue
second_number = refl

put_one : enqueue 0 1 ≡ ok 1
unfolding enqueue
put_one = refl

-- Both threads read the empty queue; thread 0 wins the first number, and thread 1 tries again.
abbrev contended : Made
contended =
    then
      (then
        (then
          (then
            (then (record { last = fresh; reach = start }) 0 (omega arith) (start_send {v = 70})) 1
            (omega arith) (start_send {v = 71}))
          0 (omega arith) (win_empty first_number refl))
        1 (omega arith) (retry_empty first_number))
      1 (omega arith) (win_empty second_number refl)

contended_state : (contended.pc 0 ≡ filling 70 1) × (contended.pc 1 ≡ filling 71 2)
contended_state = (refl, refl)

-- Thread 0 has put its value in, and thread 1 has still to.
abbrev delivered : Made
delivered =
    then
      (then (then contended 0 (omega arith) (fill (omega arith, omega arith))) 0 (omega arith)
        load_full)
      0 (omega arith) (win_full put_one refl)

no_panic_example : delivered.pc 0 ≢ panicked
no_panic_example = no_panic delivered.reach 0 (omega arith)

slots_exclusive_example : ◌≡◌ {A = ℕ} 1 1
slots_exclusive_example =
    slots_exclusive delivered.reach 2 1 1 (omega arith) (omega arith) refl refl

words_fit_example : (delivered.shared.empty < 2 ^ 15) × (delivered.shared.full < 2 ^ 15)
words_fit_example = words_fit delivered.reach
