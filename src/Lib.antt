-- ===== src/Lib.antt =====
-- Verification of signal-hook and signal-hook-registry: Unix signal handlers that several parties
-- share.
--
-- The program. The registry (signal-hook-registry/src/lib.rs) keeps one table of actions for each
-- signal and installs one handler. Handlers may interrupt any thread, so they read the table through
-- a half-lock (signal-hook-registry/src/half_lock.rs) that never blocks a reader; the table is a
-- vector of pairs (signal-hook-registry/src/vec_map.rs). The iterator (src/iterator/) registers
-- actions that store into slots, one for each signal, and wake a reader through a self-pipe; the
-- slots that keep more than a flag are channels of five places (src/low_level/channel.rs).
--
-- The files.
--   Base       shared names, outcomes (a result, an error, a panic, the end of the process or a
--              thread that blocks for ever), lists and families over native numbers.
--   VecMap     vec_map.rs. `VecMap.new`, `find`, `get`, `insert`, ... are the functions of that name.
--   HalfLock   half_lock.rs. `Reader` and `Writer` say where `read`, and `write` with `store` and
--              `write_barrier`, stand; `Step` has one step for each access to shared memory.
--   Channel    channel.rs. The functions of that name, and in `Channel.Threads` one step for each
--              atomic access, for any number of threads and handlers.
--   Registry   lib.rs of the registry. `handler` is what the kernel calls, `deliver` what it runs at
--              a signal. Registration runs in `Proc`, which keeps every state that a write of shared
--              memory made visible, as a handler may run in each of them. `Registry.Model` is a table
--              of lists of actions, the clients' view of a sequence of calls. `Registry.Windows` has the
--              handler for Windows, over the C runtime `Crt`: `come` is a signal that
--              comes in, and `rearm` the call by which the handler installs itself again.
--   Backend    src/iterator/backend.rs, src/iterator/exfiltrator/mod.rs and raw.rs, and `wake` of
--              src/low_level/pipe.rs. `Exfiltrator` is the trait; `Backend.Wakeup` has the
--              interleavings of handlers with the loop of `SignalIterator::poll_signal`.
--              `Backend.Construction` has `with_pipe` and the drop of `DeliveryState`; `Backend.Queues`
--              what the iterator reports of slots that are queues.
--   Iterator   src/iterator/mod.rs: `SignalsInfo` and `Forever`. A read of the pipe blocks, so an
--              `Event` list says what the handlers and the other threads do meanwhile.
--   Adapters   signal-hook-tokio/src/lib.rs and signal-hook-async-std/src/lib.rs: the streams; and
--              signal-hook-mio/src/lib.rs.
--   Details    src/low_level/signal_details.rs: the table of signals, `signal_name`, and
--              `emulate_default_handler` as the calls of libc that it makes.
--   Flag       src/flag.rs: `Closure` has the closures that it registers, `run_events` runs them.
--   Origins    src/low_level/siginfo.rs, src/low_level/extract.c and
--              src/iterator/exfiltrator/origin.rs.
--   Pipe       src/low_level/pipe.rs: `register_raw`, how it makes a descriptor ready, and the
--              call by which it wakes.
--
-- Parameters. The C library and the kernel are the record `Libc`; what sigaction(2) documents of
-- `sigaction` is `SigactionLaws`. What the default action of a signal does to the process is a field
-- of `Libc`. The registry never puts a default action back: `passed_on` is what its handler runs in
-- place of what was installed, which is nothing for a default action. A user's closure is a value,
-- and running it an event. The capacity of the self-pipe is a number. The numbers of the signals and
-- the constants of signal.h are functions and records; `fcntl` and what its manual page says are
-- `FdCalls` and `FcntlLaws`. The `poll_read` of a runtime's socket is a function, of which `Reads`
-- and `TokioReads` are what its documentation says.
--
-- Numbers. A C int is an integer; `usize` has 64 bits and `ActionId` 128, with the wrap-around
-- written out. The half-lock is for at most 2^63 - 1 readers, as the code aborts beyond.
--
-- Fuel and loops. Loops over vectors and slots are recursion on what is left. The waiting loop of
-- `write_barrier` and the exchange loops of the channel are steps. `flush_from` has a byte of fuel for
-- each byte, of which each round takes one at least; `poll_signal` has rounds, of which two are enough
-- when no handler runs in between, and three where the read blocks; `Forever::next` needs one round.
--
-- Not modelled: the registration for Windows and other special targets, memory orders weaker than
-- sequential consistency, `Debug` output, and how the adapter for mio passes its pipe to a poll;
-- tests, examples and the build script.
pub mod Base
pub mod VecMap
pub mod HalfLock
pub mod Channel
pub mod Registry
pub mod Backend
pub mod Adapters
pub mod Details
pub mod Flag
pub mod Iterator
pub mod Origins
pub mod Pipe
