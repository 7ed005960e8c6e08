-- ===== src/Lib.antt =====
-- The thread pool library: a pool of worker threads that take closures from two bounded channels,
-- one for priority jobs and one for normal jobs, and a manager that adds and removes the workers.
--
-- Parts and how they interact. A caller hands a closure to `ThreadPool` (src/pool.rs), which packs
-- it in a `Message`, picks one of the two channels and sends it. Each `Worker` (src/worker.rs) runs
-- a loop in a thread of its own: it looks at its two receivers, runs what it takes, and then goes
-- by its idle time and by the status byte that it shares with the pool. `Manager` (src/manager.rs)
-- owns the workers' handles, their ids and the idle thresholds; a small lock in an atomic cell
-- (src/model.rs) keeps growing and shrinking apart. `Config` (src/config.rs) holds the settings.
-- Two modules keep pools in statics: src/single.rs one pool, src/multi.rs a store of pools by key
-- with a lock of its own; both start behind a `Once` and end behind a flag. src/executor.rs runs a
-- future to its end on the calling thread, or keeps it as a task whose value goes to a channel. A
-- switch in src/debug.rs says whether the other parts print what they do.
--
-- Files.
--   Prelude and its children: names of the libraries, Boolean tests, lists, results, bytes, and the
--     operations of `Vec` that the code calls; Maps: maps with text keys, as lists of entries.
--   Model: src/model.rs, the flags, `Message`, `StaticStore`. A closure is known by a number; what
--     the code asks of threads and closures is a list of `Event`s in order.
--   Model/Backoff: src/model.rs, `spin_update`, `concede_update`, `reset_lock`; Spin and Exclusion
--     hold the theorems.
--   Status: src/pool.rs, `PoolStatus`; Flags and Reads hold the theorems.
--   Channel: an interface for the channels of crossbeam_channel, a package that is not part of the
--     repository. Its laws (`IsFifo`) are those of its documentation for bounded channels.
--   Behaviors, Idle: src/manager.rs, `StatusBehaviors` and `IdleThreshold`.
--   Config: src/config.rs.
--   Worker: src/worker.rs, the handle `Worker`. Fetch: `fetch_work`, `unpack_message`. Queues:
--     `check_queues`. Loop: the main loop of `spawn_worker`, one round at a time, with `handle_work`
--     and `calc_idle`. Serving, Fairness, Rounds and Exit hold the theorems.
--   Manager: src/manager.rs, `build`, `add_workers`, `worker_cleanup`, `remove_all`, `wake_up`.
--     Sizing: `WorkerManagement`. Jobs: `JobManagement`. Lock, Cleanup, Valid, Growth, Shrink, Runs,
--     Ids and Jobs/Drops hold the theorems.
--   Pool: src/pool.rs, the struct, its creation, `amortized_new_size`, `wake_workers`. Dispatch:
--     `dispatch`, `send_timeout`, `send`, `try_send`. Life: `activate`, `hibernate`, `unhibernate`,
--     `clear`, `close`, `force_close`, `drop`. Exec: `exec`, `execute`. Resizing: `extend`, `shrink`,
--     `resize`, `auto_adjust`, `kill_worker` and the getters. Creation, Sending, Evicting, Retrying,
--     Running, Sizes, Closing and Sleeping hold the theorems. Delivering: a message and a queue that
--     has room for it. Blocking: `sync_block` and its theorem. Executing: `execute` beside `exec`.
--     Scaling: which operations keep the setting of `toggle_auto_scale`. Calls: the calls of a pool
--     that a user makes, in any order; its children Answering and Lazy hold the theorems, Frame, Keeping,
--     Submitting, Returning and Ready the lemmas.
--   Once: an interface for `parking_lot::Once`, a package that is not part of the repository, with
--     what its documentation says of `call_once` (`IsOnce`).
--   Single: src/single.rs, its three statics as one record, and its functions. Starting, Closed,
--     Adjusting and Reached hold the theorems; Holding and Creating their lemmas.
--   Multi: src/multi.rs, the store and its lock, the initializations, `run_with` and closing.
--     Changing: `resize_pool`, `remove_pool`, `add_pool`. Adjusting: the automatic adjustment. Calls:
--     the calls of the module, in any order. Threads: threads in `add_pool` and `remove_pool` at
--     once, one access to the lock or to the store at a time. Starting, Store, Running, Closed,
--     Locking, Adjusting/Periods, Reached and Threads/Crowd hold the theorems; Threads/Alone, Keys,
--     Sound, Holding, Renewal and Toggling their lemmas.
--   Executor: src/executor.rs, `block_on` and its theorem. Local: `FutPool`, `enqueue`, `poll`,
--     `spawn`, with the tasks of async_task, a package that is not part of the repository, as
--     parameters. Debts: lemmas on its queue. Finishing: the theorems.
--   Debug: src/debug.rs and its theorem.
--   System: one pool, its callers and the threads of its workers, as a step relation over `exec`,
--     `execute` and `sync_block`, the messages of `shrink` and `kill_worker`, the changes of a
--     setting, and the rounds of src/worker.rs. Jobs and Effects: what a step does with the jobs.
--     Accepting and Leading: lemmas on the steps that a call takes; Messages: what the queues hold.
--     Using: calls of a user and rounds of the workers, one after another. Conservation, Refinement,
--     Calling, Using/Returning, Graceful, and Draining with its children Rounds and Together, hold
--     the theorems.
--   Tests: a channel as a list, and the theorems at concrete values.
--
-- State. A pool's operations take and return the record `ThreadPool`, which holds the states of
-- both channels; `none` is a panic, a loop that does not end, or a send that waits for room for
-- ever. Other threads enter as schedules: what each attempt on an atomic cell finds, and whether a
-- weak exchange fails for no reason. The operations of the manager run alone, since they take `&mut
-- self`. A round of a worker takes the status byte as it is when the round begins, and sets the
-- sleep flag on that byte. In `System` a round is one step, and so is a call of a caller, at the
-- moment when its queue has room.
--
-- Static pools. The statics of a module are one record that each function takes and returns. A
-- thread that a function spawns does its work at once, and the calls run one after another, but for
-- those of Multi/Threads; a spin for the lock of the store finds there what the last call left. The
-- adjusting thread is a record of its period and of whether it has panicked, which is the only way
-- that it ends; a call that joins it before that does not end. Whether a weak exchange on the
-- closing flag fails for no reason is an argument. The hash maps of hashbrown are lists of entries,
-- in the order of an iteration.
--
-- Numbers. The status is a byte and the lock an `i8`, both with their wrap-around; `usize` is 64
-- bits wide. Durations are in nanoseconds.
--
-- Fuel. `fetch_work` has one round more than its constant; `cleanup_loop` has one round for each
-- worker and one more; `send_timeout` has six rounds, which no timeout policy uses up (under the
-- policy that evicts, over channels that keep their documented order).
--
-- Rounds. One round of a worker may look at its second queue alone, so the schedules of
-- System/Draining have two rounds for each message, and a few more. `block_on` has a poll for each
-- park that returns, and one more.
--
-- Not modelled: `FutWorker` in src/worker.rs, which is commented out; calls of the static pools
-- that overlap in time, other than those of Multi/Threads; a job that panics, and a thread that
-- cannot be started, so that every worker has its thread; what the workers take from the queues
-- while a call that removes workers waits for them, which in System is a round before or after that
-- call; printing in debug mode; the freeing of the status byte and of the static stores at the end
-- of the program; memory orderings, which are taken as sequentially consistent; the examples and
-- benchmarks, which only call the library.
mod Prelude
pub mod Model
pub mod Status
pub mod Channel
pub mod Behaviors
pub mod Config
pub mod Idle
pub mod Worker
pub mod Manager
pub mod Pool
pub mod Once
pub mod Single
pub mod Multi
pub mod System
pub mod Debug
pub mod Executor
mod Tests
