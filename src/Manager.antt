-- ===== src/Manager.antt =====
-- src/manager.rs, `Manager`: the worker threads of one pool. `&mut self` keeps other threads out, so
-- a spin for its lock finds in the cell what the manager left there; `none` is a panic, or a spin
-- that does not end. The `log` is what was asked of threads and hooks so far.
pub mod Sizing
pub mod Ids
pub mod Shrink
pub mod Jobs
pub mod Lock
pub mod Cleanup
pub mod Valid
pub mod Growth
pub mod Runs
use thread_pool.Prelude.{
  ℕ, String, zero, suc, ◌+◌, ◌-◌, ◌*◌, ◌%◌, Bool, true, false, List, [], ◌∷◌, ◌++◌, Option, none,
  some, if◌then◌else◌, ◌==◌, ltb, length, get_elem?, ◌≡◌, refl,
}
use thread_pool.Prelude.Vec.{swap_remove}
use thread_pool.Model.{Event, expire_period}
use thread_pool.Model.Backoff
use thread_pool.Model.Backoff.{alone, minus_one}
use thread_pool.Behaviors.{StatusBehaviors, call_hook}
use thread_pool.Config.{Config}
use thread_pool.Idle.{IdleThreshold}
use thread_pool.Worker
use thread_pool.Worker.{Worker, Queue, pri, norm, ThreadName}

-- `usize` arithmetic wraps at 2 ^ 64.
abbrev pub usize : ℕ → ℕ
usize n = n % 18446744073709551616

abbrev pub init_id : ℕ
init_id = 15

pub record Manager : Type 0 where
  pub config : Config
  pub workers : List Worker
  pub mutating : ℕ
  pub last_worker_id : ℕ
  pub idle_threshold : IdleThreshold
  pub chan : Queue × Queue
  pub log : List Event

abbrev pub logs : Manager → List Event → Manager
logs m es = record m { log = m.log ++ es }

abbrev taken : Manager → Option (ℕ × List Backoff.Pause) → Option Manager
taken m none = none
taken m (some (cell, pauses)) = some (record m { mutating = cell })

-- `Backoff for Manager`
unfoldable pub spin_update : Manager → ℕ → Option Manager
unfolding Backoff.spin_update
spin_update m new = taken m (Backoff.spin_update (alone m.mutating ∷ []) new)

abbrev conceded : Manager → Option (Bool × ℕ) → Option (Bool × Manager)
conceded m none = none
conceded m (some (done, cell)) = some (done, record m { mutating = cell })

unfoldable pub concede_update : Manager → ℕ → Option (Bool × Manager)
unfolding Backoff.concede_update
concede_update m new = conceded m (Backoff.concede_update m.mutating (alone m.mutating ∷ []) new)

unfoldable pub reset_lock : Manager → Manager
reset_lock m = record m { mutating = Backoff.reset_lock }

-- The loop of `worker_cleanup`, with its two indices; `swap_remove` drops what it returns. `none`
-- is an index out of range, or the end of the fuel.
unfoldable pub cleanup_loop : ℕ → ℕ → ℕ → Manager → Option Manager
cleanup_loop zero pos end m = none
cleanup_loop (suc fuel) pos end m = elim (ltb pos end) [
  | false ↦ some m
  | true ↦ elim (get_elem? m.workers pos) [
    | none ↦ none
    | some w ↦ elim (Worker.is_terminated w) [
      | false ↦ cleanup_loop fuel (pos + 1) end m
      | true ↦ elim (swap_remove m.workers pos) [
        | none ↦ none
        | some (gone, rest) ↦
            let (joined, events) = Worker.retire w in
            cleanup_loop fuel pos (end - 1)
              (logs (record m { workers = rest }) (events ++ Worker.drop joined))
      ]
    ]
  ]
]

-- One round for each worker and one to see the end.
unfoldable pub worker_cleanup : Manager → Option Manager
unfolding cleanup_loop
worker_cleanup m = cleanup_loop (suc (length m.workers)) 0 (length m.workers) m

abbrev worker_name : Option String → ℕ → Option ThreadName
worker_name none id = none
worker_name (some base) id = some (record { base = base; number = id })

-- The body of the loop in `add_workers`. The pair is cloned as (rx, pri_rx) and handed on swapped.
unfoldable pub push_worker : ℕ → Bool → Manager → Manager
push_worker offset privileged m =
    let id = usize (m.last_worker_id + offset) in
    let (rx, pri_rx) = m.chan in
    let name = worker_name m.config.pool_name id in
    let (worker, events) =
      Worker.new name id m.config.thread_size privileged (pri_rx, rx) m.config.worker_behaviors in
    logs (record m { workers = m.workers ++ worker ∷ [] }) events

-- `for offset in 1..=count`, from an offset on.
unfoldable pub push_workers : ℕ → ℕ → Bool → Manager → Manager
unfolding push_worker
push_workers zero offset privileged m = m
push_workers (suc n) offset privileged m =
    push_workers n (offset + 1) privileged (push_worker offset privileged m)

-- The cleanup of `add_workers`, once any worker has been added.
unfoldable pub cleanup_if_used : Manager → Option Manager
cleanup_if_used m = if ltb init_id m.last_worker_id then worker_cleanup m else some m

unfoldable pub add_workers : ℕ → Bool → Manager → Option Manager
unfolding cleanup_if_used
add_workers count privileged m = if count == 0 then some m else elim (cleanup_if_used m) [
  | none ↦ none
  | some cleaned ↦ elim (concede_update cleaned 1) [
    | none ↦ none
    | some (mine, locked) ↦
        if mine
        then (let grown = reset_lock (push_workers count 1 privileged locked) in
            some (record grown { last_worker_id = usize (grown.last_worker_id + count) }))
        else some locked
  ]
]

unfoldable pub build : Config → ℕ → Queue → Queue → Bool → Option Manager
build config range pri_rx rx lazy_built =
    let m : Manager = record {
      config = config;
      workers = [];
      mutating = 0;
      last_worker_id = init_id;
      idle_threshold = record { hibernate = expire_period; retire = 4 * expire_period };
      chan = (pri_rx, rx);
      log = [];
    } in
    if lazy_built then some m else add_workers range true m

-- One worker leaving the vector in `remove_all`; it is dropped at the end of the loop's body.
unfoldable pub drain_worker : Bool → StatusBehaviors → Worker → List Event
drain_worker sync behavior w =
    if sync
    then (let (joined, events) = Worker.retire w in
        call_hook behavior.before_drop w.id
        ++ events
        ++ call_hook behavior.after_drop w.id
        ++ Worker.drop joined)
    else Worker.drop w

unfoldable pub drain_workers : Bool → StatusBehaviors → List Worker → List Event
drain_workers sync behavior [] = []
drain_workers sync behavior (w ∷ ws) =
    drain_worker sync behavior w ++ drain_workers sync behavior ws

abbrev is_empty : List Worker → Bool
is_empty [] = true
is_empty (w ∷ ws) = false

unfoldable pub remove_all : Bool → Manager → Option Manager
unfolding drain_workers
remove_all sync m = if is_empty m.workers then some m else elim (spin_update m minus_one) [
  | none ↦ none
  | some locked ↦
      let drained =
        logs (record locked { workers = [] })
          (drain_workers sync locked.config.worker_behaviors locked.workers) in
      some (record (reset_lock drained) { last_worker_id = init_id })
]

unfoldable pub wake_all : List Worker → List Event
wake_all [] = []
wake_all (w ∷ ws) = Worker.wake_up w ++ wake_all ws

unfoldable pub wake_up : Manager → Manager
unfolding wake_all
wake_up m = logs m (wake_all m.workers)
