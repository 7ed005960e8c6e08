-- ===== src/Pool.antt =====
-- src/pool.rs, `ThreadPool`: its state, its creation and the small operations on it. The two ends of
-- a channel share its state, and so do the pool and its workers the status byte. An operation
-- returns `none` if it panics or does not end.
pub mod Dispatch
pub mod Life
pub mod Exec
pub mod Blocking
pub mod Resizing
pub mod Creation
pub mod Sending
pub mod Running
pub mod Delivering
pub mod Evicting
pub mod Retrying
pub mod Sizes
pub mod Closing
pub mod Sleeping
pub mod Executing
pub mod Scaling
pub mod Calls
use thread_pool.Prelude.{
  ℕ, ◌+◌, ◌/◌, Bool, true, false, not, ◌&&◌, ◌||◌, Option, none, some, if◌then◌else◌, ◌==◌, ltb,
  leb,
}
use thread_pool.Model.{flag_normal, flag_lazy_init, flag_sleep_workers}
use thread_pool.Channel.{Channel}
use thread_pool.Config
use thread_pool.Config.{Config, TimeoutPolicy}
use thread_pool.Status.{has_hibernate_workers, compare_exchange, toggle_alone}
use thread_pool.Worker.{Queue, pri, norm}
use thread_pool.Manager
use thread_pool.Manager.{Manager}
use thread_pool.Manager.Jobs.{Queues}
use thread_pool.Manager.Sizing.{workers_count}

abbrev pub retry_limit : ℕ
retry_limit = 4

abbrev pub chan_cap : ℕ
chan_cap = 16

abbrev pub threshold : ℕ
threshold = 1024

abbrev pub auto_extend_trigger_size : ℕ
auto_extend_trigger_size = 2

pub data ExecutionError : Type 0 where
  timeout uninitialized disconnected pool_poisoned : ExecutionError

-- `chan` names the two senders, priority first; `queues` are the states of the channels.
pub record ThreadPool (c : Channel) : Type 0 where
  pub manager : Manager
  pub chan : Queue × Queue
  pub queues : Queues c
  pub init_size : ℕ
  pub upgrade_threshold : ℕ
  pub auto_extend_threshold : ℕ
  pub status : ℕ
  pub auto_scale : Bool
  pub non_blocking : Bool
  pub queue_timeout : Option ℕ
  pub timeout_policy : TimeoutPolicy

unfoldable pub pool_size : ℕ → ℕ
pool_size size = if ltb size 1 then 1 else if ltb threshold size then threshold else size

module _ (c : Channel) where
  abbrev with_manager : Option Manager → (Manager → ThreadPool c) → Option (ThreadPool c)
  with_manager none f = none
  with_manager (some m) f = some (f m)

  -- The struct that `create_pool` returns.
  abbrev pub pool_of : ℕ → Config → Bool → Manager → ThreadPool c
  pool_of size config lazy_built m = record {
    manager = m;
    chan = (pri, norm);
    queues = record { pri_state = c.bounded chan_cap; norm_state = c.bounded chan_cap };
    init_size = size;
    upgrade_threshold = chan_cap / 2;
    auto_extend_threshold = threshold;
    status = if not lazy_built then flag_normal else flag_lazy_init;
    auto_scale = false;
    non_blocking = config.non_blocking;
    queue_timeout = none;
    timeout_policy = config.timeout_policy;
  }

  unfoldable pub create_pool : ℕ → Config → Bool → Option (ThreadPool c)
  create_pool size config lazy_built =
      with_manager (Manager.build config (pool_size size) pri norm lazy_built)
        (pool_of (pool_size size) config lazy_built)

  unfoldable pub new : ℕ → Option (ThreadPool c)
  unfolding create_pool pool_size Config.new
  new size = create_pool size Config.new false

  unfoldable pub new_with_config : ℕ → Config → Option (ThreadPool c)
  unfolding create_pool pool_size
  new_with_config size config = create_pool size config false

  unfoldable pub build : ℕ → Option (ThreadPool c)
  unfolding create_pool pool_size Config.new
  build size = create_pool size Config.new true

  unfoldable pub build_with_config : ℕ → Config → Option (ThreadPool c)
  unfolding create_pool pool_size
  build_with_config size config = create_pool size config true

  unfoldable pub set_exec_timeout : Option ℕ → ThreadPool c → ThreadPool c
  set_exec_timeout period p = record p { queue_timeout = period }

  unfoldable pub toggle_blocking : Bool → ThreadPool c → ThreadPool c
  toggle_blocking non_blocking p = record p { non_blocking = non_blocking }

  unfoldable pub toggle_auto_scale : Bool → ThreadPool c → ThreadPool c
  toggle_auto_scale auto_scale p = record p { auto_scale = auto_scale }

  unfoldable pub set_status : ℕ → ThreadPool c → ThreadPool c
  set_status status p = record p { status = status }

  -- The weak exchange may fail for no reason, and is not tried again.
  unfoldable pub update_status : (spurious : Bool) → ℕ → ℕ → ThreadPool c → Bool × ThreadPool c
  unfolding compare_exchange
  update_status spurious old new p =
      if old == new
      then (true, p)
      else let (done, status) =
          compare_exchange (record { found = p.status; spurious = spurious }) old new in
        (done, record p { status = status })

  unfoldable pub amortized_new_size : ℕ → ThreadPool c → Option ℕ
  amortized_new_size queue_length p =
      let worker_count = workers_count p.manager in
      if queue_length == 0
      then none
      else if ltb auto_extend_trigger_size queue_length && leb worker_count p.auto_extend_threshold
      then some (worker_count + queue_length)
      else if queue_length == 0 && ltb p.init_size worker_count
      then (if worker_count == p.init_size + 1
          then some p.init_size
          else some ((worker_count + p.init_size) / 2))
      else none

  -- `fetch_and` has written the byte whether or not any worker is then woken.
  unfoldable pub wake_workers : ThreadPool c → ThreadPool c
  wake_workers p =
      let (asleep, status) = has_hibernate_workers p.status in
      if asleep
      then record p {
        manager = Manager.wake_up p.manager;
        status = toggle_alone status flag_sleep_workers false;
      }
      else record p { status = status }
