-- ===== src/Pool/Resizing.antt =====
-- src/pool.rs, `PoolManager` and `PoolState`: changing the number of workers, and the getters.
use thread_pool.Prelude.{
  ℕ, zero, suc, ◌+◌, ◌-◌, ◌/◌, Bool, List, [], ◌∷◌, Option, none, some, if◌then◌else◌, ◌==◌, ltb,
}
use thread_pool.Model.{terminate}
use thread_pool.Channel.{Channel}
use thread_pool.Manager.Jobs.{at, put}
use thread_pool.Manager.Sizing
use thread_pool.Manager.Sizing.{workers_count}
use thread_pool.Pool.{ThreadPool, amortized_new_size}

module _ (c : Channel) where
  unfoldable pub extend : ℕ → ThreadPool c → Option (ThreadPool c)
  extend more p = if more == 0 then some p else elim (Sizing.extend_by more p.manager) [
    | none ↦ none
    | some m ↦ some (record p { manager = m })
  ]

  -- The message goes through the priority channel by the blocking send; a failure is only printed.
  unfoldable pub send_terminate : List ℕ → ThreadPool c → Option (ThreadPool c)
  send_terminate ids p = elim (c.send (terminate ids) (at c p.chan.0 p.queues)) [
    | none ↦ none
    | some (r, s) ↦ some (record p { queues = put c p.chan.0 s p.queues })
  ]

  unfoldable pub shrink : ℕ → ThreadPool c → Option (ThreadPool c)
  shrink less p = if less == 0 then some p else elim (Sizing.shrink_by less p.manager) [
    | none ↦ none
    | some (workers, m) ↦ send_terminate workers (record p { manager = m })
  ]

  unfoldable pub resize : ℕ → ThreadPool c → Option (ThreadPool c)
  resize target p =
      let worker_count = workers_count p.manager in
      if target == 0
      then some p
      else if ltb worker_count target
      then extend (target - worker_count) p
      else if ltb target worker_count
      then shrink (worker_count - target) p
      else some p

  unfoldable pub get_size : ThreadPool c → ℕ
  get_size p = workers_count p.manager

  unfoldable pub get_queue_length : ThreadPool c → ℕ
  get_queue_length p = c.len (at c p.chan.0 p.queues) + c.len (at c p.chan.1 p.queues)

  unfoldable pub get_priority_queue_length : ThreadPool c → ℕ
  get_priority_queue_length p = c.len (at c p.chan.0 p.queues)

  unfoldable pub auto_adjust : ThreadPool c → Option (ThreadPool c)
  auto_adjust p = elim (amortized_new_size c (get_queue_length p) p) [
    | none ↦ some p
    | some target ↦ resize target p
  ]

  -- `as_millis` of a life in nanoseconds.
  abbrev life_in_ms : Option ℕ → ℕ
  life_in_ms none = 0
  life_in_ms (some life) = life / 1000000

  unfoldable pub auto_expire : Option ℕ → ThreadPool c → ThreadPool c
  auto_expire life p = record p { manager = Sizing.worker_auto_expire (life_in_ms life) p.manager }

  unfoldable pub kill_worker : ℕ → ThreadPool c → Option (ThreadPool c)
  kill_worker id p = elim (Sizing.dismiss_worker id p.manager) [
    | none ↦ none
    | some (none, m) ↦ some (record p { manager = m })
    | some (some gone, m) ↦ send_terminate (id ∷ []) (record p { manager = m })
  ]

  unfoldable pub get_queue_size_threshold : ThreadPool c → ℕ
  get_queue_size_threshold p = p.auto_extend_threshold

  unfoldable pub set_queue_size_threshold : ℕ → ThreadPool c → ThreadPool c
  set_queue_size_threshold threshold p = record p {
    auto_extend_threshold = if ltb p.init_size threshold then threshold else p.init_size;
  }

  abbrev non_zero : ℕ → Option ℕ
  non_zero zero = none
  non_zero (suc id) = some (suc id)

  unfoldable pub get_first_worker_id : ThreadPool c → Option ℕ
  get_first_worker_id p = non_zero (Sizing.first_worker_id p.manager)

  unfoldable pub get_last_worker_id : ThreadPool c → Option ℕ
  get_last_worker_id p = non_zero (Sizing.last_worker_id p.manager)

  unfoldable pub get_next_worker_id : ℕ → ThreadPool c → Option ℕ
  get_next_worker_id current_id p = non_zero (Sizing.next_worker_id current_id p.manager)

  unfoldable pub get_exec_timeout : ThreadPool c → Option ℕ
  get_exec_timeout p = p.queue_timeout

  unfoldable pub auto_scale_enabled : ThreadPool c → Bool
  auto_scale_enabled p = p.auto_scale
