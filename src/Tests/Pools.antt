-- ===== src/Tests/Pools.antt =====
-- src/pool.rs: the theorems at a pool of three workers and an empty pair of channels.
use thread_pool.Prelude.{ℕ, ◌≡◌, refl, arith, true, false, [], ◌∷◌, ◌++◌, none, some, ok, err, All}
use thread_pool.Model.{single_job, flag_normal, flag_force_close}
use thread_pool.Config.{drop, lossy_retry}
use thread_pool.Worker.{pri, norm}
use thread_pool.Manager
use thread_pool.Manager.{Manager}
use thread_pool.Manager.Jobs.{Queues, at}
use thread_pool.Manager.Sizing.{workers_count}
use thread_pool.Manager.Valid.{numbers}
use thread_pool.Manager.Growth.{made}
use thread_pool.Pool.{ThreadPool, ExecutionError, create_pool, build_with_config, pool_size}
use thread_pool.Pool.Creation.{IsReady, Receives, create_pool_makes}
use thread_pool.Pool.Dispatch.{Sent, pick, send_timeout}
use thread_pool.Pool.Sending.{send_timeout_ends}
use thread_pool.Pool.Retrying.{send_timeout_evicts}
use thread_pool.Pool.Running.{exec_queues_job}
use thread_pool.Status
use thread_pool.Pool.Executing.{execute_as_exec}
use thread_pool.Pool.Sizes.{resize_sizes}
use thread_pool.Pool.Closing.{shut_down_leaves}
use thread_pool.Pool.Sleeping.{unhibernate_wakes_nobody}
use thread_pool.Pool.Calls.{Call, perform_all}
use thread_pool.Pool.Calls.Lazy.{by_execute, activation, lazy_pool_takes_no_job}
use thread_pool.Pool.Exec.{exec, execute}
use thread_pool.Pool.Life.{hibernate, unhibernate, is_hibernating, shut_down}
use thread_pool.Pool.Resizing.{resize}
use thread_pool.Tests.{Buffer, buffers, buffers_fifo}
use thread_pool.Tests.Managers.{settings, three, three-IsValid}

abbrev pub empty_queue : Buffer
empty_queue = record { room = 16; held = [] }

abbrev pub pool : ℕ → ThreadPool buffers
pool status = record {
  manager = three;
  chan = (pri, norm);
  queues = record { pri_state = empty_queue; norm_state = empty_queue };
  init_size = 3;
  upgrade_threshold = 8;
  auto_extend_threshold = 1024;
  status = status;
  auto_scale = false;
  non_blocking = false;
  queue_timeout = none;
  timeout_policy = drop;
}

pub pool-IsReady : IsReady buffers (pool 0)
pool-IsReady = record {
  manager_valid = three-IsValid;
  senders = refl;
  receivers = refl;
  size_pos = omega arith;
  size_capped = omega arith;
}

create_pool_makes_example :
    (p : ThreadPool buffers) × (create_pool buffers 3 settings false ≡ some p)
    × IsReady buffers p
    × (p.init_size ≡ 3)
    × (p.status ≡ flag_normal)
    × (p.manager.workers ≡ made settings (pri, norm) true (numbers p.init_size 16))
    × All (Receives (norm, pri)) p.manager.workers
    × (p.manager.config ≡ settings)
create_pool_makes_example = create_pool_makes buffers 3 settings false

exec_queues_job_example :
    (q : ThreadPool buffers) × (exec buffers 5 false (pool 4) ≡ some (ok tt, q))
    × ((at buffers (pick buffers false (pool 4)).0 q.queues).held
        ≡ (at buffers (pick buffers false (pool 4)).0 (pool 4).queues).held ++ single_job 5 ∷ [])
    × (at buffers norm q.queues ≡ empty_queue)
    × (q.manager ≡ three)
    × (q.status ≡ 4)
unfolding pick
exec_queues_job_example =
    exec_queues_job buffers buffers_fifo 5 false (pool 4) (omega arith) refl (omega arith)
      (omega arith) (omega arith)

execute_as_exec_example :
    execute buffers 5 (pool 4) ≡ some (err ExecutionError.disconnected, pool 0)
unfolding Status.closing
execute_as_exec_example = execute_as_exec buffers 5 (pool 4) refl

resize_sizes_example :
    (q : ThreadPool buffers) × (resize buffers 2 (pool 0) ≡ some q)
    × (workers_count q.manager ≡ 2)
    × IsReady buffers q
resize_sizes_example =
    resize_sizes buffers 2 (pool 0) pool-IsReady (omega arith) (omega arith)
      (λ less. λ m. (_, refl))

shut_down_leaves_example :
    (q : ThreadPool buffers) × (shut_down buffers true (pool 0) ≡ some q)
    × (q.manager.workers ≡ [])
    × (q.status ≡ flag_force_close)
    × IsReady buffers q
    × ((left : Queues buffers)
        → exec buffers 5 true (record q { queues = left })
          ≡ some (err ExecutionError.disconnected, record q { queues = left }))
shut_down_leaves_example =
    shut_down_leaves buffers true (pool 0) 5 true pool-IsReady
      ((refl, refl), ((refl, refl), ((refl, refl), tt)))

send_timeout_ends_example :
    (s : Sent buffers) × (send_timeout buffers (pri, 0) (single_job 5) 100 1 (pool 0) ≡ some s)
send_timeout_ends_example =
    send_timeout_ends buffers (pri, 0) (single_job 5) 100 1 (pool 0) (λ e. ground (arith, e))

-- A pool that evicts, with a full priority queue.
abbrev evicting : ThreadPool buffers
evicting = record (pool 0) {
  queues = record {
    pri_state = record { room = 2; held = single_job 1 ∷ single_job 2 ∷ [] };
    norm_state = empty_queue;
  };
  timeout_policy = lossy_retry;
}

send_timeout_evicts_example :
    (s : Sent buffers) × (send_timeout buffers (pri, 0) (single_job 5) 100 0 evicting ≡ some s)
send_timeout_evicts_example =
    send_timeout_evicts buffers buffers_fifo pri (single_job 5) 100 0 evicting refl refl
      (omega arith) (omega arith) (omega arith)

-- A pool that was built for three workers, and has none yet.
abbrev lazy_pool : ThreadPool buffers
lazy_pool = record (pool 8) { manager = record three { workers = []; last_worker_id = 15 } }

lazy_pool_built : build_with_config buffers 3 settings ≡ some lazy_pool
unfolding build_with_config create_pool Manager.build pool_size
lazy_pool_built = refl

lazy_pool_takes_no_job_example :
    (q : ThreadPool buffers) × (perform_all buffers (Call.queues 4 ∷ Call.activates ∷ []) lazy_pool
      ≡ some q)
    × (q.queues ≡ lazy_pool.queues)
    × (workers_count q.manager ≡ 0)
    × (exec buffers 5 true q ≡ some (err ExecutionError.uninitialized, q))
    × (kind : ExecutionError) × (execute buffers 5 q ≡ some (err kind, record q { status = 0 }))
lazy_pool_takes_no_job_example =
    lazy_pool_takes_no_job buffers 3 settings lazy_pool (by_execute 4 ∷ activation ∷ []) 5 true
      lazy_pool_built

unhibernate_wakes_nobody_example :
    (is_hibernating buffers (hibernate buffers (pool 0)) ≡ true)
    × (m : Manager) × (Manager.worker_cleanup three ≡ some m)
    × (unhibernate buffers false (hibernate buffers (pool 0))
        ≡ some (record (pool 0) { manager = m }))
unhibernate_wakes_nobody_example = unhibernate_wakes_nobody buffers false (pool 0)
