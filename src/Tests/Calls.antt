-- ===== src/Tests/Calls.antt =====
-- src/pool.rs: a few calls on a pool, one after the other.
use thread_pool.Prelude.{◌≤◌, List, ◌+◌, ◌≡◌, refl, arith, false, [], ◌∷◌, some}
use thread_pool.Prelude.Vec.{swap_remove}
use thread_pool.Model.{single_job, told_to_stop, unparked, joined, called, spawned}
use thread_pool.Worker.{pri, norm}
use thread_pool.Manager
use thread_pool.Manager.{Manager}
use thread_pool.Manager.Sizing.{workers_count}
use thread_pool.Pool.{ThreadPool, set_status}
use thread_pool.Pool.Creation.{IsReady}
use thread_pool.Pool.Dispatch.{pick}
use thread_pool.Worker
use thread_pool.Manager.Sizing
use thread_pool.Pool.Dispatch.{dispatch, send}
use thread_pool.Pool.Exec.{exec, exec_on, scale}
use thread_pool.Pool.Life.{hibernate}
use thread_pool.Pool.Resizing.{extend}
use thread_pool.Pool.Calls.{Call, perform, perform_all}
use thread_pool.Pool.Calls.Ready.{all_ids}
use thread_pool.Pool.Calls.Returning.{WaitsEnd}
use thread_pool.Pool.Calls.Answering.{perform_all_returns}
use thread_pool.Tests.{buffers}
use thread_pool.Tests.Managers.{worker, three}
use thread_pool.Tests.Pools.{empty_queue, pool, pool-IsReady}

abbrev calls : List Call
calls = Call.runs 5 false ∷ Call.hibernates ∷ Call.extends 2 ∷ []

-- The pool after them: worker 17 was cleaned away, and two were added.
abbrev after : ThreadPool buffers
after = record (pool 4) {
  manager = record three {
    workers = worker 16 0 ∷ worker 18 0 ∷ worker 19 0 ∷ worker 20 0 ∷ [];
    last_worker_id = 20;
    log = told_to_stop 17 ∷ unparked 17 ∷ joined 17 ∷ called 7 17 ∷ spawned 19 ∷ spawned 20 ∷ [];
  };
  queues = record {
    pri_state = record { room = 16; held = single_job 5 ∷ [] };
    norm_state = empty_queue;
  };
}

calls_return :
    (perform_all buffers calls (pool 0) ≡ some after) × (all_ids buffers calls (pool 0) ≡ 5)
unfolding all_ids swap_remove perform_all perform exec exec_on dispatch send pick scale hibernate
    set_status extend Sizing.extend_by Manager.add_workers Manager.cleanup_if_used
    Manager.worker_cleanup Manager.cleanup_loop Manager.concede_update Manager.reset_lock
    Manager.push_workers Manager.push_worker Worker.new Worker.retire Worker.drop
    Worker.is_terminated
calls_return = (refl, refl)

both_send : WaitsEnd buffers (pool 0)
both_send no_limit blocking pri m = (_, refl)
both_send no_limit blocking norm m = (_, refl)

perform_all_returns_example :
    (q : ThreadPool buffers) × (perform_all buffers calls (pool 0) ≡ some q)
    × IsReady buffers q
    × (q.init_size ≡ 3)
    × (q.manager.last_worker_id ≤ 18 + all_ids buffers calls (pool 0))
perform_all_returns_example =
    perform_all_returns buffers calls (pool 0) pool-IsReady (λ e. ground (arith, e))
      (omega (arith, calls_return.1)) (tt, λ q first. (tt, λ r second. (tt, λ t third. tt)))
      (both_send, λ q first. (tt, λ r second. (tt, λ t third. tt)))
