-- ===== src/Multi/Running.antt =====
-- src/multi.rs: where `run_with` sends a job.
use thread_pool.Prelude.{
  ◌<◌, ◌≡◌, ◌≢◌, refl, false, String, [], ◌∷◌, ◌++◌, some, ok, if◌then◌else◌, arith,
}
use thread_pool.Prelude.Maps.{lookup, insert, lookup-insert, same_text}
use thread_pool.Model.{Job, single_job, flag_closing, flag_force_close}
use thread_pool.Channel.{Channel, IsFifo}
use thread_pool.Once.{Once}
use thread_pool.Manager.Jobs.{at}
use thread_pool.Manager.Sizing.{workers_count}
use thread_pool.Pool.{ThreadPool}
use thread_pool.Pool.Dispatch.{pick}
use thread_pool.Pool.Running.{exec_queues_job}
use thread_pool.Multi.{PoolStore, Statics, inner, with_pools, run_with}
use thread_pool.Multi.Adjusting.Periods.{inner-with_pools}

module _ (c : Channel) (o : Once) (fifo : IsFifo c) where
  open fifo use {contents, capacity}

  -- Over channels that keep their documented order, let the store be there, and let the key lead to
  -- a pool that has workers, does not scale itself, is neither closing nor force-closing, and has
  -- room in the queue that `pick` chooses. Then `run_with` appends the job to that queue of that
  -- pool; every other key leads to what it did, the workers of the pool stay, and no thread is
  -- started for the job.
  pub run_with_queues_job :
      (key : String) (f : Job) (s : Statics c o) (p : PoolStore c) (pool : ThreadPool c)
      → inner c o s ≡ ok p
      → lookup key p.store ≡ some pool
      → 0 < workers_count pool.manager
      → pool.auto_scale ≡ false
      → pool.status ≢ flag_closing
      → pool.status ≢ flag_force_close
      → let queue = (pick c false pool).0 in
        c.len (at c queue pool.queues) < capacity (at c queue pool.queues)
        → (after : ThreadPool c) × (t : Statics c o) × (q : PoolStore c) × (run_with c o key f s
            ≡ some t)
          × (inner c o t ≡ ok q)
          × (t.threads ≡ s.threads)
          × ((k : String)
              → lookup k q.store ≡ (if same_text key k then some after else lookup k p.store))
          × (contents (at c queue after.queues)
              ≡ contents (at c queue pool.queues) ++ single_job f ∷ [])
          × (after.manager ≡ pool.manager)
  unfolding run_with
  run_with_queues_job key f s p pool found there some_worker no_scale open_status not_forced room =
      let (after, runs, appended, others, workers, status) =
        exec_queues_job c fifo f false pool some_worker no_scale open_status not_forced room in
      let q = record p { store = insert key after p.store } in
      (
        after,
        with_pools c o s q,
        q,
        ground (arith, found, there, runs),
        inner-with_pools c o s p q found,
        refl,
        λ k. lookup-insert key k after p.store,
        appended,
        workers,
      )
