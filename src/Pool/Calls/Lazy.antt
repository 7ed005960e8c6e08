-- ===== src/Pool/Calls/Lazy.antt =====
-- src/pool.rs: jobs for a pool that was built lazily.
use thread_pool.Prelude.{
  ℕ, ◌≡◌, refl, sym, ap, ◌∙◌, ◌⊎◌, inl, inr, Bool, true, List, [], ◌∷◌, map, some, err, length,
  arith,
}
use thread_pool.Model.{Job}
use thread_pool.Channel.{Channel}
use thread_pool.Config.{Config}
use thread_pool.Status
use thread_pool.Manager.Sizing.{workers_count}
use thread_pool.Pool.{ThreadPool, ExecutionError, uninitialized, build_with_config}
use thread_pool.Pool.Exec.{exec, execute}
use thread_pool.Pool.Creation.{create_pool_makes}
use thread_pool.Pool.Sleeping.{activate_idle, no_workers, no_workers_execute}
use thread_pool.Pool.Calls.{Call, runs, queues, activates, perform, perform_all}

-- The calls that hand a job to the pool's workers, and `activate`.
pub data Handover : Type 0 where
  by_exec : Job → (prioritized : Bool) → Handover
  by_execute : Job → Handover
  activation : Handover

abbrev pub call_of : Handover → Call
call_of (by_exec f prioritized) = runs f prioritized
call_of (by_execute f) = queues f
call_of activation = activates

module _ (c : Channel) where
  -- A pool without workers whose status is lazy, or normal.
  record Dormant (p : ThreadPool c) : Type 0 where
    no_worker : workers_count p.manager ≡ 0
    quiet : (p.status ≡ 8) ⊎ (p.status ≡ 0)

  exec_refuses :
      (f : Job) (prioritized : Bool) (p : ThreadPool c)
      → Dormant p
      → exec c f prioritized p ≡ some (err uninitialized, p)
  unfolding exec
  exec_refuses f prioritized p d = elim d.quiet [
    | inl lazy ↦ ground (arith, activate_idle c p, no_workers c p f prioritized d.no_worker)
    | inr normal ↦ ground (arith, activate_idle c p, no_workers c p f prioritized d.no_worker)
  ]

  execute_refuses :
      (f : Job) (p : ThreadPool c)
      → Dormant p
      → (kind : ExecutionError) × (execute c f p ≡ some (err kind, record p { status = 0 }))
  unfolding execute Status.closing
  execute_refuses f p d =
      let after = no_workers_execute c (record p { status = 0 }) f d.no_worker in
      elim d.quiet [
        | inl lazy ↦ (ExecutionError.disconnected, ground arith)
        | inr normal ↦ (uninitialized, ground (arith, after))
      ]

  step-Dormant :
      (h : Handover) (p : ThreadPool c)
      → Dormant p
      → (q : ThreadPool c) × (perform c (call_of h) p ≡ some q) × Dormant q × (q.queues ≡ p.queues)
  unfolding perform
  step-Dormant (by_exec f prioritized) p d =
      (p, ground (arith, exec_refuses f prioritized p d), d, refl)
  step-Dormant (by_execute f) p d =
      let (kind, refused) = execute_refuses f p d in
      (
        record p { status = 0 },
        ground (arith, refused),
        record { no_worker = d.no_worker; quiet = inr refl },
        refl,
      )
  step-Dormant activation p d = (p, activate_idle c p, d, refl)

  steps-Dormant :
      (hs : List Handover) (p : ThreadPool c)
      → Dormant p
      → (q : ThreadPool c) × (perform_all c (map call_of hs) p ≡ some q)
        × Dormant q
        × (q.queues ≡ p.queues)
  unfolding perform_all
  steps-Dormant [] p d = (p, refl, d, refl)
  steps-Dormant (h ∷ hs) p d =
      let (m, first, dormant, same) = step-Dormant h p d in
      let (q, rest, still, kept) = steps-Dormant hs m dormant in
      (q, ground (arith, first, rest), still, kept ∙ same)

  -- A pool that was built lazily takes no job by `exec` or `execute`, however often and in whatever
  -- order these and `activate` are called: all the calls return, the queues are as they were, there
  -- is no worker, and then `exec` answers that the pool is uninitialized, and changes nothing, and
  -- `execute` refuses its job too, and leaves the queues as they were.
  pub lazy_pool_takes_no_job :
      (size : ℕ) (config : Config) (p : ThreadPool c) (hs : List Handover) (f : Job)
      (prioritized : Bool)
      → build_with_config c size config ≡ some p
      → (q : ThreadPool c) × (perform_all c (map call_of hs) p ≡ some q)
        × (q.queues ≡ p.queues)
        × (workers_count q.manager ≡ 0)
        × (exec c f prioritized q ≡ some (err uninitialized, q))
        × (kind : ExecutionError) × (execute c f q ≡ some (err kind, record q { status = 0 }))
  unfolding build_with_config
  lazy_pool_takes_no_job size config p hs f prioritized built =
      let r = create_pool_makes c size config true in
      let same : r.0 ≡ p = ground (arith, r.1) in
      let dormant : Dormant p = record {
        no_worker = sym (ap (λ (q : ThreadPool c). workers_count q.manager) same) ∙ ap length r.5;
        quiet = inl (sym (ap (λ (q : ThreadPool c). q.status) same) ∙ r.4);
      } in
      let (q, runs_all, still, kept) = steps-Dormant hs p dormant in
      let (kind, refused) = execute_refuses f q still in
      (q, runs_all, kept, still.no_worker, exec_refuses f prioritized q still, kind, refused)
