-- ===== src/Pool/Calls/Submitting.antt =====
-- src/pool.rs: what the calls that send a job keep of a pool.
use thread_pool.Prelude.{
  ℕ, ◌+◌, ◌-◌, ◌<◌, ◌≡◌, refl, ap, sym, subst, Bool, false, not, length, ◌&&◌, ◌||◌, some, ok, err,
  Option-cases, Bool-cases, inl, inr, if◌then◌else◌, ◌==◌, ltb, arith,
}
use thread_pool.Model.{Job, single_job}
use thread_pool.Channel.{Channel}
use thread_pool.Status
use thread_pool.Manager
use thread_pool.Manager.{Manager}
use thread_pool.Manager.Jobs.{at}
use thread_pool.Manager.Sizing.{workers_count}
use thread_pool.Manager.Runs.{
  Operation, adding, shrinking, dismissing, cleaning, removing, new_ids, Keeps, perform-Keeps,
}
use thread_pool.Manager.Runs
use thread_pool.Pool.{ThreadPool, amortized_new_size}
use thread_pool.Pool.Creation.{IsReady}
use thread_pool.Pool.Dispatch.{dispatch}
use thread_pool.Pool.Exec.{scale, exec, exec_on, execute, execute_on}
use thread_pool.Pool.Blocking.{Reply, sync_block}
use thread_pool.Pool.Sleeping.{activate_idle}
use thread_pool.Pool.Calls.{pool_after}
use thread_pool.Pool.Calls.Keeping.{Stays, core-Stays, Stays-weaken, Stays-trans, operation-Stays}
use thread_pool.Pool.Calls.Frame.{Core, dispatch-core}

module _ (c : Channel) where
  scale-Stays :
      (worker_count : ℕ) (busy : Bool) (p q : ThreadPool c)
      → worker_count ≡ workers_count p.manager
      → IsReady c p
      → p.manager.last_worker_id + p.init_size < 18446744073709551616
      → scale c worker_count busy p ≡ some q
      → Stays c p.init_size p q
  unfolding scale amortized_new_size Runs.perform
  scale-Stays worker_count busy p q same r fits e =
      elim (Option-cases (amortized_new_size c p.init_size p)) [
        | inl enough ↦
            Stays-weaken c 0 p.init_size p q (omega arith) (core-Stays c p q r (ground arith))
        | inr (target, wanted) ↦ elim (Bool-cases (busy && p.auto_scale)) [
          | inl scales ↦
              let more : target - worker_count ≡ p.init_size = ground arith in
              elim (Option-cases (Manager.add_workers (target - worker_count) false p.manager)) [
                | inl panics ↦ absurd (ground arith)
                | inr (n, added) ↦
                    Stays-weaken c (target - worker_count) p.init_size p q (omega (arith, more)) (
                      operation-Stays c (adding (target - worker_count) false) p q n r
                        (omega (arith, more, fits)) added (ground arith))
              ]
          | inr keeps ↦
              Stays-weaken c 0 p.init_size p q (omega arith) (core-Stays c p q r (ground arith))
        ]
      ]

  exec_on-Stays :
      (f : Job) (prioritized : Bool) (p q : ThreadPool c)
      → IsReady c p
      → p.manager.last_worker_id + p.init_size < 18446744073709551616
      → pool_after c (exec_on c f prioritized p) ≡ some q
      → Stays c p.init_size p q
  unfolding exec_on
  exec_on-Stays f prioritized p q r fits e =
      let worker_count = workers_count p.manager in
      let retry : ℕ = if p.auto_scale then 1 else 0 in
      elim (Bool-cases (worker_count == 0)) [
        | inl gone ↦
            Stays-weaken c 0 p.init_size p q (omega arith) (core-Stays c p q r (ground arith))
        | inr some_worker ↦ elim (Option-cases (dispatch c (single_job f) retry prioritized p)) [
          | inl waits ↦ absurd (ground arith)
          | inr ((err refused, m), sent) ↦
              let same = dispatch-core c (single_job f) retry prioritized p (err refused) m sent in
              Stays-weaken c 0 p.init_size p q (omega arith) (core-Stays c p q r (ground arith))
          | inr ((ok busy, m), sent) ↦
              let same = dispatch-core c (single_job f) retry prioritized p (ok busy) m sent in
              let first = core-Stays c p m r same in
              let size : m.init_size ≡ p.init_size = first.size in
              elim (Option-cases (scale c worker_count busy m)) [
                | inl panics ↦ absurd (ground arith)
                | inr (n, scaled) ↦
                    let here : n ≡ q = ground arith in
                    let last =
                      scale-Stays worker_count busy m n
                        (ap (λ (k : Core). length k.manager.workers) (sym same)) first.ready
                        (omega (arith, size, first.moved, fits)) scaled in
                    subst (Stays c p.init_size p) here (
                      Stays-weaken c (0 + m.init_size) p.init_size p n (omega (arith, size))
                        (Stays-trans c 0 m.init_size p m n first last))
              ]
        ]
      ]

  pub exec-Stays :
      (f : Job) (prioritized : Bool) (p q : ThreadPool c)
      → IsReady c p
      → p.manager.last_worker_id + p.init_size < 18446744073709551616
      → pool_after c (exec c f prioritized p) ≡ some q
      → Stays c p.init_size p q
  unfolding exec
  exec-Stays f prioritized p q r fits e =
      let idle = activate_idle c p in
      elim (Bool-cases (p.status == 1 || p.status == 2)) [
        | inl closing ↦
            Stays-weaken c 0 p.init_size p q (omega arith) (core-Stays c p q r (ground arith))
        | inr running ↦ exec_on-Stays f prioritized p q r fits (ground (arith, idle))
      ]

  execute_on-Stays :
      (f : Job) (p q : ThreadPool c)
      → IsReady c p
      → pool_after c (execute_on c f p) ≡ some q
      → Stays c 0 p q
  unfolding execute_on
  execute_on-Stays f p q r e =
      let prioritized =
        c.is_empty (at c p.chan.1 p.queues) && not (c.is_full (at c p.chan.0 p.queues)) in
      elim (Bool-cases (ltb (workers_count p.manager) 1)) [
        | inl gone ↦ core-Stays c p q r (ground arith)
        | inr some_worker ↦ elim (Option-cases (dispatch c (single_job f) 0 prioritized p)) [
          | inl waits ↦ absurd (ground arith)
          | inr ((err refused, m), sent) ↦
              core-Stays c p q r (
                ground (arith, dispatch-core c (single_job f) 0 prioritized p (err refused) m sent))
          | inr ((ok busy, m), sent) ↦
              core-Stays c p q r
                (ground (arith, dispatch-core c (single_job f) 0 prioritized p (ok busy) m sent))
        ]
      ]

  pub execute-Stays :
      (f : Job) (p q : ThreadPool c)
      → IsReady c p
      → pool_after c (execute c f p) ≡ some q
      → Stays c 0 p q
  unfolding execute
  execute-Stays f p q r e =
      let (closing, status) = Status.closing p.status in
      let read = record p { status = status } in
      let first = core-Stays c p read r refl in
      elim (Bool-cases closing) [
        | inl closed ↦ core-Stays c p q r (ground arith)
        | inr running ↦
            Stays-trans c 0 0 p read q first (execute_on-Stays f read q first.ready (ground arith))
      ]

  pub sync_block-Stays :
      (f : Job) (reply : Reply (Unit {0})) (p q : ThreadPool c)
      → IsReady c p
      → pool_after c (sync_block c f reply p) ≡ some q
      → Stays c 0 p q
  unfolding sync_block
  sync_block-Stays f reply p q r e = elim (Option-cases (dispatch c (single_job f) 4 false p)) [
    | inl waits ↦ absurd (ground arith)
    | inr ((err refused, m), sent) ↦
        core-Stays c p q r
          (ground (arith, dispatch-core c (single_job f) 4 false p (err refused) m sent))
    | inr ((ok busy, m), sent) ↦
        core-Stays c p q r
          (ground (arith, dispatch-core c (single_job f) 4 false p (ok busy) m sent))
  ]
