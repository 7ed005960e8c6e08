-- ===== src/Pool/Executing.antt =====
-- src/pool.rs: `execute` against `exec`.
use thread_pool.Prelude.{
  ◌≡◌, ap, ◌∙◌, Bool, false, not, ◌&&◌, some, ok, err, if◌then◌else◌, ◌==◌, Bool-cases,
  Option-cases, inl, inr, arith,
}
use thread_pool.Model.{Job, single_job}
use thread_pool.Channel.{Channel}
use thread_pool.Status
use thread_pool.Manager.Jobs.{at}
use thread_pool.Pool.{ThreadPool, ExecutionError}
use thread_pool.Pool.Dispatch.{dispatch}
use thread_pool.Pool.Calls.Frame.{Frame, dispatch-frame}
use thread_pool.Pool.Exec.{scale, exec, exec_on, execute, execute_on}
use thread_pool.Pool.Life.{activate}

module _ (c : Channel) where
  -- The priority that `execute` finds for its job.
  abbrev pub own_priority : ThreadPool c → Bool
  own_priority p = c.is_empty (at c p.chan.1 p.queues) && not (c.is_full (at c p.chan.0 p.queues))

  execute_on_lem :
      (f : Job) (p : ThreadPool c)
      → p.auto_scale ≡ false
      → execute_on c f p ≡ exec_on c f (own_priority p) p
  unfolding execute_on exec_on scale
  execute_on_lem f p fixed = elim (Option-cases (dispatch c (single_job f) 0 (own_priority p) p)) [
    | inl waits ↦ ground arith
    | inr ((err refused, q), sent) ↦ ground arith
    | inr ((ok busy, q), sent) ↦
        let same = dispatch-frame c (single_job f) 0 (own_priority p) p (ok busy) q sent in
        let still : q.auto_scale ≡ false = ap (λ (k : Frame). k.auto_scale) same ∙ fixed in
        ground arith
  ]

  -- On a pool that does not scale itself, `execute` does what `exec` does with the priority that the
  -- queues suggest, the normal one empty and the other not full, if the status is normal. With any
  -- other status, a hibernating one too, it refuses the job as if the pool were disconnected, and
  -- leaves only the closing flags of the status.
  pub execute_as_exec :
      (f : Job) (p : ThreadPool c)
      → p.auto_scale ≡ false
      → execute c f p ≡ (
          if p.status == 0
          then exec c f (own_priority p) p
          else some
              (err ExecutionError.disconnected, record p { status = (Status.closing p.status).1 }))
  unfolding execute exec activate Status.closing
  execute_as_exec f p fixed = elim (Bool-cases (p.status == 0)) [
    | inl normal ↦ ground (arith, execute_on_lem f p fixed)
    | inr other ↦ ground arith
  ]
