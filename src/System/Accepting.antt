-- ===== src/System/Accepting.antt =====
-- src/pool.rs: the calls that put one message into one queue.
use thread_pool.Prelude.{
  ℕ, ◌≡◌, sym, Option-cases, ◌⊎◌, ap, ◌∙◌, inl, inr, Bool, false, ◌||◌, List, some, Result, ok, err,
  if◌then◌else◌, ◌==◌, ltb, Bool-cases, subst, arith,
}
use thread_pool.Model.{Job, single_job, terminate}
use thread_pool.Channel.{Channel, IsFifo}
use thread_pool.Manager.Jobs.{at}
use thread_pool.Manager.Sizing.{workers_count}
use thread_pool.Pool.{ThreadPool, ExecutionError}
use thread_pool.Pool.Dispatch.{with_state, pick}
use thread_pool.Status
use thread_pool.Pool.Exec.{exec, exec_on, execute, execute_on, scale}
use thread_pool.Pool.Scaling.{scale_manages}
use thread_pool.Pool.Executing.{own_priority}
use thread_pool.Pool.Blocking.{Reply, sync_block}
use thread_pool.Pool.Delivering.{
  HasRoom, Appends, queues-Appends, sent-Appends, put-Appends, after_send, dispatch_sends, exec_lem,
}
use thread_pool.Pool.Resizing.{send_terminate}

module _ (c : Channel) (fifo : IsFifo c) where
  open fifo use {contents}

  -- A job that is taken goes to its queue; the scaling that follows leaves the queues alone.
  exec_on-Appends :
      (f : Job) (prioritized : Bool) (p q : ThreadPool c)
      → HasRoom c fifo (pick c prioritized p).0 p
      → exec_on c f prioritized p ≡ some (ok tt, q)
      → Appends c fifo (single_job f) p q
  unfolding exec_on
  exec_on-Appends f prioritized p q room e =
      let queue = (pick c prioritized p).0 in
      let after = after_send c fifo queue (single_job f) p in
      let worker_count = workers_count p.manager in
      let retry : ℕ = if p.auto_scale then 1 else 0 in
      let busy = c.is_full (at c queue after.queues) in
      let sent = dispatch_sends c fifo (single_job f) retry prioritized p room in
      elim (Bool-cases (worker_count == 0)) [
        | inl gone ↦ absurd (ground arith)
        | inr more ↦ elim (Option-cases (scale c worker_count busy after)) [
          | inl panics ↦ absurd (ground (arith, sent))
          | inr (r, scaled) ↦
              let (m, managed) = scale_manages c worker_count busy after r scaled in
              let here : r ≡ q = ground (arith, sent) in
              queues-Appends c fifo (single_job f) p after q
                (ap (λ (v : ThreadPool c). v.queues) (sym here ∙ managed))
                (sent-Appends c fifo queue (single_job f) p room)
        ]
      ]

  pub exec-Appends :
      (f : Job) (prioritized : Bool) (p q : ThreadPool c)
      → HasRoom c fifo (pick c prioritized p).0 p
      → exec c f prioritized p ≡ some (ok tt, q)
      → Appends c fifo (single_job f) p q
  exec-Appends f prioritized p q room e =
      let lem = exec_lem c fifo f prioritized p in
      elim (Bool-cases (p.status == 1 || p.status == 2)) [
        | inl closing ↦ absurd (ground (arith, lem))
        | inr runs ↦ exec_on-Appends f prioritized p q room (ground (arith, lem))
      ]

  -- `execute` sends the job, or refuses it and leaves the queues alone.
  pub execute_cases :
      (f : Job) (p q : ThreadPool c) (r : Result (Unit {0}) ExecutionError)
      → let queue = (pick c (own_priority c p) p).0 in
        HasRoom c fifo queue p
        → execute c f p ≡ some (r, q)
        → ((r ≡ ok tt) × (q.queues ≡ (after_send c fifo queue (single_job f) p).queues))
          ⊎ ((refused : ExecutionError) × (r ≡ err refused) × (q.queues ≡ p.queues))
  unfolding execute execute_on pick
  execute_cases f p q r room e =
      let (closing, status) = Status.closing p.status in
      let read = record p { status = status } in
      let sent = dispatch_sends c fifo (single_job f) 0 (own_priority c p) read room in
      elim (Bool-cases closing) [
        | inl refuses ↦ inr (ExecutionError.disconnected, ground arith, ground arith)
        | inr open_status ↦ elim (Bool-cases (ltb (workers_count p.manager) 1)) [
          | inl gone ↦ inr (ExecutionError.uninitialized, ground arith, ground arith)
          | inr more ↦ inl (ground (arith, sent), ground (arith, sent))
        ]
      ]

  pub execute-Appends :
      (f : Job) (p q : ThreadPool c)
      → HasRoom c fifo (pick c (own_priority c p) p).0 p
      → execute c f p ≡ some (ok tt, q)
      → Appends c fifo (single_job f) p q
  execute-Appends f p q room e = elim (execute_cases f p q (ok tt) room e) [
    | inl (taken, same) ↦
        let queue = (pick c (own_priority c p) p).0 in
        queues-Appends c fifo (single_job f) p (after_send c fifo queue (single_job f) p) q same
          (sent-Appends c fifo queue (single_job f) p room)
    | inr (refused, other_way, same) ↦ absurd (ground arith)
  ]

  -- With room in its queue, the job of `sync_block` is always taken.
  pub sync_block-Appends :
      (f : Job) (reply : Reply (Unit {0})) (p q : ThreadPool c)
      (r : Result (Unit {0}) ExecutionError)
      → HasRoom c fifo (pick c false p).0 p
      → sync_block c f reply p ≡ some (r, q)
      → Appends c fifo (single_job f) p q
  unfolding sync_block
  sync_block-Appends f reply p q r room e =
      let queue = (pick c false p).0 in
      let sent = dispatch_sends c fifo (single_job f) 4 false p room in
      let here : after_send c fifo queue (single_job f) p ≡ q = ground (arith, sent) in
      subst (Appends c fifo (single_job f) p) here (sent-Appends c fifo queue (single_job f) p room)

  pub send_terminate-Appends :
      (ids : List ℕ) (p q : ThreadPool c)
      → HasRoom c fifo p.chan.0 p
      → send_terminate c ids p ≡ some q
      → Appends c fifo (terminate ids) p q
  unfolding send_terminate
  send_terminate-Appends ids p q room e =
      let (s, done, appended) = fifo.send_room (terminate ids) (at c p.chan.0 p.queues) room in
      let here : with_state c p.chan.0 s p ≡ q = ground (arith, done) in
      subst (Appends c fifo (terminate ids) p) here
        (put-Appends c fifo p.chan.0 (terminate ids) s p appended)
