-- ===== src/Pool/Running.antt =====
-- src/pool.rs: a job on its way into a queue.
use thread_pool.Prelude.{
  ◌<◌, ◌≡◌, ◌≢◌, refl, Bool, false, ◌&&◌, ◌||◌, [], ◌∷◌, ◌++◌, some, ok, if◌then◌else◌, ◌==◌, leb,
  length, arith,
}
use thread_pool.Model.{Job, single_job, flag_closing, flag_force_close}
use thread_pool.Channel.{Channel, IsFifo}
use thread_pool.Worker.{pri, norm}
use thread_pool.Manager.Jobs.{at}
use thread_pool.Manager.Sizing.{workers_count}
use thread_pool.Pool.{ThreadPool}
use thread_pool.Pool.Dispatch.{pick}
use thread_pool.Pool.Exec.{scale, exec_on, exec}
use thread_pool.Pool.Delivering.{
  other, at-put-other, after_send, after_send-contents, dispatch_sends, exec_lem,
}

module _ (c : Channel) (fifo : IsFifo c) where
  open fifo use {contents, capacity}

  -- Which queue a message goes to: the priority queue if it asks for that, or if the normal queue
  -- is empty and the priority queue is not longer than the pool's threshold; else the normal one.
  pub pick_chooses :
      (with_priority : Bool) (p : ThreadPool c)
      → p.chan ≡ (pri, norm)
      → pick c with_priority p ≡ (
          if with_priority
            || (length (contents p.queues.norm_state) == 0
                && leb (length (contents p.queues.pri_state)) p.upgrade_threshold)
          then (pri, 0)
          else (norm, 1))
  unfolding pick
  pick_chooses with_priority p e = ground (
    arith,
    fifo.is_empty_len p.queues.norm_state,
    fifo.len_contents p.queues.norm_state,
    fifo.len_contents p.queues.pri_state,
  )

  -- Over channels that keep their documented order, let a pool have workers, not scale itself, and
  -- be neither closing nor force-closing. If the queue that `pick` chooses has room, `exec` succeeds
  -- and appends the job to that queue, whether the pool blocks its callers or not, and with a time
  -- limit or without. The other queue, the workers and the status stay as they were, so a job that
  -- is given to a hibernating pool does not wake it.
  pub exec_queues_job :
      (f : Job) (prioritized : Bool) (p : ThreadPool c)
      → 0 < workers_count p.manager
      → p.auto_scale ≡ false
      → p.status ≢ flag_closing
      → p.status ≢ flag_force_close
      → let queue = (pick c prioritized p).0 in
        c.len (at c queue p.queues) < capacity (at c queue p.queues)
        → (q : ThreadPool c) × (exec c f prioritized p ≡ some (ok tt, q))
          × (contents (at c queue q.queues) ≡ contents (at c queue p.queues) ++ single_job f ∷ [])
          × (at c (other c fifo queue) q.queues ≡ at c (other c fifo queue) p.queues)
          × (q.manager ≡ p.manager)
          × (q.status ≡ p.status)
  unfolding exec_on scale
  exec_queues_job f prioritized p some_worker no_scale open_status not_forced room =
      let queue = (pick c prioritized p).0 in
      let after = after_send c fifo queue (single_job f) p in
      (
        after,
        ground (
          arith,
          exec_lem c fifo f prioritized p,
          dispatch_sends c fifo (single_job f) 0 prioritized p room,
        ),
        after_send-contents c fifo queue (single_job f) p room,
        at-put-other c fifo queue _ p.queues,
        refl,
        refl,
      )
