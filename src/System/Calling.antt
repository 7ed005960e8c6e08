-- ===== src/System/Calling.antt =====
-- src/pool.rs: each call of a pool, as steps of the pool and its workers.
use thread_pool.Prelude.{
  count, ◌+◌, ℕ, if◌then◌else◌, ◌≡◌, refl, sym, ap, subst, inl, inr, Bool, false, List, [], ◌∷◌,
  Option, none, some, Result, ok, err, Option-cases, arith,
}
use thread_pool.Model.{Job}
use thread_pool.Worker.{Queue}
use thread_pool.Channel.{Channel, IsFifo}
use thread_pool.Pool.{
  ThreadPool, ExecutionError, set_status, set_exec_timeout, toggle_blocking, toggle_auto_scale,
}
use thread_pool.Pool.Life.{hibernate}
use thread_pool.Pool.Dispatch.{pick}
use thread_pool.Pool.Exec.{exec, execute}
use thread_pool.Pool.Executing.{own_priority}
use thread_pool.Pool.Blocking.{Reply, sync_block}
use thread_pool.Pool.Resizing.{auto_expire, set_queue_size_threshold}
use thread_pool.Pool.Sleeping.{activate_idle}
use thread_pool.Pool.Calls.{
  Call, runs, queues, blocks, extends, shrinks, resizes, kills, adjusts, hibernates, wakes,
  activates, clears, expires, closes, limits, toggles_blocking, toggles_scale, caps, pool_after,
  perform,
}
use thread_pool.System.Jobs.{count-append}
use thread_pool.System.Effects.{queued}
use thread_pool.System.Conservation.{Reach-Balanced}
use thread_pool.System.Leading.{
  Leads, managed, shrink-Leads, kill_worker-Leads, resize-Leads, adjust_queues, extend_queues,
  clear_queues, shut_down_queues, unhibernate_queues,
}
use thread_pool.Pool.Exec.{exec_on, scale}
use thread_pool.Manager.Sizing.{workers_count}
use thread_pool.Pool.Delivering.{HasRoom, after_send, dispatch_sends, exec_lem}
use thread_pool.System.Accepting.{execute_cases}
use thread_pool.Manager.Jobs.{at}
use thread_pool.Model.{single_job}
use thread_pool.System.{System, Step, submits, enqueues, waits, here, next}

module _ (c : Channel) where
  abbrev is_taken : {A : Type 0} → Job → Option (Result (Unit {0}) ExecutionError × A) → List Job
  is_taken f none = []
  is_taken f (some (ok done, p)) = f ∷ []
  is_taken f (some (err e, p)) = []

  -- The job that a call brings into a queue.
  abbrev pub taken : Call → ThreadPool c → List Job
  taken (runs f prioritized) p = is_taken f (exec c f prioritized p)
  taken (queues f) p = is_taken f (execute c f p)
  taken (blocks f reply) p = f ∷ []
  taken _ p = []

module _ (c : Channel) (fifo : IsFifo c) where
  submitted-Leads :
      (f : Job) (s : System c) (q : ThreadPool c)
      → Step c fifo s (record s { pool = q; submitted = f ∷ s.submitted })
      → Leads c fifo s (f ∷ []) q
  submitted-Leads f s q step = record {
    after = record s { pool = q; submitted = f ∷ s.submitted };
    reached = next here step;
    pool = refl;
    submitted = refl;
    executed = refl;
  }

  -- With room in the queue, `exec` refuses a job only before it has changed anything.
  exec_refuses :
      (f : Job) (prioritized : Bool) (p q : ThreadPool c) (refused : ExecutionError)
      → HasRoom c fifo (pick c prioritized p).0 p
      → exec c f prioritized p ≡ some (err refused, q)
      → q ≡ p
  unfolding exec_on
  exec_refuses f prioritized p q refused room e =
      let retry : ℕ = if p.auto_scale then 1 else 0 in
      let after = after_send c fifo (pick c prioritized p).0 (single_job f) p in
      let busy = c.is_full (at c (pick c prioritized p).0 after.queues) in
      let sent = dispatch_sends c fifo (single_job f) retry prioritized p room in
      let lem = exec_lem c fifo f prioritized p in
      elim (Option-cases (scale c (workers_count p.manager) busy after)) [
        | inl panics ↦ ground (arith, sent, lem)
        | inr (r, scaled) ↦ ground (arith, sent, lem)
      ]

  runs-Leads :
      (f : Job) (prioritized : Bool) (s : System c) (q : ThreadPool c)
      → HasRoom c fifo (pick c prioritized s.pool).0 s.pool
      → pool_after c (exec c f prioritized s.pool) ≡ some q
      → Leads c fifo s (is_taken c f (exec c f prioritized s.pool)) q
  runs-Leads f prioritized s q room e = elim (Option-cases (exec c f prioritized s.pool)) [
    | inl waiting ↦ absurd (ground arith)
    | inr ((ok done, r), returned) ↦
        let accepted : exec c f prioritized s.pool ≡ some (ok tt, q) = ground arith in
        subst (λ (js : List Job). Leads c fifo s js q) (sym (ap (is_taken c f) accepted))
          (submitted-Leads f s q (submits f prioritized q room accepted refl))
    | inr ((err refused, r), returned) ↦
        let rejected : exec c f prioritized s.pool ≡ some (err refused, q) = ground arith in
        let same = exec_refuses f prioritized s.pool q refused room rejected in
        subst (λ (js : List Job). Leads c fifo s js q) (sym (ap (is_taken c f) rejected))
          (managed c fifo s q (ap (λ (p : ThreadPool c). p.queues) same))
  ]

  execute_refuses :
      (f : Job) (p q : ThreadPool c) (refused : ExecutionError)
      → HasRoom c fifo (pick c (own_priority c p) p).0 p
      → execute c f p ≡ some (err refused, q)
      → q.queues ≡ p.queues
  execute_refuses f p q refused room e = elim (execute_cases c fifo f p q (err refused) room e) [
    | inl (taken, same) ↦ absurd (ground arith)
    | inr (kind, refuses, same) ↦ same
  ]

  queues-Leads :
      (f : Job) (s : System c) (q : ThreadPool c)
      → HasRoom c fifo (pick c (own_priority c s.pool) s.pool).0 s.pool
      → pool_after c (execute c f s.pool) ≡ some q
      → Leads c fifo s (is_taken c f (execute c f s.pool)) q
  queues-Leads f s q room e = elim (Option-cases (execute c f s.pool)) [
    | inl waiting ↦ absurd (ground arith)
    | inr ((ok done, r), returned) ↦
        let accepted : execute c f s.pool ≡ some (ok tt, q) = ground arith in
        subst (λ (js : List Job). Leads c fifo s js q) (sym (ap (is_taken c f) accepted))
          (submitted-Leads f s q (enqueues f q room accepted refl))
    | inr ((err refused, r), returned) ↦
        let rejected : execute c f s.pool ≡ some (err refused, q) = ground arith in
        subst (λ (js : List Job). Leads c fifo s js q) (sym (ap (is_taken c f) rejected))
          (managed c fifo s q (execute_refuses f s.pool q refused room rejected))
  ]

  blocks-Leads :
      (f : Job) (reply : Reply (Unit {0})) (s : System c) (q : ThreadPool c)
      → HasRoom c fifo (pick c false s.pool).0 s.pool
      → pool_after c (sync_block c f reply s.pool) ≡ some q
      → Leads c fifo s (f ∷ []) q
  blocks-Leads f reply s q room e = elim (Option-cases (sync_block c f reply s.pool)) [
    | inl waiting ↦ absurd (ground arith)
    | inr ((r, p), returned) ↦ submitted-Leads f s q (waits f reply r q room (ground arith) refl)
  ]

  call-Leads :
      (call : Call) (s : System c) (q : ThreadPool c)
      → ((queue : Queue) → HasRoom c fifo queue s.pool)
      → perform c call s.pool ≡ some q
      → Leads c fifo s (taken c call s.pool) q
  unfolding perform hibernate set_status auto_expire set_exec_timeout toggle_blocking
      toggle_auto_scale set_queue_size_threshold
  call-Leads (runs f prioritized) s q room e = runs-Leads f prioritized s q (room _) e
  call-Leads (queues f) s q room e = queues-Leads f s q (room _) e
  call-Leads (blocks f reply) s q room e = blocks-Leads f reply s q (room _) e
  call-Leads (extends more) s q room e = managed c fifo s q (extend_queues c fifo more s.pool q e)
  call-Leads (shrinks less) s q room e = shrink-Leads c fifo less s q (room _) e
  call-Leads (resizes target) s q room e = resize-Leads c fifo target s q (room _) e
  call-Leads (kills id) s q room e = kill_worker-Leads c fifo id s q (room _) e
  call-Leads adjusts s q room e = managed c fifo s q (adjust_queues c fifo s.pool q e)
  call-Leads hibernates s q room e = managed c fifo s q (ground arith)
  call-Leads (wakes spurious) s q room e =
      managed c fifo s q (unhibernate_queues c fifo spurious s.pool q e)
  call-Leads activates s q room e = managed c fifo s q (ground (arith, activate_idle c s.pool))
  call-Leads clears s q room e = managed c fifo s q (clear_queues c fifo s.pool q e)
  call-Leads (expires life) s q room e = managed c fifo s q (ground arith)
  call-Leads (closes forced) s q room e =
      managed c fifo s q (shut_down_queues c fifo forced s.pool q e)
  call-Leads (limits period) s q room e = managed c fifo s q (ground arith)
  call-Leads (toggles_blocking non_blocking) s q room e = managed c fifo s q (ground arith)
  call-Leads (toggles_scale auto_scale) s q room e = managed c fifo s q (ground arith)
  call-Leads (caps threshold) s q room e = managed c fifo s q (ground arith)

  -- Over channels that keep their documented order, let both queues of a pool have room. Then any
  -- call of it that returns is a run of the system that ends in the pool that the call leaves, with
  -- whatever settings: it submits the call's job if that was taken, and executes nothing. That job
  -- is in the queues afterwards, each job as often as before and once more if the call took it.
  pub perform-Leads :
      (call : Call) (s : System c) (q : ThreadPool c)
      → ((queue : Queue) → HasRoom c fifo queue s.pool)
      → perform c call s.pool ≡ some q
      → Leads c fifo s (taken c call s.pool) q
        × ((i : ℕ)
            → count i (queued c fifo q)
              ≡ count i (taken c call s.pool) + count i (queued c fifo s.pool))
  perform-Leads call s q room e =
      let leads = call-Leads call s q room e in
      let js = taken c call s.pool in
      (
        leads,
        λ i. omega (
          arith,
          Reach-Balanced c fifo s leads.after leads.reached i,
          count-append i js s.submitted,
          ap (λ (l : List Job). count i l) leads.submitted,
          ap (λ (l : List Job). count i l) leads.executed,
          ap (λ (p : ThreadPool c). count i (queued c fifo p)) leads.pool,
        ),
      )
