-- ===== src/System/Effects.antt =====
-- What one step does with the jobs: of the queues, submitted, and executed.
use thread_pool.Prelude.{
  ℕ, ◌+◌, ◌≡◌, refl, sym, ap, ◌∙◌, inl, inr, List, [], ◌∷◌, ◌++◌, Option, some, ◌==◌, count, arith,
  Bool-cases, Option-cases, subst,
}
use thread_pool.Model.{Job, Message, single_job, terminate}
use thread_pool.Channel.{Channel, IsFifo}
use thread_pool.Worker.{Queue, pri, norm}
use thread_pool.Worker.Queues.{WorkStatus}
use thread_pool.Worker.Loop.{Clock, Round, quits, round, ran_jobs}
use thread_pool.Idle.{IdleThreshold}
use thread_pool.Worker.Exit.{Took, round_runs_what_it_takes}
use thread_pool.Manager.Jobs.{Queues, at}
use thread_pool.Pool.{ThreadPool}
use thread_pool.Pool.Delivering.{Appends, other}
use thread_pool.System.Accepting.{
  exec-Appends, execute-Appends, sync_block-Appends, send_terminate-Appends,
}
use thread_pool.System.Jobs.{jobs_in, count-append, count-jobs_in, jobs_at, count-Took}
use thread_pool.System.{
  System, thread_of, after_round, Step, submits, enqueues, waits, works, informs, manages,
}

module _ (c : Channel) (fifo : IsFifo c) where
  open fifo use {contents}

  -- The jobs of both queues.
  abbrev pub queued : ThreadPool c → List Job
  queued p = jobs_at c fifo p.queues.norm_state ++ jobs_at c fifo p.queues.pri_state

  -- What a step does: it puts a job into a queue, or takes one and executes it, or neither. The
  -- jobs of the queues are counted, for each job.
  pub data Effect (s t : System c) : Type 0 where
    accepts :
        (f : Job)
        → t.submitted ≡ f ∷ s.submitted
        → t.executed ≡ s.executed
        → ((i : ℕ) → count i (queued t.pool) ≡ count i (f ∷ queued s.pool))
        → Effect s t
    performs :
        (f : Job)
        → t.submitted ≡ s.submitted
        → t.executed ≡ f ∷ s.executed
        → ((i : ℕ) → count i (queued s.pool) ≡ count i (f ∷ queued t.pool))
        → Effect s t
    idles :
        t.submitted ≡ s.submitted
        → t.executed ≡ s.executed
        → ((i : ℕ) → count i (queued t.pool) ≡ count i (queued s.pool))
        → Effect s t

  -- A message that is appended to one queue.
  count-appended :
      (i : ℕ) (queue : Queue) (m : Message) (p q : ThreadPool c)
      → contents (at c queue q.queues) ≡ contents (at c queue p.queues) ++ m ∷ []
      → at c (other c fifo queue) q.queues ≡ at c (other c fifo queue) p.queues
      → count i (queued q) ≡ count i (jobs_in (m ∷ [])) + count i (queued p)
  count-appended i pri m p q e same = omega (
    arith,
    ap (λ (l : List Message). count i (jobs_in l)) e,
    ap (λ (v : c.State). count i (jobs_at c fifo v)) same,
    count-jobs_in i (contents p.queues.pri_state) m,
    count-append i (jobs_at c fifo p.queues.norm_state) (jobs_at c fifo p.queues.pri_state),
    count-append i (jobs_at c fifo q.queues.norm_state) (jobs_at c fifo q.queues.pri_state),
  )
  count-appended i norm m p q e same = omega (
    arith,
    ap (λ (l : List Message). count i (jobs_in l)) e,
    ap (λ (v : c.State). count i (jobs_at c fifo v)) same,
    count-jobs_in i (contents p.queues.norm_state) m,
    count-append i (jobs_at c fifo p.queues.norm_state) (jobs_at c fifo p.queues.pri_state),
    count-append i (jobs_at c fifo q.queues.norm_state) (jobs_at c fifo q.queues.pri_state),
  )

  Appends-Effect :
      (f : Job) (s : System c) (q : ThreadPool c)
      → Appends c fifo (single_job f) s.pool q
      → Effect s (record s { pool = q; submitted = f ∷ s.submitted })
  Appends-Effect f s q a =
      accepts f refl refl
        (λ i. count-appended i a.queue (single_job f) s.pool q a.appended a.others ∙ (omega arith))

  works-Effect :
      (id : ℕ) (s : System c) (r : Round c) (w : WorkStatus)
      → Took c fifo (thread_of c id s) r.thread w
      → r.ran ≡ ran_jobs w.job
      → Effect s (after_round c id r s)
  works-Effect id s r w took ran = elim (Option-cases w.job) [
    | inl idle ↦ idles refl (ap (λ (l : List Job). l ++ s.executed) (ran ∙ ap ran_jobs idle)) (λ i.
        omega (
          arith,
          count-Took c fifo i (thread_of c id s) r.thread w took,
          ap (λ (o : Option Job). count i (ran_jobs o)) idle,
        ))
    | inr (f, some_job) ↦
        performs f refl (ap (λ (l : List Job). l ++ s.executed) (ran ∙ ap ran_jobs some_job)) (λ i.
          omega (
            arith,
            count-Took c fifo i (thread_of c id s) r.thread w took,
            ap (λ (o : Option Job). count i (ran_jobs o)) some_job,
          ))
  ]

  -- A worker that was told to stop takes nothing.
  stops-Effect :
      (id : ℕ) (idle : IdleThreshold) (clock : Clock) (s : System c) (r : Round c)
      → (s.own id).stat ≡ 1
      → round c idle clock (thread_of c id s) ≡ some r
      → Effect s (after_round c id r s)
  unfolding round
  stops-Effect id idle clock s r stopped e =
      let same : r ≡ record { thread = thread_of c id s; ran = []; next = quits } = ground arith in
      idles refl (ap (λ (q : Round c). q.ran ++ s.executed) same)
        (λ i. ap (λ (q : Round c). count i (queued (after_round c id q s).pool)) same)

  pub Step-Effect : {s t : System c} → Step c fifo s t → Effect s t
  Step-Effect {s} {t} (submits f prioritized q room e eq) =
      subst (Effect s) (sym eq)
        (Appends-Effect f s q (exec-Appends c fifo f prioritized s.pool q room e))
  Step-Effect {s} {t} (enqueues f q room e eq) =
      subst (Effect s) (sym eq) (Appends-Effect f s q (execute-Appends c fifo f s.pool q room e))
  Step-Effect {s} {t} (waits f reply r q room e eq) =
      subst (Effect s) (sym eq)
        (Appends-Effect f s q (sync_block-Appends c fifo f reply s.pool q r room e))
  Step-Effect {s} {t} (works id idle clock r e eq) =
      subst (Effect s) (sym eq) (elim (Bool-cases ((s.own id).stat == 1)) [
        | inl stopped ↦ stops-Effect id idle clock s r (ground arith) e
        | inr going ↦
            let (w, took, ran) =
              round_runs_what_it_takes c fifo idle clock (thread_of c id s) r (ground arith) e in
            works-Effect id s r w took ran
      ])
  Step-Effect {s} {t} (informs ids q room e eq) =
      let a = send_terminate-Appends c fifo ids s.pool q room e in
      subst (Effect s) (sym eq) (
        idles refl refl (λ i.
          count-appended i a.queue (terminate ids) s.pool q a.appended a.others ∙ (omega arith)))
  Step-Effect {s} {t} (manages p own same eq) = subst (Effect s) (sym eq) (
      idles refl refl (λ i.
        ap (λ (q : Queues c). count i (jobs_at c fifo q.norm_state ++ jobs_at c fifo q.pri_state))
          same))
