-- ===== src/System/Messages.antt =====
-- src/pool.rs and src/worker.rs: the kinds of messages that wait in the queues.
use thread_pool.Prelude.{
  ℕ, ◌≡◌, sym, subst, inl, inr, List, [], ◌∷◌, ◌++◌, some, ◌==◌, Bool-cases, All, arith,
}
use thread_pool.Model.{Message, single_job, terminate}
use thread_pool.Channel.{Channel, IsFifo}
use thread_pool.Worker.{Queue, pri, norm}
use thread_pool.Idle.{IdleThreshold}
use thread_pool.Worker.Queues.{WorkStatus}
use thread_pool.Worker.Loop.{Clock, Round, quits, round}
use thread_pool.Worker.Exit.{Took, round_runs_what_it_takes}
use thread_pool.Manager.Jobs.{Queues, at}
use thread_pool.Pool.{ThreadPool}
use thread_pool.Pool.Delivering.{Appends, other}
use thread_pool.System.{
  System, Step, submits, enqueues, waits, works, informs, manages, thread_of, after_round,
}
use thread_pool.System.Accepting.{
  exec-Appends, execute-Appends, sync_block-Appends, send_terminate-Appends,
}
use thread_pool.System.Draining.Rounds.{IsPlain}

module _ (c : Channel) (fifo : IsFifo c) where
  open fifo use {contents}

  -- No chained message waits in a queue: none is ever sent.
  pub record HasPlainQueues (p : ThreadPool c) : Type 0 where
    pub norm_plain : All (IsPlain c fifo) (contents p.queues.norm_state)
    pub pri_plain : All (IsPlain c fifo) (contents p.queues.pri_state)

  append-IsPlain :
      (ms : List Message) (m : Message)
      → All (IsPlain c fifo) ms
      → IsPlain c fifo m
      → All (IsPlain c fifo) (ms ++ m ∷ [])
  append-IsPlain [] m h g = (g, tt)
  append-IsPlain (n ∷ ms) m h g = (h.0, append-IsPlain ms m h.1 g)

  appended-HasPlainQueues :
      (queue : Queue) (m : Message) (p q : ThreadPool c)
      → HasPlainQueues p
      → IsPlain c fifo m
      → contents (at c queue q.queues) ≡ contents (at c queue p.queues) ++ m ∷ []
      → at c (other c fifo queue) q.queues ≡ at c (other c fifo queue) p.queues
      → HasPlainQueues q
  appended-HasPlainQueues pri m p q h g e same = record {
    norm_plain = subst (λ (s : c.State). All (IsPlain c fifo) (contents s)) (sym same) h.norm_plain;
    pri_plain = subst (All (IsPlain c fifo)) (sym e) (append-IsPlain _ m h.pri_plain g);
  }
  appended-HasPlainQueues norm m p q h g e same = record {
    norm_plain = subst (All (IsPlain c fifo)) (sym e) (append-IsPlain _ m h.norm_plain g);
    pri_plain = subst (λ (s : c.State). All (IsPlain c fifo) (contents s)) (sym same) h.pri_plain;
  }

  Appends-HasPlainQueues :
      (m : Message) (p q : ThreadPool c)
      → IsPlain c fifo m
      → Appends c fifo m p q
      → HasPlainQueues p
      → HasPlainQueues q
  Appends-HasPlainQueues m p q g a h = appended-HasPlainQueues a.queue m p q h g a.appended a.others

  rest-IsPlain :
      {ms ns : List Message} {m : Message}
      → ms ≡ m ∷ ns
      → All (IsPlain c fifo) ms
      → All (IsPlain c fifo) ns
  rest-IsPlain e h = (subst (All (IsPlain c fifo)) e h).1

  works-HasPlainQueues :
      (id : ℕ) (s : System c) (r : Round c) (w : WorkStatus)
      → Took c fifo (thread_of c id s) r.thread w
      → HasPlainQueues s.pool
      → HasPlainQueues (after_round c id r s).pool
  works-HasPlainQueues id s r w (inl ((m, e, unpacks), same)) h = record {
    norm_plain = rest-IsPlain e h.norm_plain;
    pri_plain = subst (All (IsPlain c fifo)) (sym same) h.pri_plain;
  }
  works-HasPlainQueues id s r w (inr (inl ((m, e, unpacks), same))) h = record {
    norm_plain = subst (All (IsPlain c fifo)) (sym same) h.norm_plain;
    pri_plain = rest-IsPlain e h.pri_plain;
  }
  works-HasPlainQueues id s r w (inr (inr (job, same, still))) h = record {
    norm_plain = subst (All (IsPlain c fifo)) (sym same) h.norm_plain;
    pri_plain = subst (All (IsPlain c fifo)) (sym still) h.pri_plain;
  }

  stops-HasPlainQueues :
      (id : ℕ) (idle : IdleThreshold) (clock : Clock) (s : System c) (r : Round c)
      → (s.own id).stat ≡ 1
      → round c idle clock (thread_of c id s) ≡ some r
      → HasPlainQueues s.pool
      → HasPlainQueues (after_round c id r s).pool
  unfolding round
  stops-HasPlainQueues id idle clock s r stopped e h =
      let same : record { thread = thread_of c id s; ran = []; next = quits } ≡ r = ground arith in
      subst (λ (q : Round c). HasPlainQueues (after_round c id q s).pool) same
        (record { norm_plain = h.norm_plain; pri_plain = h.pri_plain })

  moved-HasPlainQueues : {t u : System c} → t ≡ u → HasPlainQueues u.pool → HasPlainQueues t.pool
  moved-HasPlainQueues e h = subst (λ (v : System c). HasPlainQueues v.pool) (sym e) h

  pub Step-HasPlainQueues :
      (s t : System c) → Step c fifo s t → HasPlainQueues s.pool → HasPlainQueues t.pool
  Step-HasPlainQueues s t (submits f prioritized q room e eq) h =
      let a = exec-Appends c fifo f prioritized s.pool q room e in
      moved-HasPlainQueues eq (Appends-HasPlainQueues (single_job f) s.pool q tt a h)
  Step-HasPlainQueues s t (enqueues f q room e eq) h =
      let a = execute-Appends c fifo f s.pool q room e in
      moved-HasPlainQueues eq (Appends-HasPlainQueues (single_job f) s.pool q tt a h)
  Step-HasPlainQueues s t (waits f reply r q room e eq) h =
      let a = sync_block-Appends c fifo f reply s.pool q r room e in
      moved-HasPlainQueues eq (Appends-HasPlainQueues (single_job f) s.pool q tt a h)
  Step-HasPlainQueues s t (works id idle clock r e eq) h =
      moved-HasPlainQueues eq (elim (Bool-cases ((s.own id).stat == 1)) [
        | inl stopped ↦ stops-HasPlainQueues id idle clock s r (ground arith) e h
        | inr going ↦
            let (w, took, ran) =
              round_runs_what_it_takes c fifo idle clock (thread_of c id s) r (ground arith) e in
            works-HasPlainQueues id s r w took h
      ])
  Step-HasPlainQueues s t (informs ids q room e eq) h =
      let a = send_terminate-Appends c fifo ids s.pool q room e in
      moved-HasPlainQueues eq (Appends-HasPlainQueues (terminate ids) s.pool q tt a h)
  Step-HasPlainQueues s t (manages p own same eq) h = moved-HasPlainQueues eq (record {
    norm_plain =
        subst (λ (q : Queues c). All (IsPlain c fifo) (contents q.norm_state)) (sym same)
          h.norm_plain;
    pri_plain =
        subst (λ (q : Queues c). All (IsPlain c fifo) (contents q.pri_state)) (sym same)
          h.pri_plain;
  })
