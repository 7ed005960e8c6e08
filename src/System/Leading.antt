-- ===== src/System/Leading.antt =====
-- src/pool.rs: the calls that submit no job, as steps of the pool and its workers.
use thread_pool.Prelude.{
  ℕ, ◌-◌, ◌≡◌, refl, inl, inr, Bool, true, not, ◌&&◌, List, [], ◌∷◌, ◌++◌, none, some,
  if◌then◌else◌, ◌==◌, ltb, leb, Bool-cases, Option-cases, arith,
}
use thread_pool.Model.{Job}
use thread_pool.Channel.{Channel, IsFifo}
use thread_pool.Manager
use thread_pool.Manager.{Manager}
use thread_pool.Manager.Sizing
use thread_pool.Manager.Sizing.{workers_count}
use thread_pool.Pool.{ThreadPool, set_status, update_status, wake_workers}
use thread_pool.Pool.Life.{unhibernate, clear, shut_down}
use thread_pool.Pool.Resizing.{
  extend, shrink, resize, send_terminate, kill_worker, auto_adjust, get_queue_length,
}
use thread_pool.Pool.Sizes.{auto_adjust_only_extends}
use thread_pool.Pool.Delivering.{HasRoom}
use thread_pool.System.{System, informs, manages, Reach, here, next}

module _ (c : Channel) (fifo : IsFifo c) where
  -- A run of steps that ends in a pool, submits these jobs and executes none.
  pub record Leads (s : System c) (js : List Job) (q : ThreadPool c) : Type 0 where
    pub after : System c
    pub reached : Reach c fifo s after
    pub pool : after.pool ≡ q
    pub submitted : after.submitted ≡ js ++ s.submitted
    pub executed : after.executed ≡ s.executed

  pub managed : (s : System c) (q : ThreadPool c) → q.queues ≡ s.pool.queues → Leads s [] q
  managed s q same = record {
    after = record s { pool = q };
    reached = next here (manages q s.own same refl);
    pool = refl;
    submitted = refl;
    executed = refl;
  }

  informed :
      (ids : List ℕ) (m : Manager) (s : System c) (q : ThreadPool c)
      → HasRoom c fifo s.pool.chan.0 s.pool
      → send_terminate c ids (record s.pool { manager = m }) ≡ some q
      → Leads s [] q
  informed ids m s q room e =
      let between = record s { pool = record s.pool { manager = m } } in
      record {
        after = record s { pool = q };
        reached =
            next (next here (manages between.pool s.own refl refl)) (informs ids q room e refl);
        pool = refl;
        submitted = refl;
        executed = refl;
      }

  pub shrink-Leads :
      (less : ℕ) (s : System c) (q : ThreadPool c)
      → HasRoom c fifo s.pool.chan.0 s.pool
      → shrink c less s.pool ≡ some q
      → Leads s [] q
  unfolding shrink
  shrink-Leads less s q room e = elim (Bool-cases (less == 0)) [
    | inl nothing ↦ managed s q (ground arith)
    | inr some_less ↦ elim (Option-cases (Sizing.shrink_by less s.pool.manager)) [
      | inl panics ↦ absurd (ground arith)
      | inr ((gone, m), shrunk) ↦ informed gone m s q room (ground arith)
    ]
  ]

  pub kill_worker-Leads :
      (id : ℕ) (s : System c) (q : ThreadPool c)
      → HasRoom c fifo s.pool.chan.0 s.pool
      → kill_worker c id s.pool ≡ some q
      → Leads s [] q
  unfolding kill_worker
  kill_worker-Leads id s q room e = elim (Option-cases (Sizing.dismiss_worker id s.pool.manager)) [
    | inl panics ↦ absurd (ground arith)
    | inr ((none, m), dismissed) ↦ managed s q (ground arith)
    | inr ((some gone, m), dismissed) ↦ informed (id ∷ []) m s q room (ground arith)
  ]

  pub extend_queues :
      (more : ℕ) (p q : ThreadPool c) → extend c more p ≡ some q → q.queues ≡ p.queues
  unfolding extend
  extend_queues more p q e = elim (Option-cases (Sizing.extend_by more p.manager)) [
    | inl panics ↦ ground arith
    | inr (m, added) ↦ ground arith
  ]

  pub resize-Leads :
      (target : ℕ) (s : System c) (q : ThreadPool c)
      → HasRoom c fifo s.pool.chan.0 s.pool
      → resize c target s.pool ≡ some q
      → Leads s [] q
  unfolding resize
  resize-Leads target s q room e =
      let worker_count = workers_count s.pool.manager in
      elim (Bool-cases (target == 0)) [
        | inl nothing ↦ managed s q (ground arith)
        | inr some_target ↦ elim (Bool-cases (ltb worker_count target)) [
          | inl grows ↦ managed s q (extend_queues (target - worker_count) s.pool q (ground arith))
          | inr keeps ↦ elim (Bool-cases (ltb target worker_count)) [
            | inl less ↦ shrink-Leads (worker_count - target) s q room (ground arith)
            | inr same ↦ managed s q (ground arith)
          ]
        ]
      ]

  pub adjust_queues : (p q : ThreadPool c) → auto_adjust c p ≡ some q → q.queues ≡ p.queues
  adjust_queues p q e =
      let lem = auto_adjust_only_extends c p in
      elim (Bool-cases
        (ltb 2 (get_queue_length c p) && leb (workers_count p.manager) p.auto_extend_threshold)) [
          | inl wants ↦ extend_queues (get_queue_length c p) p q (ground arith)
          | inr enough ↦ ground arith
        ]

  pub clear_queues : (p q : ThreadPool c) → clear c p ≡ some q → q.queues ≡ p.queues
  unfolding clear set_status
  clear_queues p q e = elim (Option-cases (Manager.remove_all true p.manager)) [
    | inl waiting ↦ absurd (ground arith)
    | inr (m, removed) ↦ ground arith
  ]

  pub shut_down_queues :
      (forced : Bool) (p q : ThreadPool c) → shut_down c forced p ≡ some q → q.queues ≡ p.queues
  unfolding shut_down set_status
  shut_down_queues forced p q e = clear_queues (set_status c (if not forced then 1 else 2) p) q e

  pub unhibernate_queues :
      (spurious : Bool) (p q : ThreadPool c)
      → unhibernate c spurious p ≡ some q
      → q.queues ≡ p.queues
  unfolding unhibernate update_status wake_workers
  unhibernate_queues spurious p q e = elim (Option-cases (Manager.worker_cleanup p.manager)) [
    | inl panics ↦ ground arith
    | inr (m, cleaned) ↦ ground arith
  ]
