-- ===== src/Pool/Closing.antt =====
-- src/pool.rs: `close`, `force_close` and the drop of a pool.
use thread_pool.Prelude.{
  ◌≡◌, refl, ◌∙◌, Bool, true, [], none, some, err, if◌then◌else◌, ◌==◌, All, arith, inl, inr,
}
use thread_pool.Model.{Job, flag_closing, flag_force_close}
use thread_pool.Channel.{Channel}
use thread_pool.Status
use thread_pool.Worker.Serving.{List-cases}
use thread_pool.Manager.{Manager, remove_all}
use thread_pool.Manager.Valid.{IsValid}
use thread_pool.Manager.Shrink.{CarriesHooks, remove_all_empties}
use thread_pool.Pool.{ThreadPool, ExecutionError, set_status}
use thread_pool.Pool.Creation.{IsReady}
use thread_pool.Pool.Exec.{exec}
use thread_pool.Manager.Jobs.{Queues}
use thread_pool.Pool.Life.{clear, shut_down, close, drop, drop_manager}

emptied :
    (m : Manager)
    → IsValid m
    → All (CarriesHooks m.config.worker_behaviors) m.workers
    → (n : Manager) × (remove_all true m ≡ some n)
      × (n.workers ≡ [])
      × (n.chan ≡ m.chan)
      × IsValid n
unfolding remove_all
emptied m v hooks = elim (List-cases m.workers) [
  | inl gone ↦ (m, ground arith, gone, refl, v)
  | inr (w, ws, e) ↦
      let r = remove_all_empties m v hooks (λ gone. ground arith) in (_, r.0, refl, refl, r.1)
]

module _ (c : Channel) where
  -- To close a ready pool whose workers carry the configured hooks, by force or not, ends. It leaves
  -- no worker, the status of that way of closing, and a ready pool. From then on, and whatever the
  -- workers have left in the queues meanwhile, `exec` answers that the pool is disconnected, and
  -- changes nothing.
  pub shut_down_leaves :
      (forced : Bool) (p : ThreadPool c) (f : Job) (prioritized : Bool)
      → IsReady c p
      → All (CarriesHooks p.manager.config.worker_behaviors) p.manager.workers
      → (q : ThreadPool c) × (shut_down c forced p ≡ some q)
        × (q.manager.workers ≡ [])
        × (q.status ≡ (if forced then flag_force_close else flag_closing))
        × IsReady c q
        × ((left : Queues c)
            → let later = record q { queues = left } in
              exec c f prioritized later ≡ some (err ExecutionError.disconnected, later))
  unfolding shut_down clear set_status exec
  shut_down_leaves forced p f prioritized r hooks =
      let (n, runs, gone, chan, valid) = emptied p.manager r.manager_valid hooks in
      (
        record p { manager = n; status = if forced then flag_force_close else flag_closing },
        ground arith,
        gone,
        refl,
        record {
          manager_valid = valid;
          senders = r.senders;
          receivers = chan ∙ r.receivers;
          size_pos = r.size_pos;
          size_capped = r.size_capped;
        },
        λ left. ground arith,
      )

  -- The drop of a pool closes it if its status is 0. With any other status, a hibernating or a
  -- lazy one too, the body only clears the closing flags. The workers left are dropped at the end.
  pub drop_closes_if_normal :
      (p : ThreadPool c)
      → drop c p
        ≡ elim (if p.status == 0
            then close c (record p { status = 0 })
            else some (record p { status = (Status.closing p.status).1 })) [
              | none ↦ none
              | some q ↦ some (record q { manager = drop_manager c q.manager })
            ]
  unfolding drop close Status.closing
  drop_closes_if_normal p = ground arith
