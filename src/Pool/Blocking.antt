-- ===== src/Pool/Blocking.antt =====
-- src/pool.rs, `sync_block`: a job whose caller waits for its value.
use thread_pool.Prelude.{
  ◌<◌, ◌≡◌, refl, ap, ◌∙◌, Bool, false, [], ◌∷◌, ◌++◌, All, Option, none, some, Result, ok, err,
  arith,
}
use thread_pool.Model.{Job, single_job}
use thread_pool.Channel.{Channel, IsFifo}
use thread_pool.Manager.{Manager}
use thread_pool.Manager.Jobs.{Queues, at}
use thread_pool.Manager.Shrink.{CarriesHooks}
use thread_pool.Pool.{ThreadPool, ExecutionError}
use thread_pool.Pool.Closing.{shut_down_leaves}
use thread_pool.Pool.Creation.{IsReady}
use thread_pool.Pool.Dispatch.{pick, dispatch}
use thread_pool.Pool.Exec.{exec}
use thread_pool.Pool.Life.{shut_down}
use thread_pool.Pool.Delivering.{after_send, after_send-contents, dispatch_sends}

-- What `try_recv` finds in the job's own channel, once the caller is unparked or eight seconds have
-- passed: which one is up to the threads that run meanwhile.
pub data Reply {ℓ} (R : Type ℓ) : Type ℓ where
  pending dropped : Reply R
  replied : R → Reply R

abbrev pub reply_result {ℓ} : {R : Type ℓ} → Reply R → Result R ExecutionError
reply_result pending = err ExecutionError.timeout
reply_result dropped = err ExecutionError.disconnected
reply_result (replied r) = ok r

module _ (c : Channel) where
  unfoldable pub sync_block {ℓ} :
      {R : Type ℓ} → Job → Reply R → ThreadPool c → Option (Result R ExecutionError × ThreadPool c)
  sync_block f reply p = elim (dispatch c (single_job f) 4 false p) [
    | none ↦ none
    | some (err e, q) ↦ some (err ExecutionError.timeout, q)
    | some (ok busy, q) ↦ some (reply_result reply, q)
  ]

  module _ (fifo : IsFifo c) where
    open fifo use {contents, capacity}

    sync_block_queues {ℓ} :
        {R : Type ℓ} (f : Job) (reply : Reply R) (p : ThreadPool c)
        → let queue = (pick c false p).0 in
          c.len (at c queue p.queues) < capacity (at c queue p.queues)
          → (r : ThreadPool c) × (sync_block f reply p ≡ some (reply_result reply, r))
            × (contents (at c queue r.queues) ≡ contents (at c queue p.queues) ++ single_job f ∷ [])
            × (r.manager ≡ p.manager)
    unfolding sync_block
    sync_block_queues f reply p room =
        let queue = (pick c false p).0 in
        (
          after_send c fifo queue (single_job f) p,
          ground (arith, dispatch_sends c fifo (single_job f) 4 false p room),
          after_send-contents c fifo queue (single_job f) p room,
          refl,
        )

    -- `sync_block` tests neither the status nor the number of workers. Over channels that keep
    -- their documented order, let a ready pool whose workers carry the configured hooks be closed,
    -- by force or not, and let the workers have left anything in the queues by then. `exec` then
    -- answers that the pool is disconnected, and changes nothing. But if the queue that `pick`
    -- chooses has room, `sync_block` still appends its job to it, though no worker is left to serve
    -- it, and goes on to its reply.
    pub sync_block_after_close {ℓ} :
        {R : Type ℓ} (forced : Bool) (f : Job) (reply : Reply R) (p : ThreadPool c)
        → IsReady c p
        → All (CarriesHooks p.manager.config.worker_behaviors) p.manager.workers
        → (q : ThreadPool c) × (shut_down c forced p ≡ some q)
          × (q.manager.workers ≡ [])
          × ((left : Queues c)
              → let later = record q { queues = left } in
                let queue = (pick c false later).0 in
                (exec c f false later ≡ some (err ExecutionError.disconnected, later))
                × (c.len (at c queue left) < capacity (at c queue left)
                    → (r : ThreadPool c) × (sync_block f reply later ≡ some (reply_result reply, r))
                      × (contents (at c queue r.queues)
                          ≡ contents (at c queue left) ++ single_job f ∷ [])
                      × (r.manager.workers ≡ [])))
    sync_block_after_close forced f reply p ready hooks =
        let (q, runs, gone, status, still, answers) =
          shut_down_leaves c forced p f false ready hooks in
        (
          q,
          runs,
          gone,
          λ left. (
            answers left,
            λ room.
                let (r, replies, appended, same) =
                  sync_block_queues f reply (record q { queues = left }) room in
                (r, replies, appended, ap (λ (m : Manager). m.workers) same ∙ gone),
          ),
        )
