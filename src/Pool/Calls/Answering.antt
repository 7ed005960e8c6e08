-- ===== src/Pool/Calls/Answering.antt =====
-- src/pool.rs: every call of a pool returns.
use thread_pool.Prelude.{
  ℕ, ◌+◌, ◌≤◌, ◌<◌, ◌≡◌, ◌≢◌, refl, ap, sym, ◌∙◌, Bool, false, not, ◌&&◌, List, [], ◌∷◌, Option,
  some, ok, err, Option-cases, inl, inr, if◌then◌else◌, length, arith,
}
use thread_pool.Model.{Job, single_job}
use thread_pool.Channel.{Channel}
use thread_pool.Config.{lossy_retry}
use thread_pool.Status
use thread_pool.Manager.Jobs.{at}
use thread_pool.Manager.Sizing.{workers_count}
use thread_pool.Pool.{ThreadPool, set_status}
use thread_pool.Pool.Creation.{IsReady}
use thread_pool.Pool.Dispatch.{dispatch}
use thread_pool.Pool.Life.{shut_down}
use thread_pool.Pool.Exec.{exec, exec_on, execute, execute_on}
use thread_pool.Pool.Blocking.{Reply, sync_block}
use thread_pool.Pool.Calls.{
  Call, runs, queues, blocks, extends, shrinks, resizes, kills, adjusts, hibernates, wakes,
  activates, clears, expires, closes, limits, toggles_blocking, toggles_scale, caps, pool_after,
  perform, perform_all,
}
use thread_pool.Pool.Sizes.{SendEnds}
use thread_pool.Pool.Calls.Returning.{
  WaitsEnd, HasResult, never_none, dispatch_returns, extend_returns, shrink_returns,
  kill_worker_returns, resize_returns, auto_adjust_returns, clear_returns, unhibernate_returns,
  scale_returns,
}
use thread_pool.Pool.Calls.Frame.{Core, dispatch-core}
use thread_pool.Pool.Calls.Keeping.{core-Stays}
use thread_pool.Pool.Calls.Ready.{ids_of, all_ids, perform-Stays}
use thread_pool.Pool.Sleeping.{activate_idle}

module _ (c : Channel) where
  exec_on_returns :
      (f : Job) (prioritized : Bool) (p : ThreadPool c)
      → IsReady c p
      → p.timeout_policy ≢ lossy_retry
      → WaitsEnd c p
      → p.manager.last_worker_id + p.init_size < 18446744073709551616
      → HasResult (exec_on c f prioritized p)
  unfolding exec_on
  exec_on_returns f prioritized p r policy ends fits =
      let retry : ℕ = if p.auto_scale then 1 else 0 in
      never_none _ (λ gone. elim (Option-cases (dispatch c (single_job f) retry prioritized p)) [
        | inl waits ↦
            ground (arith, dispatch_returns c (single_job f) retry prioritized p policy ends)
        | inr ((err refused, m), sent) ↦ ground arith
        | inr ((ok busy, m), sent) ↦
            let same = dispatch-core c (single_job f) retry prioritized p (ok busy) m sent in
            let first = core-Stays c p m r same in
            let count : workers_count p.manager ≡ workers_count m.manager =
              ap (λ (k : Core). length k.manager.workers) (sym same) in
            let scaled =
              scale_returns c (workers_count p.manager) busy m count first.ready
                (omega (arith, first.size, first.moved, fits)) in
            ground (arith, scaled)
      ])

  exec_returns :
      (f : Job) (prioritized : Bool) (p : ThreadPool c)
      → IsReady c p
      → p.timeout_policy ≢ lossy_retry
      → WaitsEnd c p
      → p.manager.last_worker_id + p.init_size < 18446744073709551616
      → HasResult (exec c f prioritized p)
  unfolding exec
  exec_returns f prioritized p r policy ends fits = never_none _ (λ gone.
      ground (arith, activate_idle c p, exec_on_returns f prioritized p r policy ends fits))

  execute_returns :
      (f : Job) (p : ThreadPool c)
      → p.timeout_policy ≢ lossy_retry
      → WaitsEnd c p
      → HasResult (execute c f p)
  unfolding execute execute_on
  execute_returns f p policy ends =
      let read = record p { status = (Status.closing p.status).1 } in
      let prioritized =
        c.is_empty (at c p.chan.1 p.queues) && not (c.is_full (at c p.chan.0 p.queues)) in
      never_none _ (λ gone. elim (Option-cases (dispatch c (single_job f) 0 prioritized read)) [
        | inl waits ↦
            ground (arith, dispatch_returns c (single_job f) 0 prioritized read policy ends)
        | inr ((err refused, m), sent) ↦ ground arith
        | inr ((ok busy, m), sent) ↦ ground arith
      ])

  sync_block_returns :
      (f : Job) (reply : Reply (Unit {0})) (p : ThreadPool c)
      → p.timeout_policy ≢ lossy_retry
      → WaitsEnd c p
      → HasResult (sync_block c f reply p)
  unfolding sync_block
  sync_block_returns f reply p policy ends = never_none _ (λ gone.
      elim (Option-cases (dispatch c (single_job f) 4 false p)) [
        | inl waits ↦ ground (arith, dispatch_returns c (single_job f) 4 false p policy ends)
        | inr ((err refused, m), sent) ↦ ground arith
        | inr ((ok busy, m), sent) ↦ ground arith
      ])

  pool_after_returns :
      {A : Type 0} (o : Option (A × ThreadPool c)) → HasResult o → HasResult (pool_after c o)
  pool_after_returns {A = A} o ((a, q), e) =
      (q, ap (λ (r : Option (A × ThreadPool c)). pool_after c r) e)

  -- A call of `shrink` asks for no more workers than there are.
  abbrev pub IsWithin : Call → ThreadPool c → Type 0
  IsWithin (shrinks less) p = less ≤ workers_count p.manager
  IsWithin _ p = Unit

  -- A send of the call that waits for room does not wait for ever.
  abbrev pub CanSend : Call → ThreadPool c → Type 0
  CanSend (runs f prioritized) p = WaitsEnd c p
  CanSend (queues f) p = WaitsEnd c p
  CanSend (blocks f reply) p = WaitsEnd c p
  CanSend (shrinks less) p = SendEnds c p.chan.0 p
  CanSend (resizes target) p = SendEnds c p.chan.0 p
  CanSend (kills id) p = SendEnds c p.chan.0 p
  CanSend _ p = Unit

  pub perform_returns :
      (call : Call) (p : ThreadPool c)
      → IsReady c p
      → p.timeout_policy ≢ lossy_retry
      → p.manager.last_worker_id + ids_of c call p < 18446744073709551616
      → IsWithin call p
      → CanSend call p
      → HasResult (perform c call p)
  unfolding perform shut_down set_status
  perform_returns (runs f prioritized) p r policy fits within ends =
      pool_after_returns _ (exec_returns f prioritized p r policy ends fits)
  perform_returns (queues f) p r policy fits within ends =
      pool_after_returns _ (execute_returns f p policy ends)
  perform_returns (blocks f reply) p r policy fits within ends =
      pool_after_returns _ (sync_block_returns f reply p policy ends)
  perform_returns (extends more) p r policy fits within ends = extend_returns c more p r fits
  perform_returns (shrinks less) p r policy fits within ends = shrink_returns c less p r within ends
  perform_returns (resizes target) p r policy fits within ends =
      resize_returns c target p r fits ends
  perform_returns (kills id) p r policy fits within ends = kill_worker_returns c id p r ends
  perform_returns adjusts p r policy fits within ends = auto_adjust_returns c p r fits
  perform_returns hibernates p r policy fits within ends = (_, refl)
  perform_returns (wakes spurious) p r policy fits within ends = unhibernate_returns c spurious p
  perform_returns activates p r policy fits within ends = (p, activate_idle c p)
  perform_returns clears p r policy fits within ends = clear_returns c p r
  perform_returns (expires life) p r policy fits within ends = (_, refl)
  perform_returns (closes forced) p r policy fits within ends =
      let marked = set_status c (if not forced then 1 else 2) p in
      clear_returns c marked (core-Stays c p marked r refl).ready
  perform_returns (limits period) p r policy fits within ends = (_, refl)
  perform_returns (toggles_blocking non_blocking) p r policy fits within ends = (_, refl)
  perform_returns (toggles_scale auto_scale) p r policy fits within ends = (_, refl)
  perform_returns (caps threshold) p r policy fits within ends = (_, refl)

  -- Each call of a sequence that asks for a smaller pool finds enough workers.
  abbrev pub AllWithin : List Call → ThreadPool c → Type 0
  AllWithin [] p = Unit
  AllWithin (call ∷ calls) p =
      IsWithin call p × ((q : ThreadPool c) → perform c call p ≡ some q → AllWithin calls q)

  -- No send of a sequence of calls waits for ever.
  abbrev pub AllCanSend : List Call → ThreadPool c → Type 0
  AllCanSend [] p = Unit
  AllCanSend (call ∷ calls) p =
      CanSend call p × ((q : ThreadPool c) → perform c call p ≡ some q → AllCanSend calls q)

  -- Unless its policy is to evict and retry, a ready pool serves its user whatever the calls and
  -- their order. Let the ids that they may give out on the way fit a `usize`, let no call of
  -- `shrink` ask for more workers than there are, and let no call wait for ever for room in a
  -- queue: one that sends a job, on a pool that blocks without a time limit, or one that may end
  -- workers. Then they all return, and the pool is ready again: its manager is valid, with its lock
  -- free and its ids distinct. Its initial size is the same, and the last id has moved by no more
  -- than the ids given out.
  pub perform_all_returns :
      (calls : List Call) (p : ThreadPool c)
      → IsReady c p
      → p.timeout_policy ≢ lossy_retry
      → p.manager.last_worker_id + all_ids c calls p < 18446744073709551616
      → AllWithin calls p
      → AllCanSend calls p
      → (q : ThreadPool c) × (perform_all c calls p ≡ some q)
        × IsReady c q
        × (q.init_size ≡ p.init_size)
        × (q.manager.last_worker_id ≤ p.manager.last_worker_id + all_ids c calls p)
  unfolding perform_all all_ids
  perform_all_returns [] p r policy fits within ends = (p, refl, r, refl, omega arith)
  perform_all_returns (call ∷ calls) p r policy fits within ends =
      let (m, first) = perform_returns call p r policy (omega (arith, fits)) within.0 ends.0 in
      let ids : all_ids c (call ∷ calls) p ≡ ids_of c call p + all_ids c calls m =
        ground (arith, first) in
      let s = perform-Stays c call p m r (omega (arith, fits)) first in
      let (q, rest, ready, size, last) =
        perform_all_returns calls m s.ready (λ e. policy (sym s.policy ∙ e))
          (omega (arith, fits, ids, s.moved)) (within.1 m first) (ends.1 m first) in
      (q, ground (arith, first, rest), ready, size ∙ s.size, omega (arith, last, ids, s.moved))
