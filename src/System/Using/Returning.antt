-- ===== src/System/Using/Returning.antt =====
-- src/pool.rs and src/worker.rs: that the calls of a user and the rounds of the workers return.
use thread_pool.Prelude.{
  ok, ℕ, ◌+◌, ◌<◌, ◌≡◌, ◌≢◌, refl, sym, ◌∙◌, List, [], ◌∷◌, none, some, Option-cases, inl, inr,
  count, arith,
}
use thread_pool.Channel.{Channel, IsFifo}
use thread_pool.Config.{lossy_retry}
use thread_pool.Idle.{IdleThreshold}
use thread_pool.Worker.Loop.{Clock, round, waits_of}
use thread_pool.Worker.Queues.{check_queues}
use thread_pool.Worker.Fairness.{check_queues_returns}
use thread_pool.Pool.Creation.{IsReady}
use thread_pool.Pool.Calls.Returning.{HasResult, never_none}
use thread_pool.Pool.Calls.Keeping.{Stays, core-Stays}
use thread_pool.Pool.Calls.Ready.{ids_of, perform-Stays}
use thread_pool.Pool.Calls.Answering.{IsWithin, CanSend, perform_returns}
use thread_pool.Worker.{Queue}
use thread_pool.Manager.Jobs.{at}
use thread_pool.Pool.{ThreadPool}
use thread_pool.Pool.Delivering.{HasRoom}
use thread_pool.Pool.Sizes.{SendEnds}
use thread_pool.Pool.Calls.{
  Call, runs, queues, blocks, extends, shrinks, resizes, kills, adjusts, hibernates, wakes,
  activates, clears, expires, closes, limits, toggles_blocking, toggles_scale, caps,
}
use thread_pool.System.{System, thread_of, after_round}
use thread_pool.System.Effects.{queued}
use thread_pool.System.Conservation.{Accounted}
use thread_pool.System.Messages.{HasPlainQueues}
use thread_pool.System.Graceful.{Reach-HasPlainQueues}
use thread_pool.System.Draining.Rounds.{plain-Unpackable}
use thread_pool.System.Using.{
  Use, asks, serves, after_call, use_one, uses, FindRoom, use-Reach, uses_conserve,
}

module _ (c : Channel) where
  -- The ids that calls and rounds may give out.
  abbrev pub ids_of_use : Use → System c → ℕ
  ids_of_use (asks call own) s = ids_of c call s.pool
  ids_of_use (serves id clock) s = 0

  unfoldable pub use_ids : List Use → System c → ℕ
  use_ids [] s = 0
  use_ids (u ∷ us) s = ids_of_use u s + elim (use_one c u s) [ none ↦ 0 | some t ↦ use_ids us t ]

  abbrev pub UseIsWithin : Use → System c → Type 0
  UseIsWithin (asks call own) s = IsWithin c call s.pool
  UseIsWithin (serves id clock) s = Unit

  -- Each call that asks for a smaller pool finds enough workers.
  abbrev pub UsesWithin : List Use → System c → Type 0
  UsesWithin [] s = Unit
  UsesWithin (u ∷ us) s =
      UseIsWithin u s × ((t : System c) → use_one c u s ≡ some t → UsesWithin us t)

module _ (c : Channel) (fifo : IsFifo c) where
  round_returns :
      (idle : IdleThreshold) (id : ℕ) (clock : Clock) (s : System c)
      → HasPlainQueues c fifo s.pool
      → HasResult (round c idle clock (thread_of c id s))
  unfolding round
  round_returns idle id clock s plain =
      let t = thread_of c id s in
      never_none _ (λ gone.
        elim (Option-cases (
          check_queues c t.pri_work_count t.first t.second (waits_of t.my_id).0
            (waits_of t.my_id).1)) [
              | inl panics ↦
                  check_queues_returns c fifo _ _ _ _ _ (plain-Unpackable c fifo _ plain.norm_plain)
                    (plain-Unpackable c fifo _ plain.pri_plain) panics
              | inr (k, checked) ↦ ground (arith, gone, checked)
            ])

  room-SendEnds : (queue : Queue) (p : ThreadPool c) → HasRoom c fifo queue p → SendEnds c queue p
  room-SendEnds queue p room m =
      let (t, done, appended) = fifo.send_room m (at c queue p.queues) room in ((ok tt, t), done)

  room-CanSend :
      (call : Call) (p : ThreadPool c)
      → ((queue : Queue) → HasRoom c fifo queue p)
      → CanSend c call p
  room-CanSend (runs f prioritized) p room =
      λ no_limit blocking queue. room-SendEnds queue p (room queue)
  room-CanSend (queues f) p room = λ no_limit blocking queue. room-SendEnds queue p (room queue)
  room-CanSend (blocks f reply) p room =
      λ no_limit blocking queue. room-SendEnds queue p (room queue)
  room-CanSend (extends more) p room = tt
  room-CanSend (shrinks less) p room = room-SendEnds p.chan.0 p (room p.chan.0)
  room-CanSend (resizes target) p room = room-SendEnds p.chan.0 p (room p.chan.0)
  room-CanSend (kills id) p room = room-SendEnds p.chan.0 p (room p.chan.0)
  room-CanSend adjusts p room = tt
  room-CanSend hibernates p room = tt
  room-CanSend (wakes spurious) p room = tt
  room-CanSend activates p room = tt
  room-CanSend clears p room = tt
  room-CanSend (expires life) p room = tt
  room-CanSend (closes forced) p room = tt
  room-CanSend (limits period) p room = tt
  room-CanSend (toggles_blocking non_blocking) p room = tt
  room-CanSend (toggles_scale auto_scale) p room = tt
  room-CanSend (caps threshold) p room = tt

  -- A call or a round returns, and keeps what the next one needs.
  use_returns :
      (u : Use) (us : List Use) (s : System c)
      → IsReady c s.pool
      → s.pool.timeout_policy ≢ lossy_retry
      → HasPlainQueues c fifo s.pool
      → FindRoom c fifo (u ∷ us) s
      → s.pool.manager.last_worker_id + ids_of_use c u s < 18446744073709551616
      → UseIsWithin c u s
      → (t : System c) × (use_one c u s ≡ some t)
        × Stays c (ids_of_use c u s) s.pool t.pool
        × HasPlainQueues c fifo t.pool
        × FindRoom c fifo us t
  unfolding use_one
  use_returns (asks call own) us s ready policy plain room fits within =
      let (q, done) =
        perform_returns c call s.pool ready policy fits within (room-CanSend call s.pool room.0) in
      let t = after_call c call own s q in
      let used : use_one c (asks call own) s ≡ some t = ground (arith, done) in
      let (reach, rest) = use-Reach c fifo (asks call own) us s t room used in
      let kept = perform-Stays c call s.pool q ready fits done in
      (t, used, kept, Reach-HasPlainQueues c fifo s t reach plain, rest)
  use_returns (serves id clock) us s ready policy plain room fits within =
      let (r, done) = round_returns s.pool.manager.idle_threshold id clock s plain in
      let t = after_round c id r s in
      let used : use_one c (serves id clock) s ≡ some t = ground (arith, done) in
      let (reach, rest) = use-Reach c fifo (serves id clock) us s t room used in
      let kept = core-Stays c s.pool t.pool ready refl in
      (t, used, kept, Reach-HasPlainQueues c fifo s t reach plain, rest)

  uses_return :
      (us : List Use) (s : System c)
      → IsReady c s.pool
      → s.pool.timeout_policy ≢ lossy_retry
      → HasPlainQueues c fifo s.pool
      → FindRoom c fifo us s
      → s.pool.manager.last_worker_id + use_ids c us s < 18446744073709551616
      → UsesWithin c us s
      → (t : System c) × (uses c us s ≡ some t) × IsReady c t.pool
  unfolding uses use_ids
  uses_return [] s ready policy plain room fits within = (s, refl, ready)
  uses_return (u ∷ us) s ready policy plain room fits within =
      let (m, first, kept, still, rest) =
        use_returns u us s ready policy plain room (omega (arith, fits)) within.0 in
      let ids : use_ids c (u ∷ us) s ≡ ids_of_use c u s + use_ids c us m = ground (arith, first) in
      let (t, then, after) =
        uses_return us m kept.ready (λ e. policy (sym kept.policy ∙ e)) still rest
          (omega (arith, fits, ids, kept.moved)) (within.1 m first) in
      (t, ground (arith, first, then), after)

  -- Over channels that keep their documented order, take a ready pool whose policy is not to evict
  -- and retry, with its jobs accounted for and no chained message in its queues. Let the calls of
  -- its user and the rounds of its workers follow each other in any order; each call may be any of
  -- `Call`, finds room in both queues, and asks for no more workers less than there are; the ids
  -- that may be given out on the way fit a `usize`. Then every call and every round returns, and
  -- the pool is ready again. Each job has been executed as often as a call took it in, but for the
  -- times that it still waits in a queue.
  pub uses_serve :
      (us : List Use) (s : System c)
      → IsReady c s.pool
      → s.pool.timeout_policy ≢ lossy_retry
      → Accounted c fifo s
      → HasPlainQueues c fifo s.pool
      → FindRoom c fifo us s
      → s.pool.manager.last_worker_id + use_ids c us s < 18446744073709551616
      → UsesWithin c us s
      → (t : System c) × (uses c us s ≡ some t)
        × IsReady c t.pool
        × ((i : ℕ) → count i t.submitted ≡ count i (queued c fifo t.pool) + count i t.executed)
  uses_serve us s ready policy start plain room fits within =
      let (t, returned, after) = uses_return us s ready policy plain room fits within in
      (t, returned, after, λ i. uses_conserve c fifo us s t i start room returned)
