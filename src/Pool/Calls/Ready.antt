-- ===== src/Pool/Calls/Ready.antt =====
-- src/pool.rs: what every call keeps of a pool.
use thread_pool.Prelude.{
  ℕ, ◌+◌, ◌≤◌, ◌<◌, ◌≡◌, refl, subst, Bool, not, leb, ◌&&◌, List, [], ◌∷◌, Option, none, some,
  Option-cases, Bool-cases, inl, inr, if◌then◌else◌, ltb, arith,
}
use thread_pool.Channel.{Channel}
use thread_pool.Manager.Sizing
use thread_pool.Manager.Sizing.{workers_count}
use thread_pool.Pool.{ThreadPool, set_status, set_exec_timeout, toggle_blocking, toggle_auto_scale}
use thread_pool.Pool.Creation.{IsReady}
use thread_pool.Pool.Life.{hibernate, activate, shut_down}
use thread_pool.Pool.Resizing.{auto_adjust, auto_expire, get_queue_length, set_queue_size_threshold}
use thread_pool.Pool.Sizes.{auto_adjust_only_extends}
use thread_pool.Pool.Sleeping.{activate_idle}
use thread_pool.Pool.Calls.{
  Call, runs, queues, blocks, extends, shrinks, resizes, kills, adjusts, hibernates, wakes,
  activates, clears, expires, closes, limits, toggles_blocking, toggles_scale, caps, perform,
  perform_all,
}
use thread_pool.Pool.Calls.Keeping.{
  Stays, managed-Stays, core-Stays, Stays-weaken, Stays-trans, extend-Stays, shrink-Stays,
  kill_worker-Stays, resize-Stays, clear-Stays, unhibernate-Stays,
}
use thread_pool.Pool.Calls.Submitting.{exec-Stays, execute-Stays, sync_block-Stays}

module _ (c : Channel) where
  -- The ids that a call may give out, at most: by the extension of a busy pool, one for each of its
  -- initial workers, and by the automatic adjustment, one for each message in its queues.
  abbrev pub ids_of : Call → ThreadPool c → ℕ
  ids_of (runs f prioritized) p = p.init_size
  ids_of (extends more) p = more
  ids_of (resizes target) p = target
  ids_of adjusts p = get_queue_length c p
  ids_of _ p = 0

  auto_adjust-Stays :
      (p q : ThreadPool c)
      → IsReady c p
      → p.manager.last_worker_id + get_queue_length c p < 18446744073709551616
      → auto_adjust c p ≡ some q
      → Stays c (get_queue_length c p) p q
  auto_adjust-Stays p q r fits e =
      let queued = get_queue_length c p in
      let lem = auto_adjust_only_extends c p in
      elim (Bool-cases (ltb 2 queued && leb (workers_count p.manager) p.auto_extend_threshold)) [
        | inl wants ↦ extend-Stays c queued p q r fits (ground arith)
        | inr enough ↦ Stays-weaken c 0 queued p q (omega arith) (core-Stays c p q r (ground arith))
      ]

  auto_expire-Stays :
      (life : Option ℕ) (p : ThreadPool c) → IsReady c p → Stays c 0 p (auto_expire c life p)
  unfolding auto_expire Sizing.worker_auto_expire
  auto_expire-Stays life p r =
      let v = r.manager_valid in
      let q = auto_expire c life p in
      managed-Stays c 0 p q q.manager r
        (
          record {
            free = v.free;
            distinct = v.distinct;
            ranged = v.ranged;
            floor = v.floor;
            fits = v.fits;
          },
          omega arith,
          refl,
        )
        refl

  shut_down-Stays :
      (forced : Bool) (p q : ThreadPool c)
      → IsReady c p
      → shut_down c forced p ≡ some q
      → Stays c 0 p q
  unfolding shut_down set_status
  shut_down-Stays forced p q r e =
      let marked = set_status c (if not forced then 1 else 2) p in
      let first = core-Stays c p marked r refl in
      Stays-trans c 0 0 p marked q first (clear-Stays c marked q first.ready e)

  pub perform-Stays :
      (call : Call) (p q : ThreadPool c)
      → IsReady c p
      → p.manager.last_worker_id + ids_of call p < 18446744073709551616
      → perform c call p ≡ some q
      → Stays c (ids_of call p) p q
  unfolding perform hibernate activate auto_expire Sizing.worker_auto_expire shut_down set_status
      set_exec_timeout toggle_blocking toggle_auto_scale set_queue_size_threshold
  perform-Stays (runs f prioritized) p q r fits e = exec-Stays c f prioritized p q r fits e
  perform-Stays (queues f) p q r fits e = execute-Stays c f p q r e
  perform-Stays (blocks f reply) p q r fits e = sync_block-Stays c f reply p q r e
  perform-Stays (extends more) p q r fits e = extend-Stays c more p q r fits e
  perform-Stays (shrinks less) p q r fits e = shrink-Stays c less p q r e
  perform-Stays (resizes target) p q r fits e = resize-Stays c target p q r fits e
  perform-Stays (kills id) p q r fits e = kill_worker-Stays c id p q r e
  perform-Stays adjusts p q r fits e = auto_adjust-Stays p q r fits e
  perform-Stays hibernates p q r fits e = core-Stays c p q r (ground arith)
  perform-Stays (wakes spurious) p q r fits e = unhibernate-Stays c spurious p q r e
  perform-Stays activates p q r fits e = core-Stays c p q r (ground (arith, activate_idle c p))
  perform-Stays clears p q r fits e = clear-Stays c p q r e
  perform-Stays (expires life) p q r fits e =
      subst (Stays c 0 p) (ground arith) (auto_expire-Stays life p r)
  perform-Stays (closes forced) p q r fits e = shut_down-Stays forced p q r e
  perform-Stays (limits period) p q r fits e = core-Stays c p q r (ground arith)
  perform-Stays (toggles_blocking non_blocking) p q r fits e = core-Stays c p q r (ground arith)
  perform-Stays (toggles_scale auto_scale) p q r fits e = core-Stays c p q r (ground arith)
  perform-Stays (caps threshold) p q r fits e = core-Stays c p q r (ground arith)

  -- The ids that a sequence of calls may give out.
  unfoldable pub all_ids : List Call → ThreadPool c → ℕ
  all_ids [] p = 0
  all_ids (call ∷ calls) p =
      ids_of call p + elim (perform c call p) [ none ↦ 0 | some q ↦ all_ids calls q ]

  perform_all-Stays :
      (calls : List Call) (p q : ThreadPool c)
      → IsReady c p
      → p.manager.last_worker_id + all_ids calls p < 18446744073709551616
      → perform_all c calls p ≡ some q
      → Stays c (all_ids calls p) p q
  unfolding perform_all all_ids
  perform_all-Stays [] p q r fits e = core-Stays c p q r (ground arith)
  perform_all-Stays (call ∷ calls) p q r fits e = elim (Option-cases (perform c call p)) [
    | inl panics ↦ absurd (ground arith)
    | inr (m, done) ↦
        let ids : all_ids (call ∷ calls) p ≡ ids_of call p + all_ids calls m = ground arith in
        let first = perform-Stays call p m r (omega (arith, fits, ids)) done in
        let rest =
          perform_all-Stays calls m q first.ready (omega (arith, fits, ids, first.moved))
            (ground arith) in
        Stays-weaken c (ids_of call p + all_ids calls m) (all_ids (call ∷ calls) p) p q
          (omega (arith, ids)) (Stays-trans c (ids_of call p) (all_ids calls m) p m q first rest)
  ]

  -- Whatever calls the user of a ready pool makes, in whatever order: if they all return, and the
  -- ids that they may give out on the way fit a `usize`, the pool is ready again. Its initial size
  -- is the same, and the last id has moved by no more than the ids given out.
  pub perform_all-IsReady :
      (calls : List Call) (p q : ThreadPool c)
      → IsReady c p
      → p.manager.last_worker_id + all_ids calls p < 18446744073709551616
      → perform_all c calls p ≡ some q
      → IsReady c q
        × (q.init_size ≡ p.init_size)
        × (q.manager.last_worker_id ≤ p.manager.last_worker_id + all_ids calls p)
  perform_all-IsReady calls p q r fits e =
      let stays = perform_all-Stays calls p q r fits e in (stays.ready, stays.size, stays.moved)
