-- ===== src/Multi/Locking.antt =====
-- src/multi.rs: the lock of the store, where `add_pool` changes a pool that is there.
use text.Mathlib.TextEquality.{eq_iff}
use thread_pool.Prelude.{
  ℕ, ◌+◌, ◌<◌, ◌≡◌, refl, false, String, [], ◌∷◌, none, some, ok, ◌==◌, arith,
}
use thread_pool.Prelude.Maps.{lookup, insert, lookup-insert, same_text_refl, is_empty_text}
use thread_pool.Model.Backoff
use thread_pool.Model.Backoff.{minus_one, alone}
use thread_pool.Model.Backoff.Spin.{spin_update_starves}
use thread_pool.Channel.{Channel}
use thread_pool.Once.{Once}
use thread_pool.Pool.{ThreadPool}
use thread_pool.Pool.Creation.{IsReady}
use thread_pool.Pool.Resizing
use thread_pool.Pool.Sizes.{SendEnds, resize_sizes}
use thread_pool.Manager.Sizing.{workers_count}
use thread_pool.Multi.{PoolStore, Statics, inner, with_pools, concede_update, reset_lock}
use thread_pool.Multi.Adjusting.Periods.{inner-with_pools}
use thread_pool.Multi.Changing.{take_out, put_new, put_in, add_pool, remove_pool}
use thread_pool.Multi.Store.{free_for, new_makes}

module _ (c : Channel) (o : Once) where
  -- A shrinker waits on a lock that a grower holds, and a grower goes on.
  pub held_against :
      (p : PoolStore c)
      → p.mutating ≡ 1
      → (concede_update c minus_one p ≡ none) × (concede_update c 1 p ≡ some (false, p))
  unfolding concede_update Backoff.concede_update
  held_against p held =
      let waits : Backoff.spin_update (alone p.mutating ∷ []) minus_one ≡ none =
        spin_update_starves (alone p.mutating ∷ []) minus_one (ground arith, tt) in
      (ground (arith, waits), ground (arith, held))

  -- Let the store be there with its lock free, and let a key have a ready pool of another size
  -- than the one asked for, whose new worker ids fit, and whose message that
  -- ends workers, if it is to shrink, does not wait for ever for room; keys are not empty, and sizes
  -- not 0. Then `add_pool` resizes that pool, and returns with the lock still held. From then on
  -- `remove_pool`, of whatever key, does not end; but a call of `add_pool` for a key without a
  -- pool goes on regardless, and frees the lock that it did not take.
  pub add_pool_keeps_lock :
      (key gone fresh : String) (size later : ℕ) (s : Statics c o) (p : PoolStore c)
      (pool : ThreadPool c)
      → inner c o s ≡ ok p
      → is_empty_text key ≡ false
      → is_empty_text gone ≡ false
      → is_empty_text fresh ≡ false
      → 0 < size
      → 0 < later
      → p.mutating ≡ 0
      → lookup key p.store ≡ some pool
      → lookup fresh p.store ≡ none
      → IsReady c pool
      → (Resizing.get_size c pool == size) ≡ false
      → pool.manager.last_worker_id + size < 18446744073709551616
      → (size < workers_count pool.manager → SendEnds c pool.chan.0 pool)
      → (resized : ThreadPool c) × (t : Statics c o) × (q : PoolStore c) × (u : Statics c o)
        × (r : PoolStore c) × (Resizing.resize c size pool ≡ some resized)
        × (add_pool c o key size s ≡ some t)
        × (inner c o t ≡ ok q)
        × (lookup key q.store ≡ some resized)
        × (q.mutating ≡ 1)
        × (remove_pool c o gone t ≡ none)
        × (add_pool c o fresh later t ≡ some u)
        × (inner c o u ≡ ok r)
        × (r.mutating ≡ 0)
  unfolding add_pool remove_pool put_in put_new take_out reset_lock
  add_pool_keeps_lock key gone fresh size later s p pool found key_named gone_named fresh_named
        some_size some_later free there absent ready differs fits ends =
      let (resized, runs, sized, still) = resize_sizes c size pool ready some_size fits ends in
      let (pool_later, made_later, new_later) = new_makes c later in
      let q = record p { store = insert key resized p.store; mutating = 1 } in
      let t = with_pools c o s q in
      let r = record q { store = insert fresh pool_later q.store; mutating = 0 } in
      let u = with_pools c o s r in
      let read = inner-with_pools c o s p q found in
      let against = held_against q refl in
      let not_yet : lookup fresh q.store ≡ none =
        ground (arith, lookup-insert key fresh resized p.store, eq_iff key fresh) in
      (
        resized,
        t,
        q,
        u,
        r,
        runs,
        ground (arith, free_for c 1 p refl free, runs, found),
        read,
        ground (arith, lookup-insert key key resized p.store, same_text_refl key),
        refl,
        ground (arith, read, against),
        ground (arith, read, against, not_yet, made_later),
        inner-with_pools c o s p r found,
        refl,
      )
