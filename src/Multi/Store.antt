-- ===== src/Multi/Store.antt =====
-- src/multi.rs: the pools of the store by their keys, as they are made, added and removed.
use thread_pool.Prelude.{
  ℕ, ◌<◌, ◌≡◌, refl, sym, subst, ap, Bool, true, false, String, List, [], ◌∷◌, none, some, ok,
  if◌then◌else◌, ◌==◌, ltb, arith, All,
}
use thread_pool.Prelude.Maps.{
  lookup, insert, lookup-insert, remove-insert, same_text, same_text_refl, is_empty_text,
}
use thread_pool.Model.{as_ref, flag_normal}
use thread_pool.Model.Backoff
use thread_pool.Model.Backoff.{minus_one, alone}
use thread_pool.Model.Backoff.Spin.{spin_update_takes}
use thread_pool.Channel.{Channel}
use thread_pool.Config
use thread_pool.Config.{Config}
use thread_pool.Once.{Once}
use thread_pool.Worker.{Worker, Queue, pri, norm}
use thread_pool.Manager.{build}
use thread_pool.Manager.Valid.{numbers}
use thread_pool.Manager.Growth.{made}
use thread_pool.Manager.Shrink.{CarriesHooks}
use thread_pool.Pool.{ThreadPool, create_pool, new}
use thread_pool.Pool.Life
use thread_pool.Pool.Creation.{IsReady, create_pool_makes}
use thread_pool.Pool.Closing.{shut_down_leaves}
use thread_pool.Status
use thread_pool.Multi.{PoolStore, Statics, inner, with_pools, concede_update, reset_lock}
use thread_pool.Multi.Adjusting.Periods.{inner-with_pools}
use thread_pool.Multi.Changing.{close_and_drop, take_out, put_new, put_in, add_pool, remove_pool}

made-CarriesHooks :
    (config : Config) (chan : Queue × Queue) (privileged : Bool) (is : List ℕ)
    → All (CarriesHooks config.worker_behaviors) (made config chan privileged is)
made-CarriesHooks config chan privileged [] = tt
made-CarriesHooks config chan privileged (i ∷ is) =
    ((refl, refl), made-CarriesHooks config chan privileged is)

module _ (c : Channel) where
  -- A pool as `new` makes it.
  pub record IsNew (size : ℕ) (p : ThreadPool c) : Type 0 where
    pub ready : IsReady c p
    pub sized : p.init_size ≡ (if ltb size 1 then 1 else if ltb 1024 size then 1024 else size)
    pub normal : p.status ≡ flag_normal
    pub hooked : All (CarriesHooks p.manager.config.worker_behaviors) p.manager.workers

  pub new_makes : (size : ℕ) → (p : ThreadPool c) × (new c size ≡ some p) × IsNew size p
  unfolding new create_pool build
  new_makes size =
      let (p, runs, ready, sized, normal, workers, receives, config) =
        create_pool_makes c size Config.new false in
      let hooked : All (CarriesHooks p.manager.config.worker_behaviors) p.manager.workers =
        subst (λ (ws : List Worker). All (CarriesHooks p.manager.config.worker_behaviors) ws)
          (sym workers)
          (subst
            (λ (config : Config).
              All (CarriesHooks config.worker_behaviors)
                (made Config.new (pri, norm) true (numbers p.init_size 16)))
            (sym config)
            (made-CarriesHooks Config.new (pri, norm) true (numbers p.init_size 16))) in
      (p, runs, record { ready = ready; sized = sized; normal = normal; hooked = hooked })

  -- A new pool can be closed and dropped: both end.
  pub new_ends : (size : ℕ) (p : ThreadPool c) → IsNew size p → close_and_drop c p ≡ true
  unfolding close_and_drop Life.close Life.drop Status.closing
  new_ends size p n =
      let (q, runs, gone, status, ready, answers) =
        shut_down_leaves c false p 0 false n.ready n.hooked in
      ground arith

  pub free_for :
      (new : ℕ) (p : PoolStore c)
      → (new == 0) ≡ false
      → p.mutating ≡ 0
      → concede_update c new p ≡ some (true, record p { mutating = new })
  unfolding concede_update Backoff.concede_update
  free_for new p some_new free =
      let takes : Backoff.spin_update (alone p.mutating ∷ []) new ≡ some (new, []) =
        spin_update_takes [] (alone p.mutating) [] new tt (ground arith) in
      ground (arith, takes)

module _ (c : Channel) (o : Once) where
  -- Adding a pool and removing it are inverse. Let the store be there, its lock be free, and have
  -- no pool for the key; the key is not empty, and the size is not 0. Then `add_pool` ends with the
  -- lock free, the key leads to a new pool of the size, and the other keys to what they did; and
  -- `remove_pool` of the same key ends, and gives the statics back as they were.
  pub add_then_remove :
      (key : String) (size : ℕ) (s : Statics c o) (p : PoolStore c)
      → inner c o s ≡ ok p
      → is_empty_text key ≡ false
      → 0 < size
      → p.mutating ≡ 0
      → lookup key p.store ≡ none
      → (pool : ThreadPool c) × IsNew c size pool
        × (t : Statics c o) × (q : PoolStore c) × (add_pool c o key size s ≡ some t)
        × (inner c o t ≡ ok q)
        × (q.mutating ≡ 0)
        × ((k : String)
            → lookup k q.store ≡ (if same_text key k then some pool else lookup k p.store))
        × (remove_pool c o key t ≡ some s)
  unfolding add_pool remove_pool put_in put_new take_out concede_update reset_lock inner as_ref
  add_then_remove key size s p found named some_size free absent =
      let (pool, runs, made) = new_makes c size in
      let q = record p { store = insert key pool p.store; mutating = 0 } in
      let t = with_pools c o s q in
      let taken = remove-insert key pool p.store absent in
      let same = same_text_refl key in
      let unlocked : record p { mutating = 0 } ≡ p =
        ap (λ (lock : ℕ). record p { mutating = lock }) (sym free) in
      let back : with_pools c o s p ≡ s = ground (arith, found) in
      let there = inner-with_pools c o s p q found in
      (
        pool,
        made,
        t,
        q,
        ground (arith, free_for c 1 p refl free, runs, found),
        there,
        refl,
        λ k. lookup-insert key k pool p.store,
        ground (
          arith,
          free_for c minus_one q refl refl,
          there,
          taken,
          lookup-insert key key pool p.store,
          same,
          new_ends c size pool made,
          unlocked,
          back,
        ),
      )
