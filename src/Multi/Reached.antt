-- ===== src/Multi/Reached.antt =====
-- src/multi.rs: what holds of the store after any calls of the module.
use thread_pool.Prelude.{
  ℕ, ◌≡◌, subst, false, String, List, [], ◌∷◌, some, Option-cases, Result-cases, ok, arith,
  Bool-cases, inl, inr,
}
use thread_pool.Prelude.Maps.{lookup, insert}
use thread_pool.Model.{Job}
use thread_pool.Channel.{Channel}
use thread_pool.Once.{Once}
use thread_pool.Pool.{ThreadPool}
use thread_pool.Pool.Exec
use thread_pool.Pool.Resizing
use thread_pool.Multi.{PoolStore, Statics, is_empty, inner, with_pools, run_with}
use thread_pool.Multi.Changing.{resize_pool}
use thread_pool.Multi.Adjusting.{adjust_all, trigger_auto_adjustment}
use thread_pool.Prelude.Maps.{is_empty_text}
use thread_pool.Multi.Keys.{AreKeys, put_back-AreKeys, adjust_all-AreKeys}
use thread_pool.Multi.Sound.{IsSound, with_store-IsSound}
use thread_pool.Multi.Calls.{
  Call, inits, runs, resizes, removes, adds, closes, starts, stops, resets, toggles, triggers,
  perform, perform_all,
}
use thread_pool.Multi.Holding.{
  Holds, inner-some, unchanged-Holds, stored-Holds, remove_pool-Holds, add_pool-Holds, stop-Holds,
  start-Holds, reset-Holds,
}
use thread_pool.Multi.Renewal.{init-Holds, shut_down-Holds}
use thread_pool.Multi.Toggling.{toggle-Holds}

module _ (c : Channel) (o : Once) where
  -- The store with other pools under the same keys.
  pools-Holds :
      (s t : Statics c o) (p : PoolStore c) (store : List (String × ThreadPool c))
      → Holds c o s
      → inner c o s ≡ ok p
      → AreKeys store
      → some (with_pools c o s (record p { store = store })) ≡ some t
      → Holds c o t
  pools-Holds s t p store h found keys e =
      stored-Holds c o s t (record p { store = store })
        (with_store-IsSound c p store (h p (inner-some c o s p found)) keys) e

  -- A pool that is put back.
  put_back-Holds :
      (key : String) (old pool : ThreadPool c) (s t : Statics c o) (p : PoolStore c)
      → Holds c o s
      → inner c o s ≡ ok p
      → lookup key p.store ≡ some old
      → some (with_pools c o s (record p { store = insert key pool p.store })) ≡ some t
      → Holds c o t
  put_back-Holds key old pool s t p h found there e =
      pools-Holds s t p (insert key pool p.store) h found
        (put_back-AreKeys c key old pool p.store there (h p (inner-some c o s p found)).keys) e

  resize_pool-Holds :
      (key : String) (size : ℕ) (s t : Statics c o)
      → Holds c o s
      → resize_pool c o key size s ≡ some t
      → Holds c o t
  unfolding resize_pool
  resize_pool-Holds key size s t h e = elim (Bool-cases (is_empty_text key)) [
    | inl unnamed ↦ unchanged-Holds c o s t h (ground (arith, e, unnamed))
    | inr named ↦ elim (Result-cases (inner c o s)) [
      | inr (kind, refused) ↦ unchanged-Holds c o s t h (ground (arith, e, named, refused))
      | inl (p, found) ↦ elim (Option-cases (lookup key p.store)) [
        | inl gone ↦ unchanged-Holds c o s t h (ground (arith, e, named, found, gone))
        | inr (old, there) ↦ elim (Option-cases (Resizing.resize c size old)) [
          | inl fails ↦ absurd (ground (arith, e, named, found, there, fails))
          | inr (pool, made) ↦
              put_back-Holds key old pool s t p h found there
                (ground (arith, e, named, found, there, made))
        ]
      ]
    ]
  ]

  run_with-Holds :
      (key : String) (f : Job) (s t : Statics c o)
      → Holds c o s
      → run_with c o key f s ≡ some t
      → Holds c o t
  unfolding run_with
  run_with-Holds key f s t h e = elim (Result-cases (inner c o s)) [
    | inr (kind, refused) ↦
        let same : record s { threads = f ∷ s.threads } ≡ t = ground (arith, e, refused) in
        subst (Holds c o) same h
    | inl (p, found) ↦ elim (Option-cases (lookup key p.store)) [
      | inl gone ↦ unchanged-Holds c o s t h (ground (arith, e, found, gone))
      | inr (old, there) ↦ elim (Option-cases (Exec.exec c f false old)) [
        | inl fails ↦ absurd (ground (arith, e, found, there, fails))
        | inr ((r, pool), made) ↦
            put_back-Holds key old pool s t p h found there (ground (arith, e, found, there, made))
      ]
    ]
  ]

  trigger-Holds :
      (s t : Statics c o) → Holds c o s → trigger_auto_adjustment c o s ≡ some t → Holds c o t
  unfolding trigger_auto_adjustment
  trigger-Holds s t h e = elim (Result-cases (inner c o s)) [
    | inr (kind, refused) ↦ unchanged-Holds c o s t h (ground (arith, e, refused))
    | inl (p, found) ↦ elim (Bool-cases (is_empty p.auto_adjust_register)) [
      | inl nobody ↦ unchanged-Holds c o s t h (ground (arith, e, found, nobody))
      | inr somebody ↦ elim (Option-cases (adjust_all c o p.auto_adjust_register p.store)) [
        | inl fails ↦ absurd (ground (arith, e, found, somebody, fails))
        | inr (store, made) ↦
            pools-Holds s t p store h found
              (adjust_all-AreKeys c o p.auto_adjust_register p.store store
                (h p (inner-some c o s p found)).keys made)
              (ground (arith, e, found, somebody, made))
      ]
    ]
  ]

  perform-Holds :
      (call : Call) (s t : Statics c o) → Holds c o s → perform c o call s ≡ some t → Holds c o t
  unfolding perform
  perform-Holds (inits spurious keys config) s t h e = init-Holds c o spurious keys config s t h e
  perform-Holds (runs key f) s t h e = run_with-Holds key f s t h e
  perform-Holds (resizes key size) s t h e = resize_pool-Holds key size s t h e
  perform-Holds (removes key) s t h e = remove_pool-Holds c o key s t h e
  perform-Holds (adds key size) s t h e = add_pool-Holds c o key size s t h e
  perform-Holds (closes forced spurious) s t h e = shut_down-Holds c o forced spurious s t h e
  perform-Holds (starts period) s t h e = start-Holds c o period s t h e
  perform-Holds stops s t h e = stop-Holds c o s t h e
  perform-Holds (resets period) s t h e = reset-Holds c o period s t h e
  perform-Holds (toggles key auto_adjust) s t h e = toggle-Holds c o key auto_adjust s t h e
  perform-Holds triggers s t h e = trigger-Holds s t h e

  -- If the store is sound, or not there yet, then it is sound, if it is there, after any calls of
  -- the module that all return, in any order: no key is empty and none stands twice; the lock is
  -- free or left at a grower's 1; and while a pool is in automatic mode, there is an adjusting
  -- thread.
  pub perform_all-IsSound :
      (calls : List Call) (s t : Statics c o) (p : PoolStore c)
      → Holds c o s
      → perform_all c o calls s ≡ some t
      → t.pools.inner ≡ some p
      → IsSound c p
  unfolding perform_all
  perform_all-IsSound [] s t p h e there = unchanged-Holds c o s t h e p there
  perform_all-IsSound (call ∷ calls) s t p h e there = elim (Option-cases (perform c o call s)) [
    | inl fails ↦ absurd (ground (arith, e, fails))
    | inr (u, first) ↦
        perform_all-IsSound calls u t p (perform-Holds call s u h first) (ground (arith, e, first))
          there
  ]
