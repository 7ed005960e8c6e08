-- ===== src/Multi/Closed.antt =====
-- src/multi.rs: closing all the pools.
use thread_pool.Prelude.{
  ◌≡◌, refl, ap, Bool, true, false, String, List, [], ◌∷◌, map, All, some, ok, err, if◌then◌else◌,
  arith, Bool-cases, inl, inr,
}
use thread_pool.Model.{Job, flag_closing, flag_force_close, permission_denied, as_ref}
use thread_pool.Channel.{Channel}
use thread_pool.Once.{Once, OnceState}
use thread_pool.Manager.Shrink.{CarriesHooks}
use thread_pool.Pool.{ThreadPool}
use thread_pool.Pool.Life
use thread_pool.Pool.Creation.{IsReady}
use thread_pool.Pool.Closing.{shut_down_leaves}
use thread_pool.Multi.{PoolStore, Statics, close_all, inner, take, with_pools, shut_down, run_with}

module _ (c : Channel) where
  abbrev pub key_of : String × ThreadPool c → String
  key_of (key, pool) = key

  -- A pool that can be closed: it is ready, and its workers carry the configured hooks.
  abbrev pub CanClose : String × ThreadPool c → Type 0
  CanClose (key, pool) =
      IsReady c pool × All (CarriesHooks pool.manager.config.worker_behaviors) pool.manager.workers

  abbrev pub IsClosed : Bool → String × ThreadPool c → Type 0
  IsClosed forced (key, pool) =
      (pool.manager.workers ≡ [])
      × (pool.status ≡ (if forced then flag_force_close else flag_closing))

  close_all-IsClosed :
      (forced : Bool) (store : List (String × ThreadPool c))
      → All CanClose store
      → (after : List (String × ThreadPool c)) × (close_all c forced store ≡ some after)
        × (map key_of after ≡ map key_of store)
        × All (IsClosed forced) after
  unfolding close_all Life.close Life.force_close
  close_all-IsClosed forced [] all = ([], refl, refl, tt)
  close_all-IsClosed forced ((key, pool) ∷ store) all =
      let (q, runs, gone, status, ready, answers) =
        shut_down_leaves c forced pool 0 false all.0.0 all.0.1 in
      let (after, later, keys, closed) = close_all-IsClosed forced store all.1 in
      (
        (key, q) ∷ after,
        elim (Bool-cases forced) [
          | inl a ↦ ground (arith, runs, later)
          | inr a ↦ ground (arith, runs, later)
        ],
        ap (λ (ks : List String). key ∷ ks) keys,
        ((gone, status), closed),
      )

module _ (c : Channel) (o : Once) where
  -- If the store is there, started, and every pool of it is ready and has workers with the
  -- configured hooks, then a `close` or `force_close` whose exchange does not fail for no reason
  -- ends. Every pool then is without workers and has the status of that way of closing, under the
  -- key it had; the store is out of reach, and `run_with` starts a thread for its job, whatever the
  -- key.
  pub shut_down_closes_each :
      (forced : Bool) (key : String) (f : Job) (s : Statics c o) (p : PoolStore c)
      → o.state s.once ≡ OnceState.done
      → inner c o s ≡ ok p
      → All (CanClose c) p.store
      → (store : List (String × ThreadPool c)) × (t : Statics c o) × (shut_down c o forced false s
          ≡ some t)
        × (t.pools.inner ≡ some (record p { store = store }))
        × (map (key_of c) store ≡ map (key_of c) p.store)
        × All (IsClosed c forced) store
        × (inner c o t ≡ err permission_denied)
        × (run_with c o key f t ≡ some (record t { threads = f ∷ t.threads }))
  unfolding shut_down take inner as_ref run_with
  shut_down_closes_each forced key f s p started found all =
      let (store, runs, keys, closed) = close_all-IsClosed c forced p.store all in
      let t = record (with_pools c o s (record p { store = store })) { closing = true } in
      (
        store,
        t,
        elim (Bool-cases s.closing) [
          | inl shut ↦ absurd (ground arith)
          | inr going ↦ ground (arith, runs, found)
        ],
        refl,
        keys,
        closed,
        refl,
        refl,
      )
