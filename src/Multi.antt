-- ===== src/Multi.antt =====
-- src/multi.rs: the static pools by key. As in `Single`, the statics are one record, `none` is a
-- panic or a call that does not end, and a thread that a call spawns does its work at once, so a
-- spin for the lock finds in the cell what the last call left there.
pub mod Changing
pub mod Store
pub mod Keys
pub mod Calls
pub mod Sound
pub mod Holding
pub mod Renewal
pub mod Toggling
pub mod Reached
pub mod Closed
pub mod Running
pub mod Starting
pub mod Adjusting
pub mod Locking
pub mod Threads
use thread_pool.Prelude.{
  ℕ, String, ◌≡◌, Bool, true, false, not, ◌&&◌, ◌||◌, List, [], ◌∷◌, ◌++◌, Option, none, some,
  Result, ok, err, if◌then◌else◌, ◌==◌, ltb,
}
use thread_pool.Prelude.Maps.{lookup, insert, same_text, is_empty_text}
use thread_pool.Model.{Job, ErrorKind, permission_denied, StaticStore, as_ref, store_set}
use thread_pool.Model.Backoff
use thread_pool.Model.Backoff.{alone}
use thread_pool.Channel.{Channel}
use thread_pool.Config
use thread_pool.Config.{Config}
use thread_pool.Once.{Once, OnceState}
use thread_pool.Pool.{ThreadPool, new_with_config}
use thread_pool.Pool.Life
use thread_pool.Pool.Exec
use thread_pool.Single.{Adjuster}

pub record PoolStore (c : Channel) : Type 0 where
  pub store : List (String × ThreadPool c)
  pub mutating : ℕ
  pub auto_adjust_period : Option ℕ
  pub auto_adjust_handler : Option Adjuster
  pub auto_adjust_register : List String

-- `ONCE`, `CLOSING` and `MULTI_POOL`, and the jobs that were given a thread of their own.
pub record Statics (c : Channel) (o : Once) : Type 0 where
  pub once : o.State
  pub closing : Bool
  pub pools : StaticStore (PoolStore c)
  pub threads : List Job

abbrev pub is_empty {ℓ} : {A : Type ℓ} → List A → Bool
is_empty [] = true
is_empty (x ∷ xs) = false

-- `map.entry(key).or_insert(v)`
abbrev pub or_insert {ℓ} : {V : Type ℓ} → String → V → List (String × V) → List (String × V)
or_insert key v m = elim (lookup key m) [ none ↦ m ++ (key, v) ∷ [] | some old ↦ m ]

-- The copy of the keys in `init_with_config`.
unfoldable pub copy_keys : List (String × ℕ) → List (String × ℕ) → List (String × ℕ)
unfolding lookup
copy_keys [] map = map
copy_keys ((key, size) ∷ keys) map = copy_keys keys (or_insert key size map)

module _ (c : Channel) where
  abbrev conceded : PoolStore c → Option (Bool × ℕ) → Option (Bool × PoolStore c)
  conceded p none = none
  conceded p (some (done, cell)) = some (done, record p { mutating = cell })

  -- `Backoff for PoolStore`
  unfoldable pub concede_update : ℕ → PoolStore c → Option (Bool × PoolStore c)
  unfolding Backoff.concede_update
  concede_update new p = conceded p (Backoff.concede_update p.mutating (alone p.mutating ∷ []) new)

  unfoldable pub reset_lock : PoolStore c → PoolStore c
  reset_lock p = record p { mutating = Backoff.reset_lock }

  abbrev added :
      String
      → List (String × ThreadPool c)
      → Option (ThreadPool c)
      → Option (List (String × ThreadPool c))
  added key store none = none
  added key store (some pool) = some (store ++ (key, pool) ∷ [])

  -- The loop of `create`: no pool for an empty key or a size of 0, and one pool for a key.
  unfoldable pub create_pools :
      Config
      → List (String × ℕ)
      → List (String × ThreadPool c)
      → Option (List (String × ThreadPool c))
  unfolding lookup
  create_pools config [] store = some store
  create_pools config ((key, size) ∷ keys) store =
      elim (if is_empty_text key || size == 0 then some store else elim (lookup key store) [
        | some pool ↦ some store
        | none ↦ added key store (new_with_config c size config)
      ]) [ none ↦ none | some next ↦ create_pools config keys next ]

  -- `values_mut().for_each(…)` of `shut_down`.
  unfoldable pub close_all :
      Bool → List (String × ThreadPool c) → Option (List (String × ThreadPool c))
  close_all forced [] = some []
  close_all forced ((key, pool) ∷ store) =
      elim (if not forced then Life.close c pool else Life.force_close c pool) [
        | none ↦ none
        | some closed ↦ elim (close_all forced store) [
          | none ↦ none
          | some rest ↦ some ((key, closed) ∷ rest)
        ]
      ]

  -- The drop of the map's pools; whether it ends.
  unfoldable pub drop_all : List (String × ThreadPool c) → Bool
  drop_all [] = true
  drop_all ((key, pool) ∷ store) =
      let rest = drop_all store in elim (Life.drop c pool) [ none ↦ false | some gone ↦ rest ]

module _ (c : Channel) (o : Once) where
  unfoldable pub inner : Statics c o → Result (PoolStore c) ErrorKind
  unfolding as_ref
  inner s = if not s.closing then as_ref s.pools else err permission_denied

  unfoldable pub take : Bool → Statics c o → Result (PoolStore c) ErrorKind × Statics c o
  unfolding as_ref
  take spurious s =
      if not s.closing && not spurious
      then (as_ref s.pools, record s { closing = true })
      else (err permission_denied, s)

  -- A write through the reference that `inner` or `take` gave.
  abbrev pub with_pools : Statics c o → PoolStore c → Statics c o
  with_pools s p = record s { pools = record { inner = some p } }

  abbrev pub with_store :
      Statics c o → PoolStore c → Option (List (String × ThreadPool c)) → Option (Statics c o)
  with_store s p none = none
  with_store s p (some store) = some (with_pools s (record p { store = store }))

  abbrev close_taken : Bool → Result (PoolStore c) ErrorKind × Statics c o → Option (Statics c o)
  close_taken forced (ok p, s) = with_store s p (close_all c forced p.store)
  close_taken forced (err e, s) = some s

  unfoldable pub shut_down : Bool → Bool → Statics c o → Option (Statics c o)
  unfolding take close_all
  shut_down forced spurious s = elim (o.state s.once) [
    | OnceState.in_progress ↦ none
    | OnceState.done ↦ close_taken forced (take spurious s)
    | OnceState.new ↦ some s
    | OnceState.poisoned ↦ some s
  ]

  unfoldable pub close : Bool → Statics c o → Option (Statics c o)
  unfolding shut_down
  close spurious s = shut_down false spurious s

  unfoldable pub force_close : Bool → Statics c o → Option (Statics c o)
  unfolding shut_down
  force_close spurious s = shut_down true spurious s

  -- `Drop for PoolStore`, and then the drops of its pools.
  unfoldable pub drop : Bool → PoolStore c → Statics c o → Option (Statics c o)
  unfolding drop_all
  drop spurious p s = elim (if not s.closing then shut_down false spurious s else some s) [
    | none ↦ none
    | some t ↦ if drop_all c p.store then some t else none
  ]

  -- `MULTI_POOL.set(…)`: the new store is in its place when the old one is dropped.
  unfoldable pub set_pools : Bool → PoolStore c → Statics c o → Option (Statics c o)
  unfolding store_set
  set_pools spurious p s =
      let t = record s { pools = store_set s.pools p } in
      elim s.pools.inner [ none ↦ some t | some old ↦ drop spurious old t ]

  unfoldable pub create : Bool → List (String × ℕ) → Config → Statics c o → Option (Statics c o)
  unfolding create_pools
  create spurious keys config s = elim (create_pools c config keys []) [
    | none ↦ none
    | some store ↦
        set_pools spurious
          (record {
            store = store;
            mutating = 0;
            auto_adjust_period = config.refresh_period;
            auto_adjust_handler = none;
            auto_adjust_register = [];
          })
          s
  ]

  abbrev leave_once : Option (Statics c o) → Option (Statics c o)
  leave_once none = none
  leave_once (some s) = some (record s { once = o.leave s.once })

  unfoldable pub init_with_config :
      Bool → List (String × ℕ) → Config → Statics c o → Option (Statics c o)
  unfolding copy_keys
  init_with_config spurious keys config s =
      if is_empty keys then some s else elim (o.state s.once) [
        | OnceState.new ↦
            leave_once
              (create spurious (copy_keys keys []) config (record s { once = o.enter s.once }))
        | OnceState.poisoned ↦ none
        | OnceState.in_progress ↦ none
        | OnceState.done ↦ none
      ]

  unfoldable pub initialize : Bool → List (String × ℕ) → Statics c o → Option (Statics c o)
  unfolding init_with_config Config.new
  initialize spurious keys s = init_with_config spurious keys Config.new s

  unfoldable pub initialize_with_auto_adjustment :
      Bool → List (String × ℕ) → Option ℕ → Statics c o → Option (Statics c o)
  unfolding init_with_config Config.new Config.set_refresh_period
  initialize_with_auto_adjustment spurious keys period s =
      init_with_config spurious keys (Config.set_refresh_period Config.new period) s

  -- With no pool for the key, the job is dropped.
  unfoldable pub run_with : String → Job → Statics c o → Option (Statics c o)
  unfolding inner lookup
  run_with key f s = elim (inner s) [
    | err e ↦ some (record s { threads = f ∷ s.threads })
    | ok p ↦ elim (lookup key p.store) [
      | none ↦ some s
      | some pool ↦ elim (Exec.exec c f false pool) [
        | none ↦ none
        | some (r, q) ↦ some (with_pools s (record p { store = insert key q p.store }))
      ]
    ]
  ]
