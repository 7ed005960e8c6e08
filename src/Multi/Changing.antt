-- ===== src/Multi/Changing.antt =====
-- src/multi.rs: the bodies of the threads that resize, remove and add a pool.
use thread_pool.Prelude.{
  ℕ, String, Bool, true, false, ◌||◌, List, Option, none, some, ok, err, if◌then◌else◌, ◌==◌,
}
use thread_pool.Prelude.Maps.{lookup, insert, remove, is_empty_text}
use thread_pool.Model.Backoff.{minus_one}
use thread_pool.Channel.{Channel}
use thread_pool.Once.{Once}
use thread_pool.Pool.{ThreadPool, new}
use thread_pool.Pool.Life
use thread_pool.Pool.Resizing
use thread_pool.Multi.{
  PoolStore, Statics, concede_update, reset_lock, inner, with_pools, with_store,
}

module _ (c : Channel) where
  abbrev inserted :
      String
      → List (String × ThreadPool c)
      → Option (ThreadPool c)
      → Option (List (String × ThreadPool c))
  inserted key store none = none
  inserted key store (some pool) = some (insert key pool store)

  -- A pool that is closed and goes out of scope; whether that ends.
  unfoldable pub close_and_drop : ThreadPool c → Bool
  close_and_drop pool = elim (Life.close c pool) [
    | none ↦ false
    | some closed ↦ elim (Life.drop c closed) [ none ↦ false | some gone ↦ true ]
  ]

  -- What the thread of `remove_pool` does to the store.
  unfoldable pub take_out : String → PoolStore c → Option (PoolStore c)
  unfolding lookup close_and_drop
  take_out key p = elim (concede_update c minus_one p) [
    | none ↦ none
    | some (mine, locked) ↦ elim (lookup key locked.store) [
      | none ↦ some (reset_lock c locked)
      | some pool ↦
          if close_and_drop pool
          then some (reset_lock c (record locked { store = remove key locked.store }))
          else none
    ]
  ]

  -- The old pool of a key is dropped when a new one takes its place.
  abbrev pub replaced_ends : Option (ThreadPool c) → Bool
  replaced_ends none = true
  replaced_ends (some pool) = elim (Life.drop c pool) [ none ↦ false | some gone ↦ true ]

  unfoldable pub put_new : String → ℕ → PoolStore c → Option (PoolStore c)
  unfolding lookup
  put_new key size p = elim (new c size) [
    | none ↦ none
    | some pool ↦
        if replaced_ends (lookup key p.store)
        then some (reset_lock c (record p { store = insert key pool p.store }))
        else none
  ]

  -- What the thread of `add_pool` does to the store: its return in the middle leaves the lock as it
  -- is.
  unfoldable pub put_in : String → ℕ → PoolStore c → Option (PoolStore c)
  unfolding lookup put_new
  put_in key size p = elim (concede_update c 1 p) [
    | none ↦ none
    | some (mine, locked) ↦ elim (lookup key locked.store) [
      | none ↦ put_new key size locked
      | some pool ↦
          if Resizing.get_size c pool == size
          then put_new key size locked
          else elim (Resizing.resize c size pool) [
            | none ↦ none
            | some resized ↦ some (record locked { store = insert key resized locked.store })
          ]
    ]
  ]

module _ (c : Channel) (o : Once) where
  abbrev with_changed : Statics c o → Option (PoolStore c) → Option (Statics c o)
  with_changed s none = none
  with_changed s (some p) = some (with_pools c o s p)

  unfoldable pub resize_pool : String → ℕ → Statics c o → Option (Statics c o)
  unfolding lookup
  resize_pool key size s = if is_empty_text key then some s else elim (inner c o s) [
    | err e ↦ some s
    | ok p ↦ elim (lookup key p.store) [
      | none ↦ some s
      | some pool ↦ with_store c o s p (inserted c key p.store (Resizing.resize c size pool))
    ]
  ]

  unfoldable pub remove_pool : String → Statics c o → Option (Statics c o)
  unfolding take_out
  remove_pool key s =
      if is_empty_text key
      then some s
      else elim (inner c o s) [ err e ↦ some s | ok p ↦ with_changed s (take_out c key p) ]

  unfoldable pub add_pool : String → ℕ → Statics c o → Option (Statics c o)
  unfolding put_in
  add_pool key size s =
      if is_empty_text key || size == 0
      then some s
      else elim (inner c o s) [ err e ↦ some s | ok p ↦ with_changed s (put_in c key size p) ]
