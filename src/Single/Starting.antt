-- ===== src/Single/Starting.antt =====
-- src/single.rs: starting the pool.
use thread_pool.Prelude.{ℕ, ◌≡◌, ◌<◌, refl, Bool, false, none, some, ok, if◌then◌else◌, ◌==◌, arith}
use thread_pool.Channel.{Channel}
use thread_pool.Config
use thread_pool.Config.{Config}
use thread_pool.Once.{Once, OnceState, IsOnce}
use thread_pool.Pool.{ThreadPool, toggle_auto_scale, new_with_config}
use thread_pool.Pool.Creation.{IsReady, IsMade, new_with_config_makes}
use thread_pool.Single.{
  Pool, Statics, auto_of, inner, create, set_pool, init_with_config, resize, drop, close, shut_down,
}

-- The statics before any call.
pub record IsFresh (c : Channel) (o : Once) (s : Statics c o) : Type 0 where
  pub not_started : o.state s.once ≡ OnceState.new
  pub not_closing : s.closing ≡ false
  pub no_pool : s.pool.inner ≡ none

module _ (c : Channel) (o : Once) (lawful : IsOnce o) where
  abbrev pub pool_with : Config → ThreadPool c → Pool c
  pool_with config store = record {
    store = toggle_auto_scale c (auto_of c o config.refresh_period).0 store;
    auto_mode = (auto_of c o config.refresh_period).0;
    auto_adjust_handler = (auto_of c o config.refresh_period).1;
  }

  -- What `create` leaves where there was no pool.
  pub create_first :
      (spurious : Bool) (size : ℕ) (config : Config) (s : Statics c o)
      → 0 < size
      → s.pool.inner ≡ none
      → (store : ThreadPool c) × (new_with_config c size config ≡ some store)
        × IsReady c store
        × IsMade c size config store
        × (create c o spurious size config s
            ≡ some (record s { pool = record { inner = some (pool_with config store) } }))
  unfolding create set_pool
  create_first spurious size config s some_size gone =
      let r = new_with_config_makes c size config in (r.0, r.1, r.2, r.3, ground (arith, r.1))

  -- From fresh statics, initialization ends, for any size: `ONCE` is done, and the static pool is a
  -- ready one as it is made for that size, or for 1 if the size is 0: of that size, but at most
  -- 1024, and with that many workers. A second initialization panics, whatever it asks for.
  pub init_runs :
      (spurious again : Bool) (size other_size : ℕ) (config other_config : Config) (s : Statics c o)
      → IsFresh c o s
      → (t : Statics c o) × (init_with_config c o spurious size config s ≡ some t)
        × (o.state t.once ≡ OnceState.done)
        × (store : ThreadPool c) × (new_with_config c (if size == 0 then 1 else size) config
            ≡ some store)
        × IsReady c store
        × IsMade c (if size == 0 then 1 else size) config store
        × (inner c o t ≡ ok (pool_with config store))
        × (init_with_config c o again other_size other_config t ≡ none)
  unfolding init_with_config inner
  init_runs spurious again size other_size config other_config s fresh =
      let actual = if size == 0 then 1 else size in
      let entered = record s { once = o.enter s.once } in
      let (store, built, ready, made_so, runs) =
        create_first spurious actual config entered (ground arith) fresh.no_pool in
      let done = lawful.ends (o.enter s.once) (lawful.runs s.once fresh.not_started) in
      (
        record s {
          once = o.leave (o.enter s.once);
          pool = record { inner = some (pool_with config store) };
        },
        ground (arith, runs, fresh.not_started),
        done,
        store,
        built,
        ready,
        made_so,
        ground (arith, fresh.not_closing),
        ground (arith, done),
      )

  -- To replace a pool while `ONCE` is in progress is a panic: the drop of the old one.
  create_again :
      (spurious : Bool) (size : ℕ) (config : Config) (s : Statics c o) (old : Pool c)
      → 0 < size
      → s.pool.inner ≡ some old
      → s.closing ≡ false
      → o.state s.once ≡ OnceState.in_progress
      → create c o spurious size config s ≡ none
  unfolding create set_pool drop close shut_down
  create_again spurious size config s old some_size there open_still busy =
      ground (arith, (new_with_config_makes c size config).1)

  -- From fresh statics, `resize` to a size other than 0 makes a pool without starting `ONCE`; every
  -- initialization after that panics, since it drops that pool while `ONCE` is in progress.
  pub resize_breaks_init :
      (spurious again : Bool) (size other_size : ℕ) (other_config : Config) (s : Statics c o)
      → IsFresh c o s
      → 0 < size
      → (t : Statics c o) × (resize c o spurious size s ≡ some t)
        × (o.state t.once ≡ OnceState.new)
        × (init_with_config c o again other_size other_config t ≡ none)
  unfolding resize inner init_with_config
  resize_breaks_init spurious again size other_size other_config s fresh some_size =
      let (store, built, ready, made_so, runs) =
        create_first spurious size Config.new s some_size fresh.no_pool in
      let t = record s { pool = record { inner = some (pool_with Config.new store) } } in
      (
        t,
        ground (arith, runs, fresh.no_pool, fresh.not_closing),
        fresh.not_started,
        ground (
          arith,
          fresh.not_started,
          create_again again (if other_size == 0 then 1 else other_size) other_config
              (record t { once = o.enter t.once }) (pool_with Config.new store) (ground arith) refl
              fresh.not_closing (lawful.runs t.once fresh.not_started),
        ),
      )
