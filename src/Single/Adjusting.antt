-- ===== src/Single/Adjusting.antt =====
-- src/single.rs: the automatic adjustment.
use thread_pool.Prelude.{
  ℕ, ◌≡◌, refl, Bool, true, false, Option, none, some, ok, if◌then◌else◌, ltb, arith,
}
use thread_pool.Channel.{Channel}
use thread_pool.Config
use thread_pool.Config.{Config}
use thread_pool.Once.{Once, IsOnce}
use thread_pool.Single.{
  Pool, Statics, Adjuster, inner, stop_auto_adjustment, initialize_with_auto_adjustment,
  update_auto_adjustment_mode, reset_auto_adjustment_period, start_auto_adjustment,
}
use thread_pool.Single.Starting.{IsFresh, init_runs}

module _ (c : Channel) (o : Once) where
  -- While the adjusting thread runs, it cannot be stopped: both calls that would stop it wait for
  -- its end, which does not come.
  stop_waits :
      (period : Option ℕ) (s : Statics c o) (p : Pool c) (handler : Adjuster)
      → inner c o s ≡ ok p
      → p.auto_mode ≡ true
      → p.auto_adjust_handler ≡ some handler
      → handler.panicked ≡ false
      → (update_auto_adjustment_mode c o false s ≡ none)
        × (reset_auto_adjustment_period c o period s ≡ none)
  unfolding update_auto_adjustment_mode reset_auto_adjustment_period stop_auto_adjustment
  stop_waits period s p handler found auto there alive = (ground arith, ground arith)

  -- From fresh statics, initialization with a period of adjustment ends, and leaves a pool that
  -- adjusts itself every period, of at least one second. From then on neither the mode can be
  -- switched off nor the period be changed: both calls wait for the adjusting thread to end, which
  -- does not come unless that thread panics.
  pub adjustment_never_stops :
      (lawful : IsOnce o) (spurious : Bool) (size period : ℕ) (later : Option ℕ) (s : Statics c o)
      → IsFresh c o s
      → (t : Statics c o) × (p : Pool c) × (initialize_with_auto_adjustment c o spurious size
            (some period)
            s
          ≡ some t)
        × (inner c o t ≡ ok p)
        × (p.auto_adjust_handler
            ≡ some (record {
              period = if ltb period 1000000000 then 1000000000 else period;
              panicked = false;
            }))
        × (update_auto_adjustment_mode c o false t ≡ none)
        × (reset_auto_adjustment_period c o later t ≡ none)
  unfolding initialize_with_auto_adjustment Config.set_refresh_period start_auto_adjustment
  adjustment_never_stops lawful spurious size period later s fresh =
      let config = Config.set_refresh_period Config.new (some period) in
      let r = init_runs c o lawful spurious false size 1 config config s fresh in
      let stuck = stop_waits later r.0 _ (start_auto_adjustment period) r.7 refl refl refl in
      (r.0, _, r.1, r.7, refl, stuck.0, stuck.1)
