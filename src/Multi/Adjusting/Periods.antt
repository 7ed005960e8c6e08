-- ===== src/Multi/Adjusting/Periods.antt =====
-- src/multi.rs: what resetting the period of the adjustment does.
use thread_pool.Prelude.{
  ℕ, String, ◌≡◌, true, false, [], ◌∷◌, Option, none, some, ok, arith, subst, Bool-cases,
  Option-cases, inl, inr,
}
use thread_pool.Prelude.Maps.{lookup, insert, include, exclude, lookup-insert, same_text_refl}
use thread_pool.Channel.{Channel}
use thread_pool.Once.{Once}
use thread_pool.Model.{as_ref}
use thread_pool.Pool.{ThreadPool, toggle_auto_scale}
use thread_pool.Single.{Adjuster}
use thread_pool.Multi.{PoolStore, Statics, inner, with_pools}
use thread_pool.Multi.Adjusting.{
  stopped, started, or_ten_seconds, stop_auto_adjustment, start_auto_adjustment,
  reset_auto_adjustment_period, toggle_pool_auto_mode, toggle_found, at_least_five,
  is_pool_in_auto_mode,
}

-- No adjusting thread, or one that has ended.
abbrev pub HasEnded : Option Adjuster → Type 0
HasEnded none = Unit
HasEnded (some handler) = handler.panicked ≡ true

module _ (c : Channel) (o : Once) where
  abbrev pub without_adjustment : PoolStore c → PoolStore c
  without_adjustment p = record p {
    auto_adjust_period = none;
    auto_adjust_handler = none;
    auto_adjust_register = [];
  }

  stopped_lem :
      (p : PoolStore c)
      → HasEnded p.auto_adjust_handler
      → stopped c o p ≡ some (without_adjustment p)
  unfolding stopped
  stopped_lem p ended = elim (Option-cases p.auto_adjust_handler) [
    | inl none_there ↦ ground arith
    | inr (handler, there) ↦
        let panicked : handler.panicked ≡ true = subst HasEnded there ended in ground arith
  ]

  -- If no adjusting thread runs, then to reset the period, whether to some value or to none,
  -- switches the adjustment off for all pools: the stop empties the register, and the start does
  -- nothing on an empty register.
  pub reset_switches_off :
      (period : Option ℕ) (s : Statics c o) (p : PoolStore c)
      → inner c o s ≡ ok p
      → HasEnded p.auto_adjust_handler
      → reset_auto_adjustment_period c o period s ≡ some (with_pools c o s (without_adjustment p))
  unfolding reset_auto_adjustment_period stop_auto_adjustment start_auto_adjustment inner as_ref
  reset_switches_off none s p found ended = ground (arith, stopped_lem p ended)
  reset_switches_off (some period) s p found ended = elim (Bool-cases s.closing) [
    | inl closed ↦ absurd (ground arith)
    | inr going ↦ ground (arith, stopped_lem p ended)
  ]

  pub inner-with_pools :
      (s : Statics c o) (p q : PoolStore c)
      → inner c o s ≡ ok p
      → inner c o (with_pools c o s q) ≡ ok q
  unfolding inner as_ref
  inner-with_pools s p q found = elim (Bool-cases s.closing) [
    | inl closed ↦ absurd (ground arith)
    | inr going ↦ ground arith
  ]

  -- The store once its first pool is in automatic mode.
  abbrev pub adjusting : String → ThreadPool c → PoolStore c → PoolStore c
  adjusting key pool p =
      let period = at_least_five (or_ten_seconds c o p.auto_adjust_period) in
      record p {
        store = insert key (toggle_auto_scale c true pool) p.store;
        auto_adjust_register = key ∷ [];
        auto_adjust_period = some period;
        auto_adjust_handler = some (record { period = period; panicked = false });
      }

  -- Let the store be there, with a pool for the key, no pool in automatic mode and no adjusting
  -- thread. To put that pool into automatic mode starts the adjusting thread, with the period of
  -- the store or else ten seconds, of at least five; the pool is then in automatic mode. After
  -- that neither can the period be reset nor that pool be taken out again: both calls wait for the
  -- end of the thread, which does not come unless it panics.
  pub first_toggle_starts :
      (key : String) (later : Option ℕ) (s : Statics c o) (p : PoolStore c) (pool : ThreadPool c)
      → inner c o s ≡ ok p
      → lookup key p.store ≡ some pool
      → p.auto_adjust_register ≡ []
      → p.auto_adjust_handler ≡ none
      → let t = with_pools c o s (adjusting key pool p) in
        (toggle_pool_auto_mode c o key true s ≡ some t)
        × (is_pool_in_auto_mode c o key t ≡ true)
        × (reset_auto_adjustment_period c o later t ≡ none)
        × (toggle_pool_auto_mode c o key false t ≡ none)
  unfolding toggle_pool_auto_mode toggle_found is_pool_in_auto_mode start_auto_adjustment
      stop_auto_adjustment reset_auto_adjustment_period started stopped include exclude
  first_toggle_starts key later s p pool found there empty none_yet =
      let same = same_text_refl key in
      let q = adjusting key pool p in
      let r = record p {
        store = insert key (toggle_auto_scale c true pool) p.store;
        auto_adjust_register = key ∷ [];
      } in
      let after = inner-with_pools s p q found in
      let kept : lookup key q.store ≡ some (toggle_auto_scale c true pool) =
        ground (arith, lookup-insert key key (toggle_auto_scale c true pool) p.store, same) in
      let off = record q {
        store = insert key (toggle_auto_scale c false (toggle_auto_scale c true pool)) q.store;
        auto_adjust_register = [];
      } in
      (
        ground (arith, inner-with_pools s p r found),
        ground (arith, after, same),
        ground (arith, after),
        ground (arith, after, kept, same, inner-with_pools s p off found),
      )
