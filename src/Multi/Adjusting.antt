-- ===== src/Multi/Adjusting.antt =====
-- src/multi.rs: the automatic adjustment of the pools in a register of keys.
pub mod Periods
use thread_pool.Prelude.{
  ℕ, String, Bool, true, false, not, ◌&&◌, List, [], ◌∷◌, Option, none, some, Result, ok, err,
  if◌then◌else◌, ltb,
}
use thread_pool.Prelude.Maps.{lookup, insert, contains, include, exclude}
use thread_pool.Channel.{Channel}
use thread_pool.Once.{Once}
use thread_pool.Pool.{ThreadPool, toggle_auto_scale}
use thread_pool.Pool.Resizing
use thread_pool.Single.{Adjuster}
use thread_pool.Multi.{PoolStore, Statics, is_empty, inner, with_pools, with_store}

abbrev pub five_second : ℕ
five_second = 5000000000

abbrev pub ten_seconds : ℕ
ten_seconds = 10000000000

abbrev pub at_least_five : ℕ → ℕ
at_least_five period = if ltb period five_second then five_second else period

abbrev pub is_running : Option Adjuster → Bool
is_running none = false
is_running (some handler) = true

module _ (c : Channel) (o : Once) where
  -- The store after a stop, whose join ends only if the thread has ended, by a panic.
  unfoldable pub stopped : PoolStore c → Option (PoolStore c)
  stopped p =
      let clear = record p {
        auto_adjust_period = none;
        auto_adjust_handler = none;
        auto_adjust_register = [];
      } in
      elim p.auto_adjust_handler [
        | none ↦ some clear
        | some handler ↦ if handler.panicked then some clear else none
      ]

  abbrev with_changed : Statics c o → Option (PoolStore c) → Option (Statics c o)
  with_changed s none = none
  with_changed s (some p) = some (with_pools c o s p)

  unfoldable pub stop_auto_adjustment : Statics c o → Option (Statics c o)
  unfolding inner stopped
  stop_auto_adjustment s = elim (inner c o s) [ err e ↦ some s | ok p ↦ with_changed s (stopped p) ]

  -- The store after a start on a register that is not empty; its stop empties the register.
  unfoldable pub started : ℕ → PoolStore c → Option (PoolStore c)
  unfolding stopped
  started period p = elim (if is_running p.auto_adjust_handler then stopped p else some p) [
    | none ↦ none
    | some q ↦ some (record q {
      auto_adjust_period = some (at_least_five period);
      auto_adjust_handler = some (record { period = at_least_five period; panicked = false });
    })
  ]

  unfoldable pub start_auto_adjustment : ℕ → Statics c o → Option (Statics c o)
  unfolding inner started
  start_auto_adjustment period s = elim (inner c o s) [
    | err e ↦ some s
    | ok p ↦ if is_empty p.auto_adjust_register then some s else with_changed s (started period p)
  ]

  unfoldable pub reset_auto_adjustment_period : Option ℕ → Statics c o → Option (Statics c o)
  unfolding stop_auto_adjustment start_auto_adjustment
  reset_auto_adjustment_period period s = elim (stop_auto_adjustment s) [
    | none ↦ none
    | some t ↦ elim period [
      | none ↦ some t
      | some actual_period ↦ start_auto_adjustment actual_period t
    ]
  ]

  abbrev pub or_ten_seconds : Option ℕ → ℕ
  or_ten_seconds none = ten_seconds
  or_ten_seconds (some period) = period

  -- The rest of `toggle_pool_auto_mode` for a pool that is there.
  unfoldable pub toggle_found :
      String → Bool → ThreadPool c → PoolStore c → Statics c o → Option (Statics c o)
  unfolding start_auto_adjustment stop_auto_adjustment
  toggle_found key auto_adjust pool p s =
      let q = record p { store = insert key (toggle_auto_scale c auto_adjust pool) p.store } in
      if auto_adjust
      then (let t =
            with_pools c o s
              (record q { auto_adjust_register = include key q.auto_adjust_register }) in
          if is_empty q.auto_adjust_register
          then start_auto_adjustment (or_ten_seconds q.auto_adjust_period) t
          else some t)
      else (let register = exclude key q.auto_adjust_register in
          let t = with_pools c o s (record q { auto_adjust_register = register }) in
          if is_empty register then stop_auto_adjustment t else some t)

  unfoldable pub toggle_pool_auto_mode : String → Bool → Statics c o → Option (Statics c o)
  unfolding inner lookup toggle_found
  toggle_pool_auto_mode key auto_adjust s = elim (inner c o s) [
    | err e ↦ some s
    | ok p ↦ elim (lookup key p.store) [
      | none ↦ some s
      | some pool ↦
          if is_empty p.auto_adjust_register && not auto_adjust
          then some s
          else toggle_found key auto_adjust pool p s
    ]
  ]

  unfoldable pub is_pool_in_auto_mode : String → Statics c o → Bool
  unfolding inner
  is_pool_in_auto_mode key s = elim (inner c o s) [
    | err e ↦ false
    | ok p ↦ contains key p.auto_adjust_register
  ]

  abbrev set_in :
      String
      → List (String × ThreadPool c)
      → Option (ThreadPool c)
      → Option (List (String × ThreadPool c))
  set_in key store none = none
  set_in key store (some pool) = some (insert key pool store)

  -- A key with no pool is passed over.
  unfoldable pub adjust_at :
      String → List (String × ThreadPool c) → Option (List (String × ThreadPool c))
  unfolding lookup
  adjust_at key store = elim (lookup key store) [
    | none ↦ some store
    | some pool ↦ set_in key store (Resizing.auto_adjust c pool)
  ]

  -- The loop over the register.
  unfoldable pub adjust_all :
      List String → List (String × ThreadPool c) → Option (List (String × ThreadPool c))
  unfolding adjust_at
  adjust_all [] store = some store
  adjust_all (key ∷ keys) store = elim (adjust_at key store) [
    | none ↦ none
    | some next ↦ adjust_all keys next
  ]

  unfoldable pub trigger_auto_adjustment : Statics c o → Option (Statics c o)
  unfolding inner adjust_all
  trigger_auto_adjustment s = elim (inner c o s) [
    | err e ↦ some s
    | ok p ↦
        if is_empty p.auto_adjust_register
        then some s
        else with_store c o s p (adjust_all p.auto_adjust_register p.store)
  ]
