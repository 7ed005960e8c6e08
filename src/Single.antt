-- ===== src/Single.antt =====
-- src/single.rs: the one static pool. The three statics are one record; an operation returns `none`
-- if it panics or does not end. A thread that a call spawns does its work at once here, as a call
-- of its own. `spurious` says whether the weak exchange of a call fails for no reason.
pub mod Starting
pub mod Closed
pub mod Adjusting
pub mod Holding
pub mod Creating
pub mod Reached
use thread_pool.Prelude.{
  ℕ, ◌≡◌, Bool, true, false, not, ◌&&◌, ◌||◌, List, [], ◌∷◌, Option, none, some, Result, ok, err,
  if◌then◌else◌, ◌==◌, ltb,
}
use thread_pool.Model.{Job, ErrorKind, permission_denied, StaticStore, as_ref, store_set}
use thread_pool.Channel.{Channel}
use thread_pool.Config
use thread_pool.Config.{Config}
use thread_pool.Once.{Once, OnceState}
use thread_pool.Pool.{ThreadPool, toggle_auto_scale, build as build_pool, new_with_config}
use thread_pool.Pool.Life
use thread_pool.Pool.Exec
use thread_pool.Pool.Resizing

abbrev pub one_second : ℕ
one_second = 1000000000

-- The thread of `start_auto_adjustment`. Its loop has no exit, so only a panic in it ends it.
pub record Adjuster : Type 0 where
  pub period : ℕ
  pub panicked : Bool

pub record Pool (c : Channel) : Type 0 where
  pub store : ThreadPool c
  pub auto_mode : Bool
  pub auto_adjust_handler : Option Adjuster

-- `ONCE`, `CLOSING` and `POOL`, and the jobs that were given a thread of their own.
pub record Statics (c : Channel) (o : Once) : Type 0 where
  pub once : o.State
  pub closing : Bool
  pub pool : StaticStore (Pool c)
  pub threads : List Job

unfoldable pub start_auto_adjustment : ℕ → Adjuster
start_auto_adjustment period = record {
  period = if ltb period one_second then one_second else period;
  panicked = false;
}

module _ (c : Channel) (o : Once) where
  unfoldable pub inner : Statics c o → Result (Pool c) ErrorKind
  unfolding as_ref
  inner s = if not s.closing then as_ref s.pool else err permission_denied

  unfoldable pub take : Bool → Statics c o → Result (Pool c) ErrorKind × Statics c o
  unfolding as_ref
  take spurious s =
      if not s.closing && not spurious
      then (as_ref s.pool, record s { closing = true })
      else (err permission_denied, s)

  unfoldable pub toggle_auto_mode : Bool → Pool c → Pool c
  toggle_auto_mode enabled p =
      if (if p.auto_mode then enabled else not enabled)
      then p
      else record p { auto_mode = enabled; store = toggle_auto_scale c enabled p.store }

  abbrev pooled : Option (ThreadPool c) → Option (Pool c)
  pooled none = none
  pooled (some store) =
      some (record { store = store; auto_mode = false; auto_adjust_handler = none })

  unfoldable pub default : Option (Pool c)
  default = pooled (build_pool c 1)

  -- A write through the reference to the pool that `inner` or `take` gave.
  abbrev pub with_pool : Statics c o → Pool c → Statics c o
  with_pool s p = record s { pool = record { inner = some p } }

  abbrev pub with_store : Statics c o → Pool c → Option (ThreadPool c) → Option (Statics c o)
  with_store s p none = none
  with_store s p (some store) = some (with_pool s (record p { store = store }))

  abbrev pub close_store : Bool → ThreadPool c → Option (ThreadPool c)
  close_store forced store = if not forced then Life.close c store else Life.force_close c store

  abbrev close_taken : Bool → Result (Pool c) ErrorKind × Statics c o → Option (Statics c o)
  close_taken forced (ok p, s) = with_store s p (close_store forced p.store)
  close_taken forced (err e, s) = some s

  unfoldable pub shut_down : Bool → Bool → Statics c o → Option (Statics c o)
  unfolding take
  shut_down forced spurious s = elim (o.state s.once) [
    | OnceState.in_progress ↦ none
    | OnceState.done ↦ close_taken forced (take spurious s)
    | OnceState.new ↦ some s
    | OnceState.poisoned ↦ some s
  ]

  unfoldable pub close : Bool → Statics c o → Option (Statics c o)
  unfolding shut_down
  close spurious s = shut_down false spurious s

  unfoldable pub force_close : Bool → Statics c o → Option (Statics c o)
  unfolding shut_down
  force_close spurious s = shut_down true spurious s

  -- `Drop for Pool`, and then the drop of its thread pool.
  unfoldable pub drop : Bool → Pool c → Statics c o → Option (Statics c o)
  drop spurious p s = elim (if not s.closing then close spurious s else some s) [
    | none ↦ none
    | some t ↦ elim (Life.drop c p.store) [ none ↦ none | some gone ↦ some t ]
  ]

  -- `POOL.set(…)`: the new pool is in its place when the old one is dropped.
  unfoldable pub set_pool : Bool → Pool c → Statics c o → Option (Statics c o)
  unfolding store_set
  set_pool spurious p s =
      let t = record s { pool = store_set s.pool p } in
      elim s.pool.inner [ none ↦ some t | some old ↦ drop spurious old t ]

  abbrev auto_of : Option ℕ → Bool × Option Adjuster
  auto_of none = (false, none)
  auto_of (some period) = (true, some (start_auto_adjustment period))

  unfoldable pub create : Bool → ℕ → Config → Statics c o → Option (Statics c o)
  unfolding start_auto_adjustment
  create spurious size config s =
      if size == 0
      then some s
      else let (auto_mode, handler) = auto_of config.refresh_period in
        elim (new_with_config c size config) [
          | none ↦ none
          | some store ↦
              set_pool spurious
                (record {
                  store = toggle_auto_scale c auto_mode store;
                  auto_mode = auto_mode;
                  auto_adjust_handler = handler;
                })
                s
        ]

  abbrev leave_once : Option (Statics c o) → Option (Statics c o)
  leave_once none = none
  leave_once (some s) = some (record s { once = o.leave s.once })

  -- The assertion on the state of `ONCE` comes first, so `call_once` finds it new.
  unfoldable pub init_with_config : Bool → ℕ → Config → Statics c o → Option (Statics c o)
  init_with_config spurious size config s = elim (o.state s.once) [
    | OnceState.new ↦ leave_once (
        create spurious (if size == 0 then 1 else size) config (record s { once = o.enter s.once }))
    | OnceState.poisoned ↦ none
    | OnceState.in_progress ↦ none
    | OnceState.done ↦ none
  ]

  unfoldable pub initialize : Bool → ℕ → Statics c o → Option (Statics c o)
  unfolding init_with_config Config.new
  initialize spurious size s = init_with_config spurious size Config.new s

  unfoldable pub initialize_with_auto_adjustment :
      Bool → ℕ → Option ℕ → Statics c o → Option (Statics c o)
  unfolding init_with_config Config.new Config.set_refresh_period
  initialize_with_auto_adjustment spurious size period s =
      init_with_config spurious size (Config.set_refresh_period Config.new period) s

  unfoldable pub run : Job → Statics c o → Option (Statics c o)
  unfolding inner
  run f s = elim (inner s) [
    | err e ↦ some (record s { threads = f ∷ s.threads })
    | ok p ↦ elim (Exec.exec c f false p.store) [
      | none ↦ none
      | some (r, store) ↦ some (with_pool s (record p { store = store }))
    ]
  ]

  -- The body of the thread.
  unfoldable pub resize : Bool → ℕ → Statics c o → Option (Statics c o)
  unfolding inner
  resize spurious size s = elim (if size == 0 then close spurious s else some s) [
    | none ↦ none
    | some t ↦ elim (inner t) [
      | ok p ↦ with_store t p (Resizing.resize c size p.store)
      | err e ↦ create spurious size Config.new t
    ]
  ]

  -- The join ends only if the thread has ended, by a panic.
  unfoldable pub stop_auto_adjustment : Pool c → Option (Pool c)
  unfolding toggle_auto_mode
  stop_auto_adjustment p = elim p.auto_adjust_handler [
    | none ↦ some p
    | some handler ↦
        if not handler.panicked
        then none
        else let taken = record p { auto_adjust_handler = none } in
          some (if taken.auto_mode then toggle_auto_mode false taken else taken)
  ]

  abbrev is_some : Option Adjuster → Bool
  is_some none = false
  is_some (some handler) = true

  unfoldable pub update_auto_adjustment_mode : Bool → Statics c o → Option (Statics c o)
  unfolding inner
  update_auto_adjustment_mode enabled s = elim (inner s) [
    | err e ↦ some s
    | ok p ↦
        if (if p.auto_mode then enabled else not enabled)
        then some s
        else elim (if not enabled && is_some p.auto_adjust_handler
            then stop_auto_adjustment p
            else some p) [ none ↦ none | some q ↦ some (with_pool s (toggle_auto_mode enabled q)) ]
  ]

  abbrev restarted : Option ℕ → Pool c → Pool c
  restarted none p = p
  restarted (some period) p = record (toggle_auto_mode true p) {
    auto_adjust_handler = some (start_auto_adjustment period);
  }

  unfoldable pub reset_auto_adjustment_period : Option ℕ → Statics c o → Option (Statics c o)
  unfolding inner toggle_auto_mode start_auto_adjustment
  reset_auto_adjustment_period period s = elim (inner s) [
    | err e ↦ some s
    | ok p ↦ elim (stop_auto_adjustment p) [
      | none ↦ none
      | some q ↦ some (with_pool s (restarted period q))
    ]
  ]

  -- One round of the thread of `start_auto_adjustment`.
  unfoldable pub trigger_auto_adjustment : Statics c o → Option (Statics c o)
  unfolding inner
  trigger_auto_adjustment s = elim (inner s) [
    | err e ↦ some s
    | ok p ↦ with_store s p (Resizing.auto_adjust c p.store)
  ]
