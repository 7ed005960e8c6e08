-- ===== src/Tests/Multis.antt =====
-- src/multi.rs: the theorems at fresh statics, and at one pool of three workers.
use thread_pool.Prelude.{
  ℕ, String, ◌≡◌, refl, subst, inl, arith, true, false, List, [], ◌∷◌, map, All, none, some, ok,
  err, if◌then◌else◌,
}
use thread_pool.Prelude.Maps.{lookup, same_text}
use thread_pool.Model.{permission_denied, as_ref}
use thread_pool.Once.{OnceState}
use thread_pool.Pool.{ThreadPool}
use thread_pool.Pool.Resizing.{resize, get_size}
use thread_pool.Multi
use thread_pool.Multi.{PoolStore, inner, init_with_config, run_with, shut_down}
use thread_pool.Multi.Starting.{IsFresh, Found, asked, init_makes_pools}
use thread_pool.Multi.Store.{IsNew, add_then_remove}
use thread_pool.Multi.Locking.{add_pool_keeps_lock}
use thread_pool.Multi.Closed.{IsClosed, key_of, shut_down_closes_each}
use thread_pool.Multi.Calls.{Call, perform, perform_all}
use thread_pool.Multi.Sound.{IsSound}
use thread_pool.Multi.Holding.{Holds}
use thread_pool.Multi.Reached.{perform_all-IsSound}
use thread_pool.Multi.Changing.{add_pool, remove_pool}
use thread_pool.Multi.Adjusting.{
  toggle_pool_auto_mode, is_pool_in_auto_mode, reset_auto_adjustment_period,
}
use thread_pool.Multi.Adjusting.Periods.{adjusting, first_toggle_starts}
use thread_pool.Tests.{buffers}
use thread_pool.Tests.Managers.{settings}
use thread_pool.Tests.Pools.{pool, pool-IsReady}
use thread_pool.Tests.Singles.{cell, cell-IsOnce}

abbrev Statics : Type 0
Statics = Multi.Statics buffers cell

abbrev fresh : Statics
fresh = record {
  once = OnceState.new;
  closing = false;
  pools = record { inner = none };
  threads = [];
}

fresh-IsFresh : IsFresh buffers cell fresh
fresh-IsFresh = record { not_started = refl; not_closing = refl; no_pools = refl }

abbrev asked_for : List (String × ℕ)
asked_for = ("web", 3) ∷ ("", 2) ∷ ("idle", 0) ∷ []

init_makes_pools_example :
    (t : Statics) × (p : PoolStore buffers) × (init_with_config buffers cell false asked_for
        settings fresh
      ≡ some t)
    × (t.once ≡ OnceState.done)
    × (inner buffers cell t ≡ ok p)
    × (p.mutating ≡ 0)
    × (p.auto_adjust_register ≡ [])
    × ((k : String) → Found buffers settings (asked k (lookup k asked_for)) (lookup k p.store))
    × (init_with_config buffers cell false asked_for settings t ≡ none)
init_makes_pools_example =
    init_makes_pools buffers cell cell-IsOnce false false asked_for asked_for settings settings
      fresh refl refl fresh-IsFresh

abbrev pub one : PoolStore buffers
one = record {
  store = ("web", pool 0) ∷ [];
  mutating = 0;
  auto_adjust_period = none;
  auto_adjust_handler = none;
  auto_adjust_register = [];
}

abbrev started : Statics
started = record fresh { once = OnceState.done; pools = record { inner = some one } }

started_inner : inner buffers cell started ≡ ok one
unfolding inner as_ref
started_inner = refl

web_there : lookup "web" one.store ≡ some (pool 0)
unfolding lookup
web_there = cc

pub mail_absent : lookup "mail" one.store ≡ none
unfolding lookup
mail_absent = cc

add_then_remove_example :
    (new_pool : ThreadPool buffers) × IsNew buffers 2 new_pool
    × (t : Statics) × (q : PoolStore buffers) × (add_pool buffers cell "mail" 2 started ≡ some t)
    × (inner buffers cell t ≡ ok q)
    × (q.mutating ≡ 0)
    × ((k : String)
        → lookup k q.store ≡ (if same_text "mail" k then some new_pool else lookup k one.store))
    × (remove_pool buffers cell "mail" t ≡ some started)
add_then_remove_example =
    add_then_remove buffers cell "mail" 2 started one started_inner refl (omega arith) refl
      mail_absent

add_pool_keeps_lock_example :
    (resized : ThreadPool buffers) × (t : Statics) × (q : PoolStore buffers) × (u : Statics)
    × (r : PoolStore buffers) × (resize buffers 5 (pool 0) ≡ some resized)
    × (add_pool buffers cell "web" 5 started ≡ some t)
    × (inner buffers cell t ≡ ok q)
    × (lookup "web" q.store ≡ some resized)
    × (q.mutating ≡ 1)
    × (remove_pool buffers cell "web" t ≡ none)
    × (add_pool buffers cell "mail" 2 t ≡ some u)
    × (inner buffers cell u ≡ ok r)
    × (r.mutating ≡ 0)
unfolding get_size
add_pool_keeps_lock_example =
    add_pool_keeps_lock buffers cell "web" "web" "mail" 5 2 started one (pool 0) started_inner refl
      refl refl (omega arith) (omega arith) refl web_there mail_absent pool-IsReady refl
      (omega arith) (λ less. absurd (omega (arith, less)))

shut_down_closes_each_example :
    (store : List (String × ThreadPool buffers)) × (t : Statics) × (shut_down buffers cell true
        false started
      ≡ some t)
    × (t.pools.inner ≡ some (record one { store = store }))
    × (map (key_of buffers) store ≡ "web" ∷ [])
    × All (IsClosed buffers true) store
    × (inner buffers cell t ≡ err permission_denied)
    × (run_with buffers cell "web" 5 t ≡ some (record t { threads = 5 ∷ t.threads }))
shut_down_closes_each_example =
    shut_down_closes_each buffers cell true "web" 5 started one refl started_inner
      ((pool-IsReady, ((refl, refl), ((refl, refl), ((refl, refl), tt)))), tt)

abbrev in_auto : Statics
in_auto = record started {
  pools = record { inner = some (adjusting buffers cell "web" (pool 0) one) };
}

first_toggle_starts_example :
    (toggle_pool_auto_mode buffers cell "web" true started ≡ some in_auto)
    × (is_pool_in_auto_mode buffers cell "web" in_auto ≡ true)
    × (reset_auto_adjustment_period buffers cell none in_auto ≡ none)
    × (toggle_pool_auto_mode buffers cell "web" false in_auto ≡ none)
first_toggle_starts_example =
    first_toggle_starts buffers cell "web" none started one (pool 0) started_inner web_there refl
      refl

web_alone : lookup {V = ThreadPool buffers} "web" [] ≡ none
unfolding lookup
web_alone = refl

one-IsSound : IsSound buffers one
one-IsSound = record {
  keys = (refl, web_alone, tt);
  lock = inl refl;
  adjusted = λ some_key. absurd (some_key refl);
}

started-Holds : Holds buffers cell started
started-Holds p there =
    let same : one ≡ p = ground (arith, there) in subst (IsSound buffers) same one-IsSound

abbrev enlarged :
    (new_pool : ThreadPool buffers) × IsNew buffers 2 new_pool
    × (t : Statics) × (q : PoolStore buffers) × (add_pool buffers cell "mail" 2 started ≡ some t)
    × (inner buffers cell t ≡ ok q)
    × (q.mutating ≡ 0)
    × ((k : String)
        → lookup k q.store ≡ (if same_text "mail" k then some new_pool else lookup k one.store))
    × (remove_pool buffers cell "mail" t ≡ some started)
enlarged =
    add_then_remove buffers cell "mail" 2 started one started_inner refl (omega arith) refl
      mail_absent

abbrev calls : List Call
calls = Call.adds "mail" 2 ∷ Call.removes "mail" ∷ Call.toggles "web" true ∷ []

calls_return : perform_all buffers cell calls started ≡ some in_auto
unfolding perform_all perform
calls_return =
    let toggled =
      first_toggle_starts buffers cell "web" none started one (pool 0) started_inner web_there refl
        refl in
    ground (arith, enlarged.4, enlarged.8, toggled.0)

perform_all-IsSound_example : IsSound buffers (adjusting buffers cell "web" (pool 0) one)
perform_all-IsSound_example =
    perform_all-IsSound buffers cell calls started in_auto
      (adjusting buffers cell "web" (pool 0) one) started-Holds calls_return refl
