-- ===== src/Tests/Singles.antt =====
-- src/single.rs and src/executor.rs: the theorems at fresh statics, at a pool of three workers, and
-- at a future that is ready at its third poll.
use thread_pool.Prelude.{◌≡◌, refl, arith, true, false, [], ◌∷◌, none, some, ok, err}
use thread_pool.Model.{permission_denied, as_ref}
use thread_pool.Once.{Once, OnceState, IsOnce}
use thread_pool.Pool.{ThreadPool, toggle_auto_scale, new_with_config}
use thread_pool.Pool.Life
use thread_pool.Pool.Creation.{IsReady, IsMade}
use thread_pool.Pool.Closing.{shut_down_leaves}
use thread_pool.Single
use thread_pool.Single.{
  Adjuster, toggle_auto_mode, inner, init_with_config, initialize_with_auto_adjustment, resize, run,
  update_auto_adjustment_mode, reset_auto_adjustment_period,
}
use thread_pool.Single.Starting.{IsFresh, pool_with, init_runs}
use thread_pool.Single.Closed.{Call, perform, perform_all, closed_for_good}
use thread_pool.Single.Holding.{IsTuned, Holds}
use thread_pool.Single.Reached.{perform_all-IsTuned}
use thread_pool.Tests.{buffers}
use thread_pool.Tests.Managers.{settings}
use thread_pool.Tests.Pools.{pool, pool-IsReady}

-- `Once` as its own state.
abbrev pub cell : Once
cell = record {
  State = OnceState;
  init = OnceState.new;
  state = λ s. s;
  enter = λ s. OnceState.in_progress;
  leave = λ s. OnceState.done;
}

pub cell-IsOnce : IsOnce cell
cell-IsOnce = record { starts_new = refl; runs = λ s h. refl; ends = λ s h. refl }

abbrev Statics : Type 0
Statics = Single.Statics buffers cell

abbrev fresh : Statics
fresh = record {
  once = OnceState.new;
  closing = false;
  pool = record { inner = none };
  threads = [];
}

fresh-IsFresh : IsFresh buffers cell fresh
fresh-IsFresh = record { not_started = refl; not_closing = refl; no_pool = refl }

init_runs_example :
    (t : Statics) × (init_with_config buffers cell false 3 settings fresh ≡ some t)
    × (t.once ≡ OnceState.done)
    × (store : ThreadPool buffers) × (new_with_config buffers 3 settings ≡ some store)
    × IsReady buffers store
    × IsMade buffers 3 settings store
    × (inner buffers cell t ≡ ok (pool_with buffers cell cell-IsOnce settings store))
    × (init_with_config buffers cell false 5 settings t ≡ none)
init_runs_example =
    init_runs buffers cell cell-IsOnce false false 3 5 settings settings fresh fresh-IsFresh

abbrev kept : Single.Pool buffers
kept = record { store = pool 0; auto_mode = false; auto_adjust_handler = none }

abbrev started : Statics
started = record fresh { once = OnceState.done; pool = record { inner = some kept } }

abbrev emptied : ThreadPool buffers
emptied =
    (shut_down_leaves buffers false (pool 0) 5 true pool-IsReady
      ((refl, refl), ((refl, refl), ((refl, refl), tt)))).0

abbrev closed : Statics
closed = record started {
  closing = true;
  pool = record { inner = some (record kept { store = emptied }) };
}

closes : Single.shut_down buffers cell false false started ≡ some closed
unfolding Single.shut_down Single.take as_ref Life.close
closes = ground (
  arith,
  (shut_down_leaves buffers false (pool 0) 5 true pool-IsReady
      ((refl, refl), ((refl, refl), ((refl, refl), tt)))).1,
)

abbrev went_on : Statics
went_on = record closed { threads = 8 ∷ 7 ∷ [] }

goes_on :
    perform_all buffers cell (Call.runs 7 ∷ Call.updates true ∷ Call.runs 8 ∷ []) closed
    ≡ some went_on
unfolding perform_all perform run inner update_auto_adjustment_mode
goes_on = refl

closed_for_good_example :
    (inner buffers cell went_on ≡ err permission_denied)
    × (run buffers cell 9 went_on ≡ some (record closed { threads = 9 ∷ 8 ∷ 7 ∷ [] }))
unfolding inner as_ref
closed_for_good_example =
    closed_for_good buffers cell false (Call.runs 7 ∷ Call.updates true ∷ Call.runs 8 ∷ []) 9
      started closed went_on kept refl refl closes goes_on

started-Holds : Holds buffers cell started
started-Holds p there = ground arith

abbrev scaling : Single.Pool buffers
scaling = record kept { store = record (pool 0) { auto_scale = true }; auto_mode = true }

switches_on :
    perform_all buffers cell
      (Call.updates true ∷ Call.updates false ∷ Call.updates true ∷ [])
      started
    ≡ some (record started { pool = record { inner = some scaling } })
unfolding perform_all perform update_auto_adjustment_mode inner as_ref toggle_auto_mode
    toggle_auto_scale
switches_on = refl

perform_all-IsTuned_example : IsTuned buffers scaling
perform_all-IsTuned_example =
    perform_all-IsTuned buffers cell
      (Call.updates true ∷ Call.updates false ∷ Call.updates true ∷ []) started
      (record started { pool = record { inner = some scaling } }) scaling started-Holds switches_on
      refl
