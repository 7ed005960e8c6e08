-- ===== src/Tests/Managers.antt =====
-- src/manager.rs: the theorems at a manager of three workers, the second of which has retired.
use thread_pool.Prelude.{ℕ, ◌≡◌, refl, arith, true, false, [], ◌∷◌, ◌++◌, none, some}
use thread_pool.Model.{single_job}
use thread_pool.Behaviors.{StatusBehaviors}
use thread_pool.Config.{Config, drop}
use thread_pool.Worker.{Worker, pri, norm}
use thread_pool.Manager.{Manager, add_workers, remove_all, init_id}
use thread_pool.Manager.Sizing.{shrink_by}
use thread_pool.Manager.Valid.{IsValid}
use thread_pool.Manager.Growth.{Grown, add_workers_grows}
use thread_pool.Manager.Shrink.{all_drained_twice, remove_all_empties}
use thread_pool.Manager.Runs.{perform, perform_all, shrinking, adding}
use thread_pool.Manager.Jobs.{Queues}
use thread_pool.Tests.{buffers}

abbrev hooks : StatusBehaviors
hooks = record { before_start = none; after_start = none; before_drop = some 7; after_drop = none }

abbrev pub settings : Config
settings = record {
  non_blocking = false;
  pool_name = none;
  refresh_period = none;
  worker_behaviors = hooks;
  thread_size = 0;
  timeout_policy = drop;
}

abbrev pub worker : ℕ → ℕ → Worker
worker id stat = record {
  id = id;
  thread = some (record {
    name = none;
    my_id = id;
    stack_size = 0;
    privileged = true;
    rx_pair = (norm, pri);
  });
  stat = some stat;
  before_drop = some 7;
  after_drop = none;
}

abbrev pub three : Manager
three = record {
  config = settings;
  workers = worker 16 0 ∷ worker 17 2 ∷ worker 18 0 ∷ [];
  mutating = 0;
  last_worker_id = 18;
  idle_threshold = record { hibernate = 128; retire = 512 };
  chan = (pri, norm);
  log = [];
}

pub three-IsValid : IsValid three
three-IsValid = record {
  free = refl;
  distinct = λ i. ground arith;
  ranged = λ i h. ground arith;
  floor = omega arith;
  fits = omega arith;
}

add_workers_grows_example :
    (n : Manager) × (add_workers 2 false three ≡ some n) × Grown 2 false three n
add_workers_grows_example =
    add_workers_grows 2 false three three-IsValid (omega arith) (omega arith)

abbrev grown : (n : Manager) × (add_workers 2 false three ≡ some n) × Grown 2 false three n
grown = add_workers_grows 2 false three three-IsValid (omega arith) (omega arith)

both_performed : perform_all (shrinking 0 ∷ adding 2 false ∷ []) three ≡ some grown.0
unfolding perform_all perform shrink_by
both_performed = ground (arith, grown.1)

remove_all_empties_example :
    (remove_all true three
      ≡ some (record three {
        workers = [];
        last_worker_id = init_id;
        log = [] ++ all_drained_twice hooks three.workers;
      }))
    × IsValid (record three {
      workers = [];
      last_worker_id = init_id;
      log = [] ++ all_drained_twice hooks three.workers;
    })
remove_all_empties_example =
    remove_all_empties three three-IsValid ((refl, refl), ((refl, refl), ((refl, refl), tt)))
      (λ e. ground (arith, e))

abbrev two_queues : Queues buffers
two_queues = record {
  pri_state = record { room = 4; held = single_job 1 ∷ single_job 2 ∷ [] };
  norm_state = record { room = 4; held = single_job 3 ∷ [] };
}
