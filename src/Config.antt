-- ===== src/Config.antt =====
-- src/config.rs. A `Duration` is a number of nanoseconds.
use Prim.Native.String.{String}
use thread_pool.Prelude.{ℕ, Bool, true, false, Option, none, some, if◌then◌else◌}
use thread_pool.Model.{WorkerUpdate}
use thread_pool.Behaviors
use thread_pool.Behaviors.{StatusBehaviors}

pub data TimeoutPolicy : Type 0 where
  direct_run drop lossy_retry : TimeoutPolicy

pub record Config : Type 0 where
  pub non_blocking : Bool
  pub pool_name : Option String
  pub refresh_period : Option ℕ
  pub worker_behaviors : StatusBehaviors
  pub thread_size : ℕ
  pub timeout_policy : TimeoutPolicy

-- `new` and `default`
unfoldable pub new : Config
unfolding Behaviors.new
new = record {
  non_blocking = false;
  pool_name = none;
  refresh_period = none;
  worker_behaviors = Behaviors.new;
  thread_size = 0;
  timeout_policy = drop;
}

abbrev is_empty : String → Bool
is_empty String.[] = true
is_empty (String.◌∷◌ a s) = false

unfoldable pub set_pool_name : Config → String → Config
set_pool_name c name =
    if is_empty name then record c { pool_name = none } else record c { pool_name = some name }

unfoldable pub set_refresh_period : Config → Option ℕ → Config
set_refresh_period c period = record c { refresh_period = period }

unfoldable pub set_worker_behavior : Config → StatusBehaviors → Config
set_worker_behavior c behavior = record c { worker_behaviors = behavior }

unfoldable pub set_none_blocking : Config → Bool → Config
set_none_blocking c non_blocking = record c { non_blocking = non_blocking }

unfoldable pub set_thread_size : Config → ℕ → Config
set_thread_size c size = record c { thread_size = size }

unfoldable pub set_timeout_policy : Config → TimeoutPolicy → Config
set_timeout_policy c policy = record c { timeout_policy = policy }

unfoldable pub set_before_start : Config → WorkerUpdate → Config
set_before_start c f = record c {
  worker_behaviors = Behaviors.set_before_start c.worker_behaviors f;
}

unfoldable pub set_after_start : Config → WorkerUpdate → Config
set_after_start c f = record c { worker_behaviors = Behaviors.set_after_start c.worker_behaviors f }

unfoldable pub set_before_drop : Config → WorkerUpdate → Config
set_before_drop c f = record c { worker_behaviors = Behaviors.set_before_drop c.worker_behaviors f }

unfoldable pub set_after_drop : Config → WorkerUpdate → Config
set_after_drop c f = record c { worker_behaviors = Behaviors.set_after_drop c.worker_behaviors f }
