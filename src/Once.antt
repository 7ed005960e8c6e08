-- ===== src/Once.antt =====
-- `parking_lot::Once`, a package that the static pools call, as an interface: the states that its
-- documentation names, and what `call_once` does before and after its closure. A closure that
-- panics takes the caller with it, so nothing is said of the state then.
use thread_pool.Prelude.{◌≡◌}

pub data OnceState : Type 0 where
  new poisoned in_progress done : OnceState

pub record Once : Type 1 where
  pub State : Type 0
  pub init : State
  pub state : State → OnceState
  pub enter : State → State
  pub leave : State → State

-- `call_once` on a new cell runs its closure in progress, and is done after it.
pub record IsOnce (o : Once) : Type 0 where
  pub starts_new : o.state o.init ≡ new
  pub runs : (s : o.State) → o.state s ≡ new → o.state (o.enter s) ≡ in_progress
  pub ends : (s : o.State) → o.state s ≡ in_progress → o.state (o.leave s) ≡ done
