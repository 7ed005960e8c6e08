-- ===== src/Behaviors.antt =====
-- src/manager.rs, `StatusBehaviors`: the hooks that a worker's start and drop call.
use thread_pool.Prelude.{ℕ, List, [], ◌∷◌, Option, none, some}
use thread_pool.Model.{WorkerUpdate, Event, called}

pub record StatusBehaviors : Type 0 where
  pub before_start : Option WorkerUpdate
  pub after_start : Option WorkerUpdate
  pub before_drop : Option WorkerUpdate
  pub after_drop : Option WorkerUpdate

unfoldable pub new : StatusBehaviors
new = record { before_start = none; after_start = none; before_drop = none; after_drop = none }

unfoldable pub set_before_start : StatusBehaviors → WorkerUpdate → StatusBehaviors
set_before_start s f = record s { before_start = some f }

unfoldable pub set_after_start : StatusBehaviors → WorkerUpdate → StatusBehaviors
set_after_start s f = record s { after_start = some f }

unfoldable pub set_before_drop : StatusBehaviors → WorkerUpdate → StatusBehaviors
set_before_drop s f = record s { before_drop = some f }

unfoldable pub set_after_drop : StatusBehaviors → WorkerUpdate → StatusBehaviors
set_after_drop s f = record s { after_drop = some f }

-- `if let Some(behavior) = … { behavior(id) }`, which the four calls of a hook share.
unfoldable pub call_hook : Option WorkerUpdate → ℕ → List Event
call_hook none id = []
call_hook (some f) id = called f id ∷ []
