-- ===== src/Worker.antt =====
-- src/worker.rs, `Worker`: the handle that the manager keeps of a worker thread. Its operations
-- return what they ask of the thread and of the hooks, as events in order.
pub mod Fetch
pub mod Queues
pub mod Loop
pub mod Serving
pub mod Fairness
pub mod Rounds
pub mod Exit
use thread_pool.Prelude.{
  ℕ, Bool, true, false, List, [], ◌∷◌, ◌++◌, Option, none, some, String, ◌==◌,
}
use thread_pool.Model.{WorkerUpdate, Event, spawned, told_to_stop, unparked, joined}
use thread_pool.Behaviors.{StatusBehaviors, call_hook}

-- Which of the pool's two channels a receiver reads.
pub data Queue : Type 0 where
  pri norm : Queue

-- "{base}-{number}"
pub record ThreadName : Type 0 where
  pub base : String
  pub number : ℕ

-- What `spawn_worker` gives the thread that it starts; the status byte and the idle thresholds
-- are shared with the pool.
pub record Thread : Type 0 where
  pub name : Option ThreadName
  pub my_id : ℕ
  pub stack_size : ℕ
  pub privileged : Bool
  pub rx_pair : Queue × Queue

-- `stat` is what `upgrade` and `load` give: nothing, once the thread has returned and dropped
-- the counter that it owns.
pub record Worker : Type 0 where
  pub id : ℕ
  pub thread : Option Thread
  pub stat : Option ℕ
  pub before_drop : Option WorkerUpdate
  pub after_drop : Option WorkerUpdate

-- `new`, with the `worker_stat` of `spawn_worker`.
unfoldable pub new :
    Option ThreadName → ℕ → ℕ → Bool → Queue × Queue → StatusBehaviors → Worker × List Event
unfolding call_hook
new name my_id stack_size privileged rx_pair behaviors = (
  record {
    id = my_id;
    thread = some (record {
      name = name;
      my_id = my_id;
      stack_size = stack_size;
      privileged = privileged;
      rx_pair = rx_pair;
    });
    stat = some 0;
    before_drop = behaviors.before_drop;
    after_drop = behaviors.after_drop;
  },
  call_hook behaviors.before_start my_id ++ spawned my_id ∷ call_hook behaviors.after_start my_id,
)

abbrev tell_to_stop : Option ℕ → ℕ → List Event
tell_to_stop none id = []
tell_to_stop (some stat) id = told_to_stop id ∷ []

-- The thread is joined, so its counter is gone afterwards.
unfoldable pub retire : Worker → Worker × List Event
retire w = elim w.thread [
  | none ↦ (w, [])
  | some handle ↦ (
    record w { thread = none; stat = none },
    tell_to_stop w.stat w.id ++ unparked w.id ∷ joined w.id ∷ [],
  )
]

unfoldable pub wake_up : Worker → List Event
wake_up w = elim w.thread [ none ↦ [] | some handle ↦ unparked w.id ∷ [] ]

unfoldable pub is_terminated : Worker → Bool
is_terminated w = elim w.stat [ none ↦ false | some stat ↦ stat == 2 ]

-- `Drop for Worker`.
unfoldable pub drop : Worker → List Event
unfolding call_hook retire
drop w = call_hook w.before_drop w.id ++ (retire w).1 ++ call_hook w.after_drop w.id
