-- ===== src/Executor/Local.antt =====
-- src/executor.rs: `enqueue` and `poll`, and the two `spawn`s. A task is async_task's, an interface:
-- what `run` gives is the value that its future completed with, if it did, and the task that the
-- run handed to `schedule`, if it was woken. A reply is the number of the call and the value that
-- was sent to its receiver.
use thread_pool.Prelude.{
  ℕ, zero, suc, ◌+◌, ◌≡◌, Bool, true, false, List, [], ◌∷◌, ◌++◌, Option, none, some,
}
use thread_pool.Pool.Blocking.{Reply, dropped}
use thread_pool.Executor.{Future}

pub record AsyncTask (T : Type 0) (fut : Future T) : Type 1 where
  pub Task : Type 0
  pub spawn_local : fut.State → Task
  pub run : Task → Option T × Option Task

-- What the documentation says: a task is spawned around its future, `run` polls that once, and a
-- task that is woken meanwhile is handed to `schedule`. `woken` says whether the poll that left the
-- future in this state woke its task.
pub record IsAsync (T : Type 0) (fut : Future T) (a : AsyncTask T fut) : Type 0 where
  pub holds : a.Task → fut.State
  pub woken : fut.State → Bool
  pub spawned : (s : fut.State) → holds (a.spawn_local s) ≡ s
  pub completes :
      (t : a.Task) (val : T) → (fut.poll (holds t)).0 ≡ some val → a.run t ≡ (some val, none)
  pub pends :
      (t : a.Task)
      → (fut.poll (holds t)).0 ≡ none
      → woken (fut.poll (holds t)).1 ≡ true
      → (u : a.Task) × (a.run t ≡ (none, some u)) × (holds u ≡ (fut.poll (holds t)).1)
  pub sleeps :
      (t : a.Task)
      → (fut.poll (holds t)).0 ≡ none
      → woken (fut.poll (holds t)).1 ≡ false
      → a.run t ≡ (none, none)

module _ {T : Type 0} {fut : Future T} (a : AsyncTask T fut) where
  -- The queue of a thread, with the number of the call that each task comes from, and all that was
  -- sent to the receivers.
  pub record Local : Type 0 where
    pub queue : List (ℕ × a.Task)
    pub replies : List (ℕ × T)
    pub calls : ℕ

  abbrev sent : ℕ → Option T → List (ℕ × T)
  sent id none = []
  sent id (some val) = (id, val) ∷ []

  abbrev scheduled : ℕ → Option a.Task → List (ℕ × a.Task)
  scheduled id none = []
  scheduled id (some task) = (id, task) ∷ []

  -- `task.run()`, where the future sends its value as it completes.
  unfoldable pub run_task : ℕ → a.Task → Local → Local
  run_task id task x =
      let (val, again) = a.run task in
      record x { queue = x.queue ++ scheduled id again; replies = x.replies ++ sent id val }

  -- The receiver that is returned is the one of this call's number.
  unfoldable pub enqueue : fut.State → Local → ℕ × Local
  unfolding run_task
  enqueue future x =
      (x.calls, run_task x.calls (a.spawn_local future) (record x { calls = x.calls + 1 }))

  abbrev pub popped : List (ℕ × a.Task) → Local → Local
  popped [] x = x
  popped ((id, task) ∷ rest) x = run_task id task (record x { queue = rest })

  unfoldable pub poll : Local → Local
  poll x = popped x.queue x

  unfoldable pub polls : ℕ → Local → Local
  unfolding poll
  polls zero x = x
  polls (suc n) x = polls n (poll x)

-- `FutPool::spawn` and `spawn`, and what a `try_recv` on the receiver finds: the boxed task, which
-- owns the sender, is dropped on return without a poll.
unfoldable pub spawn : {T : Type 0} (fut : Future T) → fut.State → Reply T
spawn fut future = dropped
