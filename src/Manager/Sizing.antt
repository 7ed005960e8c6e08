-- ===== src/Manager/Sizing.antt =====
-- src/manager.rs, `WorkerManagement` and `JobManagement`: the operations that change the number of
-- workers, the idle thresholds, the lookup of ids, and the dropping of queued jobs.
use thread_pool.Prelude.{
  ℕ, zero, suc, ◌+◌, ◌-◌, Bool, true, false, List, [], ◌∷◌, ◌++◌, map, Option, none, some,
  if◌then◌else◌, ◌==◌, ltb, length, get_elem?, take, drop,
}
use thread_pool.Prelude.Vec.{swap_remove}
use thread_pool.Model.{Event}
use thread_pool.Model.Backoff.{minus_one}
use thread_pool.Worker
use thread_pool.Worker.{Worker}
use thread_pool.Manager.{Manager, logs, spin_update, concede_update, reset_lock, add_workers}

abbrev pub workers_count : Manager → ℕ
workers_count m = length m.workers

-- The stores are `life_in_ms as u64`.
unfoldable pub worker_auto_sleep : ℕ → Manager → Manager
worker_auto_sleep life m = record m {
  idle_threshold = record { hibernate = life; retire = m.idle_threshold.retire };
}

unfoldable pub worker_auto_expire : ℕ → Manager → Manager
worker_auto_expire life m = record m {
  idle_threshold = record { hibernate = m.idle_threshold.hibernate; retire = life };
}

unfoldable pub extend_by : ℕ → Manager → Option Manager
extend_by more m = add_workers more true m

abbrev pub ids : List Worker → List ℕ
ids = map λ w. w.id

-- The closure of `drain(start..).map(…)`: the worker is dropped at its end.
unfoldable pub shrink_worker : Worker → List Event
shrink_worker w =
    let (joined, events) = Worker.retire w in Worker.wake_up w ++ events ++ Worker.drop joined

unfoldable pub shrink_workers : List Worker → List Event
unfolding shrink_worker
shrink_workers [] = []
shrink_workers (w ∷ ws) = shrink_worker w ++ shrink_workers ws

-- `len - less` panics below 0: at once in a debug build, and else in `drain`, since it wraps.
unfoldable pub shrink_by : ℕ → Manager → Option (List ℕ × Manager)
shrink_by less m =
    if less == 0
    then some ([], m)
    else if ltb (length m.workers) less
    then none
    else let start = length m.workers - less in
      elim (concede_update m minus_one) [
        | none ↦ none
        | some (mine, locked) ↦
            if mine
            then (let gone = drop start locked.workers in
                some (
                  ids gone,
                  reset_lock (
                      logs (record locked { workers = take start locked.workers })
                        (shrink_workers gone)),
                ))
            else some ([], locked)
      ]

-- The hit of the loop: woken, swapped out under the lock, retired and dropped.
unfoldable pub dismiss_at : ℕ → Worker → Manager → Option (Option ℕ × Manager)
dismiss_at idx w m = elim (spin_update (logs m (Worker.wake_up w)) minus_one) [
  | none ↦ none
  | some locked ↦ elim (swap_remove locked.workers idx) [
    | none ↦ none
    | some (retired, rest) ↦
        let (joined, events) = Worker.retire retired in
        some (
          some retired.id,
          logs (reset_lock (record locked { workers = rest })) (events ++ Worker.drop joined),
        )
  ]
]

-- `for idx in 0..self.workers.len()`, with the rounds that are left.
unfoldable pub dismiss_loop : ℕ → ℕ → ℕ → Manager → Option (Option ℕ × Manager)
dismiss_loop zero idx id m = some (none, m)
dismiss_loop (suc left) idx id m = elim (get_elem? m.workers idx) [
  | none ↦ none
  | some w ↦ elim (w.id == id) [
    | true ↦ dismiss_at idx w m
    | false ↦ dismiss_loop left (idx + 1) id m
  ]
]

unfoldable pub dismiss_worker : ℕ → Manager → Option (Option ℕ × Manager)
unfolding dismiss_loop
dismiss_worker id m = dismiss_loop (length m.workers) 0 id m

abbrev pub first_of : List Worker → ℕ
first_of [] = 0
first_of (w ∷ ws) = w.id

unfoldable pub first_worker_id : Manager → ℕ
first_worker_id m = first_of m.workers

abbrev pub last_of : List Worker → ℕ
last_of [] = 0
last_of (w ∷ []) = w.id
last_of (w ∷ v ∷ ws) = last_of (v ∷ ws)

unfoldable pub last_worker_id : Manager → ℕ
last_worker_id m = last_of m.workers

-- The loop of `next_worker_id`, with its `found`.
unfoldable pub next_loop : Bool → ℕ → List Worker → ℕ
next_loop found curr_id [] = 0
next_loop found curr_id (w ∷ ws) =
    if found then w.id else next_loop (if w.id == curr_id then true else found) curr_id ws

unfoldable pub next_worker_id : ℕ → Manager → ℕ
unfolding next_loop
next_worker_id curr_id m = next_loop false curr_id m.workers
