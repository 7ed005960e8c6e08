-- ===== src/Multi/Threads.antt =====
-- src/multi.rs: the threads of `remove_pool` and `add_pool` at work on one store at once. A thread
-- reads or writes the lock by itself, and between two accesses to it does the rest in one step.
pub mod Alone
pub mod Crowd
use thread_pool.Prelude.{
  ℕ, String, Bool, true, false, List, [], ◌∷◌, Option, none, some, if◌then◌else◌, ◌==◌,
}
use thread_pool.Prelude.Maps.{lookup, insert, remove}
use thread_pool.Model.Backoff
use thread_pool.Model.Backoff.{minus_one, exchanges, same_direction}
use thread_pool.Channel.{Channel}
use thread_pool.Pool.{ThreadPool, new}
use thread_pool.Pool.Resizing
use thread_pool.Multi.Changing.{close_and_drop, replaced_ends}

pub data Task : Type 0 where
  removes : (key : String) → Task
  adds : (key : String) (size : ℕ) → Task

-- What the thread asks of `concede_update`.
abbrev pub direction : Task → ℕ
direction (removes key) = minus_one
direction (adds key size) = 1

-- Where a thread stands: before the load of `concede_update`, in the loop of its `spin_update`,
-- after it, before `reset_lock`, and at its end.
pub data Place : Type 0 where
  arriving spinning inside leaving finished : Place

module _ (c : Channel) where
  -- The lock and the pools, which all threads share, and what each thread does and where it stands.
  pub record Threads : Type 0 where
    pub cell : ℕ
    pub store : List (String × ThreadPool c)
    pub task : ℕ → Task
    pub place : ℕ → Place

  abbrev pub stands : ℕ → Place → Threads → Threads
  stands i here s = record s { place = λ j. if j == i then here else s.place j }

  -- The load, and the test of the direction.
  unfoldable pub arrive : ℕ → Threads → Threads
  arrive i s =
      stands i (if same_direction s.cell (direction (s.task i)) then inside else spinning) s

  -- One exchange of the loop, which may fail for no reason.
  unfoldable pub attempt : ℕ → Bool → Threads → Threads
  attempt i spurious s =
      if exchanges 0 (record { found = s.cell; spurious = spurious })
      then stands i inside (record s { cell = direction (s.task i) })
      else s

  -- `if let Some(mut pool_inner) = …`
  unfoldable pub take_away : ℕ → String → Threads → Option Threads
  take_away i key s = elim (lookup key s.store) [
    | none ↦ some (stands i leaving s)
    | some pool ↦
        if close_and_drop c pool
        then some (stands i leaving (record s { store = remove key s.store }))
        else none
  ]

  unfoldable pub put_pool : ℕ → String → ℕ → Threads → Option Threads
  put_pool i key size s = elim (new c size) [
    | none ↦ none
    | some pool ↦
        if replaced_ends c (lookup key s.store)
        then some (stands i leaving (record s { store = insert key pool s.store }))
        else none
  ]

  -- The early return leaves out `reset_lock`.
  unfoldable pub put_or_resize : ℕ → String → ℕ → Threads → Option Threads
  put_or_resize i key size s = elim (lookup key s.store) [
    | none ↦ put_pool i key size s
    | some pool ↦
        if Resizing.get_size c pool == size
        then put_pool i key size s
        else elim (Resizing.resize c size pool) [
          | none ↦ none
          | some resized ↦
              some (stands i finished (record s { store = insert key resized s.store }))
        ]
  ]

  unfoldable pub change : ℕ → Threads → Option Threads
  change i s = elim (s.task i) [
    | removes key ↦ take_away i key s
    | adds key size ↦ put_or_resize i key size s
  ]

  unfoldable pub leave : ℕ → Threads → Threads
  leave i s = stands i finished (record s { cell = Backoff.reset_lock })

  -- One step of a thread, whose exchange may fail for no reason; `none` is a panic, or a call that
  -- does not end.
  unfoldable pub act : ℕ → Bool → Threads → Option Threads
  act i spurious s = elim (s.place i) [
    | arriving ↦ some (arrive i s)
    | spinning ↦ some (attempt i spurious s)
    | inside ↦ change i s
    | leaving ↦ some (leave i s)
    | finished ↦ some s
  ]

  -- Steps of the threads, in the order of a schedule.
  unfoldable pub acts : List (ℕ × Bool) → Threads → Option Threads
  acts [] s = some s
  acts ((i, spurious) ∷ schedule) s = elim (act i spurious s) [
    | none ↦ none
    | some t ↦ acts schedule t
  ]
