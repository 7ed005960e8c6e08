-- ===== src/Pool/Exec.antt =====
-- src/pool.rs, `exec` and `execute`.
use thread_pool.Prelude.{
  ℕ, ◌-◌, Bool, false, not, ◌&&◌, ◌||◌, Option, none, some, Result, ok, err, if◌then◌else◌, ◌==◌,
  ltb,
}
use thread_pool.Model.{
  Job, single_job, flag_closing, flag_force_close, flag_hibernating, flag_lazy_init,
}
use thread_pool.Channel.{Channel, SendTimeoutError, timeout, disconnected}
use thread_pool.Status
use thread_pool.Manager
use thread_pool.Manager.Jobs.{at}
use thread_pool.Manager.Sizing.{workers_count}
use thread_pool.Pool.{ThreadPool, ExecutionError, amortized_new_size}
use thread_pool.Pool.Dispatch.{dispatch}
use thread_pool.Pool.Life.{activate}

abbrev pub exec_error : SendTimeoutError → ExecutionError
exec_error (timeout msg) = ExecutionError.timeout
exec_error (disconnected msg) = ExecutionError.disconnected

module _ (c : Channel) where
  abbrev pub Executed : Type 0
  Executed = Result (Unit {0}) ExecutionError × ThreadPool c

  -- The workers that a busy pool adds for itself.
  unfoldable pub scale : ℕ → Bool → ThreadPool c → Option (ThreadPool c)
  scale worker_count busy p =
      if busy && p.auto_scale
      then (elim (amortized_new_size c p.init_size p) [
        | none ↦ some p
        | some target ↦ elim (Manager.add_workers (target - worker_count) false p.manager) [
          | none ↦ none
          | some m ↦ some (record p { manager = m })
        ]
      ])
      else some p

  unfoldable pub exec_on : Job → Bool → ThreadPool c → Option Executed
  exec_on f prioritized p =
      let worker_count = workers_count p.manager in
      let retry = if p.auto_scale then 1 else 0 in
      if worker_count == 0
      then some (err ExecutionError.uninitialized, p)
      else elim (dispatch c (single_job f) retry prioritized p) [
        | none ↦ none
        | some (err e, q) ↦ some (err (exec_error e), q)
        | some (ok busy, q) ↦ elim (scale worker_count busy q) [
          | none ↦ none
          | some s ↦ some (ok tt, s)
        ]
      ]

  unfoldable pub exec : Job → Bool → ThreadPool c → Option Executed
  exec f prioritized p =
      if p.status == flag_closing || p.status == flag_force_close
      then some (err ExecutionError.disconnected, p)
      else elim (if p.status == flag_hibernating || p.status == flag_lazy_init
          then activate c p
          else some p) [ none ↦ none | some ready ↦ exec_on f prioritized ready ]

  -- From the test for workers on.
  unfoldable pub execute_on : Job → ThreadPool c → Option Executed
  execute_on f p =
      let prioritized =
        c.is_empty (at c p.chan.1 p.queues) && not (c.is_full (at c p.chan.0 p.queues)) in
      if ltb (workers_count p.manager) 1
      then some (err ExecutionError.uninitialized, p)
      else elim (dispatch c (single_job f) 0 prioritized p) [
        | none ↦ none
        | some (err e, q) ↦ some (err (exec_error e), q)
        | some (ok busy, q) ↦ some (ok tt, q)
      ]

  unfoldable pub execute : Job → ThreadPool c → Option Executed
  execute f p =
      let (closing, status) = Status.closing p.status in
      let read = record p { status = status } in
      if closing then some (err ExecutionError.disconnected, read) else execute_on f read
