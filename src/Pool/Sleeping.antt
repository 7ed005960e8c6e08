-- ===== src/Pool/Sleeping.antt =====
-- src/pool.rs: activation, hibernation and waking, as the code does them.
use thread_pool.Prelude.{
  ℕ, ◌≡◌, refl, ◌⊎◌, inl, inr, Bool, true, false, some, err, if◌then◌else◌, ltb, arith, Bool-cases,
  ap, ◌∙◌,
}
use thread_pool.Model.{Job, flag_normal, flag_closing, flag_force_close}
use thread_pool.Channel.{Channel}
use thread_pool.Status
use thread_pool.Manager
use thread_pool.Manager.{Manager}
use thread_pool.Manager.Cleanup.{worker_cleanup_keeps}
use thread_pool.Manager.Sizing.{workers_count}
use thread_pool.Pool.{ThreadPool, uninitialized, set_status, update_status, wake_workers}
use thread_pool.Pool.Life.{hibernate, unhibernate, is_hibernating, activate}
use thread_pool.Pool.Exec.{exec_on, execute_on}

module _ (c : Channel) where
  -- `activate` never does anything: its first test asks for a status that differs from one of two
  -- flags, and every status does.
  pub activate_idle : (p : ThreadPool c) → activate c p ≡ some p
  unfolding activate
  activate_idle p = ground arith

  pub no_workers :
      (p : ThreadPool c) (f : Job) (prioritized : Bool)
      → workers_count p.manager ≡ 0
      → exec_on c f prioritized p ≡ some (err uninitialized, p)
  unfolding exec_on
  no_workers p f prioritized h = ground arith

  pub no_workers_execute :
      (p : ThreadPool c) (f : Job)
      → workers_count p.manager ≡ 0
      → execute_on c f p ≡ some (err uninitialized, p)
  unfolding execute_on
  no_workers_execute p f h = ground arith

  -- Unhibernation of a pool that was just put to sleep ends. If its one weak exchange fails for no
  -- reason, the pool stays as it is, hibernating. If not, the status is back to normal, but nobody
  -- is woken: what it asks of the threads is only what its cleanup of retired workers asks. Its
  -- test for sleeping workers reads the status that it has just cleared.
  pub unhibernate_wakes_nobody :
      (spurious : Bool) (p : ThreadPool c)
      → let asleep = hibernate c p in
        (is_hibernating c asleep ≡ true)
        × (m : Manager) × (Manager.worker_cleanup p.manager ≡ some m)
        × (unhibernate c spurious asleep
            ≡ some (if spurious then asleep else record p { manager = m; status = flag_normal }))
  unfolding hibernate unhibernate is_hibernating set_status update_status wake_workers
      Status.has_hibernate_workers
  unhibernate_wakes_nobody spurious p =
      let r = worker_cleanup_keeps p.manager in (refl, r.0, r.1, ground (arith, r.1))

  -- The status after waking, by the status before.
  status_after : ℕ → ℕ
  unfolding Status.has_hibernate_workers Status.toggle_alone
  status_after s =
      if ltb 0 s
      then Status.toggle_alone (Status.has_hibernate_workers s).1 32 false
      else (Status.has_hibernate_workers s).1

  wake_workers_status : (p : ThreadPool c) → (wake_workers c p).status ≡ status_after p.status
  unfolding wake_workers status_after
  wake_workers_status p = elim (Bool-cases (ltb 0 p.status)) [
    | inl some_flag ↦ rw (some_flag, wake_workers)
    | inr no_flag ↦ rw (no_flag, wake_workers)
  ]

  -- Waking workers on a closing pool undoes the closing: whatever it asks of the threads, the
  -- status is normal afterwards.
  pub wake_workers_reopens :
      (p : ThreadPool c)
      → (p.status ≡ flag_closing) ⊎ (p.status ≡ flag_force_close)
      → (wake_workers c p).status ≡ flag_normal
  unfolding status_after
  wake_workers_reopens p h = elim h [
    | inl closing ↦ wake_workers_status p ∙ ap status_after closing
    | inr forced ↦ wake_workers_status p ∙ ap status_after forced
  ]
