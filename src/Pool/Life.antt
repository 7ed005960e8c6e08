-- ===== src/Pool/Life.antt =====
-- src/pool.rs: activation, hibernation, and the ways to shut a pool down.
use thread_pool.Prelude.{
  ◌-◌, List, [], ◌∷◌, ◌++◌, Bool, true, false, not, ◌||◌, Option, none, some, if◌then◌else◌, ◌==◌,
  ltb,
}
use thread_pool.Model.{
  Event, flag_normal, flag_closing, flag_force_close, flag_hibernating, flag_lazy_init, flag_rest,
}
use thread_pool.Channel.{Channel}
use thread_pool.Status
use thread_pool.Worker
use thread_pool.Worker.{Worker}
use thread_pool.Manager
use thread_pool.Manager.{Manager}
use thread_pool.Manager.Sizing.{workers_count}
use thread_pool.Pool.{ThreadPool, set_status, update_status, wake_workers}

module _ (c : Channel) where
  abbrev with_manager : ThreadPool c → Option Manager → Option (ThreadPool c)
  with_manager p none = none
  with_manager p (some m) = some (record p { manager = m })

  unfoldable pub hibernate : ThreadPool c → ThreadPool c
  hibernate p = set_status c flag_hibernating p

  unfoldable pub unhibernate : (spurious : Bool) → ThreadPool c → Option (ThreadPool c)
  unhibernate spurious p =
      let (hit, updated) = update_status c spurious flag_hibernating flag_normal p in
      if hit
      then (elim (Manager.worker_cleanup updated.manager) [
        | none ↦ none
        | some m ↦ some (wake_workers c (record updated { manager = m }))
      ])
      else some updated

  unfoldable pub is_hibernating : ThreadPool c → Bool
  is_hibernating p = p.status == flag_hibernating

  -- The last part of `activate`.
  unfoldable pub fill_up : ThreadPool c → Option (ThreadPool c)
  fill_up p =
      let worker_count = workers_count p.manager in
      elim (if ltb worker_count p.init_size
        then with_manager p (Manager.add_workers (p.init_size - worker_count) true p.manager)
        else some p) [ none ↦ none | some filled ↦ some (set_status c flag_normal filled) ]

  -- The first test holds for every status, so that the rest is never reached, whether the exchange
  -- of `unhibernate` fails or not. A debug build first asserts that `init_size` is not 0, which
  -- `create_pool` sees to.
  unfoldable pub activate : ThreadPool c → Option (ThreadPool c)
  activate p =
      if not (p.status == flag_hibernating) || not (p.status == flag_lazy_init)
      then some p
      else if p.status == flag_hibernating
      then unhibernate false p
      else fill_up p

  -- What the workers take from the queues while `remove_all` waits for them is no part of this call.
  unfoldable pub clear : ThreadPool c → Option (ThreadPool c)
  clear p =
      let status = p.status in
      let reset = not (status == flag_force_close) || not (status == flag_closing) in
      let resting = if reset then set_status c flag_rest p else p in
      elim (Manager.remove_all true resting.manager) [
        | none ↦ none
        | some m ↦
            let cleared = record resting { manager = m } in
            some (if reset then set_status c status cleared else cleared)
      ]

  unfoldable pub shut_down : Bool → ThreadPool c → Option (ThreadPool c)
  shut_down forced p =
      clear (set_status c (if not forced then flag_closing else flag_force_close) p)

  unfoldable pub close : ThreadPool c → Option (ThreadPool c)
  close p = shut_down false p

  unfoldable pub force_close : ThreadPool c → Option (ThreadPool c)
  force_close p = shut_down true p

  -- The fields go after the body, and with the manager its workers, one after another.
  abbrev drop_workers : List Worker → List Event
  drop_workers [] = []
  drop_workers (w ∷ ws) = Worker.drop w ++ drop_workers ws

  abbrev pub drop_manager : Manager → Manager
  drop_manager m = record m { workers = []; log = m.log ++ drop_workers m.workers }

  -- `Drop for ThreadPool`, up to the freeing of the status byte.
  unfoldable pub drop : ThreadPool c → Option (ThreadPool c)
  drop p =
      let (closing, status) = Status.closing p.status in
      let read = record p { status = status } in
      elim (if not closing then close read else some read) [
        | none ↦ none
        | some q ↦ some (record q { manager = drop_manager q.manager })
      ]
