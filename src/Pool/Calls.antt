-- ===== src/Pool/Calls.antt =====
-- src/pool.rs: the calls of a pool's user, in any order.
pub mod Frame
pub mod Keeping
pub mod Submitting
pub mod Returning
pub mod Ready
pub mod Answering
pub mod Lazy
use thread_pool.Prelude.{ℕ, Bool, List, [], ◌∷◌, Option, none, some}
use thread_pool.Model.{Job}
use thread_pool.Channel.{Channel}
use thread_pool.Pool.{ThreadPool, set_exec_timeout, toggle_blocking, toggle_auto_scale}
use thread_pool.Pool.Life.{hibernate, unhibernate, activate, clear, shut_down}
use thread_pool.Pool.Exec.{exec, execute}
use thread_pool.Pool.Blocking.{Reply, sync_block}
use thread_pool.Pool.Resizing.{
  extend, shrink, resize, auto_adjust, auto_expire, kill_worker, set_queue_size_threshold,
}

-- The job of `blocks` answers with no more than that it ran.
pub data Call : Type 0 where
  runs : Job → (prioritized : Bool) → Call
  queues : Job → Call
  blocks : Job → Reply (Unit {0}) → Call
  extends shrinks resizes kills : ℕ → Call
  adjusts hibernates activates clears : Call
  wakes : (spurious : Bool) → Call
  expires : (life : Option ℕ) → Call
  closes : (forced : Bool) → Call
  limits : (period : Option ℕ) → Call
  toggles_blocking toggles_scale : Bool → Call
  caps : (threshold : ℕ) → Call

module _ (c : Channel) where
  -- The pool that a call leaves, whatever it answers.
  abbrev pub pool_after : {A : Type 0} → Option (A × ThreadPool c) → Option (ThreadPool c)
  pool_after none = none
  pool_after (some r) = some r.1

  unfoldable pub perform : Call → ThreadPool c → Option (ThreadPool c)
  perform (runs f prioritized) p = pool_after (exec c f prioritized p)
  perform (queues f) p = pool_after (execute c f p)
  perform (blocks f reply) p = pool_after (sync_block c f reply p)
  perform (extends more) p = extend c more p
  perform (shrinks less) p = shrink c less p
  perform (resizes target) p = resize c target p
  perform (kills id) p = kill_worker c id p
  perform adjusts p = auto_adjust c p
  perform hibernates p = some (hibernate c p)
  perform (wakes spurious) p = unhibernate c spurious p
  perform activates p = activate c p
  perform clears p = clear c p
  perform (expires life) p = some (auto_expire c life p)
  perform (closes forced) p = shut_down c forced p
  perform (limits period) p = some (set_exec_timeout c period p)
  perform (toggles_blocking non_blocking) p = some (toggle_blocking c non_blocking p)
  perform (toggles_scale auto_scale) p = some (toggle_auto_scale c auto_scale p)
  perform (caps threshold) p = some (set_queue_size_threshold c threshold p)

  unfoldable pub perform_all : List Call → ThreadPool c → Option (ThreadPool c)
  unfolding perform
  perform_all [] p = some p
  perform_all (call ∷ calls) p = elim (perform call p) [
    | none ↦ none
    | some q ↦ perform_all calls q
  ]
