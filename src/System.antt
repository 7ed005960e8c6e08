-- ===== src/System.antt =====
-- src/pool.rs and src/worker.rs together: one pool, any number of worker threads, and a caller, in
-- any order of their steps. A round of a worker is one step, and so is a call that hands a job or a
-- termination message to a queue; a blocking send waits, so it takes its step when there is room.
pub mod Jobs
pub mod Accepting
pub mod Effects
pub mod Conservation
pub mod Refinement
pub mod Draining
pub mod Leading
pub mod Calling
pub mod Using
pub mod Messages
pub mod Graceful
use thread_pool.Prelude.{
  ℕ, ◌≡◌, ◌<◌, Bool, false, List, [], ◌∷◌, ◌++◌, Option, none, some, Result, ok, if◌then◌else◌,
  ◌==◌,
}
use thread_pool.Model.{Job}
use thread_pool.Channel.{Channel, IsFifo}
use thread_pool.Idle.{IdleThreshold}
use thread_pool.Worker.{Queue, pri, norm}
use thread_pool.Worker.Loop.{Thread, Clock, Round, round}
use thread_pool.Manager.{Manager}
use thread_pool.Manager.Jobs.{at}
use thread_pool.Pool.{ExecutionError, ThreadPool}
use thread_pool.Pool.Dispatch.{pick}
use thread_pool.Pool.Exec.{exec, execute}
use thread_pool.Pool.Delivering.{HasRoom}
use thread_pool.Pool.Blocking.{Reply, sync_block}
use thread_pool.Pool.Executing.{own_priority}
use thread_pool.Pool.Resizing.{send_terminate}

-- What a thread of a worker has for itself: its counter, shared with its handle, and the variables
-- of its loop.
pub record Own : Type 0 where
  pub stat : ℕ
  pub pri_work_count : ℕ
  pub since : Option ℕ

-- `submitted` and `executed` are the jobs so far, the last one first.
pub record System (c : Channel) : Type 0 where
  pub pool : ThreadPool c
  pub own : ℕ → Own
  pub submitted : List Job
  pub executed : List Job

module _ (c : Channel) where
  -- The thread of the worker with an id: it shares the status byte and the channels, and its
  -- receivers stand in the order that `add_workers` hands them over, the normal queue first.
  abbrev pub thread_of : ℕ → System c → Thread c
  thread_of id s = record {
    my_id = id;
    stat = (s.own id).stat;
    status = s.pool.status;
    pri_work_count = (s.own id).pri_work_count;
    since = (s.own id).since;
    first = s.pool.queues.norm_state;
    second = s.pool.queues.pri_state;
  }

  abbrev pub own_of : Thread c → Own
  own_of t = record { stat = t.stat; pri_work_count = t.pri_work_count; since = t.since }

  abbrev pub set_own : ℕ → Own → (ℕ → Own) → ℕ → Own
  set_own id o own i = if i == id then o else own i

  -- The system after a round of one worker.
  abbrev pub after_round : ℕ → Round c → System c → System c
  after_round id r s = record {
    pool = record s.pool {
      status = r.thread.status;
      queues = record { pri_state = r.thread.second; norm_state = r.thread.first };
    };
    own = set_own id (own_of r.thread) s.own;
    submitted = s.submitted;
    executed = r.ran ++ s.executed;
  }

module _ (c : Channel) (fifo : IsFifo c) where
  -- `submits` is a call of `exec` that succeeds, `enqueues` one of `execute`, and `waits` one of
  -- `sync_block`, whatever its answer, each once its queue has room; `works` is a round; `informs`
  -- is the message of `shrink` and `kill_worker`; `manages` is anything that leaves the queues
  -- alone, such as a change of the workers, of their counters, of the status or of a setting.
  pub data Step (s t : System c) : Type 0 where
    submits :
        (f : Job) (prioritized : Bool) (q : ThreadPool c)
        → HasRoom c fifo (pick c prioritized s.pool).0 s.pool
        → exec c f prioritized s.pool ≡ some (ok tt, q)
        → t ≡ record s { pool = q; submitted = f ∷ s.submitted }
        → Step s t
    enqueues :
        (f : Job) (q : ThreadPool c)
        → HasRoom c fifo (pick c (own_priority c s.pool) s.pool).0 s.pool
        → execute c f s.pool ≡ some (ok tt, q)
        → t ≡ record s { pool = q; submitted = f ∷ s.submitted }
        → Step s t
    waits :
        (f : Job) (reply : Reply (Unit {0})) (r : Result (Unit {0}) ExecutionError)
        (q : ThreadPool c)
        → HasRoom c fifo (pick c false s.pool).0 s.pool
        → sync_block c f reply s.pool ≡ some (r, q)
        → t ≡ record s { pool = q; submitted = f ∷ s.submitted }
        → Step s t
    works :
        (id : ℕ) (idle : IdleThreshold) (clock : Clock) (r : Round c)
        → round c idle clock (thread_of c id s) ≡ some r
        → t ≡ after_round c id r s
        → Step s t
    informs :
        (ids : List ℕ) (q : ThreadPool c)
        → HasRoom c fifo s.pool.chan.0 s.pool
        → send_terminate c ids s.pool ≡ some q
        → t ≡ record s { pool = q }
        → Step s t
    manages :
        (p : ThreadPool c) (own : ℕ → Own)
        → p.queues ≡ s.pool.queues
        → t ≡ record s { pool = p; own = own }
        → Step s t

  pub data Reach (s : System c) : System c → Type 0 where
    here : Reach s s
    next : {t u : System c} → Reach s t → Step t u → Reach s u
