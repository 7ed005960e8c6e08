-- ===== src/Tests/Systems.antt =====
-- The theorems on a pool and its workers together: one job that is submitted and executed, a job for
-- a closed pool, and a worker of a closing pool.
use thread_pool.Prelude.{
  length, ◌<◌, ◌++◌, ℕ, ◌+◌, ◌≡◌, refl, arith, true, false, [], ◌∷◌, none, some, ok, err, count,
  List,
}
use thread_pool.Model.{single_job, flag_closing}
use thread_pool.Idle.{IdleThreshold}
use thread_pool.Manager.Jobs.{Queues, at}
use thread_pool.Worker.Fetch.{fetch_work, unpack_message}
use thread_pool.Worker.Queues.{check_queues}
use thread_pool.Worker.Loop.{
  Clock, Thread, Round, Run, goes_on, round, main_loop, after_work, settle, handle_work, calc_idle,
}
use thread_pool.Pool.{ThreadPool, ExecutionError}
use thread_pool.Pool.Dispatch.{pick, dispatch, send}
use thread_pool.Pool.Life.{activate, shut_down}
use thread_pool.Pool.Exec.{exec, exec_on, scale}
use thread_pool.Pool.Blocking.{Reply, sync_block, sync_block_after_close}
use thread_pool.System.{
  System, Step, Reach, thread_of, after_round, submits, works, manages, here, next,
}
use thread_pool.System.Effects.{queued}
use thread_pool.System.Conservation.{jobs_conserved}
use thread_pool.System.Refinement.{Moves, box_of, system_refines}
use thread_pool.System.Draining.Rounds.{Drains}
use thread_pool.System.Draining.Together.{rounds}
use thread_pool.Worker.{Queue, pri, norm}
use thread_pool.Pool.Calls.{Call, perform}
use thread_pool.Pool.Delivering.{HasRoom}
use thread_pool.System.Leading.{Leads}
use thread_pool.System.Calling.{taken, perform-Leads}
use thread_pool.System.Using.{Use, asks, serves, use_one, uses}
use thread_pool.System.Using.Returning.{use_ids, uses_serve}
use thread_pool.Pool.Creation.{IsReady}
use thread_pool.System.Graceful.{closed_pool_finishes}
use thread_pool.System.Draining.{Drained, closing_worker_finishes}
use thread_pool.Tests.{buffers, buffers_fifo}
use thread_pool.Tests.Managers.{three}
use thread_pool.Tests.Pools.{pool, pool-IsReady}

abbrev begin : System buffers
begin = record {
  pool = pool 0;
  own = λ i. record { stat = 0; pri_work_count = 0; since = none };
  submitted = [];
  executed = [];
}

abbrev with_job : ThreadPool buffers
with_job = record (pool 0) {
  queues = record {
    pri_state = record { room = 16; held = single_job 5 ∷ [] };
    norm_state = record { room = 16; held = [] };
  };
}

abbrev submitted : System buffers
submitted = record begin { pool = with_job; submitted = 5 ∷ [] }

accepted : exec buffers 5 false (pool 0) ≡ some (ok tt, with_job)
unfolding exec exec_on scale activate dispatch send pick
accepted = refl

submits_job : Step buffers buffers_fifo begin submitted
unfolding pick
submits_job = submits 5 false with_job (omega arith) accepted refl

abbrev thresholds : IdleThreshold
thresholds = record { hibernate = 2; retire = 9 }

abbrev clock : Clock
clock = record { read = 5; set = 6; again = 7 }

abbrev worked : Round buffers
worked = record {
  thread = record (thread_of buffers 17 submitted) { second = record { room = 16; held = [] } };
  ran = 5 ∷ [];
  next = goes_on 0;
}

works_on : round buffers thresholds clock (thread_of buffers 17 submitted) ≡ some worked
unfolding round check_queues fetch_work unpack_message after_work settle handle_work calc_idle
works_on = refl

abbrev finished : System buffers
finished = after_round buffers 17 worked submitted

reached : Reach buffers buffers_fifo begin finished
reached = next (next here submits_job) (works 17 thresholds clock worked works_on refl)

jobs_conserved_example :
    count 5 finished.submitted
    ≡ count 5 (queued buffers buffers_fifo finished.pool) + count 5 finished.executed
jobs_conserved_example = jobs_conserved buffers buffers_fifo begin finished 5 (λ i. refl) reached

system_refines_example :
    Moves (box_of buffers buffers_fifo begin) (box_of buffers buffers_fifo finished)
system_refines_example = system_refines buffers buffers_fifo begin finished reached

sync_block_after_close_example :
    (q : ThreadPool buffers) × (shut_down buffers true (pool 0) ≡ some q)
    × (q.manager.workers ≡ [])
    × ((left : Queues buffers)
        → let later = record q { queues = left } in
          let queue = (pick buffers false later).0 in
          (exec buffers 5 false later ≡ some (err ExecutionError.disconnected, later))
          × (length (at buffers queue left).held < (at buffers queue left).room
              → (r : ThreadPool buffers) × (sync_block buffers {R = ℕ} 5 Reply.pending later
                  ≡ some (err ExecutionError.timeout, r))
                × ((at buffers queue r.queues).held
                    ≡ (at buffers queue left).held ++ single_job 5 ∷ [])
                × (r.manager.workers ≡ [])))
sync_block_after_close_example =
    sync_block_after_close buffers buffers_fifo {R = ℕ} true 5 Reply.pending (pool 0) pool-IsReady
      ((refl, refl), ((refl, refl), ((refl, refl), tt)))

-- A thread of a closing pool that is about to look at its second queue alone.
abbrev last : Thread buffers
last = record {
  my_id = 17;
  stat = 0;
  status = flag_closing;
  pri_work_count = 255;
  since = none;
  first = record { room = 16; held = single_job 7 ∷ single_job 8 ∷ [] };
  second = record { room = 16; held = [] };
}

last-Drains : Drains buffers buffers_fifo last
last-Drains = record {
  leaving = refl;
  unmarked = refl;
  no_clock = refl;
  first_plain = (tt, (tt, tt));
  second_plain = tt;
}

closing_worker_finishes_example :
    (run : Run buffers) × (main_loop buffers thresholds
        (clock ∷ clock ∷ clock ∷ clock ∷ clock ∷ clock ∷ [])
        last
      ≡ some run)
    × Drained buffers buffers_fifo last run
closing_worker_finishes_example =
    closing_worker_finishes buffers buffers_fifo thresholds
      (clock ∷ clock ∷ clock ∷ clock ∷ clock ∷ clock ∷ []) last last-Drains (omega arith)

-- A closing pool with one job, and rounds of two of its workers by turns.
abbrev shutting : System buffers
shutting = record begin { pool = record with_job { status = flag_closing } }

shutting-Drains : (id : ℕ) → Drains buffers buffers_fifo (thread_of buffers id shutting)
shutting-Drains id = record {
  leaving = refl;
  unmarked = refl;
  no_clock = refl;
  first_plain = tt;
  second_plain = (tt, tt);
}

room_in_both : (queue : Queue) → HasRoom buffers buffers_fifo queue (pool 0)
room_in_both pri = omega arith
room_in_both norm = omega arith

performed : perform buffers (Call.runs 5 false) (pool 0) ≡ some with_job
unfolding perform
performed = ground (arith, accepted)

perform-Leads_example :
    Leads buffers buffers_fifo begin (taken buffers (Call.runs 5 false) (pool 0)) with_job
    × ((i : ℕ)
        → count i (queued buffers buffers_fifo with_job)
          ≡ count i (taken buffers (Call.runs 5 false) (pool 0))
            + count i (queued buffers buffers_fifo (pool 0)))
perform-Leads_example =
    perform-Leads buffers buffers_fifo (Call.runs 5 false) begin with_job room_in_both performed

abbrev used : List Use
used = asks (Call.runs 5 false) begin.own ∷ serves 17 clock ∷ []

takes_job : taken buffers (Call.runs 5 false) (pool 0) ≡ 5 ∷ []
takes_job = ground (arith, accepted)

works_on_here :
    round buffers three.idle_threshold clock (thread_of buffers 17 submitted) ≡ some worked
unfolding round check_queues fetch_work unpack_message after_work settle handle_work calc_idle
works_on_here = refl

finishes : uses buffers used begin ≡ some finished
unfolding uses use_one
finishes = ground (arith, performed, takes_job, works_on_here)

ids_used : use_ids buffers used begin ≡ 3
unfolding use_ids use_one
ids_used = ground (arith, performed, takes_job, works_on_here)

uses_serve_example :
    (t : System buffers) × (uses buffers used begin ≡ some t)
    × IsReady buffers t.pool
    × ((i : ℕ)
        → count i t.submitted ≡ count i (queued buffers buffers_fifo t.pool) + count i t.executed)
uses_serve_example =
    uses_serve buffers buffers_fifo used begin pool-IsReady (λ e. absurd (ground arith)) (λ i. refl)
      (record { norm_plain = tt; pri_plain = tt }) (room_in_both, λ t e. λ u g. tt)
      (omega (arith, ids_used)) (tt, λ t e. (tt, λ u g. tt))

-- A pool that took a job before it was closed.
abbrev shut : System buffers
shut = record submitted { pool = record with_job { status = flag_closing } }

shut_reached : Reach buffers buffers_fifo begin shut
shut_reached = next (next here submits_job) (manages shut.pool submitted.own refl refl)

closed_pool_finishes_example :
    (u : System buffers) × (rounds buffers thresholds
        ((16, clock) ∷ (18, clock) ∷ (16, clock) ∷ (18, clock) ∷ [])
        shut
      ≡ some u)
    × (u.pool.queues.norm_state.held ≡ [])
    × (u.pool.queues.pri_state.held ≡ [])
    × ((i : ℕ) → count i u.executed ≡ count i shut.submitted)
closed_pool_finishes_example =
    closed_pool_finishes buffers buffers_fifo thresholds
      ((16, clock) ∷ (18, clock) ∷ (16, clock) ∷ (18, clock) ∷ []) (16 ∷ 18 ∷ []) begin shut
      (λ i. refl) (record { norm_plain = tt; pri_plain = tt }) shut_reached refl
      (λ id once. (refl, refl)) (refl, (refl, (refl, (refl, tt)))) (omega arith)
