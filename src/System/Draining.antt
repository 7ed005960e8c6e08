-- ===== src/System/Draining.antt =====
-- src/worker.rs, the main loop in a closing pool: the queues are worked off before the thread
-- returns.
pub mod Rounds
pub mod Together
use thread_pool.Prelude.{
  ℕ, ◌+◌, ◌*◌, ◌≤◌, ◌<◌, ◌≡◌, refl, sym, ap, ap₂, inl, inr, true, false, ◌||◌, List, [], ◌∷◌, ◌++◌,
  Option, none, some, Option-cases, Bool-cases, if◌then◌else◌, ◌==◌, ltb, count, length, All, arith,
  subst,
}
use thread_pool.Model.{Job, Message, flag_closing, flag_rest}
use thread_pool.Channel.{Channel, IsFifo}
use thread_pool.Idle.{IdleThreshold}
use thread_pool.Worker.Queues.{Checked, check_queues}
use thread_pool.Worker.Serving.{Serves, from_first, from_second, nothing, check_queues-Serves}
use thread_pool.Worker.Fairness.{Unpackable, check_queues_returns}
use thread_pool.Worker.Loop.{
  Clock, Thread, quits, goes_on, Round, Run, ran_jobs, may_leave, with_checked, settle, after_work,
  round, main_loop, waits_of,
}
use thread_pool.Worker.Rounds.{after_work_lem, not_broken}
use thread_pool.Worker.Exit.{Took-Serves}
use thread_pool.System.Jobs.{jobs_in, jobs_at, count-Took, count-append}
use thread_pool.System.Draining.Rounds.{
  no_messages, Drains, waiting, effort, jobs_for, Advances, round-Advances, round_leaves,
}

module _ (c : Channel) (fifo : IsFifo c) where
  open fifo use {contents}

  -- What the loop leaves once it has returned.
  pub record Drained (t : Thread c) (run : Run c) : Type 0 where
    pub returned : run.returned ≡ true
    pub first_empty : contents run.thread.first ≡ []
    pub second_empty : contents run.thread.second ≡ []
    pub marked : run.thread.stat ≡ 1
    pub jobs_run : (i : ℕ) → count i run.ran ≡ count i (jobs_for c fifo t)

  leaves-Drained :
      (t : Thread c)
      → waiting c fifo t ≡ 0
      → Drained t (record { thread = record t { stat = 1 }; ran = []; returned = true })
  leaves-Drained t none_left =
      let first = no_messages (contents t.first) (omega (arith, none_left)) in
      let second = no_messages (contents t.second) (omega (arith, none_left)) in
      record {
        returned = refl;
        first_empty = first;
        second_empty = second;
        marked = refl;
        jobs_run = λ i. sym (
            ap₂ (λ (ms : List Message) (ns : List Message). count i (jobs_in ms ++ jobs_in ns))
              first second);
      }

  Advances-Drained :
      (idle : IdleThreshold) (clock : Clock) (t : Thread c) (r : Round c) (run : Run c)
      → Advances c fifo idle clock t r
      → Drained r.thread run
      → Drained t (record run { ran = r.ran ++ run.ran })
  Advances-Drained idle clock t r run a d = record {
    returned = d.returned;
    first_empty = d.first_empty;
    second_empty = d.second_empty;
    marked = d.marked;
    jobs_run = λ i. omega (arith, count-append i r.ran run.ran, d.jobs_run i, a.jobs i);
  }

  main_loop-Drained :
      (idle : IdleThreshold) (clocks : List Clock) (t : Thread c)
      → Drains c fifo t
      → effort c fifo t < length clocks
      → (run : Run c) × (main_loop c idle clocks t ≡ some run) × Drained t run
  unfolding main_loop
  main_loop-Drained idle [] t d enough = absurd (omega (arith, enough))
  main_loop-Drained idle (clock ∷ clocks) t d enough = elim (Bool-cases (waiting c fifo t == 0)) [
    | inl gone ↦
        let none_left : waiting c fifo t ≡ 0 = ground (arith, gone) in
        (
          record { thread = record t { stat = 1 }; ran = []; returned = true },
          ground (arith, round_leaves c fifo idle clock t d none_left),
          leaves-Drained t none_left,
        )
    | inr more ↦
        let some_left : 0 < waiting c fifo t = ground (arith, more) in
        let (r, a) = round-Advances c fifo idle clock t d some_left in
        let fewer : effort c fifo r.thread < length clocks = omega (arith, a.less, enough) in
        let (run, later, drained) = main_loop-Drained idle clocks r.thread a.drains fewer in
        (
          record run { ran = r.ran ++ run.ran },
          ground (arith, a.runs, a.on, later),
          Advances-Drained idle clock t r run a drained,
        )
  ]

  -- Over channels that keep their documented order: the thread of a worker of a pool that is closing
  -- or at rest, without a clock and not told to stop, whose queues hold no chained message, returns
  -- by itself. It does so within two rounds for a message and two more; by then both queues are
  -- empty, and it has run each job as often as it waited there.
  pub closing_worker_finishes :
      (idle : IdleThreshold) (clocks : List Clock) (t : Thread c)
      → Drains c fifo t
      → 2 * waiting c fifo t + 2 ≤ length clocks
      → (run : Run c) × (main_loop c idle clocks t ≡ some run) × Drained t run
  closing_worker_finishes idle clocks t d enough =
      main_loop-Drained idle clocks t d (ground (arith, enough))
