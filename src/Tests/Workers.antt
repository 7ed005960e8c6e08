-- ===== src/Tests/Workers.antt =====
-- src/worker.rs: the theorems on a worker's rounds, at concrete queues.
use thread_pool.Prelude.{
  ℕ, ◌-◌, ◌/◌, ◌≤◌, ◌≡◌, ◌⊎◌, refl, arith, true, false, List, [], ◌∷◌, Option, none, some, inl,
}
use thread_pool.Model.{Message, single_job, flag_force_close, flag_closing, flag_rest}
use thread_pool.Status.{toggle_alone}
use thread_pool.Idle.{IdleThreshold, Passed, idle_stat}
use thread_pool.Worker.Fetch.{fetch_work, unpack_message}
use thread_pool.Worker.Queues.{WorkStatus, Checked, check_queues}
use thread_pool.Worker.Serving.{Serves, check_queues-Serves}
use thread_pool.Worker.Fairness.{Pressed, ServedWithin, second_queue_served, check_queues_range}
use thread_pool.Worker.Loop.{
  Thread, Clock, Round, quits, goes_on, round, ran_jobs, after_work, settle, handle_work, calc_idle,
}
use thread_pool.Worker.Exit.{Took, round_runs_what_it_takes, quits_because}
use thread_pool.Tests.{Buffer, buffers, buffers_fifo}

abbrev held : List Message → Buffer
held ms = record { room = 1; held = ms }

abbrev turn : Buffer × Buffer
turn = (held (single_job 1 ∷ []), held (single_job 2 ∷ []))

pressed : Pressed buffers buffers_fifo turn
pressed = record {
  full = refl;
  waiting = λ e. ground (arith, e);
  first_plain = tt;
  second_plain = tt;
}

second_queue_served_example :
    ServedWithin buffers buffers_fifo false true 0 (turn ∷ turn ∷ turn ∷ turn ∷ turn ∷ turn ∷ [])
second_queue_served_example =
    second_queue_served buffers buffers_fifo false true 0
      (turn ∷ turn ∷ turn ∷ turn ∷ turn ∷ turn ∷ []) (inl (omega arith))
      (pressed, (pressed, (pressed, (pressed, (pressed, (pressed, tt)))))) (omega arith)

-- The check that takes job 1 with the counter at 4, and leaves 255.
abbrev after_four : Checked buffers
after_four = record {
  work = record { code = 0; job = some 1 };
  pri_work_count = 255;
  first = held [];
  second = held (single_job 2 ∷ []);
}

four_checked : check_queues buffers 4 turn.0 turn.1 false true ≡ some after_four
unfolding check_queues fetch_work unpack_message
four_checked = refl

check_queues-Serves_example : Serves buffers buffers_fifo 4 turn.0 turn.1 after_four
check_queues-Serves_example =
    check_queues-Serves buffers buffers_fifo 4 turn.0 turn.1 false true after_four four_checked

check_queues_range_example : (after_four.pri_work_count ≤ 4) ⊎ (after_four.pri_work_count ≡ 255)
check_queues_range_example =
    check_queues_range buffers buffers_fifo false true 4 turn.0 turn.1 after_four
      (inl (omega arith)) four_checked

abbrev thresholds : IdleThreshold
thresholds = record { hibernate = 2; retire = 9 }

-- A round that ends five seconds after the last one.
abbrev late : Clock
late = record { read = 5000000000; set = 5000000000; again = 5000000000 }

abbrev at_work : ℕ → Option ℕ → Thread buffers
at_work stat since = record {
  my_id = 17;
  stat = stat;
  status = 0;
  pri_work_count = 0;
  since = since;
  first = held (single_job 1 ∷ []);
  second = held [];
}

-- What the thread is after it has taken job 1.
abbrev worked : ℕ → ℕ → Option ℕ → Thread buffers
worked stat status since = record {
  my_id = 17;
  stat = stat;
  status = status;
  pri_work_count = 1;
  since = since;
  first = held [];
  second = held [];
}

abbrev asleep : Round buffers
asleep = record { thread = worked 1 32 (some 5000000000); ran = 1 ∷ []; next = goes_on 1 }

falls_asleep : round buffers thresholds late (at_work 0 (some 0)) ≡ some asleep
unfolding round check_queues fetch_work unpack_message after_work settle handle_work calc_idle
    idle_stat toggle_alone
falls_asleep = refl

round_runs_what_it_takes_example :
    (w : WorkStatus) × Took buffers buffers_fifo (at_work 0 (some 0)) asleep.thread w
    × (1 ∷ [] ≡ ran_jobs w.job)
round_runs_what_it_takes_example =
    round_runs_what_it_takes buffers buffers_fifo thresholds late (at_work 0 (some 0)) asleep
      (omega arith) falls_asleep

abbrev stayed : Round buffers
stayed = record { thread = worked 0 0 none; ran = 1 ∷ []; next = goes_on 0 }

stays : round buffers thresholds late (at_work 0 none) ≡ some stayed
unfolding round check_queues fetch_work unpack_message after_work settle handle_work calc_idle
    idle_stat toggle_alone
stays = refl

-- A thread of a closing pool, with nothing left to do.
abbrev done : Thread buffers
done = record (worked 0 1 none) { pri_work_count = 0 }

abbrev left : Round buffers
left = record { thread = record done { stat = 1 }; ran = []; next = quits }

leaves_closing : round buffers thresholds late done ≡ some left
unfolding round check_queues fetch_work unpack_message after_work settle handle_work calc_idle
    idle_stat toggle_alone
leaves_closing = refl

quits_because_example :
    (done.status ≡ flag_force_close)
    ⊎ (((done.status ≡ flag_closing) ⊎ (done.status ≡ flag_rest))
        × (done.first.held ≡ [])
        × (done.second.held ≡ []))
    ⊎ ((s : ℕ) × (done.since ≡ some s) × Passed 9 ((5000000000 - s) / 1000000000))
quits_because_example =
    quits_because buffers buffers_fifo thresholds late done left (omega arith) (λ s e. cc)
      leaves_closing refl
