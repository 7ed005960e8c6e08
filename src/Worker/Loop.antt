-- ===== src/Worker/Loop.antt =====
-- src/worker.rs, the main loop of `spawn_worker`, a round at a time. The clock is the time in
-- nanoseconds at each of its three readings in a round; between two rounds anything that is shared
-- may change.
use thread_pool.Prelude.{
  ℕ, ◌+◌, ◌-◌, ◌/◌, ◌%◌, Bool, true, false, ◌&&◌, ◌||◌, List, [], ◌∷◌, ◌++◌, Option, none, some,
  if◌then◌else◌, ◌==◌, leb,
}
use thread_pool.Model.{
  Job, flag_force_close, flag_closing, flag_rest, flag_hibernating, flag_sleep_workers,
}
use thread_pool.Model.Backoff.{minus_one}
use thread_pool.Channel.{Channel}
use thread_pool.Idle.{IdleThreshold, idle_stat}
use thread_pool.Status.{toggle_alone}
use thread_pool.Worker.Queues.{Checked, check_queues}

abbrev pub lot_counts : ℕ
lot_counts = 3

abbrev pub nanos : ℕ
nanos = 1000000000

-- `SystemTime::elapsed`: an error, and so nothing here, when the clock stands before `since`.
unfoldable pub calc_idle : Option ℕ → ℕ → Option ℕ
calc_idle none now = none
calc_idle (some s) now = if leb s now then some (now - s) else none

abbrev pub ran_jobs : Option Job → List Job
ran_jobs none = []
ran_jobs (some job) = job ∷ []

-- The job is run first; then the clock is read for the idle time, and again for the new `since`.
-- The result is the idle time, the new `since` and the jobs run.
unfoldable pub handle_work : Option Job → Option ℕ → ℕ → ℕ → Option ℕ × Option ℕ × List Job
handle_work work none read set = (none, none, ran_jobs work)
handle_work work (some s) read set = (calc_idle (some s) read, some set, ran_jobs work)

pub record Clock : Type 0 where
  pub read : ℕ
  pub set : ℕ
  pub again : ℕ

-- The waits of a worker by its number.
unfoldable pub waits_of : ℕ → Bool × Bool
waits_of my_id =
    if my_id % lot_counts == 0
    then (true, false)
    else if my_id % lot_counts == 1
    then (false, true)
    else (false, false)

-- A thread's own variables, its counter `worker_stat`, the status byte, and its two channels.
pub record Thread (c : Channel) : Type 0 where
  pub my_id : ℕ
  pub stat : ℕ
  pub status : ℕ
  pub pri_work_count : ℕ
  pub since : Option ℕ
  pub first : c.State
  pub second : c.State

-- After a round the thread returns, or parks so many times and then goes on.
pub data Next : Type 0 where
  quits : Next
  goes_on : (parks : ℕ) → Next

pub record Round (c : Channel) : Type 0 where
  pub thread : Thread c
  pub ran : List Job
  pub next : Next

abbrev pub or_else : Option ℕ → Option ℕ → Option ℕ
or_else none b = b
or_else (some a) b = some a

-- The code of the idle time, 0 if there is none.
abbrev pub code_of : IdleThreshold → Option ℕ → ℕ
code_of idle none = 0
code_of idle (some period) = idle_stat idle (period / nanos)

module _ (c : Channel) where
  abbrev pub may_leave : Thread c → Bool
  may_leave t =
      t.status == flag_force_close
      || ((t.status == flag_closing || t.status == flag_rest)
          && c.is_empty t.first
          && c.is_empty t.second)

  -- From the idle code on: a code above 0 goes to the counter; 1 parks the thread, 2 ends it. The
  -- park for hibernation goes by the status as it was loaded when the round began.
  unfoldable pub settle : Thread c → ℕ → List Job → Round c
  settle t code ran =
      let parks = if t.status == flag_hibernating then 1 else 0 in
      if code == 0
      then record { thread = t; ran = ran; next = goes_on parks }
      else if code == 1
      then record {
        thread = record t { stat = 1; status = toggle_alone t.status flag_sleep_workers true };
        ran = ran;
        next = goes_on (1 + parks);
      }
      else record { thread = record t { stat = code }; ran = ran; next = quits }

  -- `handle_work(…).or_else(…).and_then(…)`.
  unfoldable pub after_work : IdleThreshold → Clock → Thread c → Option Job → Round c
  after_work idle clock t work =
      let (idled, since, ran) = handle_work work t.since clock.read clock.set in
      settle (record t { since = since })
        (code_of idle (or_else idled (calc_idle since clock.again))) ran

  -- The thread with what a check of its queues left.
  abbrev pub with_checked : Thread c → Checked c → Thread c
  with_checked t k = record t {
    pri_work_count = k.pri_work_count;
    first = k.first;
    second = k.second;
  }

  -- One round of the loop; `none` is a panic.
  unfoldable pub round : IdleThreshold → Clock → Thread c → Option (Round c)
  round idle clock t =
      if t.stat == 1
      then some (record { thread = t; ran = []; next = quits })
      else if may_leave t
      then some (record { thread = record t { stat = 1 }; ran = []; next = quits })
      else let (pri_wait, norm_wait) = waits_of t.my_id in
        elim (check_queues c t.pri_work_count t.first t.second pri_wait norm_wait) [
          | none ↦ none
          | some k ↦
              let u = with_checked t k in
              if k.work.code == minus_one
              then some (record { thread = record u { stat = 1 }; ran = []; next = quits })
              else some (after_work idle clock u k.work.job)
        ]

-- What the thread of a worker has done by itself after some rounds.
pub record Run (c : Channel) : Type 0 where
  pub thread : Thread c
  pub ran : List Job
  pub returned : Bool

module _ (c : Channel) where
  abbrev pub after_ran : List Job → Option (Run c) → Option (Run c)
  after_ran ran none = none
  after_ran ran (some run) = some (record run { ran = ran ++ run.ran })

  -- The loop while no other thread writes what is shared, for a round at each clock; a park returns
  -- at once.
  unfoldable pub main_loop : IdleThreshold → List Clock → Thread c → Option (Run c)
  unfolding round
  main_loop idle [] t = some (record { thread = t; ran = []; returned = false })
  main_loop idle (clock ∷ clocks) t = elim (round c idle clock t) [
    | none ↦ none
    | some r ↦ elim r.next [
      | quits ↦ some (record { thread = r.thread; ran = r.ran; returned = true })
      | goes_on parks ↦ after_ran r.ran (main_loop idle clocks r.thread)
    ]
  ]
