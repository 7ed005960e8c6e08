-- ===== src/Worker/Rounds.antt =====
-- src/worker.rs, the main loop: how one round may go, for the theorems on rounds.
use thread_pool.Prelude.{
  ℕ, ◌-◌, ◌/◌, ◌≤◌, ◌≡◌, ap, ◌≢◌, ◌⊎◌, inl, inr, Bool, true, false, List, [], Option, none, some,
  if◌then◌else◌, leb, ◌==◌, arith, Bool-cases, Option-cases, length,
}
use thread_pool.Model.{Job, flag_hibernating}
use thread_pool.Model.Backoff.{minus_one}
use thread_pool.Channel.{Channel, IsFifo}
use thread_pool.Idle.{IdleThreshold, idle_stat, idle_stat_codes}
use thread_pool.Worker.Queues.{Checked, check_queues}
use thread_pool.Worker.Serving.{List-cases, from_first, from_second, nothing, check_queues-Serves}
use thread_pool.Worker.Loop.{
  Clock, Thread, quits, goes_on, Round, calc_idle, handle_work, ran_jobs, waits_of, may_leave,
  with_checked, settle, after_work, round, nanos,
}

-- The idle code of a round by the `since` that it finds: with none there is no code; the first
-- reading of the clock counts, or else the readings within the round, should it have been set back.
abbrev pub idle_code : IdleThreshold → Clock → Option ℕ → ℕ
idle_code idle clock none = 0
idle_code idle clock (some s) =
    if leb s clock.read
    then idle_stat idle ((clock.read - s) / nanos)
    else if leb clock.set clock.again
    then idle_stat idle ((clock.again - clock.set) / nanos)
    else 0

abbrev pub since_after : Clock → Option ℕ → Option ℕ
since_after clock none = none
since_after clock (some s) = some clock.set

pub idle_code_le :
    (idle : IdleThreshold) (clock : Clock) (since : Option ℕ) → idle_code idle clock since ≤ 2
idle_code_le idle clock none = omega arith
idle_code_le idle clock (some s) = ground (
  arith,
  (idle_stat_codes idle ((clock.read - s) / nanos)).2,
  (idle_stat_codes idle ((clock.again - clock.set) / nanos)).2,
)

module _ (c : Channel) where
  pub settle_lem :
      (t : Thread c) (code : ℕ) (ran : List Job)
      → code ≤ 2
      → ((settle c t code ran).next ≡ quits → (code ≡ 2) × ((settle c t code ran).thread.stat ≡ 2))
        × ((n : ℕ)
            → (settle c t code ran).next ≡ goes_on n
            → ((code ≡ 0) × ((settle c t code ran).thread.stat ≡ t.stat))
              ⊎ ((code ≡ 1) × ((settle c t code ran).thread.stat ≡ 1)))
  unfolding settle
  settle_lem t code ran h = (λ e. ground arith, λ n e. ground arith)

  pub settle_keeps :
      (t : Thread c) (code : ℕ) (ran : List Job)
      → let r = settle c t code ran in
        (r.ran ≡ ran)
        × (r.thread.since ≡ t.since)
        × (r.thread.first ≡ t.first)
        × (r.thread.second ≡ t.second)
  unfolding settle
  settle_keeps t code ran = ground arith

  pub settle_stat :
      (t : Thread c) (code : ℕ) (ran : List Job)
      → code ≤ 2
      → ((settle c t code ran).thread.stat ≡ (if code == 0 then t.stat else code))
        × (code ≡ 0 → (n : ℕ) × ((settle c t code ran).next ≡ goes_on n))
  unfolding settle
  settle_stat t code ran h =
      (ground arith, λ z. (if t.status == flag_hibernating then 1 else 0, ground arith))

  -- The work is run, and the rest of the round goes by the code of the idle time alone.
  pub after_work_lem :
      (idle : IdleThreshold) (clock : Clock) (t : Thread c) (work : Option Job)
      → after_work c idle clock t work
        ≡ settle c
            (record t { since = since_after clock t.since })
            (idle_code idle clock t.since)
            (ran_jobs work)
  unfolding after_work handle_work calc_idle
  after_work_lem idle clock t work = ground arith

  -- How a round that is not told to stop may go.
  pub data Goes (idle : IdleThreshold) (clock : Clock) (t : Thread c) (r : Round c) : Type 0 where
    leaves :
        may_leave c t ≡ true
        → r ≡ record { thread = record t { stat = 1 }; ran = []; next = quits }
        → Goes idle clock t r
    breaks :
        (k : Checked c)
        → check_queues c t.pri_work_count t.first t.second (waits_of t.my_id).0 (waits_of t.my_id).1
          ≡ some k
        → k.work.code ≡ minus_one
        → r ≡ record { thread = record (with_checked c t k) { stat = 1 }; ran = []; next = quits }
        → Goes idle clock t r
    works :
        (k : Checked c)
        → may_leave c t ≡ false
        → check_queues c t.pri_work_count t.first t.second (waits_of t.my_id).0 (waits_of t.my_id).1
          ≡ some k
        → r ≡ after_work c idle clock (with_checked c t k) k.work.job
        → Goes idle clock t r

  pub round-Goes :
      (idle : IdleThreshold) (clock : Clock) (t : Thread c) (r : Round c)
      → t.stat ≢ 1
      → round c idle clock t ≡ some r
      → Goes idle clock t r
  unfolding round
  round-Goes idle clock t r go e = elim (Bool-cases (may_leave c t)) [
    | inl leave ↦ leaves leave (ground arith)
    | inr stay ↦
        elim (Option-cases (
          check_queues c t.pri_work_count t.first t.second (waits_of t.my_id).0
            (waits_of t.my_id).1)) [
              | inl panics ↦ absurd (ground arith)
              | inr (k, checked) ↦ elim (Bool-cases (k.work.code == minus_one)) [
                | inl broken ↦ breaks k checked (ground arith) (ground arith)
                | inr fine ↦ works k stay checked (ground arith)
              ]
            ]
  ]

-- Channels whose ends are alive never disconnect, so no round breaks off.
pub not_broken :
    (c : Channel) (fifo : IsFifo c) (count : ℕ) (first second : c.State) (pri_wait norm_wait : Bool)
    (k : Checked c)
    → check_queues c count first second pri_wait norm_wait ≡ some k
    → k.work.code ≢ minus_one
not_broken c fifo count first second pri_wait norm_wait k e broken =
    elim (check_queues-Serves c fifo count first second pri_wait norm_wait k e) [
      | from_first below takes same counter ↦ absurd (omega (arith, takes.2.0))
      | from_second skip same takes counter ↦ absurd (omega (arith, takes.2.0))
      | nothing skip gone same still code job counter ↦ absurd (omega arith)
    ]

pub empty_contents :
    (c : Channel) (fifo : IsFifo c) (s : c.State) → c.is_empty s ≡ true → fifo.contents s ≡ []
empty_contents c fifo s e = elim (List-cases (fifo.contents s)) [
  | inl gone ↦ gone
  | inr (m, ms, more) ↦
      absurd (ground (arith, fifo.is_empty_len s, fifo.len_contents s, ap length more))
]
