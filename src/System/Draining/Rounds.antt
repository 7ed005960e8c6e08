-- ===== src/System/Draining/Rounds.antt =====
-- src/worker.rs, the main loop in a closing pool, a round at a time.
use thread_pool.Prelude.{
  ℕ, ◌+◌, ◌*◌, ◌<◌, ◌≡◌, refl, sym, ap, inl, inr, true, false, ◌||◌, List, [], ◌∷◌, ◌++◌, Option,
  none, some, Option-cases, if◌then◌else◌, ◌==◌, ltb, count, length, All, arith, subst,
}
use thread_pool.Model.{Job, Message, flag_closing, flag_rest}
use thread_pool.Channel.{Channel, IsFifo}
use thread_pool.Idle.{IdleThreshold}
use thread_pool.Worker.Queues.{Checked, check_queues}
use thread_pool.Worker.Serving.{Serves, from_first, from_second, nothing, check_queues-Serves}
use thread_pool.Worker.Fairness.{Unpackable, check_queues_returns}
use thread_pool.Worker.Loop.{
  Clock, Thread, quits, goes_on, Round, ran_jobs, may_leave, with_checked, settle, after_work,
  round, waits_of,
}
use thread_pool.Worker.Rounds.{after_work_lem, not_broken}
use thread_pool.Worker.Exit.{Took-Serves}
use thread_pool.System.Jobs.{jobs_at, count-Took}

pub no_messages : (ms : List Message) → length ms ≡ 0 → ms ≡ []
no_messages [] h = refl
no_messages (m ∷ ms) h = absurd (omega (arith, h))

module _ (c : Channel) (fifo : IsFifo c) where
  open fifo use {contents}

  -- A message that `unpack_message` can take.
  abbrev pub IsPlain : Message → Type 0
  IsPlain m = Unpackable (m ∷ [])

  -- A worker of a pool that is closing or at rest, without a clock and not told to stop, whose
  -- queues hold no chained messages.
  pub record Drains (t : Thread c) : Type 0 where
    pub leaving : (t.status == flag_closing || t.status == flag_rest) ≡ true
    pub unmarked : t.stat ≡ 0
    pub no_clock : t.since ≡ none
    pub first_plain : All IsPlain (contents t.first)
    pub second_plain : All IsPlain (contents t.second)

  abbrev pub waiting : Thread c → ℕ
  waiting t = length (contents t.first) + length (contents t.second)

  -- Rounds that are still needed: two for a message, since one round may look at the second queue
  -- alone.
  abbrev pub effort : Thread c → ℕ
  effort t = 2 * waiting t + (if ltb t.pri_work_count 255 then 0 else 1)

  pub plain-Unpackable : (ms : List Message) → All IsPlain ms → Unpackable ms
  plain-Unpackable [] h = tt
  plain-Unpackable (Message.single_job job ∷ ms) h = tt
  plain-Unpackable (Message.chained_jobs jobs ∷ ms) h = h.0
  plain-Unpackable (Message.terminate ids ∷ ms) h = tt

  pub empty_len : (s : c.State) → c.is_empty s ≡ (length (contents s) == 0)
  empty_len s = ground (arith, fifo.is_empty_len s, fifo.len_contents s)

  rest-IsPlain :
      {ms ns : List Message} {m : Message} → ms ≡ m ∷ ns → All IsPlain ms → All IsPlain ns
  rest-IsPlain e h = (subst (All IsPlain) e h).1

  -- What a check leaves of the effort, and of the messages.
  checked-Drains :
      (t : Thread c) (k : Checked c)
      → Drains t
      → 0 < waiting t
      → Serves c fifo t.pri_work_count t.first t.second k
      → (effort (with_checked c t k) < effort t) × Drains (with_checked c t k)
  checked-Drains t k d some_left (from_first below (m, e, unpacks) same counter) = (
    ground (
      arith,
      counter,
      ap (λ (l : List Message). length l) e,
      ap (λ (l : List Message). length l) same,
    ),
    record {
      leaving = d.leaving;
      unmarked = d.unmarked;
      no_clock = d.no_clock;
      first_plain = rest-IsPlain e d.first_plain;
      second_plain = subst (All IsPlain) (sym same) d.second_plain;
    },
  )
  checked-Drains t k d some_left (from_second skip same (m, e, unpacks) counter) = (
    ground (
      arith,
      counter,
      ap (λ (l : List Message). length l) e,
      ap (λ (l : List Message). length l) same,
    ),
    record {
      leaving = d.leaving;
      unmarked = d.unmarked;
      no_clock = d.no_clock;
      first_plain = subst (All IsPlain) (sym same) d.first_plain;
      second_plain = rest-IsPlain e d.second_plain;
    },
  )
  checked-Drains t k d some_left (nothing skip gone same still code job counter) = (
    ground (
      arith,
      counter,
      skip,
      ap (λ (l : List Message). length l) same,
      ap (λ (l : List Message). length l) still,
      ap (λ (l : List Message). length l) gone,
    ),
    record {
      leaving = d.leaving;
      unmarked = d.unmarked;
      no_clock = d.no_clock;
      first_plain = subst (All IsPlain) (sym same) d.first_plain;
      second_plain = subst (All IsPlain) (sym still) tt;
    },
  )

  -- The jobs that wait for a thread.
  abbrev pub jobs_for : Thread c → List Job
  jobs_for t = jobs_at c fifo t.first ++ jobs_at c fifo t.second

  stays_open : (t : Thread c) → Drains t → 0 < waiting t → may_leave c t ≡ false
  stays_open t d some_left = ground (arith, d.leaving, empty_len t.first, empty_len t.second)

  -- What a round with messages left does.
  pub record Advances (idle : IdleThreshold) (clock : Clock) (t : Thread c) (r : Round c)
      : Type 0 where
    pub runs : round c idle clock t ≡ some r
    pub on : r.next ≡ goes_on 0
    pub drains : Drains r.thread
    pub less : effort r.thread < effort t
    pub jobs : (i : ℕ) → count i (jobs_for t) ≡ count i r.ran + count i (jobs_for r.thread)

  after_work_plain :
      (idle : IdleThreshold) (clock : Clock) (t : Thread c) (work : Option Job)
      → Drains t
      → after_work c idle clock t work
        ≡ record { thread = t; ran = ran_jobs work; next = goes_on 0 }
  unfolding settle
  after_work_plain idle clock t work d =
      ground (arith, after_work_lem c idle clock t work, d.leaving, d.no_clock)

  -- The round after a check that did not break off.
  advances :
      (idle : IdleThreshold) (clock : Clock) (t : Thread c) (k : Checked c)
      → Drains t
      → 0 < waiting t
      → check_queues c t.pri_work_count t.first t.second (waits_of t.my_id).0 (waits_of t.my_id).1
        ≡ some k
      → (r : Round c) × Advances idle clock t r
  unfolding round
  advances idle clock t k d some_left checked =
      let u = with_checked c t k in
      let serves = check_queues-Serves c fifo _ _ _ _ _ k checked in
      let (less, drains) = checked-Drains t k d some_left serves in
      let fine = not_broken c fifo _ _ _ _ _ k checked in
      let worked = after_work_plain idle clock u k.work.job drains in
      (
        record { thread = u; ran = ran_jobs k.work.job; next = goes_on 0 },
        record {
          runs = ground (arith, stays_open t d some_left, d.unmarked, checked, fine, worked);
          on = refl;
          drains = drains;
          less = less;
          jobs = λ i. count-Took c fifo i t u k.work (Took-Serves c fifo t k u serves refl refl);
        },
      )

  pub round-Advances :
      (idle : IdleThreshold) (clock : Clock) (t : Thread c)
      → Drains t
      → 0 < waiting t
      → (r : Round c) × Advances idle clock t r
  round-Advances idle clock t d some_left =
      elim (Option-cases (
        check_queues c t.pri_work_count t.first t.second (waits_of t.my_id).0
          (waits_of t.my_id).1)) [
            | inl panics ↦ absurd (
                check_queues_returns c fifo _ _ _ _ _ (plain-Unpackable _ d.first_plain)
                  (plain-Unpackable _ d.second_plain) panics)
            | inr (k, checked) ↦ advances idle clock t k d some_left checked
          ]

  -- Both queues are empty: the thread returns.
  pub round_leaves :
      (idle : IdleThreshold) (clock : Clock) (t : Thread c)
      → Drains t
      → waiting t ≡ 0
      → round c idle clock t
        ≡ some (record { thread = record t { stat = 1 }; ran = []; next = quits })
  unfolding round
  round_leaves idle clock t d none_left =
      ground (arith, d.leaving, d.unmarked, empty_len t.first, empty_len t.second)
