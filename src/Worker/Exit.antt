-- ===== src/Worker/Exit.antt =====
-- src/worker.rs, the main loop: what a round runs, why a worker leaves, and what counts as idle.
use thread_pool.Prelude.{
  ℕ, ◌-◌, ◌/◌, ◌≤◌, ◌≡◌, refl, sym, ap, ◌∙◌, ◌≢◌, ◌↔◌, ◌⊎◌, inl, inr, false, [], none, some, arith,
  Option-cases,
}
use thread_pool.Model.{flag_force_close, flag_closing, flag_rest}
use thread_pool.Channel.{Channel, IsFifo}
use thread_pool.Idle.{IdleThreshold, Passed, idle_stat, idle_stat_codes}
use thread_pool.Worker.Queues.{WorkStatus, Checked}
use thread_pool.Worker.Serving.{
  Takes, Serves, from_first, from_second, nothing, check_queues-Serves,
}
use thread_pool.Worker.Loop.{
  Clock, Thread, quits, goes_on, Round, ran_jobs, may_leave, with_checked, round, nanos,
}
use thread_pool.Worker.Rounds.{
  idle_code, since_after, idle_code_le, settle_lem, settle_keeps, after_work_lem, leaves, breaks,
  works, round-Goes, not_broken, empty_contents, settle_stat,
}

module _ (c : Channel) where
  -- If a round of a worker with its counter at 0 marks the counter and the worker goes on, it
  -- hibernates. Once it is woken, whatever its queues, the status, the thresholds and the clock
  -- are by then, its next round returns and runs nothing: the mark, 1, is also the one by which it
  -- is told to stop.
  pub hibernated_leaves :
      (idle later : IdleThreshold) (clock clock' : Clock) (t : Thread c) (r : Round c) (n : ℕ)
      (status : ℕ) (first second : c.State)
      → t.stat ≡ 0
      → round c idle clock t ≡ some r
      → r.next ≡ goes_on n
      → r.thread.stat ≢ 0
      → let woken = record r.thread { status = status; first = first; second = second } in
        round c later clock' woken ≡ some (record { thread = woken; ran = []; next = quits })
  unfolding round
  hibernated_leaves idle later clock clock' t r n status first second zero_stat e on marked =
      let one : r.thread.stat ≡ 1 = elim (round-Goes c idle clock t r (omega arith) e) [
        | leaves leave eq ↦ absurd (ground arith)
        | breaks k checked code eq ↦ absurd (ground arith)
        | works k stay checked eq ↦
            let u = with_checked c t k in
            let w = record u { since = since_after clock u.since } in
            let code = idle_code idle clock u.since in
            let p =
              (settle_lem c w code (ran_jobs k.work.job) (idle_code_le idle clock u.since)).1 n in
            let q = eq ∙ after_work_lem c idle clock u k.work.job in ground (arith, p, q)
      ] in
      ground arith

-- The message that a round takes, if any: the oldest of one of its queues, and the other queue is
-- left alone.
abbrev pub Took : (c : Channel) → IsFifo c → Thread c → Thread c → WorkStatus → Type 0
Took c fifo t u w =
    (Takes c fifo t.first u.first w × (fifo.contents u.second ≡ fifo.contents t.second))
    ⊎ (Takes c fifo t.second u.second w × (fifo.contents u.first ≡ fifo.contents t.first))
    ⊎ ((w.job ≡ none)
        × (fifo.contents u.first ≡ fifo.contents t.first)
        × (fifo.contents u.second ≡ fifo.contents t.second))

module _ (c : Channel) (fifo : IsFifo c) where
  open fifo use {contents}

  pub Took-Serves :
      (t : Thread c) (k : Checked c) (u : Thread c)
      → Serves c fifo t.pri_work_count t.first t.second k
      → u.first ≡ k.first
      → u.second ≡ k.second
      → Took c fifo t u k.work
  Took-Serves t k u (from_first below takes same counter) p q = rw (p, q) (inl (takes, same))
  Took-Serves t k u (from_second skip same takes counter) p q = rw (p, q) (inr (inl (takes, same)))
  Took-Serves t k u (nothing skip gone same still code job counter) p q =
      rw (p, q) (inr (inr (job, same, still ∙ sym gone)))

  -- Over channels that keep their documented order, a round of a worker that was not told to stop
  -- takes at most one message, the oldest of one queue, and runs exactly the job that it holds: no
  -- job is run that was not taken, none is taken and not run, and none is run twice.
  pub round_runs_what_it_takes :
      (idle : IdleThreshold) (clock : Clock) (t : Thread c) (r : Round c)
      → t.stat ≢ 1
      → round c idle clock t ≡ some r
      → (w : WorkStatus) × Took c fifo t r.thread w × (r.ran ≡ ran_jobs w.job)
  round_runs_what_it_takes idle clock t r go e = elim (round-Goes c idle clock t r go e) [
    | leaves leave eq ↦ (
      record { code = 0; job = none },
      inr (inr (refl, ground arith, ground arith)),
      ground arith,
    )
    | breaks k checked code eq ↦ absurd (not_broken c fifo _ _ _ _ _ k checked code)
    | works k stay checked eq ↦
        let u = with_checked c t k in
        let w = record u { since = since_after clock u.since } in
        let keeps = settle_keeps c w (idle_code idle clock u.since) (ran_jobs k.work.job) in
        let q = eq ∙ after_work_lem c idle clock u k.work.job in
        let serves = check_queues-Serves c fifo _ _ _ _ _ k checked in
        (
          k.work,
          Took-Serves t k r.thread serves (ground (arith, keeps, q)) (ground (arith, keeps, q)),
          ground (arith, keeps, q),
        )
  ]

  -- Over channels that keep their documented order, a worker that was not told to stop returns for
  -- one of three reasons: the pool is force closed; the pool is closing or at rest and both its
  -- queues are empty; or it works on a clock (its `since` is set) that shows the retirement
  -- threshold passed. A clock set back is left aside.
  pub quits_because :
      (idle : IdleThreshold) (clock : Clock) (t : Thread c) (r : Round c)
      → t.stat ≢ 1
      → ((s : ℕ) → t.since ≡ some s → s ≤ clock.read)
      → round c idle clock t ≡ some r
      → r.next ≡ quits
      → (t.status ≡ flag_force_close)
        ⊎ (((t.status ≡ flag_closing) ⊎ (t.status ≡ flag_rest))
            × (contents t.first ≡ [])
            × (contents t.second ≡ []))
        ⊎ ((s : ℕ) × (t.since ≡ some s) × Passed idle.retire ((clock.read - s) / nanos))
  quits_because idle clock t r go forward e ends = elim (round-Goes c idle clock t r go e) [
    | leaves leave eq ↦
        ground (arith, empty_contents c fifo t.first, empty_contents c fifo t.second)
    | breaks k checked code eq ↦ absurd (not_broken c fifo _ _ _ _ _ k checked code)
    | works k stay checked eq ↦
        let u = with_checked c t k in
        let w = record u { since = since_after clock u.since } in
        let code = idle_code idle clock u.since in
        let p = (settle_lem c w code (ran_jobs k.work.job) (idle_code_le idle clock u.since)).0 in
        let q = eq ∙ after_work_lem c idle clock u k.work.job in
        let two : code ≡ 2 = ground (arith, p, q) in
        inr (
          inr (elim (Option-cases t.since) [
            | inl off ↦ absurd (ground arith)
            | inr (s, on) ↦ (
              s,
              on,
              ground (arith, forward s on, (idle_stat_codes idle ((clock.read - s) / nanos)).1),
            )
          ]))
  ]

  -- Over channels that keep their documented order, and with no clock set back: a worker on a
  -- clock, with its counter unmarked, restarts the clock in every round that it stays for, whether
  -- or not it ran a job, so the time held against the thresholds is that of one round. It goes on
  -- with its counter unmarked exactly when, over that time, neither threshold is passed; the
  -- retirement threshold counts here only if the other is off.
  pub idle_within_one_round :
      (idle : IdleThreshold) (clock : Clock) (t : Thread c) (r : Round c) (s : ℕ)
      → t.stat ≡ 0
      → may_leave c t ≡ false
      → t.since ≡ some s
      → s ≤ clock.read
      → round c idle clock t ≡ some r
      → (r.thread.since ≡ some clock.set)
        × ((r.thread.stat ≡ 0) ↔ (
            ¬ Passed idle.hibernate ((clock.read - s) / nanos)
            × ¬ ((idle.hibernate ≡ 0) × Passed idle.retire ((clock.read - s) / nanos))))
  idle_within_one_round idle clock t r s zero stay on forward e =
      elim (round-Goes c idle clock t r (omega arith) e) [
        | leaves leave eq ↦ absurd (cc)
        | breaks k checked code eq ↦ absurd (not_broken c fifo _ _ _ _ _ k checked code)
        | works k open' checked eq ↦
            let u = with_checked c t k in
            let w = record u { since = since_after clock u.since } in
            let code = idle_code idle clock u.since in
            let small = idle_code_le idle clock u.since in
            let p = settle_stat c w code (ran_jobs k.work.job) small in
            let keeps = settle_keeps c w code (ran_jobs k.work.job) in
            let q = eq ∙ after_work_lem c idle clock u k.work.job in
            let same : code ≡ idle_stat idle ((clock.read - s) / nanos) =
              ap (idle_code idle clock) on ∙ ground arith in
            let stat : r.thread.stat ≡ idle_stat idle ((clock.read - s) / nanos) =
              ground (arith, p.0, q) in
            let codes = idle_stat_codes idle ((clock.read - s) / nanos) in
            (ground (arith, keeps, q, ap (since_after clock) on), ground (arith, codes))
      ]

  -- Over channels that keep their documented order, a worker without a clock, as the pool's own
  -- workers are, never expires: in every round that it stays for, it keeps its counter unmarked
  -- and stays without a clock.
  pub privileged_stays :
      (idle : IdleThreshold) (clock : Clock) (t : Thread c) (r : Round c)
      → t.stat ≡ 0
      → may_leave c t ≡ false
      → t.since ≡ none
      → round c idle clock t ≡ some r
      → (r.thread.since ≡ none) × (r.thread.stat ≡ 0) × (n : ℕ) × (r.next ≡ goes_on n)
  privileged_stays idle clock t r zero stay off e =
      elim (round-Goes c idle clock t r (omega arith) e) [
        | leaves leave eq ↦ absurd (cc)
        | breaks k checked code eq ↦ absurd (not_broken c fifo _ _ _ _ _ k checked code)
        | works k open' checked eq ↦
            let u = with_checked c t k in
            let w = record u { since = since_after clock u.since } in
            let code = idle_code idle clock u.since in
            let p = settle_stat c w code (ran_jobs k.work.job) (idle_code_le idle clock u.since) in
            let keeps = settle_keeps c w code (ran_jobs k.work.job) in
            let q = eq ∙ after_work_lem c idle clock u k.work.job in
            let zero_code : code ≡ 0 = ap (idle_code idle clock) off in
            let r' = p.1 zero_code in
            (
              ground (arith, keeps, q, ap (since_after clock) off),
              ground (arith, p.0, q),
              r'.0,
              ground (arith, q, r'.1),
            )
      ]
