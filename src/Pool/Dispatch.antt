-- ===== src/Pool/Dispatch.antt =====
-- src/pool.rs, `DispatchFlavors` and `dispatch`: handing a message to one of the two channels.
use thread_pool.Prelude.{
  ℕ, zero, suc, ◌+◌, ◌%◌, Bool, true, false, not, ◌&&◌, ◌||◌, List, [], ◌∷◌, Option, none, some,
  Result, ok, err, if◌then◌else◌, ◌==◌, ltb, leb,
}
use thread_pool.Model.{Message, single_job, chained_jobs, terminate, Event, ran}
use thread_pool.Channel.{Channel, TrySendError, SendTimeoutError, timeout, disconnected}
use thread_pool.Config.{direct_run, drop, lossy_retry}
use thread_pool.Worker.{Queue}
use thread_pool.Manager.{logs}
use thread_pool.Manager.Jobs.{Queues, at, put, drop_one, drop_many}
use thread_pool.Pool.{ThreadPool, retry_limit, wake_workers}

-- The event of a job that is run directly, if the message holds one.
abbrev pub run_directly : Message → List Event
run_directly (single_job job) = ran job ∷ []
run_directly (chained_jobs jobs) = []
run_directly (terminate ids) = []

-- Rounds of `send_timeout` that are enough: `send_timeout_ends` and `send_timeout_evicts`.
abbrev pub send_fuel : ℕ
send_fuel = 6

module _ (c : Channel) where
  abbrev pub Sent : Type 0
  Sent = Result (Unit {0}) SendTimeoutError × ThreadPool c

  abbrev pub with_state : Queue → c.State → ThreadPool c → ThreadPool c
  with_state chan s p = record p { queues = put c chan s p.queues }

  abbrev pub with_drops : ℕ × Queues c → ThreadPool c → ThreadPool c
  with_drops (count, queues) p = record p { queues = queues }

  -- The loop from a `retry` on, which is a `u8`; `none` means that the fuel ran out.
  unfoldable pub send_timeout_loop : ℕ → Queue × ℕ → Message → ℕ → ℕ → ThreadPool c → Option Sent
  send_timeout_loop zero chan message period retry p = none
  send_timeout_loop (suc fuel) chan message period retry p =
      let (r, s) = c.send_timeout message period (at c chan.0 p.queues) in
      let sent = with_state chan.0 s p in
      elim r [
        | ok done ↦ some (ok tt, sent)
        | err (disconnected msg) ↦ some (err (disconnected msg), sent)
        | err (timeout msg) ↦
            let woken = wake_workers c sent in
            elim p.timeout_policy [
              | lossy_retry ↦
                  send_timeout_loop fuel chan msg period ((retry + 1) % 256)
                    (with_drops (drop_many c chan.1 retry woken.manager woken.queues) woken)
              | direct_run ↦
                  some (ok tt, record woken { manager = logs woken.manager (run_directly msg) })
              | drop ↦ elim (retry == 0 || ltb retry_limit retry) [
                | true ↦ some (err (timeout msg), woken)
                | false ↦ send_timeout_loop fuel chan msg period ((retry + 1) % 256) woken
              ]
            ]
      ]

  unfoldable pub send_timeout : Queue × ℕ → Message → ℕ → ℕ → ThreadPool c → Option Sent
  unfolding send_timeout_loop
  send_timeout chan message period retry p = send_timeout_loop send_fuel chan message period retry p

  abbrev sent_or_disconnected : Result (Unit {0}) Message → Result (Unit {0}) SendTimeoutError
  sent_or_disconnected (ok done) = ok tt
  sent_or_disconnected (err msg) = err (disconnected msg)

  -- `none` is a wait for room that has no end.
  unfoldable pub send : Queue → Message → ThreadPool c → Option Sent
  send chan message p = elim (c.send message (at c chan p.queues)) [
    | none ↦ none
    | some (r, s) ↦ some (sent_or_disconnected r, with_state chan s p)
  ]

  -- The `map_err` of the second `try_send`: a full channel is a timeout.
  abbrev pub full_as_timeout : Result (Unit {0}) TrySendError → Result (Unit {0}) SendTimeoutError
  full_as_timeout (ok done) = ok tt
  full_as_timeout (err (TrySendError.disconnected msg)) = err (disconnected msg)
  full_as_timeout (err (TrySendError.full msg)) = err (timeout msg)

  unfoldable pub try_send : Queue × ℕ → Message → ThreadPool c → Sent
  try_send chan message p =
      let (r, s) = c.try_send message (at c chan.0 p.queues) in
      let tried = with_state chan.0 s p in
      elim r [
        | ok done ↦ (ok tt, tried)
        | err (TrySendError.disconnected msg) ↦ (err (disconnected msg), tried)
        | err (TrySendError.full msg) ↦
            let woken = wake_workers c tried in
            elim p.timeout_policy [
              | lossy_retry ↦
                  let dropped = with_drops (drop_one c chan.1 woken.manager woken.queues) woken in
                  let (again, t) = c.try_send msg (at c chan.0 dropped.queues) in
                  (full_as_timeout again, with_state chan.0 t dropped)
              | direct_run ↦ (err (timeout msg), woken)
              | drop ↦ (err (timeout msg), woken)
            ]
      ]

  -- The channel for a message, with its number.
  unfoldable pub pick : Bool → ThreadPool c → Queue × ℕ
  pick with_priority p =
      if with_priority
        || (c.is_empty (at c p.chan.1 p.queues)
            && leb (c.len (at c p.chan.0 p.queues)) p.upgrade_threshold)
      then (p.chan.0, 0)
      else (p.chan.1, 1)

  -- `res.map(|_| chan.is_full())`
  abbrev is_busy : Queue → Sent → Result Bool SendTimeoutError × ThreadPool c
  is_busy chan (ok done, p) = (ok (c.is_full (at c chan p.queues)), p)
  is_busy chan (err e, p) = (err e, p)

  abbrev then_busy : Queue → Option Sent → Option (Result Bool SendTimeoutError × ThreadPool c)
  then_busy chan none = none
  then_busy chan (some sent) = some (is_busy chan sent)

  unfoldable pub dispatch :
      Message → ℕ → Bool → ThreadPool c → Option (Result Bool SendTimeoutError × ThreadPool c)
  dispatch message retry with_priority p =
      let chan = pick with_priority p in
      then_busy chan.0 (elim p.queue_timeout [
        | some period ↦ send_timeout chan message period retry p
        | none ↦
            if not p.non_blocking then send chan.0 message p else some (try_send chan message p)
      ])
