-- ===== src/Pool/Retrying.antt =====
-- src/pool.rs, `send_timeout` under the policy that evicts and tries again.
use thread_pool.Prelude.{
  ℕ, zero, suc, ◌+◌, ◌-◌, ◌%◌, ◌≤◌, ◌<◌, ◌≡◌, ◌≢◌, inl, inr, refl, sym, ap, ◌∙◌, List, none, some,
  err, Result-cases, Option-cases, Bool-cases, length, length-drop, arith,
}
use thread_pool.Model.{Message}
use thread_pool.Channel.{Channel, IsFifo, SendTimeoutError, timeout, disconnected}
use thread_pool.Config.{lossy_retry}
use thread_pool.Worker.{Queue, pri, norm}
use thread_pool.Manager.{Manager}
use thread_pool.Manager.Jobs.{Queues, at, drop_loop, drop_many}
use thread_pool.Manager.Jobs.Drops.{drop_many_drops}
use thread_pool.Pool.{ThreadPool, wake_workers}
use thread_pool.Pool.Dispatch.{Sent, with_state, with_drops, send_timeout_loop, send_timeout}
use thread_pool.Pool.Evicting.{number_of, wake_workers_keeps}
use thread_pool.Pool.Delivering.{at-put_same}

module _ (c : Channel) (fifo : IsFifo c) where
  open fifo use {contents, capacity}

  drop_loop_capacity :
      (left count : ℕ) (s : c.State) → capacity (drop_loop c left count s).1 ≡ capacity s
  unfolding drop_loop
  drop_loop_capacity zero count s = refl
  drop_loop_capacity (suc left) count s = elim (Result-cases (c.try_recv s).0) [
    | inl (m, e) ↦
        ground
          (arith, drop_loop_capacity left (count + 1) (c.try_recv s).1, fifo.capacity_try_recv s)
    | inr (e, h) ↦ ground (arith, fifo.capacity_try_recv s)
  ]

  drop_many_capacity :
      (queue : Queue) (target : ℕ) (m : Manager) (q : Queues c)
      → m.chan ≡ (pri, norm)
      → capacity (at c queue (drop_many c (number_of queue) target m q).1) ≡ capacity (at c queue q)
  unfolding drop_many
  drop_many_capacity pri target m q e = elim (Bool-cases (c.is_empty q.pri_state)) [
    | inl gone ↦ ground arith
    | inr more ↦ ground (arith, drop_loop_capacity target 0 q.pri_state)
  ]
  drop_many_capacity norm target m q e = elim (Bool-cases (c.is_empty q.norm_state)) [
    | inl gone ↦ ground arith
    | inr more ↦ ground (arith, drop_loop_capacity target 0 q.norm_state)
  ]

  length-drop_many :
      (queue : Queue) (target : ℕ) (m : Manager) (q : Queues c)
      → m.chan ≡ (pri, norm)
      → length (contents (at c queue (drop_many c (number_of queue) target m q).1))
        ≡ length (contents (at c queue q)) - target
  length-drop_many pri target m q e =
      ap (λ (l : List Message). length l) (drop_many_drops c fifo target 0 m q e).0.1
      ∙ length-drop target (contents q.pri_state)
  length-drop_many norm target m q e =
      ap (λ (l : List Message). length l) (drop_many_drops c fifo target 0 m q e).1.1
      ∙ length-drop target (contents q.norm_state)

  -- What every round finds: the policy, the receivers, and a queue within its capacity, which is
  -- not 0.
  record Retries (queue : Queue) (p : ThreadPool c) : Type 0 where
    policy : p.timeout_policy ≡ lossy_retry
    chan : p.manager.chan ≡ (pri, norm)
    within : length (contents (at c queue p.queues)) ≤ capacity (at c queue p.queues)
    some_room : 0 < capacity (at c queue p.queues)

  -- The pool after a round that timed out.
  abbrev after_drops : Queue → Message → ℕ → ℕ → ThreadPool c → ThreadPool c
  after_drops queue message period retry p =
      let woken =
        wake_workers c
          (with_state c queue (c.send_timeout message period (at c queue p.queues)).1 p) in
      with_drops c (drop_many c (number_of queue) retry woken.manager woken.queues) woken

  after_drops-Retries :
      (queue : Queue) (message : Message) (period retry : ℕ) (p : ThreadPool c)
      (e : SendTimeoutError)
      → Retries queue p
      → (c.send_timeout message period (at c queue p.queues)).0 ≡ err e
      → let q = after_drops queue message period retry p in
        Retries queue q
        × (length (contents (at c queue q.queues))
            ≡ length (contents (at c queue p.queues)) - retry)
        × (capacity (at c queue q.queues) ≡ capacity (at c queue p.queues))
  after_drops-Retries queue message period retry p e r h =
      let s = at c queue p.queues in
      let t = (c.send_timeout message period s).1 in
      let tried = with_state c queue t p in
      let woken = wake_workers c tried in
      let (queues, chan, policy) = wake_workers_keeps c fifo tried in
      let here : at c queue woken.queues ≡ t =
        ap (at c queue) queues ∙ at-put_same c fifo queue t p.queues in
      let same = (fifo.send_timeout_fails message period s e h).1 in
      let size : length (contents (at c queue (after_drops queue message period retry p).queues))
          ≡ length (contents s) - retry =
        length-drop_many queue retry woken.manager woken.queues (chan ∙ r.chan)
        ∙ ap (λ (v : c.State). length (contents v) - retry) here
        ∙ ap (λ (l : List Message). length l - retry) same in
      let room : capacity (at c queue (after_drops queue message period retry p).queues)
          ≡ capacity s =
        drop_many_capacity queue retry woken.manager woken.queues (chan ∙ r.chan)
        ∙ ap (λ (v : c.State). capacity v) here
        ∙ fifo.capacity_send_timeout message period s in
      (
        record {
          policy = policy ∙ r.policy;
          chan = chan ∙ r.chan;
          within = omega (arith, size, room, r.within);
          some_room = omega (arith, room, r.some_room);
        },
        size,
        room,
      )

  room_ends :
      (fuel : ℕ) (queue : Queue) (message : Message) (period retry : ℕ) (p : ThreadPool c)
      → length (contents (at c queue p.queues)) < capacity (at c queue p.queues)
      → send_timeout_loop c (suc fuel) (queue, number_of queue) message period retry p ≢ none
  unfolding send_timeout_loop
  room_ends fuel queue message period retry p room gone =
      let s = at c queue p.queues in
      let sent =
        fifo.send_timeout_room message period s (omega (arith, fifo.len_contents s, room)) in
      ground (arith, sent.0)

  -- A round that times out goes on to the next one.
  next_round :
      (fuel : ℕ) (queue : Queue) (message msg : Message) (period retry : ℕ) (p : ThreadPool c)
      → p.timeout_policy ≡ lossy_retry
      → (c.send_timeout message period (at c queue p.queues)).0 ≡ err (timeout msg)
      → send_timeout_loop c (suc fuel) (queue, number_of queue) message period retry p
        ≡ send_timeout_loop c fuel
            (queue, number_of queue)
            msg
            period
            ((retry + 1) % 256)
            (after_drops queue message period retry p)
  unfolding send_timeout_loop
  next_round fuel queue message msg period retry p policy e =
      let tried = with_state c queue (c.send_timeout message period (at c queue p.queues)).1 p in
      let kept = (wake_workers_keeps c fifo tried).2 ∙ policy in ground (arith, kept, e)

  -- A round ends, or goes on with a pool that it may drop messages from.
  round_ends :
      (fuel : ℕ) (queue : Queue) (message : Message) (period retry : ℕ) (p : ThreadPool c)
      → Retries queue p
      → send_timeout_loop c (suc fuel) (queue, number_of queue) message period retry p ≡ none
      → (msg : Message) × ((c.send_timeout message period (at c queue p.queues)).0
          ≡ err (timeout msg))
        × (send_timeout_loop c fuel
              (queue, number_of queue)
              msg
              period
              ((retry + 1) % 256)
              (after_drops queue message period retry p)
            ≡ none)
  unfolding send_timeout_loop
  round_ends fuel queue message period retry p r gone =
      elim (Result-cases (c.send_timeout message period (at c queue p.queues)).0) [
        | inl (done, e) ↦ absurd (ground arith)
        | inr (disconnected msg, e) ↦ absurd (ground arith)
        | inr (timeout msg, e) ↦
            (msg, e, sym (next_round fuel queue message msg period retry p r.policy e) ∙ gone)
      ]

  -- From a `retry` above 0, two rounds are enough: the first one makes room for the second.
  two_rounds :
      (queue : Queue) (message : Message) (period retry fuel : ℕ) (p : ThreadPool c)
      → Retries queue p
      → 0 < retry
      → send_timeout_loop c (suc (suc fuel)) (queue, number_of queue) message period retry p ≢ none
  two_rounds queue message period retry fuel p r some_retry gone =
      let (msg, e, rest) = round_ends (suc fuel) queue message period retry p r gone in
      let (next, size, room) = after_drops-Retries queue message period retry p (timeout msg) r e in
      room_ends fuel queue msg period ((retry + 1) % 256) (after_drops queue message period retry p)
        (omega (arith, size, room, r.within, r.some_room)) rest

  -- Under the policy that evicts and tries again, over channels that keep their documented order,
  -- and with the manager's receivers in the order that `build` is given them: a `send_timeout` into
  -- a queue that holds at most its capacity, which is not 0, returns, from any number of tries up
  -- to 254 on.
  pub send_timeout_evicts :
      (queue : Queue) (message : Message) (period retry : ℕ) (p : ThreadPool c)
      → p.timeout_policy ≡ lossy_retry
      → p.manager.chan ≡ (pri, norm)
      → length (contents (at c queue p.queues)) ≤ capacity (at c queue p.queues)
      → 0 < capacity (at c queue p.queues)
      → retry < 255
      → (s : Sent c) × (send_timeout c (queue, number_of queue) message period retry p ≡ some s)
  unfolding send_timeout
  send_timeout_evicts queue message period retry p policy chan within some_room few =
      let r : Retries queue p = record {
        policy = policy;
        chan = chan;
        within = within;
        some_room = some_room;
      } in
      elim (Option-cases (send_timeout_loop c 6 (queue, number_of queue) message period retry p)) [
        | inr s ↦ s
        | inl gone ↦
            let (msg, e, rest) = round_ends 5 queue message period retry p r gone in
            let next = (after_drops-Retries queue message period retry p (timeout msg) r e).0 in
            absurd (
              two_rounds queue msg period ((retry + 1) % 256) 3
                (after_drops queue message period retry p) next (omega (arith, few)) rest)
      ]
