-- ===== src/Pool/Delivering.antt =====
-- src/pool.rs: what `dispatch` does with a queue that has room.
use thread_pool.Prelude.{
  Result, Option, ℕ, refl, suc, ◌<◌, ◌≡◌, Option-cases, ap, ◌∙◌, inl, inr, Bool, ◌||◌, [], ◌∷◌,
  ◌++◌, some, ok, err, if◌then◌else◌, not, none, ◌==◌, Bool-cases, arith,
}
use thread_pool.Model.{Job, Message}
use thread_pool.Channel.{Channel, IsFifo}
use thread_pool.Worker.{Queue, pri, norm}
use thread_pool.Manager.Jobs.{at}
use thread_pool.Pool.{ThreadPool, ExecutionError}
use thread_pool.Pool.Dispatch.{
  pick, dispatch, send, try_send, send_timeout, send_timeout_loop, with_state,
}
use thread_pool.Pool.Life.{activate}
use thread_pool.Pool.Exec.{exec, exec_on}
use thread_pool.Manager.Jobs.{Queues, put}

module _ (c : Channel) (fifo : IsFifo c) where
  open fifo use {contents}

  -- A queue has room for one more message.
  abbrev pub HasRoom : Queue → ThreadPool c → Type 0
  HasRoom queue p = c.len (at c queue p.queues) < fifo.capacity (at c queue p.queues)

  pub at-put_same : (queue : Queue) (s : c.State) (q : Queues c) → at c queue (put c queue s q) ≡ s
  at-put_same pri s q = refl
  at-put_same norm s q = refl

  abbrev pub other : Queue → Queue
  other pri = norm
  other norm = pri

  pub at-put-other :
      (queue : Queue) (s : c.State) (q : Queues c)
      → at c (other queue) (put c queue s q) ≡ at c (other queue) q
  at-put-other pri s q = refl
  at-put-other norm s q = refl

  -- One queue has the message at its end, and the other one is as it was.
  pub record Appends (m : Message) (p q : ThreadPool c) : Type 0 where
    pub queue : Queue
    pub appended : contents (at c queue q.queues) ≡ contents (at c queue p.queues) ++ m ∷ []
    pub others : at c (other queue) q.queues ≡ at c (other queue) p.queues

  pub queues-Appends :
      (m : Message) (p q r : ThreadPool c) → r.queues ≡ q.queues → Appends m p q → Appends m p r
  queues-Appends m p q r same a = record {
    queue = a.queue;
    appended = ap (λ (v : Queues c). contents (at c a.queue v)) same ∙ a.appended;
    others = ap (at c (other a.queue)) same ∙ a.others;
  }

  abbrev taken_by : c.State → Option (Result (Unit {0}) Message × c.State) → c.State
  taken_by s none = s
  taken_by s (some (r, t)) = t

  -- The state of a queue after the send that a pool's settings choose.
  abbrev pub sent_state : Message → c.State → ThreadPool c → c.State
  sent_state m s p = elim p.queue_timeout [
    | some period ↦ (c.send_timeout m period s).1
    | none ↦ if not p.non_blocking then taken_by s (c.send m s) else (c.try_send m s).1
  ]

  -- The pool after it has sent a message to a queue.
  abbrev pub after_send : Queue → Message → ThreadPool c → ThreadPool c
  after_send queue m p = with_state c queue (sent_state m (at c queue p.queues) p) p

  sent_state-contents :
      (m : Message) (s : c.State) (p : ThreadPool c)
      → c.len s < fifo.capacity s
      → contents (sent_state m s p) ≡ contents s ++ m ∷ []
  sent_state-contents m s p room = elim (Option-cases p.queue_timeout) [
    | inr (period, limited) ↦ ground (arith, fifo.send_timeout_room m period s room)
    | inl unlimited ↦ elim (Bool-cases p.non_blocking) [
      | inl tries ↦ ground (arith, fifo.try_send_room m s room)
      | inr blocks ↦ ground (arith, fifo.send_room m s room)
    ]
  ]

  pub put-Appends :
      (queue : Queue) (m : Message) (s : c.State) (p : ThreadPool c)
      → contents s ≡ contents (at c queue p.queues) ++ m ∷ []
      → Appends m p (with_state c queue s p)
  put-Appends queue m s p sent = record {
    queue = queue;
    appended = ap (λ (v : c.State). contents v) (at-put_same queue s p.queues) ∙ sent;
    others = at-put-other queue s p.queues;
  }

  pub after_send-contents :
      (queue : Queue) (m : Message) (p : ThreadPool c)
      → HasRoom queue p
      → contents (at c queue (after_send queue m p).queues)
        ≡ contents (at c queue p.queues) ++ m ∷ []
  after_send-contents queue m p room =
      let s = at c queue p.queues in
      ap (λ (v : c.State). contents v) (at-put_same queue (sent_state m s p) p.queues)
      ∙ sent_state-contents m s p room

  pub sent-Appends :
      (queue : Queue) (m : Message) (p : ThreadPool c)
      → HasRoom queue p
      → Appends m p (after_send queue m p)
  sent-Appends queue m p room =
      let s = at c queue p.queues in
      put-Appends queue m (sent_state m s p) p (sent_state-contents m s p room)

  loop_sends :
      (fuel : ℕ) (chan : Queue × ℕ) (m : Message) (period retry : ℕ) (p : ThreadPool c)
      → (c.send_timeout m period (at c chan.0 p.queues)).0 ≡ ok tt
      → send_timeout_loop c (suc fuel) chan m period retry p
        ≡ some (ok tt, with_state c chan.0 (c.send_timeout m period (at c chan.0 p.queues)).1 p)
  unfolding send_timeout_loop
  loop_sends fuel chan m period retry p done = ground (arith, done)

  -- The first try of the loop gets through.
  send_timeout_sends :
      (chan : Queue × ℕ) (m : Message) (period retry : ℕ) (p : ThreadPool c)
      → HasRoom chan.0 p
      → send_timeout c chan m period retry p
        ≡ some (ok tt, with_state c chan.0 (c.send_timeout m period (at c chan.0 p.queues)).1 p)
  unfolding send_timeout
  send_timeout_sends chan m period retry p room =
      let s = at c chan.0 p.queues in
      loop_sends 5 chan m period retry p (fifo.send_timeout_room m period s room).0

  try_send_sends :
      (chan : Queue × ℕ) (m : Message) (p : ThreadPool c)
      → (c.try_send m (at c chan.0 p.queues)).0 ≡ ok tt
      → try_send c chan m p ≡ (ok tt, with_state c chan.0 (c.try_send m (at c chan.0 p.queues)).1 p)
  unfolding try_send
  try_send_sends chan m p done = ground (arith, done)

  send_sends :
      (queue : Queue) (m : Message) (p : ThreadPool c) (t : c.State)
      → c.send m (at c queue p.queues) ≡ some (ok tt, t)
      → send c queue m p ≡ some (ok tt, with_state c queue t p)
  unfolding send
  send_sends queue m p t done = ground (arith, done)

  -- With room in the queue, a pool sends the message, whatever its settings and the number of tries
  -- that it starts from.
  pub dispatch_sends :
      (m : Message) (retry : ℕ) (prioritized : Bool) (p : ThreadPool c)
      → let queue = (pick c prioritized p).0 in
        let after = after_send queue m p in
        HasRoom queue p
        → dispatch c m retry prioritized p ≡ some (ok (c.is_full (at c queue after.queues)), after)
  unfolding dispatch
  dispatch_sends m retry prioritized p room =
      let chan = pick c prioritized p in
      let s = at c chan.0 p.queues in
      elim (Option-cases p.queue_timeout) [
        | inr (period, limited) ↦
            ground (arith, limited, send_timeout_sends chan m period retry p room)
        | inl unlimited ↦ elim (Bool-cases p.non_blocking) [
          | inl tries ↦
              ground
                (arith, unlimited, tries, try_send_sends chan m p (fifo.try_send_room m s room).0)
          | inr blocks ↦
              let (t, done, appended) = fifo.send_room m s room in
              ground (arith, unlimited, blocks, done, send_sends chan.0 m p t done)
        ]
      ]

  pub exec_lem :
      (f : Job) (prioritized : Bool) (p : ThreadPool c)
      → exec c f prioritized p ≡ (
          if p.status == 1 || p.status == 2
          then some (err ExecutionError.disconnected, p)
          else exec_on c f prioritized p)
  unfolding exec activate
  exec_lem f prioritized p = ground arith
